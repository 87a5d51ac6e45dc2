-- ===== src/Tests/Connections.antt =====
-- Tests of Channel, Poller, the registrations of a loop, and TcpConnection: a loop with wakeup fd
-- 5 and epoll fd 3, and a connection 0 on fd 7, whose channel stands at address 20.
use network_library_baseon_c.Base.{
  ℕ, ◌≡◌, refl, inl, inr, true, false, List, [], ◌∷◌, none, some, arith, ◌>>=◌, lookup, ok,
}
use network_library_baseon_c.Buffer.{Buffer}
use network_library_baseon_c.Buffer.Invariant.{IsValid}
use network_library_baseon_c.Channel.{Channel, new_channel, is_writing, index_added}
use network_library_baseon_c.Channel.Events.{writing_on, change}
use network_library_baseon_c.Poller.{Poller, event_of}
use network_library_baseon_c.Poller
use network_library_baseon_c.Poller.Registered.{
  MovedOr, next_index, update_op, update_channel-MovedOr,
}
use network_library_baseon_c.EventLoop.{change_channel}
use network_library_baseon_c.EventLoop.Watching.{Watched, SwitchedOr, change_channel-Switched}
use network_library_baseon_c.TcpConnection.Handling.{
  connect_established_now, call_callback, Handlers, connect_destroyed_now,
}
use network_library_baseon_c.TcpConnection.{
  connected, World, send, send_bytes_in_loop, handle_write,
}
use network_library_baseon_c.TcpConnection.Ready.{IsReady}
use network_library_baseon_c.TcpConnection.Stream.{SentOr, send_bytes_in_loop-Sent}
use network_library_baseon_c.TcpConnection.Flushing.{FlushedOr, handle_write-Flushed}
use network_library_baseon_c.TcpConnection.States.{
  DestroyedOr, connect_destroyed_now-Destroyed, send_after_send,
}
use network_library_baseon_c.TcpConnection.Switching.{Unarmed}
use network_library_baseon_c.TcpConnection.Opening.{OpenedOr, connect_established_now-Opened}
use network_library_baseon_c.TcpConnection.Delivery.{
  Op, message, writable, DeliveredOr, run_ops, run_ops-Delivered,
}
use network_library_baseon_c.Poller.Wait.{PolledBy, poll-PolledBy}
use network_library_baseon_c.Tests.Toy.{toy-EpollWaitLaw}
use network_library_baseon_c.Tests.Toy.{
  Toy, toy, quiet, watch, toy-WriteLaw, toy-EpollCtlLaw, toy-ShutdownLaw,
}

abbrev channel : ℕ → Channel
channel events = record { fd = 7; events = events; revents = 0; index = index_added; tied = true }

abbrev poller : Poller
poller = record { epollfd = 3; channels = (7, 20) ∷ (5, 30) ∷ []; event_list_size = 16 }

abbrev kernel : ℕ → Toy
kernel events = watch quiet 3 7 (some (event_of 20 (channel events)))

abbrev holding : ℕ → ℕ → Buffer
holding from to = record {
  storage = 0 ∷ 0 ∷ 0 ∷ 0 ∷ 0 ∷ 0 ∷ 0 ∷ 0 ∷ 7 ∷ 8 ∷ 0 ∷ 0 ∷ [];
  reader_index = from;
  writer_index = to;
}

-- A connection whose output buffer holds its bytes up to offset `to`, its channel with mask
-- `events`.
abbrev world : ℕ → ℕ → World toy (List ℕ)
world events to = record {
  loop = record {
    looping = true;
    quit = false;
    thread_id = 1;
    poll_return_time = 0;
    poller = poller;
    wakeup_fd = 5;
    wakeup_channel = 30;
    active_channels = [];
    calling_pending_functors = false;
    pending_functors = [];
  };
  kernel = kernel events;
  channels = λ ptr. channel events;
  app = record {
    connections = λ c. record {
      loop = 1;
      name = [];
      state = connected;
      fd = 7;
      channel = 20;
      input = holding 8 8;
      output = holding 8 to;
      high_water_mark = 64;
      has_write_complete = true;
      has_high_water = false;
    };
    strings = λ ptr. none;
    user = [];
  };
}

idle_output : IsValid (holding 8 8)
idle_output = record {
  prepend = omega arith;
  ordered = omega arith;
  within = omega arith;
  small = omega arith;
}

full_output : IsValid (holding 8 10)
full_output = record {
  prepend = omega arith;
  ordered = omega arith;
  within = omega arith;
  small = omega arith;
}

known : lookup 7 poller.channels ≡ some 20
unfolding lookup
known = refl

-- Nothing waits, and the channel reads.
idle-IsReady : IsReady toy 0 (world 3 8)
idle-IsReady = record {
  output = idle_output;
  registered = (known, refl);
  mask = inr (inl refl);
  same_fd = refl;
  not_wakeup = refl;
  armed = inl refl;
}

-- Two bytes wait, and the channel reads and writes.
waiting-IsReady : IsReady toy 0 (world 7 10)
unfolding is_writing
waiting-IsReady = record {
  output = full_output;
  registered = (known, refl);
  mask = inr (inr (inr refl));
  same_fd = refl;
  not_wakeup = refl;
  armed = inr refl;
}

send_bytes_in_loop-Sent_example :
    SentOr toy 0
      (1 ∷ 2 ∷ 3 ∷ [])
      (world 3 8)
      (send_bytes_in_loop toy 0 (1 ∷ 2 ∷ 3 ∷ []) (world 3 8))
send_bytes_in_loop-Sent_example =
    send_bytes_in_loop-Sent toy toy-EpollCtlLaw toy-WriteLaw 0 (1 ∷ 2 ∷ 3 ∷ []) (world 3 8)
      (omega arith) idle-IsReady

handle_write-Flushed_example : FlushedOr toy 0 (world 7 10) (handle_write toy 0 (world 7 10))
handle_write-Flushed_example =
    handle_write-Flushed toy toy-EpollCtlLaw toy-WriteLaw toy-ShutdownLaw 0 (world 7 10)
      waiting-IsReady

send_after_send_example :
    (send_bytes_in_loop toy 0 (1 ∷ 2 ∷ []) (world 3 8) >>= send toy 1 0 40 (3 ∷ []))
    ≡ send_bytes_in_loop toy 0 (1 ∷ 2 ∷ []) (world 3 8)
send_after_send_example =
    send_after_send toy toy-EpollCtlLaw toy-WriteLaw 1 0 40 (1 ∷ 2 ∷ []) (3 ∷ []) (world 3 8)
      (omega arith) idle-IsReady

abbrev no_handlers : Handlers (World toy (List ℕ))
no_handlers = record {
  connection_callback = none;
  message_callback = none;
  close_callback = none;
  write_complete_callback = none;
  high_water_callback = none;
}

idle-Watched : Watched toy (world 3 8) 20
idle-Watched = (known, refl)

connect_destroyed_now-Destroyed_example :
    DestroyedOr toy 0 (world 3 8) (connect_destroyed_now toy no_handlers 0 (world 3 8))
connect_destroyed_now-Destroyed_example =
    connect_destroyed_now-Destroyed toy no_handlers toy-EpollCtlLaw 0 (world 3 8) idle-Watched

update_channel-MovedOr_example :
    MovedOr toy
      (kernel 3)
      poller
      20
      (channel 7)
      (next_index index_added (channel 7))
      (update_op index_added (channel 7))
      (Poller.update_channel toy (kernel 3) poller 20 (channel 7))
update_channel-MovedOr_example =
    update_channel-MovedOr toy toy-EpollCtlLaw (kernel 3) poller 20 (channel 7)
      (event_of 20 (channel 3)) (known, refl)

change_channel-Switched_example :
    SwitchedOr toy
      (world 3 8)
      20
      (change writing_on (channel 3))
      (change_channel toy (change writing_on) 20 (world 3 8))
change_channel-Switched_example =
    change_channel-Switched toy toy-EpollCtlLaw writing_on (world 3 8) 20 idle-Watched

-- The connection as newConncetion leaves it: its channel is new, and neither the poller nor epoll knows
-- it.
abbrev newborn : World toy (List ℕ)
newborn = record (world 0 8) {
  loop = record ((world 0 8).loop) { poller = record poller { channels = (5, 30) ∷ [] } };
  kernel = quiet;
  channels = λ ptr. new_channel 7;
}

-- A user who notes the connections that are opened.
abbrev greeter : Handlers (World toy (List ℕ))
greeter = record no_handlers {
  connection_callback =
      some (λ c r. ok (record r { app = record (r.app) { user = c ∷ r.app.user } }));
}

newborn-Unarmed : Unarmed toy 0 newborn
unfolding lookup new_channel
newborn-Unarmed = record {
  output = idle_output;
  registered = (refl, refl);
  mask = inl refl;
  same_fd = refl;
  not_wakeup = refl;
}

connect_established_now-Opened_example :
    OpenedOr toy
      (call_callback greeter.connection_callback)
      0
      newborn
      (connect_established_now toy greeter 0 newborn)
connect_established_now-Opened_example =
    connect_established_now-Opened toy greeter toy-EpollCtlLaw 0 newborn newborn-Unarmed refl

abbrev two_messages : List Op
two_messages = message (1 ∷ 2 ∷ []) ∷ writable ∷ message (3 ∷ []) ∷ writable ∷ writable ∷ []

run_ops-Delivered_example :
    DeliveredOr toy 0 two_messages (world 3 8) (run_ops toy 0 two_messages (world 3 8))
run_ops-Delivered_example =
    run_ops-Delivered toy toy-EpollCtlLaw toy-WriteLaw toy-ShutdownLaw 0 two_messages (world 3 8)
      (omega arith, (omega arith, tt)) idle-IsReady

-- Two events for one channel.
abbrev eventful : Toy
eventful = record quiet {
  events = record { events = 1; ptr = 20 } ∷ record { events = 4; ptr = 20 } ∷ [];
}

poll-PolledBy_example :
    PolledBy toy poller
      (λ ptr. channel 3)
      []
      (toy.epoll_wait eventful 3 16 100)
      (Poller.poll toy eventful poller 100 (λ ptr. channel 3) [])
poll-PolledBy_example =
    poll-PolledBy toy toy-EpollWaitLaw eventful poller 100 (λ ptr. channel 3) [] (omega arith)
