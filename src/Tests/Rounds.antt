-- ===== src/Tests/Rounds.antt =====
-- Tests of a loop that serves several channels: two connections of one loop, and the network of Servers
-- with an event that is reported.
use network_library_baseon_c.Base.{
  ℕ, zero, suc, ◌≡◌, refl, ap, subst, Bool, true, false, List, [], ◌∷◌, some, none, arith, Outcome,
  lookup, ◌>>=◌, ◌==◌, if◌then◌else◌, inl, inr,
}
use network_library_baseon_c.Sys.{count, got}
use network_library_baseon_c.Buffer.{Buffer, writable_bytes, iov_lengths}
use network_library_baseon_c.Buffer.Invariant.{IsValid}
use network_library_baseon_c.Channel.{Channel, index_added}
use network_library_baseon_c.Poller.{Poller, event_of}
use network_library_baseon_c.EventLoop.{is_in_loop_thread, loop_once, do_pending_functors}
use network_library_baseon_c.TcpConnection.{World, TcpConnection, connected}
use network_library_baseon_c.TcpConnection.Ready.{IsReady, Ready-interest}
use network_library_baseon_c.TcpConnection.Delivery.{message, writable, Op, DeliveredOr}
use network_library_baseon_c.TcpConnection.Apart.{Apart}
use network_library_baseon_c.TcpConnection.Many.{Shared, run_all, ops_of, run_all-Delivered}
use network_library_baseon_c.TcpServer.{Net, enter, run_task}
use network_library_baseon_c.TcpServer.Dispatch.{handle_channel, handle_channel-AcceptedBy}
use network_library_baseon_c.TcpServer.Accepting.{AcceptedBy}
use network_library_baseon_c.TcpServer.Making.{NewTo}
use network_library_baseon_c.EchoServer.{echo_handlers}
use network_library_baseon_c.EchoServer.Serving.{ServedOr}
use network_library_baseon_c.EchoServer.Round.{echo_channel, read_result, loop_once-Served}
use network_library_baseon_c.Tests.Toy.{
  toy, quiet, watch, count_of, toy-ReadvLaw, toy-WriteLaw, toy-EpollCtlLaw, toy-EpollWaitLaw,
  toy-ShutdownLaw, toy-SocketLaw,
}
use network_library_baseon_c.Tests.Servers.{
  net, user, pool, address, one-Named, next_two, idle-IsReady, input-IsValid,
}

-- Two connections, on fd 7 and fd 8 with the channels at addresses 20 and 21.
abbrev reading : ℕ → Channel
reading fd = record { fd = fd; events = 3; revents = 0; index = index_added; tied = true }

abbrev channels : ℕ → Channel
channels ptr = if ptr == 20 then reading 7 else reading 8

abbrev empty_buffer : Buffer
empty_buffer = record {
  storage = 0 ∷ 0 ∷ 0 ∷ 0 ∷ 0 ∷ 0 ∷ 0 ∷ 0 ∷ 0 ∷ 0 ∷ [];
  reader_index = 8;
  writer_index = 8;
}

abbrev connection : ℕ → ℕ → TcpConnection
connection fd ptr = record {
  loop = 1;
  name = [];
  state = connected;
  fd = fd;
  channel = ptr;
  input = empty_buffer;
  output = empty_buffer;
  high_water_mark = 64;
  has_write_complete = true;
  has_high_water = false;
}

abbrev connections : ℕ → TcpConnection
connections zero = connection 7 20
connections (suc c) = connection 8 21

abbrev poller : Poller
poller = record { epollfd = 3; channels = (7, 20) ∷ (8, 21) ∷ (5, 30) ∷ []; event_list_size = 16 }

abbrev shared : World toy (List ℕ)
shared = record {
  loop = record {
    looping = true;
    quit = false;
    thread_id = 1;
    poll_return_time = 0;
    poller = poller;
    wakeup_fd = 5;
    wakeup_channel = 30;
    active_channels = [];
    calling_pending_functors = false;
    pending_functors = [];
  };
  kernel =
      watch (watch quiet 3 7 (some (event_of 20 (reading 7)))) 3 8 (some (event_of 21 (reading 8)));
  channels = channels;
  app = record { connections = connections; strings = λ ptr. none; user = [] };
}

abbrev two_on : ℕ → Bool
two_on zero = true
two_on (suc zero) = true
two_on (suc (suc c)) = false

buffer-IsValid : IsValid empty_buffer
buffer-IsValid = record {
  prepend = omega arith;
  ordered = omega arith;
  within = omega arith;
  small = omega arith;
}

seven_known : lookup 7 poller.channels ≡ some 20
unfolding lookup
seven_known = refl

eight_known : lookup 8 poller.channels ≡ some 21
unfolding lookup
eight_known = refl

two-IsReady : (c : ℕ) → two_on c ≡ true → IsReady toy c shared
two-IsReady zero e = record {
  output = buffer-IsValid;
  registered = (seven_known, refl);
  mask = inr (inl refl);
  same_fd = refl;
  not_wakeup = refl;
  armed = inl refl;
}
two-IsReady (suc zero) e = record {
  output = buffer-IsValid;
  registered = (eight_known, refl);
  mask = inr (inl refl);
  same_fd = refl;
  not_wakeup = refl;
  armed = inl refl;
}
two-IsReady (suc (suc c)) e = cc

two-Apart : (c d : ℕ) → two_on c ≡ true → two_on d ≡ true → (c == d) ≡ false → Apart toy c d shared
two-Apart zero zero e f ne = cc
two-Apart zero (suc zero) e f ne = record { other = ne; channels = refl; sockets = refl }
two-Apart (suc zero) zero e f ne = record { other = ne; channels = refl; sockets = refl }
two-Apart (suc zero) (suc zero) e f ne = cc
two-Apart (suc (suc c)) d e f ne = cc
two-Apart zero (suc (suc d)) e f ne = cc
two-Apart (suc zero) (suc (suc d)) e f ne = cc

two-Shared : Shared toy two_on shared
two-Shared = record { ready = two-IsReady; apart = two-Apart }

abbrev turns : List (ℕ × Op)
turns =
    (0, message (1 ∷ 2 ∷ []))
    ∷ (1, message (3 ∷ 4 ∷ []))
    ∷ (0, writable)
    ∷ (1, writable)
    ∷ (0, message (5 ∷ []))
    ∷ []

run_all-Delivered_example : DeliveredOr toy 0 (ops_of 0 turns) shared (run_all toy turns shared)
run_all-Delivered_example =
    run_all-Delivered toy toy-EpollCtlLaw toy-WriteLaw toy-ShutdownLaw two_on 0 turns shared
      (refl, (refl, (refl, (refl, (refl, tt))))) (omega arith, (omega arith, (omega arith, tt)))
      two-Shared refl

-- The acceptor's channel is reported.
abbrev knocking : Net toy (List ℕ)
knocking = record (net 1) {
  channels = λ ptr. record { fd = 6; events = 3; revents = 1; index = index_added; tied = false };
}

nine-NewTo : (fd : ℕ) → (toy.accept4 (net 1).kernel 6).0.0 ≡ count fd → NewTo toy 2 fd knocking
unfolding count_of lookup
nine-NewTo fd e =
    subst (λ f. NewTo toy 2 f knocking) (ap count_of e)
      (record { unknown = refl; unwatched = refl; no_wakeup = refl })

knocking_far : is_in_loop_thread toy 1 (enter toy 2 knocking) ≡ false
unfolding is_in_loop_thread
knocking_far = refl

handle_channel-AcceptedBy_example :
    AcceptedBy toy user 4 2
      (pool 1)
      knocking
      (toy.accept4 (net 1).kernel 6)
      (handle_channel toy user (λ ptr. 0) (λ ptr r. true) (λ r. (4, 50)) address 40 9 knocking)
handle_channel-AcceptedBy_example =
    handle_channel-AcceptedBy toy user (λ ptr. 0) (λ ptr r. true) (λ r. (4, 50)) address
      toy-EpollCtlLaw toy-WriteLaw toy-SocketLaw 40 9 1 (pool 1) knocking refl refl refl refl
      (omega arith) (omega arith) one-Named next_two knocking_far nine-NewTo

-- The channel of a connection is reported, for EPOLLIN and EPOLLOUT.
abbrev reported : Net toy (List ℕ)
reported = record (net 2) {
  kernel = record ((net 2).kernel) { events = record { events = 5; ptr = 20 } ∷ [] };
}

three_bytes : (read_result toy 0 reported).0 ≡ got (10 ∷ 20 ∷ 30 ∷ [])
unfolding iov_lengths writable_bytes
three_bytes = refl

reported-IsReady : IsReady toy 0 reported
reported-IsReady =
    Ready-interest toy (net 2).kernel reported.kernel reported.loop.poller 5 (reported.channels 20)
      (reported.app.connections 0) refl idle-IsReady

loop_once-Served_example :
    (o : Outcome (Net toy (List ℕ))) × ServedOr toy 0
      (7 ∷ 8 ∷ 10 ∷ 20 ∷ 30 ∷ [])
      (read_result toy 0 reported).1
      reported
      o
    × (loop_once toy
          (echo_channel toy 60 (λ ptr. 0) (λ ptr r. true) (λ r. (4, 50)) address)
          (run_task toy (echo_handlers toy 60))
          reported
        ≡ (o >>= do_pending_functors toy (run_task toy (echo_handlers toy 60))))
loop_once-Served_example =
    loop_once-Served toy 60 (λ ptr. 0) (λ ptr r. true) (λ r. (4, 50)) address toy-EpollCtlLaw
      toy-WriteLaw toy-ShutdownLaw toy-ReadvLaw toy-EpollWaitLaw 5 20 10 (20 ∷ 30 ∷ []) reported
      (omega arith) refl refl refl refl refl refl refl reported-IsReady refl input-IsValid
      (omega arith) three_bytes
