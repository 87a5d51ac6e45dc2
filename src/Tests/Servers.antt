-- ===== src/Tests/Servers.antt =====
-- Tests of TcpServer and the destructor of EventLoop: a server named "s" at
-- "1.2.3.4:80" whose base loop is 1, with a loop 2 in another thread, and its connection 0 on fd 7 with
-- the channel at address 20. Each loop has wakeup fd 5, with the channel at 30, and epoll fd 3.
use network_library_baseon_c.Base.{
  ℕ, ◌≤◌, ◌≡◌, refl, inl, inr, true, false, List, [], ◌∷◌, ◌++◌, none, some, arith, ok, lookup,
  ◌==◌, if◌then◌else◌,
}
use network_library_baseon_c.Sys.{SockAddr}
use network_library_baseon_c.Text.{decimal}
use network_library_baseon_c.Buffer.{Buffer}
use network_library_baseon_c.Buffer.Invariant.{IsValid}
use network_library_baseon_c.Channel.{Channel, index_added}
use network_library_baseon_c.Poller.{Poller, event_of}
use network_library_baseon_c.EventLoop.{EventLoop, is_in_loop_thread}
use network_library_baseon_c.EventLoop.Creation.{destroy_event_loop}
use network_library_baseon_c.EventLoop.Dropping.{ClosedOr, destroy_event_loop-Closed}
use network_library_baseon_c.EventLoopThreadPool.{EventLoopThreadPool, next_of, bump, get_next_loop}
use network_library_baseon_c.TcpConnection.{Task, connected, remove_connection}
use network_library_baseon_c.TcpConnection.Handling.{Handlers, handle_close}
use network_library_baseon_c.TcpConnection.Ready.{IsReady}
use network_library_baseon_c.TcpServer.{
  TcpServer, Net, conn_name, server_handlers, enter, new_connection, run_task,
}
use network_library_baseon_c.TcpServer.ByName.{find}
use network_library_baseon_c.TcpServer.Names.{conn_name_whole}
use network_library_baseon_c.TcpServer.Making.{Named, NewTo}
use network_library_baseon_c.TcpServer.HandOver.{HandedOver, new_connection-HandedOver}
use network_library_baseon_c.TcpServer.Lifetime.{destroy_connections}
use network_library_baseon_c.TcpServer.Destroying.{
  AllAway, AllQueued, destroy_connections-AllQueued,
}
use network_library_baseon_c.TcpServer.Removal.{Removed, run_task-Removed}
use network_library_baseon_c.TcpServer.Closing.{ClosingOr, handle_close-Closing}
use network_library_baseon_c.EchoServer.{echo_handlers}
use network_library_baseon_c.Tests.Toy.{
  Toy, toy, quiet, watch, toy-WriteLaw, toy-EpollCtlLaw, toy-SocketLaw,
}

abbrev reading : ℕ → Channel
reading fd = record { fd = fd; events = 3; revents = 0; index = index_added; tied = false }

abbrev channels : ℕ → Channel
channels ptr = if ptr == 30 then reading 5 else reading 7

abbrev poller : Poller
poller = record { epollfd = 3; channels = (7, 20) ∷ (5, 30) ∷ []; event_list_size = 16 }

abbrev kernel : Toy
kernel =
    watch (watch quiet 3 7 (some (event_of 20 (reading 7)))) 3 5 (some (event_of 30 (reading 5)))

abbrev loop_of : ℕ → EventLoop Task
loop_of i = record {
  looping = true;
  quit = false;
  thread_id = i;
  poll_return_time = 0;
  poller = poller;
  wakeup_fd = 5;
  wakeup_channel = 30;
  active_channels = [];
  calling_pending_functors = false;
  pending_functors = [];
}

abbrev pub pool : ℕ → EventLoopThreadPool
pool i = record { base_loop = 1; started = true; num_threads = 2; next = i; loops = 2 ∷ 3 ∷ [] }

abbrev ip_port : List ℕ
ip_port = 49 ∷ 46 ∷ 50 ∷ 46 ∷ 51 ∷ 46 ∷ 52 ∷ 58 ∷ 56 ∷ 48 ∷ []

abbrev one_name : List ℕ
one_name = conn_name (115 ∷ []) ip_port 1

abbrev pub tcp_server : TcpServer
tcp_server = record {
  loop = 1;
  ip_port = ip_port;
  name = 115 ∷ [];
  acceptor = record { accept_fd = 6; accept_channel = 40; listenning = true };
  thread_pool = pool 0;
  has_write_complete = false;
  started = 1;
  next_conn_id = 2;
  connections = (one_name, 0) ∷ [];
}

abbrev holding : ℕ → ℕ → Buffer
holding from to = record {
  storage = 0 ∷ 0 ∷ 0 ∷ 0 ∷ 0 ∷ 0 ∷ 0 ∷ 0 ∷ 7 ∷ 8 ∷ 0 ∷ 0 ∷ [];
  reader_index = from;
  writer_index = to;
}

-- The server, with loop `here` at hand.
abbrev pub net : ℕ → Net toy (List ℕ)
net here = record {
  loop = loop_of here;
  kernel = kernel;
  channels = channels;
  app = record {
    connections = λ c. record {
      loop = 2;
      name = one_name;
      state = connected;
      fd = 7;
      channel = 20;
      input = holding 8 10;
      output = holding 8 8;
      high_water_mark = 64;
      has_write_complete = false;
      has_high_water = false;
    };
    strings = λ ptr. none;
    user = record { server = tcp_server; loops = loop_of; here = here; user = [] };
  };
}

abbrev pub user : Handlers (Net toy (List ℕ))
user = echo_handlers toy 60

buffer-IsValid : (to : ℕ) → 8 ≤ to → to ≤ 12 → IsValid (holding 8 to)
buffer-IsValid to low high = record {
  prepend = omega arith;
  ordered = low;
  within = high;
  small = omega arith;
}

known : lookup 7 poller.channels ≡ some 20
unfolding lookup
known = refl

known_wakeup : lookup 5 poller.channels ≡ some 30
unfolding lookup
known_wakeup = refl

pub one-Named : Named tcp_server
unfolding find
one-Named = ((1, omega arith, refl), refl, tt)

pub new-NewTo : NewTo toy 2 9 (net 1)
unfolding lookup
new-NewTo = record { unknown = refl; unwatched = refl; no_wakeup = refl }

pub next_two : get_next_loop (pool 0) ≡ ok (2, pool 1)
unfolding get_next_loop next_of bump
next_two = refl

pub far : is_in_loop_thread toy 1 (enter toy 2 (net 1)) ≡ false
unfolding is_in_loop_thread
far = refl

base_far : is_in_loop_thread toy 2 (enter toy 1 (net 2)) ≡ false
unfolding is_in_loop_thread
base_far = refl

new_connection-HandedOver_example :
    (r' : Net toy (List ℕ)) × (new_connection toy user 1 4 50 9 (net 1) ≡ ok r')
    × HandedOver toy user 4 9 2 (pool 1) (net 1) r'
new_connection-HandedOver_example =
    new_connection-HandedOver toy user toy-EpollCtlLaw toy-WriteLaw toy-SocketLaw 1 4 50 9 1
      (pool 1) (net 1) (omega arith) (omega arith) one-Named new-NewTo next_two far

run_task-Removed_example :
    (r' : Net toy (List ℕ)) × (run_task toy user (remove_connection 0) (net 1) ≡ ok r')
    × Removed toy user 0 2 (net 1) r'
run_task-Removed_example =
    run_task-Removed toy user toy-EpollCtlLaw toy-WriteLaw 0 (net 1) one-Named (known, refl) far

handle_close-Closing_example :
    ClosingOr toy 0 (net 2) (handle_close toy (server_handlers toy user) 0 (net 2))
handle_close-Closing_example =
    handle_close-Closing toy user toy-EpollCtlLaw 0 (net 2) (λ w. refl) (known, refl) base_far

conn_name_whole_example :
    conn_name (115 ∷ []) ip_port 2 ≡ (115 ∷ []) ++ (45 ∷ (ip_port ++ (35 ∷ decimal 2)))
conn_name_whole_example = conn_name_whole tcp_server 2 (omega arith) (omega arith)

abbrev pub address : SockAddr
address = record { family = 2; port = 80; addr = 1 }

pub idle-IsReady : IsReady toy 0 (net 2)
idle-IsReady = record {
  output = buffer-IsValid 8 (omega arith) (omega arith);
  registered = (known, refl);
  mask = inr (inl refl);
  same_fd = refl;
  not_wakeup = refl;
  armed = inl refl;
}

pub input-IsValid : IsValid ((net 2).app.connections 0).input
input-IsValid = buffer-IsValid 10 (omega arith) (omega arith)

destroy_event_loop-Closed_example : ClosedOr toy (net 1) (destroy_event_loop toy (net 1))
destroy_event_loop-Closed_example =
    destroy_event_loop-Closed toy toy-EpollCtlLaw (net 1) (known_wakeup, refl)

far-AllAway : AllAway toy 1 tcp_server.connections (net 1)
far-AllAway = (far, tt)

destroy_connections-AllQueued_example :
    (r' : Net toy (List ℕ)) × (destroy_connections toy user 1 tcp_server.connections (net 1)
      ≡ ok r')
    × AllQueued toy tcp_server.connections (net 1) r'
destroy_connections-AllQueued_example =
    destroy_connections-AllQueued toy user 1 tcp_server.connections (net 1) far-AllAway
