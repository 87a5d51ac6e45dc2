-- ===== src/Tests/Events.antt =====
-- Tests of the way from an event to its effect: handleEvent of a channel, and handleRead of the acceptor
-- and of a connection, in the network of Servers.
use network_library_baseon_c.Base.{ℕ, ◌≡◌, refl, true, List, [], ◌∷◌, none, some, arith, ok, lookup}
use network_library_baseon_c.Buffer.{iov_lengths}
use network_library_baseon_c.Channel.{Channel, Callbacks, handle_event, index_added}
use network_library_baseon_c.Channel.Dispatch.{call_each, select, all_kinds, handle_event_lem}
use network_library_baseon_c.EventLoop.{is_in_loop_thread}
use network_library_baseon_c.EventLoopThreadPool.{EventLoopThreadPool, get_next_loop, next_of}
use network_library_baseon_c.TcpServer.{Net, enter, set_server, new_connection}
use network_library_baseon_c.TcpServer.AtOnce.{OpenedAtOnce, new_connection-OpenedAtOnce}
use network_library_baseon_c.TcpServer.Making.{NewTo}
use network_library_baseon_c.Tests.Toy.{toy, toy-EpollCtlLaw, toy-SocketLaw}
use network_library_baseon_c.Tests.Servers.{tcp_server, net, user, one-Named}

-- Callbacks that note that they are called; there is none for writing.
abbrev noting : Callbacks (List ℕ)
noting = record {
  read_callback = some (λ t w. ok (t ∷ w));
  write_callback = none;
  close_callback = some (λ w. ok (1 ∷ w));
  error_callback = some (λ w. ok (2 ∷ w));
}

-- EPOLLERR and EPOLLHUP, with EPOLLIN.
abbrev broken : Channel
broken = record { fd = 7; events = 3; revents = 25; index = index_added; tied = true }

handle_event_lem_example :
    handle_event noting broken true 9 [] ≡ call_each noting 9 (select 25 all_kinds) []
handle_event_lem_example = handle_event_lem noting 9 broken true []

abbrev lens : List ℕ
lens = iov_lengths ((net 2).app.connections 0).input

-- A server without a pool of threads.
abbrev lone_pool : EventLoopThreadPool
lone_pool = record { base_loop = 1; started = true; num_threads = 0; next = 0; loops = [] }

abbrev lone : Net toy (List ℕ)
lone = set_server toy (record tcp_server { thread_pool = lone_pool }) (net 1)

lone-NewTo : NewTo toy 1 9 lone
unfolding lookup
lone-NewTo = record { unknown = refl; unwatched = refl; no_wakeup = refl }

base_next : get_next_loop lone_pool ≡ ok (1, lone_pool)
unfolding get_next_loop next_of
base_next = refl

near : is_in_loop_thread toy 1 (enter toy 1 lone) ≡ true
unfolding is_in_loop_thread
near = refl

new_connection-OpenedAtOnce_example :
    OpenedAtOnce toy user 4 9 1 lone_pool lone (new_connection toy user 1 4 50 9 lone)
new_connection-OpenedAtOnce_example =
    new_connection-OpenedAtOnce toy user toy-EpollCtlLaw toy-SocketLaw 1 4 50 9 0 lone_pool lone
      (omega arith) (omega arith) one-Named lone-NewTo base_next near
