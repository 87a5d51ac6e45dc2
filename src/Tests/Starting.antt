-- ===== src/Tests/Starting.antt =====
-- A test of the start of a server on a loop 1, with epoll fd 4 and wakeup fd 5; its threads get loops
-- from address 2 and wakeup channels from address 100 on.
use network_library_baseon_c.Base.{
  ℕ, ◌+◌, ◌≡◌, refl, sym, ap, subst, true, false, List, [], ◌∷◌, none, arith, ◌>>=◌, lookup, ◌==◌,
}
use network_library_baseon_c.EventLoop.{is_in_loop_thread}
use network_library_baseon_c.Poller.{Poller}
use network_library_baseon_c.TcpServer.{Net}
use network_library_baseon_c.TcpServer.Lifetime.{start, new_tcp_server, set_server_thread_num}
use network_library_baseon_c.TcpServer.Starting.{start_loop}
use network_library_baseon_c.TcpServer.Opened.{OpenOr, new_tcp_server-Open}
use network_library_baseon_c.EchoServer.Program.{Addresses, set_up}
use network_library_baseon_c.EchoServer.Program.Opening.{SetUpOr, set_up-SetUp}
use network_library_baseon_c.Tests.Toy.{
  toy, count_of, toy-EpollCtlLaw, toy-CreateLaw, toy-SocketLaw, toy_open, toy-FdLaw, quiet,
}
use network_library_baseon_c.Tests.Servers.{net, user, address}
use network_library_baseon_c.Tests.Texts.{inet, inet-InetLaw}

abbrev poller : Poller
poller = record { epollfd = 4; channels = (5, 30) ∷ []; event_list_size = 16 }

abbrev base : Net toy (List ℕ)
base = record (net 1) { loop = record ((net 1).loop) { poller = poller } }

not_known : (fd : ℕ) → (fd ≡ 6) → lookup fd poller.channels ≡ none
unfolding lookup
not_known fd e = subst (λ f. lookup f poller.channels ≡ none) (sym e) refl

near : is_in_loop_thread toy 1 base ≡ true
unfolding is_in_loop_thread
near = refl

wakeup_apart : (i : ℕ) → (100 + i == 70) ≡ false
wakeup_apart i = ground arith

new_tcp_server-Open_example : OpenOr toy 3 70 1 base (
    new_tcp_server toy inet 1 address (115 ∷ []) false 70 base >>= λ r1.
    start toy user
      (start_loop toy (λ i. 2 + i) (λ i. 100 + i) (λ i. 2 + i))
      none
      1
      (set_server_thread_num toy 3 r1))
unfolding count_of
new_tcp_server-Open_example =
    new_tcp_server-Open toy toy-EpollCtlLaw toy-CreateLaw toy-SocketLaw toy_open toy-FdLaw user
      (λ i. 2 + i) (λ i. 100 + i) (λ i. 2 + i) 1 70 wakeup_apart (λ i. omega arith) inet
      inet-InetLaw 0 3 address (115 ∷ []) false base (λ fd e. not_known fd (ap count_of (sym e)))
      refl near refl

-- The echo server as a program.
abbrev addresses : Addresses
addresses = record {
  loop = 1;
  wakeup_at = 30;
  acceptor = 70;
  text = 60;
  loop_of = λ i. 2 + i;
  wakeup_of = λ i. 100 + i;
  thread_of = λ i. 2 + i;
}

set_up-SetUp_example :
    SetUpOr toy addresses inet 1 quiet
      (net 1).channels
      (net 1).app
      (set_up toy addresses false inet 1 quiet (net 1).channels (net 1).app)
set_up-SetUp_example =
    set_up-SetUp toy addresses inet 1 toy-EpollCtlLaw toy-CreateLaw toy-SocketLaw inet-InetLaw
      toy_open toy-FdLaw wakeup_apart (λ i. omega arith) 0 quiet (net 1).channels (net 1).app refl
      refl
