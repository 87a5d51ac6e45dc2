-- ===== src/EchoServer/Program.antt =====
-- start() of the echo server and main() of example/echoserver.cc, in the one thread that runs it.
-- What the program does not say is a parameter: the addresses of the objects, `inet` for arpa/inet.h,
-- whether MUDUO_USE_POLL is set, and those of the dispatch of a server.
pub mod Opening
use network_library_baseon_c.Base.{ℕ, Bool, List, [], ◌∷◌, Option, none, some, Outcome, ok, ◌>>=◌}
use network_library_baseon_c.Sys.{Sys, SockAddr}
use network_library_baseon_c.Channel.{Channel}
use network_library_baseon_c.InetAddress.{Inet, new_inet_address}
use network_library_baseon_c.EventLoop.Creation.OwnThread.{create_in_thread, destroy_in_thread}
use network_library_baseon_c.TcpConnection.{App}
use network_library_baseon_c.TcpServer.{Net, Site}
use network_library_baseon_c.TcpServer.Lifetime
use network_library_baseon_c.TcpServer.Lifetime.{destroy_server}
use network_library_baseon_c.TcpServer.Threads.{start_thread}
use network_library_baseon_c.TcpServer.Dispatch.{serve}
use network_library_baseon_c.EchoServer.{echo_handlers, new_echo_server}

-- "127.0.0.1", the default of the constructor of InetAddress.
abbrev pub loopback : List ℕ
loopback = 49 ∷ 50 ∷ 55 ∷ 46 ∷ 48 ∷ 46 ∷ 48 ∷ 46 ∷ 49 ∷ []

-- "EchoServer-01"
abbrev pub program_name : List ℕ
program_name = 69 ∷ 99 ∷ 104 ∷ 111 ∷ 83 ∷ 101 ∷ 114 ∷ 118 ∷ 101 ∷ 114 ∷ 45 ∷ 48 ∷ 49 ∷ []

-- Where the loop, its wakeup channel, the acceptor's channel and the string `msg` of onMessage are, and, by
-- number, the loops of the threads of the pool and their wakeup channels, with the numbers of the
-- threads.
pub record Addresses : Type 0 where
  pub loop : ℕ
  pub wakeup_at : ℕ
  pub acceptor : ℕ
  pub text : ℕ
  pub loop_of : ℕ → ℕ
  pub wakeup_of : ℕ → ℕ
  pub thread_of : ℕ → ℕ

module _ (sys : Sys) {U : Type 0} (at : Addresses) (use_poll : Bool) where
  -- start(), in the thread `tid`. No callback for the threads is set.
  pub start : ℕ → Net sys U → Outcome (Net sys U)
  start tid r =
      Lifetime.start sys (echo_handlers sys at.text)
        (start_thread sys use_poll at.loop_of at.wakeup_of at.thread_of none) none tid r

  -- main() up to the call of loop(), in a thread whose pointer to its loop is null.
  pub set_up : Inet → ℕ → sys.Kernel → (ℕ → Channel) → App (Site U) → Outcome (Net sys U)
  unfolding start
  set_up inet tid k channels app = do
    (own, r) ← create_in_thread sys use_poll at.loop 0 tid at.wakeup_at k channels app
    let addr = new_inet_address inet 8000 loopback
    r1 ← new_echo_server sys inet at.loop addr program_name at.acceptor r
    start tid r1

  -- The destructors of the server and the loop, if loop() has returned.
  pub tear_down : ℕ → Option (Net sys U) → Outcome (Option (ℕ × Net sys U))
  tear_down tid none = ok none
  tear_down tid (some r) = do
    r1 ← destroy_server sys (echo_handlers sys at.text) tid r
    (own, r2) ← destroy_in_thread sys r1
    ok (some (own, r2))

  -- main(), with `n` rounds of its loop; `none` means that they ran out.
  pub main :
      Inet
      → (ℕ → ℕ)
      → (ℕ → Net sys U → Bool)
      → (Net sys U → ℕ × ℕ)
      → SockAddr
      → ℕ
      → ℕ
      → sys.Kernel
      → (ℕ → Channel)
      → App (Site U)
      → Outcome (Option (ℕ × Net sys U))
  unfolding set_up tear_down
  main inet bound alive fresh peer tid n k channels app = do
    r ← set_up inet tid k channels app
    done ← serve sys (echo_handlers sys at.text) bound alive fresh peer n r
    tear_down tid done
