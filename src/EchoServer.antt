-- ===== src/EchoServer.antt =====
-- example/echoserver.cc: the server that sends each message back and shuts the connection down.
-- The callbacks are called in the thread of the connection's loop. The string `msg` of onMessage
-- stands at an address that is an argument, for as long as the call takes.
pub mod Echoing
pub mod Reading
pub mod Program
pub mod Serving
pub mod Round
use network_library_baseon_c.Base.{
  ℕ, Bool, false, List, Option, none, some, Outcome, ok, err, ◌>>=◌, update,
}
use network_library_baseon_c.Sys.{Sys, SockAddr}
use network_library_baseon_c.Buffer.{retrieve_all_as_string}
use network_library_baseon_c.InetAddress.{Inet}
use network_library_baseon_c.TcpConnection.{World, conn, set_input, send, shutdown}
use network_library_baseon_c.TcpConnection.Handling.{Handlers}
use network_library_baseon_c.TcpServer.{Net}
use network_library_baseon_c.TcpServer.Lifetime.{new_tcp_server, set_server_thread_num}

module _ (sys : Sys) {U : Type 0} where
  -- The string at `ptr`.
  abbrev pub set_string : ℕ → Option (List ℕ) → World sys U → World sys U
  set_string ptr text r = record r {
    app = record (r.app) { strings = update r.app.strings ptr text };
  }

  -- onConnection only logs.
  abbrev on_connection : ℕ → World sys U → Outcome (World sys U)
  on_connection c r = ok r

  pub on_message : ℕ → ℕ → ℕ → World sys U → Outcome (World sys U)
  on_message ptr c time r = do
    (msg, input) ← retrieve_all_as_string (conn sys c r).input
    r1 ← send sys r.loop.thread_id c ptr msg (set_string ptr (some msg) (set_input sys c input r))
    r2 ← shutdown sys r1.loop.thread_id c r1
    ok (set_string ptr none r2)

  -- The callbacks that the constructor sets on the server.
  abbrev pub echo_handlers : ℕ → Handlers (World sys U)
  echo_handlers ptr = record {
    connection_callback = some on_connection;
    message_callback = some (on_message ptr);
    close_callback = none;
    write_complete_callback = none;
    high_water_callback = none;
  }

-- The constructor, on a base loop at hand.
pub new_echo_server :
    (sys : Sys) {U : Type 0} → Inet → ℕ → SockAddr → List ℕ → ℕ → Net sys U → Outcome (Net sys U)
new_echo_server sys inet loop addr name ptr r = do
  r' ← new_tcp_server sys inet loop addr name false ptr r
  ok (set_server_thread_num sys 3 r')
