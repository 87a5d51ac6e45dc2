-- ===== src/TcpServer.antt =====
-- src/TcpServer.h and src/TcpServer.cc: the server, which accepts connections in its base loop and
-- deals them out to the loops of its pool.
-- A reactor has one loop at hand. The others are in the `Site`, by address, and a call on one of them
-- brings it to hand for that call (`in_loop`). The channel and the TcpConnection of a new
-- connection are made at addresses that are arguments. The addresses that only log lines and getters
-- show are left out. nextConnId_ does not wrap.
pub mod ByName
pub mod Lifetime
pub mod Accepting
pub mod Destroying
pub mod Names
pub mod Making
pub mod Loops
pub mod HandOver
pub mod AtOnce
pub mod Removal
pub mod Closing
pub mod Dispatch
pub mod Threads
pub mod Hearing
pub mod Starting
pub mod Opened
use network_library_baseon_c.Base.{
  ℕ, zero, suc, ◌+◌, Bool, true, false, List, [], ◌∷◌, ◌++◌, Option, none, some, Outcome, ok, err,
  fatal, ◌>>=◌, update, ◌==◌, if◌then◌else◌,
}
use network_library_baseon_c.Sys.{Sys, SockAddr}
use network_library_baseon_c.Text.{decimal, cut_to}
use network_library_baseon_c.InetAddress.{Inet, to_ip_port}
use network_library_baseon_c.Socket.{set_keep_alive}
use network_library_baseon_c.Channel.{new_channel}
use network_library_baseon_c.EventLoop.{Reactor, EventLoop, run_in_loop, queue_in_loop}
use network_library_baseon_c.EventLoopThreadPool.{
  EventLoopThreadPool, new_pool, get_next_loop, set_thread_num,
}
use network_library_baseon_c.EventLoopThreadPool
use network_library_baseon_c.Acceptor.{Acceptor, new_acceptor}
use network_library_baseon_c.Acceptor
use network_library_baseon_c.TcpConnection.{
  TcpConnection, Task, connect_established, connect_destroyed, send_in_loop, shutdown_in_loop,
  write_complete, high_water, remove_connection, listen, App, World, conn, set_conn,
  send_string_in_loop, shutdown_write_in_loop,
}
use network_library_baseon_c.TcpConnection
use network_library_baseon_c.TcpConnection.Handling.{
  Handlers, call_callback, call_with, connect_established_now, connect_destroyed_now,
}
use network_library_baseon_c.TcpServer.ByName.{ConnectionMap, erase_name, store_name}

pub record TcpServer : Type 0 where
  pub loop : ℕ  -- the address of the base loop
  pub ip_port : List ℕ
  pub name : List ℕ
  pub acceptor : Acceptor
  pub thread_pool : EventLoopThreadPool
  pub has_write_complete : Bool  -- writeCompleteCallback_ is set
  pub started : ℕ
  pub next_conn_id : ℕ
  pub connections : ConnectionMap

-- The server, the loops that are not at hand, the address of the one that is, and all else.
pub record Site (U : Type 0) : Type 0 where
  pub server : TcpServer
  pub loops : ℕ → EventLoop Task
  pub here : ℕ
  pub user : U

-- CheckLoopNotNull; the null pointer is 0.
pub check_loop_not_null : ℕ → Outcome ℕ
check_loop_not_null zero = err fatal
check_loop_not_null (suc n) = ok (suc n)

-- The name of the connection that gets the number `id`, for a server of that name and address.
pub conn_name : List ℕ → List ℕ → ℕ → List ℕ
conn_name name ip_port id = name ++ cut_to 64 (45 ∷ (ip_port ++ (35 ∷ decimal id)))

-- The member `server` of a site, and what the constructor makes it.
abbrev pub new_server : ℕ → List ℕ → List ℕ → Acceptor → TcpServer
new_server loop ip_port name acceptor = record {
  loop = loop;
  ip_port = ip_port;
  name = name;
  acceptor = acceptor;
  thread_pool = new_pool loop;
  has_write_complete = false;
  started = 0;
  next_conn_id = 1;
  connections = [];
}

-- What the reactor of a server works on.
abbrev pub Net : Sys → Type 0 → Type 0
Net sys U = World sys (Site U)

module _ (sys : Sys) {U : Type 0} where
  abbrev pub server : Net sys U → TcpServer
  server r = r.app.user.server

  abbrev pub set_server : TcpServer → Net sys U → Net sys U
  set_server s r = record r { app = record (r.app) { user = record (r.app.user) { server = s } } }

  -- Brings loop `i` to hand.
  abbrev pub enter : ℕ → Net sys U → Net sys U
  enter i r =
      let loops = update r.app.user.loops r.app.user.here r.loop in
      record r {
        loop = loops i;
        app = record (r.app) { user = record (r.app.user) { loops = loops; here = i } };
      }

  -- A call on loop `i`.
  abbrev pub in_loop : ℕ → (Net sys U → Outcome (Net sys U)) → Net sys U → Outcome (Net sys U)
  in_loop i call r = call (enter i r) >>= λ r'. ok (enter r.app.user.here r')

  -- queueInLoop of loop `i`, which returns.
  abbrev pub queue_in : ℕ → ℕ → Task → Net sys U → Net sys U
  queue_in i tid task r = enter r.app.user.here (queue_in_loop sys tid task (enter i r))

  -- newConncetion up to its last call, where the pool has given `io_loop`.
  register : ℕ → ℕ → ℕ → ℕ → EventLoopThreadPool → Net sys U → Outcome (Net sys U)
  register c ptr fd io_loop pool r =
      let s = server r in
      let name = conn_name s.name s.ip_port s.next_conn_id in
      let k = (sys.getsockname r.kernel fd).1 in
      check_loop_not_null io_loop >>= λ loop. ok (
        set_conn sys c
          (record (TcpConnection.new_connection loop name fd ptr) {
            has_write_complete = s.has_write_complete;
          })
          (set_server
            (record s {
              thread_pool = pool;
              next_conn_id = s.next_conn_id + 1;
              connections = store_name name c s.connections;
            })
            (record r {
              kernel = set_keep_alive sys fd true k;
              channels = update r.channels ptr (new_channel fd);
            })))

  pub make_connection : ℕ → ℕ → ℕ → Net sys U → Outcome (Net sys U)
  unfolding register
  make_connection c ptr fd r =
      get_next_loop (server r).thread_pool >>= λ out. register c ptr fd out.0 out.1 r

  -- removeConnectionInLoop
  pub remove_connection_in_loop : ℕ → ℕ → Net sys U → Net sys U
  remove_connection_in_loop tid c r =
      let s = server r in
      let erased = record s { connections = erase_name (conn sys c r).name s.connections } in
      queue_in (conn sys c r).loop tid (connect_destroyed c) (set_server erased r)

  -- removeConnection
  pub remove_connection_of : ℕ → ℕ → Net sys U → Outcome (Net sys U)
  remove_connection_of tid c r =
      in_loop (server r).loop
        (run_in_loop sys tid (remove_connection c) (λ s. ok (remove_connection_in_loop tid c s))) r

  -- The callbacks that newConncetion sets: those of the user, and removeConnection. No
  -- HighWaterMarkCallback is set.
  abbrev pub server_handlers : Handlers (Net sys U) → Handlers (Net sys U)
  server_handlers user = record user {
    close_callback = some (λ c r. remove_connection_of r.loop.thread_id c r);
    high_water_callback = none;
  }

  module _ (user : Handlers (Net sys U)) where
    -- newConncetion
    pub new_connection : ℕ → ℕ → ℕ → ℕ → Net sys U → Outcome (Net sys U)
    new_connection tid c ptr fd r = do
      r1 ← make_connection c ptr fd r
      in_loop (conn sys c r1).loop
          (run_in_loop sys tid (connect_established c)
            (connect_established_now sys (server_handlers user) c))
          r1

    -- Acceptor::listen for the server's acceptor.
    pub listen_now : Net sys U → Outcome (Net sys U)
    listen_now r = do
      (a, r') ← Acceptor.listen sys (server r).acceptor r
      ok (set_server (record (server r') { acceptor = a }) r')

    -- What a functor does that a loop calls.
    pub run_task : Task → Net sys U → Outcome (Net sys U)
    unfolding listen_now
    run_task (connect_established c) r = connect_established_now sys (server_handlers user) c r
    run_task (connect_destroyed c) r = connect_destroyed_now sys (server_handlers user) c r
    run_task (send_in_loop c ptr len) r = send_string_in_loop sys c ptr len r
    run_task (shutdown_in_loop c) r = ok (shutdown_write_in_loop sys c r)
    run_task (write_complete c) r = call_callback user.write_complete_callback c r
    run_task (high_water c n) r = call_with none c n r
    run_task (remove_connection c) r = ok (remove_connection_in_loop r.loop.thread_id c r)
    run_task listen r = listen_now r
