-- ===== src/TcpServer/Removal.antt =====
-- removeConnection and removeConnectionInLoop: the end of a connection, from the thread of its loop
-- to the base loop and back.
use network_library_baseon_c.Base.{
  ℕ, ◌≡◌, refl, sym, ap, ◌∙◌, subst, false, List, none, ok, if◌then◌else◌,
}
use network_library_baseon_c.Sys.{Sys, WriteLaw, EpollCtlLaw}
use network_library_baseon_c.EventLoop.{is_in_loop_thread}
use network_library_baseon_c.EventLoop.Watching.{Watched}
use network_library_baseon_c.TcpConnection.{
  TcpConnection, connect_destroyed, remove_connection, conn,
}
use network_library_baseon_c.TcpConnection.Handling.{Handlers}
use network_library_baseon_c.TcpConnection.States.{DestroyedOr, connect_destroyed_now-Destroyed}
use network_library_baseon_c.TcpServer.{
  TcpServer, Net, server, set_server, enter, queue_in, remove_connection_in_loop,
  remove_connection_of, server_handlers, run_task,
}
use network_library_baseon_c.TcpServer.ByName.{same_text, find, erase_name, find-erase_name}
use network_library_baseon_c.TcpServer.Names.{erase_name-NamedBelow}
use network_library_baseon_c.TcpServer.Making.{Named}
use network_library_baseon_c.TcpServer.Loops.{
  QueuedIn, queue_in-QueuedIn, in_loop_away, queued-Watched, queued_conn,
}

module _ (sys : Sys) {U : Type 0} where
  -- The server without the connection `c`.
  abbrev pub without : ℕ → Net sys U → Net sys U
  without c r =
      set_server sys
        (record (server sys r) {
          connections = erase_name (conn sys c r).name (server sys r).connections;
        })
        r

  module _ (user : Handlers (Net sys U)) where
    -- The connection is out of the map, and its loop destroys it next.
    pub record Removed (c io : ℕ) (r r' : Net sys U) : Type 0 where
      pub found :
          (n : List ℕ)
          → find n (server sys r').connections
            ≡ (if same_text (conn sys c r).name n then none else find n (server sys r).connections)
      pub named : Named (server sys r')
      pub queued : QueuedIn sys io (connect_destroyed c) (without c r) r'
      pub destroyed :
          DestroyedOr sys c
            (enter sys io r')
            (run_task sys user (connect_destroyed c) (enter sys io r'))

    erased-Removed :
        EpollCtlLaw sys
        → WriteLaw sys
        → (c io : ℕ) (r r' : Net sys U) → Named (server sys r)
        → Watched sys (enter sys io r) (conn sys c r).channel
        → QueuedIn sys io (connect_destroyed c) (without c r) r'
        → Removed c io r r'
    unfolding run_task
    erased-Removed ctl law c io r r' named w q = record {
      found = λ n.
          ap (λ (s : TcpServer). find n s.connections) q.server
          ∙ find-erase_name (conn sys c r).name n (server sys r).connections;
      named =
          subst (λ (s : TcpServer). Named s) (sym q.server)
            (erase_name-NamedBelow (server sys r) (server sys r).next_conn_id (conn sys c r).name
              (server sys r).connections named);
      queued = q;
      destroyed =
          connect_destroyed_now-Destroyed sys (server_handlers sys user) ctl c (enter sys io r') (
            subst (λ (t : TcpConnection). Watched sys (enter sys io r') t.channel)
              (queued_conn sys c io (connect_destroyed c) (without c r) r' q)
              (queued-Watched sys law io (conn sys c r).channel (connect_destroyed c) (without c r)
                r' q w));
    }

    -- removeConnection in a thread that is not that of the base loop: it returns, and all it has
    -- done is to queue removeConnectionInLoop in the base loop and to wake it.
    pub remove_connection_of-Queued :
        (tid c : ℕ) (r : Net sys U)
        → is_in_loop_thread sys tid (enter sys (server sys r).loop r) ≡ false
        → (r' : Net sys U) × (remove_connection_of sys tid c r ≡ ok r')
          × QueuedIn sys (server sys r).loop (remove_connection c) r r'
    unfolding remove_connection_of
    remove_connection_of-Queued tid c r away =
        let base = (server sys r).loop in
        let task = remove_connection c in
        (
          queue_in sys base tid task r,
          in_loop_away sys base tid task (λ s. ok (remove_connection_in_loop sys tid c s)) r away,
          queue_in-QueuedIn sys base tid task r away,
        )

    -- removeConnectionInLoop, as the base loop calls it for a connection of another thread's loop
    -- whose channel is registered there as its index says: it takes from the map the name of that
    -- connection and no other, wakes the connection's loop, and queues connectDestoryed there alone.
    -- When that loop calls it, the channel is registered nowhere afterwards, unless epoll_ctl is
    -- refused.
    pub run_task-Removed :
        EpollCtlLaw sys
        → WriteLaw sys
        → (c : ℕ) (r : Net sys U) → Named (server sys r)
        → Watched sys (enter sys (conn sys c r).loop r) (conn sys c r).channel
        → is_in_loop_thread sys r.loop.thread_id (enter sys (conn sys c r).loop r) ≡ false
        → (r' : Net sys U) × (run_task sys user (remove_connection c) r ≡ ok r')
          × Removed c (conn sys c r).loop r r'
    unfolding run_task remove_connection_in_loop is_in_loop_thread
    run_task-Removed ctl law c r named w away =
        let io = (conn sys c r).loop in
        let tid = r.loop.thread_id in
        (
          remove_connection_in_loop sys tid c r,
          refl,
          erased-Removed ctl law c io r (remove_connection_in_loop sys tid c r) named w
              (queue_in-QueuedIn sys io tid (connect_destroyed c) (without c r) away),
        )
