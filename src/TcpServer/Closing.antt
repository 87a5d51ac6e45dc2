-- ===== src/TcpServer/Closing.antt =====
-- handleClose of a connection of a server: what it leaves for the base loop to do.
use network_library_baseon_c.Base.{
  ℕ, ◌≡◌, refl, sym, ap, ◌∙◌, subst, inl, inr, false, Outcome, ok, err, fatal, ◌>>=◌, update,
  update_self, ◌==◌, Bool-cases,
}
use network_library_baseon_c.Sys.{Sys, EpollCtlLaw}
use network_library_baseon_c.Channel.{Channel, Index, without_events}
use network_library_baseon_c.Poller.Registered.{next_index}
use network_library_baseon_c.Channel.Events.{change, all_off}
use network_library_baseon_c.EventLoop.{EventLoop, is_in_loop_thread, disable_all}
use network_library_baseon_c.EventLoop.Watching.{
  Watched, Switched, SwitchedOr, change_channel-Switched,
}
use network_library_baseon_c.TcpConnection.{
  TcpConnection, Task, disconnected, remove_connection, App, conn, chan, set_state,
}
use network_library_baseon_c.TcpConnection.Handling.{Handlers, call_callback, handle_close}
use network_library_baseon_c.TcpServer.{
  TcpServer, Site, Net, server, enter, remove_connection_of, server_handlers,
}
use network_library_baseon_c.TcpServer.Loops.{QueuedIn}
use network_library_baseon_c.TcpServer.Removal.{remove_connection_of-Queued}

thread_at :
    (f : ℕ → EventLoop Task) (h i : ℕ) (l l' : EventLoop Task)
    → l'.thread_id ≡ l.thread_id
    → (update f h l' i).thread_id ≡ (update f h l i).thread_id
thread_at f h i l l' e = elim (Bool-cases (h == i)) [
  | inl same ↦ rw same e
  | inr other ↦ rw other refl
]

module _ (sys : Sys) {U : Type 0} where
  -- A connection that is down: its channel waits for nothing, and the base loop has been told.
  pub record Closing (c : ℕ) (r r' : Net sys U) : Type 0 where
    pub down : Net sys U
    pub state : (conn sys c down).state ≡ disconnected
    pub events : (chan sys c down).events ≡ 0
    pub watched : Watched sys down (conn sys c down).channel
    pub connection : conn sys c down ≡ record (conn sys c r) { state = disconnected }
    pub same_server : server sys down ≡ server sys r
    pub queued : QueuedIn sys (server sys r).loop (remove_connection c) down r'

  abbrev pub ClosingOr : ℕ → Net sys U → Outcome (Net sys U) → Type 0
  ClosingOr c r (ok r') = Closing c r r'
  ClosingOr c r (err f) = f ≡ fatal

  -- The thread of a loop behind a call that changes neither the state nor the thread at hand.
  still_away :
      (i : ℕ) (r r1 : Net sys U)
      → r1.app ≡ r.app
      → r1.loop.thread_id ≡ r.loop.thread_id
      → is_in_loop_thread sys r.loop.thread_id (enter sys i r) ≡ false
      → is_in_loop_thread sys r1.loop.thread_id (enter sys i r1) ≡ false
  unfolding is_in_loop_thread
  still_away i r r1 a e away =
      let thread =
        ap (λ (x : App (Site U)). (update x.user.loops x.user.here r1.loop i).thread_id) a
        ∙ thread_at r.app.user.loops r.app.user.here i r.loop r1.loop e in
      rw (thread, e) away

  module _ (user : Handlers (Net sys U)) where
    told-Closing :
        (c : ℕ) (i : Channel → Index) (r r1 r' : Net sys U)
        → Switched sys
            (set_state sys c disconnected r)
            (conn sys c r).channel
            (change all_off (r.channels (conn sys c r).channel))
            (i (change all_off (r.channels (conn sys c r).channel)))
            r1
        → QueuedIn sys (server sys r1).loop (remove_connection c) r1 r'
        → Closing c r r'
    unfolding without_events
    told-Closing c i r r1 r' s q =
        let same : conn sys c r1 ≡ record (conn sys c r) { state = disconnected } =
          ap (λ (x : App (Site U)). x.connections c) s.app
          ∙ update_self r.app.connections c (record (conn sys c r) { state = disconnected }) in
        let site : server sys r1 ≡ server sys r = ap (λ (x : App (Site U)). x.user.server) s.app in
        record {
          down = r1;
          state = ap (λ (t : TcpConnection). t.state) same;
          events =
              subst (λ (t : TcpConnection). (r1.channels t.channel).events ≡ 0) (sym same) s.events;
          watched = subst (λ (t : TcpConnection). Watched sys r1 t.channel) (sym same) s.watched;
          connection = same;
          same_server = site;
          queued =
              subst (λ (x : TcpServer). QueuedIn sys x.loop (remove_connection c) r1 r') site q;
        }

    -- handleClose of a connection of a server whose user's connection callback changes nothing, in a
    -- thread that is not that of the base loop, where the channel is registered as its index says:
    -- the channel waits for nothing and the state is kDisconnected when the callbacks are called, and
    -- they return with removeConnectionInLoop queued in the base loop, and that loop woken; or an
    -- epoll_ctl is refused.
    pub handle_close-Closing :
        EpollCtlLaw sys
        → (c : ℕ) (r : Net sys U)
        → ((w : Net sys U) → call_callback user.connection_callback c w ≡ ok w)
        → Watched sys r (conn sys c r).channel
        → is_in_loop_thread sys r.loop.thread_id (enter sys (server sys r).loop r) ≡ false
        → ClosingOr c r (handle_close sys (server_handlers sys user) c r)
    unfolding handle_close disable_all is_in_loop_thread
    handle_close-Closing ctl c r quiet w away =
        by_disable (disable_all sys (conn sys c r).channel (set_state sys c disconnected r)) (
          change_channel-Switched sys ctl all_off (set_state sys c disconnected r)
            (conn sys c r).channel w)
      where
        by_disable :
            (o : Outcome (Net sys U))
            → SwitchedOr sys
                (set_state sys c disconnected r)
                (conn sys c r).channel
                (change all_off (r.channels (conn sys c r).channel))
                o
            → ClosingOr c r (
                o >>= λ r1. call_callback user.connection_callback c r1 >>= λ r2.
                remove_connection_of sys r2.loop.thread_id c r2)
        by_disable (ok r1) s =
            let far =
              still_away (server sys r1).loop (set_state sys c disconnected r) r1 s.app s.thread (
                subst
                  (λ (x : App (Site U)).
                    is_in_loop_thread sys r.loop.thread_id (enter sys x.user.server.loop r) ≡ false)
                  (sym s.app) away) in
            let (r', e, q) = remove_connection_of-Queued sys user r1.loop.thread_id c r1 far in
            rw (quiet r1, e) (told-Closing c (λ h. next_index h.index h) r r1 r' s q)
        by_disable (err f) s = s.0
