-- ===== src/TcpServer/Loops.antt =====
-- Calls on a loop that is not at hand: what they change of it, and that they leave the other loops.
use network_library_baseon_c.Base.{
  ℕ, ◌≡◌, refl, sym, ap, ◌∙◌, subst, false, [], ◌∷◌, ◌++◌, arith, Outcome, ok, update, update_self,
  update_ne, ◌==◌,
}
use network_library_baseon_c.Sys.{Sys, WriteLaw}
use network_library_baseon_c.Channel.{Channel}
use network_library_baseon_c.EventLoop.{
  EventLoop, queue_in_loop, run_in_loop, is_in_loop_thread, wakeup, one_bytes,
}
use network_library_baseon_c.Poller.{event_of}
use network_library_baseon_c.Poller.Registered.{IsRegistered}
use network_library_baseon_c.EventLoop.Watching.{Watched}
use network_library_baseon_c.TcpConnection.{TcpConnection, Task, conn}
use network_library_baseon_c.TcpConnection.Ready.{registered-interest}
use network_library_baseon_c.TcpServer.{Net, server, enter, in_loop, queue_in}

update_again : {V : Type 0} (f : ℕ → V) (h j : ℕ) → update f h (f h) j ≡ f j
update_again f h j = ground arith

-- Loops with `l` at `i`, brought to hand from `h` and looked up at `j`.
loop_at :
    {V : Type 0} (f : ℕ → V) (h i j : ℕ) (l : V)
    → update (update f i l) h (update f i l h) j ≡ update f i l j
loop_at f h i j l = update_again (update f i l) h j

-- The loop that is queued in, where its thread is another.
abbrev with_functor : Task → EventLoop Task → EventLoop Task
with_functor task l = record l { pending_functors = l.pending_functors ++ (task ∷ []) }

module _ (sys : Sys) {U : Type 0} where
  -- Loop `i` has one functor more, and has been woken; all else is as it was.
  pub record QueuedIn (i : ℕ) (task : Task) (r r' : Net sys U) : Type 0 where
    pub loop : (enter sys i r').loop ≡ record ((enter sys i r).loop) {
      pending_functors = (enter sys i r).loop.pending_functors ++ (task ∷ []);
    }
    pub kernel : r'.kernel ≡ (sys.write r.kernel (enter sys i r).loop.wakeup_fd one_bytes).1
    pub others : (j : ℕ) → (i == j) ≡ false → (enter sys j r').loop ≡ (enter sys j r).loop
    pub channels : r'.channels ≡ r.channels
    pub connections : r'.app.connections ≡ r.app.connections
    pub server : server sys r' ≡ server sys r
    pub here : r'.app.user.here ≡ r.app.user.here

  queue_away :
      (tid : ℕ) (task : Task) (r : Net sys U)
      → is_in_loop_thread sys tid r ≡ false
      → queue_in_loop sys tid task r ≡ record r {
        loop = with_functor task r.loop;
        kernel = (sys.write r.kernel r.loop.wakeup_fd one_bytes).1;
      }
  unfolding queue_in_loop wakeup
  queue_away tid task r away = rw away refl

  pub queue_in-QueuedIn :
      (i tid : ℕ) (task : Task) (r : Net sys U)
      → is_in_loop_thread sys tid (enter sys i r) ≡ false
      → QueuedIn i task r (queue_in sys i tid task r)
  queue_in-QueuedIn i tid task r away =
      let h = r.app.user.here in
      let loops = update r.app.user.loops h r.loop in
      let l = with_functor task (loops i) in
      rw (queue_away tid task (enter sys i r) away) (record {
        loop = loop_at loops h i i l ∙ update_self loops i l;
        kernel = refl;
        others = λ j ne. loop_at loops h i j l ∙ update_ne loops i j l ne;
        channels = refl;
        connections = refl;
        server = refl;
        here = refl;
      })

  -- runInLoop of another thread's loop.
  pub in_loop_away :
      (i tid : ℕ) (task : Task) (now : Net sys U → Outcome (Net sys U)) (r : Net sys U)
      → is_in_loop_thread sys tid (enter sys i r) ≡ false
      → in_loop sys i (run_in_loop sys tid task now) r ≡ ok (queue_in sys i tid task r)
  unfolding run_in_loop
  in_loop_away i tid task now r away = rw away refl

  pub queued_conn :
      (c i : ℕ) (task : Task) (r r' : Net sys U)
      → QueuedIn i task r r'
      → conn sys c r ≡ conn sys c r'
  queued_conn c i task r r' q = ap (λ (f : ℕ → TcpConnection). f c) (sym q.connections)

  -- The registrations in the loop that is queued in.
  pub queued-Watched :
      WriteLaw sys
      → (i ptr : ℕ) (task : Task) (r r' : Net sys U) → QueuedIn i task r r'
      → Watched sys (enter sys i r) ptr
      → Watched sys (enter sys i r') ptr
  queued-Watched law i ptr task r r' q w =
      let l = (enter sys i r).loop in
      let h = r.channels ptr in
      let written =
        registered-interest sys h.index r.kernel (sys.write r.kernel l.wakeup_fd one_bytes).1
          l.poller ptr h.fd (event_of ptr h)
          (law.write_interest r.kernel l.wakeup_fd one_bytes l.poller.epollfd h.fd) w in
      let in_kernel = subst (λ k. IsRegistered sys k l.poller ptr h) (sym q.kernel) written in
      let in_loop =
        subst (λ (m : EventLoop Task). IsRegistered sys r'.kernel m.poller ptr h) (sym q.loop)
          in_kernel in
      subst
        (λ (f : ℕ → Channel). IsRegistered sys r'.kernel (enter sys i r').loop.poller ptr (f ptr))
        (sym q.channels) in_loop
