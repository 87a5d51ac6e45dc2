-- ===== src/TcpServer/Starting.antt =====
-- TcpServer::start() behind the constructor: the threads of the pool, and listen() in the base loop.
use network_library_baseon_c.Base.{
  Bool, ℕ, ◌+◌, ◌<◌, ◌≡◌, refl, sym, ap, ◌∙◌, subst, true, false, none, Outcome, ok, err, fatal,
  ◌>>=◌, length, ◌==◌, if◌then◌else◌,
}
use network_library_baseon_c.Sys.{Sys, SocketLaw, EpollCtlLaw, CreateLaw, FdLaw}
use network_library_baseon_c.EventLoop.{EventLoop, is_in_loop_thread, run_in_loop}
use network_library_baseon_c.EventLoop.Watching.{Watched}
use network_library_baseon_c.EventLoopThreadPool.{EventLoopThreadPool, new_pool, set_thread_num}
use network_library_baseon_c.EventLoopThreadPool
use network_library_baseon_c.EventLoopThreadPool.Started.{IsUsable, Grown}
use network_library_baseon_c.EventLoopThreadPool.Growing.{GrownOr, KeptOr, start-GrownOr}
use network_library_baseon_c.TcpConnection.{Task, listen}
use network_library_baseon_c.TcpConnection.Handling.{Handlers}
use network_library_baseon_c.TcpServer.{TcpServer, Net, server, set_server, in_loop, listen_now}
use network_library_baseon_c.TcpServer.Lifetime.{start, start_pool}
use network_library_baseon_c.TcpServer.Threads.{
  start_thread, Untouched, Untouched-trans, UntouchedOr, start_thread-Untouched,
}
use network_library_baseon_c.TcpServer.Hearing.{Unheard, Untouched-Unheard, HeardOr, listen-Heard}

module _ (sys : Sys) {U : Type 0} where
  -- A server that has been started, with `n` loops more in its pool; its acceptor listens in the loop at
  -- hand, with the channel at `ptr`.
  pub record Started (n ptr : ℕ) (r r' : Net sys U) : Type 0 where
    pub watched : Watched sys r' ptr
    pub events : (r'.channels ptr).events ≡ 3
    pub socket : (r'.channels ptr).fd ≡ (server sys r').acceptor.accept_fd
    pub listens : (server sys r').acceptor.listenning ≡ true
    pub takes : sys.listening r'.kernel (server sys r').acceptor.accept_fd ≡ true
    pub pending : r'.loop.pending_functors ≡ r.loop.pending_functors
    pub counted : (server sys r').started ≡ 1
    pub usable : IsUsable (server sys r').thread_pool
    pub loops :
        length (server sys r').thread_pool.loops ≡ length (server sys r).thread_pool.loops + n
    pub pool_started : (server sys r').thread_pool.started ≡ true
    pub same_server : server sys r' ≡ record (server sys r) {
      acceptor = (server sys r').acceptor;
      thread_pool = (server sys r').thread_pool;
      started = 1;
    }

  abbrev pub StartedOr : ℕ → ℕ → Net sys U → Outcome (Net sys U) → Type 0
  StartedOr n ptr r (ok r') = Started n ptr r r'
  StartedOr n ptr r (err f) = f ≡ fatal

  -- The server with `started_` at 1.
  abbrev counted : Net sys U → Net sys U
  counted r = set_server sys (record (server sys r) { started = 1 }) r

  -- With the pool that start() has left.
  abbrev with_pool : EventLoopThreadPool → Net sys U → Net sys U
  with_pool pool r = set_server sys (record (server sys r) { thread_pool = pool }) r

  heard-Started :
      (is_open : sys.Kernel → ℕ → Bool) (ptr : ℕ) (r r1 : Net sys U) (pool : EventLoopThreadPool)
      (start_loop : ℕ → Net sys U → Outcome (ℕ × Net sys U))
      → Grown start_loop none
          (server sys r).thread_pool.num_threads
          (record ((server sys r).thread_pool) { started = true })
          pool
      → Untouched sys is_open ptr (counted r) r1
      → (o : Outcome (Net sys U)) → HeardOr sys ptr (with_pool pool r1) o
      → StartedOr (server sys r).thread_pool.num_threads ptr r o
  heard-Started is_open ptr r r1 pool start_loop g u (ok r') h =
      let pooled : server sys (with_pool pool r1)
          ≡ record (server sys r) { thread_pool = pool; started = 1 } =
        ap (λ (s : TcpServer). record s { thread_pool = pool }) u.same_server in
      let all : server sys r' ≡ record (server sys r) {
        acceptor = (server sys r').acceptor;
        thread_pool = pool;
        started = 1;
      } =
        h.same_server
        ∙ ap (λ (s : TcpServer). record s { acceptor = (server sys r').acceptor }) pooled in
      let same_pool = ap (λ (s : TcpServer). s.thread_pool) all in
      record {
        watched = h.watched;
        events = h.events;
        socket = h.socket;
        listens = h.listens;
        takes = h.takes;
        pending = h.pending ∙ ap (λ (l : EventLoop Task). l.pending_functors) u.same_loop;
        counted = ap (λ (s : TcpServer). s.started) all;
        usable = subst (λ (p : EventLoopThreadPool). IsUsable p) (sym same_pool) g.usable;
        loops = ap (λ (p : EventLoopThreadPool). length p.loops) same_pool ∙ g.count;
        pool_started = ap (λ (p : EventLoopThreadPool). p.started) same_pool ∙ g.started;
        same_server =
            all
            ∙ ap
                (λ (p : EventLoopThreadPool). record (server sys r) {
                  acceptor = (server sys r').acceptor;
                  thread_pool = p;
                  started = 1;
                })
                (sym same_pool);
      }
  heard-Started is_open ptr r r1 pool start_loop g u (err f) h = h

  with_pool-Unheard :
      (ptr : ℕ) (pool : EventLoopThreadPool) (r : Net sys U)
      → Unheard sys ptr r
      → Unheard sys ptr (with_pool pool r)
  with_pool-Unheard ptr pool r v = record {
    at = v.at;
    channel = v.channel;
    free = v.free;
    unknown = v.unknown;
    base = v.base;
  }

  -- startLoop() of the threads of the pool.
  abbrev pub start_loop : (ℕ → ℕ) → (ℕ → ℕ) → (ℕ → ℕ) → ℕ → Net sys U → Outcome (ℕ × Net sys U)
  start_loop loop_of wakeup_of thread_of = start_thread sys false loop_of wakeup_of thread_of none

  module _ (ctl : EpollCtlLaw sys) (law : CreateLaw sys) (sock : SocketLaw sys)
      (is_open : sys.Kernel → ℕ → Bool) (fds : FdLaw sys is_open) (user : Handlers (Net sys U))
      (loop_of wakeup_of thread_of : ℕ → ℕ) (tid ptr : ℕ)
      (apart : (i : ℕ) → (wakeup_of i == ptr) ≡ false) (placed : (i : ℕ) → 0 < loop_of i) where
    pool-Started :
        (r : Net sys U)
        → Unheard sys ptr (counted r)
        → is_in_loop_thread sys tid r ≡ true
        → (o : Outcome (EventLoopThreadPool × Net sys U))
        → GrownOr
            (start_loop loop_of wakeup_of thread_of)
            (Untouched sys is_open ptr (counted r))
            (server sys r).thread_pool.num_threads
            (record ((server sys r).thread_pool) { started = true })
            o
        → StartedOr (server sys r).thread_pool.num_threads ptr r (
            (o >>= λ out. ok (with_pool out.0 out.1)) >>= λ r2.
            in_loop sys (server sys r2).loop (run_in_loop sys tid listen (listen_now sys user)) r2)
    unfolding is_in_loop_thread
    pool-Started r v here (ok (pool, r1)) (g, u) =
        let r2 = with_pool pool r1 in
        heard-Started is_open ptr r r1 pool (start_loop loop_of wakeup_of thread_of) g u
          (in_loop sys (server sys r2).loop (run_in_loop sys tid listen (listen_now sys user)) r2)
          (listen-Heard sys user ctl sock tid ptr r2
            (with_pool-Unheard ptr pool r1 (Untouched-Unheard sys is_open ptr (counted r) r1 u v))
            (ap (λ (l : EventLoop Task). l.thread_id == tid) u.same_loop ∙ here))
    pool-Started r v here (err f) e = e

    one_more :
        (r : Net sys U)
        → is_open r.kernel r.loop.poller.epollfd ≡ true
        → (i : ℕ) (w : Net sys U) → Untouched sys is_open ptr r w
        → KeptOr
            (start_loop loop_of wakeup_of thread_of)
            (Untouched sys is_open ptr r)
            (start_loop loop_of wakeup_of thread_of i w)
    one_more r base_open i w u = joined (start_loop loop_of wakeup_of thread_of i w) (
        start_thread-Untouched sys is_open ctl law loop_of wakeup_of thread_of ptr w apart fds
          (subst (λ (l : EventLoop Task). is_open w.kernel l.poller.epollfd ≡ true)
            (sym u.same_loop) (u.still_open r.loop.poller.epollfd base_open))
          placed i)
      where
        joined :
            (o : Outcome (ℕ × Net sys U))
            → UntouchedOr sys is_open ptr w o
            → KeptOr (start_loop loop_of wakeup_of thread_of) (Untouched sys is_open ptr r) o
        joined (ok (l, w')) (h, v) = (h, Untouched-trans sys is_open ptr r w w' u v)
        joined (err f) e = e

    pub start-Started :
        (r : Net sys U)
        → Unheard sys ptr r
        → (server sys r).started ≡ 0
        → IsUsable (server sys r).thread_pool
        → is_in_loop_thread sys tid r ≡ true
        → is_open r.kernel r.loop.poller.epollfd ≡ true
        → StartedOr
            (server sys r).thread_pool.num_threads
            ptr
            r
            (start sys user (start_loop loop_of wakeup_of thread_of) none tid r)
    unfolding start start_pool
    start-Started r v fresh usable here base_open =
        let with_count = λ (s : ℕ). set_server sys (record (server sys r) { started = s + 1 }) r in
        subst
          (λ (s : ℕ). StartedOr (server sys r).thread_pool.num_threads ptr r (
            if s == 0
            then (start_pool sys user (start_loop loop_of wakeup_of thread_of) none (with_count s)
                >>= λ r2.
                    in_loop sys (server sys r2).loop
                      (run_in_loop sys tid listen (listen_now sys user)) r2)
            else ok (with_count s)))
          (sym fresh)
          (pool-Started r
            (record {
              at = v.at;
              channel = v.channel;
              free = v.free;
              unknown = v.unknown;
              base = v.base;
            })
            here
            (EventLoopThreadPool.start (start_loop loop_of wakeup_of thread_of) none
              (server sys r).thread_pool (counted r))
            (start-GrownOr (start_loop loop_of wakeup_of thread_of)
              (Untouched sys is_open ptr (counted r)) (one_more (counted r) base_open)
              (server sys r).thread_pool (counted r) usable
              (record {
                same_loop = refl;
                same_server = refl;
                same_here = refl;
                channel = refl;
                interest = λ fd. refl;
                still_open = λ fd h. h;
              })))
