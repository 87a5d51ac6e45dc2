-- ===== src/TcpServer/Threads.antt =====
-- A thread of the pool of a server: src/EventLoopThread.cc as startLoop() shows it to its caller, that
-- is threadFunc() up to the point where it has set loop_. The addresses of the loop of a thread and of
-- its wakeup channel, and the number of the thread, are parameters by the number of the call.
use network_library_baseon_c.Base.{
  ℕ, ◌<◌, ◌≡◌, refl, sym, ◌∙◌, subst, Bool, true, false, Option, none, some, Outcome, ok, err,
  fatal, ◌>>=◌, update, ◌==◌,
}
use network_library_baseon_c.Sys.{Sys, EpollCtlLaw, CreateLaw, FdLaw}
use network_library_baseon_c.EventLoop.{Reactor, EventLoop}
use network_library_baseon_c.EventLoop.Creation.OwnThread.{
  create_in_thread, OneLoopOr, create_in_thread-OneLoop,
}
use network_library_baseon_c.EventLoop.Creation.Keeping.{MadeOr, create_keeps}
use network_library_baseon_c.TcpConnection.{Task, App}
use network_library_baseon_c.TcpServer.{Site, Net, server, in_loop}

module _ (sys : Sys) {U : Type 0} where
  -- Loop `i` of another thread is there.
  abbrev pub with_loop : ℕ → Reactor sys Task (App (Site U)) → Net sys U → Net sys U
  with_loop i made r = record r {
    kernel = made.kernel;
    channels = made.channels;
    app = record (r.app) {
      user = record (r.app.user) { loops = update r.app.user.loops i made.loop };
    };
  }

  -- The callback of the thread, on its own loop.
  pub thread_callback :
      Option (ℕ → Net sys U → Outcome (Net sys U)) → ℕ → Net sys U → Outcome (Net sys U)
  thread_callback none i r = ok r
  thread_callback (some cb) i r = in_loop sys i (cb i) r

  module _ (use_poll : Bool) (loop_of wakeup_of thread_of : ℕ → ℕ)
      (init : Option (ℕ → Net sys U → Outcome (Net sys U))) where
    -- startLoop() of the thread with number `i`, for a loop at hand of another thread.
    pub start_thread : ℕ → Net sys U → Outcome (ℕ × Net sys U)
    unfolding thread_callback
    start_thread i r = do
      (own, made) ←
          create_in_thread sys use_poll (loop_of i) 0 (thread_of i) (wakeup_of i) r.kernel
            r.channels r.app
      r' ← thread_callback init own (with_loop own made r)
      ok (own, r')

module _ (sys : Sys) (is_open : sys.Kernel → ℕ → Bool) {U : Type 0} where
  -- What the start of a thread leaves, of a loop at hand and of the channel at `ptr`.
  pub record Untouched (ptr : ℕ) (r r' : Net sys U) : Type 0 where
    pub same_loop : r'.loop ≡ r.loop
    pub same_server : server sys r' ≡ server sys r
    pub same_here : r'.app.user.here ≡ r.app.user.here
    pub channel : r'.channels ptr ≡ r.channels ptr
    pub interest :
        (fd : ℕ)
        → sys.interest r'.kernel r.loop.poller.epollfd fd
          ≡ sys.interest r.kernel r.loop.poller.epollfd fd
    pub still_open : (fd : ℕ) → is_open r.kernel fd ≡ true → is_open r'.kernel fd ≡ true

  abbrev pub UntouchedOr : ℕ → Net sys U → Outcome (ℕ × Net sys U) → Type 0
  UntouchedOr ptr r (ok (l, r')) = (0 < l) × Untouched ptr r r'
  UntouchedOr ptr r (err f) = f ≡ fatal

  pub Untouched-trans :
      (ptr : ℕ) (r r1 r2 : Net sys U)
      → Untouched ptr r r1
      → Untouched ptr r1 r2
      → Untouched ptr r r2
  Untouched-trans ptr r r1 r2 a b = record {
    same_loop = b.same_loop ∙ a.same_loop;
    same_server = b.same_server ∙ a.same_server;
    same_here = b.same_here ∙ a.same_here;
    channel = b.channel ∙ a.channel;
    interest = λ fd.
        subst
          (λ (l : EventLoop Task).
            sys.interest r2.kernel l.poller.epollfd fd ≡ sys.interest r1.kernel l.poller.epollfd fd)
          a.same_loop (b.interest fd)
        ∙ a.interest fd;
    still_open = λ fd h. b.still_open fd (a.still_open fd h);
  }

  module _ (ctl : EpollCtlLaw sys) (law : CreateLaw sys) (loop_of wakeup_of thread_of : ℕ → ℕ)
      (ptr : ℕ) (r : Net sys U) (apart : (i : ℕ) → (wakeup_of i == ptr) ≡ false)
      (fds : FdLaw sys is_open) (base_open : is_open r.kernel r.loop.poller.epollfd ≡ true)
      (placed : (i : ℕ) → 0 < loop_of i) where
    -- What was open is open still.
    abbrev OpenOr : Outcome (ℕ × Reactor sys Task (App (Site U))) → Type 0
    OpenOr (ok (own, made)) = (fd : ℕ) → is_open r.kernel fd ≡ true → is_open made.kernel fd ≡ true
    OpenOr (err f) = Unit {0}

    made_open :
        (i : ℕ) (o : Outcome (ℕ × Reactor sys Task (App (Site U))))
        → ((fd : ℕ)
            → is_open r.kernel fd ≡ true
            → MadeOr sys
                (λ k. is_open k fd ≡ true)
                (λ k ep op fd' e h. fds.ctl_keeps k ep op fd' e fd h)
                Task
                (thread_of i)
                (wakeup_of i)
                r.channels
                r.app
                o)
        → OpenOr o
    made_open i (ok (own, made)) h = h
    made_open i (err f) h = tt

    made-Untouched :
        (i : ℕ) (o : Outcome (ℕ × Reactor sys Task (App (Site U))))
        → OneLoopOr sys Task
            (thread_of i)
            (wakeup_of i)
            r.channels
            r.app
            (loop_of i)
            false
            0
            r.kernel
            o
        → OpenOr o
        → UntouchedOr ptr r (
            o >>= λ out.
            thread_callback sys none out.0 (with_loop sys out.0 out.1 r) >>= λ r'. ok (out.0, r'))
    unfolding thread_callback
    made-Untouched i (ok (own, made)) (at, c) open_still = (
      subst (λ l. 0 < l) (sym at) (placed i),
      record {
        same_loop = refl;
        same_server = refl;
        same_here = refl;
        channel = c.elsewhere ptr (apart i);
        interest = λ fd. c.instances r.loop.poller.epollfd fd (
            fds.create_new r.kernel made.loop.poller.epollfd r.loop.poller.epollfd c.made_by
              base_open);
        still_open = open_still;
      },
    )
    made-Untouched i (err f) c open_still = c

    -- A thread that starts, with no callback, leaves the loop at hand, the server, the channel and the
    -- registrations of the loop as they were, or a LOG_FATAL ends the process.
    pub start_thread-Untouched :
        (i : ℕ) → UntouchedOr ptr r (start_thread sys false loop_of wakeup_of thread_of none i r)
    unfolding start_thread
    start_thread-Untouched i =
        made-Untouched i
          (create_in_thread sys false (loop_of i) 0 (thread_of i) (wakeup_of i) r.kernel r.channels
            r.app)
          (create_in_thread-OneLoop sys Task (thread_of i) (wakeup_of i) r.channels r.app ctl law
            false (loop_of i) 0 r.kernel)
          (made_open i
            (create_in_thread sys false (loop_of i) 0 (thread_of i) (wakeup_of i) r.kernel
              r.channels r.app)
            (λ fd h.
              create_keeps sys (λ k. is_open k fd ≡ true)
                (λ k ep op fd' e g. fds.ctl_keeps k ep op fd' e fd g) Task (thread_of i)
                (wakeup_of i) r.channels r.app (loop_of i) 0 r.kernel
                (fds.eventfd_keeps (sys.epoll_create r.kernel).1 fd
                  (fds.create_keeps r.kernel fd h))))
