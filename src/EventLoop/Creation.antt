-- ===== src/EventLoop/Creation.antt =====
-- The constructor and the destructor of EventLoop, and createEventfd() of src/EventLoop.cc; the
-- choice of a poller in src/DefaultPoller.cc.
pub mod OwnThread
pub mod Keeping
use network_library_baseon_c.Base.{dangling, Option, update}
use network_library_baseon_c.Base.{
  ℕ, ◌≡◌, refl, sym, ◌∙◌, subst, Bool, true, false, [], none, some, Outcome, ok, err, fatal, ◌>>=◌,
  lookup, update_self, update_ne, ap, ◌==◌,
}
use network_library_baseon_c.Sys.{Sys, CountResult, count, failed, EpollCtlLaw, CreateLaw}
use network_library_baseon_c.Channel.{Channel, new_channel, index_added, with_reading}
use network_library_baseon_c.Channel.Events.{reading_on, change}
use network_library_baseon_c.Poller.{Poller, new_poller}
use network_library_baseon_c.Poller.Registered.{IsRegistered}
use network_library_baseon_c.EventLoop.{Reactor, enable_reading, disable_all, remove_channel}
use network_library_baseon_c.EventLoop.Watching.{Watched, SwitchedOr, change_channel-Switched}

-- createEventfd()
pub create_eventfd : {K : Type 0} → CountResult × K → Outcome (ℕ × K)
create_eventfd (count fd, k) = ok (fd, k)
create_eventfd (failed errno, k) = err fatal

module _ (sys : Sys) where
  -- Poller::newDefaultPoller: no poller if MUDUO_USE_POLL is set, else an EPollPoller.
  pub default_poller : Bool → sys.Kernel → Outcome (Option Poller × sys.Kernel)
  default_poller true k = ok (none, k)
  default_poller false k =
      let (res, k') = sys.epoll_create k in new_poller res >>= λ p. ok (some p, k')

module _ (sys : Sys) {F S : Type 0} where
  -- The members of the constructor, for a thread `tid` and a wakeup channel that is made at address
  -- `ptr`.
  abbrev pub new_reactor : ℕ → ℕ → ℕ → Poller → sys.Kernel → (ℕ → Channel) → S → Reactor sys F S
  new_reactor tid ptr fd p k channels app = record {
    loop = record {
      looping = false;
      quit = false;
      thread_id = tid;
      poll_return_time = 0;
      poller = p;
      wakeup_fd = fd;
      wakeup_channel = ptr;
      active_channels = [];
      calling_pending_functors = false;
      pending_functors = [];
    };
    kernel = k;
    channels = update channels ptr (new_channel fd);
    app = app;
  }

  -- The constructor behind its members, where a null poller is used by enableReading. The flag is
  -- whether the thread has a loop already.
  pub finish_creation :
      Bool → ℕ → ℕ → (ℕ → Channel) → S → Option Poller → ℕ × sys.Kernel → Outcome (Reactor sys F S)
  finish_creation true tid ptr channels app p (fd, k) = err fatal
  finish_creation false tid ptr channels app none (fd, k) = err dangling
  finish_creation false tid ptr channels app (some p) (fd, k) =
      enable_reading sys ptr (new_reactor tid ptr fd p k channels app)

  -- The constructor behind the poller.
  pub with_poller :
      Bool → ℕ → ℕ → (ℕ → Channel) → S → Option Poller × sys.Kernel → Outcome (Reactor sys F S)
  unfolding finish_creation
  with_poller has_loop tid ptr channels app (p, k) =
      create_eventfd (sys.eventfd k) >>= finish_creation has_loop tid ptr channels app p

  -- The constructor. The flags are whether MUDUO_USE_POLL is set, and whether the thread has a loop
  -- already.
  pub new_event_loop :
      Bool → Bool → ℕ → ℕ → sys.Kernel → (ℕ → Channel) → S → Outcome (Reactor sys F S)
  unfolding with_poller
  new_event_loop use_poll has_loop tid ptr k channels app =
      default_poller sys use_poll k >>= with_poller has_loop tid ptr channels app

  -- The destructor, up to the members' own.
  unfoldable pub destroy_event_loop : Reactor sys F S → Outcome (Reactor sys F S)
  destroy_event_loop r = do
    r1 ← disable_all sys r.loop.wakeup_channel r
    r2 ← remove_channel sys r1.loop.wakeup_channel r1
    ok (record r2 { kernel = sys.close r2.kernel r2.loop.wakeup_fd })

-- The fd that a call has returned.
fd_of : CountResult → ℕ
fd_of (count fd) = fd
fd_of (failed errno) = 0

new_watched :
    (sys : Sys) (ptr : ℕ) (p : Poller) (k : sys.Kernel) (fd : ℕ)
    → p.channels ≡ []
    → sys.interest k p.epollfd fd ≡ none
    → IsRegistered sys k p ptr (new_channel fd)
unfolding new_channel lookup
new_watched sys ptr p k fd empty free = (rw empty refl, free)

module _ (sys : Sys) (F : Type 0) {S : Type 0} where
  -- A loop whose wakeup channel, at `ptr`, is watched for reading, and that has nothing to do. Its epoll
  -- instance is new, and the other instances and channels are as they were.
  pub record Created (tid ptr : ℕ) (k : sys.Kernel) (heap : ℕ → Channel) (app : S)
      (r : Reactor sys F S) : Type 0 where
    pub watched : Watched sys r ptr
    pub index : (r.channels ptr).index ≡ index_added
    pub events : (r.channels ptr).events ≡ 3
    pub same_fd : (r.channels ptr).fd ≡ r.loop.wakeup_fd
    pub thread : r.loop.thread_id ≡ tid
    pub pending : r.loop.pending_functors ≡ []
    pub same_app : r.app ≡ app
    pub made_by : (sys.epoll_create k).0 ≡ count r.loop.poller.epollfd
    pub woken_by : (sys.eventfd (sys.epoll_create k).1).0 ≡ count r.loop.wakeup_fd
    pub unknown :
        (fd : ℕ) → (r.loop.wakeup_fd == fd) ≡ false → lookup fd r.loop.poller.channels ≡ none
    pub elsewhere : (q : ℕ) → (ptr == q) ≡ false → r.channels q ≡ heap q
    pub instances :
        (ep fd : ℕ)
        → (r.loop.poller.epollfd == ep) ≡ false
        → sys.interest r.kernel ep fd ≡ sys.interest k ep fd

  abbrev pub CreatedOr : ℕ → ℕ → sys.Kernel → (ℕ → Channel) → S → Outcome (Reactor sys F S) → Type 0
  CreatedOr tid ptr k heap app (ok r) = Created tid ptr k heap app r
  CreatedOr tid ptr k heap app (err f) = f ≡ fatal

  module _ (ctl : EpollCtlLaw sys) (law : CreateLaw sys) (tid ptr : ℕ) (k : sys.Kernel)
      (channels : ℕ → Channel) (app : S) where
    -- A loop in the making, whose epoll instance is new.
    record Fresh (r : Reactor sys F S) : Type 0 where
      pub made_by : (sys.epoll_create k).0 ≡ count r.loop.poller.epollfd
      pub woken_by : (sys.eventfd (sys.epoll_create k).1).0 ≡ count r.loop.wakeup_fd
      pub empty : r.loop.poller.channels ≡ []
      pub elsewhere : (q : ℕ) → (ptr == q) ≡ false → r.channels q ≡ channels q
      pub instances :
          (ep fd : ℕ)
          → (r.loop.poller.epollfd == ep) ≡ false
          → sys.interest r.kernel ep fd ≡ sys.interest k ep fd

    read_watched :
        (fd : ℕ) (r : Reactor sys F S) (o : Outcome (Reactor sys F S))
        → r.channels ptr ≡ new_channel fd
        → r.loop.wakeup_fd ≡ fd
        → r.loop.thread_id ≡ tid
        → r.loop.pending_functors ≡ []
        → r.app ≡ app
        → Fresh r
        → SwitchedOr sys r ptr (change reading_on (r.channels ptr)) o
        → CreatedOr tid ptr k channels app o
    unfolding new_channel with_reading lookup
    read_watched fd r (ok r') e w t q a f s = record {
      watched = s.watched;
      index = s.index ∙ rw e refl;
      events = s.events ∙ rw e refl;
      same_fd = s.fd ∙ rw e refl ∙ sym (s.wakeup_fd ∙ w);
      thread = s.thread ∙ t;
      pending = s.pending ∙ q;
      same_app = s.app ∙ a;
      made_by = f.made_by ∙ ap (λ ep. count ep) (sym s.epollfd);
      woken_by = f.woken_by ∙ ap (λ w'. count w') (sym s.wakeup_fd);
      unknown = λ fd' ne.
          let ne' : ((change reading_on (r.channels ptr)).fd == fd') ≡ false =
            subst (λ x. (x == fd') ≡ false) (s.wakeup_fd ∙ w ∙ sym (ap (λ (c : Channel). c.fd) e))
              ne in
          s.lookups fd' ne' ∙ rw f.empty refl;
      elsewhere = λ q' ne. s.elsewhere q' ne ∙ f.elsewhere q' ne;
      instances = λ ep fd' ne.
          let ne' = subst (λ x. (x == ep) ≡ false) s.epollfd ne in
          s.instances ep fd' ne' ∙ f.instances ep fd' ne';
    }
    read_watched fd r (err x) e w t q a f s = s.0

    reading-Created :
        (p : Poller) (k2 : sys.Kernel) (fd : ℕ)
        → p.channels ≡ []
        → sys.interest k2 p.epollfd fd ≡ none
        → (sys.epoll_create k).0 ≡ count p.epollfd
        → (sys.eventfd (sys.epoll_create k).1).0 ≡ count fd
        → ((ep fd' : ℕ)
            → (p.epollfd == ep) ≡ false
            → sys.interest k2 ep fd' ≡ sys.interest k ep fd')
        → CreatedOr tid ptr k channels app
            (enable_reading sys ptr (new_reactor sys tid ptr fd p k2 channels app))
    unfolding enable_reading
    reading-Created p k2 fd empty free made woken others =
        let r : Reactor sys F S = new_reactor sys tid ptr fd p k2 channels app in
        let new = update_self channels ptr (new_channel fd) in
        read_watched fd r (enable_reading sys ptr r) new refl refl refl refl
          (record {
            made_by = made;
            woken_by = woken;
            empty = empty;
            elsewhere = λ q ne. update_ne channels ptr q (new_channel fd) ne;
            instances = others;
          })
          (change_channel-Switched sys ctl reading_on r ptr (
            subst (λ (c : Channel). IsRegistered sys k2 p ptr c) (sym new)
              (new_watched sys ptr p k2 fd empty free)))

    finish-Created :
        (has_loop : Bool) (p : Poller) (out : CountResult × sys.Kernel)
        → p.channels ≡ []
        → sys.interest out.1 p.epollfd (fd_of out.0) ≡ none
        → (sys.epoll_create k).0 ≡ count p.epollfd
        → (sys.eventfd (sys.epoll_create k).1).0 ≡ out.0
        → ((ep fd' : ℕ)
            → (p.epollfd == ep) ≡ false
            → sys.interest out.1 ep fd' ≡ sys.interest k ep fd')
        → CreatedOr tid ptr k channels app
            (create_eventfd out >>= finish_creation sys has_loop tid ptr channels app (some p))
    unfolding finish_creation create_eventfd fd_of
    finish-Created has_loop p (failed errno, k2) empty free made woken others = refl
    finish-Created true p (count fd, k2) empty free made woken others = refl
    finish-Created false p (count fd, k2) empty free made woken others =
        reading-Created p k2 fd empty free made woken others

    poller-Created :
        (has_loop : Bool) (res : CountResult)
        → (sys.epoll_create k).0 ≡ res
        → CreatedOr tid ptr k channels app (
            (new_poller res >>= λ p. ok (some p, (sys.epoll_create k).1))
            >>= with_poller sys has_loop tid ptr channels app)
    unfolding with_poller new_poller
    poller-Created has_loop (failed errno) e = refl
    poller-Created has_loop (count ep) e =
        let k1 = (sys.epoll_create k).1 in
        let fd = fd_of (sys.eventfd k1).0 in
        finish-Created has_loop (record { epollfd = ep; channels = []; event_list_size = 16 })
          (sys.eventfd k1) refl (law.eventfd_interest k1 ep fd ∙ law.created_empty k ep fd e) e refl
          (λ ep' fd' ne. law.eventfd_interest k1 ep' fd' ∙ law.created_elsewhere k ep ep' fd' e ne)

    -- The constructor, where MUDUO_USE_POLL is not set: it returns a loop of the thread `tid` that
    -- has no functor pending, whose wakeup channel has the eventfd and is added to the poller and to
    -- epoll for reading; or LOG_FATAL ends the process.
    pub new_event_loop-Created :
        (has_loop : Bool)
        → CreatedOr tid ptr k channels app
            (new_event_loop sys false has_loop tid ptr k channels app)
    unfolding new_event_loop default_poller
    new_event_loop-Created has_loop = poller-Created has_loop (sys.epoll_create k).0 refl
