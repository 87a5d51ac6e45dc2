-- ===== src/EventLoop/Creation/OwnThread.antt =====
-- t_loopInThisThread of src/EventLoop.cc, through the constructor and the destructor of EventLoop: the
-- address of the loop of the thread, 0 for the null pointer.
use network_library_baseon_c.Base.{
  ℕ, zero, suc, ◌≡◌, ◌⊎◌, inl, inr, refl, sym, subst, Bool, true, false, not, [], Option, none,
  some, Outcome, ok, err, fatal, dangling, ◌>>=◌, ◌==◌, arith,
}
use network_library_baseon_c.Sys.{Sys, CountResult, count, failed, EpollCtlLaw, CreateLaw}
use network_library_baseon_c.Channel.{Channel}
use network_library_baseon_c.Poller.{Poller, new_poller}
use network_library_baseon_c.EventLoop.{Reactor}
use network_library_baseon_c.EventLoop.Creation.{
  default_poller, create_eventfd, finish_creation, with_poller, new_event_loop, destroy_event_loop,
  Created, CreatedOr, new_event_loop-Created,
}

not_null : (own : ℕ) → not (suc own == 0) ≡ true
not_null own = ground arith

module _ (sys : Sys) {F S : Type 0} where
  -- The constructor of the loop at address `self`, in a thread whose pointer is `own`: the pointer
  -- afterwards, and the loop.
  unfoldable pub create_in_thread :
      Bool → ℕ → ℕ → ℕ → ℕ → sys.Kernel → (ℕ → Channel) → S → Outcome (ℕ × Reactor sys F S)
  create_in_thread use_poll self own tid ptr k channels app = do
    r ← new_event_loop sys use_poll (not (own == 0)) tid ptr k channels app
    ok (self, r)

  -- The destructor.
  pub destroy_in_thread : Reactor sys F S → Outcome (ℕ × Reactor sys F S)
  destroy_in_thread r = destroy_event_loop sys r >>= λ r'. ok (0, r')

module _ (sys : Sys) (F : Type 0) {S : Type 0} (tid ptr : ℕ) (channels : ℕ → Channel)
    (app : S) where
  -- What the constructor of the loop at `self` does, by whether MUDUO_USE_POLL is set and by the pointer.
  abbrev pub OneLoopOr : ℕ → Bool → ℕ → sys.Kernel → Outcome (ℕ × Reactor sys F S) → Type 0
  OneLoopOr self use_poll (suc own) k o = o ≡ err fatal
  OneLoopOr self true zero k o = (o ≡ err fatal) ⊎ (o ≡ err dangling)
  OneLoopOr self false zero k (ok (own, r)) = (own ≡ self) × Created sys F tid ptr k channels app r
  OneLoopOr self false zero k (err f) = f ≡ fatal

  no_second :
      (p : Option Poller) (out : CountResult × sys.Kernel)
      → (create_eventfd out >>= finish_creation sys {F = F} true tid ptr channels app p) ≡ err fatal
  unfolding create_eventfd finish_creation
  no_second p (count fd, k) = refl
  no_second p (failed errno, k) = refl

  behind_epoll :
      (res : CountResult) (k : sys.Kernel)
      → ((new_poller res >>= λ p. ok (some p, k))
          >>= with_poller sys {F = F} true tid ptr channels app)
        ≡ err fatal
  unfolding new_poller with_poller
  behind_epoll (count ep) k =
      no_second (some (record { epollfd = ep; channels = []; event_list_size = 16 }))
        (sys.eventfd k)
  behind_epoll (failed errno) k = refl

  second_loop :
      (use_poll : Bool) (k : sys.Kernel)
      → new_event_loop sys {F = F} use_poll true tid ptr k channels app ≡ err fatal
  unfolding new_event_loop default_poller with_poller
  second_loop true k = no_second none (sys.eventfd k)
  second_loop false k = behind_epoll (sys.epoll_create k).0 (sys.epoll_create k).1

  fatal_first :
      (use_poll : Bool) (self own : ℕ) (k : sys.Kernel) (o : Outcome (Reactor sys F S))
      → o ≡ err fatal
      → OneLoopOr self use_poll (suc own) k (o >>= λ r. ok (self, r))
  fatal_first use_poll self own k o e = rw e refl

  null_poller :
      (self : ℕ) (k0 : sys.Kernel) (out : CountResult × sys.Kernel)
      → OneLoopOr self true 0 k0 (
          (create_eventfd out >>= finish_creation sys {F = F} false tid ptr channels app none)
          >>= λ r. ok (self, r))
  unfolding create_eventfd finish_creation
  null_poller self k0 (count fd, k) = inr refl
  null_poller self k0 (failed errno, k) = inl refl

  created :
      (self : ℕ) (k : sys.Kernel) (o : Outcome (Reactor sys F S))
      → CreatedOr sys F tid ptr k channels app o
      → OneLoopOr self false 0 k (o >>= λ r. ok (self, r))
  created self k (ok r) c = (refl, c)
  created self k (err f) c = c

  -- One loop per thread. While the pointer of a thread is not null, the constructor of a loop ends the
  -- process, whatever the kernel does and whether MUDUO_USE_POLL is set. In a thread whose pointer is
  -- null the constructor sets it to the new loop, which has no functor pending and whose wakeup
  -- channel is watched for reading, while other channels and epoll instances stay as they are, or a LOG_FATAL ends the process; with MUDUO_USE_POLL set it
  -- never returns: it uses a null poller, if LOG_FATAL has not ended the process before.
  pub create_in_thread-OneLoop :
      EpollCtlLaw sys
      → CreateLaw sys
      → (use_poll : Bool) (self own : ℕ) (k : sys.Kernel)
      → OneLoopOr self use_poll own k
          (create_in_thread sys use_poll self own tid ptr k channels app)
  unfolding create_in_thread new_event_loop default_poller with_poller
  create_in_thread-OneLoop ctl law use_poll self (suc own) k =
      fatal_first use_poll self own k
        (new_event_loop sys use_poll (not (suc own == 0)) tid ptr k channels app)
        (subst (λ b. new_event_loop sys {F = F} use_poll b tid ptr k channels app ≡ err fatal)
          (sym (not_null own)) (second_loop use_poll k))
  create_in_thread-OneLoop ctl law true self zero k = null_poller self k (sys.eventfd k)
  create_in_thread-OneLoop ctl law false self zero k =
      created self k (new_event_loop sys false false tid ptr k channels app)
        (new_event_loop-Created sys F ctl law tid ptr k channels app false)
