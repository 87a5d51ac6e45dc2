-- ===== src/EventLoopThread/Joining.antt =====
-- The destructor of src/EventLoopThread.cc, against every order of the two threads.
use network_library_baseon_c.Base.{
  ℕ, ◌≡◌, ◌⊎◌, inl, inr, Bool, true, false, not, List, [], ◌∷◌, arith,
}
use network_library_baseon_c.Thread.{Thread}
use network_library_baseon_c.EventLoopThread.{
  quitting, joining, destroyed, Worker, absent, published, looping, leaving, finished, Machine,
  Action, start_thread, post_tid, sem_returns, check_loop, wake_up, publish, enter_loop, leave_loop,
  clear_loop, destroy, test_loop, call_quit, join_returns, step, run, new_event_loop_thread,
}
use network_library_baseon_c.EventLoopThread.Starting.{Inv, run-Inv, new-Inv}

-- Where the thread can be while the destructor is in join(), when the loop had not been entered.
abbrev lost : Worker → Bool → Bool
lost published quit = true
lost looping quit = not quit
lost _ quit = false

-- The same, when it had been.
abbrev told : Worker → Bool → Bool
told looping quit = quit
told leaving quit = true
told finished quit = true
told _ quit = false

-- The destructor is in join(), of a thread whose loop will not see quit_.
record Stuck (m : Machine) : Type 0 where
  pub owner : m.owner ≡ joining
  pub lost : lost m.worker m.quit ≡ true

-- The destructor is in join(), of a thread that is on its way out, or behind it.
record Leaving (m : Machine) : Type 0 where
  pub owner : (m.owner ≡ joining) ⊎ ((m.owner ≡ destroyed) × (m.worker ≡ finished))
  pub told : told m.worker m.quit ≡ true

-- What is left of the thread and of join() when the loop sees quit_.
abbrev pub rest_of_join : List Action
rest_of_join = leave_loop ∷ clear_loop ∷ join_returns ∷ []

module _ (addr gettid : ℕ) where
  destroyed_lem :
      (m : Machine)
      → Inv addr m
      → m.owner ≡ destroyed
      → (m.loop ≡ 0) × ((m.worker ≡ absent) ⊎ (m.worker ≡ finished))
  destroyed_lem m v e = ground arith

  -- Behind the destructor there is no loop, and the thread has never been started or is at its end.
  pub run-Destroyed :
      (t : Thread) (acts : List Action)
      → (run addr gettid (new_event_loop_thread t) acts).owner ≡ destroyed
      → ((run addr gettid (new_event_loop_thread t) acts).loop ≡ 0)
        × (((run addr gettid (new_event_loop_thread t) acts).worker ≡ absent)
            ⊎ ((run addr gettid (new_event_loop_thread t) acts).worker ≡ finished))
  run-Destroyed t acts e =
      destroyed_lem (run addr gettid (new_event_loop_thread t) acts)
        (run-Inv addr gettid (new_event_loop_thread t) acts (new-Inv addr gettid t)) e

  step-Stuck : (m : Machine) (a : Action) → Stuck m → Stuck (step addr gettid m a)
  unfolding step
  step-Stuck m start_thread v = ground arith
  step-Stuck m post_tid v = ground arith
  step-Stuck m sem_returns v = ground arith
  step-Stuck m check_loop v = ground arith
  step-Stuck m wake_up v = ground arith
  step-Stuck m publish v = ground arith
  step-Stuck m enter_loop v = ground arith
  step-Stuck m leave_loop v = ground arith
  step-Stuck m clear_loop v = ground arith
  step-Stuck m destroy v = ground arith
  step-Stuck m test_loop v = ground arith
  step-Stuck m call_quit v = ground arith
  step-Stuck m join_returns v = ground arith

  run-Stuck : (m : Machine) (acts : List Action) → Stuck m → Stuck (run addr gettid m acts)
  unfolding run
  run-Stuck m [] v = v
  run-Stuck m (a ∷ later) v = run-Stuck (step addr gettid m a) later (step-Stuck m a v)

  step-Leaving : (m : Machine) (a : Action) → Leaving m → Leaving (step addr gettid m a)
  unfolding step
  step-Leaving m start_thread v = ground arith
  step-Leaving m post_tid v = ground arith
  step-Leaving m sem_returns v = ground arith
  step-Leaving m check_loop v = ground arith
  step-Leaving m wake_up v = ground arith
  step-Leaving m publish v = ground arith
  step-Leaving m enter_loop v = ground arith
  step-Leaving m leave_loop v = ground arith
  step-Leaving m clear_loop v = ground arith
  step-Leaving m destroy v = ground arith
  step-Leaving m test_loop v = ground arith
  step-Leaving m call_quit v = ground arith
  step-Leaving m join_returns v = ground arith

  run-Leaving : (m : Machine) (acts : List Action) → Leaving m → Leaving (run addr gettid m acts)
  unfolding run
  run-Leaving m [] v = v
  run-Leaving m (a ∷ later) v = run-Leaving (step addr gettid m a) later (step-Leaving m a v)

  told_ends : (m : Machine) → Leaving m → (run addr gettid m rest_of_join).owner ≡ destroyed
  unfolding run step
  told_ends m v = ground arith

  quit_early :
      (m : Machine)
      → m.owner ≡ quitting
      → m.worker ≡ published
      → Stuck (step addr gettid m call_quit)
  unfolding step
  quit_early m o w = ground arith

  quit_late :
      (m : Machine)
      → m.owner ≡ quitting
      → m.worker ≡ looping
      → Leaving (step addr gettid m call_quit)
  unfolding step
  quit_late m o w = ground arith

  entered_or_not :
      (m : Machine)
      → Inv addr m
      → m.owner ≡ quitting
      → (m.worker ≡ published) ⊎ (m.worker ≡ looping)
  entered_or_not m v o = ground arith

  -- What becomes of the destructor, from before quit() on, by whether the loop had been entered.
  abbrev pub Joined : Machine → List Action → Type 0
  Joined m later =
      ((m.worker ≡ published)
        × ((run addr gettid (step addr gettid m call_quit) later).owner ≡ joining))
      ⊎ ((m.worker ≡ looping)
          × ((run addr gettid (run addr gettid (step addr gettid m call_quit) later)
                rest_of_join).owner
              ≡ destroyed))

  quit-Joined :
      (m : Machine) (later : List Action) → Inv addr m → m.owner ≡ quitting → Joined m later
  quit-Joined m later v o = elim (entered_or_not m v o) [
    | inl before ↦
        inl (before, (run-Stuck (step addr gettid m call_quit) later (quit_early m o before)).owner)
    | inr inside ↦
        let m' = run addr gettid (step addr gettid m call_quit) later in
        let w = run-Leaving (step addr gettid m call_quit) later (quit_late m o inside) in
        inr (inside, told_ends m' w)
  ]

  -- When the destructor is about to call quit(), after whatever actions of the two threads: either
  -- the thread has not entered loop(), and then the destructor stays in join(), whatever the two
  -- threads do; or the thread is in loop(), and then, whatever they have done since, what is left of
  -- the thread brings the destructor to its end.
  pub run-Joined :
      (t : Thread) (acts later : List Action)
      → (run addr gettid (new_event_loop_thread t) acts).owner ≡ quitting
      → Joined (run addr gettid (new_event_loop_thread t) acts) later
  run-Joined t acts later o =
      let m = run addr gettid (new_event_loop_thread t) acts in
      quit-Joined m later
        (run-Inv addr gettid (new_event_loop_thread t) acts (new-Inv addr gettid t)) o
