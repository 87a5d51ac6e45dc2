-- ===== src/EventLoop/Wakeups.antt =====
-- The wakeups and the queue of functors over runs of the interleaving.
use network_library_baseon_c.Base.{◌<◌, ◌≡◌, ◌≢◌, ◌⊎◌, inl, inr, refl, subst, List, [], ◌∷◌, ◌++◌}
use network_library_baseon_c.EventLoop.Interleave.{
  polling, Machine, Action, step, run, start, Inv, AwakeIn, step-Inv,
}

module _ {F : Type 0} where
  run-Inv : (m : Machine F) (actions : List (Action F)) → Inv m → Inv (run m actions)
  unfolding run
  run-Inv m [] v = v
  run-Inv m (a ∷ rest) v = run-Inv (step m a) rest (step-Inv m a v)

  start-Inv : Inv (start {F = F})
  start-Inv = record { awake = inl refl; idle = refl; fifo = refl }

  -- Whatever the loop thread and the others have done, in whatever order: where the loop thread
  -- waits in poll and a functor is pending, the eventfd is readable, or another thread is about to
  -- write to it.
  pub run_no_lost_wakeup :
      (actions : List (Action F))
      → (run start actions).phase ≡ polling
      → (run start actions).pending ≢ []
      → (0 < (run start actions).wakeups) ⊎ (0 < (run start actions).pushed)
  run_no_lost_wakeup actions e ne =
      awake_at
        (subst (λ p. AwakeIn p (run start actions)) e (run-Inv start actions start-Inv).awake)
    where
      awake_at :
          AwakeIn polling (run start actions)
          → (0 < (run start actions).wakeups) ⊎ (0 < (run start actions).pushed)
      awake_at (inl none) = absurd (ne none)
      awake_at (inr h) = h

  -- The functors ever queued, by whatever thread, are those called, those being called and those
  -- pending, in the order in which they were queued: none is lost, doubled or overtaken.
  pub run_fifo :
      (actions : List (Action F))
      → (run start actions).queued
        ≡ (run start actions).called ++ ((run start actions).running ++ (run start actions).pending)
  run_fifo actions = (run-Inv start actions start-Inv).fifo
