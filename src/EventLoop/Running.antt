-- ===== src/EventLoop/Running.antt =====
-- How the while loop of EventLoop::loop ends.
use network_library_baseon_c.Base.{ℕ, ◌≡◌, List, ◌++◌, Outcome}
use network_library_baseon_c.Sys.{Sys}
use network_library_baseon_c.EventLoop.{Reactor, loop}

module _ (sys : Sys) {F S : Type 0} (handle : ℕ → ℕ → Reactor sys F S → Outcome (Reactor sys F S))
    (call : F → Reactor sys F S → Outcome (Reactor sys F S)) where
  -- The queue of `r'` is that of `r` with functors behind it.
  abbrev pub Queues : Reactor sys F S → Reactor sys F S → Type 0
  Queues r r' = (gs : List F) × (r'.loop.pending_functors ≡ r.loop.pending_functors ++ gs)
