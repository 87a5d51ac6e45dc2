-- ===== src/EventLoop/Pending.antt =====
-- doPendingFunctors: which functors it calls, in which order, and what becomes of those that are
-- queued while it runs.
use network_library_baseon_c.Base.{
  ℕ, zero, suc, ◌≡◌, refl, true, false, List, [], ◌∷◌, ◌++◌, append_assoc, append-nil, arith,
  Outcome, ok, length,
}
use network_library_baseon_c.Sys.{Sys}
use network_library_baseon_c.EventLoop.{
  Reactor, wakeup, is_in_loop_thread, queue_in_loop, call_all, do_pending_functors, one_bytes,
}

-- The kernel after `n` wakeups through `fd`.
abbrev pub woken : (sys : Sys) → ℕ → ℕ → sys.Kernel → sys.Kernel
woken sys fd zero k = k
woken sys fd (suc n) k = woken sys fd n (sys.write k fd one_bytes).1

woken-append :
    {F : Type 0} (sys : Sys) (fd : ℕ) (xs ys : List F) (k : sys.Kernel)
    → woken sys fd (length (xs ++ ys)) k ≡ woken sys fd (length ys) (woken sys fd (length xs) k)
woken-append sys fd [] ys k = refl
woken-append sys fd (x ∷ xs) ys k = woken-append sys fd xs ys (sys.write k fd one_bytes).1

module _ {F : Type 0} (script : F → List F) where
  -- The functors that `fs` queue, in order.
  abbrev pub spawned : List F → List F
  spawned [] = []
  spawned (f ∷ fs) = script f ++ spawned fs

  module _ (sys : Sys) where
    -- Each functor queues others in its own thread.
    abbrev pub queue_each : List F → Reactor sys F (List F) → Reactor sys F (List F)
    queue_each [] r = r
    queue_each (g ∷ gs) r = queue_each gs (queue_in_loop sys r.loop.thread_id g r)

    -- A functor that notes that it ran, and queues those of its script.
    abbrev pub run_script : F → Reactor sys F (List F) → Outcome (Reactor sys F (List F))
    run_script f r = ok (queue_each (script f) (record r { app = r.app ++ (f ∷ []) }))

    -- A reactor with `gs` queued, each with a wakeup.
    abbrev queued : List F → Reactor sys F (List F) → Reactor sys F (List F)
    queued gs r = record r {
      loop = record (r.loop) { pending_functors = r.loop.pending_functors ++ gs };
      kernel = woken sys r.loop.wakeup_fd (length gs) r.kernel;
    }

    queue_in_loop_calling :
        (g : F) (r : Reactor sys F (List F))
        → r.loop.calling_pending_functors ≡ true
        → queue_in_loop sys r.loop.thread_id g r ≡ queued (g ∷ []) r
    unfolding queue_in_loop wakeup is_in_loop_thread
    queue_in_loop_calling g r h = ground arith

    queue_each_lem :
        (gs : List F) (r : Reactor sys F (List F))
        → r.loop.calling_pending_functors ≡ true
        → queue_each gs r ≡ queued gs r
    queue_each_lem [] r h = rw (append-nil r.loop.pending_functors)
    queue_each_lem (g ∷ gs) r h =
        rw (queue_in_loop_calling g r h, queue_each_lem gs (queued (g ∷ []) r) h)
          (rw (append_assoc r.loop.pending_functors (g ∷ []) gs))

    -- A reactor whose functors `fs` have run.
    abbrev ran : List F → Reactor sys F (List F) → Reactor sys F (List F)
    ran fs r = queued (spawned fs) (record r { app = r.app ++ fs })

    call_all-ran :
        (fs : List F) (r : Reactor sys F (List F))
        → r.loop.calling_pending_functors ≡ true
        → call_all sys run_script fs r ≡ ok (ran fs r)
    unfolding call_all
    call_all-ran [] r h = rw (append-nil r.loop.pending_functors, append-nil r.app)
    call_all-ran (f ∷ fs) r h = rw (
      queue_each_lem (script f) (record r { app = r.app ++ (f ∷ []) }) h,
      call_all-ran fs (queued (script f) (record r { app = r.app ++ (f ∷ []) })) h,
      append_assoc r.loop.pending_functors (script f) (spawned fs),
      append_assoc r.app (f ∷ []) fs,
      woken-append sys r.loop.wakeup_fd (script f) (spawned fs) r.kernel,
    )

    -- Whatever functors each functor queues in turn: doPendingFunctors returns, having called exactly
    -- those that were pending when it began, once and in order. Those queued meanwhile are left
    -- pending, in order, with one wakeup written for each, and callingPendingFunctors_ is clear.
    pub do_pending_functors_fifo :
        (r : Reactor sys F (List F))
        → (r' : Reactor sys F (List F)) × (do_pending_functors sys run_script r ≡ ok r')
          × (r'.app ≡ r.app ++ r.loop.pending_functors)
          × (r'.loop.pending_functors ≡ spawned r.loop.pending_functors)
          × (r'.kernel
              ≡ woken sys r.loop.wakeup_fd (length (spawned r.loop.pending_functors)) r.kernel)
          × (r'.loop.calling_pending_functors ≡ false)
    unfolding do_pending_functors
    do_pending_functors_fifo r =
        let r0 = record r {
          loop = record (r.loop) { calling_pending_functors = true; pending_functors = [] };
        } in
        let r1 = ran r.loop.pending_functors r0 in
        (
          record r1 { loop = record (r1.loop) { calling_pending_functors = false } },
          rw (call_all-ran r.loop.pending_functors r0 refl),
          refl,
          refl,
          refl,
          refl,
        )
