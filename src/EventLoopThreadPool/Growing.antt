-- ===== src/EventLoopThreadPool/Growing.antt =====
-- start() of the pool, where startLoop() may end the process, and what it keeps of the state.
use network_library_baseon_c.Base.{
  ℕ, zero, suc, ◌<◌, ◌≡◌, refl, inl, inr, true, ◌++◌, ◌∷◌, [], none, Outcome, ok, err, fatal, ◌>>=◌,
  arith, length-append, ◌==◌, Bool-cases, if◌then◌else◌,
}
use network_library_baseon_c.EventLoopThreadPool.{
  EventLoopThreadPool, start_loops, call_init, start,
}
use network_library_baseon_c.EventLoopThreadPool.Started.{IsUsable, Grown, pushed-IsUsable}

module _ {W : Type 0} (start_loop : ℕ → W → Outcome (ℕ × W)) where
  -- What is kept by the start of a thread, unless the process ends.
  abbrev pub KeptOr : (W → Type 0) → Outcome (ℕ × W) → Type 0
  KeptOr P (ok (l, w)) = (0 < l) × P w
  KeptOr P (err f) = f ≡ fatal

  abbrev pub GrownOr :
      (W → Type 0) → ℕ → EventLoopThreadPool → Outcome (EventLoopThreadPool × W) → Type 0
  GrownOr P n p (ok (p', w)) = Grown start_loop none n p p' × P w
  GrownOr P n p (err f) = f ≡ fatal

  module _ (P : W → Type 0) (starts : (i : ℕ) (w : W) → P w → KeptOr P (start_loop i w)) where
    grown_next :
        (n l : ℕ) (p : EventLoopThreadPool) (o : Outcome (EventLoopThreadPool × W))
        → GrownOr P n (record p { loops = p.loops ++ (l ∷ []) }) o
        → GrownOr P (suc n) p o
    grown_next n l p (ok (p', w)) (g, kept) = (
      record {
        usable = g.usable;
        count = omega (arith, g.count, length-append p.loops (l ∷ []));
        started = g.started;
        base = g.base;
      },
      kept,
    )
    grown_next n l p (err f) e = e

    next :
        (i n : ℕ) (p : EventLoopThreadPool) (o : Outcome (ℕ × W))
        → IsUsable p
        → KeptOr P o
        → ((q : EventLoopThreadPool) (w : W)
            → IsUsable q
            → P w
            → GrownOr P n q (start_loops start_loop none (suc i) n q w))
        → GrownOr P (suc n) p (
            o >>= λ out.
            start_loops start_loop none
              (suc i)
              n
              (record p { loops = p.loops ++ (out.0 ∷ []) })
              out.1)
    next i n p (ok (l, w)) v (h, kept) rest =
        let q = record p { loops = p.loops ++ (l ∷ []) } in
        grown_next n l p (start_loops start_loop none (suc i) n q w)
          (rest q w (pushed-IsUsable start_loop none l p h v) kept)
    next i n p (err f) v e rest = e

    start_loops-GrownOr :
        (i n : ℕ) (p : EventLoopThreadPool) (w : W)
        → IsUsable p
        → P w
        → GrownOr P n p (start_loops start_loop none i n p w)
    unfolding start_loops
    start_loops-GrownOr i zero p w v kept =
        (record { usable = v; count = omega arith; started = refl; base = refl }, kept)
    start_loops-GrownOr i (suc n) p w v kept =
        next i n p (start_loop i w) v (starts i w kept)
          (λ q w' u k. start_loops-GrownOr (suc i) n q w' u k)

    -- start() without a callback for the threads.
    pub start-GrownOr :
        (p : EventLoopThreadPool) (w : W)
        → IsUsable p
        → P w
        → GrownOr P p.num_threads (record p { started = true }) (start start_loop none p w)
    unfolding start
    start-GrownOr p w v kept =
        called (start_loops start_loop none 0 p.num_threads (record p { started = true }) w) (
          start_loops-GrownOr 0 p.num_threads (record p { started = true }) w
            (record { base = v.base; loops = v.loops; range = v.range }) kept)
      where
        called :
            (o : Outcome (EventLoopThreadPool × W))
            → GrownOr P p.num_threads (record p { started = true }) o
            → GrownOr P p.num_threads
                (record p { started = true })
                (o >>= λ out.
                  (if out.0.num_threads == 0
                    then call_init start_loop none none out.0.base_loop out.1
                    else ok out.1)
                  >>= λ w''. ok (out.0, w''))
        called (ok (p', w')) g = elim (Bool-cases (p'.num_threads == 0)) [
          | inl alone ↦ rw alone g
          | inr many ↦ rw many g
        ]
        called (err f) e = e
