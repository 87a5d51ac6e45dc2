-- ===== src/EventLoopThreadPool/RoundRobin.antt =====
-- getNextLoop over a round of calls.
use network_library_baseon_c.Base.{
  ℕ, zero, suc, ◌+◌, ◌-◌, subst, ◌<◌, ◌≡◌, refl, ◌∙◌, List, [], ◌∷◌, ◌++◌, some, Outcome, ok, ◌>>=◌,
  arith, length, get_elem?, take, drop, drop-all,
}
use network_library_baseon_c.EventLoopThreadPool.{EventLoopThreadPool, bump, next_of, get_next_loop}

-- `n` calls of getNextLoop: what they return, and the pool that they leave.
pub get_loops : ℕ → EventLoopThreadPool → Outcome (List ℕ × EventLoopThreadPool)
get_loops zero p = ok ([], p)
get_loops (suc n) p = do
  (loop, p') ← get_next_loop p
  (loops, p'') ← get_loops n p'
  ok (loop ∷ loops, p'')

-- The pool with `next_` at `i`.
abbrev pub at : ℕ → EventLoopThreadPool → EventLoopThreadPool
at i p = record p { next = i }

drop_get :
    (i : ℕ) (xs : List ℕ)
    → i < length xs
    → (x : ℕ) × (get_elem? xs i ≡ some x) × (drop i xs ≡ x ∷ drop (suc i) xs)
drop_get i [] h = absurd (omega arith)
drop_get zero (x ∷ xs) h = (x, refl, refl)
drop_get (suc i) (x ∷ xs) h = drop_get i xs (omega arith)

next_of_lem :
    (ls : List ℕ) (p : EventLoopThreadPool) (x : ℕ)
    → 0 < length ls
    → get_elem? p.loops p.next ≡ some x
    → next_of ls p ≡ ok (x, record p { next = bump p })
unfolding next_of
next_of_lem [] p x h e = absurd (omega arith)
next_of_lem (l ∷ ls) p x h e = rw e refl

pub get_next_loop_lem :
    (p : EventLoopThreadPool)
    → p.next < length p.loops
    → (x : ℕ) × (get_next_loop p ≡ ok (x, at (bump p) p))
      × (drop p.next p.loops ≡ x ∷ drop (suc p.next) p.loops)
unfolding get_next_loop
get_next_loop_lem p h =
    let (x, e, d) = drop_get p.next p.loops h in (x, next_of_lem p.loops p x (omega arith) e, d)

bump_inside : (p : EventLoopThreadPool) → p.next + 1 < length p.loops → bump p ≡ suc p.next
unfolding bump
bump_inside p h = ground arith

bump_end : (p : EventLoopThreadPool) → p.next + 1 ≡ length p.loops → bump p ≡ 0
unfolding bump
bump_end p h = ground arith

-- Calls that stay within the list.
get_loops_inside :
    (n i : ℕ) (p : EventLoopThreadPool)
    → i + n < length p.loops
    → get_loops n (at i p) ≡ ok (take n (drop i p.loops), at (i + n) p)
unfolding get_loops
get_loops_inside zero i p h = let same : i + 0 ≡ i = omega arith in rw same refl
get_loops_inside (suc n) i p h =
    let (x, e, d) = get_next_loop_lem (at i p) (omega arith) in
    let b = bump_inside (at i p) (omega arith) in
    let shift : suc i + n ≡ i + suc n = omega arith in
    rw (e, b, get_loops_inside n (suc i) p (omega arith), d, shift) refl

-- Calls that reach the end of the list, and `k` more.
get_loops_wrap :
    (n i k : ℕ) (p q : EventLoopThreadPool) (rest : List ℕ)
    → i + suc n ≡ length p.loops
    → get_loops k (at 0 p) ≡ ok (rest, q)
    → get_loops (suc n + k) (at i p) ≡ ok (drop i p.loops ++ rest, q)
unfolding get_loops
get_loops_wrap zero i k p q rest h e =
    let (x, f, d) = get_next_loop_lem (at i p) (omega arith) in
    let b = bump_end (at i p) (omega arith) in
    let over = drop-all (suc i) p.loops (omega arith) in
    let count : 1 + k ≡ suc k = omega arith in rw (count, get_loops) (rw (f, b, e, d, over) refl)
get_loops_wrap (suc n) i k p q rest h e =
    let (x, f, d) = get_next_loop_lem (at i p) (omega arith) in
    let b = bump_inside (at i p) (omega arith) in
    let count : suc (suc n) + k ≡ suc (suc n + k) = omega arith in
    rw (count, get_loops) (rw (f, b, get_loops_wrap n (suc i) k p q rest (omega arith) e, d) refl)

-- From a pool whose next_ is in range, as many calls of getNextLoop as it has loops return each of
-- them once, from next_ on and around, and leave the pool as it was; no call reads out of range.
pub get_loops_round :
    (p : EventLoopThreadPool)
    → p.next < length p.loops
    → get_loops (length p.loops) p ≡ ok (drop p.next p.loops ++ take p.next p.loops, p)
get_loops_round p h =
    let n = length p.loops - p.next - 1 in
    let all : suc n + p.next ≡ length p.loops = omega arith in
    let start : 0 + p.next ≡ p.next = omega arith in
    subst (λ m. get_loops m p ≡ ok (drop p.next p.loops ++ take p.next p.loops, p)) all
      (get_loops_wrap n p.next p.next p p (take p.next p.loops) (omega arith)
        (get_loops_inside p.next 0 p (omega arith) ∙ rw start refl))
