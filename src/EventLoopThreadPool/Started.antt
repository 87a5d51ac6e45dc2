-- ===== src/EventLoopThreadPool/Started.antt =====
-- The pools that start() makes, and getNextLoop on them.
use network_library_baseon_c.Base.{
  ℕ, zero, suc, ◌+◌, ◌-◌, ◌<◌, ◌≡◌, ◌⊎◌, inl, inr, refl, ap, ◌∙◌, subst, List, [], ◌∷◌, ◌++◌,
  Option, Outcome, ok, arith, length, length-append, drop, ◌==◌, Bool-cases,
}
use network_library_baseon_c.EventLoopThreadPool.{EventLoopThreadPool, bump, next_of, get_next_loop}
use network_library_baseon_c.EventLoopThreadPool.RoundRobin.{get_next_loop_lem}

-- No loop of the list is null.
abbrev pub NoNull : List ℕ → Type 0
NoNull [] = Unit {0}
NoNull (l ∷ ls) = (0 < l) × NoNull ls

-- A pool that has loops to give, none of them null.
pub record IsUsable (p : EventLoopThreadPool) : Type 0 where
  pub base : 0 < p.base_loop
  pub loops : NoNull p.loops
  pub range : (p.next ≡ 0) ⊎ (p.next < length p.loops)

append-NoNull : (xs ys : List ℕ) → NoNull xs → NoNull ys → NoNull (xs ++ ys)
append-NoNull [] ys v w = w
append-NoNull (x ∷ xs) ys v w = (v.0, append-NoNull xs ys v.1 w)

drop-NoNull : (n : ℕ) (xs : List ℕ) → NoNull xs → NoNull (drop n xs)
drop-NoNull zero [] v = tt
drop-NoNull (suc n) [] v = tt
drop-NoNull zero (x ∷ xs) v = v
drop-NoNull (suc n) (x ∷ xs) v = drop-NoNull n xs v.1

not_null : (x : ℕ) → 0 < x → (l : ℕ) × (x ≡ suc l)
not_null x h = (x - 1, omega arith)

module _ {W : Type 0} (start_loop : ℕ → W → Outcome (ℕ × W))
    (init : Option (ℕ → W → Outcome W)) where
  -- A usable pool with `n` loops more.
  pub record Grown (n : ℕ) (p p' : EventLoopThreadPool) : Type 0 where
    pub usable : IsUsable p'
    pub count : length p'.loops ≡ length p.loops + n
    pub started : p'.started ≡ p.started
    pub base : p'.base_loop ≡ p.base_loop

  pub pushed-IsUsable :
      (l : ℕ) (p : EventLoopThreadPool)
      → 0 < l
      → IsUsable p
      → IsUsable (record p { loops = p.loops ++ (l ∷ []) })
  pushed-IsUsable l p h v = record {
    base = v.base;
    loops = append-NoNull p.loops (l ∷ []) v.loops (h, tt);
    range = elim v.range [
      | inl none_yet ↦ inl none_yet
      | inr inside ↦ inr (omega (arith, length-append p.loops (l ∷ [])))
    ];
  }

bump-IsUsable :
    (p : EventLoopThreadPool)
    → p.next < length p.loops
    → IsUsable p
    → IsUsable (record p { next = bump p })
unfolding bump
bump-IsUsable p h v = record { base = v.base; loops = v.loops; range = ground arith }

inside_or_empty :
    (p : EventLoopThreadPool) → IsUsable p → (p.loops ≡ []) ⊎ (p.next < length p.loops)
inside_or_empty p v = elim v.range [
  | inl zeroth ↦ elim (Bool-cases (length p.loops == 0)) [
    | inl empty ↦ inl (ground arith)
    | inr more ↦ inr (ground arith)
  ]
  | inr inside ↦ inr inside
]

of_base : (p : EventLoopThreadPool) → next_of [] p ≡ ok (p.base_loop, p)
unfolding next_of
of_base p = refl

-- getNextLoop on a usable pool returns a loop that is not null, so that CheckLoopNotNull lets it
-- through, and leaves a usable pool: no number of calls reads out of range.
pub get_next_loop-IsUsable :
    (p : EventLoopThreadPool)
    → IsUsable p
    → (l : ℕ) × (p' : EventLoopThreadPool) × (get_next_loop p ≡ ok (suc l, p'))
      × IsUsable p'
      × (p'.loops ≡ p.loops)
unfolding get_next_loop
get_next_loop-IsUsable p v = elim (inside_or_empty p v) [
  | inl empty ↦
      let (l, h) = not_null p.base_loop v.base in
      (l, p, ap (λ ls. next_of ls p) empty ∙ of_base p ∙ ap (λ b. ok (b, p)) h, v, refl)
  | inr inside ↦
      let (x, e, d) = get_next_loop_lem p inside in
      let some_loop : NoNull (x ∷ drop (suc p.next) p.loops) =
        subst NoNull d (drop-NoNull p.next p.loops v.loops) in
      let (l, h) = not_null x some_loop.0 in
      (
        l,
        record p { next = bump p },
        e ∙ ap (λ y. ok (y, record p { next = bump p })) h,
        bump-IsUsable p inside v,
        refl,
      )
]
