-- ===== src/TcpServer/ByName.antt =====
-- ConnectionMap of src/TcpServer.h: connections by name, as an association list.
use network_library_baseon_c.Base.{
  ℕ, ◌≡◌, inl, inr, refl, ap, subst, Bool-cases, Bool, true, false, ◌&&◌, List, [], ◌∷◌, Option,
  none, some, arith, ◌==◌, if◌then◌else◌,
}

-- `==` of two strings.
pub same_text : List ℕ → List ℕ → Bool
same_text [] [] = true
same_text [] (y ∷ ys) = false
same_text (x ∷ xs) [] = false
same_text (x ∷ xs) (y ∷ ys) = let rest = same_text xs ys in x == y && rest

abbrev pub ConnectionMap : Type 0
ConnectionMap = List (List ℕ × ℕ)

unfoldable pub find : List ℕ → ConnectionMap → Option ℕ
find name [] = none
find name ((n, c) ∷ m) = let rest = find name m in if same_text n name then some c else rest

unfoldable pub erase_name : List ℕ → ConnectionMap → ConnectionMap
erase_name name [] = []
erase_name name ((n, c) ∷ m) =
    let rest = erase_name name m in if same_text n name then rest else (n, c) ∷ rest

-- `conncetions_[name] = c`
unfoldable pub store_name : List ℕ → ℕ → ConnectionMap → ConnectionMap
unfolding erase_name
store_name name c m = (name, c) ∷ erase_name name m

pub same_text-eq : (xs ys : List ℕ) → same_text xs ys ≡ true → xs ≡ ys
unfolding same_text
same_text-eq [] [] h = refl
same_text-eq [] (y ∷ ys) h = cc
same_text-eq (x ∷ xs) [] h = cc
same_text-eq (x ∷ xs) (y ∷ ys) h = ground (arith, same_text-eq xs ys)

pub same_text_refl : (xs : List ℕ) → same_text xs xs ≡ true
unfolding same_text
same_text_refl [] = refl
same_text_refl (x ∷ xs) = ground (arith, same_text_refl xs)

same_text_trans : (xs ys zs : List ℕ) → same_text xs ys ≡ true → same_text xs zs ≡ same_text ys zs
same_text_trans xs ys zs h = ap (λ t. same_text t zs) (same_text-eq xs ys h)

same_text_sym : (xs ys : List ℕ) → same_text xs ys ≡ true → same_text ys xs ≡ true
same_text_sym xs ys h =
    subst (λ t. same_text t xs ≡ true) (same_text-eq xs ys h) (same_text_refl xs)

-- A name that is not `name` is found as before.
other_name :
    (name n a : List ℕ) (c : ℕ) (m : ConnectionMap)
    → same_text a name ≡ false
    → (if same_text a n then some c else (if same_text name n then none else find n m))
      ≡ (if same_text name n then none else (if same_text a n then some c else find n m))
other_name name n a c m other = elim (Bool-cases (same_text name n)) [
  | inl hit ↦ elim (Bool-cases (same_text a n)) [
    | inl both ↦ absurd (ground (arith, same_text_trans a n name both, same_text_sym name n hit))
    | inr only ↦ rw (hit, only) refl
  ]
  | inr miss ↦ rw miss refl
]

pub find-erase_name :
    (name n : List ℕ) (m : ConnectionMap)
    → find n (erase_name name m) ≡ (if same_text name n then none else find n m)
unfolding find erase_name
find-erase_name name n [] = ground arith
find-erase_name name n ((a, c) ∷ m) = elim (Bool-cases (same_text a name)) [
  | inl same ↦ rw (same, find-erase_name name n m, same_text_trans a name n same) (ground arith)
  | inr other ↦ rw (other, find, find-erase_name name n m) (other_name name n a c m other)
]

-- What is found behind a store: the new connection by its own name, and the others as before.
pub find-store_name :
    (name n : List ℕ) (c : ℕ) (m : ConnectionMap)
    → find n (store_name name c m) ≡ (if same_text name n then some c else find n m)
unfolding find store_name
find-store_name name n c m = elim (Bool-cases (same_text name n)) [
  | inl hit ↦ rw (hit, find) refl
  | inr miss ↦ rw (miss, find) (rw (find-erase_name name n m, miss) refl)
]
