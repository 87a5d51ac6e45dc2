-- ===== src/Text/Digits.antt =====
-- Decimal digits: how many, and the number that they stand for.
use network_library_baseon_c.Base.{
  ℕ, zero, suc, ◌+◌, ◌-◌, ◌*◌, ◌/◌, ◌%◌, ◌≤◌, ◌<◌, ◌≡◌, refl, sym, ap, ◌∙◌, List, [], ◌∷◌, ◌++◌,
  arith, inl, inr, length, length-append, length-replicate, take-all, replicate, ltb, Bool-cases,
  false,
}
use network_library_baseon_c.Text.{digit_0, digits, decimal, padded, cut_to, value_from, value}

value_from-append :
    (n : ℕ) (xs : List ℕ) (c : ℕ)
    → value_from n (xs ++ (c ∷ [])) ≡ value_from n xs * 10 + (c - digit_0)
unfolding value_from
value_from-append n [] c = refl
value_from-append n (x ∷ xs) c = value_from-append (n * 10 + (x - digit_0)) xs c

value-digits : (fuel n : ℕ) → n < fuel → value (digits fuel n) ≡ n
unfolding digits value
value-digits zero n h = absurd (omega arith)
value-digits (suc fuel) n h = elim (Bool-cases (ltb n 10)) [
  | inl small ↦ rw small (ground (arith, value_from))
  | inr large ↦ rw large (
      omega (
        arith,
        value_from-append 0 (digits fuel (n / 10)) (digit_0 + n % 10),
        value-digits fuel (n / 10) (ground arith),
      ))
]

-- A number printed and read again is the same.
pub value-decimal : (n : ℕ) → value (decimal n) ≡ n
unfolding decimal
value-decimal n = value-digits (suc n) n (omega arith)

-- Different numbers print differently.
pub decimal_injective : (m n : ℕ) → decimal m ≡ decimal n → m ≡ n
decimal_injective m n e = sym (value-decimal m) ∙ ap value e ∙ value-decimal n

-- Ten to the power `k`.
abbrev pub ten_to : ℕ → ℕ
ten_to zero = 1
ten_to (suc k) = ten_to k * 10

length-digits : (k fuel n : ℕ) → n < ten_to (suc k) → length (digits fuel n) ≤ suc k
unfolding digits
length-digits k zero n h = omega arith
length-digits zero (suc fuel) n h = ground arith
length-digits (suc k) (suc fuel) n h = elim (Bool-cases (ltb n 10)) [
  | inl small ↦ rw small (omega arith)
  | inr large ↦ rw large (
      omega (
        arith,
        length-append (digits fuel (n / 10)) ((digit_0 + n % 10) ∷ []),
        length-digits k fuel (n / 10) (omega arith),
      ))
]

-- A number below ten to the power `k + 1` has at most that many digits.
pub length-decimal : (k n : ℕ) → n < ten_to (suc k) → length (decimal n) ≤ suc k
unfolding decimal
length-decimal k n h = length-digits k (suc n) n h

pub length-padded :
    (fill width : ℕ) (text : List ℕ) → length text ≤ width → length (padded fill width text) ≡ width
unfolding padded
length-padded fill width text h = omega (
  arith,
  length-append (replicate (width - length text) fill) text,
  length-replicate {A = ℕ} (width - length text) fill,
)

pub cut_to_lem : (size : ℕ) (text : List ℕ) → length text < size → cut_to size text ≡ text
unfolding cut_to
cut_to_lem size text h = take-all (size - 1) text (omega arith)

-- More fuel than the number makes no difference.
digits_fuel : (f g n : ℕ) → n < f → n < g → digits f n ≡ digits g n
unfolding digits
digits_fuel zero g n h h' = absurd (omega arith)
digits_fuel (suc f) zero n h h' = absurd (omega arith)
digits_fuel (suc f) (suc g) n h h' = elim (Bool-cases (ltb n 10)) [
  | inl small ↦ rw small refl
  | inr large ↦ rw large (
      ap (λ ds. ds ++ ((digit_0 + n % 10) ∷ []))
        (digits_fuel f g (n / 10) (ground arith) (ground arith)))
]

decimal_small : (n : ℕ) → n < 10 → decimal n ≡ (digit_0 + n) ∷ []
unfolding decimal digits
decimal_small n h = ground arith

decimal_step : (n : ℕ) → 10 ≤ n → decimal n ≡ decimal (n / 10) ++ ((digit_0 + n % 10) ∷ [])
unfolding decimal digits
decimal_step n h =
    let large : ltb n 10 ≡ false = ground arith in
    rw large (
      ap (λ ds. ds ++ ((digit_0 + n % 10) ∷ []))
        (digits_fuel n (suc (n / 10)) (n / 10) (ground arith) (omega arith)))

-- The last decimal digit of a number.
abbrev pub digit : ℕ → ℕ
digit n = digit_0 + n % 10

-- A conversion with two digits and zeros.
pub padded_two : (n : ℕ) → n < 100 → padded digit_0 2 (decimal n) ≡ digit (n / 10) ∷ digit n ∷ []
unfolding padded
padded_two n h = elim (Bool-cases (ltb n 10)) [
  | inl small ↦
      rw (decimal_small n (ground arith)) (two_bytes _ _ _ _ (ground arith) (ground arith))
  | inr large ↦
      rw (decimal_step n (ground arith), decimal_small (n / 10) (ground arith))
        (two_bytes _ _ _ _ (ground arith) (ground arith))
]
  where
    two_bytes : (a b a' b' : ℕ) → a ≡ a' → b ≡ b' → a ∷ b ∷ [] ≡ a' ∷ b' ∷ []
    two_bytes a b a' b' e f = cc (e, f)

-- One of four digits.
decimal_four :
    (n : ℕ)
    → 1000 ≤ n
    → n < 10000
    → decimal n ≡ digit (n / 1000) ∷ digit (n / 100) ∷ digit (n / 10) ∷ digit n ∷ []
decimal_four n low high =
    let a : n / 10 / 10 ≡ n / 100 = omega arith in
    let b : n / 100 / 10 ≡ n / 1000 = omega arith in
    let c : (n / 1000) % 10 ≡ n / 1000 = omega arith in
    rw
      (
        decimal_step n (omega arith),
        decimal_step (n / 10) (omega arith),
        decimal_step (n / 10 / 10) (omega arith),
        decimal_small (n / 10 / 10 / 10) (omega arith),
        a,
        b,
        c,
      )
      refl

-- A conversion with four digits and blanks.
pub padded_four :
    (n : ℕ)
    → 1000 ≤ n
    → n < 10000
    → padded 32 4 (decimal n) ≡ digit (n / 1000) ∷ digit (n / 100) ∷ digit (n / 10) ∷ digit n ∷ []
unfolding padded
padded_four n low high = rw (decimal_four n low high) refl
