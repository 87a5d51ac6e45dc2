-- ===== src/Text.antt =====
-- The texts that the library prints with snprintf and sprintf: a text is the list of its bytes.
pub mod Digits
use network_library_baseon_c.Base.{
  ℕ, zero, suc, ◌+◌, ◌-◌, ◌*◌, ◌/◌, ◌%◌, List, [], ◌∷◌, ◌++◌, length, take, replicate, ltb,
  if◌then◌else◌,
}

abbrev pub digit_0 : ℕ
digit_0 = 48

-- The last digit, and those before it; a number below `fuel` has fewer digits than that.
pub digits : ℕ → ℕ → List ℕ
digits zero n = []
digits (suc fuel) n =
    let front = digits fuel (n / 10) in
    if ltb n 10 then (digit_0 + n) ∷ [] else front ++ ((digit_0 + n % 10) ∷ [])

-- %d of a number that is not negative, and %u.
pub decimal : ℕ → List ℕ
unfolding digits
decimal n = digits (suc n) n

-- A conversion with a width: `fill` stands before a text that is shorter.
pub padded : ℕ → ℕ → List ℕ → List ℕ
padded fill width text = replicate (width - length text) fill ++ text

-- What snprintf leaves in a buffer of `size` bytes, before the zero byte.
unfoldable pub cut_to : ℕ → List ℕ → List ℕ
cut_to size text = take (size - 1) text

-- The number that a text of digits stands for.
pub value_from : ℕ → List ℕ → ℕ
value_from n [] = n
value_from n (c ∷ cs) = value_from (n * 10 + (c - digit_0)) cs

pub value : List ℕ → ℕ
unfolding value_from
value = value_from 0
