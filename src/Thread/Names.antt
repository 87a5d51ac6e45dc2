-- ===== src/Thread/Names.antt =====
-- The names that threads are given.
use network_library_baseon_c.Base.{ℕ, ◌+◌, ◌<◌, ◌≡◌, sym, ap, ◌∙◌, [], ◌∷◌, arith, drop}
use network_library_baseon_c.Text.{decimal}
use network_library_baseon_c.Text.Digits.{length-decimal, decimal_injective, cut_to_lem}
use network_library_baseon_c.Thread.{default_name, set_default_name, new_thread}

default_name_whole :
    (num : ℕ) → num < 2147483648 → default_name num ≡ 84 ∷ 104 ∷ 114 ∷ 101 ∷ 97 ∷ 100 ∷ decimal num
unfolding default_name
default_name_whole num small =
    cut_to_lem 32 (84 ∷ 104 ∷ 114 ∷ 101 ∷ 97 ∷ 100 ∷ decimal num)
      (omega (arith, length-decimal 9 num (omega arith)))

-- Two threads that are made without a name have the same name only if numCreated_ was the same
-- before both, as long as the counter stays an int: the buffer of 32 bytes cuts nothing off.
pub new_thread_injective :
    (i j : ℕ)
    → i < 2147483647
    → j < 2147483647
    → (new_thread i []).0.name ≡ (new_thread j []).0.name
    → i ≡ j
unfolding new_thread set_default_name
new_thread_injective i j si sj e =
    let whole =
      sym (default_name_whole (i + 1) (omega arith))
      ∙ e
      ∙ default_name_whole (j + 1) (omega arith) in
    let same : i + 1 ≡ j + 1 = decimal_injective (i + 1) (j + 1) (ap (drop 6) whole) in omega arith
