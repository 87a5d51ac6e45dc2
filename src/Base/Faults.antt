-- ===== src/Base/Faults.antt =====
-- What a call does: it returns, or the process does not go on.

-- `fatal` is LOG_FATAL, which calls exit(-1); `bad_function_call` and `length_error` are the
-- exceptions of an empty std::function and of std::vector; `out_of_bounds` and `dangling` stand
-- for undefined behaviour: an access outside an array, a use of a dead object.
pub data Fault : Type 0 where
  fatal bad_function_call length_error out_of_bounds dangling : Fault

pub data Outcome {ℓ} (Value : Type ℓ) : Type ℓ where
  ok : Value → Outcome Value
  err : Fault → Outcome Value

module _ {ℓ κ} {Value : Type ℓ} {Next : Type κ} where
  -- The next call, unless the process has ended.
  infixl 5 ◌>>=◌
  abbrev pub ◌>>=◌ : Outcome Value → (Value → Outcome Next) → Outcome Next
  err fault >>= next = err fault
  ok value >>= next = next value
