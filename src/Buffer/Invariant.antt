-- ===== src/Buffer/Invariant.antt =====
-- The layout of a buffer, 8 <= readerIndex <= writerIndex <= size, and the bytes that it holds.
use network_library_baseon_c.Base.{
  ℕ, ◌+◌, ◌-◌, ◌≤◌, ◌≡◌, refl, sym, List, ◌++◌, arith, [], ◌∷◌, ok, le→leb, length, take, drop,
  splice, length-append, length-take, length-drop, take-append_add, take-append_self,
  take-drop-take,
}
use network_library_baseon_c.Buffer.{
  Buffer, cheap_prepend, max_size, readable_bytes, writable_bytes, read_at,
}

pub record IsValid (b : Buffer) : Type 0 where
  pub prepend : cheap_prepend ≤ b.reader_index
  pub ordered : b.reader_index ≤ b.writer_index
  pub within : b.writer_index ≤ length b.storage
  pub small : length b.storage ≤ max_size

-- The readable bytes, oldest first.
abbrev pub content : Buffer → List ℕ
content b = drop b.reader_index (take b.writer_index b.storage)

pub length-content : {b : Buffer} → IsValid b → length (content b) ≡ b.writer_index - b.reader_index
length-content {b} v = omega (
  arith,
  length-drop b.reader_index (take b.writer_index b.storage),
  length-take b.writer_index b.storage,
)

pub readable_bytes_lem :
    {b : Buffer} → IsValid b → readable_bytes b ≡ b.writer_index - b.reader_index
unfolding readable_bytes
readable_bytes_lem v = omega arith

pub writable_bytes_lem :
    {b : Buffer} → IsValid b → writable_bytes b ≡ length b.storage - b.writer_index
unfolding writable_bytes
writable_bytes_lem v = omega arith

-- What a read of the first `n` readable bytes returns.
pub read_at_lem :
    {b : Buffer} (n : ℕ)
    → IsValid b
    → b.reader_index + n ≤ b.writer_index
    → read_at b.storage b.reader_index n ≡ ok (take n (content b))
read_at_lem {b} n v h = rw (
  le→leb (b.reader_index + n) (length b.storage) (omega arith),
  take-drop-take n b.reader_index b.writer_index b.storage h,
)

-- The prefix up to the end of what a copy has written.
pub take-splice :
    (n k : ℕ) (ys xs : List ℕ)
    → n ≤ length xs
    → k ≡ length ys
    → take (n + k) (splice n ys xs) ≡ take n xs ++ ys
take-splice n k ys xs h e = rw (
  take-append_add n k (take n xs) (ys ++ drop (n + length ys) xs) (omega (arith, length-take n xs)),
  take-append_self k ys (drop (n + length ys) xs) (sym e),
)

pub length-splice :
    (n : ℕ) (ys xs : List ℕ) → n + length ys ≤ length xs → length (splice n ys xs) ≡ length xs
length-splice n ys xs h = omega (
  arith,
  length-append (take n xs) (ys ++ drop (n + length ys) xs),
  length-append ys (drop (n + length ys) xs),
  length-take n xs,
  length-drop (n + length ys) xs,
)

pub nil_of_length : (xs : List ℕ) → length xs ≡ 0 → xs ≡ []
nil_of_length [] h = refl
nil_of_length (x ∷ xs) h = absurd (omega arith)
