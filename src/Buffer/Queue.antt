-- ===== src/Buffer/Queue.antt =====
-- append and retrieve against the content of a buffer.
use network_library_baseon_c.Base.{
  ℕ, ◌+◌, ◌≤◌, ◌<◌, ◌≡◌, refl, ap, sym, ◌∙◌, inl, inr, List, [], ◌++◌, arith, Outcome, ok, err,
  length_error, ◌>>=◌, ltb, Bool-cases, length, take, drop, replicate, splice, length-take,
  length-replicate, drop-append_left, drop-drop, drop-all,
}
use network_library_baseon_c.Buffer.{
  Buffer, cheap_prepend, max_size, add_size, new_buffer, readable_bytes, retrieve_all, retrieve,
  retrieve_as_string, ensure_writeable_bytes, append, write_bytes, peek,
}
use network_library_baseon_c.Buffer.Invariant.{
  IsValid, content, length-content, readable_bytes_lem, read_at_lem, take-splice, length-splice,
}
use network_library_baseon_c.Buffer.Space.{Ensured, Roomy, ensure_writeable_bytes-Ensured}

-- A new buffer of a size below max_size() is valid and empty.
pub new_buffer-IsValid :
    (n : ℕ) → n + cheap_prepend ≤ max_size → IsValid (new_buffer n) × (content (new_buffer n) ≡ [])
unfolding new_buffer
new_buffer-IsValid n h =
    let len : length (replicate {A = ℕ} (cheap_prepend + n) 0) ≡ cheap_prepend + n =
      length-replicate (cheap_prepend + n) 0 in
    (
      record {
        prepend = omega arith;
        ordered = omega arith;
        within = omega arith;
        small = omega arith;
      },
      drop-all cheap_prepend (take cheap_prepend (replicate (cheap_prepend + n) 0))
          (omega (arith, length-take cheap_prepend (replicate {A = ℕ} (cheap_prepend + n) 0))),
    )

-- `b'` is valid and holds `bytes` behind the content of `b`, in a vector that is no shorter.
pub record Extended (b : Buffer) (bytes : List ℕ) (b' : Buffer) : Type 0 where
  pub valid : IsValid b'
  pub extended : content b' ≡ content b ++ bytes
  pub grows : length b.storage ≤ length b'.storage
  pub reach : b'.writer_index ≤ b.writer_index + length bytes
  pub reuses :
      length (content b) + length bytes + cheap_prepend ≤ length b.storage
      → length b'.storage ≡ length b.storage

abbrev pub Appended : Buffer → List ℕ → Outcome Buffer → Type 0
Appended b bytes (ok b') = Extended b bytes b'
Appended b bytes (err e) = (e ≡ length_error) × (max_size < b.writer_index + length bytes)

-- The copy behind the room that ensureWriteableBytes has made.
unfoldable pub put_bytes : Buffer → List ℕ → Buffer
put_bytes b bytes = record b {
  storage = splice b.writer_index bytes b.storage;
  writer_index = b.writer_index + length bytes;
}

content-put_bytes :
    {b : Buffer} (bytes : List ℕ) → IsValid b → content (put_bytes b bytes) ≡ content b ++ bytes
unfolding put_bytes
content-put_bytes {b} bytes v = rw (
  take-splice b.writer_index (length bytes) bytes b.storage (omega arith) refl,
  drop-append_left b.reader_index (take b.writer_index b.storage) bytes
      (omega (arith, length-take b.writer_index b.storage)),
)

pub put_bytes-Extended :
    {b : Buffer} {b' : Buffer} (bytes : List ℕ)
    → Roomy b (length bytes) b'
    → Extended b bytes (put_bytes b' bytes)
unfolding put_bytes
put_bytes-Extended {b} {b'} bytes r =
    let len = length-splice b'.writer_index bytes b'.storage r.room in
    record {
      valid = record {
        prepend = r.valid.prepend;
        ordered = omega arith;
        within = omega arith;
        small = omega arith;
      };
      extended = content-put_bytes bytes r.valid ∙ ap (λ t. t ++ bytes) r.kept;
      grows = omega arith;
      reach = omega arith;
      reuses = λ fits. len ∙ r.reuses fits;
    }

write_bytes_lem :
    {b b' : Buffer} (bytes : List ℕ)
    → Roomy b (length bytes) b'
    → write_bytes b' bytes ≡ ok (put_bytes b' bytes)
unfolding write_bytes put_bytes
write_bytes_lem {b} {b'} bytes r = ground arith

write_bytes-Appended :
    (b : Buffer) (bytes : List ℕ) (r : Outcome Buffer)
    → Ensured b (length bytes) r
    → Appended b bytes (r >>= λ b'. write_bytes b' bytes)
write_bytes-Appended b bytes (ok b') r =
    rw (write_bytes_lem {b = b} {b' = b'} bytes r) (put_bytes-Extended bytes r)
write_bytes-Appended b bytes (err e) r = r

-- On a valid buffer, append of at most max_size() bytes puts them behind the content and keeps
-- the buffer valid; the vector never shrinks, and keeps its size when content, bytes and the
-- prependable area fit in it. It throws length_error only if the bytes behind writerIndex would
-- pass max_size(), and makes no copy outside the vector.
pub append-Appended :
    (b : Buffer) (bytes : List ℕ)
    → IsValid b
    → length bytes ≤ max_size
    → Appended b bytes (append b bytes)
unfolding append
append-Appended b bytes v h =
    write_bytes-Appended b bytes (ensure_writeable_bytes b (length bytes))
      (ensure_writeable_bytes-Ensured (length bytes) v h)

-- retrieve(len) keeps a valid buffer valid and drops the first `len` bytes of the content, or all
-- of them if there are fewer; the writer index does not grow.
pub retrieve_lem :
    (b : Buffer) (len : ℕ)
    → IsValid b
    → IsValid (retrieve b len)
      × (content (retrieve b len) ≡ drop len (content b))
      × ((retrieve b len).writer_index ≤ b.writer_index)
unfolding retrieve retrieve_all
retrieve_lem b len v = elim (Bool-cases (ltb len (readable_bytes b))) [
  | inl less ↦
      let e : add_size b.reader_index len ≡ b.reader_index + len =
        ground (arith, readable_bytes_lem v) in
      rw (less, e)
        (
          record {
            prepend = omega arith;
            ordered = ground (arith, readable_bytes_lem v);
            within = v.within;
            small = v.small;
          },
          drop-drop b.reader_index len (take b.writer_index b.storage),
          omega arith,
        )
  | inr rest ↦ rw rest (
    record { prepend = omega arith; ordered = omega arith; within = omega arith; small = v.small },
    drop-all cheap_prepend (take cheap_prepend b.storage)
          (omega (arith, length-take cheap_prepend b.storage))
        ∙ sym (drop-all len (content b) (ground (arith, length-content v, readable_bytes_lem v))),
    omega arith,
  )
]

pub retrieve_as_string_lem :
    (b : Buffer) (len : ℕ)
    → IsValid b
    → len ≤ length (content b)
    → retrieve_as_string b len ≡ ok (take len (content b), retrieve b len)
unfolding retrieve_as_string
retrieve_as_string_lem b len v h =
    rw (read_at_lem len v (omega (arith, length-content v)), peek, retrieve_as_string)

-- While the vector need not exceed its max_size(), `append` returns.
pub append_ok :
    (b : Buffer) (bytes : List ℕ)
    → IsValid b
    → b.writer_index + length bytes ≤ max_size
    → (b' : Buffer) × (append b bytes ≡ ok b') × Extended b bytes b'
append_ok b bytes v h = returns (append b bytes) (append-Appended b bytes v (omega arith))
  where
    returns :
        (r : Outcome Buffer)
        → Appended b bytes r
        → (b' : Buffer) × (r ≡ ok b') × Extended b bytes b'
    returns (ok b') x = (b', refl, x)
    returns (err e) x = absurd (omega (arith, x.1))
