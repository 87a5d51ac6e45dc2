-- ===== src/Buffer/Space.antt =====
-- makeSpace and ensureWriteableBytes: the room that they make behind the content.
use network_library_baseon_c.Base.{
  ℕ, ◌+◌, ◌-◌, ◌≤◌, ◌<◌, ◌≡◌, refl, ◌⊎◌, inl, inr, Bool, true, false, ◌++◌, arith, Outcome, ok, err,
  length_error, ltb, Bool-cases, length, take, replicate, splice, length-append, length-take,
  length-replicate, take-append_left, drop-append_self, take-all,
}
use network_library_baseon_c.Buffer.{
  Buffer, cheap_prepend, max_size, add_size, writable_bytes, prependable_bytes, grow, slide,
  make_space, ensure_writeable_bytes,
}
use network_library_baseon_c.Buffer.Invariant.{
  IsValid, content, length-content, readable_bytes_lem, writable_bytes_lem, read_at_lem,
  take-splice, length-splice,
}

-- The buffer after the readable bytes have moved to the front.
abbrev slid : Buffer → Buffer
slid b = record {
  storage = splice cheap_prepend (content b) b.storage;
  reader_index = cheap_prepend;
  writer_index = cheap_prepend + length (content b);
}

slide_lem : {b : Buffer} → IsValid b → slide b ≡ ok (slid b)
unfolding slide
slide_lem {b} v = ground (
  arith,
  readable_bytes_lem v,
  read_at_lem (b.writer_index - b.reader_index) v (omega arith),
  take-all (b.writer_index - b.reader_index) (content b) (omega (arith, length-content v)),
  length-content v,
)

length-slid : {b : Buffer} → IsValid b → length (slid b).storage ≡ length b.storage
length-slid {b} v =
    length-splice cheap_prepend (content b) b.storage (omega (arith, length-content v))

slid-IsValid : {b : Buffer} → IsValid b → IsValid (slid b)
slid-IsValid {b} v = record {
  prepend = omega arith;
  ordered = omega arith;
  within = omega (arith, length-slid v, length-content v);
  small = omega (arith, length-slid v);
}

content-slid : {b : Buffer} → IsValid b → content (slid b) ≡ content b
content-slid {b} v =
    rw (take-splice cheap_prepend (length (content b)) (content b) b.storage (omega arith) refl) (
      drop-append_self cheap_prepend (take cheap_prepend b.storage) (content b)
        (omega (arith, length-take cheap_prepend b.storage)))

-- The buffer whose vector has grown for `len` more bytes.
abbrev grown : Buffer → ℕ → Buffer
grown b len = record b {
  storage =
      take (b.writer_index + len) b.storage
      ++ replicate (b.writer_index + len - length b.storage) 0;
}

grow_lem :
    {b : Buffer} (len : ℕ)
    → IsValid b
    → len ≤ max_size
    → (b.writer_index + len ≤ max_size × (grow b len ≡ ok (grown b len)))
      ⊎ (max_size < b.writer_index + len) × (grow b len ≡ err length_error)
unfolding grow
grow_lem {b} len v h = ground arith

content-grown :
    {b : Buffer} (len : ℕ)
    → IsValid b
    → length b.storage < b.writer_index + len
    → content (grown b len) ≡ content b
content-grown {b} len v h = rw (
  take-all (b.writer_index + len) b.storage (omega arith),
  take-append_left b.writer_index b.storage (replicate (b.writer_index + len - length b.storage) 0)
      (omega arith),
)

length-grown :
    (b : Buffer) (len : ℕ)
    → length b.storage < b.writer_index + len
    → length (grown b len).storage ≡ b.writer_index + len
length-grown b len h = omega (
  arith,
  length-append (take (b.writer_index + len) b.storage)
      (replicate (b.writer_index + len - length b.storage) 0),
  length-take (b.writer_index + len) b.storage,
  length-replicate {A = ℕ} (b.writer_index + len - length b.storage) 0,
)

-- `b'` is valid and has `len` bytes of room behind the content of `b`; its vector is no shorter, and
-- as long as that of `b` where that is long enough.
pub record Roomy (b : Buffer) (len : ℕ) (b' : Buffer) : Type 0 where
  pub valid : IsValid b'
  pub kept : content b' ≡ content b
  pub room : b'.writer_index + len ≤ length b'.storage
  pub grows : length b.storage ≤ length b'.storage
  pub reach : b'.writer_index ≤ b.writer_index
  pub reuses :
      length (content b) + len + cheap_prepend ≤ length b.storage
      → length b'.storage ≡ length b.storage

abbrev pub Ensured : Buffer → ℕ → Outcome Buffer → Type 0
Ensured b len (ok b') = Roomy b len b'
Ensured b len (err e) = (e ≡ length_error) × (max_size < b.writer_index + len)

-- The test of makeSpace, and what it means of a valid buffer.
abbrev is_tight : Buffer → ℕ → Bool
is_tight b len =
    ltb (add_size (writable_bytes b) (prependable_bytes b)) (add_size len cheap_prepend)

tight_lem :
    {b : Buffer} (len : ℕ)
    → IsValid b
    → len ≤ max_size
    → is_tight b len ≡ true
    → length b.storage + b.reader_index < b.writer_index + len + cheap_prepend
unfolding prependable_bytes
tight_lem len v h e = ground (arith, writable_bytes_lem v)

loose_lem :
    {b : Buffer} (len : ℕ)
    → IsValid b
    → len ≤ max_size
    → is_tight b len ≡ false
    → b.writer_index + len + cheap_prepend ≤ length b.storage + b.reader_index
unfolding prependable_bytes
loose_lem len v h e = ground (arith, writable_bytes_lem v)

grown-Roomy :
    {b : Buffer} (len : ℕ)
    → IsValid b
    → length b.storage < b.writer_index + len
    → b.writer_index + len ≤ max_size
    → length b.storage + b.reader_index < b.writer_index + len + cheap_prepend
    → Roomy b len (grown b len)
grown-Roomy {b} len v full p tight = record {
  valid = record {
    prepend = v.prepend;
    ordered = v.ordered;
    within = omega (arith, length-grown b len full);
    small = omega (arith, length-grown b len full);
  };
  kept = content-grown len v full;
  room = omega (arith, length-grown b len full);
  grows = omega (arith, length-grown b len full);
  reach = omega arith;
  reuses = λ fits. absurd (omega (arith, length-content v));
}

slid-Roomy :
    {b : Buffer} (len : ℕ)
    → IsValid b
    → length b.storage < b.writer_index + len
    → b.writer_index + len + cheap_prepend ≤ length b.storage + b.reader_index
    → Roomy b len (slid b)
slid-Roomy {b} len v full loose = record {
  valid = slid-IsValid v;
  kept = content-slid v;
  room = omega (arith, length-slid v, length-content v);
  grows = omega (arith, length-slid v);
  reach = omega (arith, length-content v);
  reuses = λ _. length-slid v;
}

make_space-Ensured :
    {b : Buffer} (len : ℕ)
    → IsValid b
    → len ≤ max_size
    → length b.storage < b.writer_index + len
    → Ensured b len (make_space b len)
unfolding make_space
make_space-Ensured {b} len v h full = elim (Bool-cases (is_tight b len)) [
  | inl tight ↦ elim (grow_lem len v h) [
    | inl (p, e) ↦ rw (tight, e) (grown-Roomy len v full p (tight_lem len v h tight))
    | inr (p, e) ↦ rw (tight, e) (refl, p)
  ]
  | inr loose ↦ rw (loose, slide_lem v) (slid-Roomy len v full (loose_lem len v h loose))
]

pub ensure_writeable_bytes-Ensured :
    {b : Buffer} (len : ℕ)
    → IsValid b
    → len ≤ max_size
    → Ensured b len (ensure_writeable_bytes b len)
unfolding ensure_writeable_bytes
ensure_writeable_bytes-Ensured {b} len v h = elim (Bool-cases (ltb (writable_bytes b) len)) [
  | inl full ↦ rw full (make_space-Ensured len v h (ground (arith, writable_bytes_lem v)))
  | inr room ↦ rw room (record {
    valid = v;
    kept = refl;
    room = ground (arith, writable_bytes_lem v);
    grows = omega arith;
    reach = omega arith;
    reuses = λ _. refl;
  })
]
