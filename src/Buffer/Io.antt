-- ===== src/Buffer/Io.antt =====
-- readFd and writeFd against the content of the buffer.
use network_library_baseon_c.Base.{
  ℕ, ◌+◌, ◌≤◌, ◌<◌, ◌≡◌, refl, ap, sym, ◌∙◌, inl, inr, List, ◌++◌, arith, Outcome, ok, length, take,
  drop, take-all, take-append-drop, append_assoc, length-take, length-drop, leb, Bool-cases,
}
use network_library_baseon_c.Sys.{
  Sys, ReadvLaw, ReadResult, got, read_failed, CountResult, count, failed, sum,
}
use network_library_baseon_c.Buffer.{
  Buffer, max_size, extra_size, append, writable_bytes, readable_bytes, iov_lengths, accept_bytes,
  finish_read, read_fd, write_fd,
}
use network_library_baseon_c.Buffer.Invariant.{
  IsValid, content, length-content, readable_bytes_lem, writable_bytes_lem, read_at_lem,
}
use network_library_baseon_c.Buffer.Queue.{Extended, put_bytes, put_bytes-Extended, append_ok}

-- What a buffer is after `bytes` have arrived.
pub record Received (b : Buffer) (bytes : List ℕ) (b' : Buffer) : Type 0 where
  pub valid : IsValid b'
  pub arrived : content b' ≡ content b ++ bytes

-- A copy that fits behind the content extends it.
put_bytes_fits :
    (b : Buffer) (bytes : List ℕ)
    → IsValid b
    → b.writer_index + length bytes ≤ length b.storage
    → Extended b bytes (put_bytes b bytes)
put_bytes_fits b bytes v h = put_bytes-Extended bytes (record {
  valid = v;
  kept = refl;
  room = h;
  grows = omega arith;
  reach = omega arith;
  reuses = λ _. refl;
})

pub length-le-room :
    (b : Buffer) (bytes : List ℕ)
    → length bytes ≤ sum (iov_lengths b)
    → length bytes ≤ writable_bytes b + extra_size
unfolding iov_lengths
length-le-room b bytes h = ground arith

accept_within :
    (b : Buffer) (bytes : List ℕ)
    → IsValid b
    → length bytes ≤ writable_bytes b
    → accept_bytes b bytes ≡ ok (put_bytes b bytes)
unfolding accept_bytes put_bytes
accept_within b bytes v h =
    ground (arith, take-all (writable_bytes b) bytes h, writable_bytes_lem v)

accept_beyond :
    (b : Buffer) (bytes : List ℕ)
    → IsValid b
    → writable_bytes b < length bytes
    → accept_bytes b bytes
      ≡ append (put_bytes b (take (writable_bytes b) bytes)) (drop (writable_bytes b) bytes)
unfolding accept_bytes put_bytes
accept_beyond b bytes v h =
    ground (arith, length-take (writable_bytes b) bytes, writable_bytes_lem v)

pub accept_bytes-Received :
    (b : Buffer) (bytes : List ℕ)
    → IsValid b
    → length b.storage + extra_size ≤ max_size
    → length bytes ≤ writable_bytes b + extra_size
    → (b' : Buffer) × (accept_bytes b bytes ≡ ok b') × Received b bytes b'
accept_bytes-Received b bytes v small h =
    elim (Bool-cases (leb (length bytes) (writable_bytes b))) [
      | inl fits ↦
          let x = put_bytes_fits b bytes v (ground (arith, writable_bytes_lem v)) in
          (
            put_bytes b bytes,
            accept_within b bytes v (ground arith),
            record { valid = x.valid; arrived = x.extended },
          )
      | inr over ↦
          let first = take (writable_bytes b) bytes in
          let rest = drop (writable_bytes b) bytes in
          let len : length first ≡ writable_bytes b =
            ground (arith, length-take (writable_bytes b) bytes) in
          let x = put_bytes_fits b first v (omega (arith, writable_bytes_lem v, len)) in
          let (b', returns, y) = append_ok (put_bytes b first) rest x.valid (
            omega
              (arith, x.reach, len, writable_bytes_lem v, length-drop (writable_bytes b) bytes)) in
          (
            b',
            accept_beyond b bytes v (ground arith) ∙ returns,
            record {
              valid = y.valid;
              arrived =
                  y.extended
                  ∙ ap (λ t. t ++ rest) x.extended
                  ∙ append_assoc (content b) first rest
                  ∙ ap (◌++◌ (content b)) (take-append-drop (writable_bytes b) bytes);
            },
          )
    ]

-- What readFd returns, by what readv returned.
abbrev pub ReadFd :
    {K : Type 0} → Buffer → ReadResult × K → Outcome (CountResult × Buffer × K) → Type 0
ReadFd b (got bytes, k) out =
    (b' : Buffer) × (out ≡ ok (count (length bytes), b', k)) × Received b bytes b'
ReadFd b (read_failed errno, k) out = out ≡ ok (failed errno, b, k)

finish_read-ReadFd :
    {K : Type 0} (b : Buffer) (r : ReadResult × K)
    → IsValid b
    → length b.storage + extra_size ≤ max_size
    → ((bytes : List ℕ) → r.0 ≡ got bytes → length bytes ≤ writable_bytes b + extra_size)
    → ReadFd b r (finish_read b r)
unfolding finish_read
finish_read-ReadFd b (got bytes, k) v small h =
    let (b', e, x) = accept_bytes-Received b bytes v small (h bytes refl) in (b', rw e, x)
finish_read-ReadFd b (read_failed errno, k) v small h = refl

module _ (sys : Sys) where
  -- readFd on a valid buffer, whose vector has room for extrabuf below max_size(): the bytes that
  -- readv has stored, in the vector and in extrabuf, are behind the content in order, their number
  -- is returned, and the buffer is valid. If readv fails its errno is returned and the buffer is as
  -- it was.
  pub read_fd-ReadFd :
      ReadvLaw sys
      → (b : Buffer) (k : sys.Kernel) (fd : ℕ) → IsValid b
      → length b.storage + extra_size ≤ max_size
      → ReadFd b (sys.readv k fd (iov_lengths b)) (read_fd sys b k fd)
  unfolding read_fd
  read_fd-ReadFd law b k fd v small =
      finish_read-ReadFd b (sys.readv k fd (iov_lengths b)) v small
        λ bytes e. length-le-room b bytes (law.readv_bounded k fd (iov_lengths b) bytes e)

  -- writeFd on a valid buffer passes exactly the content to write(2), and returns what it returns.
  pub write_fd_lem :
      (b : Buffer) (k : sys.Kernel) (fd : ℕ)
      → IsValid b
      → write_fd sys b k fd ≡ ok (sys.write k fd (content b))
  unfolding write_fd
  write_fd_lem b k fd v =
      let e : readable_bytes b ≡ length (content b) =
        readable_bytes_lem v ∙ sym (length-content v) in
      rw (
        e,
        read_at_lem (length (content b)) v (omega (arith, length-content v)),
        take-all (length (content b)) (content b) (omega arith),
      )
