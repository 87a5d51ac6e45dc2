-- ===== src/Buffer.antt =====
-- src/Buffer.h and src/Buffer.cc: the byte buffer of a connection.
-- The vector `buffer_` is the list `storage`; a pointer into it is its offset. size_t sums and
-- differences wrap at 2^64. A copy that leaves the vector is the fault `out_of_bounds`, and a
-- resize beyond the vector's max_size() is the exception `length_error`.
pub mod Invariant
pub mod Space
pub mod Queue
pub mod Trace
pub mod Io
use network_library_baseon_c.Sys.{Sys, ReadResult, got, read_failed, CountResult, count, failed}
use network_library_baseon_c.Base.{
  ℕ, ◌+◌, ◌-◌, ◌%◌, ◌^◌, List, [], ◌∷◌, ◌++◌, Outcome, ok, err, out_of_bounds, length_error, ◌>>=◌,
  ltb, leb, if◌then◌else◌, length, take, drop, replicate, splice,
}

abbrev pub size_mod : ℕ
size_mod = 2 ^ 64

abbrev pub add_size : ℕ → ℕ → ℕ
add_size a b = (a + b) % size_mod

abbrev pub sub_size : ℕ → ℕ → ℕ
sub_size a b = (a + size_mod - b) % size_mod

-- max_size() of a vector of char.
abbrev pub max_size : ℕ
max_size = 2 ^ 63 - 1

abbrev pub cheap_prepend : ℕ
cheap_prepend = 8

abbrev pub initial_size : ℕ
initial_size = 1024

pub record Buffer : Type 0 where
  pub storage : List ℕ
  pub reader_index : ℕ
  pub writer_index : ℕ

-- The constructor: `initial` bytes to write, beyond the prependable ones.
pub new_buffer : ℕ → Buffer
new_buffer initial = record {
  storage = replicate (cheap_prepend + initial) 0;
  reader_index = cheap_prepend;
  writer_index = cheap_prepend;
}

pub readable_bytes : Buffer → ℕ
readable_bytes b = sub_size b.writer_index b.reader_index

unfoldable pub writable_bytes : Buffer → ℕ
writable_bytes b = sub_size (length b.storage) b.writer_index

pub prependable_bytes : Buffer → ℕ
prependable_bytes b = b.reader_index

-- The offset that the pointer of peek() has from begin().
pub peek : Buffer → ℕ
peek b = b.reader_index

-- The offset that the pointer of beginWrite() has from begin().
pub begin_write : Buffer → ℕ
begin_write b = b.writer_index

-- Reads `len` bytes from offset `off`.
abbrev pub read_at : List ℕ → ℕ → ℕ → Outcome (List ℕ)
read_at xs off len =
    if leb (off + len) (length xs) then ok (take len (drop off xs)) else err out_of_bounds

-- std::copy of `ys` to offset `off`.
abbrev pub copy_to : List ℕ → ℕ → List ℕ → Outcome (List ℕ)
copy_to xs off ys =
    if leb (off + length ys) (length xs) then ok (splice off ys xs) else err out_of_bounds

-- vector::resize; new bytes are zero.
abbrev pub resize : List ℕ → ℕ → Outcome (List ℕ)
resize xs n =
    if leb n max_size then ok (take n xs ++ replicate (n - length xs) 0) else err length_error

pub retrieve_all : Buffer → Buffer
retrieve_all b = record b { reader_index = cheap_prepend; writer_index = cheap_prepend }

pub retrieve : Buffer → ℕ → Buffer
unfolding retrieve_all
retrieve b len =
    if ltb len (readable_bytes b)
    then record b { reader_index = add_size b.reader_index len }
    else retrieve_all b

-- The string, then the buffer.
pub retrieve_as_string : Buffer → ℕ → Outcome (List ℕ × Buffer)
unfolding peek
retrieve_as_string b len = do result ← read_at b.storage (peek b) len; ok (result, retrieve b len)

pub retrieve_all_as_string : Buffer → Outcome (List ℕ × Buffer)
retrieve_all_as_string b = retrieve_as_string b (readable_bytes b)

-- The first branch of makeSpace: a longer vector.
grow : Buffer → ℕ → Outcome Buffer
grow b len = do
  storage ← resize b.storage (add_size b.writer_index len)
  ok (record b { storage = storage })

-- The second branch: the readable bytes move to the front.
slide : Buffer → Outcome Buffer
slide b = do
  let readable = readable_bytes b
  bytes ← read_at b.storage b.reader_index readable
  storage ← copy_to b.storage cheap_prepend bytes
  ok (record {
    storage = storage;
    reader_index = cheap_prepend;
    writer_index = add_size cheap_prepend readable;
  })

pub make_space : Buffer → ℕ → Outcome Buffer
unfolding prependable_bytes
make_space b len =
    if ltb (add_size (writable_bytes b) (prependable_bytes b)) (add_size len cheap_prepend)
    then grow b len
    else slide b

pub ensure_writeable_bytes : Buffer → ℕ → Outcome Buffer
ensure_writeable_bytes b len = if ltb (writable_bytes b) len then make_space b len else ok b

-- The copy of append, and the new `writerIndex_`.
write_bytes : Buffer → List ℕ → Outcome Buffer
unfolding begin_write
write_bytes b bytes = do
  storage ← copy_to b.storage (begin_write b) bytes
  ok (record b { storage = storage; writer_index = add_size b.writer_index (length bytes) })

-- `len` is the length of the list.
pub append : Buffer → List ℕ → Outcome Buffer
append b bytes = do b' ← ensure_writeable_bytes b (length bytes); write_bytes b' bytes

-- sizeof extrabuf
abbrev pub extra_size : ℕ
extra_size = 65536

-- The lengths in the iovec of readFd.
unfoldable pub iov_lengths : Buffer → List ℕ
iov_lengths b =
    if ltb (writable_bytes b) extra_size
    then writable_bytes b ∷ extra_size ∷ []
    else writable_bytes b ∷ []

-- readv fills the room behind `writerIndex_` before it goes on in `extrabuf`.
scatter : Buffer → List ℕ → Buffer
scatter b bytes = record b {
  storage = splice b.writer_index (take (writable_bytes b) bytes) b.storage;
}

-- What readFd does with the bytes that readv has stored.
pub accept_bytes : Buffer → List ℕ → Outcome Buffer
unfolding scatter
accept_bytes b bytes =
    let filled = scatter b bytes in
    let n = length bytes in
    if leb n (writable_bytes b)
    then ok (record filled { writer_index = add_size b.writer_index n })
    else append (record filled { writer_index = length b.storage }) (drop (writable_bytes b) bytes)

-- readFd behind the call of readv.
finish_read : {K : Type 0} → Buffer → ReadResult × K → Outcome (CountResult × Buffer × K)
finish_read b (read_failed errno, k) = ok (failed errno, b, k)
finish_read b (got bytes, k) = do b' ← accept_bytes b bytes; ok (count (length bytes), b', k)

module _ (sys : Sys) where
  open sys use {Kernel, readv, write}

  -- The result and errno, the buffer, the kernel.
  pub read_fd : Buffer → Kernel → ℕ → Outcome (CountResult × Buffer × Kernel)
  read_fd b k fd = finish_read b (readv k fd (iov_lengths b))

  -- writeFd leaves the buffer as it is.
  pub write_fd : Buffer → Kernel → ℕ → Outcome (CountResult × Kernel)
  unfolding peek
  write_fd b k fd = do bytes ← read_at b.storage (peek b) (readable_bytes b); ok (write k fd bytes)
