-- ===== src/TcpConnection/Reading.antt =====
-- handleRead of a connection, by what readv returns.
use network_library_baseon_c.Base.{ℕ, ◌+◌, ◌≤◌, ◌≡◌, refl, [], ◌∷◌, Outcome, ok, ◌>>=◌, length}
use network_library_baseon_c.Sys.{Sys, ReadvLaw, ReadResult, got, read_failed, CountResult}
use network_library_baseon_c.Buffer.{Buffer, max_size, extra_size, iov_lengths, read_fd}
use network_library_baseon_c.Buffer.Invariant.{IsValid}
use network_library_baseon_c.Buffer.Io.{Received, ReadFd, read_fd-ReadFd}
use network_library_baseon_c.TcpConnection.{World, conn, chan, set_input, handle_error}
use network_library_baseon_c.TcpConnection.Handling.{
  Handlers, call_with, handle_close, after_read_fd, handle_read,
}

module _ (sys : Sys) {U : Type 0} (handlers : Handlers (World sys U)) where
  -- The world behind readv, with an input buffer.
  abbrev pub behind : ℕ → Buffer → sys.Kernel → World sys U → World sys U
  behind c b k r = set_input sys c b (record r { kernel = k })

  -- What handleRead does with a result of readv.
  abbrev pub ReadBy : ℕ → ℕ → World sys U → ReadResult × sys.Kernel → Outcome (World sys U) → Type 0
  ReadBy c time r (got [], k) o =
      (b : Buffer) × Received (conn sys c r).input [] b
      × (o ≡ handle_close sys handlers c (behind c b k r))
  ReadBy c time r (got (x ∷ xs), k) o =
      (b : Buffer) × Received (conn sys c r).input (x ∷ xs) b
      × (o ≡ call_with handlers.message_callback c time (behind c b k r))
  ReadBy c time r (read_failed errno, k) o =
      o ≡ ok (handle_error sys c (behind c (conn sys c r).input k r))

  read_by :
      (c time : ℕ) (r : World sys U) (res : ReadResult × sys.Kernel)
      (out : Outcome (CountResult × Buffer × sys.Kernel))
      → ReadFd (conn sys c r).input res out
      → ReadBy c time r res (
          out >>= λ x.
          after_read_fd sys handlers c time x.0 (set_input sys c x.1 (record r { kernel = x.2 })))
  unfolding after_read_fd
  read_by c time r (got [], k) out (b, e, v) = (b, v, rw e refl)
  read_by c time r (got (x ∷ xs), k) out (b, e, v) = (b, v, rw e refl)
  read_by c time r (read_failed errno, k) out e = rw e refl

  pub handle_read-ReadBy :
      ReadvLaw sys
      → (c time : ℕ) (r : World sys U) → IsValid (conn sys c r).input
      → length (conn sys c r).input.storage + extra_size ≤ max_size
      → ReadBy c time r
          (sys.readv r.kernel (chan sys c r).fd (iov_lengths (conn sys c r).input))
          (handle_read sys handlers c time r)
  unfolding handle_read
  handle_read-ReadBy law c time r valid room =
      read_by c time r (sys.readv r.kernel (chan sys c r).fd (iov_lengths (conn sys c r).input))
        (read_fd sys (conn sys c r).input r.kernel (chan sys c r).fd)
        (read_fd-ReadFd sys law (conn sys c r).input r.kernel (chan sys c r).fd valid room)
