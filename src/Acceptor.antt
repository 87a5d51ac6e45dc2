-- ===== src/Acceptor.antt =====
-- src/Acceptor.h and src/Acceptor.cc: the listening socket of a server, in the thread of its loop.
-- The member nextConnId_, which nothing reads, is left out, as is the logging.
pub mod Binding
pub mod Listening
pub mod Keeping
use network_library_baseon_c.Base.{
  ℕ, Bool, true, false, Option, none, some, Outcome, ok, err, fatal, ◌>>=◌, update,
}
use network_library_baseon_c.Sys.{Sys, SockAddr, CountResult, count, failed}
use network_library_baseon_c.Channel.{Channel, new_channel}
use network_library_baseon_c.EventLoop.{Reactor, enable_reading, disable_all, remove_channel}
use network_library_baseon_c.Socket
use network_library_baseon_c.Socket.{
  set_reuse_addr, set_reuse_port, bind_address, close_socket, accept,
}

pub record Acceptor : Type 0 where
  pub accept_fd : ℕ
  pub accept_channel : ℕ  -- its address
  pub listenning : Bool

-- createNonblocking()
pub create_nonblocking : {K : Type 0} → CountResult × K → Outcome (ℕ × K)
create_nonblocking (count fd, k) = ok (fd, k)
create_nonblocking (failed errno, k) = err fatal

module _ (sys : Sys) {F S : Type 0} where
  -- The constructor with an fd; the flag is `reuseport`, which it does not look at.
  bind_acceptor :
      SockAddr → Bool → ℕ → Reactor sys F S → ℕ × sys.Kernel → Outcome (Acceptor × Reactor sys F S)
  bind_acceptor addr reuseport ptr r (fd, k) = do
    k' ← bind_address sys fd addr (set_reuse_port sys fd true (set_reuse_addr sys fd true k))
    ok (
      record { accept_fd = fd; accept_channel = ptr; listenning = false },
      record r { kernel = k'; channels = update r.channels ptr (new_channel fd) },
    )

  -- The constructor, with the channel at address `ptr`.
  pub new_acceptor : SockAddr → Bool → ℕ → Reactor sys F S → Outcome (Acceptor × Reactor sys F S)
  unfolding bind_acceptor
  new_acceptor addr reuseport ptr r =
      create_nonblocking (sys.socket r.kernel) >>= bind_acceptor addr reuseport ptr r

  -- The destructor, and that of the socket.
  pub destroy_acceptor : Acceptor → Reactor sys F S → Outcome (Reactor sys F S)
  destroy_acceptor a r = do
    r' ← disable_all sys a.accept_channel r >>= remove_channel sys a.accept_channel
    ok (record r' { kernel = close_socket sys a.accept_fd r'.kernel })

  pub listen : Acceptor → Reactor sys F S → Outcome (Acceptor × Reactor sys F S)
  listen a r = do
    k ← Socket.listen sys a.accept_fd r.kernel
    r' ← enable_reading sys a.accept_channel (record r { kernel = k })
    ok (record a { listenning = true }, r')

  -- handleRead behind the call of accept. The callback is that of the server, `none` if it is empty.
  unfoldable pub after_accept :
      Option (ℕ → SockAddr → Reactor sys F S → Outcome (Reactor sys F S))
      → (CountResult × SockAddr) × sys.Kernel
      → Reactor sys F S
      → Outcome (Reactor sys F S)
  after_accept (some cb) ((count fd, peer), k) r = cb fd peer (record r { kernel = k })
  after_accept none ((count fd, peer), k) r = ok (record r { kernel = sys.close k fd })
  after_accept cb ((failed errno, peer), k) r = ok (record r { kernel = k })

  -- `peer` is the default address.
  unfoldable pub handle_read :
      Option (ℕ → SockAddr → Reactor sys F S → Outcome (Reactor sys F S))
      → SockAddr
      → Acceptor
      → Reactor sys F S
      → Outcome (Reactor sys F S)
  unfolding after_accept
  handle_read cb peer a r = after_accept cb (accept sys a.accept_fd peer r.kernel) r
