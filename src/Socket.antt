-- ===== src/Socket.antt =====
-- src/Socket.h and src/Socket.cc: the calls on a socket, which is its fd. The numbers of levels and
-- options are those of Linux. Logging is left out, but for LOG_FATAL, which ends the process.
use network_library_baseon_c.Base.{ℕ, zero, suc, Bool, Outcome, ok, err, fatal, if◌then◌else◌}
use network_library_baseon_c.Sys.{Sys, SockAddr, CountResult, count, failed}

abbrev sol_socket : ℕ
sol_socket = 1

abbrev ipproto_tcp : ℕ
ipproto_tcp = 6

abbrev tcp_nodelay : ℕ
tcp_nodelay = 1

abbrev so_reuseaddr : ℕ
so_reuseaddr = 2

abbrev so_keepalive : ℕ
so_keepalive = 9

abbrev so_reuseport : ℕ
so_reuseport = 15

abbrev pub backlog : ℕ
backlog = 1024

-- `on ? 1 : 0`
abbrev opt_value : Bool → ℕ
opt_value on = if on then 1 else 0

-- A call that has to return 0.
abbrev pub zero_or_fatal : {K : Type 0} → CountResult × K → Outcome K
zero_or_fatal (count zero, k) = ok k
zero_or_fatal (count (suc n), k) = err fatal
zero_or_fatal (failed errno, k) = err fatal

-- The address of the peer is stored only with an fd.
abbrev pub accepted : CountResult × SockAddr → SockAddr → CountResult × SockAddr
accepted (count fd, addr) peer = (count fd, addr)
accepted (failed errno, addr) peer = (failed errno, peer)

module _ (sys : Sys) where
  open sys use {Kernel}

  -- The destructor.
  unfoldable pub close_socket : ℕ → Kernel → Kernel
  close_socket fd k = sys.close k fd

  unfoldable pub bind_address : ℕ → SockAddr → Kernel → Outcome Kernel
  bind_address fd addr k = zero_or_fatal (sys.bind k fd addr)

  unfoldable pub listen : ℕ → Kernel → Outcome Kernel
  listen fd k = zero_or_fatal (sys.listen k fd backlog)

  -- The fd or errno, and `peer` behind the call.
  unfoldable pub accept : ℕ → SockAddr → Kernel → (CountResult × SockAddr) × Kernel
  accept fd peer k = let (out, k') = sys.accept4 k fd in (accepted out peer, k')

  unfoldable pub shutdown_write : ℕ → Kernel → Kernel
  shutdown_write fd k = (sys.shutdown_write k fd).1

  unfoldable pub set_tcp_no_delay : ℕ → Bool → Kernel → Kernel
  set_tcp_no_delay fd on k = (sys.setsockopt k fd ipproto_tcp tcp_nodelay (opt_value on)).1

  unfoldable pub set_reuse_addr : ℕ → Bool → Kernel → Kernel
  set_reuse_addr fd on k = (sys.setsockopt k fd sol_socket so_reuseaddr (opt_value on)).1

  unfoldable pub set_reuse_port : ℕ → Bool → Kernel → Kernel
  set_reuse_port fd on k = (sys.setsockopt k fd sol_socket so_reuseport (opt_value on)).1

  unfoldable pub set_keep_alive : ℕ → Bool → Kernel → Kernel
  set_keep_alive fd on k = (sys.setsockopt k fd sol_socket so_keepalive (opt_value on)).1
