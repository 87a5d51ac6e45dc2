-- ===== src/Acceptor/Keeping.antt =====
-- What the calls of the constructor of Acceptor keep of the kernel, and so the constructor.
use network_library_baseon_c.Base.{ℕ, zero, suc, Bool, false, Outcome, ok, err, ◌>>=◌, update}
use network_library_baseon_c.Sys.{Sys, SockAddr, CountResult, count, failed}
use network_library_baseon_c.Channel.{new_channel}
use network_library_baseon_c.EventLoop.{Reactor}
use network_library_baseon_c.Socket.{zero_or_fatal, set_reuse_addr, set_reuse_port, bind_address}
use network_library_baseon_c.Acceptor.{Acceptor, create_nonblocking, bind_acceptor, new_acceptor}

module _ (sys : Sys) (P : sys.Kernel → Type 0)
    (socket_keeps : (k : sys.Kernel) → P k → P (sys.socket k).1)
    (setsockopt_keeps : (k : sys.Kernel) (fd level name value : ℕ)
      → P k
      → P (sys.setsockopt k fd level name value).1)
    (bind_keeps : (k : sys.Kernel) (fd : ℕ) (a : SockAddr) → P k → P (sys.bind k fd a).1)
    {F S : Type 0} where
  abbrev pub AcceptorOr : Outcome (Acceptor × Reactor sys F S) → Type 0
  AcceptorOr (ok (a, r)) = P r.kernel
  AcceptorOr (err f) = Unit {0}

  bound_keeps :
      (a : Acceptor) (r : Reactor sys F S) (out : CountResult × sys.Kernel)
      → P out.1
      → AcceptorOr (zero_or_fatal out >>= λ k. ok (a, record r { kernel = k }))
  bound_keeps a r (count zero, k) h = h
  bound_keeps a r (count (suc n), k) h = tt
  bound_keeps a r (failed errno, k) h = tt

  made_keeps :
      (addr : SockAddr) (reuse_port : Bool) (ptr : ℕ) (r : Reactor sys F S)
      (out : CountResult × sys.Kernel)
      → P out.1
      → AcceptorOr (create_nonblocking out >>= bind_acceptor sys addr reuse_port ptr r)
  unfolding create_nonblocking bind_acceptor bind_address set_reuse_port set_reuse_addr
  made_keeps addr reuse_port ptr r (failed errno, k) h = tt
  made_keeps addr reuse_port ptr r (count fd, k) h =
      let k1 = (sys.setsockopt k fd 1 2 1).1 in
      let k2 = (sys.setsockopt k1 fd 1 15 1).1 in
      bound_keeps (record { accept_fd = fd; accept_channel = ptr; listenning = false })
        (record r { channels = update r.channels ptr (new_channel fd) }) (sys.bind k2 fd addr)
        (bind_keeps k2 fd addr (setsockopt_keeps k1 fd 1 15 1 (setsockopt_keeps k fd 1 2 1 h)))

  pub new_acceptor_keeps :
      (addr : SockAddr) (reuse_port : Bool) (ptr : ℕ) (r : Reactor sys F S)
      → P r.kernel
      → AcceptorOr (new_acceptor sys addr reuse_port ptr r)
  unfolding new_acceptor
  new_acceptor_keeps addr reuse_port ptr r h =
      made_keeps addr reuse_port ptr r (sys.socket r.kernel) (socket_keeps r.kernel h)
