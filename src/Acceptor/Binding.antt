-- ===== src/Acceptor/Binding.antt =====
-- The constructor of an acceptor: its socket is bound, and its channel registered nowhere.
use network_library_baseon_c.Base.{
  ℕ, zero, suc, ◌≡◌, refl, ◌∙◌, Bool, true, false, none, Outcome, ok, err, fatal, ◌>>=◌, lookup,
  update, update_self,
}
use network_library_baseon_c.Sys.{Sys, SockAddr, CountResult, count, failed, SocketLaw}
use network_library_baseon_c.Channel.{new_channel}
use network_library_baseon_c.EventLoop.{Reactor}
use network_library_baseon_c.Socket.{zero_or_fatal, set_reuse_addr, set_reuse_port, bind_address}
use network_library_baseon_c.Acceptor.{Acceptor, create_nonblocking, bind_acceptor, new_acceptor}

module _ (sys : Sys) where
  -- A kernel in which `fd` is not watched, if the call returned.
  abbrev pub FreeOr : ℕ → ℕ → Outcome sys.Kernel → Type 0
  FreeOr ep fd (ok k) = sys.interest k ep fd ≡ none
  FreeOr ep fd (err f) = f ≡ fatal

  pub zero-Free :
      (ep fd : ℕ) (out : CountResult × sys.Kernel)
      → sys.interest out.1 ep fd ≡ none
      → FreeOr ep fd (zero_or_fatal out)
  zero-Free ep fd (count zero, k) e = e
  zero-Free ep fd (count (suc n), k) e = refl
  zero-Free ep fd (failed errno, k) e = refl

  -- A kernel in which `fd` takes connections, if the call returned.
  abbrev pub HeardOr : ℕ → Outcome sys.Kernel → Type 0
  HeardOr fd (ok k) = sys.listening k fd ≡ true
  HeardOr fd (err f) = f ≡ fatal

  pub zero-Heard :
      (fd : ℕ) (out : CountResult × sys.Kernel)
      → (out.0 ≡ count 0 → sys.listening out.1 fd ≡ true)
      → HeardOr fd (zero_or_fatal out)
  zero-Heard fd (count zero, k) e = e refl
  zero-Heard fd (count (suc n), k) e = refl
  zero-Heard fd (failed errno, k) e = refl

  -- setReuseAddr, setReusePort and bindAddress leave a socket unwatched.
  prepared-Free :
      SocketLaw sys
      → (ep fd : ℕ) (addr : SockAddr) (k : sys.Kernel) → sys.interest k ep fd ≡ none
      → FreeOr ep fd
          (bind_address sys fd addr (set_reuse_port sys fd true (set_reuse_addr sys fd true k)))
  unfolding bind_address set_reuse_port set_reuse_addr
  prepared-Free law ep fd addr k e =
      let k1 = (sys.setsockopt k fd 1 2 1).1 in
      let k2 = (sys.setsockopt k1 fd 1 15 1).1 in
      zero-Free ep fd (sys.bind k2 fd addr) (
        law.bind_interest k2 fd addr ep fd
        ∙ law.setsockopt_interest k1 fd 1 15 1 ep fd
        ∙ law.setsockopt_interest k fd 1 2 1 ep fd
        ∙ e)

module _ (sys : Sys) {F S : Type 0} where
  -- An acceptor whose channel, at `ptr`, is new and registered nowhere.
  pub record Bound (ptr : ℕ) (r : Reactor sys F S) (a : Acceptor) (r' : Reactor sys F S)
      : Type 0 where
    pub at : a.accept_channel ≡ ptr
    pub channel : r'.channels ptr ≡ new_channel a.accept_fd
    pub free : sys.interest r'.kernel r.loop.poller.epollfd a.accept_fd ≡ none
    pub unknown : lookup a.accept_fd r.loop.poller.channels ≡ none
    pub same_loop : r'.loop ≡ r.loop
    pub same_app : r'.app ≡ r.app

  abbrev pub BoundOr : ℕ → Reactor sys F S → Outcome (Acceptor × Reactor sys F S) → Type 0
  BoundOr ptr r (ok (a, r')) = Bound ptr r a r'
  BoundOr ptr r (err f) = f ≡ fatal

  bound_by :
      (fd ptr : ℕ) (r : Reactor sys F S) (o : Outcome sys.Kernel)
      → lookup fd r.loop.poller.channels ≡ none
      → FreeOr sys r.loop.poller.epollfd fd o
      → BoundOr ptr r (
          o >>= λ k. ok (
            record { accept_fd = fd; accept_channel = ptr; listenning = false },
            record r { kernel = k; channels = update r.channels ptr (new_channel fd) },
          ))
  bound_by fd ptr r (ok k) unknown free = record {
    at = refl;
    channel = update_self r.channels ptr (new_channel fd);
    free = free;
    unknown = unknown;
    same_loop = refl;
    same_app = refl;
  }
  bound_by fd ptr r (err f) unknown free = free

  created-Bound :
      SocketLaw sys
      → (addr : SockAddr) (reuseport : Bool) (ptr : ℕ) (r : Reactor sys F S)
        (out : CountResult × sys.Kernel)
      → ((fd : ℕ) → out.0 ≡ count fd → sys.interest out.1 r.loop.poller.epollfd fd ≡ none)
      → ((fd : ℕ) → out.0 ≡ count fd → lookup fd r.loop.poller.channels ≡ none)
      → BoundOr ptr r (create_nonblocking out >>= bind_acceptor sys addr reuseport ptr r)
  unfolding create_nonblocking bind_acceptor
  created-Bound law addr reuseport ptr r (count fd, k) free unknown =
      bound_by fd ptr r
        (bind_address sys fd addr (set_reuse_port sys fd true (set_reuse_addr sys fd true k)))
        (unknown fd refl) (prepared-Free sys law r.loop.poller.epollfd fd addr k (free fd refl))
  created-Bound law addr reuseport ptr r (failed errno, k) free unknown = refl

  pub new_acceptor-Bound :
      SocketLaw sys
      → (addr : SockAddr) (reuseport : Bool) (ptr : ℕ) (r : Reactor sys F S)
      → ((fd : ℕ) → (sys.socket r.kernel).0 ≡ count fd → lookup fd r.loop.poller.channels ≡ none)
      → BoundOr ptr r (new_acceptor sys addr reuseport ptr r)
  unfolding new_acceptor
  new_acceptor-Bound law addr reuseport ptr r unknown =
      created-Bound law addr reuseport ptr r (sys.socket r.kernel)
        (λ fd e. law.socket_new r.kernel fd r.loop.poller.epollfd e) unknown
