-- ===== src/Tests/Toy.antt =====
-- A kernel for the tests. Its write accepts one byte at a time and its readv hands out the bytes
-- of one message; every epoll_ctl succeeds, and epoll_wait reports what it is told to.
use network_library_baseon_c.Base.{
  ◌+◌, ◌||◌, leb, ltb, Bool, true, false, ℕ, ◌≤◌, ◌≡◌, refl, ap, ◌∙◌, ◌&&◌, List, [], ◌∷◌, ◌++◌,
  take, Option, none, length, length-take, arith, update, update_self, update_ne, ◌==◌,
  if◌then◌else◌,
}
use network_library_baseon_c.Sys.{
  Sys, ReadResult, got, CountResult, count, failed, EpollEvent, WaitResult, ready, sum,
  registration, ReadvLaw, WriteLaw, EpollCtlLaw, EpollWaitLaw, CreateLaw, ShutdownLaw, SocketLaw,
  FdLaw,
}

pub record Toy : Type 0 where
  pub watched : ℕ → ℕ → Option EpollEvent
  pub outgoing : ℕ → List ℕ
  pub incoming : List ℕ
  pub events : List EpollEvent
  pub listeners : ℕ → Bool
  pub instances : ℕ  -- how many instances epoll_create1 has made, from fd 100 on

-- How many bytes a write accepts.
abbrev pub accepts : List ℕ → ℕ
accepts [] = 0
accepts (x ∷ xs) = 1

abbrev pub watch : Toy → ℕ → ℕ → Option EpollEvent → Toy
watch k ep fd o = record k {
  watched = λ ep' fd'. if ep == ep' && fd == fd' then o else k.watched ep' fd';
}

-- No instance watches `fd`.
abbrev forget : Toy → ℕ → Toy
forget k fd = record k { watched = λ ep fd'. if fd == fd' then none else k.watched ep fd' }

abbrev pub toy : Sys
toy = record {
  Kernel = Toy;
  readv = λ k fd lens. (got (take (sum lens) k.incoming), k);
  read = λ k fd n. (got (take n k.incoming), k);
  write = λ k fd bytes. (
    count (accepts bytes),
    record k { outgoing = update k.outgoing fd (k.outgoing fd ++ take (accepts bytes) bytes) },
  );
  shutdown_write = λ k fd. (count 0, k);
  close = λ k fd. k;
  socket = λ k. (count 6, forget k 6);
  bind = λ k fd a. (count 0, k);
  listen = λ k fd backlog. (count 0, record k { listeners = update k.listeners fd true });
  accept4 = λ k fd. ((count 9, record { family = 2; port = 80; addr = 1 }), k);
  getsockname = λ k fd. ((count 0, record { family = 2; port = 80; addr = 1 }), k);
  setsockopt = λ k fd level name value. (count 0, k);
  eventfd = λ k. (count 5, k);
  epoll_create = λ k. (
    count (100 + k.instances),
    record k {
      watched = λ ep fd. if ep == 100 + k.instances then none else k.watched ep fd;
      instances = k.instances + 1;
    },
  );
  epoll_ctl = λ k ep op fd e. (count 0, watch k ep fd (registration op e));
  epoll_wait = λ k ep room timeout. (ready (take room k.events), k);
  interest = λ k ep fd. k.watched ep fd;
  socket_error = λ k fd. (count 0, k);
  errno = λ k. 11;
  sent = λ k fd. k.outgoing fd;
  listening = λ k fd. k.listeners fd;
  time = λ k. 0;
}

abbrev pub quiet : Toy
quiet = record {
  watched = λ ep fd. none;
  outgoing = λ fd. [];
  incoming = 10 ∷ 20 ∷ 30 ∷ [];
  events = [];
  listeners = λ fd. false;
  instances = 0;
}

unfoldable pub count_of : CountResult → ℕ
count_of (count n) = n
count_of (failed n) = n

bytes_of : ReadResult → List ℕ
bytes_of (got bytes) = bytes
bytes_of _ = []

events_of : WaitResult → List EpollEvent
events_of (ready es) = es
events_of _ = []

accepts-length : (bytes : List ℕ) → accepts bytes ≤ length bytes
accepts-length [] = omega arith
accepts-length (x ∷ xs) = omega arith

pub toy-ReadvLaw : ReadvLaw toy
unfolding bytes_of
toy-ReadvLaw = record {
  readv_bounded = λ k fd lens bytes e.
      let same : take (sum lens) k.incoming ≡ bytes = ap bytes_of e in
      omega (arith, length-take (sum lens) k.incoming, ap (length {A = ℕ}) same);
  readv_interest = λ k fd lens ep fd'. refl;
  readv_sent = λ k fd lens fd'. refl;
}

pub toy-WriteLaw : WriteLaw toy
unfolding count_of
toy-WriteLaw = record {
  write_bounded = λ k fd bytes n e.
      let same : accepts bytes ≡ n = ap count_of e in omega (arith, accepts-length bytes);
  write_count = λ k fd bytes n e.
      let same : accepts bytes ≡ n = ap count_of e in
      update_self k.outgoing fd (k.outgoing fd ++ take (accepts bytes) bytes)
      ∙ ap (λ i. k.outgoing fd ++ take i bytes) same;
  write_failed = λ k fd bytes errno e. cc;
  write_elsewhere = λ k fd bytes fd' ne.
      update_ne k.outgoing fd fd' (k.outgoing fd ++ take (accepts bytes) bytes) ne;
  write_interest = λ k fd bytes ep fd'. refl;
}

pub toy-EpollCtlLaw : EpollCtlLaw toy
toy-EpollCtlLaw = record {
  ctl_count = λ k ep op fd e n ep' fd' h. refl;
  ctl_failed = λ k ep op fd e errno ep' fd' h. cc;
  ctl_sent = λ k ep op fd e fd'. refl;
  ctl_listening = λ k ep op fd e fd'. refl;
  del_registered = λ k ep fd e e' h. refl;
}

pub toy-EpollWaitLaw : EpollWaitLaw toy
unfolding events_of
toy-EpollWaitLaw = record {
  wait_bounded = λ k ep room timeout es e.
      let same : take room k.events ≡ es = ap events_of e in
      omega (arith, length-take room k.events, ap (length {A = EpollEvent}) same);
  wait_interest = λ k ep room timeout ep' fd. refl;
  wait_sent = λ k ep room timeout fd. refl;
}

pub toy-ShutdownLaw : ShutdownLaw toy
toy-ShutdownLaw = record {
  shutdown_sent = λ k fd fd'. refl;
  shutdown_interest = λ k fd ep fd'. refl;
}

pub toy-CreateLaw : CreateLaw toy
unfolding count_of
toy-CreateLaw = record {
  created_empty = λ k ep fd h. let same : 100 + k.instances ≡ ep = ap count_of h in ground arith;
  created_elsewhere =
      λ k ep ep' fd h ne. let same : 100 + k.instances ≡ ep = ap count_of h in ground arith;
  eventfd_interest = λ k ep fd. refl;
}

pub toy-SocketLaw : SocketLaw toy
unfolding count_of
toy-SocketLaw = record {
  socket_new = λ k fd ep e. let same : 6 ≡ fd = ap count_of e in ground arith;
  bind_interest = λ k fd a ep fd'. refl;
  listen_interest = λ k fd backlog ep fd'. refl;
  listen_listening = λ k fd backlog e. update_self k.listeners fd true;
  getsockname_interest = λ k fd ep fd'. refl;
  setsockopt_interest = λ k fd level name value ep fd'. refl;
}

-- The descriptors that are open: 4, 5, and the instances.
abbrev pub toy_open : Toy → ℕ → Bool
toy_open k fd = fd == 4 || fd == 5 || (leb 100 fd && ltb fd (100 + k.instances))

pub toy-FdLaw : FdLaw toy toy_open
unfolding count_of
toy-FdLaw = record {
  create_new = λ k ep fd e h. let same : 100 + k.instances ≡ ep = ap count_of e in ground arith;
  create_opens = λ k ep e. let same : 100 + k.instances ≡ ep = ap count_of e in ground arith;
  create_keeps = λ k fd h. ground arith;
  eventfd_opens = λ k fd e. let same : 5 ≡ fd = ap count_of e in ground arith;
  eventfd_keeps = λ k fd h. h;
  ctl_keeps = λ k ep op fd e fd' h. h;
  socket_new_fd = λ k fd fd' e h. let same : 6 ≡ fd = ap count_of e in ground arith;
  socket_keeps = λ k fd h. h;
  setsockopt_keeps = λ k fd level name value fd' h. h;
  bind_keeps = λ k fd a fd' h. h;
}
