-- ===== src/Sys.antt =====
-- The system calls that the library makes. They are no code of the repository, so a model takes
-- them as the parameter `Sys`: a kernel state and one function for each call. The records of laws
-- state what their manual pages promise and a theorem relies on.
use network_library_baseon_c.Base.{
  ℕ, ◌+◌, ◌≤◌, ◌≡◌, ◌&&◌, Bool, true, false, List, [], ◌∷◌, ◌++◌, take, Option, none, some, length,
  ◌==◌, if◌then◌else◌,
}

-- What read(2) and readv(2) return: the bytes that they stored, or -1 and errno.
pub data ReadResult : Type 0 where
  got : List ℕ → ReadResult
  read_failed : ℕ → ReadResult

-- What a call returns that yields a number, or -1 and errno.
pub data CountResult : Type 0 where
  count : ℕ → CountResult
  failed : ℕ → CountResult

-- The operation of epoll_ctl(2).
pub data CtlOp : Type 0 where
  ctl_add ctl_del ctl_mod : CtlOp

-- An epoll_event: the event mask, and the pointer of its data.
pub record EpollEvent : Type 0 where
  pub events : ℕ
  pub ptr : ℕ

-- What epoll_wait(2) returns: the events that it stored, or -1 and errno.
pub data WaitResult : Type 0 where
  ready : List EpollEvent → WaitResult
  wait_failed : ℕ → WaitResult

-- A sockaddr_in: the family, and port and address in network byte order.
pub record SockAddr : Type 0 where
  pub family : ℕ
  pub port : ℕ
  pub addr : ℕ

pub record Sys : Type 1 where
  pub Kernel : Type 0
  -- fd, then the lengths of the buffers of the iovec
  pub readv : Kernel → ℕ → List ℕ → ReadResult × Kernel
  -- fd, then the length of the buffer
  pub read : Kernel → ℕ → ℕ → ReadResult × Kernel
  pub write : Kernel → ℕ → List ℕ → CountResult × Kernel
  -- shutdown(fd, SHUT_WR)
  pub shutdown_write : Kernel → ℕ → CountResult × Kernel
  pub close : Kernel → ℕ → Kernel
  -- socket(AF_INET, SOCK_STREAM | SOCK_NONBLOCK | SOCK_CLOEXEC, 0)
  pub socket : Kernel → CountResult × Kernel
  pub bind : Kernel → ℕ → SockAddr → CountResult × Kernel
  -- fd, backlog
  pub listen : Kernel → ℕ → ℕ → CountResult × Kernel
  -- accept4: the new fd, and the address of the peer
  pub accept4 : Kernel → ℕ → (CountResult × SockAddr) × Kernel
  pub getsockname : Kernel → ℕ → (CountResult × SockAddr) × Kernel
  -- fd, level, name, value
  pub setsockopt : Kernel → ℕ → ℕ → ℕ → ℕ → CountResult × Kernel
  -- eventfd(0, EFD_NONBLOCK | EFD_CLOEXEC)
  pub eventfd : Kernel → CountResult × Kernel
  -- epoll_create1(EPOLL_CLOEXEC)
  pub epoll_create : Kernel → CountResult × Kernel
  -- epoll fd, operation, fd, event
  pub epoll_ctl : Kernel → ℕ → CtlOp → ℕ → EpollEvent → CountResult × Kernel
  -- epoll fd, the room of the array, timeout
  pub epoll_wait : Kernel → ℕ → ℕ → ℕ → WaitResult × Kernel
  -- what an fd is registered with in an epoll instance
  pub interest : Kernel → ℕ → ℕ → Option EpollEvent
  -- getsockopt(fd, SOL_SOCKET, SO_ERROR): the pending error
  pub socket_error : Kernel → ℕ → CountResult × Kernel
  -- the thread's errno, which a call that succeeds leaves as it was
  pub errno : Kernel → ℕ
  -- the bytes of a socket that write(2) has accepted, in order
  pub sent : Kernel → ℕ → List ℕ
  -- whether a socket takes connections
  pub listening : Kernel → ℕ → Bool
  -- time(NULL)
  pub time : Kernel → ℕ

abbrev pub sum : List ℕ → ℕ
sum [] = 0
sum (x ∷ xs) = x + sum xs

-- readv(2): no more bytes than the buffers have room for; it sends nothing, and no registration
-- changes.
pub record ReadvLaw (s : Sys) : Type 0 where
  pub readv_bounded :
      (k : s.Kernel) (fd : ℕ) (lens : List ℕ) (bytes : List ℕ)
      → (s.readv k fd lens).0 ≡ got bytes
      → length bytes ≤ sum lens
  pub readv_interest :
      (k : s.Kernel) (fd : ℕ) (lens : List ℕ) (ep fd' : ℕ)
      → s.interest (s.readv k fd lens).1 ep fd' ≡ s.interest k ep fd'
  pub readv_sent :
      (k : s.Kernel) (fd : ℕ) (lens : List ℕ) (fd' : ℕ)
      → s.sent (s.readv k fd lens).1 fd' ≡ s.sent k fd'

-- write(2): a call that returns a count has accepted that many bytes of its buffer for its own fd,
-- and one that fails none; no write changes a registration.
pub record WriteLaw (s : Sys) : Type 0 where
  pub write_bounded :
      (k : s.Kernel) (fd : ℕ) (bytes : List ℕ) (n : ℕ)
      → (s.write k fd bytes).0 ≡ count n
      → n ≤ length bytes
  pub write_count :
      (k : s.Kernel) (fd : ℕ) (bytes : List ℕ) (n : ℕ)
      → (s.write k fd bytes).0 ≡ count n
      → s.sent (s.write k fd bytes).1 fd ≡ s.sent k fd ++ take n bytes
  pub write_failed :
      (k : s.Kernel) (fd : ℕ) (bytes : List ℕ) (errno : ℕ)
      → (s.write k fd bytes).0 ≡ failed errno
      → s.sent (s.write k fd bytes).1 fd ≡ s.sent k fd
  pub write_elsewhere :
      (k : s.Kernel) (fd : ℕ) (bytes : List ℕ) (fd' : ℕ)
      → (fd == fd') ≡ false
      → s.sent (s.write k fd bytes).1 fd' ≡ s.sent k fd'
  pub write_interest :
      (k : s.Kernel) (fd : ℕ) (bytes : List ℕ) (ep fd' : ℕ)
      → s.interest (s.write k fd bytes).1 ep fd' ≡ s.interest k ep fd'

-- What an epoll_ctl that returns 0 leaves an fd registered with.
abbrev pub registration : CtlOp → EpollEvent → Option EpollEvent
registration ctl_add e = some e
registration ctl_mod e = some e
registration ctl_del e = none

-- epoll_ctl(2): a call that returns 0 changes the registration of its fd alone, and one that fails
-- changes none; no call sends anything or makes a socket listen or not, and EPOLL_CTL_DEL does not fail
-- on a registered fd.
pub record EpollCtlLaw (s : Sys) : Type 0 where
  pub ctl_count :
      (k : s.Kernel) (ep : ℕ) (op : CtlOp) (fd : ℕ) (e : EpollEvent) (n ep' fd' : ℕ)
      → (s.epoll_ctl k ep op fd e).0 ≡ count n
      → s.interest (s.epoll_ctl k ep op fd e).1 ep' fd'
        ≡ (if ep == ep' && fd == fd' then registration op e else s.interest k ep' fd')
  pub ctl_failed :
      (k : s.Kernel) (ep : ℕ) (op : CtlOp) (fd : ℕ) (e : EpollEvent) (errno ep' fd' : ℕ)
      → (s.epoll_ctl k ep op fd e).0 ≡ failed errno
      → s.interest (s.epoll_ctl k ep op fd e).1 ep' fd' ≡ s.interest k ep' fd'
  pub ctl_sent :
      (k : s.Kernel) (ep : ℕ) (op : CtlOp) (fd : ℕ) (e : EpollEvent) (fd' : ℕ)
      → s.sent (s.epoll_ctl k ep op fd e).1 fd' ≡ s.sent k fd'
  pub ctl_listening :
      (k : s.Kernel) (ep : ℕ) (op : CtlOp) (fd : ℕ) (e : EpollEvent) (fd' : ℕ)
      → s.listening (s.epoll_ctl k ep op fd e).1 fd' ≡ s.listening k fd'
  pub del_registered :
      (k : s.Kernel) (ep fd : ℕ) (e e' : EpollEvent)
      → s.interest k ep fd ≡ some e'
      → (s.epoll_ctl k ep ctl_del fd e).0 ≡ count 0

-- epoll_wait(2): no more events than the array has room for; it sends nothing and changes no
-- registration.
pub record EpollWaitLaw (s : Sys) : Type 0 where
  pub wait_bounded :
      (k : s.Kernel) (ep room timeout : ℕ) (es : List EpollEvent)
      → (s.epoll_wait k ep room timeout).0 ≡ ready es
      → length es ≤ room
  pub wait_interest :
      (k : s.Kernel) (ep room timeout ep' fd : ℕ)
      → s.interest (s.epoll_wait k ep room timeout).1 ep' fd ≡ s.interest k ep' fd
  pub wait_sent :
      (k : s.Kernel) (ep room timeout fd : ℕ)
      → s.sent (s.epoll_wait k ep room timeout).1 fd ≡ s.sent k fd

-- epoll_create1(2) and eventfd(2): a new instance watches no fd, to make it changes no registration
-- of another one, and to make an eventfd changes none.
pub record CreateLaw (s : Sys) : Type 0 where
  pub created_empty :
      (k : s.Kernel) (ep fd : ℕ)
      → (s.epoll_create k).0 ≡ count ep
      → s.interest (s.epoll_create k).1 ep fd ≡ none
  pub created_elsewhere :
      (k : s.Kernel) (ep ep' fd : ℕ)
      → (s.epoll_create k).0 ≡ count ep
      → (ep == ep') ≡ false
      → s.interest (s.epoll_create k).1 ep' fd ≡ s.interest k ep' fd
  pub eventfd_interest :
      (k : s.Kernel) (ep fd : ℕ) → s.interest (s.eventfd k).1 ep fd ≡ s.interest k ep fd

-- shutdown(2) sends nothing that write has not accepted, and changes no registration.
pub record ShutdownLaw (s : Sys) : Type 0 where
  pub shutdown_sent :
      (k : s.Kernel) (fd fd' : ℕ) → s.sent (s.shutdown_write k fd).1 fd' ≡ s.sent k fd'
  pub shutdown_interest :
      (k : s.Kernel) (fd ep fd' : ℕ)
      → s.interest (s.shutdown_write k fd).1 ep fd' ≡ s.interest k ep fd'

-- bind(2), listen(2), getsockname(2) and setsockopt(2) change no registration, and a new socket has
-- none in any instance; a socket for which listen(2) has returned 0 takes connections.
pub record SocketLaw (s : Sys) : Type 0 where
  pub socket_new :
      (k : s.Kernel) (fd ep : ℕ)
      → (s.socket k).0 ≡ count fd
      → s.interest (s.socket k).1 ep fd ≡ none
  pub bind_interest :
      (k : s.Kernel) (fd : ℕ) (a : SockAddr) (ep fd' : ℕ)
      → s.interest (s.bind k fd a).1 ep fd' ≡ s.interest k ep fd'
  pub listen_interest :
      (k : s.Kernel) (fd backlog ep fd' : ℕ)
      → s.interest (s.listen k fd backlog).1 ep fd' ≡ s.interest k ep fd'
  pub listen_listening :
      (k : s.Kernel) (fd backlog : ℕ)
      → (s.listen k fd backlog).0 ≡ count 0
      → s.listening (s.listen k fd backlog).1 fd ≡ true
  pub getsockname_interest :
      (k : s.Kernel) (fd ep fd' : ℕ)
      → s.interest (s.getsockname k fd).1 ep fd' ≡ s.interest k ep fd'
  pub setsockopt_interest :
      (k : s.Kernel) (fd level name value ep fd' : ℕ)
      → s.interest (s.setsockopt k fd level name value).1 ep fd' ≡ s.interest k ep fd'

-- The descriptors of a process: what is open stays so until it is closed, and no number of an open one
-- is given out again. `is_open` says which are.
pub record FdLaw (s : Sys) (is_open : s.Kernel → ℕ → Bool) : Type 0 where
  pub create_new :
      (k : s.Kernel) (ep fd : ℕ)
      → (s.epoll_create k).0 ≡ count ep
      → is_open k fd ≡ true
      → (ep == fd) ≡ false
  pub create_opens :
      (k : s.Kernel) (ep : ℕ)
      → (s.epoll_create k).0 ≡ count ep
      → is_open (s.epoll_create k).1 ep ≡ true
  pub create_keeps :
      (k : s.Kernel) (fd : ℕ) → is_open k fd ≡ true → is_open (s.epoll_create k).1 fd ≡ true
  pub eventfd_opens :
      (k : s.Kernel) (fd : ℕ) → (s.eventfd k).0 ≡ count fd → is_open (s.eventfd k).1 fd ≡ true
  pub eventfd_keeps :
      (k : s.Kernel) (fd : ℕ) → is_open k fd ≡ true → is_open (s.eventfd k).1 fd ≡ true
  pub ctl_keeps :
      (k : s.Kernel) (ep : ℕ) (op : CtlOp) (fd : ℕ) (e : EpollEvent) (fd' : ℕ)
      → is_open k fd' ≡ true
      → is_open (s.epoll_ctl k ep op fd e).1 fd' ≡ true
  pub socket_new_fd :
      (k : s.Kernel) (fd fd' : ℕ)
      → (s.socket k).0 ≡ count fd
      → is_open k fd' ≡ true
      → (fd == fd') ≡ false
  pub socket_keeps :
      (k : s.Kernel) (fd : ℕ) → is_open k fd ≡ true → is_open (s.socket k).1 fd ≡ true
  pub setsockopt_keeps :
      (k : s.Kernel) (fd level name value fd' : ℕ)
      → is_open k fd' ≡ true
      → is_open (s.setsockopt k fd level name value).1 fd' ≡ true
  pub bind_keeps :
      (k : s.Kernel) (fd : ℕ) (a : SockAddr) (fd' : ℕ)
      → is_open k fd' ≡ true
      → is_open (s.bind k fd a).1 fd' ≡ true
