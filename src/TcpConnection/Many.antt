-- ===== src/TcpConnection/Many.antt =====
-- Many connections in one loop: what each of them sends is its own.
use network_library_baseon_c.Base.{
  ℕ, ◌≡◌, inl, inr, sym, ap, ◌∙◌, subst, Bool, true, false, List, [], ◌∷◌, ◌++◌, append-nil,
  Outcome, ok, err, ◌>>=◌, length, ◌≤◌, ◌==◌, Bool-cases, if◌then◌else◌, arith,
}
use network_library_baseon_c.Sys.{Sys, WriteLaw, EpollCtlLaw, ShutdownLaw}
use network_library_baseon_c.Buffer.{max_size}
use network_library_baseon_c.Buffer.Invariant.{content}
use network_library_baseon_c.TcpConnection.{
  TcpConnection, World, conn, send_bytes_in_loop, handle_write,
}
use network_library_baseon_c.TcpConnection.Ready.{IsReady, Same, stream}
use network_library_baseon_c.TcpConnection.Stream.{Sent, SentOr, send_bytes_in_loop-Sent}
use network_library_baseon_c.TcpConnection.Flushing.{Flushed, FlushedOr, handle_write-Flushed}
use network_library_baseon_c.TcpConnection.Delivery.{
  Op, message, writable, none_left, DeliveredOr, after_message, after_flush,
}
use network_library_baseon_c.TcpConnection.Apart.{Apart, Frame, FrameOr, still-Apart}
use network_library_baseon_c.TcpConnection.Frame.{send_bytes_in_loop-Frame, handle_write-Frame}

-- The calls of the connection `d`.
abbrev pub ops_of : ℕ → List (ℕ × Op) → List Op
ops_of d [] = []
ops_of d ((c, op) ∷ ops) = let rest = ops_of d ops in if c == d then op ∷ rest else rest

-- The calls are of connections that `on` has.
abbrev pub AllOn : (ℕ → Bool) → List (ℕ × Op) → Type 0
AllOn on [] = Unit {0}
AllOn on ((c, op) ∷ ops) = (on c ≡ true) × AllOn on ops

-- No message is longer than max_size().
abbrev pub AllBounded : List (ℕ × Op) → Type 0
AllBounded [] = Unit {0}
AllBounded ((c, message bytes) ∷ ops) = (length bytes ≤ max_size) × AllBounded ops
AllBounded ((c, writable) ∷ ops) = AllBounded ops

same_number : (c d : ℕ) → (c == d) ≡ true → c ≡ d
same_number c d h = ground arith

module _ (sys : Sys) {U : Type 0} where
  -- The calls that the loop makes of its connections, in order.
  pub run_all : List (ℕ × Op) → World sys U → Outcome (World sys U)
  run_all [] r = ok r
  run_all ((c, message bytes) ∷ ops) r = send_bytes_in_loop sys c bytes r >>= run_all ops
  run_all ((c, writable) ∷ ops) r = handle_write sys c r >>= run_all ops

  -- The connections of a loop are ready, and no two share a channel or a socket.
  pub record Shared (on : ℕ → Bool) (r : World sys U) : Type 0 where
    pub ready : (c : ℕ) → on c ≡ true → IsReady sys c r
    pub apart : (c d : ℕ) → on c ≡ true → on d ≡ true → (c == d) ≡ false → Apart sys c d r

  -- The connections stay in their places, and in their state.
  record Kept (on : ℕ → Bool) (r r' : World sys U) : Type 0 where
    pub channel : (d : ℕ) → on d ≡ true → (conn sys d r').channel ≡ (conn sys d r).channel
    pub fd : (d : ℕ) → on d ≡ true → (conn sys d r').fd ≡ (conn sys d r).fd

  module _ (on : ℕ → Bool) (r : World sys U) (s : Shared on r) (c : ℕ) (is_on : on c ≡ true) where
    -- Another connection, after a call of `c`.
    others_Same :
        (r' : World sys U)
        → Frame sys c r r'
        → (d : ℕ) → on d ≡ true
        → (c == d) ≡ false
        → Same sys d r r'
    others_Same r' f d e ne = f.others d (s.ready d e) (s.apart c d is_on e ne)

    Frame-Kept : (r' : World sys U) → Frame sys c r r' → Kept on r r'
    Frame-Kept r' f = record {
      channel = λ d e. elim (Bool-cases (c == d)) [
        | inl eq ↦
            subst (λ x. (conn sys x r').channel ≡ (conn sys x r).channel) (same_number c d eq)
              f.channel
        | inr ne ↦ ap (λ (t : TcpConnection). t.channel) (others_Same r' f d e ne).same_conn
      ];
      fd = λ d e. elim (Bool-cases (c == d)) [
        | inl eq ↦ subst (λ x. (conn sys x r').fd ≡ (conn sys x r).fd) (same_number c d eq) f.fd
        | inr ne ↦ ap (λ (t : TcpConnection). t.fd) (others_Same r' f d e ne).same_conn
      ];
    }

    Frame-Shared : (r' : World sys U) → IsReady sys c r' → Frame sys c r r' → Shared on r'
    Frame-Shared r' v f =
        let k = Frame-Kept r' f in
        record {
          ready = λ d e. elim (Bool-cases (c == d)) [
            | inl eq ↦ subst (λ x. IsReady sys x r') (same_number c d eq) v
            | inr ne ↦ (others_Same r' f d e ne).ready
          ];
          apart = λ a b ea eb ne.
              still-Apart sys a b r r' (k.channel a ea) (k.fd a ea) (k.channel b eb) (k.fd b eb)
                (s.apart a b ea eb ne);
        }

  Same-stream : (d : ℕ) (r r' : World sys U) → Same sys d r r' → stream sys d r' ≡ stream sys d r
  Same-stream d r r' s =
      subst (λ (t : TcpConnection). sys.sent r'.kernel t.fd ++ content t.output ≡ stream sys d r)
        (sym s.same_conn) (ap (λ x. x ++ content (conn sys d r).output) s.same_sent)

  -- A stream that has not changed yet.
  same_first :
      (d : ℕ) (ops : List Op) (r r1 : World sys U) (o : Outcome (World sys U))
      → stream sys d r1 ≡ stream sys d r
      → DeliveredOr sys d ops r1 o
      → DeliveredOr sys d ops r o
  same_first d ops r r1 (ok r') e (v, s, w, x) = (v, s, w, x ∙ ap (λ t. t ++ s) e)
  same_first d ops r r1 (err f) e x = x

  module _ (ctl : EpollCtlLaw sys) (law : WriteLaw sys) (down : ShutdownLaw sys) where
    message_first :
        (on : ℕ → Bool) (d c : ℕ) (bytes : List ℕ) (ops : List (ℕ × Op)) (r : World sys U)
        (o : Outcome (World sys U))
        → Shared on r
        → on c ≡ true
        → on d ≡ true
        → SentOr sys c bytes r o
        → FrameOr sys c r o
        → ((r1 : World sys U) → Shared on r1 → DeliveredOr sys d (ops_of d ops) r1 (run_all ops r1))
        → DeliveredOr sys d (ops_of d ((c, message bytes) ∷ ops)) r (o >>= run_all ops)
    message_first on d c bytes ops r (ok r1) s ec ed x f rest =
        let after = rest r1 (Frame-Shared on r s c ec r1 x.ready f) in
        elim (Bool-cases (c == d)) [
          | inl eq ↦ rw eq (
              after_message sys d bytes (ops_of d ops) r r1 (run_all ops r1)
                (subst (λ n. Sent sys n bytes r r1) (same_number c d eq) x) after)
          | inr ne ↦ rw ne (
              same_first d (ops_of d ops) r r1 (run_all ops r1)
                (Same-stream d r r1 (others_Same on r s c ec r1 f d ed ne)) after)
        ]
    message_first on d c bytes ops r (err e) s ec ed x f rest = x

    flush_first :
        (on : ℕ → Bool) (d c : ℕ) (ops : List (ℕ × Op)) (r : World sys U)
        (o : Outcome (World sys U))
        → Shared on r
        → on c ≡ true
        → on d ≡ true
        → FlushedOr sys c r o
        → FrameOr sys c r o
        → ((r1 : World sys U) → Shared on r1 → DeliveredOr sys d (ops_of d ops) r1 (run_all ops r1))
        → DeliveredOr sys d (ops_of d ((c, writable) ∷ ops)) r (o >>= run_all ops)
    flush_first on d c ops r (ok r1) s ec ed x f rest =
        let after = rest r1 (Frame-Shared on r s c ec r1 x.ready f) in
        elim (Bool-cases (c == d)) [
          | inl eq ↦ rw eq (
              after_flush sys d (ops_of d ops) r r1 (run_all ops r1)
                (subst (λ n. Flushed sys n r r1) (same_number c d eq) x) after)
          | inr ne ↦ rw ne (
              same_first d (ops_of d ops) r r1 (run_all ops r1)
                (Same-stream d r r1 (others_Same on r s c ec r1 f d ed ne)) after)
        ]
    flush_first on d c ops r (err e) s ec ed x f rest = inr x

    -- Connections of one loop that are ready, no two of which share a channel or a socket, and any
    -- sequence of sendInLoop, with messages of at most max_size() bytes, and handleWrite on them, in
    -- any order: each connection `d` of them stays ready, and its stream grows by its own messages
    -- alone, in order, each of them whole or left out, whatever the calls of the others between them.
    -- The calls fail only for a vector beyond max_size() or an epoll_ctl that is refused.
    pub run_all-Delivered :
        (on : ℕ → Bool) (d : ℕ) (ops : List (ℕ × Op)) (r : World sys U)
        → AllOn on ops
        → AllBounded ops
        → Shared on r
        → on d ≡ true
        → DeliveredOr sys d (ops_of d ops) r (run_all ops r)
    unfolding run_all
    run_all-Delivered on d [] r a b s e =
        (s.ready d e, [], none_left, sym (append-nil (stream sys d r)))
    run_all-Delivered on d ((c, message bytes) ∷ ops) r a b s e =
        message_first on d c bytes ops r (send_bytes_in_loop sys c bytes r) s a.0 e
          (send_bytes_in_loop-Sent sys ctl law c bytes r b.0 (s.ready c a.0))
          (send_bytes_in_loop-Frame sys ctl law c bytes r (s.ready c a.0))
          (λ r1 s1. run_all-Delivered on d ops r1 a.1 b.1 s1 e)
    run_all-Delivered on d ((c, writable) ∷ ops) r a b s e =
        flush_first on d c ops r (handle_write sys c r) s a.0 e
          (handle_write-Flushed sys ctl law down c r (s.ready c a.0))
          (handle_write-Frame sys ctl law down c r (s.ready c a.0))
          (λ r1 s1. run_all-Delivered on d ops r1 a.1 b s1 e)
