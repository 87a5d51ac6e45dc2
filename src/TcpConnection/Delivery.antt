-- ===== src/TcpConnection/Delivery.antt =====
-- What reaches the peer of a connection over many messages and many writes of its output buffer.
use network_library_baseon_c.Base.{
  ℕ, ◌≤◌, ◌≡◌, ◌⊎◌, inl, inr, sym, ap, ◌∙◌, List, [], ◌∷◌, ◌++◌, append-nil, append_assoc, Outcome,
  ok, err, fatal, length_error, ◌>>=◌, length,
}
use network_library_baseon_c.Sys.{Sys, WriteLaw, EpollCtlLaw, ShutdownLaw}
use network_library_baseon_c.Buffer.{max_size}
use network_library_baseon_c.TcpConnection.{World, send_bytes_in_loop, handle_write}
use network_library_baseon_c.TcpConnection.Ready.{IsReady, stream}
use network_library_baseon_c.TcpConnection.Stream.{Sent, SentOr, send_bytes_in_loop-Sent}
use network_library_baseon_c.TcpConnection.Flushing.{Flushed, FlushedOr, handle_write-Flushed}

-- A message that sendInLoop is called with, or an EPOLLOUT that handleWrite is called for.
pub data Op : Type 0 where
  message : List ℕ → Op
  writable : Op

-- `s` is made of the messages of the list, in order, each of them whole or left out.
pub data Whole : List Op → List ℕ → Type 0 where
  none_left : Whole [] []
  delivered :
      {ops : List Op} {s : List ℕ} (bytes : List ℕ)
      → Whole ops s
      → Whole (message bytes ∷ ops) (bytes ++ s)
  given_up :
      {ops : List Op} {s : List ℕ} (bytes : List ℕ) → Whole ops s → Whole (message bytes ∷ ops) s
  flushed : {ops : List Op} {s : List ℕ} → Whole ops s → Whole (writable ∷ ops) s

-- No message is longer than max_size().
abbrev pub Bounded : List Op → Type 0
Bounded [] = Unit {0}
Bounded (message bytes ∷ ops) = (length bytes ≤ max_size) × Bounded ops
Bounded (writable ∷ ops) = Bounded ops

module _ (sys : Sys) {U : Type 0} where
  pub run_ops : ℕ → List Op → World sys U → Outcome (World sys U)
  run_ops c [] r = ok r
  run_ops c (message bytes ∷ ops) r = send_bytes_in_loop sys c bytes r >>= run_ops c ops
  run_ops c (writable ∷ ops) r = handle_write sys c r >>= run_ops c ops

  -- What has joined the stream of a connection that is still ready; or the run has not returned.
  abbrev pub DeliveredOr : ℕ → List Op → World sys U → Outcome (World sys U) → Type 0
  DeliveredOr c ops r (ok r') =
      IsReady sys c r' × (s : List ℕ) × Whole ops s × (stream sys c r' ≡ stream sys c r ++ s)
  DeliveredOr c ops r (err f) = (f ≡ length_error) ⊎ (f ≡ fatal)

  pub after_message :
      (c : ℕ) (bytes : List ℕ) (ops : List Op) (r r1 : World sys U) (o : Outcome (World sys U))
      → Sent sys c bytes r r1
      → DeliveredOr c ops r1 o
      → DeliveredOr c (message bytes ∷ ops) r o
  after_message c bytes ops r r1 (err f) x d = d
  after_message c bytes ops r r1 (ok r') x (v, s, w, e) = elim x.streamed [
    | inl all ↦ (
      v,
      bytes ++ s,
      delivered bytes w,
      e ∙ ap (λ t. t ++ s) all ∙ append_assoc (stream sys c r) bytes s,
    )
    | inr gone ↦ (v, s, given_up bytes w, e ∙ ap (λ t. t ++ s) gone.0)
  ]

  pub after_flush :
      (c : ℕ) (ops : List Op) (r r1 : World sys U) (o : Outcome (World sys U))
      → Flushed sys c r r1
      → DeliveredOr c ops r1 o
      → DeliveredOr c (writable ∷ ops) r o
  after_flush c ops r r1 (err f) x d = d
  after_flush c ops r r1 (ok r') x (v, s, w, e) = (v, s, flushed w, e ∙ ap (λ t. t ++ s) x.streamed)

  send_then :
      (c : ℕ) (bytes : List ℕ) (ops : List Op) (r : World sys U) (o : Outcome (World sys U))
      → ((r1 : World sys U) → IsReady sys c r1 → DeliveredOr c ops r1 (run_ops c ops r1))
      → SentOr sys c bytes r o
      → DeliveredOr c (message bytes ∷ ops) r (o >>= run_ops c ops)
  send_then c bytes ops r (ok r1) rest x =
      after_message c bytes ops r r1 (run_ops c ops r1) x (rest r1 x.ready)
  send_then c bytes ops r (err f) rest x = x

  write_then :
      (c : ℕ) (ops : List Op) (r : World sys U) (o : Outcome (World sys U))
      → ((r1 : World sys U) → IsReady sys c r1 → DeliveredOr c ops r1 (run_ops c ops r1))
      → FlushedOr sys c r o
      → DeliveredOr c (writable ∷ ops) r (o >>= run_ops c ops)
  write_then c ops r (ok r1) rest x = after_flush c ops r r1 (run_ops c ops r1) x (rest r1 x.ready)
  write_then c ops r (err f) rest x = inr x

  module _ (ctl : EpollCtlLaw sys) (law : WriteLaw sys) (down : ShutdownLaw sys) where
    -- Whatever messages of at most max_size() bytes sendInLoop is called with, and whenever
    -- handleWrite is called between them: a ready connection stays ready, and its stream, that is
    -- what write(2) has accepted followed by what the output buffer holds, grows by the messages in
    -- order, each of them whole or left out. The calls fail only for a vector beyond max_size() or
    -- an epoll_ctl that is refused.
    pub run_ops-Delivered :
        (c : ℕ) (ops : List Op) (r : World sys U)
        → Bounded ops
        → IsReady sys c r
        → DeliveredOr c ops r (run_ops c ops r)
    unfolding run_ops
    run_ops-Delivered c [] r b v = (v, [], none_left, sym (append-nil (stream sys c r)))
    run_ops-Delivered c (message bytes ∷ ops) r b v =
        send_then c bytes ops r (send_bytes_in_loop sys c bytes r)
          (λ r1 ready. run_ops-Delivered c ops r1 b.1 ready)
          (send_bytes_in_loop-Sent sys ctl law c bytes r b.0 v)
    run_ops-Delivered c (writable ∷ ops) r b v =
        write_then c ops r (handle_write sys c r) (λ r1 ready. run_ops-Delivered c ops r1 b ready)
          (handle_write-Flushed sys ctl law down c r v)
