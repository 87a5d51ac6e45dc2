-- ===== src/TcpConnection/Writing.antt =====
-- The write that sendInLoop tries first.
use network_library_baseon_c.Base.{
  ℕ, zero, suc, ◌-◌, ◌≤◌, ◌≡◌, ◌⊎◌, inl, inr, refl, sym, ◌∙◌, transport, Bool, true, false, not,
  ◌&&◌, ◌||◌, List, [], ◌++◌, arith, append-nil, length, take, ◌==◌, Bool-cases,
}
use network_library_baseon_c.Sys.{Sys, WriteLaw, CountResult, count, failed}
use network_library_baseon_c.Buffer.{readable_bytes}
use network_library_baseon_c.Buffer.Invariant.{
  content, length-content, readable_bytes_lem, nil_of_length,
}
use network_library_baseon_c.Channel.{is_writing}
use network_library_baseon_c.TcpConnection.{
  write_complete, World, conn, chan, after_write, try_write, ewouldblock, epipe, econnreset,
}
use network_library_baseon_c.TcpConnection.Ready.{Ready-interest, IsReady, Same, queue_here-Same}

-- The write has accepted nothing, because the peer is gone.
abbrev pub GaveUp : (sys : Sys) → CountResult × sys.Kernel → Type 0
GaveUp sys (count zero, k) = (sys.errno k ≡ epipe) ⊎ (sys.errno k ≡ econnreset)
GaveUp sys (count (suc n), k) = ⊥
GaveUp sys (failed errno, k) = (errno ≡ epipe) ⊎ (errno ≡ econnreset)

-- The test of the two error numbers.
abbrev is_gone : ℕ → Bool
is_gone errno = not (errno == ewouldblock) && (errno == epipe || errno == econnreset)

is_gone_lem : (errno : ℕ) → is_gone errno ≡ true → (errno ≡ epipe) ⊎ (errno ≡ econnreset)
is_gone_lem errno h = ground arith

module _ (sys : Sys) {U : Type 0} where
  -- What the write of sendInLoop does: `n` bytes are sent, and only when none waits.
  pub record Wrote (c : ℕ) (bytes : List ℕ) (r : World sys U) (n : ℕ) (fault : Bool)
      (r' : World sys U) : Type 0 where
    pub ready : IsReady sys c r'
    pub same_conn : conn sys c r' ≡ conn sys c r
    pub bounded : n ≤ length bytes
    pub sent :
        sys.sent r'.kernel (conn sys c r).fd ≡ sys.sent r.kernel (conn sys c r).fd ++ take n bytes
    pub direct : (n ≡ 0) ⊎ (content (conn sys c r).output ≡ [])
    pub faultless : fault ≡ true → n ≡ 0
    pub gone : fault ≡ true → GaveUp sys (sys.write r.kernel (conn sys c r).fd bytes)

  module _ (law : WriteLaw sys) where
    -- The kernel after the write, before anything is queued.
    after_kernel :
        (c : ℕ) (bytes : List ℕ) (r : World sys U) (n : ℕ) (fault : Bool) (k : sys.Kernel)
        → IsReady sys c r
        → content (conn sys c r).output ≡ []
        → k ≡ (sys.write r.kernel (conn sys c r).fd bytes).1
        → n ≤ length bytes
        → sys.sent k (conn sys c r).fd ≡ sys.sent r.kernel (conn sys c r).fd ++ take n bytes
        → (fault ≡ true → n ≡ 0)
        → (fault ≡ true → GaveUp sys (sys.write r.kernel (conn sys c r).fd bytes))
        → Wrote c bytes r n fault (record r { kernel = k })
    after_kernel c bytes r n fault k v empty e bound sent faultless gone = record {
      ready =
          Ready-interest sys r.kernel k r.loop.poller r.loop.wakeup_fd (chan sys c r) (conn sys c r)
            (rw e (
              law.write_interest r.kernel (conn sys c r).fd bytes r.loop.poller.epollfd
                (chan sys c r).fd))
            v;
      same_conn = refl;
      bounded = bound;
      sent = sent;
      direct = inr empty;
      faultless = faultless;
      gone = gone;
    }

    Wrote-Same :
        (c : ℕ) (bytes : List ℕ) (r r1 r2 : World sys U) (n : ℕ) (fault : Bool)
        → Wrote c bytes r n fault r1
        → Same sys c r1 r2
        → Wrote c bytes r n fault r2
    Wrote-Same c bytes r r1 r2 n fault w s = record {
      ready = s.ready;
      same_conn = s.same_conn ∙ w.same_conn;
      bounded = w.bounded;
      sent = rw (← w.same_conn) (s.same_sent) ∙ w.sent;
      direct = w.direct;
      faultless = w.faultless;
      gone = w.gone;
    }

    after_write-Wrote :
        (c : ℕ) (bytes : List ℕ) (r : World sys U) (res : CountResult) (k : sys.Kernel)
        → IsReady sys c r
        → content (conn sys c r).output ≡ []
        → res ≡ (sys.write r.kernel (conn sys c r).fd bytes).0
        → k ≡ (sys.write r.kernel (conn sys c r).fd bytes).1
        → GaveUp sys (res, k) ≡ GaveUp sys (sys.write r.kernel (conn sys c r).fd bytes)
        → let (n, fault, r') = after_write sys c (length bytes) res (record r { kernel = k }) in
          Wrote c bytes r n fault r'
    unfolding after_write
    after_write-Wrote c bytes r (count zero) k v empty e0 e1 g =
        after_kernel c bytes r 0 (is_gone (sys.errno k)) k v empty e1 (omega arith)
          (rw e1 (law.write_count r.kernel (conn sys c r).fd bytes 0 (sym e0))) (λ _. refl)
          (λ f. transport g (is_gone_lem (sys.errno k) f))
    after_write-Wrote c bytes r (failed errno) k v empty e0 e1 g =
        after_kernel c bytes r 0 (is_gone errno) k v empty e1 (omega arith)
          (rw e1 (law.write_failed r.kernel (conn sys c r).fd bytes errno (sym e0))
            ∙ sym (append-nil _))
          (λ _. refl) (λ f. transport g (is_gone_lem errno f))
    after_write-Wrote c bytes r (count (suc n)) k v empty e0 e1 g =
        let w =
          after_kernel c bytes r (suc n) false k v empty e1
            (law.write_bounded r.kernel (conn sys c r).fd bytes (suc n) (sym e0))
            (rw e1 (law.write_count r.kernel (conn sys c r).fd bytes (suc n) (sym e0))) (λ f. cc)
            (λ f. cc) in
        elim (Bool-cases (length bytes - suc n == 0 && (conn sys c r).has_write_complete)) [
          | inl all ↦ rw all (
              Wrote-Same c bytes r (record r { kernel = k }) _ (suc n) false w
                (queue_here-Same sys law c (write_complete c) (record r { kernel = k }) w.ready))
          | inr some_left ↦ rw some_left w
        ]

    -- Without the write all is as it was.
    no_write :
        (c : ℕ) (bytes : List ℕ) (r : World sys U) → IsReady sys c r → Wrote c bytes r 0 false r
    no_write c bytes r v = record {
      ready = v;
      same_conn = refl;
      bounded = omega arith;
      sent = sym (append-nil _);
      direct = inl refl;
      faultless = λ _. refl;
      gone = λ f. cc;
    }

    pub try_write-Wrote :
        (c : ℕ) (bytes : List ℕ) (r : World sys U)
        → IsReady sys c r
        → let (n, fault, r') = try_write sys c bytes r in Wrote c bytes r n fault r'
    unfolding try_write
    try_write-Wrote c bytes r v =
        elim (Bool-cases
          (not (is_writing (chan sys c r)) && readable_bytes (conn sys c r).output == 0)) [
            | inl idle ↦
                rw (idle, v.same_fd)
                  (after_write-Wrote c bytes r (sys.write r.kernel (conn sys c r).fd bytes).0
                    (sys.write r.kernel (conn sys c r).fd bytes).1 v (empty idle) refl refl refl)
            | inr busy ↦ rw busy (no_write c bytes r v)
          ]
      where
        empty :
            (not (is_writing (chan sys c r)) && readable_bytes (conn sys c r).output == 0) ≡ true
            → content (conn sys c r).output ≡ []
        empty h =
            nil_of_length (content (conn sys c r).output)
              (ground (arith, readable_bytes_lem v.output, length-content v.output))
