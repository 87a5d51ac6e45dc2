-- ===== src/TcpConnection/Stream.antt =====
-- sendInLoop as a whole, against the stream of a connection.
use network_library_baseon_c.Base.{
  ℕ, ◌-◌, ◌≤◌, ◌≡◌, ◌⊎◌, inl, inr, sym, ap, ◌∙◌, subst, Bool, false, not, ◌&&◌, List, [], ◌++◌,
  arith, append-nil, append_assoc, take-append-drop, drop-all, Outcome, ok, err, fatal,
  length_error, length, length-drop, take, drop, update_self, Bool-cases, ltb,
}
use network_library_baseon_c.Sys.{Sys, WriteLaw, EpollCtlLaw}
use network_library_baseon_c.Buffer.{max_size}
use network_library_baseon_c.Buffer.Invariant.{content}
use network_library_baseon_c.TcpConnection.{
  TcpConnection, State, disconnected, World, conn, set_state, try_write, keep_rest, send_rest,
  send_bytes_in_loop,
}
use network_library_baseon_c.TcpConnection.Ready.{IsReady, stream}
use network_library_baseon_c.TcpConnection.Arming.{StoredOr, keep_rest-Stored}
use network_library_baseon_c.TcpConnection.Writing.{GaveUp, Wrote, try_write-Wrote}

-- What was sent directly and what waits, in order: bytes are sent directly only if none waits.
split_join :
    (n : ℕ) (a b bytes : List ℕ)
    → (n ≡ 0) ⊎ (b ≡ [])
    → (a ++ take n bytes) ++ (b ++ drop n bytes) ≡ (a ++ b) ++ bytes
split_join n a b bytes (inl e) = rw (e, append-nil a) (sym (append_assoc a b bytes))
split_join n a b bytes (inr e) =
    rw (e, append-nil a, append_assoc a (take n bytes) (drop n bytes), take-append-drop n bytes)

module _ (sys : Sys) {U : Type 0} where
  -- A connection `bytes` later: they have joined its stream, or the peer is gone.
  pub record Sent (c : ℕ) (bytes : List ℕ) (r r' : World sys U) : Type 0 where
    pub ready : IsReady sys c r'
    pub same_fd : (conn sys c r').fd ≡ (conn sys c r).fd
    pub streamed :
        (stream sys c r' ≡ stream sys c r ++ bytes)
        ⊎ ((stream sys c r' ≡ stream sys c r)
            × GaveUp sys (sys.write r.kernel (conn sys c r).fd bytes))
    pub now_disconnected : (conn sys c r').state ≡ disconnected

  abbrev pub SentOr : ℕ → List ℕ → World sys U → Outcome (World sys U) → Type 0
  SentOr c bytes r (ok r') = Sent c bytes r r'
  SentOr c bytes r (err f) = (f ≡ length_error) ⊎ (f ≡ fatal)

  -- The stream of a connection that has sent `a` and holds `b`.
  pub stream_lem :
      (c : ℕ) (r r' : World sys U) (a b : List ℕ)
      → (conn sys c r').fd ≡ (conn sys c r).fd
      → sys.sent r'.kernel (conn sys c r).fd ≡ a
      → content (conn sys c r').output ≡ b
      → stream sys c r' ≡ a ++ b
  stream_lem c r r' a b e f g = rw (e, f, g)

  stored-Sent :
      (c : ℕ) (bytes : List ℕ) (r : World sys U) (n : ℕ) (fault : Bool) (r1 : World sys U)
      → (conn sys c r).state ≡ disconnected
      → Wrote sys c bytes r n fault r1
      → (o : Outcome (World sys U)) → StoredOr sys c (drop n bytes) r1 o
      → SentOr c bytes r o
  stored-Sent c bytes r n fault r1 d w (ok r') a =
      let fd : (conn sys c r').fd ≡ (conn sys c r).fd =
        a.same_fd ∙ ap (λ (t : TcpConnection). t.fd) w.same_conn in
      let sent : sys.sent r'.kernel (conn sys c r).fd
          ≡ sys.sent r.kernel (conn sys c r).fd ++ take n bytes =
        subst (λ (t : TcpConnection). sys.sent r'.kernel t.fd ≡ sys.sent r1.kernel t.fd) w.same_conn
          a.sent
        ∙ w.sent in
      let kept : content (conn sys c r').output ≡ content (conn sys c r).output ++ drop n bytes =
        a.stored ∙ ap (λ (t : TcpConnection). content t.output ++ drop n bytes) w.same_conn in
      record {
        ready = a.ready;
        same_fd = fd;
        streamed = inl (
            stream_lem c r r' _ _ fd sent kept
            ∙ split_join n (sys.sent r.kernel (conn sys c r).fd) (content (conn sys c r).output)
                bytes w.direct);
        now_disconnected = a.same_state ∙ ap (λ (t : TcpConnection). t.state) w.same_conn ∙ d;
      }
  stored-Sent c bytes r n fault r1 d w (err f) a = a

  -- Nothing is left to store, or the peer is gone.
  done-Sent :
      (c : ℕ) (bytes : List ℕ) (r : World sys U) (n : ℕ) (fault : Bool) (r1 : World sys U)
      → (conn sys c r).state ≡ disconnected
      → Wrote sys c bytes r n fault r1
      → (not fault && ltb 0 (length bytes - n)) ≡ false
      → Sent c bytes r r1
  done-Sent c bytes r n fault r1 d w none_left =
      let fd : (conn sys c r1).fd ≡ (conn sys c r).fd =
        ap (λ (t : TcpConnection). t.fd) w.same_conn in
      let kept : content (conn sys c r1).output ≡ content (conn sys c r).output =
        ap (λ (t : TcpConnection). content t.output) w.same_conn in
      let all = stream_lem c r r1 _ _ fd w.sent kept in
      record {
        ready = w.ready;
        same_fd = fd;
        streamed = elim (Bool-cases fault) [
          | inl gone ↦ inr (
            all ∙ rw (w.faultless gone, append-nil (sys.sent r.kernel (conn sys c r).fd)),
            w.gone gone,
          )
          | inr fine ↦
              let short : length bytes ≤ n = ground arith in
              inl (
                all
                ∙ ap (λ t. (sys.sent r.kernel (conn sys c r).fd ++ take n bytes) ++ t)
                    (sym (append-nil (content (conn sys c r).output))
                      ∙ ap (◌++◌ (content (conn sys c r).output)) (sym (drop-all n bytes short)))
                ∙ split_join n (sys.sent r.kernel (conn sys c r).fd) (content (conn sys c r).output)
                    bytes w.direct)
        ];
        now_disconnected = ap (λ (t : TcpConnection). t.state) w.same_conn ∙ d;
      }

  send_rest-Sent :
      EpollCtlLaw sys
      → WriteLaw sys
      → (c : ℕ) (bytes : List ℕ) (r : World sys U) (n : ℕ) (fault : Bool) (r1 : World sys U)
      → length bytes ≤ max_size
      → (conn sys c r).state ≡ disconnected
      → Wrote sys c bytes r n fault r1
      → SentOr c bytes r (send_rest sys c bytes (n, fault, r1))
  unfolding send_rest
  send_rest-Sent ctl law c bytes r n fault r1 h d w =
      elim (Bool-cases (not fault && ltb 0 (length bytes - n))) [
        | inl more ↦ rw more (
            stored-Sent c bytes r n fault r1 d w (keep_rest sys c (drop n bytes) r1) (
              keep_rest-Stored sys ctl law c (drop n bytes) r1 (omega (arith, length-drop n bytes))
                w.ready))
        | inr none_left ↦ rw none_left (done-Sent c bytes r n fault r1 d w none_left)
      ]

  pub set_state-IsReady :
      (c : ℕ) (s : State) (r : World sys U) → IsReady sys c r → IsReady sys c (set_state sys c s r)
  set_state-IsReady c s r v =
      let same = update_self r.app.connections c (record (conn sys c r) { state = s }) in
      record {
        output = rw same v.output;
        registered = rw same v.registered;
        mask = rw same v.mask;
        same_fd = rw same v.same_fd;
        not_wakeup = rw same v.not_wakeup;
        armed = rw same v.armed;
      }

  after_set_state :
      (c : ℕ) (bytes : List ℕ) (r : World sys U) (o : Outcome (World sys U))
      → SentOr c bytes (set_state sys c disconnected r) o
      → SentOr c bytes r o
  after_set_state c bytes r (ok r') s =
      let same = update_self r.app.connections c (record (conn sys c r) { state = disconnected }) in
      record {
        ready = s.ready;
        same_fd = s.same_fd ∙ ap (λ (t : TcpConnection). t.fd) same;
        streamed =
            subst
              (λ (t : TcpConnection).
                (stream sys c r' ≡ (sys.sent r.kernel t.fd ++ content t.output) ++ bytes)
                ⊎ ((stream sys c r' ≡ sys.sent r.kernel t.fd ++ content t.output)
                    × GaveUp sys (sys.write r.kernel t.fd bytes)))
              same s.streamed;
        now_disconnected = s.now_disconnected;
      }
  after_set_state c bytes r (err f) s = s

  -- sendInLoop of at most max_size() bytes on a ready connection keeps it ready and sends or stores
  -- each byte once and in order, behind those that waited: no byte overtakes the output buffer, and
  -- what write(2) does not take is stored with EPOLLOUT asked for. The bytes are given up only if
  -- that write has failed with EPIPE or ECONNRESET. The state is kDisconnected afterwards. It does
  -- not return only for a vector beyond max_size() or an epoll_ctl that is refused.
  pub send_bytes_in_loop-Sent :
      EpollCtlLaw sys
      → WriteLaw sys
      → (c : ℕ) (bytes : List ℕ) (r : World sys U) → length bytes ≤ max_size
      → IsReady sys c r
      → SentOr c bytes r (send_bytes_in_loop sys c bytes r)
  unfolding send_bytes_in_loop
  send_bytes_in_loop-Sent ctl law c bytes r h v =
      let r1 = set_state sys c disconnected r in
      let w = try_write-Wrote sys law c bytes r1 (set_state-IsReady c disconnected r v) in
      after_set_state c bytes r (send_rest sys c bytes (try_write sys c bytes r1)) (
        send_rest-Sent ctl law c bytes r1 (try_write sys c bytes r1).0 (try_write sys c bytes r1).1
          (try_write sys c bytes r1).2 h
          (ap (λ (t : TcpConnection). t.state)
            (update_self r.app.connections c (record (conn sys c r) { state = disconnected })))
          w)
