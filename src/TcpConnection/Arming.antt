-- ===== src/TcpConnection/Arming.antt =====
-- The end of sendInLoop, which stores what was not written and asks for EPOLLOUT.
use network_library_baseon_c.Base.{
  ℕ, ◌+◌, ◌≤◌, ◌≡◌, ◌⊎◌, inl, inr, refl, ap, ◌∙◌, subst, ◌&&◌, List, ◌++◌, Outcome, ok, err, fatal,
  length_error, ◌>>=◌, length, update_self, Bool-cases, ltb, leb,
}
use network_library_baseon_c.Sys.{Sys, WriteLaw, EpollCtlLaw}
use network_library_baseon_c.Buffer.{Buffer, readable_bytes, append, max_size}
use network_library_baseon_c.Buffer.Invariant.{IsValid, content}
use network_library_baseon_c.Buffer.Queue.{Appended, append-Appended}
use network_library_baseon_c.Channel.{is_writing}
use network_library_baseon_c.Channel.Events.{writing_on}
use network_library_baseon_c.EventLoop.{enable_writing}
use network_library_baseon_c.TcpConnection.{
  TcpConnection, high_water, World, conn, chan, set_output, queue_here, arm, store, keep_rest,
}
use network_library_baseon_c.TcpConnection.Switching.{
  Unarmed, ArmedOr, unchanged-Armed, changed-Armed,
}
use network_library_baseon_c.TcpConnection.Ready.{IsReady, Same, queue_here-Same}

module _ (sys : Sys) {U : Type 0} where
  arm-Armed :
      EpollCtlLaw sys → (c : ℕ) (r : World sys U) → Unarmed sys c r → ArmedOr sys c r (arm sys c r)
  unfolding arm enable_writing
  arm-Armed ctl c r v = elim (Bool-cases (is_writing (chan sys c r))) [
    | inl on ↦ rw on (unchanged-Armed sys c r v (inr on))
    | inr off ↦ rw off (changed-Armed sys ctl writing_on c r v (inr refl))
  ]

  -- `rest` has gone to the output buffer, and the channel waits for EPOLLOUT.
  pub record Stored (c : ℕ) (rest : List ℕ) (r r' : World sys U) : Type 0 where
    pub ready : IsReady sys c r'
    pub same_fd : (conn sys c r').fd ≡ (conn sys c r).fd
    pub sent : sys.sent r'.kernel (conn sys c r).fd ≡ sys.sent r.kernel (conn sys c r).fd
    pub stored : content (conn sys c r').output ≡ content (conn sys c r).output ++ rest
    pub same_state : (conn sys c r').state ≡ (conn sys c r).state

  abbrev pub StoredOr : ℕ → List ℕ → World sys U → Outcome (World sys U) → Type 0
  StoredOr c rest r (ok r') = Stored c rest r r'
  StoredOr c rest r (err f) = (f ≡ length_error) ⊎ (f ≡ fatal)

  -- A connection that is ready but for `armed`.
  arm-Stored :
      EpollCtlLaw sys
      → WriteLaw sys
      → (c : ℕ) (rest : List ℕ) (r : World sys U) (output : Buffer) → IsReady sys c r
      → IsValid output
      → content output ≡ content (conn sys c r).output ++ rest
      → StoredOr c rest r (arm sys c (set_output sys c output r))
  arm-Stored ctl law c rest r output v valid e =
      let same = update_self r.app.connections c (record (conn sys c r) { output = output }) in
      let u : Unarmed sys c (set_output sys c output r) = record {
        output = rw same valid;
        registered = rw same v.registered;
        mask = rw same v.mask;
        same_fd = rw same v.same_fd;
        not_wakeup = rw same v.not_wakeup;
      } in
      stored_by (arm sys c (set_output sys c output r))
        (arm-Armed ctl c (set_output sys c output r) u)
    where
      stored_by :
          (o : Outcome (World sys U))
          → ArmedOr sys c (set_output sys c output r) o
          → StoredOr c rest r o
      stored_by (ok r') a =
          let same =
            a.same_conn
            ∙ update_self r.app.connections c (record (conn sys c r) { output = output }) in
          record {
            ready = a.ready;
            same_fd = ap (λ (t : TcpConnection). t.fd) same;
            sent =
                subst (λ (t : TcpConnection). sys.sent r'.kernel t.fd ≡ sys.sent r.kernel t.fd)
                  (update_self r.app.connections c (record (conn sys c r) { output = output }))
                  a.sent;
            stored = ap (λ (t : TcpConnection). content t.output) same ∙ e;
            same_state = ap (λ (t : TcpConnection). t.state) same;
          }
      stored_by (err f) a = inr a

  store-Stored :
      EpollCtlLaw sys
      → WriteLaw sys
      → (c : ℕ) (rest : List ℕ) (r : World sys U) → length rest ≤ max_size
      → IsReady sys c r
      → StoredOr c rest r (store sys c rest r)
  unfolding store
  store-Stored ctl law c rest r h v =
      by_append (append (conn sys c r).output rest)
        (append-Appended (conn sys c r).output rest v.output h)
    where
      by_append :
          (o : Outcome Buffer)
          → Appended (conn sys c r).output rest o
          → StoredOr c rest r (o >>= λ output. arm sys c (set_output sys c output r))
      by_append (ok output) x = arm-Stored ctl law c rest r output v x.valid x.extended
      by_append (err f) x = inl x.0

  Stored-Same :
      (c : ℕ) (rest : List ℕ) (r r1 : World sys U) (o : Outcome (World sys U))
      → Same sys c r r1
      → StoredOr c rest r1 o
      → StoredOr c rest r o
  Stored-Same c rest r r1 (ok r') s a = record {
    ready = a.ready;
    same_fd = a.same_fd ∙ ap (λ (t : TcpConnection). t.fd) s.same_conn;
    sent =
        subst (λ (t : TcpConnection). sys.sent r'.kernel t.fd ≡ sys.sent r1.kernel t.fd) s.same_conn
          a.sent
        ∙ s.same_sent;
    stored = a.stored ∙ ap (λ (t : TcpConnection). content t.output ++ rest) s.same_conn;
    same_state = a.same_state ∙ ap (λ (t : TcpConnection). t.state) s.same_conn;
  }
  Stored-Same c rest r r1 (err f) s a = a

  pub keep_rest-Stored :
      EpollCtlLaw sys
      → WriteLaw sys
      → (c : ℕ) (rest : List ℕ) (r : World sys U) → length rest ≤ max_size
      → IsReady sys c r
      → StoredOr c rest r (keep_rest sys c rest r)
  unfolding keep_rest
  keep_rest-Stored ctl law c rest r h v =
      let old_len = readable_bytes (conn sys c r).output in
      let task = high_water c (old_len + length rest) in
      let s = queue_here-Same sys law c task r v in
      elim (Bool-cases (
        leb (conn sys c r).high_water_mark (old_len + length rest)
        && ltb old_len (conn sys c r).high_water_mark
        && (conn sys c r).has_high_water)) [
          | inl high ↦ rw high (
              Stored-Same c rest r (queue_here sys task r)
                (store sys c rest (queue_here sys task r)) s
                (store-Stored ctl law c rest (queue_here sys task r) h s.ready))
          | inr low ↦ rw low (store-Stored ctl law c rest r h v)
        ]
