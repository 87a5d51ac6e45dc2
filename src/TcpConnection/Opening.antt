-- ===== src/TcpConnection/Opening.antt =====
-- connectEstablished: what a connection is when the user hears of it.
use network_library_baseon_c.Base.{
  ℕ, ◌≡◌, ◌⊎◌, inl, inr, refl, sym, ap, ◌∙◌, subst, [], ◌++◌, some, true, Outcome, ok, err, fatal,
  ◌>>=◌, update, update_self,
}
use network_library_baseon_c.Sys.{Sys, EpollCtlLaw}
use network_library_baseon_c.Buffer.Invariant.{content}
use network_library_baseon_c.Channel.{
  Channel, Index, index_new, index_added, index_deleted, tie, is_reading,
}
use network_library_baseon_c.Channel.Events.{
  IsMask, change, reading_on, change_keeps, change-Changed, is_reading-events, reading_some,
}
use network_library_baseon_c.EventLoop.{enable_reading}
use network_library_baseon_c.EventLoop.Watching.{
  Watched, Switched, SwitchedOr, change_channel-Switched,
}
use network_library_baseon_c.Poller.Registered.{IsRegisteredAs, IsRegistered, next_index}
use network_library_baseon_c.Poller.{event_of}
use network_library_baseon_c.TcpConnection.Handling.{
  Handlers, call_callback, connect_established_now,
}
use network_library_baseon_c.TcpConnection.{TcpConnection, connected, World, conn, chan, set_state}
use network_library_baseon_c.TcpConnection.Ready.{IsReady, stream}
use network_library_baseon_c.TcpConnection.Switching.{Unarmed, ArmedOr, changed-Armed}

-- A channel that is added, waits for reading, and is tied.
pub record Listed (d : Channel) : Type 0 where
  pub index : d.index ≡ index_added
  pub reads : is_reading d ≡ true
  pub tied : d.tied ≡ true

-- enableReading makes a channel an added one.
reading_index :
    (i : Index) (d : Channel) → IsMask d.events → next_index i (change reading_on d) ≡ index_added
reading_index index_new d v = refl
reading_index index_deleted d v = refl
reading_index index_added d v = rw (reading_some d v) refl

module _ (sys : Sys) {U : Type 0} where
  -- A connection that is ready, is connected, waits for reading in epoll, and has the stream that it
  -- had.
  pub record Opened (c : ℕ) (r r' : World sys U) : Type 0 where
    pub ready : IsReady sys c r'
    pub opened : (conn sys c r').state ≡ connected
    pub polled :
        sys.interest r'.kernel r'.loop.poller.epollfd (conn sys c r').fd
        ≡ some (event_of (conn sys c r').channel (chan sys c r'))
    pub listed : Listed (chan sys c r')
    pub streamed : stream sys c r' ≡ stream sys c r

  -- The reactor when enableReading is called.
  abbrev tied : ℕ → World sys U → World sys U
  tied c r =
      let r1 = set_state sys c connected r in
      let ptr = (conn sys c r1).channel in
      record r1 { channels = update r1.channels ptr (tie (r1.channels ptr)) }

  tied-conn :
      (c : ℕ) (r : World sys U)
      → conn sys c (tied c r) ≡ record (conn sys c r) { state = connected }
  tied-conn c r = update_self r.app.connections c (record (conn sys c r) { state = connected })

  tied-chan :
      (c : ℕ) (r : World sys U) → chan sys c (tied c r) ≡ record (chan sys c r) { tied = true }
  unfolding tie
  tied-chan c r =
      rw (tied-conn c r)
        (update_self r.channels (conn sys c r).channel (record (chan sys c r) { tied = true }))

  tied-Unarmed : (c : ℕ) (r : World sys U) → Unarmed sys c r → Unarmed sys c (tied c r)
  tied-Unarmed c r v = record {
    output = rw (tied-conn c r) v.output;
    registered =
        subst (λ (t : TcpConnection). Watched sys (tied c r) t.channel) (sym (tied-conn c r))
          (subst (λ (h : Channel). IsRegistered sys r.kernel r.loop.poller (conn sys c r).channel h)
            (sym (
              subst
                (λ (t : TcpConnection).
                  (tied c r).channels t.channel ≡ record (chan sys c r) { tied = true })
                (tied-conn c r) (tied-chan c r)))
            v.registered);
    mask = rw (tied-chan c r) v.mask;
    same_fd = rw (tied-chan c r, tied-conn c r) v.same_fd;
    not_wakeup = rw (tied-conn c r) v.not_wakeup;
  }

  Switched-Listed :
      (c : ℕ) (r r' : World sys U)
      → Unarmed sys c r
      → (chan sys c r).tied ≡ true
      → Switched sys r
          (conn sys c r).channel
          (change reading_on (chan sys c r))
          (next_index (change reading_on (chan sys c r)).index (change reading_on (chan sys c r)))
          r'
      → Listed (r'.channels (conn sys c r).channel)
  Switched-Listed c r r' v on s = record {
    index = s.index ∙ reading_index (change reading_on (chan sys c r)).index (chan sys c r) v.mask;
    reads =
        is_reading-events (r'.channels (conn sys c r).channel) (change reading_on (chan sys c r))
          s.events
        ∙ (change-Changed reading_on (chan sys c r) v.mask).reads;
    tied = s.tied ∙ (change_keeps reading_on (chan sys c r)).2 ∙ on;
  }

  -- What epoll is told of a channel that enableReading has been called on.
  reading_polled :
      (c : ℕ) (r' : World sys U)
      → IsReady sys c r'
      → (chan sys c r').index ≡ index_added
      → sys.interest r'.kernel r'.loop.poller.epollfd (conn sys c r').fd
        ≡ some (event_of (conn sys c r').channel (chan sys c r'))
  reading_polled c r' v e =
      subst
        (λ fd.
          sys.interest r'.kernel r'.loop.poller.epollfd fd
          ≡ some (event_of (conn sys c r').channel (chan sys c r')))
        v.same_fd
        (subst
          (λ i.
            IsRegisteredAs sys i r'.kernel r'.loop.poller (conn sys c r').channel (chan sys c r').fd
              (event_of (conn sys c r').channel (chan sys c r')))
          e v.registered).1

  -- The callback is called on a connection that is open, or the process has ended before.
  abbrev pub OpenedOr :
      (ℕ → World sys U → Outcome (World sys U)) → ℕ → World sys U → Outcome (World sys U) → Type 0
  OpenedOr callback c r o =
      (o ≡ err fatal) ⊎ ((r' : World sys U) × (o ≡ callback c r') × Opened c r r')

  module _ (handlers : Handlers (World sys U)) where
    -- connectEstablished on a connection with nothing to send, whose channel is registered as its
    -- index says and has a mask of the four: the process ends for an epoll_ctl that is refused, or
    -- the connection callback is called on a connection that is ready and connected, whose
    -- channel is tied, waits for reading, and stands so in the poller and in epoll, with the stream
    -- it had; the result is that of the call.
    pub connect_established_now-Opened :
        EpollCtlLaw sys
        → (c : ℕ) (r : World sys U) → Unarmed sys c r
        → content (conn sys c r).output ≡ []
        → OpenedOr
            (call_callback handlers.connection_callback)
            c
            r
            (connect_established_now sys handlers c r)
    unfolding connect_established_now enable_reading
    connect_established_now-Opened ctl c r v empty =
        by_enable (enable_reading sys (conn sys c (tied c r)).channel (tied c r))
          (changed-Armed sys ctl reading_on c (tied c r) (tied-Unarmed c r v)
            (inl (rw (tied-conn c r) empty)))
          (change_channel-Switched sys ctl reading_on (tied c r) (conn sys c (tied c r)).channel
            (tied-Unarmed c r v).registered)
      where
        by_enable :
            (o : Outcome (World sys U))
            → ArmedOr sys c (tied c r) o
            → SwitchedOr sys
                (tied c r)
                (conn sys c (tied c r)).channel
                (change reading_on (chan sys c (tied c r)))
                o
            → OpenedOr
                (call_callback handlers.connection_callback)
                c
                r
                (o >>= λ r2. call_callback handlers.connection_callback c r2)
        by_enable (ok r2) a s =
            let same = a.same_conn ∙ tied-conn c r in
            let at_ptr =
              Switched-Listed c (tied c r) r2 (tied-Unarmed c r v)
                (ap (λ (d : Channel). d.tied) (tied-chan c r)) s in
            let listed : Listed (chan sys c r2) =
              subst (λ (t : TcpConnection). Listed (r2.channels t.channel)) (sym a.same_conn)
                at_ptr in
            inr (
              r2,
              refl,
              record {
                ready = a.ready;
                opened = ap (λ (t : TcpConnection). t.state) same;
                listed = listed;
                polled = reading_polled c r2 a.ready listed.index;
                streamed =
                    subst
                      (λ (t : TcpConnection).
                        sys.sent r2.kernel t.fd ++ content t.output ≡ stream sys c r)
                      (sym same)
                      (ap (λ s. s ++ content (conn sys c r).output)
                        (subst
                          (λ (t : TcpConnection). sys.sent r2.kernel t.fd ≡ sys.sent r.kernel t.fd)
                          (tied-conn c r) a.sent));
              },
            )
        by_enable (err f) a s = inl (ap (λ g. err g) a)
