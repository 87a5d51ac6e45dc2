-- ===== src/Channel/Dispatch.antt =====
-- handleEvent of a channel, against the list of the callbacks that its events ask for.
use network_library_baseon_c.Base.{
  ℕ, ◌≡◌, refl, sym, ◌∙◌, inl, inr, Bool, true, false, not, ◌&&◌, List, [], ◌∷◌, Option, none, some,
  Outcome, ok, err, ◌>>=◌, Bool-cases, if◌then◌else◌,
}
use network_library_baseon_c.Channel.{
  Channel, Callbacks, has_bits, epollin, epollhup, epollerr, epollout, read_event, call_if, at_time,
  handle_event_with_guard, handle_event,
}

-- The callbacks of a channel.
pub data Kind : Type 0 where
  on_close on_error on_read on_write : Kind

-- Whether a callback is asked for.
abbrev pub asked : Kind → ℕ → Bool
asked on_close revents = has_bits revents epollhup && not (has_bits revents epollin)
asked on_error revents = has_bits revents epollerr
asked on_read revents = has_bits revents read_event
asked on_write revents = has_bits revents epollout

-- Those of a list that are.
pub select : ℕ → List Kind → List Kind
select revents [] = []
select revents (k ∷ ks) = let rest = select revents ks in if asked k revents then k ∷ rest else rest

-- In the order in which a channel serves them.
abbrev pub all_kinds : List Kind
all_kinds = on_close ∷ on_error ∷ on_read ∷ on_write ∷ []

bind_cong :
    {W : Type 0} (o : Outcome W) (f g : W → Outcome W)
    → ((w : W) → f w ≡ g w)
    → (o >>= f) ≡ (o >>= g)
bind_cong (ok w) f g h = h w
bind_cong (err x) f g h = refl

pub bind_ok :
    {W : Type 0} (o : Outcome W) (f : W → Outcome W) → ((w : W) → f w ≡ ok w) → (o >>= f) ≡ o
bind_ok (ok w) f h = h w
bind_ok (err x) f h = refl

module _ {W : Type 0} (cb : Callbacks W) (time : ℕ) where
  abbrev pub callback_of : Kind → Option (W → Outcome W)
  callback_of on_close = cb.close_callback
  callback_of on_error = cb.error_callback
  callback_of on_read = at_time time cb.read_callback
  callback_of on_write = cb.write_callback

  -- Calls one after the other; one that is not set is passed over, and a fault ends it.
  pub call_each : List Kind → W → Outcome W
  call_each [] w = ok w
  call_each (k ∷ ks) w = call_if true (callback_of k) w >>= call_each ks

  call_select :
      (revents : ℕ) (k : Kind) (ks : List Kind) (w : W)
      → call_each (select revents (k ∷ ks)) w
        ≡ (call_if (asked k revents) (callback_of k) w >>= call_each (select revents ks))
  unfolding call_each select
  call_select revents k ks w = elim (Bool-cases (asked k revents)) [
    | inl hit ↦ rw (hit, call_each) refl
    | inr miss ↦ rw (miss, call_each) refl
  ]

  guard_lem :
      (revents : ℕ) (w : W)
      → handle_event_with_guard cb revents time w ≡ call_each (select revents all_kinds) w
  unfolding handle_event_with_guard call_each select
  guard_lem revents w =
      bind_cong (call_if (asked on_close revents) cb.close_callback w) _ _ (λ w1.
        bind_cong (call_if (asked on_error revents) cb.error_callback w1) _ _ (λ w2.
          bind_cong (call_if (asked on_read revents) (callback_of on_read) w2) _ _ (λ w3.
            sym (
              bind_ok (call_if (asked on_write revents) cb.write_callback w3) (call_each [])
                (λ w4. refl))
            ∙ sym (call_select revents on_write [] w3))
          ∙ sym (call_select revents on_read (on_write ∷ []) w2))
        ∙ sym (call_select revents on_error (on_read ∷ on_write ∷ []) w1))
      ∙ sym (call_select revents on_close (on_error ∷ on_read ∷ on_write ∷ []) w)

  -- handleEvent of a channel that is tied to an object that is gone calls nothing. Else it calls, in
  -- this order and each at most once, the close callback for EPOLLHUP without EPOLLIN, the error
  -- callback for EPOLLERR, the read callback for EPOLLIN or EPOLLPRI, and the write callback for
  -- EPOLLOUT: those that are set, until one faults.
  pub handle_event_lem :
      (c : Channel) (alive : Bool) (w : W)
      → handle_event cb c alive time w
        ≡ call_each (if c.tied && not alive then [] else select c.revents all_kinds) w
  unfolding handle_event call_each
  handle_event_lem c alive w = elim (Bool-cases c.tied) [
    | inl tied ↦ elim (Bool-cases alive) [
      | inl here ↦ rw (tied, here) (guard_lem c.revents w)
      | inr gone ↦ rw (tied, gone) refl
    ]
    | inr free ↦ rw free (guard_lem c.revents w)
  ]

nothing_to_call : {W : Type 0} (b : Bool) (w : W) → call_if b none w ≡ ok w
nothing_to_call true w = refl
nothing_to_call false w = refl

-- A channel with nothing but a read callback, tied to no object.
pub reader_lem :
    {W : Type 0} (f : ℕ → W → Outcome W) (c : Channel) (alive : Bool) (time : ℕ) (w : W)
    → c.tied ≡ false
    → handle_event
        (record {
          read_callback = some f;
          write_callback = none;
          close_callback = none;
          error_callback = none;
        })
        c
        alive
        time
        w
      ≡ call_if (has_bits c.revents read_event) (some (f time)) w
unfolding handle_event handle_event_with_guard
reader_lem f c alive time w free =
    rw
      (
        free,
        nothing_to_call (has_bits c.revents epollhup && not (has_bits c.revents epollin)) w,
        nothing_to_call (has_bits c.revents epollerr) w,
      )
      (bind_ok (call_if (has_bits c.revents read_event) (some (f time)) w)
        (call_if (has_bits c.revents epollout) none)
        (λ w1. nothing_to_call (has_bits c.revents epollout) w1))

-- A channel that is not to be closed and has no error, tied to an object that is alive.
pub read_write_lem :
    {W : Type 0} (cb : Callbacks W) (c : Channel) (time : ℕ) (w : W)
    → (has_bits c.revents epollhup && not (has_bits c.revents epollin)) ≡ false
    → has_bits c.revents epollerr ≡ false
    → handle_event cb c true time w ≡ (
        call_if (has_bits c.revents read_event) (at_time time cb.read_callback) w
        >>= call_if (has_bits c.revents epollout) cb.write_callback)
unfolding handle_event handle_event_with_guard
read_write_lem cb c time w up fine = elim (Bool-cases c.tied) [
  | inl tied ↦ rw (tied, up, fine) refl
  | inr free ↦ rw (free, up, fine) refl
]
