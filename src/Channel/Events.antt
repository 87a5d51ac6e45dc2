-- ===== src/Channel/Events.antt =====
-- The event mask of a channel: what the enable and disable functions make of it.
use network_library_baseon_c.Base.{ℕ, ◌≡◌, ◌⊎◌, refl, Bool, true, false, arith}
use network_library_baseon_c.Channel.{
  Channel, is_none_event, is_writing, is_reading, with_reading, without_reading, with_writing,
  without_writing, without_events,
}

-- The masks that a channel can have: nothing, reading, writing, both.
abbrev pub IsMask : ℕ → Type 0
IsMask m = (m ≡ 0) ⊎ (m ≡ 3) ⊎ (m ≡ 4) ⊎ (m ≡ 7)

-- The change that an enable or disable function makes.
pub data Change : Type 0 where
  reading_on reading_off writing_on writing_off all_off : Change

abbrev pub change : Change → Channel → Channel
change reading_on c = with_reading c
change reading_off c = without_reading c
change writing_on c = with_writing c
change writing_off c = without_writing c
change all_off c = without_events c

-- What the two flags of a mask are after a change.
abbrev pub reads_after : Change → Bool → Bool
reads_after reading_on r = true
reads_after reading_off r = false
reads_after writing_on r = r
reads_after writing_off r = r
reads_after all_off r = false

abbrev pub writes_after : Change → Bool → Bool
writes_after reading_on w = w
writes_after reading_off w = w
writes_after writing_on w = true
writes_after writing_off w = false
writes_after all_off w = false

-- The mask after a change is one of the four, with the flags that the change asks for.
pub record Changed (ch : Change) (c : Channel) : Type 0 where
  pub mask : IsMask (change ch c).events
  pub reads : is_reading (change ch c) ≡ reads_after ch (is_reading c)
  pub writes : is_writing (change ch c) ≡ writes_after ch (is_writing c)

-- The enable and disable functions keep the mask one of the four, and each sets or clears its own
-- flag and leaves the other; disableAll clears both.
pub change-Changed : (ch : Change) (c : Channel) → IsMask c.events → Changed ch c
unfolding is_writing is_reading with_reading without_reading with_writing without_writing
    without_events
change-Changed reading_on c h = ground arith
change-Changed reading_off c h = ground arith
change-Changed writing_on c h = ground arith
change-Changed writing_off c h = ground arith
change-Changed all_off c h = ground arith

-- A change is one of the mask alone.
pub change_keeps :
    (ch : Change) (c : Channel)
    → ((change ch c).index ≡ c.index) × ((change ch c).fd ≡ c.fd) × ((change ch c).tied ≡ c.tied)
unfolding with_reading without_reading with_writing without_writing without_events
change_keeps reading_on c = (refl, refl, refl)
change_keeps reading_off c = (refl, refl, refl)
change_keeps writing_on c = (refl, refl, refl)
change_keeps writing_off c = (refl, refl, refl)
change_keeps all_off c = (refl, refl, refl)

pub is_writing-events : (c d : Channel) → c.events ≡ d.events → is_writing c ≡ is_writing d
unfolding is_writing
is_writing-events c d e = rw e

pub is_reading-events : (c d : Channel) → c.events ≡ d.events → is_reading c ≡ is_reading d
unfolding is_reading
is_reading-events c d e = rw e

-- A channel that reads waits for something.
pub reading_some : (c : Channel) → IsMask c.events → is_none_event (change reading_on c) ≡ false
unfolding is_none_event with_reading
reading_some c h = ground arith
