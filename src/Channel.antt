-- ===== src/Channel.antt =====
-- src/Channel.h and src/Channel.cc: the events that an fd waits for, those that have happened, and
-- the calls of the callbacks. Channel::update and remove stand in EventLoop, since they go
-- through the EventLoop.
-- The masks are numbers, and their bits those of sys/epoll.h. `index_` holds only the three values
-- that EPollPoller.cc names. `tie_.lock()` is the parameter `alive`: it says whether the tied
-- object still exists when the event is handled.
pub mod Events
pub mod Dispatch
use network_library_baseon_c.Base.{
  ℕ, ◌-◌, ◌^◌, Bool, true, false, not, ◌&&◌, Option, none, some, Outcome, ok, ◌>>=◌, ◌==◌,
  if◌then◌else◌, bit_and, bit_or,
}

abbrev pub epollin : ℕ
epollin = 0x001

abbrev pub epollpri : ℕ
epollpri = 0x002

abbrev pub epollout : ℕ
epollout = 0x004

abbrev pub epollerr : ℕ
epollerr = 0x008

abbrev pub epollhup : ℕ
epollhup = 0x010

abbrev pub none_event : ℕ
none_event = 0

abbrev pub read_event : ℕ
read_event = bit_or epollin epollpri

abbrev pub write_event : ℕ
write_event = epollout

-- kNew, kAdded and kDeleted.
pub data Index : Type 0 where
  index_new index_added index_deleted : Index

pub record Channel : Type 0 where
  pub fd : ℕ
  pub events : ℕ
  pub revents : ℕ
  pub index : Index
  pub tied : Bool

unfoldable pub new_channel : ℕ → Channel
new_channel fd = record { fd = fd; events = 0; revents = 0; index = index_new; tied = false }

unfoldable pub tie : Channel → Channel
tie c = record c { tied = true }

-- `mask & bits`, as a condition.
abbrev pub has_bits : ℕ → ℕ → Bool
has_bits mask bits = not (bit_and mask bits == 0)

-- `~bits` of a 32-bit int.
abbrev pub complement : ℕ → ℕ
complement bits = 2 ^ 32 - 1 - bits

pub is_none_event : Channel → Bool
is_none_event c = c.events == none_event

unfoldable pub is_writing : Channel → Bool
is_writing c = has_bits c.events write_event

pub is_reading : Channel → Bool
is_reading c = has_bits c.events read_event

-- The masks that enableReading, disalbeReading, enableWriting and disableWriting store.
unfoldable pub with_reading : Channel → Channel
with_reading c = record c { events = bit_or c.events read_event }

pub without_reading : Channel → Channel
without_reading c = record c { events = bit_and c.events (complement read_event) }

pub with_writing : Channel → Channel
with_writing c = record c { events = bit_or c.events write_event }

pub without_writing : Channel → Channel
without_writing c = record c { events = bit_and c.events (complement write_event) }

unfoldable pub without_events : Channel → Channel
without_events c = record c { events = none_event }

-- The four callbacks, as actions on a state; `none` is an empty std::function. The read callback
-- takes the receive time.
pub record Callbacks (W : Type 0) : Type 0 where
  pub read_callback : Option (ℕ → W → Outcome W)
  pub write_callback : Option (W → Outcome W)
  pub close_callback : Option (W → Outcome W)
  pub error_callback : Option (W → Outcome W)

module _ {W : Type 0} where
  -- Calls a callback if the condition holds and the callback is set.
  abbrev pub call_if : Bool → Option (W → Outcome W) → W → Outcome W
  call_if false cb w = ok w
  call_if true none w = ok w
  call_if true (some f) w = f w

  abbrev pub at_time : ℕ → Option (ℕ → W → Outcome W) → Option (W → Outcome W)
  at_time t none = none
  at_time t (some f) = some (f t)

  -- `revents` is what poll has stored: no callback changes it.
  unfoldable pub handle_event_with_guard : Callbacks W → ℕ → ℕ → W → Outcome W
  handle_event_with_guard cb revents time w = do
    w1 ← call_if (has_bits revents epollhup && not (has_bits revents epollin)) cb.close_callback w
    w2 ← call_if (has_bits revents epollerr) cb.error_callback w1
    w3 ← call_if (has_bits revents read_event) (at_time time cb.read_callback) w2
    call_if (has_bits revents epollout) cb.write_callback w3

  unfoldable pub handle_event : Callbacks W → Channel → Bool → ℕ → W → Outcome W
  handle_event cb c alive time w =
      if c.tied
      then if alive then handle_event_with_guard cb c.revents time w else ok w
      else handle_event_with_guard cb c.revents time w
