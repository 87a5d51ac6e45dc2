-- ===== src/EventLoop.antt =====
-- src/EventLoop.h and src/EventLoop.cc: the event loop of a thread, its queue of functors, and the
-- way of a channel to the poller (Channel::update, remove and the enable functions of Channel.h).
-- A `Reactor` is what the thread of a loop works on: the EventLoop, the kernel, the channels by
-- address, and the state `app` of all else. A functor is a value of `F`, and `call` says what it
-- does. The number of the calling thread is an argument, `tid`.
pub mod Creation
pub mod Dropping
pub mod Pending
pub mod Polling
pub mod Watching
pub mod Running
pub mod Interleave
pub mod Wakeups
use network_library_baseon_c.Base.{
  ℕ, zero, suc, Bool, true, false, not, ◌||◌, List, [], ◌∷◌, ◌++◌, Option, none, some, Outcome, ok,
  err, fatal, dangling, ◌>>=◌, update, ◌==◌, if◌then◌else◌,
}
use network_library_baseon_c.Sys.{Sys, CountResult, count, failed}
use network_library_baseon_c.Channel.{
  Channel, new_channel, with_reading, without_reading, with_writing, without_writing,
  without_events,
}
use network_library_baseon_c.Poller.{Poller, Polled, new_poller}
use network_library_baseon_c.Poller

abbrev pub poll_time_ms : ℕ
poll_time_ms = 100000

pub record EventLoop (F : Type 0) : Type 0 where
  pub looping : Bool
  pub quit : Bool
  pub thread_id : ℕ
  pub poll_return_time : ℕ
  pub poller : Poller
  pub wakeup_fd : ℕ
  pub wakeup_channel : ℕ  -- its address
  pub active_channels : List ℕ
  pub calling_pending_functors : Bool
  pub pending_functors : List F

pub record Reactor (sys : Sys) (F S : Type 0) : Type 0 where
  pub loop : EventLoop F
  pub kernel : sys.Kernel
  pub channels : ℕ → Channel
  pub app : S

-- The eight bytes of the uint64_t 1.
abbrev pub one_bytes : List ℕ
one_bytes = 1 ∷ 0 ∷ 0 ∷ 0 ∷ 0 ∷ 0 ∷ 0 ∷ 0 ∷ []

module _ (sys : Sys) {F S : Type 0} where
  -- A count other than eight is logged.
  unfoldable pub wakeup : Reactor sys F S → Reactor sys F S
  wakeup r = record r { kernel = (sys.write r.kernel r.loop.wakeup_fd one_bytes).1 }

  -- The read callback of the wakeup channel.
  pub handle_read : Reactor sys F S → Reactor sys F S
  handle_read r = record r { kernel = (sys.read r.kernel r.loop.wakeup_fd 8).1 }

  unfoldable pub is_in_loop_thread : ℕ → Reactor sys F S → Bool
  is_in_loop_thread tid r = r.loop.thread_id == tid

  push_functor : F → Reactor sys F S → Reactor sys F S
  push_functor f r = record r {
    loop = record (r.loop) { pending_functors = r.loop.pending_functors ++ (f ∷ []) };
  }

  unfoldable pub queue_in_loop : ℕ → F → Reactor sys F S → Reactor sys F S
  unfolding push_functor
  queue_in_loop tid f r =
      let r' = push_functor f r in
      if not (is_in_loop_thread tid r) || r.loop.calling_pending_functors then wakeup r' else r'

  -- `now` is what the functor does where it is called at once.
  unfoldable pub run_in_loop :
      ℕ
      → F
      → (Reactor sys F S → Outcome (Reactor sys F S))
      → Reactor sys F S
      → Outcome (Reactor sys F S)
  run_in_loop tid f now r = if is_in_loop_thread tid r then now r else ok (queue_in_loop tid f r)

  unfoldable pub quit : ℕ → Reactor sys F S → Reactor sys F S
  quit tid r =
      let r' = record r { loop = record (r.loop) { quit = true } } in
      if not (is_in_loop_thread tid r) then wakeup r' else r'

  -- What the poller hands back of the channel at `ptr`.
  abbrev with_polled : Reactor sys F S → ℕ → Channel × Poller × sys.Kernel → Reactor sys F S
  with_polled r ptr (c, p, k) = record r {
    loop = record (r.loop) { poller = p };
    channels = update r.channels ptr c;
    kernel = k;
  }

  unfoldable pub update_channel : ℕ → Reactor sys F S → Outcome (Reactor sys F S)
  update_channel ptr r = do
    out ← Poller.update_channel sys r.kernel r.loop.poller ptr (r.channels ptr)
    ok (with_polled r ptr out)

  unfoldable pub remove_channel : ℕ → Reactor sys F S → Outcome (Reactor sys F S)
  remove_channel ptr r = do
    out ← Poller.remove_channel sys r.kernel r.loop.poller ptr (r.channels ptr)
    ok (with_polled r ptr out)

  pub has_channel : ℕ → Reactor sys F S → Bool
  has_channel ptr r = Poller.has_channel r.loop.poller ptr (r.channels ptr)

  -- A change of the channel's mask, and Channel::update.
  abbrev pub change_channel : (Channel → Channel) → ℕ → Reactor sys F S → Outcome (Reactor sys F S)
  change_channel change ptr r =
      update_channel ptr (record r { channels = update r.channels ptr (change (r.channels ptr)) })

  unfoldable pub enable_reading : ℕ → Reactor sys F S → Outcome (Reactor sys F S)
  enable_reading = change_channel with_reading

  pub disable_reading : ℕ → Reactor sys F S → Outcome (Reactor sys F S)
  disable_reading = change_channel without_reading

  unfoldable pub enable_writing : ℕ → Reactor sys F S → Outcome (Reactor sys F S)
  enable_writing = change_channel with_writing

  unfoldable pub disable_writing : ℕ → Reactor sys F S → Outcome (Reactor sys F S)
  disable_writing = change_channel without_writing

  unfoldable pub disable_all : ℕ → Reactor sys F S → Outcome (Reactor sys F S)
  disable_all = change_channel without_events

  -- The functors that were swapped out, in order.
  unfoldable pub call_all :
      (F → Reactor sys F S → Outcome (Reactor sys F S))
      → List F
      → Reactor sys F S
      → Outcome (Reactor sys F S)
  call_all call [] r = ok r
  call_all call (f ∷ fs) r = call f r >>= call_all call fs

  unfoldable pub do_pending_functors :
      (F → Reactor sys F S → Outcome (Reactor sys F S))
      → Reactor sys F S
      → Outcome (Reactor sys F S)
  do_pending_functors call r = do
    let functors = r.loop.pending_functors
    r' ← call_all call functors (record r {
      loop = record (r.loop) { calling_pending_functors = true; pending_functors = [] };
    })
    ok (record r' { loop = record (r'.loop) { calling_pending_functors = false } })

  -- poller_->poll on the cleared list.
  pub poll_channels : Reactor sys F S → Reactor sys F S
  poll_channels r =
      let out = Poller.poll sys r.kernel r.loop.poller poll_time_ms r.channels [] in
      record r {
        loop = record (r.loop) {
          poll_return_time = out.now;
          poller = out.poller;
          active_channels = out.active;
        };
        kernel = out.kernel;
        channels = out.heap;
      }

  -- channel->handleEvent for the active channels.
  unfoldable pub handle_active :
      (ℕ → ℕ → Reactor sys F S → Outcome (Reactor sys F S))
      → List ℕ
      → ℕ
      → Reactor sys F S
      → Outcome (Reactor sys F S)
  handle_active handle [] time r = ok r
  handle_active handle (ptr ∷ ptrs) time r = handle ptr time r >>= handle_active handle ptrs time

  module _ (handle : ℕ → ℕ → Reactor sys F S → Outcome (Reactor sys F S))
      (call : F → Reactor sys F S → Outcome (Reactor sys F S)) where
    -- One round of the while loop.
    unfoldable pub loop_once : Reactor sys F S → Outcome (Reactor sys F S)
    unfolding poll_channels
    loop_once r = do
      let polled = poll_channels r
      r' ← handle_active handle polled.loop.active_channels polled.loop.poll_return_time polled
      do_pending_functors call r'

    -- The while loop; `none` means that the rounds ran out.
    pub loop_rounds : ℕ → Reactor sys F S → Outcome (Option (Reactor sys F S))
    loop_rounds zero r = ok none
    loop_rounds (suc n) r = elim r.loop.quit [
      | true ↦ ok (some (record r { loop = record (r.loop) { looping = false } }))
      | false ↦ loop_once r >>= loop_rounds n
    ]

    pub loop : ℕ → Reactor sys F S → Outcome (Option (Reactor sys F S))
    loop n r = loop_rounds n (record r { loop = record (r.loop) { looping = true; quit = false } })
