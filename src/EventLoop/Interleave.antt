-- ===== src/EventLoop/Interleave.antt =====
-- queueInLoop from other threads while the loop thread polls, handles events and calls functors.
-- The loop thread and the others take turns, one action at a time. An action of another thread is
-- either the push_back under the mutex or the write to the eventfd behind it; the actions of the
-- loop thread follow EventLoop::loop and doPendingFunctors. One that is not enabled does nothing.
-- The runs begin at the first poll, with nothing queued: what the loop's own thread queues before loop(),
-- for which it writes no wakeup, is left out.
use network_library_baseon_c.Base.{
  ℕ, ◌+◌, ◌-◌, ◌<◌, ◌≡◌, ◌⊎◌, inr, sym, Bool, true, false, List, [], ◌∷◌, ◌++◌, append-nil,
  append_assoc, arith, ltb, if◌then◌else◌,
}

-- Where the loop thread is: blocked in poll, in the handlers of the active channels, between the
-- setting of callingPendingFunctors_ and the swap, or in the functors that it has swapped out.
pub data Phase : Type 0 where
  polling handling swapping calling : Phase

pub record Machine (F : Type 0) : Type 0 where
  pub phase : Phase
  pub pending : List F
  pub running : List F
  pub wakeups : ℕ  -- the counter of the eventfd
  pub pushed : ℕ  -- other threads between push_back and wakeup()
  pub queued : List F  -- all that was ever queued, in order
  pub called : List F  -- all that was ever called, in order

pub data Action (F : Type 0) : Type 0 where
  other_push : F → Action F
  other_wakeup : Action F
  self_queue : F → Action F
  poll_returns : Bool → Action F
  read_wakeup : Action F
  set_calling : Action F
  swap_functors : Action F
  call_functor : Action F
  clear_calling : Action F

-- Whether callingPendingFunctors_ is set.
abbrev pub is_calling : Phase → Bool
is_calling polling = false
is_calling handling = false
is_calling swapping = true
is_calling calling = true

module _ {F : Type 0} where
  -- pendingFunctors_.emplace_back
  abbrev push : F → Machine F → Machine F
  push f m = record m { pending = m.pending ++ (f ∷ []); queued = m.queued ++ (f ∷ []) }

  -- wakeup()
  abbrev wake : Machine F → Machine F
  wake m = record m { wakeups = m.wakeups + 1 }

  -- queueInLoop in the loop's own thread: from a handler, or from a functor that it calls.
  self_queue_in : Phase → F → Machine F → Machine F
  self_queue_in polling f m = m
  self_queue_in handling f m = if is_calling handling then wake (push f m) else push f m
  self_queue_in swapping f m = m
  self_queue_in calling f m = if is_calling calling then wake (push f m) else push f m

  -- poll returns for a wakeup, or for another channel or its timeout.
  returns_in : Phase → Bool → Machine F → Machine F
  returns_in polling true m = if ltb 0 m.wakeups then record m { phase = handling } else m
  returns_in polling false m = record m { phase = handling }
  returns_in _ b m = m

  -- EventLoop::handleRead: read(2) on an eventfd sets its counter to 0.
  read_in : Phase → Machine F → Machine F
  read_in handling m = record m { wakeups = 0 }
  read_in _ m = m

  -- callingPendingFunctors_ = true
  set_in : Phase → Machine F → Machine F
  set_in handling m = record m { phase = swapping }
  set_in _ m = m

  -- functors.swap(pendingFunctors_)
  swap_in : Phase → Machine F → Machine F
  swap_in swapping m = record m { phase = calling; running = m.pending; pending = [] }
  swap_in _ m = m

  call_next : List F → Machine F → Machine F
  call_next [] m = m
  call_next (f ∷ fs) m = record m { running = fs; called = m.called ++ (f ∷ []) }

  -- functor()
  call_in : Phase → Machine F → Machine F
  unfolding call_next
  call_in calling m = call_next m.running m
  call_in _ m = m

  clear_when : List F → Machine F → Machine F
  clear_when [] m = record m { phase = polling }
  clear_when (f ∷ fs) m = m

  -- callingPendingFunctors_ = false behind the for loop, and the next poll.
  clear_in : Phase → Machine F → Machine F
  unfolding clear_when
  clear_in calling m = clear_when m.running m
  clear_in _ m = m

  unfoldable pub step : Machine F → Action F → Machine F
  unfolding self_queue_in returns_in read_in set_in swap_in call_in clear_in
  step m (other_push f) = record (push f m) { pushed = m.pushed + 1 }
  step m other_wakeup = if ltb 0 m.pushed then record (wake m) { pushed = m.pushed - 1 } else m
  step m (self_queue f) = self_queue_in m.phase f m
  step m (poll_returns b) = returns_in m.phase b m
  step m read_wakeup = read_in m.phase m
  step m set_calling = set_in m.phase m
  step m swap_functors = swap_in m.phase m
  step m call_functor = call_in m.phase m
  step m clear_calling = clear_in m.phase m

  unfoldable pub run : Machine F → List (Action F) → Machine F
  run m [] = m
  run m (a ∷ later) = run (step m a) later

  abbrev pub start : Machine F
  start = record {
    phase = polling;
    pending = [];
    running = [];
    wakeups = 0;
    pushed = 0;
    queued = [];
    called = [];
  }

  -- No functor waits, or a wakeup has been written, or a thread is about to write one.
  abbrev pub IsAwake : Machine F → Type 0
  IsAwake m = (m.pending ≡ []) ⊎ (0 < m.wakeups) ⊎ (0 < m.pushed)

  abbrev pub AwakeIn : Phase → Machine F → Type 0
  AwakeIn polling m = IsAwake m
  AwakeIn calling m = IsAwake m
  AwakeIn handling m = Unit {0}
  AwakeIn swapping m = Unit {0}

  -- Outside of the calls no functor is swapped out.
  abbrev pub IdleIn : Phase → List F → Type 0
  IdleIn calling running = Unit {0}
  IdleIn _ running = running ≡ []

  pub record Inv (m : Machine F) : Type 0 where
    pub awake : AwakeIn m.phase m
    pub idle : IdleIn m.phase m.running
    pub fifo : m.queued ≡ m.called ++ (m.running ++ m.pending)

  awake_push :
      (p : Phase) (m : Machine F) (f : F) → AwakeIn p (record (push f m) { pushed = m.pushed + 1 })
  awake_push polling m f = inr (inr (omega arith))
  awake_push calling m f = inr (inr (omega arith))
  awake_push handling m f = tt
  awake_push swapping m f = tt

  called_next :
      (called fs pending : List F) (f : F)
      → called ++ ((f ∷ fs) ++ pending) ≡ (called ++ (f ∷ [])) ++ (fs ++ pending)
  called_next called fs pending f = sym (append_assoc called (f ∷ []) (fs ++ pending))

  pub step-Inv : (m : Machine F) (a : Action F) → Inv m → Inv (step m a)
  unfolding step
  step-Inv m (other_push f) v = record {
    awake = awake_push m.phase m f;
    idle = v.idle;
    fifo = ground (
      arith,
      append_assoc m.called (m.running ++ m.pending) (f ∷ []),
      append_assoc m.running m.pending (f ∷ []),
    );
  }
  step-Inv m other_wakeup v = ground arith
  step-Inv m (self_queue f) v = ground (
    arith,
    append_assoc m.called (m.running ++ m.pending) (f ∷ []),
    append_assoc m.running m.pending (f ∷ []),
  )
  step-Inv m (poll_returns b) v = ground arith
  step-Inv m read_wakeup v = ground arith
  step-Inv m set_calling v = ground arith
  step-Inv m swap_functors v = ground (arith, append-nil m.pending)
  step-Inv m call_functor v = grind (arith, called_next)
  step-Inv m clear_calling v = ground arith
