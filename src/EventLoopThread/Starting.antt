-- ===== src/EventLoopThread/Starting.antt =====
-- startLoop() of src/EventLoopThread.cc, against every order of the two threads.
use network_library_baseon_c.Base.{
  ℕ, suc, ◌≡◌, ◌⊎◌, refl, Bool, true, not, ◌&&◌, ◌||◌, List, [], ◌∷◌, arith, ltb, ◌==◌,
  if◌then◌else◌,
}
use network_library_baseon_c.Thread.{Thread}
use network_library_baseon_c.EventLoopThread.{
  Owner, created, posting, checking, waiting, returned, testing, quitting, joining, destroyed,
  Worker, absent, spawned, running, published, looping, leaving, finished, Machine, Action,
  start_thread, post_tid, sem_returns, check_loop, wake_up, publish, enter_loop, leave_loop,
  clear_loop, destroy, test_loop, call_quit, join_returns, step, run, new_event_loop_thread,
}

-- How far the thread is.
abbrev place : Worker → ℕ
place absent = 0
place spawned = 1
place running = 2
place published = 3
place looping = 4
place leaving = 5
place finished = 6

-- loop_ is null but from its publication to the end of loop().
abbrev pointer : ℕ → Worker → ℕ
pointer addr w = if ltb 2 (place w) && ltb (place w) 6 then suc addr else 0

-- How far the thread can be, what quit_ and the semaphore are.
abbrev holds : Owner → ℕ → Bool → ℕ → Bool
holds created w q s = w == 0 && (s == 0 && not q)
holds posting w q s = ((w == 1 && s == 0) || (ltb 1 w && (ltb w 5 && s == 1))) && not q
holds checking w q s = ltb 1 w && (ltb w 5 && not q)
holds waiting w q s = w == 2 && not q
holds returned w q s = ltb 2 w && (ltb w 5 && not q)
holds testing w q s = (w == 0 || (ltb 2 w && ltb w 5)) && not q
holds quitting w q s = ltb 2 w && (ltb w 5 && not q)
holds joining w q s = ltb 2 w
holds destroyed w q s = w == 0 || w == 6

-- What startLoop() returns, from its return on.
abbrev given : Owner → ℕ → ℕ → Bool
given returned addr result = result == suc addr
given _ addr result = true

pub record Inv (addr : ℕ) (m : Machine) : Type 0 where
  pub at : m.loop ≡ pointer addr m.worker
  pub turn : holds m.owner (place m.worker) m.quit m.sem ≡ true
  pub got : given m.owner addr m.result ≡ true

-- What startLoop() has returned, and where the thread is then.
pub record Running (addr : ℕ) (m : Machine) : Type 0 where
  pub result : m.result ≡ suc addr
  pub same : m.loop ≡ suc addr
  pub alive : (m.worker ≡ published) ⊎ (m.worker ≡ looping)

-- startLoop() has been called and has not returned.
abbrev pub IsStarting : Machine → Type 0
IsStarting m = (m.owner ≡ posting) ⊎ (m.owner ≡ checking) ⊎ (m.owner ≡ waiting)

-- What is left of the two threads until startLoop() returns.
abbrev pub rest_of_start : List Action
rest_of_start = post_tid ∷ sem_returns ∷ publish ∷ check_loop ∷ []

module _ (addr gettid : ℕ) where
  step-Inv : (m : Machine) (a : Action) → Inv addr m → Inv addr (step addr gettid m a)
  unfolding step
  step-Inv m start_thread v = ground arith
  step-Inv m post_tid v = ground arith
  step-Inv m sem_returns v = ground arith
  step-Inv m check_loop v = ground arith
  step-Inv m wake_up v = ground arith
  step-Inv m publish v = ground arith
  step-Inv m enter_loop v = ground arith
  step-Inv m leave_loop v = ground arith
  step-Inv m clear_loop v = ground arith
  step-Inv m destroy v = ground arith
  step-Inv m test_loop v = ground arith
  step-Inv m call_quit v = ground arith
  step-Inv m join_returns v = ground arith

  pub run-Inv : (m : Machine) (acts : List Action) → Inv addr m → Inv addr (run addr gettid m acts)
  unfolding run
  run-Inv m [] v = v
  run-Inv m (a ∷ later) v = run-Inv (step addr gettid m a) later (step-Inv m a v)

  pub new-Inv : (t : Thread) → Inv addr (new_event_loop_thread t)
  new-Inv t = record { at = refl; turn = refl; got = refl }

  returned-Running : (m : Machine) → Inv addr m → m.owner ≡ returned → Running addr m
  returned-Running m v e = ground arith

  -- Whatever the order in which the two threads act: when startLoop() has returned, and until the
  -- destructor begins, what it has returned is the address of the loop, loop_ is that too, and the
  -- thread is before loop() or in it, so that the loop exists.
  pub run-Running :
      (t : Thread) (acts : List Action)
      → (run addr gettid (new_event_loop_thread t) acts).owner ≡ returned
      → Running addr (run addr gettid (new_event_loop_thread t) acts)
  run-Running t acts e =
      returned-Running (run addr gettid (new_event_loop_thread t) acts)
        (run-Inv (new_event_loop_thread t) acts (new-Inv t)) e

  starting_returns :
      (m : Machine) → Inv addr m → IsStarting m → (run addr gettid m rest_of_start).owner ≡ returned
  unfolding run step
  starting_returns m v s = ground arith

  -- No notify is lost: wherever startLoop() is before its return, after whatever actions of the two
  -- threads, the actions of the new thread up to the publication of its loop and those of the owner
  -- up to its test of loop_ bring it back, with the address of the loop.
  pub run_start_returns :
      (t : Thread) (acts : List Action)
      → IsStarting (run addr gettid (new_event_loop_thread t) acts)
      → Running addr
          (run addr gettid (run addr gettid (new_event_loop_thread t) acts) rest_of_start)
  run_start_returns t acts s =
      let m = run addr gettid (new_event_loop_thread t) acts in
      let v = run-Inv (new_event_loop_thread t) acts (new-Inv t) in
      returned-Running (run addr gettid m rest_of_start) (run-Inv m rest_of_start v)
        (starting_returns m v s)
