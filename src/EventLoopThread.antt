-- ===== src/EventLoopThread.antt =====
-- src/EventLoopThread.h and src/EventLoopThread.cc, with start() and join() of src/Thread.cc: a
-- thread that makes a loop, and its owner.
-- The owner and the new thread take turns, one action at a time: an action runs to the next point
-- where the other thread may come in. One that is not enabled does nothing. std::mutex,
-- std::condition_variable, sem_t and std::thread do what is documented of them; a wait may return for
-- no reason. The loop is made at address `addr + 1`, and quit() on it is called by the destructor only.
pub mod Starting
pub mod Joining
use network_library_baseon_c.Base.{
  ℕ, zero, suc, ◌+◌, ◌-◌, Bool, true, false, not, ◌&&◌, ◌||◌, List, [], ◌∷◌, ltb, ◌==◌,
  if◌then◌else◌,
}
use network_library_baseon_c.Thread.{Thread, current_tid}

-- Where the owner is: before startLoop(), in sem_wait, before the test of loop_, in cond_.wait, behind
-- startLoop(), and in the destructor before its test, before quit(), in join(), and behind it.
pub data Owner : Type 0 where
  created posting checking waiting returned testing quitting joining destroyed : Owner

-- Where the thread is: not there, before sem_post, before loop_ is set, before loop(), in loop(), behind it,
-- and at its end.
pub data Worker : Type 0 where
  absent spawned running published looping leaving finished : Worker

pub record Machine : Type 0 where
  pub owner : Owner
  pub worker : Worker
  pub thread : Thread
  pub sem : ℕ
  pub loop : ℕ  -- loop_
  pub exiting : Bool
  pub quit : Bool  -- quit_ of the loop
  pub result : ℕ  -- what startLoop() has returned

pub data Action : Type 0 where
  start_thread post_tid sem_returns check_loop wake_up publish enter_loop leave_loop clear_loop :
      Action
  destroy test_loop call_quit join_returns : Action

-- cond_.notify_one()
notify : Owner → Owner
notify waiting = checking
notify o = o

module _ (addr gettid : ℕ) where
  -- Thread::start() up to sem_wait.
  start_in : Owner → Machine → Machine
  start_in created m = record m {
    owner = posting;
    worker = spawned;
    sem = 0;
    thread = record (m.thread) { started = true };
  }
  start_in _ m = m

  -- The start of the thread, up to sem_post.
  post_in : Worker → Machine → Machine
  post_in spawned m = record m {
    worker = running;
    sem = m.sem + 1;
    thread = record (m.thread) { tid = (current_tid gettid 0).0 };
  }
  post_in _ m = m

  sem_in : Owner → Machine → Machine
  sem_in posting m = if ltb 0 m.sem then record m { owner = checking; sem = m.sem - 1 } else m
  sem_in _ m = m

  -- while (loop_ == nullptr), under the mutex.
  check_in : Owner → Machine → Machine
  check_in checking m =
      if m.loop == 0
      then record m { owner = waiting }
      else record m { owner = returned; result = m.loop }
  check_in _ m = m

  wake_in : Owner → Machine → Machine
  wake_in waiting m = record m { owner = checking }
  wake_in _ m = m

  -- loop_ = &loop, under the mutex.
  publish_in : Worker → Machine → Machine
  unfolding notify
  publish_in running m = record m { worker = published; loop = suc addr; owner = notify m.owner }
  publish_in _ m = m

  enter_in : Worker → Machine → Machine
  enter_in published m = record m { worker = looping; quit = false }
  enter_in _ m = m

  leave_in : Worker → Machine → Machine
  leave_in looping m = if m.quit then record m { worker = leaving } else m
  leave_in _ m = m

  -- loop_ = nullptr, under the mutex.
  clear_in : Worker → Machine → Machine
  clear_in leaving m = record m { worker = finished; loop = 0 }
  clear_in _ m = m

  destroy_in : Owner → Machine → Machine
  destroy_in created m = record m { owner = testing; exiting = true }
  destroy_in returned m = record m { owner = testing; exiting = true }
  destroy_in _ m = m

  test_in : Owner → Machine → Machine
  test_in testing m =
      if m.loop == 0 then record m { owner = destroyed } else record m { owner = quitting }
  test_in _ m = m

  quit_in : Owner → Machine → Machine
  quit_in quitting m = record m {
    owner = joining;
    quit = true;
    thread = record (m.thread) { joined = true };
  }
  quit_in _ m = m

  join_in : Owner → Worker → Machine → Machine
  join_in joining finished m = record m { owner = destroyed }
  join_in _ _ m = m

  unfoldable pub step : Machine → Action → Machine
  unfolding start_in post_in sem_in check_in wake_in publish_in enter_in leave_in clear_in
      destroy_in test_in quit_in join_in
  step m start_thread = start_in m.owner m
  step m post_tid = post_in m.worker m
  step m sem_returns = sem_in m.owner m
  step m check_loop = check_in m.owner m
  step m wake_up = wake_in m.owner m
  step m publish = publish_in m.worker m
  step m enter_loop = enter_in m.worker m
  step m leave_loop = leave_in m.worker m
  step m clear_loop = clear_in m.worker m
  step m destroy = destroy_in m.owner m
  step m test_loop = test_in m.owner m
  step m call_quit = quit_in m.owner m
  step m join_returns = join_in m.owner m.worker m

  unfoldable pub run : Machine → List Action → Machine
  run m [] = m
  run m (a ∷ later) = run (step m a) later

-- The constructor, for a thread that has been constructed.
abbrev pub new_event_loop_thread : Thread → Machine
new_event_loop_thread t = record {
  owner = created;
  worker = absent;
  thread = t;
  sem = 0;
  loop = 0;
  exiting = false;
  quit = false;
  result = 0;
}
