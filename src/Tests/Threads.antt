-- ===== src/Tests/Threads.antt =====
-- Tests of EventLoopThread and of the start of a pool: a loop at address 41, made by thread 7.
use network_library_baseon_c.Base.{ℕ, suc, ◌≡◌, refl, inr, true, false, List, [], ◌∷◌, arith, ok}
use network_library_baseon_c.Thread.{Thread}
use network_library_baseon_c.EventLoopThread.{
  Action, start_thread, post_tid, sem_returns, check_loop, wake_up, publish, enter_loop, leave_loop,
  destroy, test_loop, step, run, new_event_loop_thread,
}
use network_library_baseon_c.EventLoopThread.Starting.{
  Running, IsStarting, rest_of_start, run-Running, run_start_returns,
}
use network_library_baseon_c.EventLoopThread.Joining.{Joined, run-Joined}
use network_library_baseon_c.EventLoopThreadPool.{EventLoopThreadPool, get_next_loop}
use network_library_baseon_c.EventLoopThreadPool.Started.{IsUsable, get_next_loop-IsUsable}

abbrev thread : Thread
thread = record { started = false; joined = false; tid = 0; name = [] }

-- startLoop() waits before the loop is there, and returns when it is.
abbrev waits : List Action
waits = start_thread ∷ post_tid ∷ sem_returns ∷ check_loop ∷ wake_up ∷ check_loop ∷ []

abbrev starts : List Action
starts = start_thread ∷ post_tid ∷ sem_returns ∷ check_loop ∷ publish ∷ check_loop ∷ enter_loop ∷ []

waits-IsStarting : IsStarting (run 40 7 (new_event_loop_thread thread) waits)
unfolding run step
waits-IsStarting = inr (inr refl)

run-Running_example : Running 40 (run 40 7 (new_event_loop_thread thread) starts)
unfolding run step
run-Running_example = run-Running 40 7 thread starts refl

run_start_returns_example :
    Running 40 (run 40 7 (run 40 7 (new_event_loop_thread thread) waits) rest_of_start)
run_start_returns_example = run_start_returns 40 7 thread waits waits-IsStarting

-- The destructor begins when the thread is in loop().
abbrev ends : List Action
ends =
    start_thread ∷ post_tid ∷ sem_returns ∷ check_loop ∷ publish ∷ check_loop ∷ enter_loop ∷ destroy
    ∷ test_loop ∷ []

run-Joined_example :
    Joined 40 7 (run 40 7 (new_event_loop_thread thread) ends) (wake_up ∷ leave_loop ∷ [])
unfolding run step
run-Joined_example = run-Joined 40 7 thread ends (wake_up ∷ leave_loop ∷ []) refl

abbrev running_pool : EventLoopThreadPool
running_pool = record {
  base_loop = 1;
  started = true;
  num_threads = 2;
  next = 1;
  loops = 10 ∷ 20 ∷ [];
}

running_pool-IsUsable : IsUsable running_pool
running_pool-IsUsable = record {
  base = omega arith;
  loops = (omega arith, (omega arith, tt));
  range = inr (omega arith);
}

get_next_loop-IsUsable_example :
    (l : ℕ) × (p' : EventLoopThreadPool) × (get_next_loop running_pool ≡ ok (suc l, p'))
    × IsUsable p'
    × (p'.loops ≡ running_pool.loops)
get_next_loop-IsUsable_example = get_next_loop-IsUsable running_pool running_pool-IsUsable
