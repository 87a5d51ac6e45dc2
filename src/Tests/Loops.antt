-- ===== src/Tests/Loops.antt =====
-- Tests of EventLoop: its queue of functors, its rounds, and its wakeups.
use network_library_baseon_c.Base.{
  ℕ, zero, suc, ◌<◌, ◌≡◌, ◌≢◌, ◌⊎◌, refl, true, false, List, [], ◌∷◌, ◌++◌, arith, Outcome, ok,
}
use network_library_baseon_c.EventLoop.{Reactor, do_pending_functors, loop, quit}
use network_library_baseon_c.Channel.{index_new}
use network_library_baseon_c.EventLoop.Pending.{run_script, woken, do_pending_functors_fifo}
use network_library_baseon_c.EventLoop.Interleave.{
  Action, other_push, other_wakeup, self_queue, poll_returns, read_wakeup, set_calling,
  swap_functors, call_functor, clear_calling, polling, step, run, start,
}
use network_library_baseon_c.EventLoop.Wakeups.{run_no_lost_wakeup, run_fifo}
use network_library_baseon_c.EventLoop.Creation.OwnThread.{
  create_in_thread, OneLoopOr, create_in_thread-OneLoop,
}
use network_library_baseon_c.EventLoopThreadPool.{EventLoopThreadPool}
use network_library_baseon_c.EventLoopThreadPool.RoundRobin.{get_loops, get_loops_round}
use network_library_baseon_c.Tests.Toy.{toy-EpollCtlLaw, toy-CreateLaw}
use network_library_baseon_c.Tests.Toy.{toy, quiet}

-- A push during the calls of functors, with the round of the loop that it meets.
abbrev busy : List (Action ℕ)
busy =
    other_push 1
    ∷ other_wakeup
    ∷ poll_returns true
    ∷ read_wakeup
    ∷ set_calling
    ∷ swap_functors
    ∷ self_queue 2
    ∷ call_functor
    ∷ clear_calling
    ∷ []

busy-polling : (run start busy).phase ≡ polling
unfolding run step
busy-polling = refl

busy-pending : (run start busy).pending ≢ []
unfolding run step
busy-pending e = cc

run_no_lost_wakeup_example : (0 < (run start busy).wakeups) ⊎ (0 < (run start busy).pushed)
run_no_lost_wakeup_example = run_no_lost_wakeup busy busy-polling busy-pending

run_fifo_example :
    (run start busy).queued
    ≡ (run start busy).called ++ ((run start busy).running ++ (run start busy).pending)
run_fifo_example = run_fifo busy

-- A functor queues the one below it.
abbrev countdown : ℕ → List ℕ
countdown zero = []
countdown (suc n) = n ∷ []

abbrev reactor : List ℕ → Reactor toy ℕ (List ℕ)
reactor pending = record {
  loop = record {
    looping = false;
    quit = false;
    thread_id = 1;
    poll_return_time = 0;
    poller = record { epollfd = 3; channels = []; event_list_size = 16 };
    wakeup_fd = 5;
    wakeup_channel = 30;
    active_channels = [];
    calling_pending_functors = false;
    pending_functors = pending;
  };
  kernel = quiet;
  channels = λ ptr. record { fd = 5; events = 0; revents = 0; index = index_new; tied = false };
  app = [];
}

do_pending_functors_fifo_example :
    (r' : Reactor toy ℕ (List ℕ)) × (do_pending_functors toy
        (run_script countdown toy)
        (reactor (2 ∷ 1 ∷ []))
      ≡ ok r')
    × (r'.app ≡ 2 ∷ 1 ∷ [])
    × (r'.loop.pending_functors ≡ 1 ∷ 0 ∷ [])
    × (r'.kernel ≡ woken toy 5 2 quiet)
    × (r'.loop.calling_pending_functors ≡ false)
do_pending_functors_fifo_example = do_pending_functors_fifo countdown toy (reactor (2 ∷ 1 ∷ []))

-- The functor 0 calls quit() from the thread of the loop.
abbrev handle_nothing : ℕ → ℕ → Reactor toy ℕ (List ℕ) → Outcome (Reactor toy ℕ (List ℕ))
handle_nothing ptr time r = ok r

abbrev quit_on_zero : ℕ → Reactor toy ℕ (List ℕ) → Outcome (Reactor toy ℕ (List ℕ))
quit_on_zero zero r = ok (quit toy r.loop.thread_id r)
quit_on_zero (suc n) r = ok r

create_in_thread-OneLoop_example :
    OneLoopOr toy ℕ {S = List ℕ} 1 30
      (reactor []).channels
      []
      9
      false
      0
      quiet
      (create_in_thread toy false 9 0 1 30 quiet (reactor []).channels [])
create_in_thread-OneLoop_example =
    create_in_thread-OneLoop toy ℕ 1 30 (reactor []).channels [] toy-EpollCtlLaw toy-CreateLaw false
      9 0 quiet

-- A pool of three loops, whose next is the second.
abbrev pool : EventLoopThreadPool
pool = record {
  base_loop = 1;
  started = true;
  num_threads = 3;
  next = 1;
  loops = 10 ∷ 20 ∷ 30 ∷ [];
}

get_loops_round_example : get_loops 3 pool ≡ ok (20 ∷ 30 ∷ 10 ∷ [], pool)
get_loops_round_example = get_loops_round pool (omega arith)
