-- ===== src/EventLoopThreadPool.antt =====
-- src/EventLoopThreadPool.h and src/EventLoopThreadPool.cc: the pool of loops that connections are
-- dealt out to. A loop is its address. To start a thread, as EventLoopThread::startLoop does, is
-- the parameter `start_loop` on a state `W`, and the callback of the user is `init`.
-- The name of the pool, and those of the threads made from it, are left out.
pub mod RoundRobin
pub mod Started
pub mod Growing
use network_library_baseon_c.Base.{
  ℕ, zero, suc, ◌+◌, Bool, true, false, ◌&&◌, List, [], ◌∷◌, ◌++◌, Option, none, some, Outcome, ok,
  err, out_of_bounds, ◌>>=◌, length, get_elem?, leb, ◌==◌, if◌then◌else◌,
}

pub record EventLoopThreadPool : Type 0 where
  pub base_loop : ℕ
  pub started : Bool
  pub num_threads : ℕ
  pub next : ℕ
  pub loops : List ℕ

-- The constructor.
unfoldable pub new_pool : ℕ → EventLoopThreadPool
new_pool base = record { base_loop = base; started = false; num_threads = 0; next = 0; loops = [] }

unfoldable pub set_thread_num : ℕ → EventLoopThreadPool → EventLoopThreadPool
set_thread_num n p = record p { num_threads = n }

-- `loops_[i]`
abbrev pub in_range : Option ℕ → Outcome ℕ
in_range none = err out_of_bounds
in_range (some loop) = ok loop

-- The index behind `next_`.
unfoldable pub bump : EventLoopThreadPool → ℕ
bump p = if leb (length p.loops) (p.next + 1) then 0 else p.next + 1

unfoldable pub next_of : List ℕ → EventLoopThreadPool → Outcome (ℕ × EventLoopThreadPool)
unfolding bump
next_of [] p = ok (p.base_loop, p)
next_of (l ∷ ls) p = do
  loop ← in_range (get_elem? p.loops p.next)
  ok (loop, record p { next = bump p })

unfoldable pub get_next_loop : EventLoopThreadPool → Outcome (ℕ × EventLoopThreadPool)
unfolding next_of
get_next_loop p = next_of p.loops p

pub get_all_loops : EventLoopThreadPool → List ℕ
get_all_loops p = elim p.loops [ [] ↦ p.base_loop ∷ [] | (l ∷ ls) ↦ l ∷ ls ]

module _ {W : Type 0} (start_loop : ℕ → W → Outcome (ℕ × W))
    (init : Option (ℕ → W → Outcome W)) where
  -- The for loop of start(), from thread `i` on with `n` to go.
  pub start_loops : ℕ → ℕ → EventLoopThreadPool → W → Outcome (EventLoopThreadPool × W)
  start_loops i zero p w = ok (p, w)
  start_loops i (suc n) p w = do
    (loop, w') ← start_loop i w
    start_loops (suc i) n (record p { loops = p.loops ++ (loop ∷ []) }) w'

  abbrev pub call_init : Option (ℕ → W → Outcome W) → ℕ → W → Outcome W
  call_init none loop w = ok w
  call_init (some cb) loop w = cb loop w

  pub start : EventLoopThreadPool → W → Outcome (EventLoopThreadPool × W)
  unfolding start_loops
  start p w = do
    (p', w') ← start_loops 0 p.num_threads (record p { started = true }) w
    w'' ← if p'.num_threads == 0 then call_init init p'.base_loop w' else ok w'
    ok (p', w'')
