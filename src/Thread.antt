-- ===== src/Thread.antt =====
-- src/Thread.h, src/Thread.cc, src/CurrentThread.h and src/CurrentThread.cc: the members of a thread
-- and its name. What std::thread runs is in EventLoopThread. The counter numCreated_ is an argument.
pub mod Names
use network_library_baseon_c.Base.{
  ℕ, zero, suc, ◌+◌, Bool, true, false, not, ◌&&◌, List, [], ◌∷◌, ◌++◌, ◌==◌, if◌then◌else◌,
}
use network_library_baseon_c.Text.{decimal, cut_to}

pub record Thread : Type 0 where
  pub started : Bool
  pub joined : Bool
  pub tid : ℕ
  pub name : List ℕ

-- CurrentThread::cacheTid(): what t_cachedTid becomes, where the system call gives `gettid`.
cache_tid : ℕ → ℕ → ℕ
cache_tid gettid cached = if cached == 0 then gettid else cached

-- CurrentThread::tid(), with what t_cachedTid becomes.
pub current_tid : ℕ → ℕ → ℕ × ℕ
unfolding cache_tid
current_tid gettid cached =
    let cached' = if cached == 0 then cache_tid gettid cached else cached in (cached', cached')

-- "Thread%d", in a buffer of 32 bytes.
pub default_name : ℕ → List ℕ
default_name num = cut_to 32 (84 ∷ 104 ∷ 114 ∷ 101 ∷ 97 ∷ 100 ∷ decimal num)

-- setDefaultName() of the thread that gets the number `num`.
pub set_default_name : ℕ → List ℕ → List ℕ
unfolding default_name
set_default_name num [] = default_name num
set_default_name num (x ∷ xs) = x ∷ xs

-- The constructor, with what numCreated_ becomes.
pub new_thread : ℕ → List ℕ → Thread × ℕ
unfolding set_default_name
new_thread created name = (
  record { started = false; joined = false; tid = 0; name = set_default_name (created + 1) name },
  created + 1,
)

-- Whether the destructor detaches the thread.
pub detaches : Thread → Bool
detaches t = t.started && not t.joined
