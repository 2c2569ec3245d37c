-- ===== src/Pool.antt =====
-- Class `thread_pool` of thread_pool.hpp: workers that take tasks from one queue, and sleep on a
-- condition variable while it is empty. What a worker does under the lock is one step.
pub mod Counts
pub mod Safety
pub mod Shutdown
use slow_scanner.Prelude.{
  ℕ, zero, suc, ◌+◌, ◌≡◌, Bool, true, false, List, [], ◌∷◌, ◌++◌, if◌then◌else◌, map,
}

-- Where a worker is: before the lock, asleep in `condition.wait`, in a task, or done.
pub data Phase : Type 0 where
  checking : Phase
  asleep : Phase
  running : ℕ → Phase
  exited : Phase

-- Tasks are named by numbers. `notices` counts the callers of `enqueue` that have pushed their task
-- and are about to call `notify_one`, and `closing` is the destructor between its two halves. The
-- last two fields are a record of what has happened.
pub record Pool : Type 0 where
  pub workers : List Phase
  pub tasks : List ℕ
  pub stop : Bool
  pub notices : ℕ
  pub closing : Bool
  pub accepted : List ℕ
  pub started : List ℕ

abbrev pub idle_workers : ℕ → List Phase
idle_workers zero = []
idle_workers (suc n) = checking ∷ idle_workers n

-- The constructor, with each thread at the start of its loop.
abbrev pub new_pool : ℕ → Pool
new_pool num_threads = record {
  workers = idle_workers num_threads;
  tasks = [];
  stop = false;
  notices = 0;
  closing = false;
  accepted = [];
  started = [];
}

-- What a worker does under the lock: it sleeps unless `stop || !tasks.empty()`, returns if
-- `stop && tasks.empty()`, and else takes the front task. The phase it goes on to, and the queue.
unfoldable pub worker_check : Bool → List ℕ → Phase × List ℕ
worker_check stop [] = (if stop then exited else asleep, [])
worker_check stop (t ∷ ts) = (running t, ts)

abbrev pub task_in : Phase → List ℕ
task_in (running t) = t ∷ []
task_in _ = []

-- The first half of `enqueue`, under the lock: a task that comes after `stop` is dropped.
unfoldable pub enqueue : ℕ → Pool → Pool
enqueue t p = if p.stop then p else record p {
  tasks = p.tasks ++ t ∷ [];
  accepted = p.accepted ++ t ∷ [];
  notices = p.notices + 1;
}

abbrev pub wake : Phase → Phase
wake asleep = checking
wake phase = phase

-- The first half of the destructor.
unfoldable pub begin_shutdown : Pool → Pool
begin_shutdown p = record p { stop = true; closing = true }

-- `condition.notify_all()`
unfoldable pub notify_all : Pool → Pool
notify_all p = record p { workers = map wake p.workers; closing = false }

-- The state after the check of a worker between `us` and `vs`.
unfoldable pub checked : Pool → List Phase → List Phase → Pool
checked p us vs = record p {
  workers = us ++ (worker_check p.stop p.tasks).0 ∷ vs;
  tasks = (worker_check p.stop p.tasks).1;
  started = p.started ++ task_in (worker_check p.stop p.tasks).0;
}

abbrev pub set_worker : Pool → List Phase → Phase → List Phase → Pool
set_worker p us phase vs = record p { workers = us ++ phase ∷ vs }

-- The steps of the workers that run.
pub data Work : Pool → Pool → Type 0 where
  check :
      (p : Pool) (us vs : List Phase) → p.workers ≡ us ++ checking ∷ vs → Work p (checked p us vs)
  finish :
      (p : Pool) (us vs : List Phase) (t : ℕ)
      → p.workers ≡ us ++ running t ∷ vs
      → Work p (set_worker p us checking vs)

-- Is a worker asleep, out of its loop, in it and not asleep?
abbrev pub is_asleep : Phase → ℕ
is_asleep asleep = 1
is_asleep _ = 0

abbrev pub is_exited : Phase → ℕ
is_exited exited = 1
is_exited _ = 0

abbrev pub is_awake : Phase → ℕ
is_awake checking = 1
is_awake (running t) = 1
is_awake _ = 0

-- How many.
abbrev pub count : (Phase → ℕ) → List Phase → ℕ
count f [] = 0
count f (x ∷ xs) = f x + count f xs

-- All steps: a worker may also wake by itself, `notify_one` wakes one that sleeps, if any does, and
-- `enqueue` and the destructor run in other threads.
pub data Step : Pool → Pool → Type 0 where
  work : {p q : Pool} → Work p q → Step p q
  spurious :
      (p : Pool) (us vs : List Phase)
      → p.workers ≡ us ++ asleep ∷ vs
      → Step p (set_worker p us checking vs)
  push : (p : Pool) (t : ℕ) → Step p (enqueue t p)
  notify :
      (p : Pool) (us vs : List Phase) (k : ℕ)
      → p.notices ≡ suc k
      → p.workers ≡ us ++ asleep ∷ vs
      → Step p (record p { workers = us ++ checking ∷ vs; notices = k })
  notify_nobody :
      (p : Pool) (k : ℕ)
      → p.notices ≡ suc k
      → count is_asleep p.workers ≡ 0
      → Step p (record p { notices = k })
  shut : (p : Pool) → p.stop ≡ false → Step p (begin_shutdown p)
  wake_all : (p : Pool) → p.closing ≡ true → Step p (notify_all p)

-- The states of a pool of `n` threads.
pub data Reach (n : ℕ) : Pool → Type 0 where
  here : Reach n (new_pool n)
  next : {p q : Pool} → Reach n p → Step p q → Reach n q
