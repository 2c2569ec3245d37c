-- ===== src/Scanner/Threads/Runs.antt =====
-- The turns of the tasks, as the pool of thread_pool.hpp gives them: a worker takes a task from the
-- queue, makes the task's steps while others make theirs, and leaves it when it has returned.
use mathlib.Core.List.{append-nil}
use slow_scanner.Prelude.{
  ℕ, ◌-◌, ◌%◌, ◌^◌, ◌≤◌, ◌<◌, ◌≡◌, refl, ap, ◌∙◌, sym, subst, ◌⊎◌, inl, inr, Bool, true, false,
  ◌||◌, Option, none, some, List, [], ◌∷◌, ◌++◌, arith, contains, length, Bool-cases, ◌==◌,
}
use slow_scanner.World.{Os, World}
use slow_scanner.File.{page_size}
use slow_scanner.File.Reserve.{MapsExactly, CanGrow, IsLean, HasSpace, IsMapped}
use slow_scanner.Region.{Region}
use slow_scanner.Scan.{ScanType}
use slow_scanner.Compare.{ElementType, FloatFormat}
use slow_scanner.Scanner.{AddressRange, get_regions}
use slow_scanner.Scanner.Coverage.{QueriesPages}
use slow_scanner.Scanner.Task.{CanMap}
use slow_scanner.Scanner.Threads.{first_scan_threads}
use slow_scanner.Region.Fetch.{ReadsWithin}
use slow_scanner.Pool.{
  Phase, checking, asleep, running, exited, Pool, new_pool, worker_check, task_in, enqueue, checked,
  begin_shutdown, notify_all, check, finish, Step, work, spurious, push, notify, notify_nobody,
  shut, wake_all, Reach, here, next,
}
use slow_scanner.Pool.Safety.{Reach-IsSound}
use slow_scanner.Scanner.Threads.Interleave.{count}
use slow_scanner.Scanner.Threads.Outcome.{IsFair}
use slow_scanner.Scanner.Threads.Result.{ThreadsScanned, first_scan_threads-ThreadsScanned}

-- Is a worker in the task `t`?
abbrev pub in_task : ℕ → List Phase → Bool
in_task t [] = false
in_task t (running k ∷ ws) = k == t || in_task t ws
in_task t (_ ∷ ws) = in_task t ws

-- A run of a pool of `n` threads, with the turns that its tasks have had. A worker that leaves a task
-- has made the three steps that it has at most.
pub data Run (n : ℕ) : Pool → List ℕ → Type 0 where
  begin : Run n (new_pool n) []
  step :
      {p q : Pool} {turns : List ℕ}
      → Run n p turns
      → Step p q
      → ((t : ℕ) → in_task t p.workers ≡ true → in_task t q.workers ≡ false → 3 ≤ count t turns)
      → Run n q turns
  take_turn :
      {p : Pool} {turns : List ℕ} (t : ℕ)
      → Run n p turns
      → in_task t p.workers ≡ true
      → Run n p (turns ++ t ∷ [])

Run-Reach : {n : ℕ} {p : Pool} {turns : List ℕ} → Run n p turns → Reach n p
Run-Reach begin = here
Run-Reach (step r s done) = next (Run-Reach r) s
Run-Reach (take_turn t r h) = Run-Reach r

contains-append :
    (t : ℕ) (xs ys : List ℕ) → contains t (xs ++ ys) ≡ (contains t xs || contains t ys)
contains-append t [] ys = refl
contains-append t (x ∷ xs) ys = rw (contains-append t xs ys) (ground arith)

count-append-le : (t : ℕ) (xs ys : List ℕ) → count t xs ≤ count t (xs ++ ys)
unfolding count
count-append-le t [] ys = omega arith
count-append-le t (x ∷ xs) ys = omega (arith, count-append-le t xs ys)

in_task-running :
    (t k : ℕ) (us vs : List Phase) → (k == t) ≡ true → in_task t (us ++ running k ∷ vs) ≡ true
in_task-running t k [] vs e = ground arith
in_task-running t k (checking ∷ us) vs e = in_task-running t k us vs e
in_task-running t k (asleep ∷ us) vs e = in_task-running t k us vs e
in_task-running t k (running j ∷ us) vs e = let h = in_task-running t k us vs e in ground (arith, h)
in_task-running t k (exited ∷ us) vs e = in_task-running t k us vs e

check-started :
    (t : ℕ) (p : Pool) (us vs : List Phase) (stop : Bool) (tasks : List ℕ)
    → contains t (p.started ++ task_in (worker_check stop tasks).0) ≡ true
    → (contains t p.started ≡ true) ⊎ (in_task t (us ++ (worker_check stop tasks).0 ∷ vs) ≡ true)
unfolding worker_check
check-started t p us vs true [] h =
    inl (subst (λ xs. contains t xs ≡ true) (append-nil p.started) h)
check-started t p us vs false [] h =
    inl (subst (λ xs. contains t xs ≡ true) (append-nil p.started) h)
check-started t p us vs stop (k ∷ tasks) h = elim (Bool-cases (k == t)) [
  | inl same ↦ inr (in_task-running t k us vs same)
  | inr other ↦
      let e : contains t (p.started ++ k ∷ []) ≡ (contains t p.started || contains t (k ∷ [])) =
        contains-append t p.started (k ∷ []) in
      inl (ground (arith, sym e ∙ h, other))
]

enqueue-started : (t : ℕ) (p : Pool) → (enqueue t p).started ≡ p.started
unfolding enqueue
enqueue-started t p = elim (Bool-cases p.stop) [
  | inl stopped ↦ ground (arith, stopped)
  | inr open_pool ↦ ground (arith, open_pool)
]

-- A task that a step starts is one that a worker is now in.
Step-started :
    (t : ℕ) {p q : Pool}
    → Step p q
    → contains t q.started ≡ true
    → (contains t p.started ≡ true) ⊎ (in_task t q.workers ≡ true)
unfolding checked begin_shutdown notify_all
Step-started t (work (check p us vs e)) h = check-started t p us vs p.stop p.tasks h
Step-started t (work (finish p us vs k e)) h = inl h
Step-started t (spurious p us vs e) h = inl h
Step-started t (push p k) h = inl (subst (λ xs. contains t xs ≡ true) (enqueue-started k p) h)
Step-started t (notify p us vs k n e) h = inl h
Step-started t (notify_nobody p k n none_sleep) h = inl h
Step-started t (shut p open_pool) h = inl h
Step-started t (wake_all p c) h = inl h

-- A task that was started is one that a worker is in, or it has had its turns.
Run-count :
    (t : ℕ) {n : ℕ} {p : Pool} {turns : List ℕ}
    → Run n p turns
    → contains t p.started ≡ true
    → (in_task t p.workers ≡ true) ⊎ (3 ≤ count t turns)
Run-count t begin h = absurd (cc)
Run-count t (step {p} {q} {turns} r s done) h = elim (Step-started t s h) [
  | inr now ↦ inl now
  | inl before ↦ elim (Run-count t r before) [
    | inr enough ↦ inr enough
    | inl there ↦ elim (Bool-cases (in_task t q.workers)) [
      | inl still ↦ inl still
      | inr left ↦ inr (done t there left)
    ]
  ]
]
Run-count t (take_turn {p} {turns} k r there) h = elim (Run-count t r h) [
  | inl still ↦ inl still
  | inr enough ↦ inr (omega (arith, enough, count-append-le t turns (k ∷ [])))
]

-- All that the pool accepted has been run: the queue is empty and no worker is in a task.
pub record IsIdle (p : Pool) : Type 0 where
  pub empty : p.tasks ≡ []
  pub free : (t : ℕ) → in_task t p.workers ≡ false

-- The pool has accepted the numbers of the listed regions' tasks.
abbrev pub Accepts : Pool → Option (List Region × World) → Type 0
Accepts p none = Unit {0}
Accepts p (some (rs, w)) = (i : ℕ) → i < length rs → contains i p.accepted ≡ true

-- Every task that the pool has accepted has had its turns.
idle-count :
    (n : ℕ) (p : Pool) (turns : List ℕ)
    → Run n p turns
    → IsIdle p
    → (i : ℕ) → contains i p.accepted ≡ true
    → 3 ≤ count i turns
idle-count n p turns r idle i accepted =
    let fifo = (Reach-IsSound n p (Run-Reach r)).fifo in
    let all : p.started ≡ p.accepted =
      sym (append-nil p.started) ∙ ap (λ (xs : List ℕ). p.started ++ xs) (sym idle.empty) ∙ fifo in
    elim (Run-count i r (subst (λ xs. contains i xs ≡ true) (sym all) accepted)) [
      | inr enough ↦ enough
      | inl busy ↦ absurd (clash (idle.free i) busy)
    ]
  where
    clash : {b : Bool} → b ≡ false → b ≡ true → ⊥
    clash f t = cc

Run-IsFair :
    (n : ℕ) (p : Pool) (turns : List ℕ) (o : Option (List Region × World))
    → Run n p turns
    → IsIdle p
    → Accepts p o
    → IsFair turns o
Run-IsFair n p turns none r idle accepts = tt
Run-IsFair n p turns (some (rs, w)) r idle accepts =
    λ i lt. idle-count n p turns r idle i (accepts i lt)

-- `first_scan` with the steps that its tasks took in a run of a pool of `n` threads, on a range
-- that starts at a page and lies below 2 ^ 63, with a file whose map is up to date, that is at most
-- four times its data and a page and has space for the range, and a system that answers queries in
-- whole pages, writes no more than was asked for, and whose calls on the file succeed: if the pool
-- has accepted the tasks of the listed regions and has come to rest, then `first_scan` returns,
-- whatever the workers and the process did. Its result is as in `ThreadsScan`: the valid ones of
-- the scans of the listed regions, in the order of the list, each over its own snapshot, which no
-- other task has disturbed; and no byte that was in the file before has changed.
pub Run-ThreadsScanned :
    (os : Os) (f32 f64 : FloatFormat) (turns : List ℕ) (handle : ℕ) (range : AddressRange)
    (protect : ℕ) (kind : ScanType) (elem : ElementType) (raw1 : ℕ) (raw2 : Option ℕ) (w : World)
    (n : ℕ) (p : Pool)
    → Run n p turns
    → IsIdle p
    → Accepts p (get_regions os handle range protect w)
    → MapsExactly os
    → CanGrow os
    → CanMap os
    → QueriesPages os
    → ReadsWithin os
    → range.first % page_size ≡ 0
    → range.first ≤ range.second
    → range.second < 2 ^ 63
    → IsMapped w.file
    → IsLean w.file
    → HasSpace (range.second - range.first) w.file
    → ThreadsScanned os f32 f64 turns handle range protect kind elem raw1 raw2 w
        (first_scan_threads os f32 f64 turns handle range protect kind elem raw1 raw2 w)
Run-ThreadsScanned os f32 f64 turns handle range protect kind elem raw1 raw2 w n p run idle accepts
      exact grow can pages short start order low inv lean space =
    first_scan_threads-ThreadsScanned os f32 f64 turns handle range protect kind elem raw1 raw2 w
      exact grow can pages short
      (Run-IsFair n p turns (get_regions os handle range protect w) run idle accepts) start order
      low inv lean space
