-- ===== src/Tests/Runs.antt =====
-- Examples for the tasks of a first scan in the pool.
use slow_scanner.Prelude.{
  ℕ, zero, suc, ◌≤◌, ◌≡◌, refl, sym, subst, true, false, none, some, [], ◌∷◌, arith,
}
use slow_scanner.Pool.{
  running, Pool, idle_workers, new_pool, enqueue, worker_check, checked, check, finish, work, push,
}
use slow_scanner.Scan.{exact_value}
use slow_scanner.Compare.{u32}
use slow_scanner.Scanner.{get_regions}
use slow_scanner.Scanner.Threads.{first_scan_threads}
use slow_scanner.Scanner.Threads.Interleave.{count}
use slow_scanner.Scanner.Threads.Result.{ThreadsScanned}
use slow_scanner.Scanner.Threads.Runs.{
  in_task, Run, begin, step, take_turn, IsIdle, Accepts, Run-ThreadsScanned,
}
use slow_scanner.Tests.Setting.{
  good_os, good_os-MapsExactly, good_os-CanGrow, good_os-CanMap, good_os-QueriesPages,
  good_os-ReadsWithin, new_file, world_of, new_file-IsMapped, whole,
}
use slow_scanner.Tests.Sessions.{eight_bytes, eight_region, listed_eight}

-- A task is pushed, the first of the eight threads takes it, makes its steps, and leaves it.
abbrev queued : Pool
queued = record (new_pool 8) { tasks = 0 ∷ []; accepted = 0 ∷ []; notices = 1 }

abbrev busy : Pool
busy = record queued { workers = running 0 ∷ idle_workers 7; tasks = []; started = 0 ∷ [] }

abbrev rested : Pool
rested = record busy { workers = idle_workers 8 }

pool_queued : Run 8 queued []
unfolding enqueue
pool_queued = step begin (push (new_pool 8) 0) (λ t there gone. absurd (cc))

pool_busy : Run 8 busy []
unfolding checked worker_check
pool_busy =
    step pool_queued (work (check queued [] (idle_workers 7) refl)) (λ t there gone. absurd (cc))

pool_turns : Run 8 busy (0 ∷ 0 ∷ 0 ∷ [])
pool_turns = take_turn 0 (take_turn 0 (take_turn 0 pool_busy refl) refl) refl

turns_made :
    (t : ℕ)
    → in_task t busy.workers ≡ true
    → in_task t rested.workers ≡ false
    → 3 ≤ count t (0 ∷ 0 ∷ 0 ∷ [])
unfolding count
turns_made zero there gone = omega arith
turns_made (suc t) there gone = absurd (ground (arith, there))

pool_rested : Run 8 rested (0 ∷ 0 ∷ 0 ∷ [])
pool_rested = step pool_turns (work (finish busy [] (idle_workers 7) 0 refl)) turns_made

rested-IsIdle : IsIdle rested
rested-IsIdle = record { empty = refl; free = λ t. refl }

Accepts-eight : Accepts rested (get_regions good_os 7 eight_bytes 4 (world_of new_file))
Accepts-eight = subst (Accepts rested) (sym listed_eight) has
  where
    has : Accepts rested (some (eight_region ∷ [], record (world_of new_file) { clock = 1 }))
    has zero h = refl
    has (suc i) h = absurd (omega (arith, h))

Run-ThreadsScanned_example :
    ThreadsScanned good_os whole whole
      (0 ∷ 0 ∷ 0 ∷ [])
      7
      eight_bytes
      4
      exact_value
      u32
      5
      none
      (world_of new_file)
      (first_scan_threads good_os whole whole
        (0 ∷ 0 ∷ 0 ∷ [])
        7
        eight_bytes
        4
        exact_value
        u32
        5
        none
        (world_of new_file))
Run-ThreadsScanned_example =
    Run-ThreadsScanned good_os whole whole (0 ∷ 0 ∷ 0 ∷ []) 7 eight_bytes 4 exact_value u32 5 none
      (world_of new_file) 8 rested pool_rested rested-IsIdle Accepts-eight good_os-MapsExactly
      good_os-CanGrow good_os-CanMap good_os-QueriesPages good_os-ReadsWithin (omega arith)
      (omega arith) (omega arith) new_file-IsMapped (omega arith) (omega arith)
