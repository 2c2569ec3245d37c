-- ===== src/Scanner/Threads.antt =====
-- `first_scan` of src/slow_scanner.cpp with its tasks interleaved: the workers of the pool run several
-- at a time, and what one does is seen by the others between any two of its steps.
pub mod Steps
pub mod Advances
pub mod Ends
pub mod Jobs
pub mod Turns
pub mod Interleave
pub mod Finish
pub mod Outcome
pub mod Result
pub mod Runs
pub mod Steady
use slow_scanner.Prelude.{
  ℕ, zero, suc, ◌-◌, Bool, true, false, Option, none, some, List, [], ◌∷◌, map, select,
  if◌then◌else◌, ◌==◌,
}
use slow_scanner.Prelude.Int.{is_minus_one}
use slow_scanner.World.{Os, World, M, pure, fault, ◌>>=◌}
use slow_scanner.Dump.{alloc_f}
use slow_scanner.Region.{Region, size, fetch}
use slow_scanner.Scan.{Scan, ScanType, Comparator, set_valid}
use slow_scanner.Compare.{ElementType, FloatFormat, element_size, make_comparator}
use slow_scanner.Scanner.{
  AddressRange, get_regions, region_of, make_scans, finish_search, is_unknown, sort_scans,
}

-- A task of the pool, between its steps: before it has room in the dump file, before the process is
-- read, before the search, and at its end.
pub data Job : Type 0 where
  waiting reserved fetched finished : Scan → Job

-- The first `if` of `read_memory`. `m_file::write` holds the mutex of the file, so it is one step.
unfoldable pub reserve_region : Os → Region → M (Bool × Region)
reserve_region os r = if r.mem_reserved then pure (true, r) else do
  (index, d) ← alloc_f os (size r) r.dumped
  if is_minus_one index
      then pure (false, record r { dumped = d })
      else pure (true, record r { dumped = d; mem_reserved = true })

abbrev pub with_region : Region → Scan → Scan
with_region r s = record s { region = some r }

-- The last step: an unknown value accepts all, any other is searched for.
abbrev pub search_step : Comparator → ℕ → Option ℕ → Scan → M Scan
search_step cmp raw1 raw2 s =
    if is_unknown s.kind then pure (set_valid s) else finish_search cmp raw1 raw2 s

-- One step of a task.
unfoldable pub advance : Os → Comparator → ℕ → Option ℕ → Job → M Job
advance os cmp raw1 raw2 (waiting s) = do
  r ← region_of s
  (done, r') ← reserve_region os r
  pure (if done then reserved (with_region r' s) else finished (with_region r' s))
advance os cmp raw1 raw2 (reserved s) = do
  r ← region_of s
  (done, r') ← fetch os r
  pure (if done then fetched (with_region r' s) else finished (with_region r' s))
advance os cmp raw1 raw2 (fetched s) = do s' ← search_step cmp raw1 raw2 s; pure (finished s')
advance os cmp raw1 raw2 (finished s) = pure (finished s)

-- A step of the task with the number `k`; there is nothing to do for a number that no task has.
unfoldable pub turn : Os → Comparator → ℕ → Option ℕ → ℕ → List Job → M (List Job)
turn os cmp raw1 raw2 k [] = pure []
turn os cmp raw1 raw2 zero (j ∷ js) = do j' ← advance os cmp raw1 raw2 j; pure (j' ∷ js)
turn os cmp raw1 raw2 (suc k) (j ∷ js) = do js' ← turn os cmp raw1 raw2 k js; pure (j ∷ js')

-- The steps of all tasks, in the order in which they happen.
unfoldable pub interleave : Os → Comparator → ℕ → Option ℕ → List ℕ → List Job → M (List Job)
interleave os cmp raw1 raw2 [] js = pure js
interleave os cmp raw1 raw2 (k ∷ turns) js = do
  js' ← turn os cmp raw1 raw2 k js
  interleave os cmp raw1 raw2 turns js'

-- `fut.get()` for each future. It would wait for a task that is not at its end, so that is a fault.
unfoldable pub collect : List Job → M (List Scan)
collect [] = pure []
collect (finished s ∷ js) = do ss ← collect js; pure (s ∷ ss)
collect (j ∷ js) = fault

-- `first_scan`, with the steps of its tasks in the order of `turns`.
unfoldable pub first_scan_threads :
    Os
    → FloatFormat
    → FloatFormat
    → List ℕ
    → ℕ
    → AddressRange
    → ℕ
    → ScanType
    → ElementType
    → ℕ
    → Option ℕ
    → M (List Scan)
first_scan_threads os f32 f64 turns handle range protect kind elem raw1 raw2 = do
  let cmp = make_comparator f32 f64 kind elem
  regions ← get_regions os handle range protect
  tasks ← make_scans kind (element_size elem) regions
  jobs ← interleave os cmp raw1 raw2 turns (map waiting tasks)
  scans ← collect jobs
  pure (sort_scans (select (λ s. s.valid) scans))
