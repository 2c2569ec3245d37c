-- ===== src/Scanner/Threads/Steps.antt =====
-- What one step of a task does.
use slow_scanner.Prelude.{
  ℕ, ◌+◌, ◌-◌, ◌≤◌, ◌<◌, ◌≡◌, ap, ◌⊎◌, Bool, true, false, ◌&&◌, Option, none, some, List, [], ◌∷◌,
  get_or, ltb, leb,
}
use slow_scanner.Words.{long_to_handle}
use slow_scanner.World.{MemoryInfo, Os, World}
use slow_scanner.File.Reserve.{IsLean, IsMapped}
use slow_scanner.Dump.{Span}
use slow_scanner.Region.{Region, new_region, raw_bytes, first_span}
use slow_scanner.Scan.{Scan, ScanType, Comparator}
use slow_scanner.Scanner.Task.{task_of, Scanned}
use slow_scanner.Scanner.Threads.{Job, waiting, reserved, fetched, finished}

abbrev pub scan_of : Job → Scan
scan_of (waiting s) = s
scan_of (reserved s) = s
scan_of (fetched s) = s
scan_of (finished s) = s

-- Is a file position in the span of a task's region?
abbrev pub span_has : ℕ → Span → Bool
span_has k s = leb s.position k && ltb k (s.position + s.size)

abbrev pub region_has : ℕ → Option Region → Bool
region_has k none = false
region_has k (some r) = span_has k (raw_bytes r)

abbrev pub owns : ℕ → Job → Bool
owns k j = region_has k (scan_of j).region

pub owns-span :
    (k : ℕ) (r : Region) (s : Span) → r.dumped.spans ≡ s ∷ [] → region_has k (some r) ≡ span_has k s
owns-span k r s e = ap (λ (spans : List Span). span_has k (first_span spans)) e

-- The steps that a task has ahead of it, at most.
abbrev pub steps_left : Job → ℕ
steps_left (waiting s) = 3
steps_left (reserved s) = 2
steps_left (fetched s) = 1
steps_left (finished s) = 0

-- The bytes of the file that a task will still ask for.
abbrev pub demand : MemoryInfo → Job → ℕ
demand info (waiting s) = info.region_size
demand info _ = 0

-- A task with a span below `limit`, whose bytes are those of `fill`.
pub record Holding (kind : ScanType) (n handle : ℕ) (info : MemoryInfo) (fill : ℕ → ℕ)
    (cells : ℕ → ℕ) (limit : ℕ) (s : Scan) : Type 0 where
  pub region : Region
  pub position : ℕ
  pub is_task : s ≡ task_of kind n region
  pub same : region.info ≡ info
  pub owner : region.process_handle ≡ handle
  pub span : region.dumped.spans ≡ (record { position = position; size = info.region_size }) ∷ []
  pub within : position + info.region_size ≤ limit
  pub content : (k : ℕ) → k < info.region_size → cells (position + k) ≡ fill k

module _ (os : Os) (cmp : Comparator) (raw1 : ℕ) (raw2 : Option ℕ) (kind : ScanType)
    (n handle : ℕ) where
  abbrev pub answer_at : ℕ → MemoryInfo → Bool × List ℕ
  answer_at time info =
      os.read_process_memory time (long_to_handle handle) info.base_address info.region_size

  -- A task of the region `info`, between its steps.
  abbrev pub IsJob : MemoryInfo → (ℕ → ℕ) → ℕ → Job → Type 0
  IsJob info cells limit (waiting s) = s ≡ task_of kind n (new_region info handle)
  IsJob info cells limit (reserved s) = Holding kind n handle info (λ k. 0) cells limit s
  IsJob info cells limit (fetched s) =
      (time : ℕ) × ((answer_at time info).0 ≡ true)
      × Holding kind n handle info (λ k. get_or (answer_at time info).1 k 0) cells limit s
  IsJob info cells limit (finished s) = Scanned os cmp raw1 raw2 kind n handle info cells limit s

  -- A step from `j` to `j'`: the task is still one of `info`, no byte that it does not own has
  -- changed, what it owns is what it owned or new, and it has come nearer to its end.
  pub record Advance (info : MemoryInfo) (j : Job) (w : World) (j' : Job) (w' : World)
      : Type 0 where
    pub is_job : IsJob info w'.cells w'.file.offset j'
    pub frame : (k : ℕ) → k < w.file.offset → owns k j ≡ false → w'.cells k ≡ w.cells k
    pub gained : (k : ℕ) → owns k j' ≡ true → (owns k j ≡ true) ⊎ (w.file.offset ≤ k)
    pub bytes : w'.file.offset + demand info j' ≡ w.file.offset + demand info j
    pub grows : w.file.offset ≤ w'.file.offset
    pub nearer : steps_left j' ≤ steps_left j - 1
    pub mapped : IsMapped w'.file
    pub lean : IsLean w'.file

  abbrev pub Advanced : MemoryInfo → Job → World → Option (Job × World) → Type 0
  Advanced info j w none = ⊥
  Advanced info j w (some (j', w')) = Advance info j w j' w'
