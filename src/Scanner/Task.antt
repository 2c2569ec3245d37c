-- ===== src/Scanner/Task.antt =====
-- The task that `first_scan` runs for one region: what its scan holds afterwards, and that later
-- tasks leave it true.
use slow_scanner.Prelude.{
  ℕ, ◌+◌, ◌≤◌, ◌<◌, ◌≡◌, refl, ◌∙◌, Bool, true, false, not, ◌&&◌, ◌||◌, Option, none, some, [], ◌∷◌,
  arith, map, length, Bool-cases, ltb, get_or, inl, inr, if◌then◌else◌,
}
use Prim.Native.String.{String}
use slow_scanner.Words.{long_to_handle}
use slow_scanner.World.{View, MemoryInfo, Os, World, ◌>>=◌}
use slow_scanner.Region.Fetch.{ReadsWithin}
use slow_scanner.File.Reserve.{MapsExactly, CanGrow, MapFailed, IsLean, HasSpace, IsMapped}
use slow_scanner.Region.{Region, new_region, raw_bytes, read_memory}
use slow_scanner.Region.Snapshot.{Captured, Snapped, read_memory-Snapped}
use slow_scanner.Scan.{Scan, ScanType, Comparator}
use slow_scanner.Scan.Search.{entry_at, hits, search_value-hits}
use slow_scanner.Scan.Agree.{SameBytes, hits_agree, entries_agree}
use slow_scanner.Scanner.{is_unknown, scan_task}

-- A mapping of the file never fails.
abbrev pub CanMap : Os → Type 0
CanMap os =
    (t : ℕ) (name : String) (offset n : ℕ)
    → 0 < n
    → (v : View) × (os.make_mmap_sink t name offset n ≡ some v)

pub not-MapFailed : (os : Os) → CanMap os → MapFailed os → ⊥
not-MapFailed os can (t, name, offset, n, positive, e) =
    let (v, e') = can t name offset n positive in cc

-- A scan of a new region, as `first_scan` queues it.
abbrev pub task_of : ScanType → ℕ → Region → Scan
task_of kind n r = record {
  region = some r;
  kind = kind;
  elem_size = n;
  valid = false;
  results = [];
}

-- What a scan of region `r` holds after its task: the region's span is a snapshot of what
-- `ReadProcessMemory` answered at some time, and the scan is valid exactly if that call succeeded
-- and the scan looks for an unknown value or has found an element. The results are the entries of
-- the elements that pass, as in `search_value-hits`, and none for an unknown value.
pub record Scanned (os : Os) (cmp : Comparator) (raw1 : ℕ) (raw2 : Option ℕ) (kind : ScanType)
    (n handle : ℕ) (info : MemoryInfo) (cells : ℕ → ℕ) (limit : ℕ) (s : Scan) : Type 0 where
  pub region : Region
  pub time : ℕ
  pub success : Bool
  pub position : ℕ
  pub here : s.region ≡ some region
  pub same : region.info ≡ info
  pub kept : (s.kind ≡ kind) × (s.elem_size ≡ n)
  pub span : region.dumped.spans ≡ (record { position = position; size = info.region_size }) ∷ []
  pub within : position + info.region_size ≤ limit
  pub answer :
      (os.read_process_memory time (long_to_handle handle) info.base_address info.region_size).0
      ≡ success
  pub content :
      (j : ℕ)
      → j < info.region_size
      → cells (position + j)
        ≡ get_or
            (os.read_process_memory time
              (long_to_handle handle)
              info.base_address
              info.region_size).1
            j
            0
  pub verdict :
      s.valid ≡ (success && (is_unknown kind || ltb 0 (length (hits cells region n cmp raw1 raw2))))
  pub found : s.results ≡ (
      if success && not (is_unknown kind)
      then map (entry_at cells region n) (hits cells region n cmp raw1 raw2)
      else [])

module _ (os : Os) (cmp : Comparator) (raw1 : ℕ) (raw2 : Option ℕ) (kind : ScanType) (n handle : ℕ)
    (positive : 0 < n) where
  -- Only the bytes of the snapshot matter.
  pub Scanned-agree :
      (info : MemoryInfo) (c d : ℕ → ℕ) (limit more : ℕ) (s : Scan)
      (h : Scanned os cmp raw1 raw2 kind n handle info c limit s)
      → ((j : ℕ) → h.position ≤ j → j < h.position + info.region_size → d j ≡ c j)
      → limit ≤ more
      → Scanned os cmp raw1 raw2 kind n handle info d more s
  Scanned-agree info c d limit more s h agree grows = record {
    region = h.region;
    time = h.time;
    success = h.success;
    position = h.position;
    here = h.here;
    same = h.same;
    kept = h.kept;
    span = h.span;
    within = omega (arith, h.within);
    answer = h.answer;
    content = λ j lt. agree (h.position + j) (omega arith) (omega arith) ∙ h.content j lt;
    verdict = rw (hits_agree d c h.region n positive bytes cmp raw1 raw2) h.verdict;
    found = rw (entries_agree d c h.region n positive bytes cmp raw1 raw2) h.found;
  }
    where
      at : raw_bytes h.region ≡ record { position = h.position; size = info.region_size }
      at = rw (h.span) refl

      bytes : SameBytes h.region d c
      bytes = rw at agree

  -- Bytes that are written behind the snapshot do not.
  pub Scanned-keep :
      (info : MemoryInfo) (c d : ℕ → ℕ) (limit more : ℕ) (s : Scan)
      → ((j : ℕ) → j < limit → d j ≡ c j)
      → limit ≤ more
      → Scanned os cmp raw1 raw2 kind n handle info c limit s
      → Scanned os cmp raw1 raw2 kind n handle info d more s
  Scanned-keep info c d limit more s agree grows h =
      Scanned-agree info c d limit more s h (λ j lo hi. agree j (omega (arith, h.within))) grows

  -- The state after the task of `info`: its scan is as in `Scanned`, in the next bytes of the file.
  abbrev pub Tasked : MemoryInfo → World → Option (Scan × World) → Type 0
  Tasked info w none = ⊥
  Tasked info w (some (s, w')) =
      Scanned os cmp raw1 raw2 kind n handle info w'.cells w'.file.offset s
      × (w'.file.offset ≡ w.file.offset + info.region_size)
      × ((j : ℕ) → j < w.file.offset → w'.cells j ≡ w.cells j)
      × IsMapped w'.file
      × IsLean w'.file

  module _ (info : MemoryInfo) (w w' : World) (r : Region) (success : Bool)
      (c : Captured os (new_region info handle) w success r w') where
    -- The scan once its region has been read.
    abbrev read_scan : Scan
    read_scan = task_of kind n r

    scanned :
        (s : Scan)
        → s.region ≡ some r
        → s.kind ≡ kind
        → s.elem_size ≡ n
        → s.valid
          ≡ (success && (is_unknown kind || ltb 0 (length (hits w'.cells r n cmp raw1 raw2))))
        → s.results ≡ (
            if success && not (is_unknown kind)
            then map (entry_at w'.cells r n) (hits w'.cells r n cmp raw1 raw2)
            else [])
        → Tasked info w (some (s, w'))
    scanned s here k e verdict found = (
      record {
        region = r;
        time = c.time;
        success = success;
        position = w.file.offset;
        here = here;
        same = c.info;
        kept = (k, e);
        span = c.spans;
        within = omega (arith, c.offset);
        answer = c.answer;
        content = c.content;
        verdict = verdict;
        found = found;
      },
      c.offset,
      c.below,
      c.mapped,
      c.lean,
    )

  task-Snapped :
      (info : MemoryInfo) (w : World) (o : Option ((Bool × Region) × World))
      → CanMap os
      → read_memory os (new_region info handle) w ≡ o
      → Snapped os (new_region info handle) w o
      → Tasked info w (scan_task os cmp raw1 raw2 (task_of kind n (new_region info handle)) w)
  unfolding scan_task
  task-Snapped info w none can e h = absurd h
  task-Snapped info w (some ((success, r), w')) can e (inl s) =
      absurd (not-MapFailed os can s.unmapped)
  task-Snapped info w (some ((false, r), w')) can e (inr c) =
      rw (e, ◌>>=◌)
        (scanned info w w' r false c (read_scan info w w' r false c) refl refl refl refl refl)
  task-Snapped info w (some ((true, r), w')) can e (inr c) = elim (Bool-cases (is_unknown kind)) [
    | inl u ↦
        rw (e, ◌>>=◌, u)
          (scanned info w w' r true c (record (read_scan info w w' r true c) { valid = true }) refl
            refl refl (rw u) (rw u))
    | inr k ↦
        rw
          (
            e,
            ◌>>=◌,
            k,
            search_value-hits w'.cells r cmp raw1 raw2 (read_scan info w w' r true c) refl,
          )
          (scanned info w w' r true c _ refl refl refl (rw k) (rw k))
  ]

  -- The task of a new region, on a file whose map is up to date and a system whose calls on the file
  -- succeed, does not fault.
  pub scan_task-Tasked :
      (info : MemoryInfo) (w : World)
      → MapsExactly os
      → CanGrow os
      → ReadsWithin os
      → CanMap os
      → IsMapped w.file
      → IsLean w.file
      → 0 < info.region_size
      → HasSpace info.region_size w.file
      → Tasked info w (scan_task os cmp raw1 raw2 (task_of kind n (new_region info handle)) w)
  scan_task-Tasked info w exact grow short can inv lean nonempty space =
      task-Snapped info w (read_memory os (new_region info handle) w) can refl
        (read_memory-Snapped os info handle w exact grow short inv nonempty lean space)
