-- ===== src/Scanner.antt =====
-- Class `slow_scanner` of slow_scanner.h and src/slow_scanner.cpp: which regions are read, the first
-- scan of them, and the scans that narrow down what an earlier scan has found.
pub mod Regions
pub mod Coverage
pub mod Task
pub mod Sort
pub mod First
pub mod Ordered
pub mod Steady
pub mod Threads
pub mod Next
use slow_scanner.Prelude.{
  ℕ, zero, suc, ◌+◌, ◌-◌, ◌*◌, ◌/◌, Bool, true, false, not, ◌&&◌, ◌||◌, Option, none, some, List,
  [], ◌∷◌, ◌++◌, if◌then◌else◌, ltb, leb, ◌==◌, length, select, min, max,
}
use slow_scanner.Words.{u64, sub64, load, long_to_handle}
use slow_scanner.World.{MemoryInfo, Os, World, M, pure, fault, call, ◌>>=◌}
use slow_scanner.Region.{
  Region, new_region, base, size, has_protection_flags, is_commited, is_memmapped, read_memory,
  raw_bytes,
}
use slow_scanner.Scan.{
  Scan, ScanType, ScanEntry, Comparator, unknown_value, unchanged, changed, decreased_value,
  increased_value, new_scan, set_valid, add_result, search_value,
}
use slow_scanner.Compare.{ElementType, FloatFormat, element_size, make_comparator}

-- `range`: the two pointers, the second one past the end.
pub record AddressRange : Type 0 where
  pub first : ℕ
  pub second : ℕ

-- The two `if`s after the query: the base is moved up to the start of the range, and the size cut
-- down to its end.
unfoldable pub clip : AddressRange → MemoryInfo → MemoryInfo
clip range info =
    let low =
      (if ltb info.base_address range.first
        then record info { base_address = range.first }
        else info) in
    if ltb range.second (u64 (low.base_address + low.region_size))
    then record low { region_size = sub64 range.second low.base_address }
    else low

-- The condition under which a region is queued.
unfoldable pub eligible : ℕ → Region → Bool
eligible protect r = has_protection_flags r protect && is_commited r && not (is_memmapped r)

-- The loop of `get_regions`, on fuel; it is a fault to run out of it.
unfoldable pub region_loop : ℕ → Os → ℕ → AddressRange → ℕ → ℕ → List Region → M (List Region)
region_loop zero os handle range protect current regions = fault
region_loop (suc fuel) os handle range protect current regions =
    let step : M (List Region) = (do
      result ← call (λ t. os.virtual_query t (long_to_handle handle) current)
      elim result [
        | none ↦ pure regions
        | some info ↦
            let region = new_region (clip range info) handle in
            region_loop fuel os handle range protect (u64 (base region + size region))
              (if eligible protect region then regions ++ region ∷ [] else regions)
      ]) in
    if ltb current range.second then step else pure regions

-- `get_regions`: each round moves on by a byte at least, so the length of the range is fuel enough.
unfoldable pub get_regions : Os → ℕ → AddressRange → ℕ → M (List Region)
unfolding region_loop
get_regions os handle range protect =
    region_loop (suc (range.second - range.first)) os handle range protect range.first []

-- `s->region()->…`: a null pointer that is followed is a fault.
abbrev pub region_of : Scan → M Region
region_of s = elim s.region [ none ↦ fault | some r ↦ pure r ]

-- A `scan` that is made; the constructor's exception is not caught anywhere.
abbrev pub make_scan : Option Scan → M Scan
make_scan none = fault
make_scan (some s) = pure s

abbrev pub searched : World → Option (ℕ × Scan) → Option (Scan × World)
searched w none = none
searched w (some (count, s)) = some (s, w)

abbrev pub finish_search : Comparator → ℕ → Option ℕ → Scan → M Scan
finish_search cmp raw1 raw2 s w = searched w (search_value w.cells cmp raw1 raw2 s)

abbrev pub is_unknown : ScanType → Bool
is_unknown unknown_value = true
is_unknown _ = false

-- The task of one region in `first_scan`: what a worker of the pool runs.
unfoldable pub scan_task : Os → Comparator → ℕ → Option ℕ → Scan → M Scan
scan_task os cmp raw1 raw2 s = do
  r ← region_of s
  (done, r') ← read_memory os r
  let s' = record s { region = some r' }
  if not done
      then pure s'
      else if is_unknown s'.kind
      then pure (set_valid s')
      else finish_search cmp raw1 raw2 s'

unfoldable pub run_tasks : Os → Comparator → ℕ → Option ℕ → List Scan → M (List Scan)
run_tasks os cmp raw1 raw2 [] = pure []
run_tasks os cmp raw1 raw2 (s ∷ queue) = do
  s' ← scan_task os cmp raw1 raw2 s
  rest ← run_tasks os cmp raw1 raw2 queue
  pure (s' ∷ rest)

unfoldable pub make_scans : ScanType → ℕ → List Region → M (List Scan)
make_scans kind elem_size [] = pure []
make_scans kind elem_size (r ∷ rs) = do
  s ← make_scan (new_scan (some r) kind elem_size)
  rest ← make_scans kind elem_size rs
  pure (s ∷ rest)

-- Only scans that were made with a region are sorted, and no operation takes it from them.
abbrev pub scan_base : Scan → ℕ
scan_base s = elim s.region [ none ↦ 0 | some r ↦ base r ]

-- `std::sort` by the base address.
unfoldable pub insert_scan : Scan → List Scan → List Scan
insert_scan s [] = s ∷ []
insert_scan s (t ∷ ts) =
    if ltb (scan_base t) (scan_base s) then t ∷ insert_scan s ts else s ∷ t ∷ ts

unfoldable pub sort_scans : List Scan → List Scan
unfolding insert_scan
sort_scans [] = []
sort_scans (s ∷ ss) = insert_scan s (sort_scans ss)

-- `first_scan`. `schedule` is the order in which the pool comes to run the tasks.
unfoldable pub first_scan :
    Os
    → FloatFormat
    → FloatFormat
    → (List Scan → List Scan)
    → ℕ
    → AddressRange
    → ℕ
    → ScanType
    → ElementType
    → ℕ
    → Option ℕ
    → M (List Scan)
first_scan os f32 f64 schedule handle range protect kind elem raw1 raw2 = do
  let cmp = make_comparator f32 f64 kind elem
  regions ← get_regions os handle range protect
  tasks ← make_scans kind (element_size elem) regions
  scans ← run_tasks os cmp raw1 raw2 (schedule tasks)
  pure (sort_scans (select (λ s. s.valid) scans))
