-- ===== src/Scanner/First.antt =====
-- The tasks of `first_scan`, one after another in the order in which the pool comes to run them.
pub mod Result
use mathlib.Core.List.{Permᴰ}
use mathlib.Core.List.Permᴰ
use slow_scanner.Prelude.{
  ℕ, zero, suc, ◌+◌, ◌-◌, ◌*◌, ◌/◌, ◌%◌, ◌^◌, ◌≤◌, ◌<◌, ◌≡◌, refl, ap, sym, Bool, true, false,
  Option, none, some, List, [], ◌∷◌, arith, map, select, if◌then◌else◌,
}
use slow_scanner.World.{MemoryInfo, MFile, Os, World, ◌>>=◌}
use slow_scanner.File.{page_size}
use slow_scanner.Region.{Region, new_region, base, size}
use slow_scanner.Scan.{Scan, ScanType, Comparator, new_scan}
use slow_scanner.Compare.{
  ElementType, u8, u16, u32, u64, float, double, FloatFormat, element_size, make_comparator,
}
use slow_scanner.Scanner.{AddressRange, get_regions, make_scans, sort_scans, first_scan}
use slow_scanner.Scanner.Regions.{IsListed, Listed, get_regions-Listed}
use slow_scanner.Scanner.Coverage.{QueriesPages, Chain, InOrder, get_regions-InOrder}
use slow_scanner.Scanner.Task.{task_of, Scanned, Scanned-keep}
use slow_scanner.Scanner.Sort.{
  IsSorted, sort_scans-perm, sort_scans-IsSorted, total, Permᴰ-All, Permᴰ-total, Permᴰ-map_inv,
}

-- Every element type has a size that the constructor of `scan` accepts.
pub element_size_positive : (e : ElementType) → 0 < element_size e
unfolding element_size
element_size_positive u8 = omega arith
element_size_positive u16 = omega arith
element_size_positive u32 = omega arith
element_size_positive u64 = omega arith
element_size_positive float = omega arith
element_size_positive double = omega arith

pub new_scan-element_size :
    (r : Option Region) (kind : ScanType) (e : ElementType)
    → new_scan r kind (element_size e)
      ≡ some (record {
        region = r;
        kind = kind;
        elem_size = element_size e;
        valid = false;
        results = [];
      })
unfolding new_scan element_size
new_scan-element_size r kind u8 = refl
new_scan-element_size r kind u16 = refl
new_scan-element_size r kind u32 = refl
new_scan-element_size r kind u64 = refl
new_scan-element_size r kind float = refl
new_scan-element_size r kind double = refl

pub make_scans-map :
    (kind : ScanType) (e : ElementType) (rs : List Region) (w : World)
    → make_scans kind (element_size e) rs w ≡ some (map (task_of kind (element_size e)) rs, w)
unfolding make_scans
make_scans-map kind e [] w = refl
make_scans-map kind e (r ∷ rs) w =
    rw (new_scan-element_size (some r) kind e, make_scans-map kind e rs w, ◌>>=◌) refl

module _ (os : Os) (cmp : Comparator) (raw1 : ℕ) (raw2 : Option ℕ) (kind : ScanType) (n handle : ℕ)
    (positive : 0 < n) where
  abbrev task : MemoryInfo → Scan
  task info = task_of kind n (new_region info handle)

  -- The scans of a run, one for each task, in the order of the run.
  abbrev pub Each : (ℕ → ℕ) → ℕ → List MemoryInfo → List Scan → Type 0
  Each cells limit [] [] = Unit {0}
  Each cells limit (info ∷ infos) (s ∷ ss) =
      Scanned os cmp raw1 raw2 kind n handle info cells limit s × Each cells limit infos ss
  Each cells limit _ _ = ⊥

  abbrev Ran : List MemoryInfo → World → Option (List Scan × World) → Type 0
  Ran infos w none = ⊥
  Ran infos w (some (ran, w')) =
      Each w'.cells w'.file.offset infos ran
      × (w.file.offset ≤ w'.file.offset)
      × ((j : ℕ) → j < w.file.offset → w'.cells j ≡ w.cells j)

  abbrev bytes_of : List MemoryInfo → ℕ
  bytes_of = total (λ info. info.region_size)

  Each-keep :
      (c d : ℕ → ℕ) (limit more : ℕ) (infos : List MemoryInfo) (ss : List Scan)
      → ((j : ℕ) → j < limit → d j ≡ c j)
      → limit ≤ more
      → Each c limit infos ss
      → Each d more infos ss
  Each-keep c d limit more [] [] agree grows h = tt
  Each-keep c d limit more [] (s ∷ ss) agree grows h = absurd h
  Each-keep c d limit more (info ∷ infos) [] agree grows h = absurd h
  Each-keep c d limit more (info ∷ infos) (s ∷ ss) agree grows h = (
    Scanned-keep os cmp raw1 raw2 kind n handle positive info c d limit more s agree grows h.0,
    Each-keep c d limit more infos ss agree grows h.1,
  )
