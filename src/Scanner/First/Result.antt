-- ===== src/Scanner/First/Result.antt =====
-- `first_scan`: whatever the order in which the pool runs the tasks, its result is the sorted list of
-- the scans that found something, over the memory as it was read.
use mathlib.Core.List.{Permᴰ}
use slow_scanner.Prelude.{
  ℕ, ◌+◌, ◌≤◌, ◌<◌, ◌≡◌, refl, ap, ap₂, Option, none, some, List, [], ◌∷◌, arith, map, select, All,
}
use slow_scanner.World.{MemoryInfo, Os, World}
use slow_scanner.Region.{Region, new_region, base, size}
use slow_scanner.Scan.{Scan, ScanType, Comparator}
use slow_scanner.Compare.{ElementType, FloatFormat, element_size, make_comparator}
use slow_scanner.Scanner.{AddressRange, get_regions}
use slow_scanner.Scanner.Regions.{QueryCovers, IsListed}
use slow_scanner.Scanner.Coverage.{QueriesPages, Chain}
use slow_scanner.Scanner.Task.{task_of}
use slow_scanner.Scanner.Sort.{IsSorted, total}
use slow_scanner.Scanner.First.{element_size_positive, task, Each}

pub QueriesPages-QueryCovers : (os : Os) → QueriesPages os → QueryCovers os
QueriesPages-QueryCovers os pages t handle address info e =
    let q = pages t handle address info e in (omega (arith, q.0), omega (arith, q.0, q.1, q.2), q.3)

-- The pool runs every task once.
abbrev pub Reorders : (List Scan → List Scan) → Type 0
Reorders schedule = (tasks : List Scan) → Permᴰ (schedule tasks) tasks

abbrev pub infos_of : List Region → List MemoryInfo
infos_of = map (λ r. r.info)

module _ (os : Os) (kind : ScanType) (n handle : ℕ) (range : AddressRange) (protect : ℕ) where
  pub tasks-infos :
      (rs : List Region)
      → All (IsListed os handle range protect) rs
      → map (task_of kind n) rs ≡ map (λ i. task_of kind n (new_region i handle)) (infos_of rs)
  tasks-infos [] h = refl
  tasks-infos (r ∷ rs) h = ap₂ ◌∷◌ (ap (task_of kind n) (h.0.is_new)) (tasks-infos rs h.1)

  pub nonempty_infos :
      (rs : List Region)
      → All (IsListed os handle range protect) rs
      → All (λ (i : MemoryInfo). 0 < i.region_size) (infos_of rs)
  nonempty_infos [] h = tt
  nonempty_infos (r ∷ rs) h = (h.0.nonempty, nonempty_infos rs h.1)

pub total-Chain :
    (low high : ℕ) (rs : List Region)
    → Chain low rs high
    → low + total (λ (i : MemoryInfo). i.region_size) (infos_of rs) ≤ high
total-Chain low high [] c = omega arith
total-Chain low high (r ∷ rs) c = omega (arith, total-Chain (base r + size r) high rs c.1)

-- The outcome of `first_scan`: the regions that `get_regions` listed were each scanned once, in the
-- order of the run; each scan's region is a snapshot as in `Scanned`, undisturbed by the tasks run
-- later; and the result is those scans that are valid, by ascending base address.
pub record FirstScan (os : Os) (cmp : Comparator) (raw1 : ℕ) (raw2 : Option ℕ) (kind : ScanType)
    (n : ℕ) (positive : 0 < n) (handle : ℕ) (range : AddressRange) (protect : ℕ) (w : World)
    (scans : List Scan) (w' : World) : Type 0 where
  pub listing : List Region
  pub listed_at : World
  pub listed : get_regions os handle range protect w ≡ some (listing, listed_at)
  pub order : List MemoryInfo
  pub reordered : Permᴰ order (map (λ r. r.info) listing)
  pub ran : List Scan
  pub each : Each os cmp raw1 raw2 kind n handle positive w'.cells w'.file.offset order ran
  pub kept : Permᴰ scans (select (λ s. s.valid) ran)
  pub sorted : IsSorted scans
  pub below : (j : ℕ) → j < w.file.offset → w'.cells j ≡ w.cells j

module _ (os : Os) (f32 f64 : FloatFormat) (schedule : List Scan → List Scan) (handle : ℕ)
    (range : AddressRange) (protect : ℕ) (kind : ScanType) (elem : ElementType) (raw1 : ℕ)
    (raw2 : Option ℕ) (w : World) where
  abbrev pub FirstScanned : Option (List Scan × World) → Type 0
  FirstScanned none = ⊥
  FirstScanned (some (scans, w')) =
      FirstScan os (make_comparator f32 f64 kind elem) raw1 raw2 kind (element_size elem)
        (element_size_positive elem) handle range protect w scans w'

  abbrev small_task : MemoryInfo → Scan
  small_task =
      task os (make_comparator f32 f64 kind elem) raw1 raw2 kind (element_size elem) handle
        (element_size_positive elem)
