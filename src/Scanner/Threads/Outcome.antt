-- ===== src/Scanner/Threads/Outcome.antt =====
-- What `first_scan` comes to, with the steps of its tasks in any order.
use slow_scanner.Prelude.{ℕ, ◌+◌, ◌-◌, ◌≤◌, ◌<◌, ◌≡◌, Option, none, some, List, map, select, length}
use slow_scanner.World.{Os, World}
use slow_scanner.File.Reserve.{IsLean, IsMapped}
use slow_scanner.Region.{Region}
use slow_scanner.Scan.{Scan, ScanType, Comparator}
use slow_scanner.Scanner.{AddressRange, get_regions}
use slow_scanner.Scanner.First.{Each}
use slow_scanner.Scanner.Ordered.{ScanChain}
use slow_scanner.Scanner.Threads.Interleave.{count}

-- Each of the listed regions has three turns at least, so its task comes to its end.
abbrev pub IsFair : List ℕ → Option (List Region × World) → Type 0
IsFair turns none = Unit {0}
IsFair turns (some (rs, w)) = (i : ℕ) → i < length rs → 3 ≤ count i turns

-- The outcome of `first_scan`: a scan of each of the regions that `get_regions` listed, in their
-- order, each as in `Scanned` in the state at the end. Its result is those scans that are valid,
-- still in that order, and it has written no byte before the end of the file.
pub record ThreadsScan (os : Os) (cmp : Comparator) (raw1 : ℕ) (raw2 : Option ℕ) (kind : ScanType)
    (n : ℕ) (positive : 0 < n) (handle : ℕ) (range : AddressRange) (protect : ℕ) (w : World)
    (scans : List Scan) (w' : World) : Type 0 where
  pub listing : List Region
  pub listed_at : World
  pub listed : get_regions os handle range protect w ≡ some (listing, listed_at)
  pub ran : List Scan
  pub each :
      Each os cmp raw1 raw2 kind n handle positive w'.cells w'.file.offset
        (map (λ r. r.info) listing)
        ran
  pub kept : scans ≡ select (λ s. s.valid) ran
  pub chained : ScanChain range.first scans
  pub below : (j : ℕ) → j < w.file.offset → w'.cells j ≡ w.cells j
  pub grows : w.file.offset ≤ w'.file.offset
  pub bytes : w'.file.offset ≤ w.file.offset + (range.second - range.first)
  pub mapped : IsMapped w'.file
  pub lean : IsLean w'.file
