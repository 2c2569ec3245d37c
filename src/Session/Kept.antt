-- ===== src/Session/Kept.antt =====
-- What every call of the scanner leaves true.
use slow_scanner.Prelude.{
  ℕ, ◌+◌, ◌-◌, ◌*◌, ◌%◌, ◌^◌, ◌≤◌, ◌≡◌, refl, true, Option, none, some, List, [], arith, All,
}
use Prim.Native.String.{String}
use slow_scanner.World.{Os, World, ◌>>=◌}
use slow_scanner.File.{page_size, open_file}
use slow_scanner.File.Reserve.{MapsExactly, CanGrow, IsLean, IsMapped}
use slow_scanner.Pool.{new_pool}
use slow_scanner.Scan.{Scan}
use slow_scanner.Scanner.{AddressRange, get_regions}
use slow_scanner.Scanner.Coverage.{QueriesPages}
use slow_scanner.Scanner.Task.{CanMap}
use slow_scanner.Scanner.Ordered.{ScanChain}
use slow_scanner.Region.Fetch.{ReadsWithin}
use slow_scanner.Scanner.Threads.Outcome.{IsFair}
use slow_scanner.Session.Snapshots.{IsSnapshot}
use slow_scanner.Session.{
  SlowScanner, construct_scanner, get_instance, Command, attach, first, next, Session,
}

-- The dump file can be created anew, and is empty.
abbrev pub CreatesEmpty : Os → Type 0
CreatesEmpty os =
    ((t : ℕ) (name : String) → os.create_file t name ≡ true)
    × ((t : ℕ) → os.get_file_size t ≡ some 0)

-- A system whose calls succeed.
pub record Serves (os : Os) : Type 0 where
  pub creates : CreatesEmpty os
  pub exact : MapsExactly os
  pub grow : CanGrow os
  pub can : CanMap os
  pub pages : QueriesPages os
  pub short : ReadsWithin os

-- The bytes that a call may write to the file.
abbrev pub bytes_of : Command → ℕ
bytes_of (attach handle) = 0
bytes_of (first q turns) = q.range.second - q.range.first
bytes_of (next q) = q.range.second - q.range.first

-- A range of whole pages from its start on, in the user's part of the address space.
pub record IsRange (r : AddressRange) : Type 0 where
  pub start : r.first % page_size ≡ 0
  pub order : r.first ≤ r.second
  pub low : r.second ≤ 2 ^ 47

abbrev pub IsValid : Command → Type 0
IsValid (attach handle) = Unit {0}
IsValid (first q turns) = IsRange q.range
IsValid (next q) = IsRange q.range

abbrev pub Fits : ℕ → Type 0
Fits n = 8 * n + 3 * page_size ≤ 2 ^ 64

-- The tasks of a first scan have the turns that they need.
abbrev pub FairFor : Os → Command → Option (SlowScanner × World) → Type 0
FairFor os (first q turns) (some (this, w)) =
    IsFair turns (get_regions os this.process_handle q.range q.protect w)
FairFor os _ _ = Unit {0}

-- Once the scanner is constructed: its file is mapped as far as it reaches, and has not more than
-- `spent` bytes written; the caller's scans are in order, and each still has the memory that was read
-- for it.
pub record Usable (os : Os) (this : SlowScanner) (spent : ℕ) (scans : List Scan) (w : World)
    : Type 0 where
  pub mapped : IsMapped w.file
  pub lean : IsLean w.file
  pub written : w.file.offset ≤ spent
  pub chained : ScanChain 0 scans
  pub snapshots : All (IsSnapshot os w.cells w.file.offset) scans
  pub eight : this.pool ≡ new_pool 8

abbrev pub UsableIf : Os → Option SlowScanner → ℕ → List Scan → World → Type 0
UsableIf os none spent scans w = scans ≡ []
UsableIf os (some this) spent scans w = Usable os this spent scans w

abbrev pub Kept : Os → ℕ → Session → World → Type 0
Kept os spent s w = UsableIf os s.instance spent s.scans w

abbrev pub Performed : Os → ℕ → Option (Session × World) → Type 0
Performed os spent none = ⊥
Performed os spent (some (s, w)) = Kept os spent s w

abbrev pub Got : Os → ℕ → List Scan → Option (SlowScanner × World) → Type 0
Got os spent scans none = ⊥
Got os spent scans (some (this, w)) = Usable os this spent scans w

module _ (os : Os) (serves : Serves os) where
  construct_scanner-Got : (spent : ℕ) (w : World) → Got os spent [] (construct_scanner os w)
  unfolding construct_scanner open_file
  construct_scanner-Got spent w =
      rw (◌>>=◌, serves.creates.0 w.clock "dump.bin", serves.creates.1 (w.clock + 1))
        (record {
          mapped = record {
            open_handle = refl;
            is_valid = refl;
            within = omega arith;
            bounded = omega arith;
            covered = (refl, refl);
          };
          lean = omega arith;
          written = omega arith;
          chained = tt;
          snapshots = tt;
          eight = refl;
        })

  pub get_instance-Got :
      (instance : Option SlowScanner) (spent : ℕ) (scans : List Scan) (w : World)
      → UsableIf os instance spent scans w
      → Got os spent scans (get_instance os instance w)
  unfolding get_instance
  get_instance-Got none spent scans w h = rw h (construct_scanner-Got spent w)
  get_instance-Got (some this) spent scans w h = h
