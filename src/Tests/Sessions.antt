-- ===== src/Tests/Sessions.antt =====
-- Examples for the interleaved first scan and for a program's calls of the scanner.
use slow_scanner.Prelude.{
  ℕ, zero, suc, ◌≤◌, ◌<◌, ◌≡◌, refl, sym, subst, true, none, some, Option, [], ◌∷◌, arith,
}
use slow_scanner.World.{World}
use slow_scanner.Region.{Region, new_region, has_protection_flags, is_commited, is_memmapped}
use slow_scanner.Scan.{Scan, exact_value, changed}
use slow_scanner.Compare.{u32}
use slow_scanner.Scanner.{AddressRange, clip, eligible, region_loop, get_regions}
use slow_scanner.Scanner.Threads.{first_scan_threads}
use slow_scanner.Scanner.Threads.Interleave.{count}
use slow_scanner.Scanner.Threads.Outcome.{IsFair}
use slow_scanner.Scanner.Threads.Result.{ThreadsScanned, first_scan_threads-ThreadsScanned}
use slow_scanner.Scanner.Next.{next_scan}
use slow_scanner.Scanner.Next.Chained.{Chained, next_scan-Chained}
use slow_scanner.File.{open_file}
use slow_scanner.Session.{
  Request, Command, attach, first, Session, construct_scanner, get_instance, carry_out, perform,
}
use slow_scanner.Session.Kept.{IsRange, FairFor, Kept, Performed}
use slow_scanner.Session.Search.{search_scan}
use slow_scanner.Session.Reached.{
  Reached, begun, performed, Reached-Kept, perform-Reached, Reached-search_scan,
}
use slow_scanner.Tests.Setting.{
  good_os, good_os-MapsExactly, good_os-CanGrow, good_os-CanMap, good_os-QueriesPages,
  good_os-ReadsWithin, good_os-Serves, new_file, world_of, new_file-IsMapped, page_at, whole,
}

-- The first eight bytes of a page.
abbrev pub eight_bytes : AddressRange
eight_bytes = record { first = 0x10000; second = 0x10008 }

-- A scan of it from before.
abbrev old_scan : Scan
old_scan = record {
  region = some (new_region (page_at 0x10000) 7);
  kind = exact_value;
  elem_size = 4;
  valid = true;
  results = (record { value = 5; snapshot_value = 5; element_index = 1 }) ∷ [];
}

abbrev pub eight_region : Region
eight_region = new_region (record (page_at 0x10000) { region_size = 8 }) 7

pub listed_eight :
    get_regions good_os 7 eight_bytes 4 (world_of new_file)
    ≡ some (eight_region ∷ [], record (world_of new_file) { clock = 1 })
unfolding get_regions region_loop eligible clip has_protection_flags is_commited is_memmapped
listed_eight = refl

-- Three turns of the one task.
IsFair-eight : IsFair (0 ∷ 0 ∷ 0 ∷ []) (get_regions good_os 7 eight_bytes 4 (world_of new_file))
unfolding count
IsFair-eight = subst (IsFair (0 ∷ 0 ∷ 0 ∷ [])) (sym listed_eight) turns
  where
    turns : (i : ℕ) → i < 1 → 3 ≤ count i (0 ∷ 0 ∷ 0 ∷ [])
    turns zero h = omega arith
    turns (suc i) h = absurd (omega (arith, h))

first_scan_threads-ThreadsScanned_example :
    ThreadsScanned good_os whole whole
      (0 ∷ 0 ∷ 0 ∷ [])
      7
      eight_bytes
      4
      exact_value
      u32
      5
      none
      (world_of new_file)
      (first_scan_threads good_os whole whole
        (0 ∷ 0 ∷ 0 ∷ [])
        7
        eight_bytes
        4
        exact_value
        u32
        5
        none
        (world_of new_file))
first_scan_threads-ThreadsScanned_example =
    first_scan_threads-ThreadsScanned good_os whole whole (0 ∷ 0 ∷ 0 ∷ []) 7 eight_bytes 4
      exact_value u32 5 none (world_of new_file) good_os-MapsExactly good_os-CanGrow good_os-CanMap
      good_os-QueriesPages good_os-ReadsWithin IsFair-eight (omega arith) (omega arith)
      (omega arith) new_file-IsMapped (omega arith) (omega arith)

next_scan-Chained_example :
    Chained good_os whole whole 7 eight_bytes 4 changed u32
      (old_scan ∷ [])
      5
      none
      (world_of new_file)
      (next_scan good_os whole whole 7 eight_bytes 4 changed u32
        (old_scan ∷ [])
        5
        none
        (world_of new_file))
next_scan-Chained_example =
    next_scan-Chained good_os whole whole 7 eight_bytes 4 changed u32 (old_scan ∷ []) 5 none
      (world_of new_file) good_os-QueriesPages (omega arith) (omega arith) (omega arith)

-- A program that attaches to a process and scans it.
abbrev request : Request
request = record {
  range = eight_bytes;
  protect = 4;
  kind = exact_value;
  elem = u32;
  raw1 = 5;
  raw2 = none;
}

abbrev start : Session
start = record { instance = none; scans = [] }

abbrev pub scan_eight : Command
scan_eight = first request (0 ∷ 0 ∷ 0 ∷ [])

abbrev outcome : Command → Session → World → Option (Session × World)
outcome c s w = perform good_os whole whole c s w

abbrev after : Option (Session × World) → Session × World
after none = (start, world_of new_file)
after (some state) = state

abbrev attached : Session × World
attached = after (outcome (attach 7) start (world_of new_file))

abbrev scanned : Session × World
scanned = after (outcome scan_eight attached.0 attached.1)

attached-Reached : Reached good_os whole whole 0 attached.0 attached.1
unfolding perform get_instance construct_scanner open_file carry_out
attached-Reached =
    performed (attach 7) 0 start attached.0 (world_of new_file) attached.1
      (begun (world_of new_file)) tt tt refl

IsRange-eight : IsRange eight_bytes
IsRange-eight = record { start = omega arith; order = omega arith; low = omega arith }

FairFor-attached : FairFor good_os scan_eight (get_instance good_os attached.0.instance attached.1)
unfolding perform get_instance construct_scanner open_file carry_out get_regions region_loop
    eligible clip has_protection_flags is_commited is_memmapped count
FairFor-attached = turns
  where
    turns : (i : ℕ) → i < 1 → 3 ≤ count i (0 ∷ 0 ∷ 0 ∷ [])
    turns zero h = omega arith
    turns (suc i) h = absurd (omega (arith, h))

perform-Reached_example : Performed good_os 8 (outcome scan_eight attached.0 attached.1)
perform-Reached_example =
    perform-Reached good_os whole whole good_os-Serves scan_eight attached-Reached IsRange-eight
      FairFor-attached (omega arith)

-- The same, and the scan itself.
is_some : (o : Option (Session × World)) → Performed good_os 8 o → o ≡ some (after o)
is_some none h = absurd h
is_some (some state) h = refl

scanned-Reached : Reached good_os whole whole 8 scanned.0 scanned.1
scanned-Reached =
    performed scan_eight 0 attached.0 scanned.0 attached.1 scanned.1 attached-Reached IsRange-eight
      FairFor-attached (is_some (outcome scan_eight attached.0 attached.1) perform-Reached_example)

Reached-Kept_example : Kept good_os 8 scanned.0 scanned.1
Reached-Kept_example = Reached-Kept good_os whole whole good_os-Serves scanned-Reached (omega arith)

Reached-search_scan_example :
    next_scan good_os whole whole 7 eight_bytes 4 exact_value u32 (scanned.0).scans 5 none scanned.1
    ≡ search_scan good_os whole whole 7 eight_bytes 4 exact_value u32
        (scanned.0).scans
        5
        none
        scanned.1
Reached-search_scan_example =
    Reached-search_scan good_os whole whole good_os-Serves request 7 scanned-Reached (omega arith)
      IsRange-eight
