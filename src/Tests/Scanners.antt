-- ===== src/Tests/Scanners.antt =====
-- Examples for the listing of regions, the first scan and the scans after it.
use mathlib.Core.List.Permᴰ
use slow_scanner.Prelude.{
  ℕ, ◌+◌, ◌*◌, ◌≡◌, refl, true, false, none, some, [], ◌∷◌, arith, All, select, range, ◌==◌,
}
use slow_scanner.World.{blit}
use slow_scanner.Region.{Region, new_region, has_protection_flags, is_commited, is_memmapped}
use slow_scanner.Scan.{ScanEntry, Scan, Comparator, exact_value, unknown_value}
use slow_scanner.Compare.{u8, element_size}
use slow_scanner.Scanner.{eligible, get_regions}
use slow_scanner.Scanner.Regions.{Listed, get_regions-Listed}
use slow_scanner.Scanner.Coverage.{InOrder, get_regions-InOrder}
use slow_scanner.Scanner.Coverage.Bytes.{HasByte, IsWanted, get_regions-HasByte}
use slow_scanner.Scanner.First.Result.{QueriesPages-QueryCovers}
use slow_scanner.Scanner.Next.{Overlap, overlap_of, narrow}
use slow_scanner.Scanner.Next.Values
use slow_scanner.Scanner.Next.Addresses
use slow_scanner.Scanner.Next.Values.{narrow-narrowed}
use slow_scanner.Scanner.Next.Unknown.{narrow-with_found, entry_of, with_found, differs}
use slow_scanner.Tests.Setting.{
  good_os, good_os-QueriesPages, new_file, world_of, page_at, one_page,
}

get_regions-Listed_example :
    Listed good_os 7 one_page 4 new_file
      (λ j. 5)
      (get_regions good_os 7 one_page 4 (world_of new_file))
get_regions-Listed_example =
    get_regions-Listed good_os 7 one_page 4 (world_of new_file)
      (QueriesPages-QueryCovers good_os good_os-QueriesPages) (omega arith)

get_regions-InOrder_example :
    InOrder one_page (get_regions good_os 7 one_page 4 (world_of new_file))
get_regions-InOrder_example =
    get_regions-InOrder good_os 7 one_page 4 (world_of new_file) good_os-QueriesPages (omega arith)
      (omega arith) (omega arith)

get_regions-HasByte_example : HasByte 0x10004 (get_regions good_os 7 one_page 4 (world_of new_file))
get_regions-HasByte_example =
    get_regions-HasByte good_os 7 one_page 4 0x10004 (world_of new_file) good_os-QueriesPages
      (omega arith) (omega arith) (omega arith) (omega arith) wanted
  where
    passes : (a : ℕ) → eligible 4 (new_region (page_at a) 7) ≡ true
    passes a = unfold eligible has_protection_flags is_commited is_memmapped in refl

    wanted : IsWanted good_os 7 one_page 4 0x10004
    wanted t a from upto = (page_at a, ground arith, λ h. passes a)

-- Two regions that overlap in the four addresses from 0x10002 on, and their snapshots.
abbrev region_at : ℕ → ℕ → Region
region_at address position = record {
  dumped = record {
    spans = (record { position = position; size = 6 }) ∷ [];
    in_memory = [];
    maps = [];
  };
  info = record { base_address = address; region_size = 6; state = 0x1000; protect = 4; kind = 0 };
  process_handle = 7;
  mem_reserved = true;
}

abbrev old_region : Region
old_region = region_at 0x10000 0

abbrev new_region_now : Region
new_region_now = region_at 0x10002 6

abbrev two_snapshots : ℕ → ℕ
two_snapshots = blit (λ j. 0) 0 (1 ∷ 1 ∷ 5 ∷ 2 ∷ 5 ∷ 5 ∷ 5 ∷ 2 ∷ 7 ∷ 5 ∷ 1 ∷ 1 ∷ [])

abbrev empty_scan : Scan
empty_scan = record {
  region = some new_region_now;
  kind = exact_value;
  elem_size = 1;
  valid = false;
  results = [];
}

abbrev found_at : ℕ → ScanEntry
found_at i = record { value = 5; snapshot_value = 5; element_index = i }

abbrev known_scan : Scan
known_scan = record {
  region = some old_region;
  kind = exact_value;
  elem_size = 1;
  valid = true;
  results = found_at 2 ∷ found_at 4 ∷ found_at 5 ∷ [];
}

abbrev unknown_scan : Scan
unknown_scan = record known_scan { kind = unknown_value; results = [] }

abbrev equals : Comparator
equals a b c = a == b

abbrev both : Overlap
both = overlap_of new_region_now old_region

narrow-narrowed_example :
    ((narrow two_snapshots equals exact_value 1 none known_scan old_region empty_scan new_region_now
        5).0
      ≡ Values.narrowed two_snapshots equals exact_value none u8 6 both empty_scan (
          select
            (Values.survives two_snapshots equals exact_value none u8 6 both 5)
            known_scan.results))
    × All
        (λ e.
          0x10002
            + (Values.moved two_snapshots equals exact_value none u8 6 both e).element_index * 1
          ≡ 0x10000 + e.element_index * 1)
        (select
          (Values.survives two_snapshots equals exact_value none u8 6 both 5)
          known_scan.results)
unfolding element_size
narrow-narrowed_example =
    narrow-narrowed two_snapshots equals exact_value u8 none known_scan empty_scan old_region
      new_region_now 5 refl refl aligned (omega arith, (omega arith, (omega arith, tt)))
  where
    aligned : Addresses.IsAligned both 1
    aligned = record { low = (omega arith, omega arith, omega arith, omega arith); phase = refl }

narrow-with_found_example :
    (narrow two_snapshots equals exact_value 1 none unknown_scan old_region empty_scan
        new_region_now 9
      ≡ (
        with_found two_snapshots equals none 1 6 0 both empty_scan
            (select (differs two_snapshots equals none 1 6 0 both) (range 0 4)),
        9,
      ))
    × ((k : ℕ)
        → 0x10002 + (entry_of two_snapshots equals none 1 6 0 both k).element_index * 1
          ≡ 0x10002 + k * 1)
narrow-with_found_example =
    narrow-with_found two_snapshots equals exact_value 1 none unknown_scan empty_scan old_region
      new_region_now 9 refl (omega arith)
      (omega arith, omega arith, omega arith, omega arith, omega arith, refl)
