-- ===== src/Tests/Nexts.antt =====
-- Examples for a later scan as a whole.
use slow_scanner.Prelude.{◌≡◌, refl, true, none, some, [], ◌∷◌, arith, ◌==◌}
use slow_scanner.Region.{Region, new_region}
use slow_scanner.Scan.{Scan, Comparator, exact_value, changed}
use slow_scanner.Compare.{u32}
use slow_scanner.Scanner.Next.{Progress, next_loop, next_scan}
use slow_scanner.Scanner.Next.Reads.{HasSnapshot}
use slow_scanner.Scanner.Next.Outcome.{NextScanned, next_scan-NextScanned}
use slow_scanner.Scanner.Ordered.{ScanChain}
use slow_scanner.Scanner.Next.Merge.{each_region, next_loop-each_region}
use slow_scanner.Tests.Setting.{
  good_os, good_os-MapsExactly, good_os-CanGrow, good_os-ReadsWithin, good_os-CanMap,
  good_os-QueriesPages, used_file, world_of, used_file-IsMapped, page_at, one_page, whole,
}

-- A page whose snapshot is the first 4000 bytes of the file, with one result.
abbrev old_region : Region
old_region = record (new_region (record (page_at 0x10000) { region_size = 4000 }) 7) {
  dumped = record {
    spans = (record { position = 0; size = 4000 }) ∷ [];
    in_memory = [];
    maps = [];
  };
  mem_reserved = true;
}

abbrev old_scan : Scan
old_scan = record {
  region = some old_region;
  kind = exact_value;
  elem_size = 4;
  valid = true;
  results = (record { value = 5; snapshot_value = 5; element_index = 3 }) ∷ [];
}

old_scan-HasSnapshot : HasSnapshot old_scan
old_scan-HasSnapshot = record {
  region = old_region;
  here = refl;
  full = refl;
  low = omega arith;
  within = (omega arith, tt);
}

next_scan-NextScanned_example :
    NextScanned good_os whole whole 7 one_page 4 changed u32
      (old_scan ∷ [])
      9
      none
      (world_of used_file)
      (next_scan good_os whole whole 7 one_page 4 changed u32
        (old_scan ∷ [])
        9
        none
        (world_of used_file))
next_scan-NextScanned_example =
    next_scan-NextScanned good_os whole whole 7 one_page 4 changed u32 (old_scan ∷ []) 9 none
      (world_of used_file) good_os-MapsExactly good_os-CanGrow good_os-ReadsWithin good_os-CanMap
      good_os-QueriesPages (old_scan-HasSnapshot, tt) (omega arith) (omega arith) (omega arith)
      used_file-IsMapped (omega arith) (omega arith)

abbrev equals : Comparator
equals a b c = a == b

abbrev nothing_yet : Progress
nothing_yet = record { results = []; raw1 = 5 }

-- Two earlier scans, one behind the other, and two regions, each of which overlaps one of them.
abbrev far_scan : Scan
far_scan = record old_scan {
  region = some (new_region (record (page_at 0x14000) { region_size = 96 }) 7);
}

next_loop-each_region_example :
    next_loop good_os equals exact_value 4 none
      (new_region (page_at 0x10000) 7 ∷ new_region (page_at 0x14000) 7 ∷ [])
      (old_scan ∷ far_scan ∷ [])
      nothing_yet
      (world_of used_file)
    ≡ each_region good_os equals exact_value 4 none
        (old_scan ∷ far_scan ∷ [])
        (new_region (page_at 0x10000) 7 ∷ new_region (page_at 0x14000) 7 ∷ [])
        nothing_yet
        (world_of used_file)
next_loop-each_region_example =
    next_loop-each_region good_os equals exact_value 4 none
      (new_region (page_at 0x10000) 7 ∷ new_region (page_at 0x14000) 7 ∷ [])
      (old_scan ∷ far_scan ∷ []) nothing_yet (world_of used_file) 0x10000 0x20000 0
      (omega arith, (omega arith, omega arith)) (omega arith) chained
  where
    chained : ScanChain 0 (old_scan ∷ far_scan ∷ [])
    chained = (
      old_region,
      refl,
      omega arith,
      omega arith,
      (
        new_region (record (page_at 0x14000) { region_size = 96 }) 7,
        refl,
        omega arith,
        omega arith,
        tt,
      ),
    )
