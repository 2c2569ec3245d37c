-- ===== src/Tests/Scans.antt =====
-- Examples for one region, its search and the comparator.
use slow_scanner.Prelude.{
  ℕ, ◌≡◌, ◌≢◌, ◌↔◌, refl, true, false, none, some, [], ◌∷◌, map, arith, ◌==◌, ltb, length,
}
use slow_scanner.Words.{load}
use slow_scanner.World.{World, blit}
use slow_scanner.Region.{Region, new_region, read_memory, fetch}
use slow_scanner.Region.Snapshot.{Snapped, read_memory-Snapped}
use slow_scanner.Scan.{Scan, Comparator, exact_value, increased_by, search_value, update}
use slow_scanner.Scan.Search.{entry_at, hits, Finds, search_value-hits, search_value-Finds}
use slow_scanner.Scan.Update.{now_at, update_lem, update-search_value}
use slow_scanner.Compare.{u8, make_comparator}
use slow_scanner.Compare.Integers.{Means, make_comparator-Means}
use slow_scanner.Tests.Setting.{
  good_os, good_os-MapsExactly, good_os-CanGrow, good_os-ReadsWithin, used_file, world_of,
  used_file-IsMapped, page_at, whole,
}

read_memory-Snapped_example :
    Snapped good_os
      (new_region (page_at 0x10000) 7)
      (world_of used_file)
      (read_memory good_os (new_region (page_at 0x10000) 7) (world_of used_file))
read_memory-Snapped_example =
    read_memory-Snapped good_os (page_at 0x10000) 7 (world_of used_file) good_os-MapsExactly
      good_os-CanGrow good_os-ReadsWithin used_file-IsMapped (omega arith) (omega arith)
      (omega arith)

-- A region of six bytes, that has been read to position 0 of the file.
abbrev small_region : Region
small_region = record {
  dumped = record {
    spans = (record { position = 0; size = 6 }) ∷ [];
    in_memory = [];
    maps = (record { address = 2; map = some (record { start = 0; length = 4096 }) }) ∷ [];
  };
  info = record { base_address = 0x10000; region_size = 6; state = 0x1000; protect = 4; kind = 0 };
  process_handle = 7;
  mem_reserved = true;
}

abbrev small_cells : ℕ → ℕ
small_cells = blit (λ j. 0) 0 (1 ∷ 5 ∷ 2 ∷ 5 ∷ 5 ∷ 9 ∷ [])

abbrev small_scan : Scan
small_scan = record {
  region = some small_region;
  kind = exact_value;
  elem_size = 1;
  valid = false;
  results = [];
}

abbrev equals : Comparator
equals a b c = a == b

search_value-hits_example :
    search_value small_cells equals 5 none small_scan
    ≡ some (
      3,
      record small_scan {
        results = map (entry_at small_cells small_region 1) (1 ∷ 3 ∷ 4 ∷ []);
        valid = true;
      },
    )
unfolding load
search_value-hits_example = search_value-hits small_cells small_region equals 5 none small_scan refl

search_value-Finds_example :
    (count : ℕ) × (s' : Scan) × (search_value small_cells equals 5 none small_scan
      ≡ some (count, s'))
    × (length s'.results ≡ count)
    × (s'.valid ≡ ltb 0 count)
    × Finds small_cells small_region 1 equals 5 none s'.results
search_value-Finds_example =
    search_value-Finds small_cells small_region equals 5 none small_scan refl (omega arith)

-- The scan after the search, and the world after the region has been read once more.
abbrev found_scan : Scan
found_scan = record small_scan {
  results = map (entry_at small_cells small_region 1) (1 ∷ 3 ∷ 4 ∷ []);
  valid = true;
}

abbrev small_world : World
small_world = record (world_of used_file) { cells = small_cells }

abbrev read_world : World
read_world = record small_world { cells = blit small_cells 0 (5 ∷ 9 ∷ 5 ∷ []); clock = 1 }

run_read : read_memory good_os small_region small_world ≡ some ((true, small_region), read_world)
unfolding read_memory fetch
run_read = refl

update_lem_example :
    update good_os found_scan small_world
    ≡ some (
      record found_scan {
        results = map (now_at read_world.cells small_region 1) found_scan.results;
      },
      read_world,
    )
unfolding load
update_lem_example =
    update_lem good_os found_scan small_region small_region true small_world read_world run_read
      (omega arith, (omega arith, (omega arith, tt)))
      (omega arith, (omega arith, (omega arith, tt))) refl nonempty
  where
    nonempty : found_scan.results ≢ []
    nonempty e = cc

make_comparator-Means_example :
    (make_comparator whole whole increased_by u8 3 255 (some 4) ≡ true)
    ↔ Means increased_by 3 255 (some 4)
make_comparator-Means_example =
    make_comparator-Means whole whole increased_by u8 3 255 (some 4) tt (omega arith) (omega arith)
      (omega arith)

-- A file full of fives, and the same after the region has been read.
abbrev fives : World
fives = world_of used_file

abbrev read_fives : World
read_fives = record fives { cells = blit (λ j. 5) 0 (5 ∷ 9 ∷ 5 ∷ []); clock = 1 }

run_fives : read_memory good_os small_region fives ≡ some ((true, small_region), read_fives)
unfolding read_memory fetch
run_fives = refl

found_fives : hits fives.cells small_region 1 equals 5 none ≢ []
unfolding load
found_fives e = cc

abbrev all_found : Scan
all_found = record small_scan {
  results = map (entry_at fives.cells small_region 1) (0 ∷ 1 ∷ 2 ∷ 3 ∷ 4 ∷ 5 ∷ []);
  valid = true;
}

run_search : search_value fives.cells equals 5 none small_scan ≡ some (6, all_found)
unfolding search_value load
run_search = refl

update-search_value_example :
    update good_os all_found fives
    ≡ some (
      record small_scan {
        valid = ltb 0 (length (hits fives.cells small_region 1 equals 5 none));
        results =
            map
              (λ i. now_at read_fives.cells small_region 1 (entry_at fives.cells small_region 1 i))
              (hits fives.cells small_region 1 equals 5 none);
      },
      read_fives,
    )
update-search_value_example =
    update-search_value good_os equals 5 none small_scan small_region small_region true fives
      read_fives 6 all_found (λ j. omega arith) refl run_fives found_fives run_search
