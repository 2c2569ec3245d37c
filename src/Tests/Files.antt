-- ===== src/Tests/Files.antt =====
-- Examples for the dump file and what is dumped to it.
use slow_scanner.Prelude.{ℕ, ◌≡◌, ◌≢◌, ◌<◌, ◌≤◌, ◌^◌, refl, none, some, [], ◌∷◌, arith, get_or}
use slow_scanner.Prelude.Int.{pos, negsuc}
use slow_scanner.World.{World, blit}
use slow_scanner.File.{
  resize, expand_size, do_map, reserve, put_bytes, put_sink, put_active, write, open_file,
  open_sized, align, closed_file,
}
use slow_scanner.File.Growth.{Enlarges, expand_size_lem}
use slow_scanner.File.Write.{Written, write-Written}
use slow_scanner.File.Failures.{write_after_failed_map, open_sized_then_write}
use slow_scanner.Dump.{
  Dumpable, empty_dump, no_span, insert_map, insert_active, write_data, dump, span,
}
use slow_scanner.Dump.Spans.{Dumped, dump-Dumped, Retrieves, dump-Retrieves, span_total}
use slow_scanner.Tests.Setting.{
  good_os, unmapping_os, good_os-MapsExactly, good_os-CanGrow, unmapping_os-CanGrow, new_file,
  used_file, world_of, new_file-IsMapped, used_file-IsMapped,
}

write-Written_example :
    Written good_os
      (some (1 ∷ 2 ∷ 3 ∷ []))
      3
      (world_of used_file)
      (write good_os (some (1 ∷ 2 ∷ 3 ∷ [])) 3 (world_of used_file))
write-Written_example =
    write-Written good_os (some (1 ∷ 2 ∷ 3 ∷ [])) 3 (world_of used_file) good_os-MapsExactly
      good_os-CanGrow used_file-IsMapped (omega arith) (omega arith) (omega arith) (omega arith)

dump-Dumped_example :
    Dumped good_os none 500 empty_dump
      (world_of used_file)
      (dump good_os none 500 empty_dump (world_of used_file))
dump-Dumped_example =
    dump-Dumped good_os none 500 empty_dump (world_of used_file) good_os-MapsExactly good_os-CanGrow
      used_file-IsMapped (omega arith) (omega arith) (omega arith) tt

-- The object and the world after two bytes have been dumped to a new file.
abbrev dumped_object : Dumpable
dumped_object = record {
  spans = (record { position = 0; size = 2 }) ∷ [];
  in_memory = [];
  maps = (record { address = 2; map = some (record { start = 0; length = 4096 }) }) ∷ [];
}

abbrev dumped_world : World
dumped_world = record {
  file = record new_file {
    size = 4096;
    offset = 2;
    map_offset = 2;
    current_map = some (record { address = 2; map = some (record { start = 0; length = 4096 }) });
  };
  cells = blit (λ j. 5) 0 (1 ∷ 2 ∷ []);
  clock = 4;
}

run_dump :
    dump good_os (some (1 ∷ 2 ∷ [])) 2 empty_dump (world_of new_file)
    ≡ some ((pos 0, dumped_object), dumped_world)
unfolding dump write_data write reserve expand_size resize do_map put_active put_sink put_bytes
    align insert_active insert_map
run_dump = refl

not_minus_one : pos 0 ≢ negsuc 0
not_minus_one e = cc

dump-Retrieves_example :
    Retrieves
      (some (1 ∷ 2 ∷ []))
      2
      empty_dump
      (world_of new_file)
      (pos 0)
      dumped_object
      dumped_world
dump-Retrieves_example =
    dump-Retrieves good_os (some (1 ∷ 2 ∷ [])) 2 empty_dump (world_of new_file) (pos 0)
      dumped_object dumped_world good_os-MapsExactly good_os-CanGrow new_file-IsMapped (omega arith)
      (omega arith) (omega arith) (omega arith) (omega arith) run_dump not_minus_one

span_total_example :
    ((i : ℕ) → span (pos i) dumped_object ≡ some (get_or dumped_object.spans i no_span))
    × ((k : ℕ) → k < 2 ^ 31 → span (negsuc k) dumped_object ≡ some no_span)
span_total_example = span_total dumped_object (omega arith)

expand_size_lem_example :
    Enlarges good_os 10 (world_of used_file) (expand_size good_os 10 (world_of used_file))
expand_size_lem_example = expand_size_lem good_os 10 (world_of used_file) (omega arith)

write_after_failed_map_example :
    (w' : World) × (write unmapping_os none 200 (world_of used_file) ≡ some ((none, none), w'))
    × (w'.file.size ≡ align 8592)
    × (w'.file.current_map ≡ (world_of used_file).file.current_map)
    × (w'.file.offset ≡ (world_of used_file).file.offset)
    × (write unmapping_os none 100 w' ≡ none)
write_after_failed_map_example =
    write_after_failed_map unmapping_os none none 200 100 (world_of used_file) unmapping_os-CanGrow
      used_file-IsMapped (omega arith) (omega arith) refl (omega arith) eight_pages
  where
    eight_pages : 4100 ≤ align 8592
    eight_pages = unfold align in omega arith

abbrev sized_world : World
sized_world = record { file = record new_file { size = 4096 }; cells = λ j. 5; clock = 4 }

run_open : open_sized good_os "dump" 100 (world_of (closed_file "dump")) ≡ some (tt, sized_world)
unfolding open_sized open_file resize align
run_open = refl

open_sized_then_write_example : write good_os none 100 sized_world ≡ none
open_sized_then_write_example =
    open_sized_then_write good_os "dump" 100 100 none (world_of (closed_file "dump")) sized_world
      (omega arith) run_open refl (omega arith)
