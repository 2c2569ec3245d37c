-- ===== src/Tests/Setting.antt =====
-- A system, a file and a scanned process for the examples.
use slow_scanner.Prelude.{
  ℕ, ◌+◌, ◌*◌, ◌/◌, ◌^◌, refl, take, length-take-le, true, none, some, [], ◌∷◌, arith,
  if◌then◌else◌, ltb, leb, ◌==◌,
}
use slow_scanner.World.{MemoryInfo, Os, MFile, World}
use slow_scanner.File.{page_size}
use slow_scanner.File.Reserve.{MapsExactly, CanGrow, IsMapped}
use slow_scanner.Region.{mem_commit}
use slow_scanner.Compare.{FloatFormat}
use slow_scanner.Scanner.{AddressRange}
use slow_scanner.Scanner.Coverage.{QueriesPages}
use slow_scanner.Scanner.Task.{CanMap}
use slow_scanner.Region.Fetch.{ReadsWithin}
use slow_scanner.Session.Kept.{Serves}

-- Committed private memory, a page at a time, up to 2 ^ 62; each page starts with the bytes 5, 9, 5.
abbrev pub page_at : ℕ → MemoryInfo
page_at address = record {
  base_address = address / page_size * page_size;
  region_size = page_size;
  state = mem_commit;
  protect = 4;
  kind = 0x20000;
}

abbrev pub good_os : Os
good_os = record {
  create_file = λ t name. true;
  get_file_size = λ t. some 0;
  set_file_pointer = λ t size. true;
  set_end_of_file = λ t size. true;
  make_mmap_sink = λ t name offset n. some (record { start = offset; length = n });
  new_address = λ t. t;
  read_process_memory = λ t handle address n. (true, take n (5 ∷ 9 ∷ 5 ∷ []));
  virtual_query = λ t handle address. if ltb address (2 ^ 62) then some (page_at address) else none;
}

-- The same, but for the mappings, which all fail.
abbrev pub unmapping_os : Os
unmapping_os = record good_os { make_mmap_sink = λ t name offset n. none }

pub good_os-MapsExactly : MapsExactly good_os
good_os-MapsExactly t name offset n v positive e = ground arith

pub good_os-CanGrow : CanGrow good_os
good_os-CanGrow t size = (refl, refl)

pub unmapping_os-CanGrow : CanGrow unmapping_os
unmapping_os-CanGrow t size = (refl, refl)

pub good_os-CanMap : CanMap good_os
good_os-CanMap t name offset n positive = (record { start = offset; length = n }, refl)

pub good_os-QueriesPages : QueriesPages good_os
good_os-QueriesPages t handle address info e = ground arith

pub good_os-ReadsWithin : ReadsWithin good_os
good_os-ReadsWithin t handle address n = length-take-le {A = ℕ} n (5 ∷ 9 ∷ 5 ∷ [])

pub good_os-Serves : Serves good_os
good_os-Serves = record {
  creates = ((λ t name. refl), (λ t. refl));
  exact = good_os-MapsExactly;
  grow = good_os-CanGrow;
  can = good_os-CanMap;
  pages = good_os-QueriesPages;
  short = good_os-ReadsWithin;
}

-- A dump file to which nothing has been written.
abbrev pub new_file : MFile
new_file = record {
  file_handle = true;
  filename = "dump";
  size = 0;
  offset = 0;
  valid = true;
  current_map = none;
  map_offset = 0;
}

-- One of a page, of which 4000 bytes are written.
abbrev pub used_file : MFile
used_file = record {
  file_handle = true;
  filename = "dump";
  size = 4096;
  offset = 4000;
  valid = true;
  current_map = some (record { address = 7; map = some (record { start = 0; length = 4096 }) });
  map_offset = 4000;
}

abbrev pub world_of : MFile → World
world_of f = record { file = f; cells = λ j. 5; clock = 0 }

pub new_file-IsMapped : IsMapped new_file
new_file-IsMapped = record {
  open_handle = refl;
  is_valid = refl;
  within = omega arith;
  bounded = omega arith;
  covered = (refl, refl);
}

pub used_file-IsMapped : IsMapped used_file
used_file-IsMapped = record {
  open_handle = refl;
  is_valid = refl;
  within = omega arith;
  bounded = omega arith;
  covered = (record { start = 0; length = 4096 }, refl, refl, refl);
}

abbrev pub one_page : AddressRange
one_page = record { first = 0x10000; second = 0x11000 }

-- Numbers in place of a floating-point format.
abbrev pub whole : FloatFormat
whole = record {
  Real = ℕ;
  of_bits = λ n. n;
  zero = 0;
  eps = 0;
  plus = ◌+◌;
  minus = λ x y. x;
  magnitude = λ x. x;
  less = ltb;
  less_eq = leb;
  equal = ◌==◌;
}
