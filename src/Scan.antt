-- ===== src/Scan.antt =====
-- Class `scan` of scanner/scan.hpp: one region, and the elements of it that were found.
pub mod Search
pub mod Update
pub mod Agree
use slow_scanner.Prelude.{
  ℕ, zero, suc, ◌+◌, ltb, Bool, true, false, not, ◌||◌, ◌&&◌, Option, none, some, List, [], ◌∷◌,
  ◌++◌, map, if◌then◌else◌, ◌==◌,
}
use slow_scanner.Words.{load, overlay}
use slow_scanner.World.{Os, World, M, pure, fault, ◌>>=◌}
use slow_scanner.Dump.{Span}
use slow_scanner.Region.{
  Region, StridedSpan, read_memory, raw_bytes, can_read, elements_by_size, element,
}

pub data ScanType : Type 0 where
  unknown_value increased_value decreased_value exact_value increased_by decreased_by : ScanType
  smaller_than bigger_than changed unchanged value_between : ScanType

pub record ScanEntry : Type 0 where
  pub value : ℕ
  pub snapshot_value : ℕ
  pub element_index : ℕ

-- `comparator_fn`
abbrev pub Comparator : Type 0
Comparator = ℕ → ℕ → Option ℕ → Bool

pub record Scan : Type 0 where
  pub region : Option Region  -- a `shared_ptr`, which may be null
  pub kind : ScanType  -- `_type`
  pub elem_size : ℕ
  pub valid : Bool
  pub results : List ScanEntry

-- The constructor; `none` is the `std::invalid_argument` that it throws.
unfoldable pub new_scan : Option Region → ScanType → ℕ → Option Scan
new_scan region kind elem_size =
    if not (elem_size == 1 || elem_size == 2 || elem_size == 4 || elem_size == 8)
    then none
    else some (record {
      region = region;
      kind = kind;
      elem_size = elem_size;
      valid = false;
      results = [];
    })

abbrev pub set_valid : Scan → Scan
set_valid s = record s { valid = true }

abbrev pub add_result : ScanEntry → Scan → Scan
add_result e s = record s { results = s.results ++ e ∷ [] }

-- The loop of `search_value`: `_results` and `count`, over the elements from `i` on. A read that leaves
-- the bytes behind the pointer is undefined behaviour, which is `none`.
module _ (cells : ℕ → ℕ) (bytes : Span) (span : StridedSpan) (elem_size : ℕ) (cmp : Comparator)
    (ref1 : ℕ) (ref2 : Option ℕ) where
  search_loop : ℕ → ℕ → List ScanEntry → ℕ → Option (List ScanEntry × ℕ)
  search_loop zero i results count = some (results, count)
  search_loop (suc rounds) i results count =
      let v = load cells (element span i) elem_size in
      let hit = cmp v ref1 ref2 in
      let entry : ScanEntry = record { value = v; snapshot_value = v; element_index = i } in
      let rest =
        search_loop rounds (i + 1) (if hit then results ++ entry ∷ [] else results)
          (if hit then count + 1 else count) in
      if can_read bytes (element span i) elem_size then rest else none

abbrev found : Scan → Option (List ScanEntry × ℕ) → Option (ℕ × Scan)
found s none = none
found s (some (results, count)) = some (count, record s { results = results; valid = ltb 0 count })

-- The rest of `search_value`, through `_region`. Without a region it returns before `_valid` is set.
search_in : (ℕ → ℕ) → Comparator → ℕ → Option ℕ → Scan → Option Region → Option (ℕ × Scan)
search_in cells cmp ref1 ref2 s none = some (0, record s { results = [] })
search_in cells cmp ref1 ref2 s (some r) =
    let span = elements_by_size r s.elem_size in
    found s (search_loop cells (raw_bytes r) span s.elem_size cmp ref1 ref2 span.count 0 [] 0)

-- `search_value`, with the scan as it leaves it.
unfoldable pub search_value : (ℕ → ℕ) → Comparator → ℕ → Option ℕ → Scan → Option (ℕ × Scan)
unfolding search_in search_loop
search_value cells cmp ref1 ref2 s = search_in cells cmp ref1 ref2 s s.region

-- The body of the loop of `update`: the low bytes of `value` are read again.
-- `refresh_all` is a fault unless all these reads are inside the region's bytes.
abbrev pub refresh : (ℕ → ℕ) → StridedSpan → ℕ → ScanEntry → ScanEntry
refresh cells span elem_size e = record e {
  value = overlay e.value elem_size (load cells (element span e.element_index) elem_size);
}

-- Does each of its reads stay in the bytes of the region?
refresh_reads : Region → ℕ → List ScanEntry → Bool
refresh_reads r n [] = true
refresh_reads r n (e ∷ es) =
    can_read (raw_bytes r) (element (elements_by_size r n) e.element_index) n
    && refresh_reads r n es

refresh_all : Scan → Region → M Scan
unfolding refresh_reads
refresh_all s r =
    if refresh_reads r s.elem_size s.results
    then (λ w. some (
      record s {
        region = some r;
        results = map (refresh w.cells (elements_by_size r s.elem_size) s.elem_size) s.results;
      },
      w,
    ))
    else fault

update_region : Os → Scan → Option Region → List ScanEntry → M Scan
update_region os s none entries = pure s
update_region os s (some r) [] = pure s
update_region os s (some r) (e ∷ es) = do (_, r') ← read_memory os r; refresh_all s r'

-- `update`: what `read_memory` returns is not looked at.
unfoldable pub update : Os → Scan → M Scan
unfolding update_region refresh_all
update os s = update_region os s s.region s.results
