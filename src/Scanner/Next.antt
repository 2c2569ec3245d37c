-- ===== src/Scanner/Next.antt =====
-- `slow_scanner::next_scan` of src/slow_scanner.cpp: an earlier scan is narrowed down, region by
-- region, against the memory as it is now.
pub mod Round
pub mod Loop
pub mod Match
pub mod Result
pub mod Outcome
pub mod Reads
pub mod Merge
pub mod Steady
pub mod Added
pub mod Chained
pub mod Complete
pub mod Members
pub mod Unknown
pub mod Addresses
pub mod Places
pub mod Entries
pub mod Values
use slow_scanner.Prelude.{
  ℕ, zero, suc, ◌+◌, ◌-◌, ◌*◌, ◌/◌, Bool, true, false, ◌||◌, ◌&&◌, not, Option, none, some, List,
  [], ◌∷◌, ◌++◌, if◌then◌else◌, ltb, leb, min, max,
}
use slow_scanner.Words.{u64, sub64, load}
use slow_scanner.World.{Os, World, M, pure, fault, ◌>>=◌}
use slow_scanner.Dump.{Span}
use slow_scanner.Region.{Region, base, size, read_memory, raw_bytes, can_read}
use slow_scanner.Scan.{
  Scan, ScanType, ScanEntry, Comparator, unchanged, changed, decreased_value, increased_value,
  new_scan, set_valid, add_result,
}
use slow_scanner.Compare.{ElementType, FloatFormat, element_size, make_comparator}
use slow_scanner.Scanner.{
  AddressRange, get_regions, region_of, make_scan, is_unknown, scan_base, sort_scans,
}

-- The variables of one round once both regions are known: absolute addresses, as `uint64_t`s.
pub record Overlap : Type 0 where
  pub r_start : ℕ
  pub r_end : ℕ
  pub p_start : ℕ
  pub p_end : ℕ

abbrev pub overlap_of : Region → Region → Overlap
overlap_of r p = record {
  r_start = base r;
  r_end = u64 (base r + size r);
  p_start = base p;
  p_end = u64 (base p + size p);
}

abbrev pub ov_start : Overlap → ℕ
ov_start o = max o.r_start o.p_start

abbrev pub ov_end : Overlap → ℕ
ov_end o = min o.r_end o.p_end

abbrev pub overlap_bytes : Overlap → ℕ
overlap_bytes o = if ltb (ov_start o) (ov_end o) then sub64 (ov_end o) (ov_start o) else 0

abbrev pub r_off : Overlap → ℕ
r_off o = sub64 (ov_start o) o.r_start

abbrev pub p_off : Overlap → ℕ
p_off o = sub64 (ov_start o) o.p_start

-- `s->add_result({ v, v, index }); s->set_valid();`
abbrev pub record_hit : ℕ → ℕ → Scan → Scan
record_hit v index s =
    set_valid (add_result (record { value = v; snapshot_value = v; element_index = index }) s)

-- The loop of the branch for an earlier scan of an unknown value, from the offset `i` on. The fuel
-- is the number of rounds left, and `i + elem_sz <= overlap_bytes` its test. Whether the two reads of
-- a round are inside their snapshots is asked by `unknown_reads`, before the outcome is used.
module _ (cells : ℕ → ℕ) (cmp : Comparator) (raw2 : Option ℕ) (elem_sz new_at old_at : ℕ)
    (o : Overlap) where
  unknown_step : ℕ → Scan → Scan
  unknown_step i s =
      let old_v = load cells (old_at + p_off o + i) elem_sz in
      let new_v = load cells (new_at + r_off o + i) elem_sz in
      if cmp new_v old_v raw2 then record_hit new_v (u64 (r_off o + i) / elem_sz) s else s

  unfoldable pub unknown_loop : ℕ → ℕ → Scan → Scan
  unfolding unknown_step
  unknown_loop zero i s = s
  unknown_loop (suc fuel) i s =
      let rest = unknown_loop fuel (u64 (i + elem_sz)) (unknown_step i s) in
      if leb (u64 (i + elem_sz)) (overlap_bytes o) then rest else s

-- The types for which a result is compared with its own earlier value.
abbrev pub uses_snapshot : ScanType → Bool
uses_snapshot unchanged = true
uses_snapshot changed = true
uses_snapshot decreased_value = true
uses_snapshot increased_value = true
uses_snapshot _ = false

-- The loop over the earlier results. `raw1` is a variable of the whole function, and is overwritten.
-- Whether the read of a round is inside the new snapshot is asked by `value_reads`.
module _ (cells : ℕ → ℕ) (cmp : Comparator) (kind : ScanType) (raw2 : Option ℕ) (elem_sz new_at : ℕ)
    (o : Overlap) where
  value_step : ScanEntry → Scan × ℕ → Scan × ℕ
  value_step e (s, raw1) =
      let e_addr = u64 (o.p_start + e.element_index * elem_sz) in
      if ltb e_addr (ov_start o) || ltb (ov_end o) (u64 (e_addr + elem_sz))
      then (s, raw1)
      else let new_index = sub64 e_addr o.r_start / elem_sz in
        let v = load cells (new_at + new_index * elem_sz) elem_sz in
        let ref1 = (if uses_snapshot kind then e.snapshot_value else raw1) in
        (if cmp v ref1 raw2 then record_hit v new_index s else s, ref1)

  unfoldable pub value_loop : List ScanEntry → Scan × ℕ → Scan × ℕ
  unfolding value_step
  value_loop [] state = state
  value_loop (e ∷ es) state = value_loop es (value_step e state)

-- The two branches, on a region that has been read.
unfoldable pub narrow :
    (ℕ → ℕ) → Comparator → ScanType → ℕ → Option ℕ → Scan → Region → Scan → Region → ℕ → Scan × ℕ
narrow cells cmp kind elem_sz raw2 prev p s r raw1 =
    let o = overlap_of r p in
    if is_unknown prev.kind
    then (
      unknown_loop cells cmp raw2 elem_sz (raw_bytes r).position (raw_bytes p).position o
          (suc (overlap_bytes o)) 0 s,
      raw1,
    )
    else value_loop cells cmp kind raw2 elem_sz (raw_bytes r).position o prev.results (s, raw1)

-- The reads of these loops, round by round: does each stay in the bytes of the snapshot that it goes
-- to? One that does not, or that goes through a null pointer, is undefined behaviour.
module _ (elem_sz : ℕ) (new_bytes old_bytes : Span) (o : Overlap) where
  unfoldable pub unknown_reads : ℕ → ℕ → Bool
  unknown_reads zero i = true
  unknown_reads (suc fuel) i =
      let old_read = can_read old_bytes (old_bytes.position + p_off o + i) elem_sz in
      let new_read = can_read new_bytes (new_bytes.position + r_off o + i) elem_sz in
      let rest = unknown_reads fuel (u64 (i + elem_sz)) in
      if leb (u64 (i + elem_sz)) (overlap_bytes o) then old_read && new_read && rest else true

module _ (elem_sz : ℕ) (new_bytes : Span) (o : Overlap) where
  value_read : ScanEntry → Bool
  value_read e =
      let e_addr = u64 (o.p_start + e.element_index * elem_sz) in
      let new_index = sub64 e_addr o.r_start / elem_sz in
      if ltb e_addr (ov_start o) || ltb (ov_end o) (u64 (e_addr + elem_sz))
      then true
      else can_read new_bytes (new_bytes.position + new_index * elem_sz) elem_sz

  unfoldable pub value_reads : List ScanEntry → Bool
  unfolding value_read
  value_reads [] = true
  value_reads (e ∷ es) = value_read e && value_reads es

unfoldable pub narrow_reads : ℕ → Scan → Region → Region → Bool
narrow_reads elem_sz prev p r =
    let o = overlap_of r p in
    if is_unknown prev.kind
    then unknown_reads elem_sz (raw_bytes r) (raw_bytes p) o (suc (overlap_bytes o)) 0
    else value_reads elem_sz (raw_bytes r) o prev.results

-- What the loop of `next_scan` carries along.
pub record Progress : Type 0 where
  pub results : List Scan
  pub raw1 : ℕ

abbrev pub keep_valid : Progress → Scan × ℕ → Progress
keep_valid g (s, raw1) = record {
  results = if s.valid then g.results ++ s ∷ [] else g.results;
  raw1 = raw1;
}

abbrev pub narrow_now :
    Comparator → ScanType → ℕ → Option ℕ → Scan → Region → Scan → Region → Progress → M Progress
narrow_now cmp kind elem_sz raw2 prev p s r g =
    if narrow_reads elem_sz prev p r
    then (λ w. some (keep_valid g (narrow w.cells cmp kind elem_sz raw2 prev p s r g.raw1), w))
    else fault

-- The round of a region that overlaps an earlier scan: the region is read, and what passes is kept.
unfoldable pub match_region :
    Os → Comparator → ScanType → ℕ → Option ℕ → Scan → Region → Region → Progress → M Progress
match_region os cmp kind elem_sz raw2 prev p r g = do
  s ← make_scan (new_scan (some r) kind elem_sz)
  (done, r') ← read_memory os r
  if not done
      then pure g
      else narrow_now cmp kind elem_sz raw2 prev p (record s { region = some r' }) r' g

-- The loop, on the regions that are left and the earlier scans from `idx` on.
module _ (os : Os) (cmp : Comparator) (kind : ScanType) (elem_sz : ℕ) (raw2 : Option ℕ) where
  unfoldable pub next_loop : List Region → List Scan → Progress → M Progress
  next_loop [] prevs g = pure g
  next_loop (r ∷ rs) [] g = pure g
  next_loop (r ∷ rs) (prev ∷ prevs) g =
      let skip_region : M Progress = next_loop rs (prev ∷ prevs) g in
      let skip_scan : M Progress = next_loop (r ∷ rs) prevs g in
      let overlap : Region → M Progress = λ p. (do
        g' ← match_region os cmp kind elem_sz raw2 prev p r g
        next_loop rs (prev ∷ prevs) g') in
      do
        p ← region_of prev
        if leb (overlap_of r p).r_end (overlap_of r p).p_start
            then skip_region
            else if leb (overlap_of r p).p_end (overlap_of r p).r_start
            then skip_scan
            else overlap p

-- `next_scan`: the new `prev_scans`.
unfoldable pub next_scan :
    Os
    → FloatFormat
    → FloatFormat
    → ℕ
    → AddressRange
    → ℕ
    → ScanType
    → ElementType
    → List Scan
    → ℕ
    → Option ℕ
    → M (List Scan)
next_scan os f32 f64 handle range protect kind elem prev_scans raw1 raw2 = do
  let cmp = make_comparator f32 f64 kind elem
  regions ← get_regions os handle range protect
  g ←
      next_loop os cmp kind (element_size elem) raw2 regions prev_scans
        (record { results = []; raw1 = raw1 })
  pure (sort_scans g.results)
