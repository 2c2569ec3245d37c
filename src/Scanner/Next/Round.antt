-- ===== src/Scanner/Next/Round.antt =====
-- One round of `next_scan`: a listed region that overlaps an earlier scan is read and narrowed.
use slow_scanner.Prelude.{
  ℕ, ◌+◌, ◌≤◌, ◌<◌, ◌≡◌, refl, ◌∙◌, true, false, Option, none, some, List, [], ◌∷◌, ◌++◌, arith,
  All, All-map, Bool-cases, inl, inr,
}
use slow_scanner.World.{MemoryInfo, Os, World}
use slow_scanner.File.Reserve.{IsLean, IsMapped}
use slow_scanner.Region.{Region, new_region, raw_bytes}
use slow_scanner.Region.Snapshot.{Captured}
use slow_scanner.Scan.{Scan, ScanType, ScanEntry, Comparator}
use slow_scanner.Compare.{ElementType, element_size}
use slow_scanner.Scanner.{AddressRange, is_unknown}
use slow_scanner.Scanner.Regions.{IsListed}
use slow_scanner.Scanner.Task.{task_of}
use slow_scanner.Scanner.Next.{
  Overlap, overlap_of, uses_snapshot, value_step, value_loop, narrow, Progress,
}

-- Later states have the bytes that had been written, and more.
abbrev pub Follows : World → World → Type 0
Follows w w' =
    (w.file.offset ≤ w'.file.offset) × ((j : ℕ) → j < w.file.offset → w'.cells j ≡ w.cells j)

pub Follows-refl : (w : World) → Follows w w
Follows-refl w = (omega arith, λ j h. refl)

pub Follows-trans : (u v w : World) → Follows u v → Follows v w → Follows u w
Follows-trans u v w a b = (omega (arith, a.0, b.0), λ j h. b.1 j (omega (arith, a.0)) ∙ a.1 j h)

module _ (cells : ℕ → ℕ) (cmp : Comparator) (kind : ScanType) (raw2 : Option ℕ) (n new_at : ℕ)
    (o : Overlap) (plain : uses_snapshot kind ≡ false) where
  step_raw1 :
      (e : ScanEntry) (s : Scan) (raw1 : ℕ)
      → (value_step cells cmp kind raw2 n new_at o e (s, raw1)).1 ≡ raw1
  unfolding value_step
  step_raw1 e s raw1 = ground arith

  loop_raw1 :
      (es : List ScanEntry) (s : Scan) (raw1 : ℕ)
      → (value_loop cells cmp kind raw2 n new_at o es (s, raw1)).1 ≡ raw1
  unfolding value_loop
  loop_raw1 [] s raw1 = refl
  loop_raw1 (e ∷ es) s raw1 =
      loop_raw1 es (value_step cells cmp kind raw2 n new_at o e (s, raw1)).0
        (value_step cells cmp kind raw2 n new_at o e (s, raw1)).1
      ∙ step_raw1 e s raw1

-- For a scan type that does not look at earlier values, `raw1` is what it was.
pub narrow_raw1 :
    (cells : ℕ → ℕ) (cmp : Comparator) (kind : ScanType) (n : ℕ) (raw2 : Option ℕ) (prev s : Scan)
    (p r : Region) (raw1 : ℕ)
    → uses_snapshot kind ≡ false
    → (narrow cells cmp kind n raw2 prev p s r raw1).1 ≡ raw1
unfolding narrow
narrow_raw1 cells cmp kind n raw2 prev s p r raw1 plain = elim (Bool-cases (is_unknown prev.kind)) [
  | inl unknown ↦ rw unknown refl
  | inr known ↦ rw known (
      loop_raw1 cells cmp kind raw2 n (raw_bytes r).position (overlap_of r p) plain prev.results s
        raw1)
]

-- A result of `next_scan`, in a state that follows: the outcome of `narrow` for a region that is
-- listed and overlaps one of the earlier scans, on the snapshot that was read of it, whose bytes stay.
-- For a scan type that does not look at earlier values, the value compared with is the caller's.
pub record Matched (os : Os) (cmp : Comparator) (kind : ScanType) (n : ℕ) (raw1 : ℕ)
    (raw2 : Option ℕ) (handle : ℕ) (range : AddressRange) (protect : ℕ) (prevs : List Scan)
    (w : World) (s : Scan) : Type 0 where
  pub before : List Scan
  pub prev : Scan
  pub after : List Scan
  pub among : prevs ≡ before ++ prev ∷ after
  pub old : Region
  pub old_region : prev.region ≡ some old
  pub info : MemoryInfo
  pub listed : IsListed os handle range protect (new_region info handle)
  pub overlaps :
      ((overlap_of (new_region info handle) old).p_start
        < (overlap_of (new_region info handle) old).r_end)
      × ((overlap_of (new_region info handle) old).r_start
          < (overlap_of (new_region info handle) old).p_end)
  pub new : Region
  pub start : World
  pub read : World
  pub snapshot : Captured os (new_region info handle) start true new read
  pub since : Follows read w
  pub value : ℕ
  pub plain : uses_snapshot kind ≡ false → value ≡ raw1
  pub outcome : s ≡ (narrow read.cells cmp kind n raw2 prev old (task_of kind n new) new value).0
  pub passed : s.valid ≡ true

module _ (os : Os) (cmp : Comparator) (kind : ScanType) (elem : ElementType) (raw1 : ℕ)
    (raw2 : Option ℕ) (handle : ℕ) (range : AddressRange) (protect : ℕ) (prevs : List Scan) where
  abbrev pub IsMatched : World → Scan → Type 0
  IsMatched w s = Matched os cmp kind (element_size elem) raw1 raw2 handle range protect prevs w s

  pub Matched-Follows : (v w : World) (s : Scan) → Follows v w → IsMatched v s → IsMatched w s
  Matched-Follows v w s f m = record {
    before = m.before;
    prev = m.prev;
    after = m.after;
    among = m.among;
    old = m.old;
    old_region = m.old_region;
    info = m.info;
    listed = m.listed;
    overlaps = m.overlaps;
    new = m.new;
    start = m.start;
    read = m.read;
    snapshot = m.snapshot;
    value = m.value;
    plain = m.plain;
    outcome = m.outcome;
    passed = m.passed;
    since = Follows-trans m.read v w m.since f;
  }

  -- What the loop keeps true.
  pub record Going (g : Progress) (w : World) : Type 0 where
    pub matched : All (IsMatched w) g.results
    pub plain : uses_snapshot kind ≡ false → g.raw1 ≡ raw1

  pub Going-Follows : (g : Progress) (v w : World) → Follows v w → Going g v → Going g w
  Going-Follows g v w f h = record {
    matched =
        All-map (IsMatched v) (IsMatched w) g.results (λ s. Matched-Follows v w s f) h.matched;
    plain = h.plain;
  }

  -- The state after the round of a region of `n` bytes.
  abbrev pub Rounded : ℕ → World → Option (Progress × World) → Type 0
  Rounded n w none = ⊥
  Rounded n w (some (g, w')) =
      Going g w'
      × Follows w w'
      × (w'.file.offset ≡ w.file.offset + n)
      × IsMapped w'.file
      × IsLean w'.file
