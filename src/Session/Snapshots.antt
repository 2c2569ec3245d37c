-- ===== src/Session/Snapshots.antt =====
-- What the scans that a program holds stand for: memory as it was read, whatever has been scanned since.
use slow_scanner.Prelude.{
  ℕ, ◌+◌, ◌≤◌, ◌<◌, ◌≡◌, ap, ◌∙◌, sym, subst, Bool, true, false, not, ◌&&◌, Option, some, List, [],
  ◌∷◌, arith, get_or, map, select, ◌/◌, All, All-map, ◌*◌, Bool-cases, inl, inr, if◌then◌else◌,
}
use slow_scanner.Words.{long_to_handle}
use slow_scanner.World.{MemoryInfo, Os}
use slow_scanner.Dump.{Span}
use slow_scanner.Region.{Region, size, raw_bytes, first_span}
use slow_scanner.Scan.{Scan, ScanEntry, ScanType, Comparator}
use slow_scanner.Scan.Search.{entry_at, hits, IsFaithful, IsFaithful-select}
use slow_scanner.Scanner.{is_unknown}
use slow_scanner.Scanner.Task.{Scanned}
use slow_scanner.Scanner.First.{Each}
use slow_scanner.Scanner.Next.Places.{le-mul}
use slow_scanner.Scanner.Next.Reads.{HasSnapshot}
use slow_scanner.Session.Places.{HasPlace, HasPlace-IsPlaced}

-- The scan is valid, and its region's span is in the file and holds what a `ReadProcessMemory` that
-- succeeded answered at some time, and zeros behind that. Each of its results is an element of the
-- region, and has the value that is there.
pub record IsSnapshot (os : Os) (cells : ℕ → ℕ) (limit : ℕ) (s : Scan) : Type 0 where
  pub region : Region
  pub info : MemoryInfo
  pub handle : ℕ
  pub time : ℕ
  pub position : ℕ
  pub valid : s.valid ≡ true
  pub here : s.region ≡ some region
  pub same : region.info ≡ info
  pub span : region.dumped.spans ≡ (record { position = position; size = info.region_size }) ∷ []
  pub within : position + info.region_size ≤ limit
  pub place : HasPlace info
  pub sized : 0 < s.elem_size
  pub faithful : All (IsFaithful cells region s.elem_size) s.results
  pub answer :
      (os.read_process_memory time (long_to_handle handle) info.base_address info.region_size).0
      ≡ true
  pub content :
      (j : ℕ)
      → j < info.region_size
      → cells (position + j)
        ≡ get_or
            (os.read_process_memory time
              (long_to_handle handle)
              info.base_address
              info.region_size).1
            j
            0

-- All of the region is in its span.
pub full_span :
    (r : Region) (info : MemoryInfo) (position : ℕ)
    → r.info ≡ info
    → r.dumped.spans ≡ (record { position = position; size = info.region_size }) ∷ []
    → (raw_bytes r).size ≡ size r
full_span r info position same span =
    ap (λ (spans : List Span). (first_span spans).size) span
    ∙ ap (λ (i : MemoryInfo). i.region_size) (sym same)

index_inside : (i k size : ℕ) → 0 < k → i * k + k ≤ size → i ≤ size
index_inside i k size positive h = omega (arith, le-mul i k)

-- So later scans can read what they need of it.
pub IsSnapshot-HasSnapshot :
    (os : Os) (cells : ℕ → ℕ) (limit : ℕ) (s : Scan) → IsSnapshot os cells limit s → HasSnapshot s
IsSnapshot-HasSnapshot os cells limit s h = record {
  region = h.region;
  here = h.here;
  full = full;
  low = (HasPlace-IsPlaced h.region h.info h.same h.place).low;
  within =
      All-map (IsFaithful cells h.region s.elem_size) (λ e. e.element_index ≤ size h.region)
        s.results
        (λ e f.
          index_inside e.element_index s.elem_size (size h.region) h.sized
            (omega (arith, f.1, full)))
        h.faithful;
}
  where
    full : (raw_bytes h.region).size ≡ size h.region
    full = full_span h.region h.info h.position h.same h.span

module _ (os : Os) (cmp : Comparator) (raw1 : ℕ) (raw2 : Option ℕ) (kind : ScanType) where
  module _ (n handle : ℕ) (positive : 0 < n) (cells : ℕ → ℕ) (limit : ℕ) where
    Scanned-faithful :
        (info : MemoryInfo) (s : Scan)
        (h : Scanned os cmp raw1 raw2 kind n handle info cells limit s)
        → All (IsFaithful cells h.region n) s.results
    Scanned-faithful info s h =
        let found = map (entry_at cells h.region n) (hits cells h.region n cmp raw1 raw2) in
        let entries : Bool → List ScanEntry = (λ b. if b then found else []) in
        subst (All (IsFaithful cells h.region n)) (sym h.found)
          (elim (Bool-cases (h.success && not (is_unknown kind))) [
            | inl searched ↦ subst (All (IsFaithful cells h.region n)) (ap entries (sym searched)) (
                IsFaithful-select cells h.region n
                  (λ i. cmp (entry_at cells h.region n i).value raw1 raw2) 0
                  ((raw_bytes h.region).size / n) positive (omega arith))
            | inr not_searched ↦
                subst (All (IsFaithful cells h.region n)) (ap entries (sym not_searched)) tt
          ])

    Scanned-IsSnapshot :
        (info : MemoryInfo) (s : Scan)
        → HasPlace info
        → Scanned os cmp raw1 raw2 kind n handle info cells limit s
        → s.valid ≡ true
        → IsSnapshot os cells limit s
    Scanned-IsSnapshot info s place h valid = record {
      region = h.region;
      info = info;
      handle = handle;
      time = h.time;
      position = h.position;
      valid = valid;
      here = h.here;
      same = h.same;
      span = h.span;
      within = h.within;
      place = place;
      sized = omega (arith, h.kept.1);
      faithful =
          subst (λ (k : ℕ). All (IsFaithful cells h.region k) s.results) (sym h.kept.1)
            (Scanned-faithful info s h);
      answer = elim (Bool-cases h.success) [
        | inl read ↦ h.answer ∙ read
        | inr failed ↦ absurd (clash (h.verdict ∙ ground (arith, failed)) valid)
      ];
      content = h.content;
    }
      where
        clash : {b : Bool} → b ≡ false → b ≡ true → ⊥
        clash f t = cc

    -- The valid scans of a first scan.
    pub Each-IsSnapshot :
        (infos : List MemoryInfo) (ss : List Scan)
        → All HasPlace infos
        → Each os cmp raw1 raw2 kind n handle positive cells limit infos ss
        → All (IsSnapshot os cells limit) (select (λ s. s.valid) ss)
    Each-IsSnapshot [] [] a e = tt
    Each-IsSnapshot [] (s ∷ ss) a e = absurd e
    Each-IsSnapshot (info ∷ infos) [] a e = absurd e
    Each-IsSnapshot (info ∷ infos) (s ∷ ss) a (h, e) =
        let rest = Each-IsSnapshot infos ss a.1 e in
        let chosen : Bool → List Scan = (λ b.
          if b then s ∷ select (λ (t : Scan). t.valid) ss else select (λ (t : Scan). t.valid) ss) in
        elim (Bool-cases s.valid) [
          | inl hit ↦
              subst (All (IsSnapshot os cells limit)) (ap chosen (sym hit))
                (Scanned-IsSnapshot info s a.0 h hit, rest)
          | inr miss ↦ subst (All (IsSnapshot os cells limit)) (ap chosen (sym miss)) rest
        ]
