-- ===== src/Scanner/Next/Entries.antt =====
-- The entries that `next_scan` records: each holds what the new snapshot has at its index.
use slow_scanner.Prelude.{
  ℕ, ◌+◌, ◌-◌, ◌*◌, ◌/◌, ◌^◌, ◌≤◌, ◌<◌, ◌≡◌, ap, ◌∙◌, sym, subst, true, false, Option, List, [],
  ◌++◌, arith, map, select, range, All, All-select, All-both, All-image, All-map, Bool-cases, inl,
  inr,
}
use slow_scanner.Words.{load}
use slow_scanner.Region.{Region, base, size, raw_bytes}
use slow_scanner.Scan.{Scan, ScanType, ScanEntry, Comparator}
use slow_scanner.Scan.Search.{IsFaithful, inside}
use slow_scanner.Compare.{ElementType, element_size}
use slow_scanner.Scanner.{is_unknown}
use slow_scanner.Scanner.First.{element_size_positive}
use slow_scanner.Scanner.Next.{Overlap, overlap_of, ov_start, overlap_bytes, r_off, narrow}
use slow_scanner.Scanner.Next.Addresses.{address_of}
use slow_scanner.Scanner.Next.Values
use slow_scanner.Scanner.Next.Values.{narrow_lem}
use slow_scanner.Scanner.Next.Unknown.{entry_of, differs, narrow-with_found}
use slow_scanner.Scanner.Next.Places.{
  IsPlaced, element_size_small, le-mul, mul_small, select_below, overlap-IsAligned, overlap-InStep,
  start_off, bytes_fit,
}

module _ (cells : ℕ → ℕ) (r : Region) (n : ℕ) where
  -- An entry is faithful if its index gives the position that its value was read from.
  entry-IsFaithful :
      (offset index : ℕ)
      → index * n ≡ offset
      → offset + n ≤ (raw_bytes r).size
      → IsFaithful cells r n (record {
        value = load cells ((raw_bytes r).position + offset) n;
        snapshot_value = load cells ((raw_bytes r).position + offset) n;
        element_index = index;
      })
  entry-IsFaithful offset index e fits = (
    ap
        (λ (at : ℕ). record {
          value = load cells ((raw_bytes r).position + at) n;
          snapshot_value = load cells ((raw_bytes r).position + at) n;
          element_index = index;
        })
        (sym e),
    omega (arith, e, fits),
  )

module _ (cells : ℕ → ℕ) (cmp : Comparator) (kind : ScanType) (elem : ElementType) (raw2 : Option ℕ)
    (r p : Region) (new : IsPlaced r) (old : IsPlaced p) (full : (raw_bytes r).size ≡ size r) where
  abbrev over : Overlap
  over = overlap_of r p

  abbrev m : ℕ
  m = element_size elem

  abbrev Faithful : ScanEntry → Type 0
  Faithful e = IsFaithful cells r m e

  found-IsFaithful :
      (k : ℕ)
      → k < overlap_bytes over / m
      → base r + (r_off over + k * m) / m * m ≡ ov_start over + k * m
      → Faithful (entry_of cells cmp raw2 m (raw_bytes r).position (raw_bytes p).position over k)
  found-IsFaithful k h e =
      let inside_overlap = inside k m (overlap_bytes over) h in
      let off = start_off elem r p new old in
      let fit =
        bytes_fit elem r p new old (omega (arith, inside_overlap, element_size_positive elem)) in
      let here =
        entry-IsFaithful cells r m (r_off over + k * m) ((r_off over + k * m) / m)
          (omega (arith, e, off)) (omega (arith, fit, inside_overlap, full)) in
      subst
        (λ (at : ℕ). Faithful (record {
          value = load cells at m;
          snapshot_value = load cells at m;
          element_index = (r_off over + k * m) / m;
        }))
        (omega arith) here

  moved-IsFaithful :
      (raw1 : ℕ) (e : ScanEntry)
      → Values.survives cells cmp kind raw2 elem (raw_bytes r).position over raw1 e ≡ true
      → base r
          + (Values.moved cells cmp kind raw2 elem (raw_bytes r).position over e).element_index * m
        ≡ address_of over m e
      → Faithful (Values.moved cells cmp kind raw2 elem (raw_bytes r).position over e)
  moved-IsFaithful raw1 e h at =
      let within : (base r ≤ address_of over m e) × (address_of over m e + m ≤ base r + size r) =
        (let a = new.low in (ground arith, ground arith)) in
      entry-IsFaithful cells r m (address_of over m e - base r) _ (omega (arith, at))
        (omega (arith, within.0, within.1, full))

  -- An earlier result that lies in its region is at an address that does not overflow.
  small_address :
      (k : ℕ) (e : ScanEntry)
      → 0 < k
      → e.element_index * k + k ≤ size p
      → address_of over m e + m < 2 ^ 64
  small_address k e positive h = omega (
    arith,
    old.low,
    le-mul e.element_index k positive,
    mul_small elem e.element_index,
    element_size_small elem,
  )

  module _ (prev s : Scan) (fresh : s.results ≡ []) (raw1 : ℕ) where
    abbrev Narrowed : Type 0
    Narrowed =
        All Faithful (narrow cells cmp kind m raw2 prev p s r raw1).0.results
        × ((narrow cells cmp kind m raw2 prev p s r raw1).0.elem_size ≡ s.elem_size)

    unknown-IsFaithful : is_unknown prev.kind ≡ true → Narrowed
    unknown-IsFaithful unknown =
        let test = differs cells cmp raw2 m (raw_bytes r).position (raw_bytes p).position over in
        let entry = entry_of cells cmp raw2 m (raw_bytes r).position (raw_bytes p).position over in
        let (same, at) =
          narrow-with_found cells cmp kind m raw2 prev s p r raw1 unknown
            (element_size_positive elem) (overlap-InStep elem r p new old) in
        let found = select test (range 0 (overlap_bytes over / m)) in
        (
          subst (All Faithful)
              (ap (λ (es : List ScanEntry). es ++ map entry found) (sym fresh)
                ∙ ap (λ (t : Scan × ℕ). t.0.results) (sym same))
              (All-image Faithful entry found (
                All-map (λ k. k < overlap_bytes over / m) (λ k. Faithful (entry k)) found
                  (λ k h. found-IsFaithful k h (at k))
                  (select_below test 0 (overlap_bytes over / m) (overlap_bytes over / m)
                    (omega arith)))),
          ap (λ (t : Scan × ℕ). t.0.elem_size) same,
        )

    known-IsFaithful :
        is_unknown prev.kind ≡ false
        → All (λ e. address_of over m e + m < 2 ^ 64) prev.results
        → Narrowed
    known-IsFaithful known small =
        let test = Values.survives cells cmp kind raw2 elem (raw_bytes r).position over raw1 in
        let entry = Values.moved cells cmp kind raw2 elem (raw_bytes r).position over in
        let (same, at) =
          narrow_lem cells cmp kind elem raw2 prev s p r raw1 known
            (overlap-IsAligned elem r p new old) small in
        let found = select test prev.results in
        (
          subst (All Faithful)
              (ap (λ (es : List ScanEntry). es ++ map entry found) (sym fresh)
                ∙ ap (λ (t : Scan). t.results) (sym same))
              (All-image Faithful entry found (
                All-map _ (λ e. Faithful (entry e)) found (λ e h. moved-IsFaithful raw1 e h.0 h.1)
                  (All-both (λ e. test e ≡ true) _ found (All-select test prev.results) at))),
          ap (λ (t : Scan). t.elem_size) same,
        )

    -- The entries that `narrow` gives a new scan are elements of the new region, with the values that
    -- its snapshot has there, if the earlier results are elements of the old one. The size of its
    -- elements stays.
    pub narrow-IsFaithful :
        (c : ℕ → ℕ) (k : ℕ)
        → 0 < k
        → (raw_bytes p).size ≡ size p
        → All (IsFaithful c p k) prev.results
        → Narrowed
    narrow-IsFaithful c k positive whole old_entries = elim (Bool-cases (is_unknown prev.kind)) [
      | inl unknown ↦ unknown-IsFaithful unknown
      | inr known ↦ known-IsFaithful known (
          All-map (IsFaithful c p k) (λ e. address_of over m e + m < 2 ^ 64) prev.results
            (λ e h. small_address k e positive (omega (arith, h.1, whole))) old_entries)
    ]
