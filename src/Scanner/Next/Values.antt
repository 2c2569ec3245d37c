-- ===== src/Scanner/Next/Values.antt =====
-- The branch of `next_scan` for an earlier scan of a known value: each earlier result is looked up
-- again at its own address.
use mathlib.Core.List.{append-nil, append_assoc}
use slow_scanner.Prelude.{
  ℕ, ◌+◌, ◌-◌, ◌*◌, ◌/◌, ◌^◌, ◌≤◌, ◌<◌, ◌≡◌, refl, ◌∙◌, sym, subst, Bool, true, false, ◌&&◌, ◌||◌,
  Option, List, [], ◌∷◌, ◌++◌, arith, map, select, All, ltb, leb, Bool-cases, inl, inr,
  if◌then◌else◌,
}
use slow_scanner.Words.{load, u64, sub64}
use slow_scanner.Scan.{Scan, ScanType, ScanEntry, Comparator}
use slow_scanner.Compare.{ElementType, element_size}
use slow_scanner.Region.{Region, base, raw_bytes}
use slow_scanner.Scanner.{is_unknown}
use slow_scanner.Scanner.Next.Addresses.{address_of, has_entry, reference, IsAligned, index_exact}
use slow_scanner.Scanner.Next.{
  Overlap, overlap_of, ov_start, ov_end, value_step, value_loop, narrow,
}

module _ (cells : ℕ → ℕ) (cmp : Comparator) (kind : ScanType) (raw2 : Option ℕ) (elem : ElementType)
    (new_at : ℕ) (o : Overlap) where
  abbrev n : ℕ
  n = element_size elem

  -- The value at the address of an earlier result, in the new snapshot, and the entry it gets there.
  abbrev pub value_now : ScanEntry → ℕ
  value_now e = load cells (new_at + (address_of o n e - o.r_start)) n

  abbrev pub moved : ScanEntry → ScanEntry
  moved e = record {
    value = value_now e;
    snapshot_value = value_now e;
    element_index = (address_of o n e - o.r_start) / n;
  }

  -- Does an earlier result lie in both regions?
  abbrev pub in_overlap : ScanEntry → Bool
  in_overlap e = leb (ov_start o) (address_of o n e) && leb (address_of o n e + n) (ov_end o)

  -- Does it, and does its value now pass?
  abbrev pub survives : ℕ → ScanEntry → Bool
  survives raw1 e = in_overlap e && cmp (value_now e) (reference kind raw1 e) raw2

  abbrev pub narrowed : Scan → List ScanEntry → Scan
  narrowed s es = record s { results = s.results ++ map moved es; valid = has_entry es || s.valid }

  module _ (e : ScanEntry) (s : Scan) (raw1 : ℕ) (a : IsAligned o n)
      (small : address_of o n e + n < 2 ^ 64) where
    no_wrap : u64 (o.p_start + e.element_index * n) ≡ address_of o n e
    no_wrap = omega arith

    no_wrap_end : u64 (address_of o n e + n) ≡ address_of o n e + n
    no_wrap_end = omega arith

    step_outside :
        in_overlap e ≡ false → value_step cells cmp kind raw2 n new_at o e (s, raw1) ≡ (s, raw1)
    unfolding value_step
    step_outside h = rw (no_wrap, no_wrap_end, outside) refl
      where
        outside :
            (ltb (address_of o n e) (ov_start o) || ltb (ov_end o) (address_of o n e + n)) ≡ true
        outside = ground arith

    step_inside :
        in_overlap e ≡ true
        → value_step cells cmp kind raw2 n new_at o e (s, raw1) ≡ (
          if cmp (value_now e) (reference kind raw1 e) raw2 then narrowed s (e ∷ []) else s,
          reference kind raw1 e,
        )
    unfolding value_step
    step_inside h =
        rw
          (
            no_wrap,
            no_wrap_end,
            within,
            difference,
            index_exact elem o.p_start o.r_start e.element_index a.phase behind,
          )
          refl
      where
        within :
            (ltb (address_of o n e) (ov_start o) || ltb (ov_end o) (address_of o n e + n)) ≡ false
        within = ground arith

        behind : o.r_start ≤ address_of o n e
        behind = ground arith

        difference : sub64 (address_of o n e) o.r_start ≡ address_of o n e - o.r_start
        difference = omega (arith, behind, a.low)

  narrowed_twice :
      (s : Scan) (e : ScanEntry) (es : List ScanEntry)
      → narrowed (narrowed s (e ∷ [])) es ≡ narrowed s (e ∷ es)
  narrowed_twice s e es = λ i. record s {
    results = append_assoc s.results (moved e ∷ []) (map moved es) i;
    valid = any (has_entry es) i;
  }
    where
      any : (b : Bool) → (b || true) ≡ true
      any b = ground arith

  narrowed_none : (s : Scan) → narrowed s [] ≡ s
  narrowed_none s = λ i. record s { results = append-nil s.results i }

  -- `raw1` is overwritten only where it is not used.
  abbrev Agrees : ℕ → ℕ → Type 0
  Agrees now raw1 = (e : ScanEntry) → reference kind now e ≡ reference kind raw1 e

  Agrees-reference :
      (now raw1 : ℕ) (e : ScanEntry) → Agrees now raw1 → Agrees (reference kind now e) raw1
  Agrees-reference now raw1 e h x = ground (arith, h x)

  value_loop-nil : (state : Scan × ℕ) → value_loop cells cmp kind raw2 n new_at o [] state ≡ state
  unfolding value_loop
  value_loop-nil state = refl

  value_loop-cons :
      (e : ScanEntry) (es : List ScanEntry) (state : Scan × ℕ)
      → value_loop cells cmp kind raw2 n new_at o (e ∷ es) state
        ≡ value_loop cells cmp kind raw2 n new_at o es
            (value_step cells cmp kind raw2 n new_at o e state)
  unfolding value_loop
  value_loop-cons e es state = refl

  value_loop-narrowed :
      (raw1 now : ℕ) (es : List ScanEntry) (s : Scan)
      → IsAligned o n
      → All (λ e. address_of o n e + n < 2 ^ 64) es
      → Agrees now raw1
      → (value_loop cells cmp kind raw2 n new_at o es (s, now)).0
        ≡ narrowed s (select (survives raw1) es)
  value_loop-narrowed raw1 now [] s a small h = rw value_loop-nil (sym (narrowed_none s))
  value_loop-narrowed raw1 now (e ∷ es) s a small h = elim (Bool-cases (in_overlap e)) [
    | inr out ↦
        rw (out, value_loop-cons, step_outside e s now a small.0 out)
          (value_loop-narrowed raw1 now es s a small.1 h)
    | inl in_both ↦ elim (Bool-cases (cmp (value_now e) (reference kind raw1 e) raw2)) [
      | inl hit ↦
          rw (in_both, value_loop-cons, step_inside e s now a small.0 in_both, h e, hit)
            (value_loop-narrowed raw1 (reference kind raw1 e) es (narrowed s (e ∷ [])) a small.1
                (Agrees-reference raw1 raw1 e (λ x. refl))
              ∙ narrowed_twice s e (select (survives raw1) es))
      | inr miss ↦
          rw (in_both, value_loop-cons, step_inside e s now a small.0 in_both, h e, miss)
            (value_loop-narrowed raw1 (reference kind raw1 e) es s a small.1
              (Agrees-reference raw1 raw1 e (λ x. refl)))
    ]
  ]

  survivors_stay :
      (raw1 : ℕ) (es : List ScanEntry)
      → IsAligned o n
      → All
          (λ e. o.r_start + (moved e).element_index * n ≡ address_of o n e)
          (select (survives raw1) es)
  survivors_stay raw1 [] a = tt
  survivors_stay raw1 (e ∷ es) a = elim (Bool-cases (survives raw1 e)) [
    | inl hit ↦ rw hit (stay hit, survivors_stay raw1 es a)
    | inr miss ↦ rw miss (survivors_stay raw1 es a)
  ]
    where
      stay : survives raw1 e ≡ true → o.r_start + (moved e).element_index * n ≡ address_of o n e
      stay hit =
          let behind : o.r_start ≤ address_of o n e = ground arith in
          omega (arith, behind, index_exact elem o.p_start o.r_start e.element_index a.phase behind)

-- The same for an earlier scan with elements of any size: its indices are taken in elements of the new
-- scan's size.
pub narrow_lem :
    (cells : ℕ → ℕ) (cmp : Comparator) (kind : ScanType) (elem : ElementType) (raw2 : Option ℕ)
    (prev s : Scan) (p r : Region) (raw1 : ℕ)
    → is_unknown prev.kind ≡ false
    → IsAligned (overlap_of r p) (element_size elem)
    → All
        (λ e. address_of (overlap_of r p) (element_size elem) e + element_size elem < 2 ^ 64)
        prev.results
    → ((narrow cells cmp kind (element_size elem) raw2 prev p s r raw1).0
        ≡ narrowed cells cmp kind raw2 elem (raw_bytes r).position (overlap_of r p) s (
            select
              (survives cells cmp kind raw2 elem (raw_bytes r).position (overlap_of r p) raw1)
              prev.results))
      × All
          (λ e.
            base r
              + (moved cells cmp kind raw2 elem
                  (raw_bytes r).position
                  (overlap_of r p)
                  e).element_index
                * element_size elem
            ≡ address_of (overlap_of r p) (element_size elem) e)
          (select
            (survives cells cmp kind raw2 elem (raw_bytes r).position (overlap_of r p) raw1)
            prev.results)
unfolding narrow
narrow_lem cells cmp kind elem raw2 prev s p r raw1 known a small = (
  rw known (
      value_loop-narrowed cells cmp kind raw2 elem (raw_bytes r).position (overlap_of r p) raw1 raw1
        prev.results s a small (λ x. refl)),
  survivors_stay cells cmp kind raw2 elem (raw_bytes r).position (overlap_of r p) raw1 prev.results
      a,
)

-- Against an earlier scan of known values with elements of the same size, `next_scan` narrows: the
-- scan of the new region gets exactly those earlier results that lie in both regions and whose value
-- now passes, in their order, each with the value of the new snapshot at the address that it had and
-- an index that gives that address, and becomes valid if there is one. The value that the caller
-- passes is compared with only for the scan types that do not look at what a result was. It holds for
-- addresses below 2 ^ 63 and regions that are in step modulo the size of an element.
pub narrow-narrowed :
    (cells : ℕ → ℕ) (cmp : Comparator) (kind : ScanType) (elem : ElementType) (raw2 : Option ℕ)
    (prev s : Scan) (p r : Region) (raw1 : ℕ)
    → is_unknown prev.kind ≡ false
    → prev.elem_size ≡ element_size elem
    → IsAligned (overlap_of r p) (element_size elem)
    → All
        (λ e. address_of (overlap_of r p) (element_size elem) e + element_size elem < 2 ^ 64)
        prev.results
    → ((narrow cells cmp kind (element_size elem) raw2 prev p s r raw1).0
        ≡ narrowed cells cmp kind raw2 elem (raw_bytes r).position (overlap_of r p) s (
            select
              (survives cells cmp kind raw2 elem (raw_bytes r).position (overlap_of r p) raw1)
              prev.results))
      × All
          (λ e.
            base r
              + (moved cells cmp kind raw2 elem
                  (raw_bytes r).position
                  (overlap_of r p)
                  e).element_index
                * element_size elem
            ≡ base p + e.element_index * prev.elem_size)
          (select
            (survives cells cmp kind raw2 elem (raw_bytes r).position (overlap_of r p) raw1)
            prev.results)
narrow-narrowed cells cmp kind elem raw2 prev s p r raw1 known same a small =
    let both = narrow_lem cells cmp kind elem raw2 prev s p r raw1 known a small in
    (
      both.0,
      subst
          (λ (k : ℕ).
            All
              (λ e.
                base r
                  + (moved cells cmp kind raw2 elem (raw_bytes r).position (overlap_of r p)
                      e).element_index
                    * element_size elem
                ≡ base p + e.element_index * k)
              (select
                (survives cells cmp kind raw2 elem (raw_bytes r).position (overlap_of r p) raw1)
                prev.results))
          (sym same) both.1,
    )
