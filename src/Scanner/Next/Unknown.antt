-- ===== src/Scanner/Next/Unknown.antt =====
-- The branch of `next_scan` for an earlier scan of an unknown value: every element that lies in both
-- regions is compared with what it was.
use mathlib.Core.List.{append-nil, append_assoc}
use native.Mathlib.Nat.{add-mul-mod_self_right, div-add-mod, div-le_self, mod-lt}
use slow_scanner.Prelude.{
  ℕ, zero, suc, ◌+◌, ◌*◌, ◌/◌, ◌%◌, ◌^◌, ◌≤◌, ◌<◌, ◌≡◌, refl, ap, ◌∙◌, sym, Bool, true, false, ◌||◌,
  Option, List, [], ◌∷◌, ◌++◌, arith, map, select, range, leb, leb_iff, Bool-cases, inl, inr,
  if◌then◌else◌,
}
use slow_scanner.Words.{load, u64}
use slow_scanner.Region.{Region, base, raw_bytes}
use slow_scanner.Scan.{Scan, ScanType, ScanEntry, Comparator}
use slow_scanner.Scan.Search.{inside}
use slow_scanner.Scanner.{is_unknown}
use slow_scanner.Scanner.Next.{
  Overlap, overlap_of, ov_start, overlap_bytes, r_off, p_off, unknown_step, unknown_loop, narrow,
}

abbrev pub has_index : List ℕ → Bool
has_index [] = false
has_index (k ∷ ks) = true

-- The number `k` of an element that is one too many.
past :
    (k n bytes : ℕ)
    → 0 < n
    → bytes + n < 2 ^ 64
    → k ≡ bytes / n
    → leb (u64 (k * n + n)) bytes ≡ false
past k n bytes positive small e =
    let h : bytes < k * n + n = rw e (omega (arith, div-add-mod bytes n, mod-lt bytes positive)) in
    let g : k * n ≤ bytes = rw e (omega (arith, div-add-mod bytes n)) in ground arith

module _ (cells : ℕ → ℕ) (cmp : Comparator) (raw2 : Option ℕ) (n new_at old_at : ℕ)
    (o : Overlap) where
  -- The values of element `k` of the overlap, in the two snapshots.
  abbrev pub new_value : ℕ → ℕ
  new_value k = load cells (new_at + r_off o + k * n) n

  abbrev pub old_value : ℕ → ℕ
  old_value k = load cells (old_at + p_off o + k * n) n

  abbrev pub differs : ℕ → Bool
  differs k = cmp (new_value k) (old_value k) raw2

  abbrev pub entry_of : ℕ → ScanEntry
  entry_of k = record {
    value = new_value k;
    snapshot_value = new_value k;
    element_index = (r_off o + k * n) / n;
  }

  abbrev pub with_found : Scan → List ℕ → Scan
  with_found s ks = record s {
    results = s.results ++ map entry_of ks;
    valid = has_index ks || s.valid;
  }

  with_found_none : (s : Scan) → with_found s [] ≡ s
  with_found_none s = λ i. record s { results = append-nil s.results i }

  with_found_twice :
      (s : Scan) (k : ℕ) (ks : List ℕ)
      → with_found (with_found s (k ∷ [])) ks ≡ with_found s (k ∷ ks)
  with_found_twice s k ks = λ i. record s {
    results = append_assoc s.results (entry_of k ∷ []) (map entry_of ks) i;
    valid = any (has_index ks) i;
  }
    where
      any : (b : Bool) → (b || true) ≡ true
      any b = ground arith

  step_lem :
      (k i : ℕ) (s : Scan)
      → i ≡ k * n
      → r_off o + i < 2 ^ 64
      → unknown_step cells cmp raw2 n new_at old_at o i s
        ≡ (if differs k then with_found s (k ∷ []) else s)
  unfolding unknown_step
  step_lem k i s e small = let w : u64 (r_off o + i) ≡ r_off o + i = omega arith in rw (w, e) refl

  loop_stop :
      (fuel i : ℕ) (s : Scan)
      → leb (u64 (i + n)) (overlap_bytes o) ≡ false
      → unknown_loop cells cmp raw2 n new_at old_at o (suc fuel) i s ≡ s
  unfolding unknown_loop
  loop_stop fuel i s over = rw over refl

  loop_more :
      (fuel i : ℕ) (s : Scan)
      → leb (u64 (i + n)) (overlap_bytes o) ≡ true
      → unknown_loop cells cmp raw2 n new_at old_at o (suc fuel) i s
        ≡ unknown_loop cells cmp raw2 n new_at old_at o fuel
            (u64 (i + n))
            (unknown_step cells cmp raw2 n new_at old_at o i s)
  unfolding unknown_loop
  loop_more fuel i s more = rw more refl

  loop_lem :
      (fuel k m i : ℕ) (s : Scan)
      → 0 < n
      → i ≡ k * n
      → k + m ≡ overlap_bytes o / n
      → m < fuel
      → r_off o + overlap_bytes o + n < 2 ^ 64
      → unknown_loop cells cmp raw2 n new_at old_at o fuel i s
        ≡ with_found s (select differs (range k m))
  loop_lem zero k m i s positive e total enough small = absurd (omega arith)
  loop_lem (suc fuel) k zero i s positive e total enough small =
      let over : leb (u64 (i + n)) (overlap_bytes o) ≡ false =
        rw e (past k n (overlap_bytes o) positive (omega arith) (omega arith)) in
      loop_stop fuel i s over ∙ sym (with_found_none s)
  loop_lem (suc fuel) k (suc m) i s positive e total enough small =
      loop_more fuel i s (rw (no_wrap, e) ((leb_iff (k * n + n) (overlap_bytes o)).1 fits))
      ∙ elim (Bool-cases (differs k)) [
        | inl hit ↦
            rw (no_wrap, step_lem k i s e (omega (arith, fits)), hit)
              (loop_lem fuel (k + 1) m (i + n) (with_found s (k ∷ [])) positive (omega arith)
                  (omega arith) (omega arith) small
                ∙ with_found_twice s k (select differs (range (k + 1) m)))
        | inr miss ↦
            rw (no_wrap, step_lem k i s e (omega (arith, fits)), miss)
              (loop_lem fuel (k + 1) m (i + n) s positive (omega arith) (omega arith) (omega arith)
                small)
      ]
    where
      fits : k * n + n ≤ overlap_bytes o
      fits = inside k n (overlap_bytes o) (omega arith)

      no_wrap : u64 (i + n) ≡ i + n
      no_wrap = omega (arith, fits)

-- Addresses and a size below 2 ^ 63, and an overlap that starts a whole number of elements into the
-- new region.
abbrev pub InStep : Overlap → ℕ → Type 0
InStep o n =
    (o.r_start < 2 ^ 63)
    × (o.r_end < 2 ^ 63)
    × (o.p_start < 2 ^ 63)
    × (o.p_end < 2 ^ 63)
    × (n < 2 ^ 63)
    × (r_off o % n ≡ 0)

overlap_fits : (o : Overlap) (n : ℕ) → InStep o n → r_off o + overlap_bytes o + n < 2 ^ 64
overlap_fits o n (rs, re, ps, pe, nb, _) = ground arith

-- The index that an entry gets is the one of its address.
address_exact :
    (o : Overlap) (n k : ℕ)
    → InStep o n
    → o.r_start + (r_off o + k * n) / n * n ≡ ov_start o + k * n
address_exact o n k (rs, re, ps, pe, nb, even) =
    let whole : (r_off o + k * n) % n ≡ 0 = add-mul-mod_self_right (r_off o) k n ∙ even in
    let total : (r_off o + k * n) / n * n ≡ r_off o + k * n =
      omega (arith, whole, div-add-mod (r_off o + k * n) n) in
    let behind : o.r_start + r_off o ≡ ov_start o = ground arith in omega (arith, total, behind)

-- Against an earlier scan of an unknown value, `next_scan` compares each whole element of the
-- overlap with what the file has at the same address in the span of the earlier region, which is that
-- region's snapshot where it was read, and no other: the scan of the new
-- region gets an entry for each one that passes, in ascending order, and becomes valid if there is
-- one. An entry's index, counted from the start of the new region, gives the element's address. The
-- rounds of the loop are enough, and the value that the caller passes is not looked at. It holds for
-- addresses and element sizes below 2 ^ 63 and an overlap that starts a whole number of elements into the new region.
pub narrow-with_found :
    (cells : ℕ → ℕ) (cmp : Comparator) (kind : ScanType) (n : ℕ) (raw2 : Option ℕ) (prev s : Scan)
    (p r : Region) (raw1 : ℕ)
    → is_unknown prev.kind ≡ true
    → 0 < n
    → InStep (overlap_of r p) n
    → (narrow cells cmp kind n raw2 prev p s r raw1 ≡ (
      with_found cells cmp raw2 n (raw_bytes r).position (raw_bytes p).position (overlap_of r p) s (
          select
            (differs cells cmp raw2 n
              (raw_bytes r).position
              (raw_bytes p).position
              (overlap_of r p))
            (range 0 (overlap_bytes (overlap_of r p) / n))),
      raw1,
    ))
      × ((k : ℕ)
          → base r
              + (entry_of cells cmp raw2 n
                  (raw_bytes r).position
                  (raw_bytes p).position
                  (overlap_of r p)
                  k).element_index
                * n
            ≡ ov_start (overlap_of r p) + k * n)
unfolding narrow
narrow-with_found cells cmp kind n raw2 prev s p r raw1 unknown positive step = (
  rw unknown (
      ap (λ (t : Scan). (t, raw1))
        (loop_lem cells cmp raw2 n (raw_bytes r).position (raw_bytes p).position (overlap_of r p)
          (suc (overlap_bytes (overlap_of r p))) 0 (overlap_bytes (overlap_of r p) / n) 0 s positive
          (omega arith) (omega arith)
          (omega (arith, div-le_self (overlap_bytes (overlap_of r p)) n))
          (overlap_fits (overlap_of r p) n step))),
  λ k. address_exact (overlap_of r p) n k step,
)
