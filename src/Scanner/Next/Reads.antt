-- ===== src/Scanner/Next/Reads.antt =====
-- The reads of `next_scan` in the snapshots: earlier scans whose reads stay inside.
use native.Mathlib.Nat.{div-add-mod}
use slow_scanner.Prelude.{
  Bool, ◌&&◌, ℕ, zero, suc, ◌+◌, ◌-◌, ◌*◌, ◌/◌, ◌^◌, ◌≤◌, ◌<◌, ◌≡◌, refl, true, false, some, List,
  [], ◌∷◌, arith, All, ltb, leb, ◌||◌, Bool-cases, inl, inr,
}
use slow_scanner.Words.{u64, sub64}
use slow_scanner.Dump.{Span}
use slow_scanner.Region.{can_read, Region, base, size, raw_bytes}
use slow_scanner.Scan.{Scan, ScanEntry}
use slow_scanner.Compare.{ElementType, element_size}
use slow_scanner.Scanner.{is_unknown}
use slow_scanner.Scanner.First.{element_size_positive}
use slow_scanner.Scanner.Next.{
  overlap_of, ov_start, ov_end, overlap_bytes, r_off, p_off, unknown_reads, value_read, value_reads,
  narrow_reads,
}
use slow_scanner.Scanner.Next.Places.{element_size_small, mul_small}

-- An earlier scan whose region lies below 2 ^ 47 and was read as a whole, and whose results have
-- indices in it.
pub record HasSnapshot (s : Scan) : Type 0 where
  pub region : Region
  pub here : s.region ≡ some region
  pub full : (raw_bytes region).size ≡ size region
  pub low : base region + size region ≤ 2 ^ 47
  pub within : All (λ e. e.element_index ≤ size region) s.results

can_read_at :
    (bytes : Span) (i n : ℕ) → i + n ≤ bytes.size → can_read bytes (bytes.position + i) n ≡ true
can_read_at bytes i n h = ground arith

can_read_behind :
    (bytes : Span) (a i n : ℕ)
    → a + (i + n) ≤ bytes.size
    → can_read bytes (bytes.position + a + i) n ≡ true
can_read_behind bytes a i n h = ground arith

floor-le : (d n : ℕ) → d / n * n ≤ d
floor-le d n = omega (arith, div-add-mod d n)

both : (a b c : Bool) → a ≡ true → b ≡ true → c ≡ true → (a && b && c) ≡ true
both a b c p q r = rw (p, q, r) refl

module _ (elem : ElementType) (p r : Region) (full_p : (raw_bytes p).size ≡ size p)
    (full_r : (raw_bytes r).size ≡ size r) (low_p : base p + size p ≤ 2 ^ 47)
    (low_r : base r + size r < 2 ^ 64) where
  abbrev n : ℕ
  n = element_size elem

  overlap_inside :
      (b : ℕ)
      → 0 < b
      → b ≤ overlap_bytes (overlap_of r p)
      → (p_off (overlap_of r p) + b ≤ size p) × (r_off (overlap_of r p) + b ≤ size r) × (b ≤ 2 ^ 47)
  overlap_inside b positive h = ground arith

  step_fits :
      (i : ℕ)
      → i ≤ overlap_bytes (overlap_of r p)
      → leb (u64 (i + n)) (overlap_bytes (overlap_of r p)) ≡ true
      → i + n ≤ overlap_bytes (overlap_of r p)
  step_fits i h more = let small = element_size_small elem in ground arith

  unknown_reads-true :
      (fuel i : ℕ)
      → i ≤ overlap_bytes (overlap_of r p)
      → unknown_reads n (raw_bytes r) (raw_bytes p) (overlap_of r p) fuel i ≡ true
  unfolding unknown_reads
  unknown_reads-true zero i h = refl
  unknown_reads-true (suc fuel) i h =
      elim (Bool-cases (leb (u64 (i + n)) (overlap_bytes (overlap_of r p)))) [
        | inr over ↦ rw over refl
        | inl more ↦ rw more (
            both (can_read (raw_bytes p) ((raw_bytes p).position + p_off (overlap_of r p) + i) n)
              (can_read (raw_bytes r) ((raw_bytes r).position + r_off (overlap_of r p) + i) n) _
              (old_read more) (new_read more)
              (unknown_reads-true fuel (u64 (i + n)) (ground arith)))
      ]
    where
      inside :
          leb (u64 (i + n)) (overlap_bytes (overlap_of r p)) ≡ true
          → (p_off (overlap_of r p) + (i + n) ≤ size p)
            × (r_off (overlap_of r p) + (i + n) ≤ size r)
            × (i + n ≤ 2 ^ 47)
      inside more =
          overlap_inside (i + n) (omega (arith, element_size_positive elem)) (step_fits i h more)

      old_read :
          leb (u64 (i + n)) (overlap_bytes (overlap_of r p)) ≡ true
          → can_read (raw_bytes p) ((raw_bytes p).position + p_off (overlap_of r p) + i) n ≡ true
      old_read more =
          can_read_behind (raw_bytes p) (p_off (overlap_of r p)) i n
            (omega (arith, (inside more).0, full_p))

      new_read :
          leb (u64 (i + n)) (overlap_bytes (overlap_of r p)) ≡ true
          → can_read (raw_bytes r) ((raw_bytes r).position + r_off (overlap_of r p) + i) n ≡ true
      new_read more =
          can_read_behind (raw_bytes r) (r_off (overlap_of r p)) i n
            (omega (arith, (inside more).1, full_r))

  value_read-true :
      (e : ScanEntry)
      → e.element_index ≤ size p
      → value_read n (raw_bytes r) (overlap_of r p) e ≡ true
  unfolding value_read
  value_read-true e h =
      elim (Bool-cases (
        ltb (u64 (base p + e.element_index * n)) (ov_start (overlap_of r p))
        || ltb (ov_end (overlap_of r p)) (u64 (u64 (base p + e.element_index * n) + n)))) [
          | inl outside ↦ rw outside refl
          | inr inside ↦ rw inside (can_read_at (raw_bytes r) _ n (fits inside))
        ]
    where
      at : ℕ
      at = base p + e.element_index * n

      no_wrap : u64 at ≡ at
      no_wrap = omega (arith, mul_small elem e.element_index)

      place :
          (x : ℕ)
          → (ltb x (ov_start (overlap_of r p)) || ltb (ov_end (overlap_of r p)) (x + n)) ≡ false
          → (base r ≤ x) × (x + n ≤ base r + size r)
      place x inside = ground arith

      fits :
          (ltb (u64 at) (ov_start (overlap_of r p))
              || ltb (ov_end (overlap_of r p)) (u64 (u64 at + n)))
            ≡ false
          → sub64 (u64 at) (base r) / n * n + n ≤ (raw_bytes r).size
      fits inside =
          let wrapped : u64 (at + n) ≡ at + n =
            omega (arith, mul_small elem e.element_index, element_size_small elem) in
          let found : (base r ≤ at) × (at + n ≤ base r + size r) =
            place at (rw (no_wrap, wrapped) at inside) in
          let difference : sub64 at (base r) ≡ at - base r = omega (arith, found.0, found.1) in
          rw (no_wrap, difference)
            (omega (arith, floor-le (at - base r) n, found.0, found.1, full_r))

  value_reads-true :
      (es : List ScanEntry)
      → All (λ e. e.element_index ≤ size p) es
      → value_reads n (raw_bytes r) (overlap_of r p) es ≡ true
  unfolding value_reads
  value_reads-true [] h = refl
  value_reads-true (e ∷ es) h = ground (arith, value_read-true e h.0, value_reads-true es h.1)

  -- All reads of a round that narrows such a scan down stay in the two snapshots.
  pub narrow_reads-true :
      (prev : Scan)
      → All (λ e. e.element_index ≤ size p) prev.results
      → narrow_reads n prev p r ≡ true
  unfolding narrow_reads
  narrow_reads-true prev h = elim (Bool-cases (is_unknown prev.kind)) [
    | inl unknown ↦
        rw unknown (unknown_reads-true (suc (overlap_bytes (overlap_of r p))) 0 (omega arith))
    | inr known ↦ rw known (value_reads-true prev.results h)
  ]
