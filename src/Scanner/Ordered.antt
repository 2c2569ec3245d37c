-- ===== src/Scanner/Ordered.antt =====
-- Scans in the order of their regions, which `sort_scans` leaves as they are.
use slow_scanner.Prelude.{
  ℕ, ◌+◌, ◌≤◌, ◌<◌, ◌^◌, ◌≡◌, refl, ap, Bool, false, Option, none, some, List, [], ◌∷◌, ◌++◌, arith,
  map, select, All, Bool-cases, inl, inr, ltb,
}
use slow_scanner.World.{MemoryInfo, Os}
use slow_scanner.Region.{Region, base, size}
use slow_scanner.Scan.{Scan, ScanType, Comparator}
use slow_scanner.Scanner.{scan_base, insert_scan, sort_scans}
use slow_scanner.Scanner.Coverage.{Chain}
use slow_scanner.Scanner.First.{Each}

-- Scans whose regions lie one behind the other, from `low` on, below 2 ^ 63.
abbrev pub ScanChain : ℕ → List Scan → Type 0
ScanChain low [] = Unit {0}
ScanChain low (s ∷ ss) =
    (p : Region) × (s.region ≡ some p)
    × (low ≤ base p)
    × (base p + size p < 2 ^ 63)
    × ScanChain (base p + size p) ss

-- A scan whose region ends at `low` or before.
abbrev pub EndsBy : ℕ → Scan → Type 0
EndsBy low s =
    (p : Region) × (s.region ≡ some p) × (base p + size p ≤ low) × (base p + size p < 2 ^ 63)

pub Chain-le : (low high : ℕ) (rs : List Region) → Chain low rs high → low ≤ high
Chain-le low high [] c = c
Chain-le low high (r ∷ rs) c = omega (arith, c.0, Chain-le (base r + size r) high rs c.1)

pub EndsBy-le :
    (low high : ℕ) (ss : List Scan) → low ≤ high → All (EndsBy low) ss → All (EndsBy high) ss
EndsBy-le low high [] h a = tt
EndsBy-le low high (s ∷ ss) h ((p, e, ends, small), a) =
    ((p, e, omega arith, small), EndsBy-le low high ss h a)

pub ScanChain-le :
    (low from : ℕ) (ss : List Scan) → low ≤ from → ScanChain from ss → ScanChain low ss
ScanChain-le low from [] h c = tt
ScanChain-le low from (s ∷ ss) h (p, e, here, small, c) = (p, e, omega arith, small, c)

-- A scan behind all the others.
pub ScanChain-append :
    (from low : ℕ) (ss : List Scan) (s : Scan) (p : Region)
    → ScanChain from ss
    → All (EndsBy low) ss
    → s.region ≡ some p
    → from ≤ low
    → low ≤ base p
    → base p + size p < 2 ^ 63
    → ScanChain from (ss ++ s ∷ [])
ScanChain-append from low [] s p c a e h here small = (p, e, omega arith, small, tt)
ScanChain-append from low (t ∷ ss) s p (q, f, at, bounded, c) ((r, g, ends, _), a) e h here small =
    let same : q ≡ r = cc in
    let upto : base q + size q ≤ low = rw same ends in
    (q, f, at, bounded, ScanChain-append (base q + size q) low ss s p c a e upto here small)

-- Some of the scans, in the same order.
pub select-ScanChain :
    (keep : Scan → Bool) (low : ℕ) (ss : List Scan)
    → ScanChain low ss
    → ScanChain low (select keep ss)
select-ScanChain keep low [] c = tt
select-ScanChain keep low (s ∷ ss) (p, e, here, small, c) = elim (Bool-cases (keep s)) [
  | inl kept ↦ rw kept (p, e, here, small, select-ScanChain keep (base p + size p) ss c)
  | inr dropped ↦ rw dropped (
      ScanChain-le low (base p + size p) (select keep ss) (omega arith)
        (select-ScanChain keep (base p + size p) ss c))
]

scan_base-region : (s : Scan) (p : Region) → s.region ≡ some p → scan_base s ≡ base p
scan_base-region s p e = ap (λ (o : Option Region). elim o [ none ↦ 0 | some r ↦ base r ]) e

insert_scan-ScanChain :
    (s : Scan) (p : Region) (ss : List Scan)
    → s.region ≡ some p
    → ScanChain (base p + size p) ss
    → insert_scan s ss ≡ s ∷ ss
unfolding insert_scan
insert_scan-ScanChain s p [] e c = refl
insert_scan-ScanChain s p (t ∷ ss) e (q, f, here, small, c) =
    let a : scan_base s ≡ base p = scan_base-region s p e in
    let b : scan_base t ≡ base q = scan_base-region t q f in
    let off : ltb (scan_base t) (scan_base s) ≡ false = rw (a, b) (ground arith) in rw off refl

pub sort_scans-ScanChain : (low : ℕ) (ss : List Scan) → ScanChain low ss → sort_scans ss ≡ ss
unfolding sort_scans
sort_scans-ScanChain low [] c = refl
sort_scans-ScanChain low (s ∷ ss) (p, e, here, small, c) =
    rw (sort_scans-ScanChain (base p + size p) ss c) (insert_scan-ScanChain s p ss e c)

-- One scan for each listed region, in the order of the list.
pub Each-ScanChain :
    (os : Os) (cmp : Comparator) (raw1 : ℕ) (raw2 : Option ℕ) (kind : ScanType) (n handle : ℕ)
    (positive : 0 < n) (cells : ℕ → ℕ) (limit low high : ℕ) (rs : List Region) (ss : List Scan)
    → Chain low rs high
    → high < 2 ^ 63
    → Each os cmp raw1 raw2 kind n handle positive cells limit (map (λ r. r.info) rs) ss
    → ScanChain low ss
Each-ScanChain os cmp raw1 raw2 kind n handle positive cells limit low high [] [] c small e = tt
Each-ScanChain os cmp raw1 raw2 kind n handle positive cells limit low high [] (s ∷ ss) c small e =
    absurd e
Each-ScanChain os cmp raw1 raw2 kind n handle positive cells limit low high (r ∷ rs) [] c small e =
    absurd e
Each-ScanChain os cmp raw1 raw2 kind n handle positive cells limit low high (r ∷ rs) (s ∷ ss) c
      small (h, e) =
    let at : base h.region ≡ base r = ap (λ (i : MemoryInfo). i.base_address) h.same in
    let long : size h.region ≡ size r = ap (λ (i : MemoryInfo). i.region_size) h.same in
    let rest =
      Each-ScanChain os cmp raw1 raw2 kind n handle positive cells limit (base r + size r) high rs
        ss c.1 small e in
    (
      h.region,
      h.here,
      omega (arith, c.0),
      omega (arith, Chain-le (base r + size r) high rs c.1),
      ScanChain-le (base h.region + size h.region) (base r + size r) ss (omega arith) rest,
    )
