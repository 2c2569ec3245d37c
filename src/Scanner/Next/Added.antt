-- ===== src/Scanner/Next/Added.antt =====
-- What a round of `next_scan` adds to the results is a scan of the region that it reads.
use slow_scanner.Prelude.{
  ℕ, zero, suc, ◌+◌, ◌≡◌, refl, ◌∙◌, Bool, true, false, ◌⊎◌, inl, inr, Option, none, some, List, [],
  ◌∷◌, ◌++◌, arith, Bool-cases, leb,
}
use slow_scanner.World.{Os, World, ◌>>=◌}
use slow_scanner.Words.{u64}
use slow_scanner.Region.{Region, raw_bytes, read_memory}
use slow_scanner.Region.Fetch.{SameInfo, read_memory-SameInfo}
use slow_scanner.Scan.{Scan, ScanType, ScanEntry, Comparator}
use slow_scanner.Compare.{ElementType, element_size}
use slow_scanner.Scanner.{is_unknown}
use slow_scanner.Scanner.First.{new_scan-element_size}
use slow_scanner.Scanner.Task.{task_of}
use slow_scanner.Scanner.Next.{
  Overlap, overlap_of, overlap_bytes, Progress, unknown_step, unknown_loop, value_step, value_loop,
  narrow, narrow_reads, keep_valid, match_region,
}

-- Neither branch gives a scan another region.
module _ (cells : ℕ → ℕ) (cmp : Comparator) (raw2 : Option ℕ) (n new_at old_at : ℕ)
    (o : Overlap) where
  unknown_step_region :
      (i : ℕ) (s : Scan) → (unknown_step cells cmp raw2 n new_at old_at o i s).region ≡ s.region
  unfolding unknown_step
  unknown_step_region i s = ground arith

  unknown_region :
      (fuel i : ℕ) (s : Scan)
      → (unknown_loop cells cmp raw2 n new_at old_at o fuel i s).region ≡ s.region
  unfolding unknown_loop
  unknown_region zero i s = refl
  unknown_region (suc fuel) i s = elim (Bool-cases (leb (u64 (i + n)) (overlap_bytes o))) [
    | inl more ↦ rw more (
        unknown_region fuel (u64 (i + n)) (unknown_step cells cmp raw2 n new_at old_at o i s)
        ∙ unknown_step_region i s)
    | inr last ↦ rw last refl
  ]

  module _ (kind : ScanType) where
    value_step_region :
        (e : ScanEntry) (s : Scan) (raw1 : ℕ)
        → (value_step cells cmp kind raw2 n new_at o e (s, raw1)).0.region ≡ s.region
    unfolding value_step
    value_step_region e s raw1 = ground arith

    value_region :
        (es : List ScanEntry) (s : Scan) (raw1 : ℕ)
        → (value_loop cells cmp kind raw2 n new_at o es (s, raw1)).0.region ≡ s.region
    unfolding value_loop
    value_region [] s raw1 = refl
    value_region (e ∷ es) s raw1 =
        let next = value_step cells cmp kind raw2 n new_at o e (s, raw1) in
        value_region es next.0 next.1 ∙ value_step_region e s raw1

pub narrow_region :
    (cells : ℕ → ℕ) (cmp : Comparator) (kind : ScanType) (n : ℕ) (raw2 : Option ℕ) (prev s : Scan)
    (p r : Region) (raw1 : ℕ)
    → (narrow cells cmp kind n raw2 prev p s r raw1).0.region ≡ s.region
unfolding narrow
narrow_region cells cmp kind n raw2 prev s p r raw1 = elim (Bool-cases (is_unknown prev.kind)) [
  | inl unknown ↦ rw unknown (
      unknown_region cells cmp raw2 n (raw_bytes r).position (raw_bytes p).position (overlap_of r p)
        (suc (overlap_bytes (overlap_of r p))) 0 s)
  | inr known ↦ rw known (
      value_region cells cmp raw2 n (raw_bytes r).position (raw_bytes p).position (overlap_of r p)
        kind prev.results s raw1)
]

-- A round adds a scan of the region that it reads, or nothing.
abbrev pub Added : Region → Progress → Option (Progress × World) → Type 0
Added r g none = Unit {0}
Added r g (some (g', w)) =
    (g'.results ≡ g.results)
    ⊎ ((s : Scan) × (p : Region) × (g'.results ≡ g.results ++ s ∷ [])
        × (s.region ≡ some p)
        × (p.info ≡ r.info))

module _ (os : Os) (cmp : Comparator) (kind : ScanType) (elem : ElementType) (raw2 : Option ℕ) where
  abbrev n : ℕ
  n = element_size elem

  kept-Added :
      (r p : Region) (g : Progress) (w : World) (o : Scan × ℕ)
      → o.0.region ≡ some p
      → p.info ≡ r.info
      → Added r g (some (keep_valid g o, w))
  kept-Added r p g w (s, raw1) e same = elim (Bool-cases s.valid) [
    | inl hit ↦ inr (s, p, rw hit refl, e, same)
    | inr miss ↦ inl (rw miss refl)
  ]

  read-Added :
      (prev : Scan) (p r : Region) (g : Progress) (w : World) (o : Option ((Bool × Region) × World))
      → read_memory os r w ≡ o
      → SameInfo r o
      → Added r g (match_region os cmp kind n raw2 prev p r g w)
  unfolding match_region
  read-Added prev p r g w none e h = rw (new_scan-element_size (some r) kind elem, ◌>>=◌, e) tt
  read-Added prev p r g w (some ((false, r'), w')) e h =
      rw (new_scan-element_size (some r) kind elem, ◌>>=◌, e) (inl refl)
  read-Added prev p r g w (some ((true, r'), w')) e h =
      elim (Bool-cases (narrow_reads n prev p r')) [
        | inr outside ↦ rw (new_scan-element_size (some r) kind elem, ◌>>=◌, e, outside) tt
        | inl inside ↦
            rw (new_scan-element_size (some r) kind elem, ◌>>=◌, e, inside)
              (kept-Added r r' g w'
                (narrow w'.cells cmp kind n raw2 prev p (task_of kind n r') r' g.raw1)
                (narrow_region w'.cells cmp kind n raw2 prev (task_of kind n r') p r' g.raw1) h)
      ]

  pub match_region-Added :
      (prev : Scan) (p r : Region) (g : Progress) (w : World)
      → Added r g (match_region os cmp kind n raw2 prev p r g w)
  match_region-Added prev p r g w =
      read-Added prev p r g w (read_memory os r w) refl (read_memory-SameInfo os r w)
