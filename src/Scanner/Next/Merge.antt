-- ===== src/Scanner/Next/Merge.antt =====
-- The loop of `next_scan` walks the listed regions and the earlier scans side by side. It does what
-- a search of all earlier scans for each region would do.
use slow_scanner.Prelude.{
  ℕ, ◌+◌, ◌≤◌, ◌<◌, ◌^◌, ◌≡◌, refl, sym, ap, ◌∙◌, Bool, false, not, ◌&&◌, Option, none, some, List,
  [], ◌∷◌, ◌++◌, arith, All, All-append, Bool-cases, inl, inr, if◌then◌else◌, leb,
}
use mathlib.Core.List.{append_assoc}
use slow_scanner.World.{Os, World, M, pure, ◌>>=◌}
use slow_scanner.Region.{Region, base, size}
use slow_scanner.Scan.{Scan, ScanType, Comparator}
use slow_scanner.Scanner.Coverage.{Chain}
use slow_scanner.Scanner.Ordered.{ScanChain, EndsBy, Chain-le, EndsBy-le}
use slow_scanner.Scanner.Next.{overlap_of, Progress, match_region, next_loop}
use slow_scanner.Scanner.Next.Loop.{loop_none, loop_done, loop_region, loop_scan, loop_bind}

-- The two tests of the loop: does neither region end before the other begins?
abbrev pub overlaps : Region → Region → Bool
overlaps r p =
    not (leb (overlap_of r p).r_end (overlap_of r p).p_start)
    && not (leb (overlap_of r p).p_end (overlap_of r p).r_start)

-- The first earlier scan whose region overlaps `r`.
abbrev pub first_overlap : Region → List Scan → Option (Scan × Region)
first_overlap r [] = none
first_overlap r (s ∷ ss) =
    let rest = first_overlap r ss in
    elim s.region [ none ↦ rest | some p ↦ if overlaps r p then some (s, p) else rest ]

-- Each region in turn, with the first earlier scan that it overlaps, if there is one.
unfoldable pub each_region :
    Os → Comparator → ScanType → ℕ → Option ℕ → List Scan → List Region → Progress → M Progress
each_region os cmp kind n raw2 prevs [] g = pure g
each_region os cmp kind n raw2 prevs (r ∷ rs) g = elim (first_overlap r prevs) [
  | none ↦ each_region os cmp kind n raw2 prevs rs g
  | some (prev, p) ↦ do
    g' ← match_region os cmp kind n raw2 prev p r g
    each_region os cmp kind n raw2 prevs rs g'
]

first_overlap-cons :
    (r : Region) (s : Scan) (ss : List Scan) (p : Region)
    → s.region ≡ some p
    → first_overlap r (s ∷ ss) ≡ (if overlaps r p then some (s, p) else first_overlap r ss)
first_overlap-cons r s ss p e =
    ap
      (λ (o : Option Region). elim o [
        | none ↦ first_overlap r ss
        | some q ↦ if overlaps r q then some (s, q) else first_overlap r ss
      ])
      e

skip-cons :
    (r : Region) (s : Scan) (ss : List Scan) (p : Region)
    → s.region ≡ some p
    → overlaps r p ≡ false
    → first_overlap r (s ∷ ss) ≡ first_overlap r ss
skip-cons r s ss p e h = first_overlap-cons r s ss p e ∙ rw h refl

-- Scans that end before a region do not count.
first_overlap-before :
    (r : Region) (low : ℕ) (before ss : List Scan)
    → low ≤ base r
    → All (EndsBy low) before
    → first_overlap r (before ++ ss) ≡ first_overlap r ss
first_overlap-before r low [] ss h a = refl
first_overlap-before r low (s ∷ before) ss h ((p, e, ends, small), a) =
    skip-cons r s (before ++ ss) p e (ground arith) ∙ first_overlap-before r low before ss h a

-- Nor do scans that begin behind it.
first_overlap-behind :
    (r : Region) (low : ℕ) (ss : List Scan)
    → base r + size r ≤ low
    → low < 2 ^ 63
    → ScanChain low ss
    → first_overlap r ss ≡ none
first_overlap-behind r low [] h small c = refl
first_overlap-behind r low (s ∷ ss) h small (p, e, here, bounded, c) =
    skip-cons r s ss p e (ground arith)
    ∙ first_overlap-behind r (base p + size p) ss (omega arith) bounded c

module _ (os : Os) (cmp : Comparator) (kind : ScanType) (n : ℕ) (raw2 : Option ℕ) where
  pub each-none :
      (prevs : List Scan) (r : Region) (rs : List Region) (g : Progress) (w : World)
      → first_overlap r prevs ≡ none
      → each_region os cmp kind n raw2 prevs (r ∷ rs) g w
        ≡ each_region os cmp kind n raw2 prevs rs g w
  unfolding each_region
  each-none prevs r rs g w e = rw (each_region, e) refl

  pub each-some :
      (prevs : List Scan) (r : Region) (rs : List Region) (s : Scan) (p : Region) (g : Progress)
      (w : World)
      → first_overlap r prevs ≡ some (s, p)
      → each_region os cmp kind n raw2 prevs (r ∷ rs) g w
        ≡ (match_region os cmp kind n raw2 s p r g >>= each_region os cmp kind n raw2 prevs rs) w
  unfolding each_region match_region
  each-some prevs r rs s p g w e = rw (each_region, e) refl

  -- Regions behind all the scans are passed over.
  each-behind :
      (prevs : List Scan) (rs : List Region) (g : Progress) (w : World) (low high : ℕ)
      → All (EndsBy low) prevs
      → Chain low rs high
      → each_region os cmp kind n raw2 (prevs ++ []) rs g w ≡ some (g, w)
  unfolding each_region
  each-behind prevs [] g w low high a c = refl
  each-behind prevs (r ∷ rs) g w low high a c =
      each-none (prevs ++ []) r rs g w (first_overlap-before r low prevs [] c.0 a)
      ∙ each-behind prevs rs g w (base r + size r) high
          (EndsBy-le low (base r + size r) prevs (omega (arith, c.0)) a) c.1

  bind_both :
      (o : Option (Progress × World)) (f h : Progress → M Progress)
      → ((g : Progress) (w : World) → f g w ≡ h g w)
      → elim o [ none ↦ none | some (g, w) ↦ f g w ] ≡ elim o [ none ↦ none | some (g, w) ↦ h g w ]
  bind_both none f h e = refl
  bind_both (some (g, w)) f h e = e g w

  loop-each_region :
      (rs : List Region) (before ps : List Scan) (g : Progress) (w : World) (low high from : ℕ)
      → All (EndsBy low) before
      → Chain low rs high
      → high < 2 ^ 63
      → ScanChain from ps
      → next_loop os cmp kind n raw2 rs ps g w
        ≡ each_region os cmp kind n raw2 (before ++ ps) rs g w
  unfolding each_region
  loop-each_region [] before ps g w low high from a c small sc = loop_none os cmp kind n raw2 ps g w
  loop-each_region (r ∷ rs) before [] g w low high from a c small sc =
      loop_done os cmp kind n raw2 r rs g w ∙ sym (each-behind before (r ∷ rs) g w low high a c)
  loop-each_region (r ∷ rs) before (prev ∷ ps) g w low high from a c small
        (p, e, here, bounded, sc) =
      elim (Bool-cases (leb (overlap_of r p).r_end (overlap_of r p).p_start)) [
        | inl ahead ↦
            loop_region os cmp kind n raw2 r rs prev ps p e g w ahead
            ∙ loop-each_region rs before (prev ∷ ps) g w (base r + size r) high from
                (EndsBy-le low (base r + size r) before (omega (arith, c.0)) a) c.1 small
                (p, e, here, bounded, sc)
            ∙ sym (
                each-none (before ++ prev ∷ ps) r rs g w (
                  first_overlap-before r low before (prev ∷ ps) c.0 a
                  ∙ first_overlap-behind r (base p) (prev ∷ ps)
                      (ground (arith, Chain-le (base r + size r) high rs c.1)) (omega arith)
                      (p, e, omega arith, bounded, sc)))
        | inr h ↦ elim (Bool-cases (leb (overlap_of r p).p_end (overlap_of r p).r_start)) [
          | inl behind ↦
              loop_scan os cmp kind n raw2 r rs prev ps p e g w h behind
              ∙ loop-each_region (r ∷ rs) (before ++ prev ∷ []) ps g w (base r) high
                  (base p + size p)
                  (All-append (EndsBy (base r)) before (prev ∷ [])
                    (EndsBy-le low (base r) before c.0 a) ((p, e, ground arith, bounded), tt))
                  (omega arith, c.1) small sc
              ∙ ap (λ (ss : List Scan). each_region os cmp kind n raw2 ss (r ∷ rs) g w)
                  (append_assoc before (prev ∷ []) ps)
          | inr k ↦
              loop_bind os cmp kind n raw2 r rs prev ps p e g w h k
              ∙ bind_both (match_region os cmp kind n raw2 prev p r g w)
                  (next_loop os cmp kind n raw2 rs (prev ∷ ps))
                  (each_region os cmp kind n raw2 (before ++ prev ∷ ps) rs)
                  (λ g' w'.
                    loop-each_region rs before (prev ∷ ps) g' w' (base r + size r) high from
                      (EndsBy-le low (base r + size r) before (omega (arith, c.0)) a) c.1 small
                      (p, e, here, bounded, sc))
              ∙ sym (
                  each-some (before ++ prev ∷ ps) r rs prev p g w (
                    first_overlap-before r low before (prev ∷ ps) c.0 a
                    ∙ (first_overlap-cons r prev ps p e ∙ rw (h, k) refl)))
        ]
      ]

-- Over listed regions that lie one behind the other below 2 ^ 63, and earlier scans whose regions do
-- too, the loop of `next_scan` does what `each_region` does: it takes every region in turn and
-- matches it with the first of all the earlier scans that it overlaps, and passes it over only if
-- there is none. So the walk along both lists misses no match that the search would find.
pub next_loop-each_region :
    (os : Os) (cmp : Comparator) (kind : ScanType) (n : ℕ) (raw2 : Option ℕ) (rs : List Region)
    (prevs : List Scan) (g : Progress) (w : World) (low high from : ℕ)
    → Chain low rs high
    → high < 2 ^ 63
    → ScanChain from prevs
    → next_loop os cmp kind n raw2 rs prevs g w ≡ each_region os cmp kind n raw2 prevs rs g w
next_loop-each_region os cmp kind n raw2 rs prevs g w low high from c small sc =
    loop-each_region os cmp kind n raw2 rs [] prevs g w low high from tt c small sc
