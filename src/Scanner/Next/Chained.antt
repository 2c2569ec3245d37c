-- ===== src/Scanner/Next/Chained.antt =====
-- `next_scan` keeps the order of the regions: its result is again what it takes as earlier scans.
use slow_scanner.Prelude.{
  ℕ, ◌+◌, ◌%◌, ◌^◌, ◌≤◌, ◌<◌, ◌≡◌, refl, ap, false, inl, inr, Option, none, some, List, [], ◌∷◌,
  arith, All, All-append, Bool-cases, leb,
}
use slow_scanner.World.{MemoryInfo, Os, World, ◌>>=◌}
use slow_scanner.File.{page_size}
use slow_scanner.Region.{Region, base, size}
use slow_scanner.Scan.{Scan, ScanType, Comparator}
use slow_scanner.Compare.{ElementType, FloatFormat, element_size, make_comparator}
use slow_scanner.Scanner.{AddressRange, get_regions}
use slow_scanner.Scanner.Coverage.{QueriesPages, Chain, InOrder, get_regions-InOrder}
use slow_scanner.Scanner.Ordered.{
  ScanChain, EndsBy, Chain-le, EndsBy-le, ScanChain-append, sort_scans-ScanChain,
}
use slow_scanner.Scanner.Next.{overlap_of, Progress, match_region, next_loop, next_scan}
use slow_scanner.Scanner.Next.Added.{Added, match_region-Added}
use slow_scanner.Scanner.Next.Loop.{
  loop_none, loop_done, loop_region, loop_scan, loop_match, loop_bind,
}

module _ (os : Os) (cmp : Comparator) (kind : ScanType) (elem : ElementType) (raw2 : Option ℕ) where
  abbrev n : ℕ
  n = element_size elem

  -- The regions of the results so far lie in order, before `low`.
  record Walked (from low : ℕ) (g : Progress) : Type 0 where
    chained : ScanChain from g.results
    before : All (EndsBy low) g.results
    from_low : from ≤ low

  Walked-le : (from a b : ℕ) (g : Progress) → a ≤ b → Walked from a g → Walked from b g
  Walked-le from a b g h k = record {
    chained = k.chained;
    before = EndsBy-le a b g.results h k.before;
    from_low = omega (arith, k.from_low);
  }

  Added-Walked :
      (from low : ℕ) (r : Region) (g g' : Progress) (w : World)
      → Walked from low g
      → low ≤ base r
      → base r + size r < 2 ^ 63
      → Added r g (some (g', w))
      → Walked from (base r + size r) g'
  Added-Walked from low r g g' w k h small (inl same) =
      let k' = Walked-le from low (base r + size r) g (omega arith) k in
      record { chained = rw same k'.chained; before = rw same k'.before; from_low = k'.from_low }
  Added-Walked from low r g g' w k h small (inr (s, p, more, e, same)) =
      let at : base p ≡ base r = ap (λ (i : MemoryInfo). i.base_address) same in
      let long : size p ≡ size r = ap (λ (i : MemoryInfo). i.region_size) same in
      let k' = Walked-le from low (base r + size r) g (omega arith) k in
      record {
        chained = rw more (
            ScanChain-append from low g.results s p k.chained k.before e k.from_low (omega arith)
              (omega arith));
        before = rw more (
            All-append (EndsBy (base r + size r)) g.results (s ∷ []) k'.before
              ((p, e, omega arith, omega arith), tt));
        from_low = k'.from_low;
      }

  abbrev InChain : ℕ → Option (Progress × World) → Type 0
  InChain from none = Unit {0}
  InChain from (some (g, w)) = ScanChain from g.results

  abbrev loop : List Region → List Scan → Progress → World → Option (Progress × World)
  loop rs ps g w = next_loop os cmp kind n raw2 rs ps g w

  -- An earlier scan with a null pointer for a region is followed, which is a fault.
  loop_fault :
      (r : Region) (rs : List Region) (prev : Scan) (ps : List Scan) (g : Progress) (w : World)
      → prev.region ≡ none
      → loop (r ∷ rs) (prev ∷ ps) g w ≡ none
  unfolding next_loop
  loop_fault r rs prev ps g w e = rw (◌>>=◌, e) refl

  match_then :
      (from low : ℕ) (r : Region) (rs : List Region) (prev : Scan) (ps : List Scan) (p : Region)
      (e : prev.region ≡ some p) (g : Progress) (w : World) (o : Option (Progress × World))
      → leb (overlap_of r p).r_end (overlap_of r p).p_start ≡ false
      → leb (overlap_of r p).p_end (overlap_of r p).r_start ≡ false
      → match_region os cmp kind n raw2 prev p r g w ≡ o
      → Added r g o
      → Walked from low g
      → low ≤ base r
      → base r + size r < 2 ^ 63
      → ((g' : Progress) (w' : World)
          → Walked from (base r + size r) g'
          → InChain from (loop rs (prev ∷ ps) g' w'))
      → InChain from (loop (r ∷ rs) (prev ∷ ps) g w)
  match_then from low r rs prev ps p e g w none h k m a walked at small rest =
      rw (loop_bind os cmp kind n raw2 r rs prev ps p e g w h k, ◌>>=◌, m) tt
  match_then from low r rs prev ps p e g w (some (g', w')) h k m a walked at small rest =
      rw (loop_match os cmp kind n raw2 r rs prev ps p e g w g' w' h k m)
        (rest g' w' (Added-Walked from low r g g' w' walked at small a))

  step-InChain :
      (r : Region) (rs : List Region) (prev : Scan) (ps : List Scan) (g : Progress) (w : World)
      (from low high : ℕ) (o : Option Region)
      → prev.region ≡ o
      → Chain low (r ∷ rs) high
      → high < 2 ^ 63
      → Walked from low g
      → InChain from (loop (r ∷ rs) ps g w)
      → ((g' : Progress) (w' : World)
          → Walked from (base r + size r) g'
          → InChain from (loop rs (prev ∷ ps) g' w'))
      → InChain from (loop (r ∷ rs) (prev ∷ ps) g w)
  step-InChain r rs prev ps g w from low high none e c small k scan rest =
      rw (loop_fault r rs prev ps g w e) tt
  step-InChain r rs prev ps g w from low high (some p) e c small k scan rest =
      let upto = Chain-le (base r + size r) high rs c.1 in
      elim (Bool-cases (leb (overlap_of r p).r_end (overlap_of r p).p_start)) [
        | inl ahead ↦
            rw (loop_region os cmp kind n raw2 r rs prev ps p e g w ahead)
              (rest g w (Walked-le from low (base r + size r) g (omega (arith, c.0)) k))
        | inr h ↦ elim (Bool-cases (leb (overlap_of r p).p_end (overlap_of r p).r_start)) [
          | inl behind ↦ rw (loop_scan os cmp kind n raw2 r rs prev ps p e g w h behind) scan
          | inr j ↦
              match_then from low r rs prev ps p e g w
                (match_region os cmp kind n raw2 prev p r g w) h j refl
                (match_region-Added os cmp kind elem raw2 prev p r g w) k c.0 (omega arith) rest
        ]
      ]

  -- The loop, for any earlier scans whatever.
  loop-InChain :
      (rs : List Region) (ps : List Scan) (g : Progress) (w : World) (from low high : ℕ)
      → Chain low rs high
      → high < 2 ^ 63
      → Walked from low g
      → InChain from (loop rs ps g w)
  loop-InChain [] ps g w from low high c small k =
      rw (loop_none os cmp kind n raw2 ps g w) k.chained
  loop-InChain (r ∷ rs) [] g w from low high c small k =
      rw (loop_done os cmp kind n raw2 r rs g w) k.chained
  loop-InChain (r ∷ rs) (prev ∷ ps) g w from low high c small k =
      step-InChain r rs prev ps g w from low high prev.region refl c small k
        (loop-InChain (r ∷ rs) ps g w from low high c small k)
        (λ g' w' k'. loop-InChain rs (prev ∷ ps) g' w' from (base r + size r) high c.1 small k')

module _ (os : Os) (f32 f64 : FloatFormat) (handle : ℕ) (range : AddressRange) (protect : ℕ)
    (kind : ScanType) (elem : ElementType) (prevs : List Scan) (raw1 : ℕ) (raw2 : Option ℕ)
    (w : World) where
  -- If the scan returns, its result is in order.
  abbrev pub Chained : Option (List Scan × World) → Type 0
  Chained none = Unit {0}
  Chained (some (scans, w')) = ScanChain range.first scans

  abbrev call : Option (List Scan × World)
  call = next_scan os f32 f64 handle range protect kind elem prevs raw1 raw2 w

  looped-Chained :
      (rs : List Region) (w1 : World) (o : Option (Progress × World))
      → get_regions os handle range protect w ≡ some (rs, w1)
      → next_loop os
          (make_comparator f32 f64 kind elem)
          kind
          (element_size elem)
          raw2
          rs
          prevs
          (record { results = []; raw1 = raw1 })
          w1
        ≡ o
      → InChain os (make_comparator f32 f64 kind elem) kind elem raw2 range.first o
      → Chained call
  unfolding next_scan
  looped-Chained rs w1 none listed e c = rw (listed, ◌>>=◌, e) tt
  looped-Chained rs w1 (some (g, w2)) listed e c =
      rw (listed, ◌>>=◌, e, sort_scans-ScanChain range.first g.results c) c

  listed-Chained :
      (o : Option (List Region × World))
      → get_regions os handle range protect w ≡ o
      → InOrder range o
      → range.second < 2 ^ 63
      → Chained call
  listed-Chained none e c small = absurd c
  listed-Chained (some (rs, w1)) e c small = looped-Chained rs w1 _ e refl (
      loop-InChain os (make_comparator f32 f64 kind elem) kind elem raw2 rs prevs
        (record { results = []; raw1 = raw1 }) w1 range.first range.first range.second c small
        (record { chained = tt; before = tt; from_low = omega arith }))

-- The result of `next_scan`, on a range that starts at a page and lies below 2 ^ 63, whatever the
-- earlier scans are, however reads and writes fail and whatever the process does meanwhile: if the
-- scan returns, the regions of its result lie one behind the other, from the start of the range on.
pub next_scan-Chained :
    (os : Os) (f32 f64 : FloatFormat) (handle : ℕ) (range : AddressRange) (protect : ℕ)
    (kind : ScanType) (elem : ElementType) (prevs : List Scan) (raw1 : ℕ) (raw2 : Option ℕ)
    (w : World)
    → QueriesPages os
    → range.first % page_size ≡ 0
    → range.first ≤ range.second
    → range.second < 2 ^ 63
    → Chained os f32 f64 handle range protect kind elem prevs raw1 raw2 w
        (next_scan os f32 f64 handle range protect kind elem prevs raw1 raw2 w)
next_scan-Chained os f32 f64 handle range protect kind elem prevs raw1 raw2 w pages start order
      low =
    listed-Chained os f32 f64 handle range protect kind elem prevs raw1 raw2 w
      (get_regions os handle range protect w) refl
      (get_regions-InOrder os handle range protect w pages low order start) low
