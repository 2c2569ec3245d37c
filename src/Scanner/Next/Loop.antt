-- ===== src/Scanner/Next/Loop.antt =====
-- The rounds of `next_loop`, one equation for each way on.
use slow_scanner.Prelude.{ℕ, ◌≡◌, refl, ◌∙◌, true, false, Option, none, some, List, [], ◌∷◌, leb}
use slow_scanner.World.{Os, World, M, pure, fault, ◌>>=◌}
use slow_scanner.Region.{Region}
use slow_scanner.Scan.{Scan, ScanType, Comparator}
use slow_scanner.Scanner.{region_of}
use slow_scanner.Scanner.Next.{overlap_of, Progress, match_region, next_loop}

bind-region :
    {B : Type 0} (o : Option Region) (p : Region) (e : o ≡ some p) (f : Region → M B) (w : World)
    → ((elim o [ none ↦ fault | some r ↦ pure r ]) >>= f) w ≡ f p w
bind-region o p e f w = rw e refl

pub bind-region_of :
    {B : Type 0} (prev : Scan) (p : Region) (e : prev.region ≡ some p) (f : Region → M B)
    (w : World)
    → (region_of prev >>= f) w ≡ f p w
bind-region_of prev p e f w = bind-region prev.region p e f w

module _ (os : Os) (cmp : Comparator) (kind : ScanType) (n : ℕ) (raw2 : Option ℕ) where
  pub loop_none :
      (ps : List Scan) (g : Progress) (w : World)
      → next_loop os cmp kind n raw2 [] ps g w ≡ some (g, w)
  unfolding next_loop
  loop_none [] g w = refl
  loop_none (p ∷ ps) g w = refl

  pub loop_done :
      (r : Region) (rs : List Region) (g : Progress) (w : World)
      → next_loop os cmp kind n raw2 (r ∷ rs) [] g w ≡ some (g, w)
  unfolding next_loop
  loop_done r rs g w = refl

  module _ (r : Region) (rs : List Region) (prev : Scan) (ps : List Scan) (p : Region)
      (e : prev.region ≡ some p) (g : Progress) (w : World) where
    pub loop_region :
        leb (overlap_of r p).r_end (overlap_of r p).p_start ≡ true
        → next_loop os cmp kind n raw2 (r ∷ rs) (prev ∷ ps) g w
          ≡ next_loop os cmp kind n raw2 rs (prev ∷ ps) g w
    unfolding next_loop
    loop_region h = bind-region_of prev p e _ w ∙ rw h refl

    pub loop_scan :
        leb (overlap_of r p).r_end (overlap_of r p).p_start ≡ false
        → leb (overlap_of r p).p_end (overlap_of r p).r_start ≡ true
        → next_loop os cmp kind n raw2 (r ∷ rs) (prev ∷ ps) g w
          ≡ next_loop os cmp kind n raw2 (r ∷ rs) ps g w
    unfolding next_loop
    loop_scan h k = bind-region_of prev p e _ w ∙ rw (h, k) refl

    pub loop_match :
        (g' : Progress) (w' : World)
        → leb (overlap_of r p).r_end (overlap_of r p).p_start ≡ false
        → leb (overlap_of r p).p_end (overlap_of r p).r_start ≡ false
        → match_region os cmp kind n raw2 prev p r g w ≡ some (g', w')
        → next_loop os cmp kind n raw2 (r ∷ rs) (prev ∷ ps) g w
          ≡ next_loop os cmp kind n raw2 rs (prev ∷ ps) g' w'
    unfolding next_loop
    loop_match g' w' h k m = bind-region_of prev p e _ w ∙ rw (h, k, ◌>>=◌, m) refl

    pub loop_bind :
        leb (overlap_of r p).r_end (overlap_of r p).p_start ≡ false
        → leb (overlap_of r p).p_end (overlap_of r p).r_start ≡ false
        → next_loop os cmp kind n raw2 (r ∷ rs) (prev ∷ ps) g w
          ≡ (match_region os cmp kind n raw2 prev p r g
                >>= next_loop os cmp kind n raw2 rs (prev ∷ ps))
              w
    unfolding next_loop
    loop_bind h k = bind-region_of prev p e _ w ∙ rw (h, k) refl
