-- ===== src/Scanner/Next/Result.antt =====
-- `next_scan` as a whole.
use mathlib.Core.List.{append_assoc}
use slow_scanner.Prelude.{
  ℕ, ◌+◌, ◌^◌, ◌<◌, ◌≤◌, ◌≡◌, refl, ◌∙◌, sym, subst, false, Option, none, some, List, [], ◌∷◌, ◌++◌,
  arith, All, Bool-cases, inl, inr, leb,
}
use slow_scanner.World.{Os, World}
use slow_scanner.Region.Fetch.{ReadsWithin}
use slow_scanner.File.Reserve.{MapsExactly, CanGrow, IsLean, HasSpace, IsMapped}
use slow_scanner.Region.{Region, new_region, size}
use slow_scanner.Scan.{Scan, ScanType, Comparator}
use slow_scanner.Compare.{ElementType, element_size}
use slow_scanner.Scanner.{AddressRange}
use slow_scanner.Scanner.Regions.{IsListed}
use slow_scanner.Scanner.Task.{CanMap}
use slow_scanner.Scanner.Sort.{total}
use slow_scanner.Scanner.Next.{overlap_of, Progress, match_region, next_loop}
use slow_scanner.Scanner.Next.Loop.{loop_none, loop_done, loop_region, loop_scan, loop_match}
use slow_scanner.Scanner.Next.Round.{Follows, Follows-trans, Follows-refl, Going, Rounded}
use slow_scanner.Scanner.Next.Reads.{HasSnapshot}
use slow_scanner.Scanner.Next.Match.{match_region-Rounded}

module _ (os : Os) (cmp : Comparator) (kind : ScanType) (elem : ElementType) (raw1 : ℕ)
    (raw2 : Option ℕ) (handle : ℕ) (range : AddressRange) (protect : ℕ) (prevs : List Scan) where
  abbrev n : ℕ
  n = element_size elem

  -- The end of a loop that writes `bytes` bytes at most.
  abbrev pub Looped : ℕ → World → Option (Progress × World) → Type 0
  Looped bytes w none = ⊥
  Looped bytes w (some (g, w')) =
      Going os cmp kind elem raw1 raw2 handle range protect prevs g w'
      × Follows w w'
      × (w'.file.offset ≤ w.file.offset + bytes)
      × IsMapped w'.file
      × IsLean w'.file

  Looped-Follows :
      (a b : ℕ) (w w' : World) (o : Option (Progress × World))
      → Follows w w'
      → w'.file.offset ≤ w.file.offset + a
      → Looped b w' o
      → Looped (a + b) w o
  Looped-Follows a b w w' none f h l = l
  Looped-Follows a b w w' (some (g, w2)) f h l =
      (l.0, Follows-trans w w' w2 f l.1, omega (arith, l.2), l.3, l.4)

  -- What the loop needs of the state in which a region is looked at.
  pub record Ready (bytes : ℕ) (g : Progress) (w : World) : Type 0 where
    pub going : Going os cmp kind elem raw1 raw2 handle range protect prevs g w
    pub mapped : IsMapped w.file
    pub lean : IsLean w.file
    pub space : HasSpace bytes w.file

  Ready-le : (a b : ℕ) (g : Progress) (w : World) → a ≤ b → Ready b g w → Ready a g w
  Ready-le a b g w h ready = record {
    going = ready.going;
    mapped = ready.mapped;
    lean = ready.lean;
    space = omega (arith, ready.space);
  }

  module _ (exact : MapsExactly os) (grow : CanGrow os) (short : ReadsWithin os) (can : CanMap os)
      (below : range.second < 2 ^ 63) where
    -- The round of a region that overlaps, and the rest of the loop.
    match_then :
        (r : Region) (rs : List Region) (before : List Scan) (prev : Scan) (ps : List Scan)
        (held : HasSnapshot prev) (g : Progress) (w : World) (bytes : ℕ)
        → prevs ≡ before ++ prev ∷ ps
        → IsListed os handle range protect r
        → leb (overlap_of r held.region).r_end (overlap_of r held.region).p_start ≡ false
        → leb (overlap_of r held.region).p_end (overlap_of r held.region).r_start ≡ false
        → Ready (size r + bytes) g w
        → ((g' : Progress) (w' : World)
            → Ready bytes g' w'
            → Looped bytes w' (next_loop os cmp kind n raw2 rs (prev ∷ ps) g' w'))
        → Looped (size r + bytes) w (next_loop os cmp kind n raw2 (r ∷ rs) (prev ∷ ps) g w)
    match_then r rs before prev ps held g w bytes among listed h k ready rest =
        via (match_region os cmp kind n raw2 prev held.region r g w) refl round
      where
        p : Region
        p = held.region

        via :
            (o : Option (Progress × World))
            → match_region os cmp kind n raw2 prev p r g w ≡ o
            → Rounded os cmp kind elem raw1 raw2 handle range protect prevs (size r) w o
            → Looped (size r + bytes) w (next_loop os cmp kind n raw2 (r ∷ rs) (prev ∷ ps) g w)
        via none m x = absurd x
        via (some (g', w')) m (going, follows, at, mapped, lean) =
            rw (loop_match os cmp kind n raw2 r rs prev ps p held.here g w g' w' h k m) (
              Looped-Follows (size r) bytes w w' (next_loop os cmp kind n raw2 rs (prev ∷ ps) g' w')
                follows (omega (arith, at))
                (rest g' w' (record {
                  going = going;
                  mapped = mapped;
                  lean = lean;
                  space = omega (arith, at, ready.space);
                })))

        fresh : Region
        fresh = new_region r.info handle

        round :
            Rounded os cmp kind elem raw1 raw2 handle range protect prevs
              (size r)
              w
              (match_region os cmp kind n raw2 prev p r g w)
        round =
            subst
              (λ (x : Region).
                Rounded os cmp kind elem raw1 raw2 handle range protect prevs (size r) w
                  (match_region os cmp kind n raw2 prev p x g w))
              (sym listed.is_new)
              (match_region-Rounded os cmp kind elem raw1 raw2 handle range protect prevs before ps
                prev among p held.here held.full held.low held.within r.info
                (omega (arith, below, listed.ends))
                (subst (IsListed os handle range protect) listed.is_new listed)
                (ground arith, ground arith) g w ready.going exact grow short can ready.mapped
                ready.lean (omega (arith, ready.space)))

    pub loop-Looped :
        (rs : List Region) (before ps : List Scan) (g : Progress) (w : World)
        → prevs ≡ before ++ ps
        → All HasSnapshot ps
        → All (IsListed os handle range protect) rs
        → Ready (total size rs) g w
        → Looped (total size rs) w (next_loop os cmp kind n raw2 rs ps g w)
    loop-Looped [] before ps g w among regions listed ready =
        rw (loop_none os cmp kind n raw2 ps g w)
          (ready.going, Follows-refl w, omega arith, ready.mapped, ready.lean)
    loop-Looped (r ∷ rs) before [] g w among regions listed ready =
        rw (loop_done os cmp kind n raw2 r rs g w)
          (ready.going, Follows-refl w, omega arith, ready.mapped, ready.lean)
    loop-Looped (r ∷ rs) before (prev ∷ ps) g w among regions listed ready =
        let p = (regions.0).region in
        let e = (regions.0).here in
        elim (Bool-cases (leb (overlap_of r p).r_end (overlap_of r p).p_start)) [
          | inl ahead ↦ rw (loop_region os cmp kind n raw2 r rs prev ps p e g w ahead) (
              Looped-Follows (size r) (total size rs) w w
                (next_loop os cmp kind n raw2 rs (prev ∷ ps) g w) (Follows-refl w) (omega arith)
                (loop-Looped rs before (prev ∷ ps) g w among regions listed.1
                  (Ready-le (total size rs) (size r + total size rs) g w (omega arith) ready)))
          | inr h ↦ elim (Bool-cases (leb (overlap_of r p).p_end (overlap_of r p).r_start)) [
            | inl behind ↦ rw (loop_scan os cmp kind n raw2 r rs prev ps p e g w h behind) (
                loop-Looped (r ∷ rs) (before ++ prev ∷ []) ps g w
                  (among ∙ sym (append_assoc before (prev ∷ []) ps)) regions.1 listed ready)
            | inr k ↦
                match_then r rs before prev ps regions.0 g w (total size rs) among listed.0 h k
                  ready
                  (λ g' w' ready'.
                    loop-Looped rs before (prev ∷ ps) g' w' among regions listed.1 ready')
          ]
        ]
