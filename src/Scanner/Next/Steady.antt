-- ===== src/Scanner/Next/Steady.antt =====
-- What `next_scan` changes of the dump file, however its calls fail.
use slow_scanner.Prelude.{ℕ, not, Option, some, List, [], ◌∷◌, leb}
use slow_scanner.World.{Os, MFile, pure, fault}
use slow_scanner.File.Steady.{Keeps, Keeps-pure, Keeps-fault, Keeps-if, Keeps-bind, IsSame}
use slow_scanner.Region.{Region, read_memory}
use slow_scanner.Scan.{Scan, ScanType, Comparator, new_scan}
use slow_scanner.Compare.{ElementType, FloatFormat, element_size, make_comparator}
use slow_scanner.Scanner.{AddressRange, get_regions, region_of, make_scan, sort_scans}
use slow_scanner.Scanner.Next.{
  narrow_reads, narrow, keep_valid, Progress, overlap_of, narrow_now, match_region, next_loop,
  next_scan,
}
use slow_scanner.Region.Steady.{read_memory-Keeps}
use slow_scanner.Scanner.Steady.{region-Keeps, made-Keeps, get_regions-Keeps}

module _ (os : Os) (f0 : MFile) where
  abbrev Same : MFile → Type 0
  Same = IsSame f0

  module _ (cmp : Comparator) (kind : ScanType) (n : ℕ) (raw2 : Option ℕ) where
    narrow_now-Keeps :
        (prev : Scan) (p : Region) (s : Scan) (r : Region) (g : Progress)
        → Keeps Same (narrow_now cmp kind n raw2 prev p s r g)
    narrow_now-Keeps prev p s r g =
        Keeps-if Same (narrow_reads n prev p r)
          (λ w. some (keep_valid g (narrow w.cells cmp kind n raw2 prev p s r g.raw1), w)) fault
          (record { run = λ w h. h }) (Keeps-fault Same)

    pub match_region-Keeps :
        (prev : Scan) (p r : Region) (g : Progress)
        → Keeps Same (match_region os cmp kind n raw2 prev p r g)
    unfolding match_region
    match_region-Keeps prev p r g =
        Keeps-bind Same (make_scan (new_scan (some r) kind n)) _
          (made-Keeps os f0 (new_scan (some r) kind n))
          (λ s. Keeps-bind Same (read_memory os r) _ (read_memory-Keeps os f0 r) (λ (done, r').
            Keeps-if Same (not done) (pure g)
              (narrow_now cmp kind n raw2 prev p (record s { region = some r' }) r' g)
              (Keeps-pure Same g) (narrow_now-Keeps prev p (record s { region = some r' }) r' g)))

    pub next_loop-Keeps :
        (rs : List Region) (prevs : List Scan) (g : Progress)
        → Keeps Same (next_loop os cmp kind n raw2 rs prevs g)
    unfolding next_loop
    next_loop-Keeps [] prevs g = Keeps-pure Same g
    next_loop-Keeps (r ∷ rs) [] g = Keeps-pure Same g
    next_loop-Keeps (r ∷ rs) (prev ∷ prevs) g =
        Keeps-bind Same (region_of prev) _ (region-Keeps os f0 prev.region) (λ p.
          Keeps-if Same (leb (overlap_of r p).r_end (overlap_of r p).p_start)
            (next_loop os cmp kind n raw2 rs (prev ∷ prevs) g) _
            (next_loop-Keeps rs (prev ∷ prevs) g)
            (Keeps-if Same (leb (overlap_of r p).p_end (overlap_of r p).r_start)
              (next_loop os cmp kind n raw2 (r ∷ rs) prevs g) _ (next_loop-Keeps (r ∷ rs) prevs g)
              (Keeps-bind Same (match_region os cmp kind n raw2 prev p r g) _
                (match_region-Keeps prev p r g) (λ g'. next_loop-Keeps rs (prev ∷ prevs) g'))))

  pub next_scan-Keeps :
      (f32 f64 : FloatFormat) (handle : ℕ) (range : AddressRange) (protect : ℕ) (kind : ScanType)
      (elem : ElementType) (prevs : List Scan) (raw1 : ℕ) (raw2 : Option ℕ)
      → Keeps Same (next_scan os f32 f64 handle range protect kind elem prevs raw1 raw2)
  unfolding next_scan
  next_scan-Keeps f32 f64 handle range protect kind elem prevs raw1 raw2 =
      let cmp = make_comparator f32 f64 kind elem in
      let begin : Progress = record { results = []; raw1 = raw1 } in
      Keeps-bind Same (get_regions os handle range protect) _
        (get_regions-Keeps os f0 handle range protect)
        (λ rs.
          Keeps-bind Same (next_loop os cmp kind (element_size elem) raw2 rs prevs begin)
            (λ g. pure (sort_scans g.results))
            (next_loop-Keeps cmp kind (element_size elem) raw2 rs prevs begin)
            (λ g. Keeps-pure Same (sort_scans g.results)))
