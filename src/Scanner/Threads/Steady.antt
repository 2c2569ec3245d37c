-- ===== src/Scanner/Threads/Steady.antt =====
-- What the interleaved tasks of `first_scan` change of the dump file, however their calls fail.
use slow_scanner.Prelude.{
  ℕ, zero, suc, Bool, true, false, Option, none, some, List, [], ◌∷◌, if◌then◌else◌, map, select,
}
use slow_scanner.Prelude.Int.{is_minus_one}
use slow_scanner.World.{Os, World, MFile, M, pure}
use slow_scanner.File.Steady.{After, Keeps, Keeps-pure, Keeps-fault, Keeps-if, Keeps-bind, IsSame}
use slow_scanner.Dump.{alloc_f}
use slow_scanner.Region.{Region, size, fetch}
use slow_scanner.Scan.{Scan, ScanType, Comparator, set_valid, search_value}
use slow_scanner.Compare.{ElementType, FloatFormat, element_size, make_comparator}
use slow_scanner.Scanner.{
  AddressRange, get_regions, region_of, make_scans, finish_search, searched, is_unknown, sort_scans,
}
use slow_scanner.Scanner.Threads.{
  Job, waiting, reserved, fetched, finished, reserve_region, with_region, search_step, advance,
  turn, interleave, collect, first_scan_threads,
}
use slow_scanner.Region.Steady.{alloc_f-Keeps, fetch-Keeps}
use slow_scanner.Scanner.Steady.{region-Keeps, make_scans-Keeps, get_regions-Keeps}

module _ (os : Os) (f0 : MFile) where
  abbrev Same : MFile → Type 0
  Same = IsSame f0

  pub reserve_region-Keeps : (r : Region) → Keeps Same (reserve_region os r)
  unfolding reserve_region
  reserve_region-Keeps r =
      Keeps-if Same r.mem_reserved (pure (true, r)) _ (Keeps-pure Same (true, r)) (
        Keeps-bind Same (alloc_f os (size r) r.dumped) _ (alloc_f-Keeps os f0 (size r) r.dumped)
          (λ (index, d).
            Keeps-if Same (is_minus_one index) (pure (false, record r { dumped = d }))
              (pure (true, record r { dumped = d; mem_reserved = true }))
              (Keeps-pure Same (false, record r { dumped = d }))
              (Keeps-pure Same (true, record r { dumped = d; mem_reserved = true }))))

  module _ (cmp : Comparator) (raw1 : ℕ) (raw2 : Option ℕ) where
    finish-Keeps : (s : Scan) → Keeps Same (finish_search cmp raw1 raw2 s)
    finish-Keeps s = record { run = λ w h. after w h (search_value w.cells cmp raw1 raw2 s) }
      where
        after :
            (w : World)
            → Same w.file
            → (o : Option (ℕ × Scan)) → After Same {A = Scan} (searched w o)
        after w h none = tt
        after w h (some (count, s')) = h

    pub search-Keeps : (s : Scan) → Keeps Same (search_step cmp raw1 raw2 s)
    search-Keeps s =
        Keeps-if Same (is_unknown s.kind) (pure (set_valid s)) (finish_search cmp raw1 raw2 s)
          (Keeps-pure Same (set_valid s)) (finish-Keeps s)

    abbrev outcome : (Scan → Job) → Scan → Bool × Region → M Job
    outcome on s (done, r) =
        pure (if done then on (with_region r s) else finished (with_region r s))

    pub advance-Keeps : (j : Job) → Keeps Same (advance os cmp raw1 raw2 j)
    unfolding advance
    advance-Keeps (waiting s) = Keeps-bind Same (region_of s) _ (region-Keeps os f0 s.region) (λ r.
        Keeps-bind Same (reserve_region os r) (outcome reserved s) (reserve_region-Keeps r)
          (λ (done, r'). Keeps-pure Same _))
    advance-Keeps (reserved s) = Keeps-bind Same (region_of s) _ (region-Keeps os f0 s.region) (λ r.
        Keeps-bind Same (fetch os r) (outcome fetched s)
          (unfold fetch in fetch-Keeps os f0 r r.dumped.spans) (λ (done, r'). Keeps-pure Same _))
    advance-Keeps (fetched s) =
        Keeps-bind Same (search_step cmp raw1 raw2 s) (λ s'. pure (finished s')) (search-Keeps s)
          (λ s'. Keeps-pure Same (finished s'))
    advance-Keeps (finished s) = Keeps-pure Same (finished s)

    pub turn-Keeps : (k : ℕ) (js : List Job) → Keeps Same (turn os cmp raw1 raw2 k js)
    unfolding turn
    turn-Keeps k [] = Keeps-pure Same []
    turn-Keeps zero (j ∷ js) =
        Keeps-bind Same (advance os cmp raw1 raw2 j) (λ j'. pure (j' ∷ js)) (advance-Keeps j)
          (λ j'. Keeps-pure Same (j' ∷ js))
    turn-Keeps (suc k) (j ∷ js) =
        Keeps-bind Same (turn os cmp raw1 raw2 k js) (λ js'. pure (j ∷ js')) (turn-Keeps k js)
          (λ js'. Keeps-pure Same (j ∷ js'))

    pub interleave-Keeps :
        (turns : List ℕ) (js : List Job) → Keeps Same (interleave os cmp raw1 raw2 turns js)
    unfolding interleave
    interleave-Keeps [] js = Keeps-pure Same js
    interleave-Keeps (k ∷ turns) js =
        Keeps-bind Same (turn os cmp raw1 raw2 k js) (interleave os cmp raw1 raw2 turns)
          (turn-Keeps k js) (λ js'. interleave-Keeps turns js')

  pub collect-Keeps : (js : List Job) → Keeps Same (collect js)
  unfolding collect
  collect-Keeps [] = Keeps-pure Same []
  collect-Keeps (finished s ∷ js) =
      Keeps-bind Same (collect js) (λ ss. pure (s ∷ ss)) (collect-Keeps js)
        (λ ss. Keeps-pure Same (s ∷ ss))
  collect-Keeps (waiting s ∷ js) = Keeps-fault Same
  collect-Keeps (reserved s ∷ js) = Keeps-fault Same
  collect-Keeps (fetched s ∷ js) = Keeps-fault Same

  pub first_scan_threads-Keeps :
      (f32 f64 : FloatFormat) (turns : List ℕ) (handle : ℕ) (range : AddressRange) (protect : ℕ)
      (kind : ScanType) (elem : ElementType) (raw1 : ℕ) (raw2 : Option ℕ)
      → Keeps Same (first_scan_threads os f32 f64 turns handle range protect kind elem raw1 raw2)
  unfolding first_scan_threads
  first_scan_threads-Keeps f32 f64 turns handle range protect kind elem raw1 raw2 =
      let cmp = make_comparator f32 f64 kind elem in
      Keeps-bind Same (get_regions os handle range protect) _
        (get_regions-Keeps os f0 handle range protect)
        (λ rs.
          Keeps-bind Same (make_scans kind (element_size elem) rs) _
            (make_scans-Keeps os f0 kind (element_size elem) rs)
            (λ tasks.
              Keeps-bind Same (interleave os cmp raw1 raw2 turns (map waiting tasks)) _
                (interleave-Keeps cmp raw1 raw2 turns (map waiting tasks))
                (λ js.
                  Keeps-bind Same (collect js) (λ ss. pure (sort_scans (select (λ s. s.valid) ss)))
                    (collect-Keeps js)
                    (λ ss. Keeps-pure Same (sort_scans (select (λ s. s.valid) ss))))))
