-- ===== src/Scanner/Threads/Result.antt =====
-- `first_scan` as a whole, with the steps of its tasks in any order.
use slow_scanner.Prelude.{
  ℕ, ◌-◌, ◌%◌, ◌^◌, ◌≤◌, ◌<◌, ◌≡◌, refl, ap, ◌∙◌, Option, none, some, List, arith, map, select,
  length, length-map, All, inl, inr, Bool-cases, ltb,
}
use slow_scanner.World.{MemoryInfo, MFile, Os, World, ◌>>=◌}
use slow_scanner.File.{page_size}
use slow_scanner.File.Reserve.{MapsExactly, CanGrow, IsLean, HasSpace, IsMapped}
use slow_scanner.Region.{Region}
use slow_scanner.Scan.{Scan, ScanType, Comparator}
use slow_scanner.Compare.{ElementType, FloatFormat, element_size, make_comparator}
use slow_scanner.Scanner.{AddressRange, get_regions}
use slow_scanner.Scanner.Regions.{IsListed, Listed, get_regions-Listed}
use slow_scanner.Scanner.Coverage.{QueriesPages, Chain, InOrder, get_regions-InOrder}
use slow_scanner.Scanner.Task.{CanMap, task_of}
use slow_scanner.Scanner.First.{element_size_positive, make_scans-map}
use slow_scanner.Scanner.First.Result.{
  QueriesPages-QueryCovers, infos_of, tasks-infos, nonempty_infos, total-Chain,
}
use slow_scanner.Scanner.Ordered.{select-ScanChain, sort_scans-ScanChain, Each-ScanChain}
use slow_scanner.Scanner.Threads.{Job, waiting, interleave, collect, first_scan_threads}
use slow_scanner.Region.Fetch.{ReadsWithin}
use slow_scanner.Scanner.Threads.Jobs.{steps_of}
use slow_scanner.Scanner.Threads.Interleave.{
  count, Interleaved, Interleaving, interleave-Interleaving,
}
use slow_scanner.Scanner.Threads.Finish.{
  queued, queued-Jobs, queued-demands, queued-steps, queued-beyond, owned-queued, Collected,
  collect-Collected,
}
use slow_scanner.Scanner.Threads.Outcome.{IsFair, ThreadsScan}

module _ (os : Os) (f32 f64 : FloatFormat) (turns : List ℕ) (handle : ℕ) (range : AddressRange)
    (protect : ℕ) (kind : ScanType) (elem : ElementType) (raw1 : ℕ) (raw2 : Option ℕ)
    (w : World) where
  abbrev pub ThreadsScanned : Option (List Scan × World) → Type 0
  ThreadsScanned none = ⊥
  ThreadsScanned (some (scans, w')) =
      ThreadsScan os (make_comparator f32 f64 kind elem) raw1 raw2 kind (element_size elem)
        (element_size_positive elem) handle range protect w scans w'

  abbrev cmp : Comparator
  cmp = make_comparator f32 f64 kind elem

  abbrev n : ℕ
  n = element_size elem

  abbrev jobs_of : List MemoryInfo → List Job
  jobs_of = queued os cmp raw1 raw2 kind n handle (element_size_positive elem)

  abbrev call : Option (List Scan × World)
  call = first_scan_threads os f32 f64 turns handle range protect kind elem raw1 raw2 w

  module _ (exact : MapsExactly os) (grow : CanGrow os) (can : CanMap os) (short : ReadsWithin os)
      (small : range.second < 2 ^ 63) (rs : List Region) (w1 : World)
      (listed : get_regions os handle range protect w ≡ some (rs, w1))
      (a : All (IsListed os handle range protect) rs) (chain : Chain range.first rs range.second)
      (same : w1.cells ≡ w.cells) (file : w1.file ≡ w.file)
      (fair : (i : ℕ) → i < length rs → 3 ≤ count i turns) where
    abbrev HasRun : List Job → World → Type 0
    HasRun js w2 =
        Interleaved os cmp raw1 raw2 kind n handle (element_size_positive elem) exact grow can short
          turns (infos_of rs) (jobs_of (infos_of rs)) w1 js w2

    no_steps : (js : List Job) (w2 : World) → HasRun js w2 → (i : ℕ) → steps_of i js ≤ 0
    no_steps js w2 h i = elim (Bool-cases (ltb i (length rs))) [
      | inr beyond ↦ omega (
        arith,
        h.nearer i,
        queued-beyond os cmp raw1 raw2 kind n handle (element_size_positive elem) (infos_of rs) i
            (ground (arith, length-map (λ (r : Region). r.info) rs)),
      )
      | inl within ↦ omega (
        arith,
        h.nearer i,
        fair i (ground arith),
        queued-steps os cmp raw1 raw2 kind n handle (element_size_positive elem) (infos_of rs) i,
      )
    ]

    finish :
        (js : List Job) (w2 : World) (o : Option (List Scan × World))
        → HasRun js w2
        → interleave os cmp raw1 raw2 turns (map waiting (map (task_of kind n) rs)) w1
          ≡ some (js, w2)
        → collect js w2 ≡ o
        → Collected os cmp raw1 raw2 kind n handle (element_size_positive elem) (infos_of rs) w2 o
        → ThreadsScanned call
    unfolding first_scan_threads
    finish js w2 none h e f c = absurd c
    finish js w2 (some (ran, w3)) h e f (each, stays) =
        let sorted =
          select-ScanChain (λ s. s.valid) range.first ran
            (Each-ScanChain os cmp raw1 raw2 kind n handle (element_size_positive elem) w2.cells
              w2.file.offset range.first range.second rs ran chain small each) in
        rw
          (
            listed,
            ◌>>=◌,
            make_scans-map kind elem rs w1,
            e,
            f,
            stays,
            sort_scans-ScanChain range.first (select (λ s. s.valid) ran) sorted,
          )
          (record {
            listing = rs;
            listed_at = w1;
            listed = listed;
            ran = ran;
            each = each;
            kept = refl;
            chained = sorted;
            below = λ j lt.
                h.frame j (rw file lt) (
                  owned-queued os cmp raw1 raw2 kind n handle (element_size_positive elem)
                    (infos_of rs) j)
                ∙ ap (λ (c : ℕ → ℕ). c j) same;
            grows = omega (arith, h.grows, ap (λ (g : MFile). g.offset) file);
            bytes = omega (
              arith,
              h.bytes,
              ap (λ (g : MFile). g.offset) file,
              queued-demands os cmp raw1 raw2 kind n handle (element_size_positive elem)
                  (infos_of rs),
              total-Chain range.first range.second rs chain,
            );
            mapped = h.mapped;
            lean = h.lean;
          })

    run-ThreadsScanned :
        (o : Option (List Job × World))
        → interleave os cmp raw1 raw2 turns (jobs_of (infos_of rs)) w1 ≡ o
        → Interleaving os cmp raw1 raw2 kind n handle
            (element_size_positive elem)
            exact
            grow
            can
            short
            turns
            (infos_of rs)
            (jobs_of (infos_of rs))
            w1
            o
        → ThreadsScanned call
    run-ThreadsScanned none e h = absurd h
    run-ThreadsScanned (some (js, w2)) e h =
        finish js w2 (collect js w2) h
          (ap (λ (ss : List Scan). interleave os cmp raw1 raw2 turns (map waiting ss) w1)
              (tasks-infos os kind n handle range protect rs a)
            ∙ e)
          refl
          (collect-Collected os cmp raw1 raw2 kind n handle (element_size_positive elem)
            (infos_of rs) js w2 h.jobs (no_steps js w2 h))

  module _ (exact : MapsExactly os) (grow : CanGrow os) (can : CanMap os) (short : ReadsWithin os)
      (small : range.second < 2 ^ 63) (inv : IsMapped w.file) (lean : IsLean w.file)
      (space : HasSpace (range.second - range.first) w.file) where
    regions-ThreadsScanned :
        (o : Option (List Region × World))
        → get_regions os handle range protect w ≡ o
        → Listed os handle range protect w.file w.cells o
        → InOrder range o
        → IsFair turns o
        → ThreadsScanned call
    regions-ThreadsScanned none e h c fair = absurd h
    regions-ThreadsScanned (some (rs, w1)) e (a, file, cells) c fair =
        run-ThreadsScanned exact grow can short small rs w1 e a c cells file fair
          (interleave os cmp raw1 raw2 turns (jobs_of (infos_of rs)) w1) refl
          (interleave-Interleaving os cmp raw1 raw2 kind n handle (element_size_positive elem) exact
            grow can short turns (infos_of rs) (jobs_of (infos_of rs)) w1
            (queued-Jobs os cmp raw1 raw2 kind n handle (element_size_positive elem) (infos_of rs)
              w1.cells w1.file.offset (nonempty_infos os kind n handle range protect rs a))
            (rw file inv) (rw file lean)
            (omega (
              arith,
              ap (λ (g : MFile). g.offset) file,
              queued-demands os cmp raw1 raw2 kind n handle (element_size_positive elem)
                  (infos_of rs),
              total-Chain range.first range.second rs c,
            )))

-- `first_scan` with its tasks interleaved step by step, on a range that starts at a page and lies
-- below 2 ^ 63, with a file whose map is up to date, that is at most four times its data and a page
-- and has space for the range, and a system that answers queries in whole pages, writes no more
-- than was asked for, and whose calls on the file succeed, returns, whatever the process does
-- meanwhile and in any order of the steps in which each task has three turns. Its result is as in
-- `ThreadsScan`: the valid ones of the scans of the listed regions, in the order of the list, each
-- over its own snapshot, which no other task has disturbed; and no byte that was in the file before
-- has changed.
pub first_scan_threads-ThreadsScanned :
    (os : Os) (f32 f64 : FloatFormat) (turns : List ℕ) (handle : ℕ) (range : AddressRange)
    (protect : ℕ) (kind : ScanType) (elem : ElementType) (raw1 : ℕ) (raw2 : Option ℕ) (w : World)
    → MapsExactly os
    → CanGrow os
    → CanMap os
    → QueriesPages os
    → ReadsWithin os
    → IsFair turns (get_regions os handle range protect w)
    → range.first % page_size ≡ 0
    → range.first ≤ range.second
    → range.second < 2 ^ 63
    → IsMapped w.file
    → IsLean w.file
    → HasSpace (range.second - range.first) w.file
    → ThreadsScanned os f32 f64 turns handle range protect kind elem raw1 raw2 w
        (first_scan_threads os f32 f64 turns handle range protect kind elem raw1 raw2 w)
first_scan_threads-ThreadsScanned os f32 f64 turns handle range protect kind elem raw1 raw2 w exact
      grow can pages short fair start order low inv lean space =
    regions-ThreadsScanned os f32 f64 turns handle range protect kind elem raw1 raw2 w exact grow
      can short low inv lean space (get_regions os handle range protect w) refl
      (get_regions-Listed os handle range protect w (QueriesPages-QueryCovers os pages) low)
      (get_regions-InOrder os handle range protect w pages low order start) fair
