-- ===== src/Scanner/Threads/Ends.antt =====
-- The last step of a task, and all its steps together.
use slow_scanner.Prelude.{
  ℕ, ◌<◌, ◌≡◌, refl, ap, ◌∙◌, sym, subst, inl, inr, true, not, ◌||◌, Option, some, [], arith,
  get_or, length, ltb, Bool-cases, if◌then◌else◌, map,
}
use slow_scanner.World.{MemoryInfo, Os, World, ◌>>=◌}
use slow_scanner.File.Reserve.{MapsExactly, CanGrow, IsLean, HasSpace, IsMapped}
use slow_scanner.Dump.{empty_dump, alloc_f}
use slow_scanner.Dump.Spans.{alloc_f-Dumped}
use slow_scanner.Scan.{Scan, ScanType, Comparator, set_valid}
use slow_scanner.Scan.Search.{entry_at, hits, search_value-hits}
use slow_scanner.Scanner.{is_unknown}
use slow_scanner.Scanner.Task.{CanMap, task_of}
use slow_scanner.Scanner.Threads.{Job, waiting, reserved, fetched, finished, advance}
use slow_scanner.Region.Fetch.{ReadsWithin}
use slow_scanner.Scanner.Threads.Steps.{region_has, demand, Holding, answer_at, IsJob, Advanced}
use slow_scanner.Scanner.Threads.Advances.{waiting_reserved, fetch_step}

module _ (os : Os) (cmp : Comparator) (raw1 : ℕ) (raw2 : Option ℕ) (kind : ScanType) (n handle : ℕ)
    (info : MemoryInfo) (w : World) (mapped : IsMapped w.file) (lean : IsLean w.file) where
  abbrev Goal : Job → Option (Job × World) → Type 0
  Goal j o = Advanced os cmp raw1 raw2 kind n handle info j w o

  module _ (time : ℕ) (good : (answer_at os cmp raw1 raw2 kind n handle time info).0 ≡ true)
      (s : Scan)
      (h : Holding kind n handle info
        (λ k. get_or (answer_at os cmp raw1 raw2 kind n handle time info).1 k 0)
        w.cells
        w.file.offset
        s) where
    -- A scan of the region, with the verdict and the results of the last step.
    searched :
        (t : Scan)
        → t.region ≡ some h.region
        → t.kind ≡ kind
        → t.elem_size ≡ n
        → t.valid ≡ (is_unknown kind || ltb 0 (length (hits w.cells h.region n cmp raw1 raw2)))
        → t.results ≡ (
            if not (is_unknown kind)
            then map (entry_at w.cells h.region n) (hits w.cells h.region n cmp raw1 raw2)
            else [])
        → Goal (fetched (task_of kind n h.region)) (some (finished t, w))
    searched t here k e verdict found = record {
      is_job = record {
        region = h.region;
        time = time;
        success = true;
        position = h.position;
        here = here;
        same = h.same;
        kept = (k, e);
        span = h.span;
        within = h.within;
        answer = good;
        content = h.content;
        verdict = verdict;
        found = found;
      };
      frame = λ k lt own. refl;
      gained = λ k own. inl (ap (region_has k) (sym here) ∙ own);
      bytes = refl;
      grows = omega arith;
      nearer = omega arith;
      mapped = mapped;
      lean = lean;
    }

    search_finished :
        Goal
          (fetched (task_of kind n h.region))
          (advance os cmp raw1 raw2 (fetched (task_of kind n h.region)) w)
    unfolding advance
    search_finished = elim (Bool-cases (is_unknown kind)) [
      | inl u ↦
          rw (◌>>=◌, u)
            (searched (set_valid (task_of kind n h.region)) refl refl refl (rw u refl) (rw u refl))
      | inr k ↦
          rw
            (
              ◌>>=◌,
              k,
              search_value-hits w.cells h.region cmp raw1 raw2 (task_of kind n h.region) refl,
            )
            (searched _ refl refl refl (rw k refl) (rw k refl))
    ]

  -- Any step of a task, if there is room for its region.
  pub advance-Advanced :
      (j : Job)
      → MapsExactly os
      → CanGrow os
      → CanMap os
      → ReadsWithin os
      → 0 < info.region_size
      → HasSpace (demand info j) w.file
      → IsJob os cmp raw1 raw2 kind n handle info w.cells w.file.offset j
      → Goal j (advance os cmp raw1 raw2 j w)
  advance-Advanced (waiting s) exact grow can short positive space h =
      subst (λ (t : Scan). Goal (waiting t) (advance os cmp raw1 raw2 (waiting t) w)) (sym h)
        (waiting_reserved os cmp raw1 raw2 kind n handle info w
          (alloc_f os info.region_size empty_dump w) can refl
          (alloc_f-Dumped os info.region_size empty_dump w exact grow mapped positive lean space))
  advance-Advanced (reserved s) exact grow can short positive space h =
      subst (λ (t : Scan). Goal (reserved t) (advance os cmp raw1 raw2 (reserved t) w))
        (sym h.is_task) (fetch_step os cmp raw1 raw2 kind n handle info w s h short mapped lean)
  advance-Advanced (fetched s) exact grow can short positive space (time, good, h) =
      subst (λ (t : Scan). Goal (fetched t) (advance os cmp raw1 raw2 (fetched t) w))
        (sym h.is_task) (search_finished time good s h)
  advance-Advanced (finished s) exact grow can short positive space h =
      unfold advance in
      record {
        is_job = h;
        frame = λ k lt own. refl;
        gained = λ k own. inl own;
        bytes = refl;
        grows = omega arith;
        nearer = omega arith;
        mapped = mapped;
        lean = lean;
      }
