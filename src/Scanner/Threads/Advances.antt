-- ===== src/Scanner/Threads/Advances.antt =====
-- Each step of a task keeps what is known of it, and touches no byte of the others.
use slow_scanner.Prelude.{
  ℕ, ◌+◌, ◌-◌, ◌≤◌, ◌<◌, ◌≡◌, refl, ap, ◌∙◌, sym, subst, inl, inr, Bool, true, false, Option, none,
  some, List, [], arith, get_or, length, replicate, ltb, le→ltb, lt→ltb, get_or-beyond, Bool-cases,
}
use slow_scanner.Prelude.Int.{ℤ}
use slow_scanner.Words.{long_to_handle}
use slow_scanner.World.{MemoryInfo, Os, World, blit, ◌>>=◌}
use slow_scanner.File.Reserve.{IsLean, IsMapped}
use slow_scanner.Dump.{Span, Dumpable, empty_dump, alloc_f}
use slow_scanner.Dump.Spans.{Dumped}
use slow_scanner.Region.{Region, new_region}
use slow_scanner.Region.Snapshot.{get_or-replicate}
use slow_scanner.Region.Fetch.{answer, fetch_lem}
use slow_scanner.Scan.{Scan, ScanType, Comparator}
use slow_scanner.Scanner.Task.{CanMap, task_of, not-MapFailed, Scanned}
use slow_scanner.Scanner.Threads.{
  Job, waiting, reserved, fetched, finished, reserve_region, advance,
}
use slow_scanner.Region.Fetch.{ReadsWithin}
use slow_scanner.Scanner.Threads.Steps.{
  owns-span, scan_of, span_has, region_has, steps_left, demand, Holding, answer_at, IsJob, Advance,
  Advanced,
}

-- Fresh zeros.
zeros : (c : ℕ → ℕ) (p n k : ℕ) → k < n → blit c p (replicate n 0) (p + k) ≡ 0
zeros c p n k h =
    let e : p + k - p ≡ k = omega arith in
    rw (le→ltb (p + k) p (omega arith), e, get_or-replicate n k 0 (c (p + k)) h)

-- What `ReadProcessMemory` writes over zeros.
over_zeros :
    (c : ℕ → ℕ) (p n k : ℕ) (bs : List ℕ) → c (p + k) ≡ 0 → blit c p bs (p + k) ≡ get_or bs k 0
over_zeros c p n k bs h =
    let e : p + k - p ≡ k = omega arith in rw (le→ltb (p + k) p (omega arith), e, h) refl

-- It writes nothing outside of its span.
blit_outside :
    (c : ℕ → ℕ) (p n k : ℕ) (bs : List ℕ)
    → length bs ≤ n
    → span_has k (record { position = p; size = n }) ≡ false
    → blit c p bs k ≡ c k
blit_outside c p n k bs short out = elim (Bool-cases (ltb k p)) [
  | inl below ↦ rw below refl
  | inr above ↦ rw above (get_or-beyond bs (k - p) (c k) (ground arith))
]

module _ (os : Os) (cmp : Comparator) (raw1 : ℕ) (raw2 : Option ℕ) (kind : ScanType) (n handle : ℕ)
    (info : MemoryInfo) (w : World) where
  abbrev Goal : Job → Option (Job × World) → Type 0
  Goal j o = Advanced os cmp raw1 raw2 kind n handle info j w o

  new_only :
      (k : ℕ)
      → span_has k (record { position = w.file.offset; size = info.region_size }) ≡ true
      → w.file.offset ≤ k
  new_only k h = ground arith

  -- The first step.
  pub waiting_reserved :
      (o : Option ((ℤ × Dumpable) × World))
      → CanMap os
      → alloc_f os info.region_size empty_dump w ≡ o
      → Dumped os none info.region_size empty_dump w o
      → Goal
          (waiting (task_of kind n (new_region info handle)))
          (advance os cmp raw1 raw2 (waiting (task_of kind n (new_region info handle))) w)
  unfolding advance reserve_region
  waiting_reserved none can e h = absurd h
  waiting_reserved (some ((index, d), w')) can e (inl (failed, u)) =
      absurd (not-MapFailed os can u.unmapped)
  waiting_reserved (some ((index, d), w')) can e (inr (found, a)) =
      rw (e, ◌>>=◌, found)
        (record {
          is_job = record {
            region = record (new_region info handle) { dumped = d; mem_reserved = true };
            position = w.file.offset;
            is_task = refl;
            same = refl;
            owner = refl;
            span = a.spans;
            within = omega (arith, a.offset);
            content = λ k h. rw (a.cells) (zeros w.cells w.file.offset info.region_size k h);
          };
          frame = λ k h own. rw (a.cells, lt→ltb k w.file.offset h) refl;
          gained = λ k own. inr (
              new_only k (
                sym (
                  owns-span k (record (new_region info handle) { dumped = d; mem_reserved = true })
                    (record { position = w.file.offset; size = info.region_size }) a.spans)
                ∙ own));
          bytes = omega (arith, a.offset);
          grows = omega (arith, a.offset);
          nearer = omega arith;
          mapped = a.mapped;
          lean = a.lean;
        })

  module _ (s : Scan) (h : Holding kind n handle info (λ k. 0) w.cells w.file.offset s) where
    abbrev r : Region
    r = h.region

    abbrev own_span : Span
    own_span = record { position = h.position; size = info.region_size }

    abbrev read_world : World
    read_world = record w { clock = w.clock + 1; cells = blit w.cells h.position (answer os r w).1 }

    same_answer : answer os r w ≡ answer_at os cmp raw1 raw2 kind n handle w.clock info
    same_answer = λ i.
        os.read_process_memory w.clock (long_to_handle (h.owner i)) (h.same i).base_address
          (h.same i).region_size

    content :
        (k : ℕ)
        → k < info.region_size
        → read_world.cells (h.position + k)
          ≡ get_or (answer_at os cmp raw1 raw2 kind n handle w.clock info).1 k 0
    content k lt =
        over_zeros w.cells h.position info.region_size k (answer os r w).1 (h.content k lt)
        ∙ ap (λ (a : Bool × List ℕ). get_or a.1 k 0) same_answer

    held :
        Holding kind n handle info
          (λ k. get_or (answer_at os cmp raw1 raw2 kind n handle w.clock info).1 k 0)
          read_world.cells
          w.file.offset
          (task_of kind n r)
    held = record {
      region = r;
      position = h.position;
      is_task = refl;
      same = h.same;
      owner = h.owner;
      span = h.span;
      within = h.within;
      content = content;
    }

    failed :
        (answer os r w).0 ≡ false
        → Scanned os cmp raw1 raw2 kind n handle info read_world.cells w.file.offset
            (task_of kind n r)
    failed e = record {
      region = r;
      time = w.clock;
      success = false;
      position = h.position;
      here = refl;
      same = h.same;
      kept = (refl, refl);
      span = h.span;
      within = h.within;
      answer = ap (λ (a : Bool × List ℕ). a.0) (sym same_answer) ∙ e;
      content = content;
      verdict = refl;
      found = refl;
    }

    fits : ReadsWithin os → length (answer os r w).1 ≤ info.region_size
    fits short =
        subst (λ (a : Bool × List ℕ). length a.1 ≤ info.region_size) (sym same_answer)
          (short w.clock _ _ _)

    -- Whatever it becomes, the task owns what it owned.
    after_fetch :
        (j : Job)
        → (scan_of j).region ≡ some r
        → steps_left j ≤ 1
        → demand info j ≡ 0
        → IsJob os cmp raw1 raw2 kind n handle info read_world.cells w.file.offset j
        → ReadsWithin os
        → IsMapped w.file
        → IsLean w.file
        → Advance os cmp raw1 raw2 kind n handle info (reserved (task_of kind n r)) w j read_world
    after_fetch j here few no_more is_job short mapped lean = record {
      is_job = is_job;
      frame = λ k lt own.
          blit_outside w.cells h.position info.region_size k (answer os r w).1 (fits short)
            (sym (owns-span k r own_span h.span) ∙ own);
      gained = λ k own. inl (ap (region_has k) (sym here) ∙ own);
      bytes = omega (arith, no_more);
      grows = omega arith;
      nearer = omega (arith, few);
      mapped = mapped;
      lean = lean;
    }

    pub fetch_step :
        ReadsWithin os
        → IsMapped w.file
        → IsLean w.file
        → Goal
            (reserved (task_of kind n r))
            (advance os cmp raw1 raw2 (reserved (task_of kind n r)) w)
    unfolding advance
    fetch_step short mapped lean = elim (Bool-cases (answer os r w).0) [
      | inl yes_read ↦
          rw (◌>>=◌, fetch_lem os r w own_span [] h.span (fits short), yes_read)
            (after_fetch (fetched (task_of kind n r)) refl (omega arith) refl
              (w.clock, ap (λ (a : Bool × List ℕ). a.0) (sym same_answer) ∙ yes_read, held) short
              mapped lean)
      | inr not_read ↦
          rw (◌>>=◌, fetch_lem os r w own_span [] h.span (fits short), not_read)
            (after_fetch (finished (task_of kind n r)) refl (omega arith) refl (failed not_read)
              short mapped lean)
    ]
