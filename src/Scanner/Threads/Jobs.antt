-- ===== src/Scanner/Threads/Jobs.antt =====
-- The tasks together: each owns its bytes, and a step of one leaves the others as they are.
use slow_scanner.Prelude.{
  ℕ, zero, suc, ◌+◌, ◌≤◌, ◌<◌, ◌≡◌, ap, ◌∙◌, sym, Bool, true, false, ◌||◌, Option, some, List, [],
  ◌∷◌, arith,
}
use slow_scanner.World.{MemoryInfo, Os}
use slow_scanner.Region.{Region}
use slow_scanner.Scan.{Scan, ScanType, Comparator}
use slow_scanner.Scanner.Task.{Scanned-agree}
use slow_scanner.Scanner.Threads.{Job, waiting, reserved, fetched, finished}
use slow_scanner.Scanner.Threads.Steps.{
  owns-span, span_has, region_has, owns, steps_left, demand, Holding, IsJob,
}

abbrev pub owned : ℕ → List Job → Bool
owned k [] = false
owned k (j ∷ js) = owns k j || owned k js

-- No byte of a task is another's.
abbrev pub Apart : Job → List Job → Type 0
Apart j js = (k : ℕ) → owns k j ≡ true → owned k js ≡ false

-- The steps that the task with the number `k` has ahead of it.
abbrev pub steps_of : ℕ → List Job → ℕ
steps_of k [] = 0
steps_of zero (j ∷ js) = steps_left j
steps_of (suc k) (j ∷ js) = steps_of k js

abbrev pub demands : List MemoryInfo → List Job → ℕ
demands [] js = 0
demands (info ∷ infos) [] = 0
demands (info ∷ infos) (j ∷ js) = demand info j + demands infos js

module _ (os : Os) (cmp : Comparator) (raw1 : ℕ) (raw2 : Option ℕ) (kind : ScanType) (n handle : ℕ)
    (positive : 0 < n) where
  abbrev pub Jobs : List MemoryInfo → (ℕ → ℕ) → ℕ → List Job → Type 0
  Jobs [] cells limit [] = Unit {0}
  Jobs (info ∷ infos) cells limit (j ∷ js) =
      IsJob os cmp raw1 raw2 kind n handle info cells limit j
      × (0 < info.region_size)
      × Apart j js
      × Jobs infos cells limit js
  Jobs _ cells limit _ = ⊥

  -- A span that is within the file and whose bytes stay.
  in_span :
      (k : ℕ) (r : Region) (p size : ℕ)
      → r.dumped.spans ≡ (record { position = p; size = size }) ∷ []
      → p ≤ k
      → k < p + size
      → region_has k (some r) ≡ true
  in_span k r p size e lo hi = owns-span k r (record { position = p; size = size }) e ∙ ground arith

  below_span :
      (k limit : ℕ) (r : Region) (p size : ℕ)
      → r.dumped.spans ≡ (record { position = p; size = size }) ∷ []
      → p + size ≤ limit
      → region_has k (some r) ≡ true
      → k < limit
  below_span k limit r p size e within own =
      let h : span_has k (record { position = p; size = size }) ≡ true =
        sym (owns-span k r (record { position = p; size = size }) e) ∙ own in
      ground arith

  -- What a task owns has been written.
  pub owns-lt :
      (info : MemoryInfo) (cells : ℕ → ℕ) (limit k : ℕ) (j : Job)
      → IsJob os cmp raw1 raw2 kind n handle info cells limit j
      → owns k j ≡ true
      → k < limit
  owns-lt info cells limit k (waiting s) h own =
      let none_own : owns k (waiting s) ≡ false =
        ap (λ (t : Scan). region_has k t.region) h ∙ ground arith in
      absurd (cc)
  owns-lt info cells limit k (reserved s) h own =
      below_span k limit h.region h.position info.region_size h.span h.within
        (ap (λ (t : Scan). region_has k t.region) (sym h.is_task) ∙ own)
  owns-lt info cells limit k (fetched s) (time, good, h) own =
      below_span k limit h.region h.position info.region_size h.span h.within
        (ap (λ (t : Scan). region_has k t.region) (sym h.is_task) ∙ own)
  owns-lt info cells limit k (finished s) h own =
      below_span k limit h.region h.position info.region_size h.span h.within
        (ap (region_has k) (sym h.here) ∙ own)

  Holding-agree :
      (info : MemoryInfo) (fill c d : ℕ → ℕ) (limit more : ℕ) (s : Scan)
      → ((k : ℕ) → region_has k s.region ≡ true → d k ≡ c k)
      → limit ≤ more
      → Holding kind n handle info fill c limit s
      → Holding kind n handle info fill d more s
  Holding-agree info fill c d limit more s agree grows h = record {
    region = h.region;
    position = h.position;
    is_task = h.is_task;
    same = h.same;
    owner = h.owner;
    span = h.span;
    within = omega (arith, h.within);
    content = λ k lt.
        agree (h.position + k) (
          ap (λ (t : Scan). region_has (h.position + k) t.region) h.is_task
          ∙ in_span (h.position + k) h.region h.position info.region_size h.span (omega arith)
              (omega arith))
        ∙ h.content k lt;
  }

  -- A task stays what it is while its own bytes stay.
  pub IsJob-agree :
      (info : MemoryInfo) (c d : ℕ → ℕ) (limit more : ℕ) (j : Job)
      → ((k : ℕ) → owns k j ≡ true → d k ≡ c k)
      → limit ≤ more
      → IsJob os cmp raw1 raw2 kind n handle info c limit j
      → IsJob os cmp raw1 raw2 kind n handle info d more j
  IsJob-agree info c d limit more (waiting s) agree grows h = h
  IsJob-agree info c d limit more (reserved s) agree grows h =
      Holding-agree info (λ k. 0) c d limit more s agree grows h
  IsJob-agree info c d limit more (fetched s) agree grows (time, good, h) =
      (time, good, Holding-agree info _ c d limit more s agree grows h)
  IsJob-agree info c d limit more (finished s) agree grows h =
      Scanned-agree os cmp raw1 raw2 kind n handle positive info c d limit more s h
        (λ k lo hi.
          agree k (
            ap (region_has k) h.here ∙ in_span k h.region h.position info.region_size h.span lo hi))
        grows
