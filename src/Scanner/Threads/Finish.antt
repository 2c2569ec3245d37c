-- ===== src/Scanner/Threads/Finish.antt =====
-- The tasks at the start, and what `first_scan` collects from them at the end.
use slow_scanner.Prelude.{
  ℕ, zero, suc, ◌≤◌, ◌<◌, ◌≡◌, refl, false, Option, none, some, List, [], ◌∷◌, arith, map, length,
  All,
}
use slow_scanner.World.{MemoryInfo, Os, World, ◌>>=◌}
use slow_scanner.Region.{new_region}
use slow_scanner.Scan.{Scan, ScanType, Comparator}
use slow_scanner.Scanner.Task.{task_of, Scanned}
use slow_scanner.Scanner.Sort.{total}
use slow_scanner.Scanner.First.{Each}
use slow_scanner.Scanner.Threads.{Job, waiting, reserved, fetched, finished, collect}
use slow_scanner.Scanner.Threads.Jobs.{owned, steps_of, demands, Jobs}

module _ (os : Os) (cmp : Comparator) (raw1 : ℕ) (raw2 : Option ℕ) (kind : ScanType) (n handle : ℕ)
    (positive : 0 < n) where
  abbrev pub queued : List MemoryInfo → List Job
  queued infos = map waiting (map (λ i. task_of kind n (new_region i handle)) infos)

  -- A task that has not begun owns nothing.
  pub owned-queued : (infos : List MemoryInfo) (k : ℕ) → owned k (queued infos) ≡ false
  owned-queued [] k = refl
  owned-queued (info ∷ infos) k =
      let rest : owned k (queued infos) ≡ false = owned-queued infos k in rw rest (ground arith)

  pub queued-Jobs :
      (infos : List MemoryInfo) (cells : ℕ → ℕ) (limit : ℕ)
      → All (λ (i : MemoryInfo). 0 < i.region_size) infos
      → Jobs os cmp raw1 raw2 kind n handle positive infos cells limit (queued infos)
  queued-Jobs [] cells limit a = tt
  queued-Jobs (info ∷ infos) cells limit a =
      (refl, a.0, λ k own. owned-queued infos k, queued-Jobs infos cells limit a.1)

  pub queued-demands :
      (infos : List MemoryInfo)
      → demands infos (queued infos) ≡ total (λ (i : MemoryInfo). i.region_size) infos
  queued-demands [] = refl
  queued-demands (info ∷ infos) = omega (arith, queued-demands infos)

  pub queued-steps : (infos : List MemoryInfo) (i : ℕ) → steps_of i (queued infos) ≤ 3
  queued-steps [] i = omega arith
  queued-steps (info ∷ infos) zero = omega arith
  queued-steps (info ∷ infos) (suc i) = queued-steps infos i

  pub queued-beyond :
      (infos : List MemoryInfo) (i : ℕ) → length infos ≤ i → steps_of i (queued infos) ≡ 0
  queued-beyond [] i h = refl
  queued-beyond (info ∷ infos) zero h = absurd (omega (arith, h))
  queued-beyond (info ∷ infos) (suc i) h = queued-beyond infos i (omega (arith, h))

  -- What is collected: a scan for each task, in the order in which they were queued.
  abbrev pub Collected : List MemoryInfo → World → Option (List Scan × World) → Type 0
  Collected infos w none = ⊥
  Collected infos w (some (ss, w')) =
      Each os cmp raw1 raw2 kind n handle positive w.cells w.file.offset infos ss × (w' ≡ w)

  more-Collected :
      (info : MemoryInfo) (infos : List MemoryInfo) (s : Scan) (js : List Job) (w : World)
      (o : Option (List Scan × World))
      → Scanned os cmp raw1 raw2 kind n handle info w.cells w.file.offset s
      → collect js w ≡ o
      → Collected infos w o
      → Collected (info ∷ infos) w (collect (finished s ∷ js) w)
  unfolding collect
  more-Collected info infos s js w none h e c = absurd c
  more-Collected info infos s js w (some (ss, w')) h e c = rw (e, ◌>>=◌) ((h, c.0), c.1)

  -- Once no task has a step ahead of it, none has to be waited for.
  pub collect-Collected :
      (infos : List MemoryInfo) (js : List Job) (w : World)
      → Jobs os cmp raw1 raw2 kind n handle positive infos w.cells w.file.offset js
      → ((i : ℕ) → steps_of i js ≤ 0)
      → Collected infos w (collect js w)
  collect-Collected [] [] w h done = unfold collect in (tt, refl)
  collect-Collected [] (j ∷ js) w h done = absurd h
  collect-Collected (info ∷ infos) [] w h done = absurd h
  collect-Collected (info ∷ infos) (waiting s ∷ js) w h done = absurd (omega (arith, done 0))
  collect-Collected (info ∷ infos) (reserved s ∷ js) w h done = absurd (omega (arith, done 0))
  collect-Collected (info ∷ infos) (fetched s ∷ js) w h done = absurd (omega (arith, done 0))
  collect-Collected (info ∷ infos) (finished s ∷ js) w h done =
      more-Collected info infos s js w (collect js w) h.0 refl
        (collect-Collected infos js w h.3 (λ i. done (suc i)))
