-- ===== src/Scanner/Threads/Turns.antt =====
-- Any order of the steps of the tasks keeps them apart, and brings them to their ends.
use slow_scanner.Prelude.{
  ℕ, zero, suc, ◌+◌, ◌-◌, ◌≤◌, ◌<◌, ◌≡◌, ap, ◌∙◌, sym, ◌⊎◌, inl, inr, true, false, ◌||◌, Option,
  none, some, List, [], ◌∷◌, arith, Bool-cases, if◌then◌else◌, ◌==◌,
}
use slow_scanner.World.{MemoryInfo, Os, World}
use slow_scanner.File.Reserve.{IsLean, IsMapped}
use slow_scanner.Scan.{ScanType, Comparator}
use slow_scanner.Scanner.Threads.{Job}
use slow_scanner.Scanner.Threads.Steps.{owns, Advance}
use slow_scanner.Scanner.Threads.Jobs.{owned, steps_of, demands, Jobs, owns-lt, IsJob-agree}

module _ (os : Os) (cmp : Comparator) (raw1 : ℕ) (raw2 : Option ℕ) (kind : ScanType) (n handle : ℕ)
    (positive : 0 < n) where
  abbrev pub AllJobs : List MemoryInfo → World → List Job → Type 0
  AllJobs infos w js = Jobs os cmp raw1 raw2 kind n handle positive infos w.cells w.file.offset js

  -- What the tasks own has been written.
  owned-lt :
      (infos : List MemoryInfo) (c : ℕ → ℕ) (limit k : ℕ) (js : List Job)
      → Jobs os cmp raw1 raw2 kind n handle positive infos c limit js
      → owned k js ≡ true
      → k < limit
  owned-lt [] c limit k [] h own = absurd (cc)
  owned-lt [] c limit k (j ∷ js) h own = absurd h
  owned-lt (info ∷ infos) c limit k [] h own = absurd h
  owned-lt (info ∷ infos) c limit k (j ∷ js) h own = elim (Bool-cases (owns k j)) [
    | inl mine ↦ owns-lt os cmp raw1 raw2 kind n handle positive info c limit k j h.0 mine
    | inr not_mine ↦
        owned-lt infos c limit k js h.3 (sym (ap (λ b. b || owned k js) not_mine) ∙ own)
  ]

  Jobs-agree :
      (infos : List MemoryInfo) (c d : ℕ → ℕ) (limit more : ℕ) (js : List Job)
      → ((k : ℕ) → owned k js ≡ true → d k ≡ c k)
      → limit ≤ more
      → Jobs os cmp raw1 raw2 kind n handle positive infos c limit js
      → Jobs os cmp raw1 raw2 kind n handle positive infos d more js
  Jobs-agree [] c d limit more [] agree grows h = tt
  Jobs-agree [] c d limit more (j ∷ js) agree grows h = absurd h
  Jobs-agree (info ∷ infos) c d limit more [] agree grows h = absurd h
  Jobs-agree (info ∷ infos) c d limit more (j ∷ js) agree grows h = (
    IsJob-agree os cmp raw1 raw2 kind n handle positive info c d limit more j
        (λ k own. agree k (ap (λ b. b || owned k js) own)) grows h.0,
    h.1,
    h.2,
    Jobs-agree infos c d limit more js (λ k own. agree k (ground (arith, own))) grows h.3,
  )

  -- A step of the task with the number `k`.
  pub record Turn (k : ℕ) (infos : List MemoryInfo) (js : List Job) (w : World) (js' : List Job)
      (w' : World) : Type 0 where
    pub jobs : AllJobs infos w' js'
    pub frame : (b : ℕ) → b < w.file.offset → owned b js ≡ false → w'.cells b ≡ w.cells b
    pub gained : (b : ℕ) → owned b js' ≡ true → (owned b js ≡ true) ⊎ (w.file.offset ≤ b)
    pub bytes : w'.file.offset + demands infos js' ≡ w.file.offset + demands infos js
    pub grows : w.file.offset ≤ w'.file.offset
    pub nearer : (i : ℕ) → steps_of i js' ≤ steps_of i js - (if k == i then 1 else 0)
    pub mapped : IsMapped w'.file
    pub lean : IsLean w'.file

  abbrev pub Turned : ℕ → List MemoryInfo → List Job → World → Option (List Job × World) → Type 0
  Turned k infos js w none = ⊥
  Turned k infos js w (some (js', w')) = Turn k infos js w js' w'

  pub head-Turn :
      (info : MemoryInfo) (infos : List MemoryInfo) (j j' : Job) (js : List Job) (w w' : World)
      → AllJobs (info ∷ infos) w (j ∷ js)
      → Advance os cmp raw1 raw2 kind n handle info j w j' w'
      → Turn zero (info ∷ infos) (j ∷ js) w (j' ∷ js) w'
  head-Turn info infos j j' js w w' h a = record {
    jobs = (
      a.is_job,
      h.1,
      λ k own. apart k own,
      Jobs-agree infos w.cells w'.cells w.file.offset w'.file.offset js
          (λ k own. a.frame k (owned-lt infos w.cells w.file.offset k js h.3 own) (not_head k own))
          a.grows h.3,
    );
    frame = λ k lt own. a.frame k lt (ground (arith, own));
    gained = λ k own. gained k own;
    bytes = omega (arith, a.bytes);
    grows = a.grows;
    nearer = λ i. nearer i;
    mapped = a.mapped;
    lean = a.lean;
  }
    where
      not_head : (k : ℕ) → owned k js ≡ true → owns k j ≡ false
      not_head k own = elim (Bool-cases (owns k j)) [
        | inl mine ↦ absurd (clash (h.2 k mine) own)
        | inr other ↦ other
      ]
        where
          clash : owned k js ≡ false → owned k js ≡ true → ⊥
          clash x y = cc

      apart : (k : ℕ) → owns k j' ≡ true → owned k js ≡ false
      apart k own = elim (Bool-cases (owned k js)) [
        | inr free ↦ free
        | inl taken ↦ elim (a.gained k own) [
          | inl old ↦ h.2 k old
          | inr fresh ↦
              absurd (omega (arith, fresh, owned-lt infos w.cells w.file.offset k js h.3 taken))
        ]
      ]

      gained : (k : ℕ) → owned k (j' ∷ js) ≡ true → (owned k (j ∷ js) ≡ true) ⊎ (w.file.offset ≤ k)
      gained k own = elim (Bool-cases (owned k js)) [
        | inl taken ↦ inl (ground (arith, taken))
        | inr free ↦ elim (a.gained k (ground (arith, own, free))) [
          | inl old ↦ inl (ground (arith, old))
          | inr fresh ↦ inr fresh
        ]
      ]

      nearer : (i : ℕ) → steps_of i (j' ∷ js) ≤ steps_of i (j ∷ js) - (if zero == i then 1 else 0)
      nearer zero = omega (arith, a.nearer)
      nearer (suc i) = ground arith

  pub tail-Turn :
      (k : ℕ) (info : MemoryInfo) (infos : List MemoryInfo) (j : Job) (js js' : List Job)
      (w w' : World)
      → AllJobs (info ∷ infos) w (j ∷ js)
      → Turn k infos js w js' w'
      → Turn (suc k) (info ∷ infos) (j ∷ js) w (j ∷ js') w'
  tail-Turn k info infos j js js' w w' h t = record {
    jobs = (
      IsJob-agree os cmp raw1 raw2 kind n handle positive info w.cells w'.cells w.file.offset
          w'.file.offset j (λ b own. t.frame b (mine b own) (h.2 b own)) t.grows h.0,
      h.1,
      λ b own. apart b own,
      t.jobs,
    );
    frame = λ b lt own. t.frame b lt (ground (arith, own));
    gained = λ b own. gained b own;
    bytes = omega (arith, t.bytes);
    grows = t.grows;
    nearer = λ i. nearer i;
    mapped = t.mapped;
    lean = t.lean;
  }
    where
      mine : (b : ℕ) → owns b j ≡ true → b < w.file.offset
      mine b own =
          owns-lt os cmp raw1 raw2 kind n handle positive info w.cells w.file.offset b j h.0 own

      apart : (b : ℕ) → owns b j ≡ true → owned b js' ≡ false
      apart b own = elim (Bool-cases (owned b js')) [
        | inr free ↦ free
        | inl taken ↦ elim (t.gained b taken) [
          | inl old ↦ absurd (clash (h.2 b own) old)
          | inr fresh ↦ absurd (omega (arith, fresh, mine b own))
        ]
      ]
        where
          clash : owned b js ≡ false → owned b js ≡ true → ⊥
          clash x y = cc

      gained : (b : ℕ) → owned b (j ∷ js') ≡ true → (owned b (j ∷ js) ≡ true) ⊎ (w.file.offset ≤ b)
      gained b own = elim (Bool-cases (owns b j)) [
        | inl head ↦ inl (ground (arith, head))
        | inr rest ↦ elim (t.gained b (ground (arith, own, rest))) [
          | inl old ↦ inl (ground (arith, old))
          | inr fresh ↦ inr fresh
        ]
      ]

      nearer : (i : ℕ) → steps_of i (j ∷ js') ≤ steps_of i (j ∷ js) - (if suc k == i then 1 else 0)
      nearer zero = ground arith
      nearer (suc i) = ground (arith, t.nearer i)
