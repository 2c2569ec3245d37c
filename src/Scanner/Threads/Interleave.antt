-- ===== src/Scanner/Threads/Interleave.antt =====
-- All steps of the tasks in any order: every task comes to its end, and none faults.
use slow_scanner.Prelude.{
  ℕ, zero, suc, ◌+◌, ◌-◌, ◌≤◌, ◌<◌, ◌≡◌, refl, ◌∙◌, inl, inr, true, false, Option, none, some, List,
  [], ◌∷◌, arith, Bool-cases, if◌then◌else◌, ◌==◌,
}
use slow_scanner.World.{MemoryInfo, Os, World, ◌>>=◌}
use slow_scanner.File.Reserve.{MapsExactly, CanGrow, IsLean, HasSpace, IsMapped}
use slow_scanner.Scan.{ScanType, Comparator}
use slow_scanner.Scanner.Task.{CanMap}
use slow_scanner.Scanner.Threads.{Job, advance, turn, interleave}
use slow_scanner.Region.Fetch.{ReadsWithin}
use slow_scanner.Scanner.Threads.Steps.{Advanced}
use slow_scanner.Scanner.Threads.Ends.{advance-Advanced}
use slow_scanner.Scanner.Threads.Jobs.{owned, steps_of, demands}
use slow_scanner.Scanner.Threads.Turns.{AllJobs, Turn, Turned, head-Turn, tail-Turn}

-- How often a number is in a list.
unfoldable pub count : ℕ → List ℕ → ℕ
count i [] = 0
count i (k ∷ ks) = (if k == i then 1 else 0) + count i ks

module _ (os : Os) (cmp : Comparator) (raw1 : ℕ) (raw2 : Option ℕ) (kind : ScanType) (n handle : ℕ)
    (positive : 0 < n) where
  abbrev JobsAt : List MemoryInfo → World → List Job → Type 0
  JobsAt = AllJobs os cmp raw1 raw2 kind n handle positive

  abbrev IsTurn : ℕ → List MemoryInfo → List Job → World → List Job → World → Type 0
  IsTurn = Turn os cmp raw1 raw2 kind n handle positive

  abbrev HasTurned : ℕ → List MemoryInfo → List Job → World → Option (List Job × World) → Type 0
  HasTurned = Turned os cmp raw1 raw2 kind n handle positive

  no-IsTurn :
      (k : ℕ) (infos : List MemoryInfo) (w : World)
      → JobsAt infos w []
      → IsMapped w.file
      → IsLean w.file
      → IsTurn k infos [] w [] w
  no-IsTurn k infos w h mapped lean = record {
    jobs = h;
    frame = λ b lt own. refl;
    gained = λ b own. inl own;
    bytes = refl;
    grows = omega arith;
    nearer = λ i. omega arith;
    mapped = mapped;
    lean = lean;
  }

  head_case :
      (info : MemoryInfo) (infos : List MemoryInfo) (j : Job) (js : List Job) (w : World)
      (o : Option (Job × World))
      → JobsAt (info ∷ infos) w (j ∷ js)
      → advance os cmp raw1 raw2 j w ≡ o
      → Advanced os cmp raw1 raw2 kind n handle info j w o
      → HasTurned zero (info ∷ infos) (j ∷ js) w (turn os cmp raw1 raw2 zero (j ∷ js) w)
  unfolding turn
  head_case info infos j js w none h e a = absurd a
  head_case info infos j js w (some (j', w')) h e a =
      rw (e, ◌>>=◌) (head-Turn os cmp raw1 raw2 kind n handle positive info infos j j' js w w' h a)

  tail_case :
      (k : ℕ) (info : MemoryInfo) (infos : List MemoryInfo) (j : Job) (js : List Job) (w : World)
      (o : Option (List Job × World))
      → JobsAt (info ∷ infos) w (j ∷ js)
      → turn os cmp raw1 raw2 k js w ≡ o
      → HasTurned k infos js w o
      → HasTurned (suc k) (info ∷ infos) (j ∷ js) w (turn os cmp raw1 raw2 (suc k) (j ∷ js) w)
  unfolding turn
  tail_case k info infos j js w none h e t = absurd t
  tail_case k info infos j js w (some (js', w')) h e t =
      rw (e, ◌>>=◌)
        (tail-Turn os cmp raw1 raw2 kind n handle positive k info infos j js js' w w' h t)

  module _ (exact : MapsExactly os) (grow : CanGrow os) (can : CanMap os)
      (short : ReadsWithin os) where
    turn-Turned :
        (k : ℕ) (infos : List MemoryInfo) (js : List Job) (w : World)
        → JobsAt infos w js
        → IsMapped w.file
        → IsLean w.file
        → HasSpace (demands infos js) w.file
        → HasTurned k infos js w (turn os cmp raw1 raw2 k js w)
    turn-Turned k infos [] w h mapped lean space = unfold turn in no-IsTurn k infos w h mapped lean
    turn-Turned k [] (j ∷ js) w h mapped lean space = absurd h
    turn-Turned zero (info ∷ infos) (j ∷ js) w h mapped lean space =
        head_case info infos j js w (advance os cmp raw1 raw2 j w) h refl (
          advance-Advanced os cmp raw1 raw2 kind n handle info w mapped lean j exact grow can short
            h.1 (omega arith) h.0)
    turn-Turned (suc k) (info ∷ infos) (j ∷ js) w h mapped lean space =
        tail_case k info infos j js w (turn os cmp raw1 raw2 k js w) h refl
          (turn-Turned k infos js w h.3 mapped lean (omega arith))

    -- After steps in the order of `turns`: the tasks are still those of `infos`, each has made the
    -- steps that were its own, and the bytes before their regions are the same.
    pub record Interleaved (turns : List ℕ) (infos : List MemoryInfo) (js : List Job) (w : World)
        (js' : List Job) (w' : World) : Type 0 where
      pub jobs : JobsAt infos w' js'
      pub frame : (b : ℕ) → b < w.file.offset → owned b js ≡ false → w'.cells b ≡ w.cells b
      pub bytes : w'.file.offset + demands infos js' ≡ w.file.offset + demands infos js
      pub grows : w.file.offset ≤ w'.file.offset
      pub nearer : (i : ℕ) → steps_of i js' ≤ steps_of i js - count i turns
      pub mapped : IsMapped w'.file
      pub lean : IsLean w'.file

    abbrev pub Interleaving :
        List ℕ → List MemoryInfo → List Job → World → Option (List Job × World) → Type 0
    Interleaving turns infos js w none = ⊥
    Interleaving turns infos js w (some (js', w')) = Interleaved turns infos js w js' w'

    join :
        (k : ℕ) (turns : List ℕ) (infos : List MemoryInfo) (js js' js'' : List Job)
        (w w' w'' : World)
        → IsTurn k infos js w js' w'
        → Interleaved turns infos js' w' js'' w''
        → Interleaved (k ∷ turns) infos js w js'' w''
    unfolding count
    join k turns infos js js' js'' w w' w'' t i = record {
      jobs = i.jobs;
      frame = λ b lt own. i.frame b (omega (arith, t.grows)) (still b lt own) ∙ t.frame b lt own;
      bytes = omega (arith, t.bytes, i.bytes);
      grows = omega (arith, t.grows, i.grows);
      nearer = λ a. omega (arith, t.nearer a, i.nearer a);
      mapped = i.mapped;
      lean = i.lean;
    }
      where
        still : (b : ℕ) → b < w.file.offset → owned b js ≡ false → owned b js' ≡ false
        still b lt own = elim (Bool-cases (owned b js')) [
          | inr free ↦ free
          | inl taken ↦ elim (t.gained b taken) [
            | inl old ↦ absurd (clash own old)
            | inr fresh ↦ absurd (omega (arith, fresh))
          ]
        ]
          where
            clash : owned b js ≡ false → owned b js ≡ true → ⊥
            clash x y = cc

    after_turn :
        (k : ℕ) (turns : List ℕ) (infos : List MemoryInfo) (js : List Job) (w : World)
        (o : Option (List Job × World))
        → turn os cmp raw1 raw2 k js w ≡ o
        → HasTurned k infos js w o
        → HasSpace (demands infos js) w.file
        → ((js' : List Job) (w' : World)
            → JobsAt infos w' js'
            → IsMapped w'.file
            → IsLean w'.file
            → HasSpace (demands infos js') w'.file
            → Interleaving turns infos js' w' (interleave os cmp raw1 raw2 turns js' w'))
        → Interleaving (k ∷ turns) infos js w (interleave os cmp raw1 raw2 (k ∷ turns) js w)
    unfolding interleave
    after_turn k turns infos js w none e t space rest = absurd t
    after_turn k turns infos js w (some (js', w')) e t space rest =
        rw (e, ◌>>=◌)
          (joined (interleave os cmp raw1 raw2 turns js' w')
            (rest js' w' t.jobs t.mapped t.lean (omega (arith, t.bytes))))
      where
        joined :
            (o : Option (List Job × World))
            → Interleaving turns infos js' w' o
            → Interleaving (k ∷ turns) infos js w o
        joined none h = absurd h
        joined (some (js'', w'')) h = join k turns infos js js' js'' w w' w'' t h

    pub interleave-Interleaving :
        (turns : List ℕ) (infos : List MemoryInfo) (js : List Job) (w : World)
        → JobsAt infos w js
        → IsMapped w.file
        → IsLean w.file
        → HasSpace (demands infos js) w.file
        → Interleaving turns infos js w (interleave os cmp raw1 raw2 turns js w)
    interleave-Interleaving [] infos js w h mapped lean space =
        unfold interleave in
        unfold count in
        record {
          jobs = h;
          frame = λ b lt own. refl;
          bytes = refl;
          grows = omega arith;
          nearer = λ i. omega arith;
          mapped = mapped;
          lean = lean;
        }
    interleave-Interleaving (k ∷ turns) infos js w h mapped lean space =
        after_turn k turns infos js w (turn os cmp raw1 raw2 k js w) refl
          (turn-Turned k infos js w h mapped lean space) space
          (λ js' w' h' mapped' lean' space'.
            interleave-Interleaving turns infos js' w' h' mapped' lean' space')
