-- ===== src/Scanner/Next/Complete.antt =====
-- `next_scan` misses nothing: every region that overlaps an earlier scan is read, and what passes in it
-- is in the result.
use slow_scanner.Prelude.{
  ℕ, ◌≡◌, refl, inl, inr, Bool, true, false, Option, none, some, List, [], ◌∷◌, All, Bool-cases,
}
use slow_scanner.World.{Os, World, ◌>>=◌}
use slow_scanner.Region.{Region, read_memory}
use slow_scanner.Scan.{Scan, ScanType, Comparator}
use slow_scanner.Compare.{ElementType, FloatFormat, element_size, make_comparator}
use slow_scanner.Scanner.{AddressRange, get_regions}
use slow_scanner.Scanner.Task.{task_of}
use slow_scanner.Scanner.First.{new_scan-element_size}
use slow_scanner.Scanner.Next.{narrow, narrow_reads, Progress, keep_valid, match_region}
use slow_scanner.Scanner.Next.Members.{Has, Has-append, Has-last}
use slow_scanner.Scanner.Next.Merge.{first_overlap, each_region, each-none, each-some}

-- Region `r` was read once, and if that succeeded and the earlier scan `prev` of region `p`, narrowed
-- down on the bytes that were read, has anything left, the outcome is among `scans`.
pub record Answered (os : Os) (cmp : Comparator) (kind : ScanType) (n : ℕ) (raw2 : Option ℕ)
    (prev : Scan) (p r : Region) (scans : List Scan) : Type 0 where
  pub before : World
  pub after : World
  pub done : Bool
  pub new : Region
  pub value : ℕ
  pub read : read_memory os r before ≡ some ((done, new), after)
  pub kept :
      done ≡ true
      → (narrow after.cells cmp kind n raw2 prev p (task_of kind n new) new value).0.valid ≡ true
      → Has (narrow after.cells cmp kind n raw2 prev p (task_of kind n new) new value).0 scans

module _ (os : Os) (cmp : Comparator) (kind : ScanType) (elem : ElementType) (raw2 : Option ℕ) where
  abbrev n : ℕ
  n = element_size elem

  -- A round keeps what there is and answers its region.
  abbrev Round : Scan → Region → Region → Progress → Option (Progress × World) → Type 0
  Round prev p r g none = Unit {0}
  Round prev p r g (some (g', w)) =
      ((s : Scan) → Has s g.results → Has s g'.results)
      × Answered os cmp kind n raw2 prev p r g'.results

  read-Round :
      (prev : Scan) (p r : Region) (g : Progress) (w : World) (o : Option ((Bool × Region) × World))
      → read_memory os r w ≡ o
      → Round prev p r g (match_region os cmp kind n raw2 prev p r g w)
  unfolding match_region
  read-Round prev p r g w none e = rw (new_scan-element_size (some r) kind elem, ◌>>=◌, e) tt
  read-Round prev p r g w (some ((false, r'), w')) e =
      rw (new_scan-element_size (some r) kind elem, ◌>>=◌, e)
        (
          λ s h. h,
          record {
            before = w;
            after = w';
            done = false;
            new = r';
            value = 0;
            read = e;
            kept = λ f. cc;
          },
        )
  read-Round prev p r g w (some ((true, r'), w')) e = elim (Bool-cases (narrow_reads n prev p r')) [
    | inr outside ↦ rw (new_scan-element_size (some r) kind elem, ◌>>=◌, e, outside) tt
    | inl inside ↦
        rw (new_scan-element_size (some r) kind elem, ◌>>=◌, e, inside)
          (
            keeps,
            record {
              before = w;
              after = w';
              done = true;
              new = r';
              value = g.raw1;
              read = e;
              kept = λ f hit. rw hit (Has-last outcome.0 g.results);
            },
          )
  ]
    where
      outcome : Scan × ℕ
      outcome = narrow w'.cells cmp kind n raw2 prev p (task_of kind n r') r' g.raw1

      keeps : (s : Scan) → Has s g.results → Has s (keep_valid g outcome).results
      keeps s h = elim (Bool-cases (outcome.0).valid) [
        | inl hit ↦ rw hit (Has-append s g.results (outcome.0 ∷ []) h)
        | inr miss ↦ rw miss h
      ]

  module _ (prevs : List Scan) where
    -- A region that overlaps an earlier scan is answered for the first of these.
    abbrev pub AnsweredFor : Region → List Scan → Option (Scan × Region) → Type 0
    AnsweredFor r scans none = Unit {0}
    AnsweredFor r scans (some (prev, p)) = Answered os cmp kind n raw2 prev p r scans

    abbrev pub IsAnswered : List Scan → Region → Type 0
    IsAnswered scans r = AnsweredFor r scans (first_overlap r prevs)

    Answered-more :
        (r : Region) (ss ts : List Scan) (o : Option (Scan × Region))
        → ((s : Scan) → Has s ss → Has s ts)
        → AnsweredFor r ss o
        → AnsweredFor r ts o
    Answered-more r ss ts none more a = tt
    Answered-more r ss ts (some (prev, p)) more a = record {
      before = a.before;
      after = a.after;
      done = a.done;
      new = a.new;
      value = a.value;
      read = a.read;
      kept = λ f hit. more _ (a.kept f hit);
    }

    abbrev All-Answered : List Region → Progress → Option (Progress × World) → Type 0
    All-Answered rs g none = Unit {0}
    All-Answered rs g (some (g', w)) =
        ((s : Scan) → Has s g.results → Has s g'.results) × All (IsAnswered g'.results) rs

    module _ (r : Region) (rs : List Region) (g : Progress) (w : World) where
      passed :
          (o : Option (Progress × World))
          → first_overlap r prevs ≡ none
          → All-Answered rs g o
          → All-Answered (r ∷ rs) g o
      passed none e h = tt
      passed (some (g', w')) e (more, all) = (more, (rw e tt, all))

      answered :
          (prev : Scan) (p : Region) (g1 : Progress) (o : Option (Progress × World))
          → first_overlap r prevs ≡ some (prev, p)
          → ((s : Scan) → Has s g.results → Has s g1.results)
          → Answered os cmp kind n raw2 prev p r g1.results
          → All-Answered rs g1 o
          → All-Answered (r ∷ rs) g o
      answered prev p g1 none e more a h = tt
      answered prev p g1 (some (g', w')) e more a (later, all) = (
        λ s k. later s (more s k),
        (rw e (Answered-more r g1.results g'.results (some (prev, p)) later a), all),
      )

      round :
          (prev : Scan) (p : Region) (o : Option (Progress × World))
          → first_overlap r prevs ≡ some (prev, p)
          → match_region os cmp kind n raw2 prev p r g w ≡ o
          → Round prev p r g o
          → ((g1 : Progress) (w1 : World)
              → All-Answered rs g1 (each_region os cmp kind n raw2 prevs rs g1 w1))
          → All-Answered (r ∷ rs) g (each_region os cmp kind n raw2 prevs (r ∷ rs) g w)
      round prev p none e m h rest =
          rw (each-some os cmp kind n raw2 prevs r rs prev p g w e, ◌>>=◌, m) tt
      round prev p (some (g1, w1)) e m (more, a) rest =
          rw (each-some os cmp kind n raw2 prevs r rs prev p g w e, ◌>>=◌, m)
            (answered prev p g1 (each_region os cmp kind n raw2 prevs rs g1 w1) e more a
              (rest g1 w1))

      region :
          (o : Option (Scan × Region))
          → first_overlap r prevs ≡ o
          → ((g1 : Progress) (w1 : World)
              → All-Answered rs g1 (each_region os cmp kind n raw2 prevs rs g1 w1))
          → All-Answered (r ∷ rs) g (each_region os cmp kind n raw2 prevs (r ∷ rs) g w)
      region none e rest =
          rw (each-none os cmp kind n raw2 prevs r rs g w e)
            (passed (each_region os cmp kind n raw2 prevs rs g w) e (rest g w))
      region (some (prev, p)) e rest =
          round prev p (match_region os cmp kind n raw2 prev p r g w) e refl
            (read-Round prev p r g w (read_memory os r w) refl) rest

    pub each_region-All :
        (rs : List Region) (g : Progress) (w : World)
        → All-Answered rs g (each_region os cmp kind n raw2 prevs rs g w)
    each_region-All [] g w = unfold each_region in (λ s h. h, tt)
    each_region-All (r ∷ rs) g w =
        region r rs g w (first_overlap r prevs) refl (λ g1 w1. each_region-All rs g1 w1)

module _ (os : Os) (f32 f64 : FloatFormat) (handle : ℕ) (range : AddressRange) (protect : ℕ)
    (kind : ScanType) (elem : ElementType) (prevs : List Scan) (raw1 : ℕ) (raw2 : Option ℕ)
    (w : World) where
  abbrev cmp : Comparator
  cmp = make_comparator f32 f64 kind elem

  -- The scan returns, and its result answers each region that `get_regions` listed for it.
  pub record Completed (scans : List Scan) : Type 0 where
    pub rs : List Region
    pub listed_at : World
    pub listed : get_regions os handle range protect w ≡ some (rs, listed_at)
    pub all : All (IsAnswered os cmp kind elem raw2 prevs scans) rs

  abbrev pub Completes : Option (List Scan × World) → Type 0
  Completes none = ⊥
  Completes (some (scans, w')) = Completed scans

  abbrev IfReturned : Option (List Scan × World) → Type 0
  IfReturned none = Unit {0}
  IfReturned (some (scans, w')) = Completed scans

  abbrev start : Progress
  start = record { results = []; raw1 = raw1 }
