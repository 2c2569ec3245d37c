-- ===== src/Region/Again.antt =====
-- A region that has its span is read again in the same place.
use slow_scanner.Prelude.{
  ℕ, leb, length, ◌*◌, ◌<◌, ◌≡◌, refl, Bool, true, false, Option, none, some, List, [], ◌∷◌, ◌++◌,
  arith, ◌==◌, Bool-cases, inl, inr, if◌then◌else◌,
}
use slow_scanner.Prelude.Int.{ℤ, is_minus_one}
use slow_scanner.Words.{u64}
use slow_scanner.World.{ActiveMap, Os, World, ◌>>=◌}
use slow_scanner.File.{write}
use slow_scanner.Dump.{Span, Dumpable, write_data, dump, alloc_f}
use slow_scanner.Region.{Region, size, raw_bytes, first_span, fetch_into, fetch, read_memory}
use slow_scanner.Region.Fetch.{answer, new_read}

-- A span that is not empty stays the first.
abbrev KeepsFirst : Dumpable → Option ((ℤ × Dumpable) × World) → Type 0
KeepsFirst d none = Unit {0}
KeepsFirst d (some ((index, d'), w)) =
    0 < (first_span d.spans).size → first_span d'.spans ≡ first_span d.spans

first_span-append :
    (ss : List Span) (s : Span)
    → 0 < (first_span ss).size
    → first_span (ss ++ s ∷ []) ≡ first_span ss
first_span-append [] s h = absurd (omega (arith, h))
first_span-append (t ∷ ss) s h = refl

written-KeepsFirst :
    (os : Os) (n : ℕ) (d : Dumpable) (w : World)
    (o : Option ((Option ℕ × Option ActiveMap) × World))
    → write os none (u64 (n * 1)) w ≡ o
    → KeepsFirst d (alloc_f os n d w)
unfolding alloc_f dump write_data
written-KeepsFirst os n d w none e = rw (e, ◌>>=◌) tt
written-KeepsFirst os n d w (some ((none, m), w')) e = rw (e, ◌>>=◌) (λ h. refl)
written-KeepsFirst os n d w (some ((some p, m), w')) e = elim (Bool-cases (n == 0)) [
  | inl empty ↦ rw (e, ◌>>=◌, empty) (λ h. refl)
  | inr more ↦
      rw (e, ◌>>=◌, more) (λ h. first_span-append d.spans (record { position = p; size = n }) h)
]

alloc_f-KeepsFirst : (os : Os) (n : ℕ) (d : Dumpable) (w : World) → KeepsFirst d (alloc_f os n d w)
alloc_f-KeepsFirst os n d w = written-KeepsFirst os n d w (write os none (u64 (n * 1)) w) refl

abbrev pub SameBytes : Region → Option ((Bool × Region) × World) → Type 0
SameBytes r none = Unit {0}
SameBytes r (some ((done, r'), w)) = 0 < (raw_bytes r).size → raw_bytes r' ≡ raw_bytes r

fetch-SameBytes :
    (os : Os) (r : Region) (spans : List Span) (w : World) → SameBytes r (fetch_into os r spans w)
unfolding fetch_into
fetch-SameBytes os r [] w = tt
fetch-SameBytes os r (s ∷ ss) w = elim (Bool-cases (leb (length (answer os r w).1) s.size)) [
  | inl fits ↦ rw fits (λ h. refl)
  | inr over ↦ rw over tt
]

-- What comes of a region with other spans, whose first is the same.
SameBytes-same :
    (r r' : Region) (o : Option ((Bool × Region) × World))
    → (0 < (raw_bytes r).size → raw_bytes r' ≡ raw_bytes r)
    → SameBytes r' o
    → SameBytes r o
SameBytes-same r r' none same h = tt
SameBytes-same r r' (some ((done, r''), w)) same h =
    λ positive. let e = same positive in let f = h (rw e positive) in cc

module _ (os : Os) (r : Region) where
  new-SameBytes :
      (w : World) (o : Option ((ℤ × Dumpable) × World))
      → alloc_f os (size r) r.dumped w ≡ o
      → KeepsFirst r.dumped o
      → SameBytes r (new_read os r w)
  unfolding fetch
  new-SameBytes w none e k = rw (◌>>=◌, e) tt
  new-SameBytes w (some ((index, d), w')) e k = elim (Bool-cases (is_minus_one index)) [
    | inl failed ↦ rw (◌>>=◌, e, failed) k
    | inr found ↦
        rw (◌>>=◌, e, found)
          (SameBytes-same r (record r { dumped = d; mem_reserved = true }) _ k
            (fetch-SameBytes os (record r { dumped = d; mem_reserved = true }) d.spans w'))
  ]

  pub read_memory-SameBytes : (w : World) → SameBytes r (read_memory os r w)
  unfolding read_memory fetch
  read_memory-SameBytes w = go r.mem_reserved
    where
      go : (b : Bool) → SameBytes r ((if b then fetch os r else new_read os r) w)
      go true = fetch-SameBytes os r r.dumped.spans w
      go false =
          new-SameBytes w (alloc_f os (size r) r.dumped w) refl
            (alloc_f-KeepsFirst os (size r) r.dumped w)
