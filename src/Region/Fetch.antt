-- ===== src/Region/Fetch.antt =====
-- The call of `ReadProcessMemory` in `read_memory`.
use slow_scanner.Prelude.{
  ℕ, leb, leb_iff, length, ◌≤◌, ◌∙◌, ◌+◌, ◌≡◌, refl, ap, Bool, true, false, Option, none, some,
  List, [], ◌∷◌, Bool-cases, inl, inr, if◌then◌else◌,
}
use slow_scanner.Prelude.Int.{ℤ, is_minus_one}
use slow_scanner.Words.{long_to_handle}
use slow_scanner.World.{Os, World, M, pure, blit, ◌>>=◌}
use slow_scanner.Dump.{Span, Dumpable, alloc_f}
use slow_scanner.Region.{Region, base, size, fetch_into, fetch, read_memory}

-- The answer to the call that is made in state `w`.
abbrev pub answer : Os → Region → World → Bool × List ℕ
answer os r w = os.read_process_memory w.clock (long_to_handle r.process_handle) (base r) (size r)

pub fetch_lem :
    (os : Os) (r : Region) (w : World) (s : Span) (ss : List Span)
    → r.dumped.spans ≡ s ∷ ss
    → length (answer os r w).1 ≤ s.size
    → fetch os r w
      ≡ some (
        ((answer os r w).0, r),
        record w { clock = w.clock + 1; cells = blit w.cells s.position (answer os r w).1 },
      )
unfolding fetch fetch_into
fetch_lem os r w s ss e short =
    ap (λ (spans : List Span). fetch_into os r spans w) e
    ∙ rw ((leb_iff (length (answer os r w).1) s.size).1 short) refl

-- `ReadProcessMemory` writes no more bytes than it was asked for.
abbrev pub ReadsWithin : Os → Type 0
ReadsWithin os = (t handle address n : ℕ) → length (os.read_process_memory t handle address n).1 ≤ n

-- A read leaves the region the one that it was.
abbrev pub SameInfo : Region → Option ((Bool × Region) × World) → Type 0
SameInfo r none = Unit {0}
SameInfo r (some ((done, r'), w)) = r'.info ≡ r.info

fetch-SameInfo :
    (os : Os) (r : Region) (spans : List Span) (w : World) → SameInfo r (fetch_into os r spans w)
unfolding fetch_into
fetch-SameInfo os r [] w = tt
fetch-SameInfo os r (s ∷ ss) w = elim (Bool-cases (leb (length (answer os r w).1) s.size)) [
  | inl fits ↦ rw fits refl
  | inr over ↦ rw over tt
]

module _ (os : Os) (r : Region) where
  -- The way to a span that is not there yet.
  abbrev pub new_read : M (Bool × Region)
  new_read = do
    (index, d) ← alloc_f os (size r) r.dumped
    if is_minus_one index
        then pure (false, record r { dumped = d })
        else fetch os (record r { dumped = d; mem_reserved = true })

  new-SameInfo :
      (w : World) (o : Option ((ℤ × Dumpable) × World))
      → alloc_f os (size r) r.dumped w ≡ o
      → SameInfo r (new_read w)
  unfolding fetch
  new-SameInfo w none e = rw (◌>>=◌, e) tt
  new-SameInfo w (some ((index, d), w')) e = elim (Bool-cases (is_minus_one index)) [
    | inl failed ↦ rw (◌>>=◌, e, failed) refl
    | inr found ↦
        rw (◌>>=◌, e, found)
          (fetch-SameInfo os (record r { dumped = d; mem_reserved = true }) d.spans w')
  ]

  pub read_memory-SameInfo : (w : World) → SameInfo r (read_memory os r w)
  unfolding read_memory fetch
  read_memory-SameInfo w = go r.mem_reserved
    where
      go : (b : Bool) → SameInfo r ((if b then fetch os r else new_read) w)
      go true = fetch-SameInfo os r r.dumped.spans w
      go false = new-SameInfo w (alloc_f os (size r) r.dumped w) refl
