-- ===== src/Scan/Agree.antt =====
-- What a search finds depends on the bytes of its region alone.
use slow_scanner.Prelude.{
  ℕ, zero, suc, ◌+◌, ◌*◌, ◌/◌, ◌≤◌, ◌<◌, ◌≡◌, refl, ap, ◌∙◌, ap₂, Bool, Option, map, arith, select,
  range, Bool-cases, inl, inr, ◌∷◌,
}
use slow_scanner.Words.Laws.{load_agree}
use slow_scanner.Region.{Region, raw_bytes}
use slow_scanner.Scan.{ScanEntry, Comparator}
use slow_scanner.Scan.Search.{entry_at, IsFaithful, hits, inside}

-- Two memories with the same bytes in the region's span.
abbrev pub SameBytes : Region → (ℕ → ℕ) → (ℕ → ℕ) → Type 0
SameBytes r c d =
    (j : ℕ)
    → (raw_bytes r).position ≤ j
    → j < (raw_bytes r).position + (raw_bytes r).size
    → c j ≡ d j

module _ (c d : ℕ → ℕ) (r : Region) (n : ℕ) (positive : 0 < n) (same : SameBytes r c d) where
  entry_agree : (i : ℕ) → i < (raw_bytes r).size / n → entry_at c r n i ≡ entry_at d r n i
  entry_agree i h =
      let fits : i * n + n ≤ (raw_bytes r).size = inside i n (raw_bytes r).size h in
      ap (λ (v : ℕ). record { value = v; snapshot_value = v; element_index = i })
        (load_agree c d ((raw_bytes r).position + i * n) n
          (λ j lo hi. same j (omega arith) (omega arith)))

  -- An entry that holds what one memory has at its element holds what the other has.
  pub IsFaithful-agree : (e : ScanEntry) → IsFaithful c r n e → IsFaithful d r n e
  IsFaithful-agree e (is_entry, fits) = (
    is_entry
        ∙ ap (λ (v : ℕ). record { value = v; snapshot_value = v; element_index = e.element_index })
            (load_agree c d ((raw_bytes r).position + e.element_index * n) n
              (λ j lo hi. same j (omega arith) (omega arith))),
    fits,
  )

  module _ (cmp : Comparator) (ref1 : ℕ) (ref2 : Option ℕ) where
    select_agree :
        (i rounds : ℕ)
        → i + rounds ≤ (raw_bytes r).size / n
        → select (λ i. cmp (entry_at c r n i).value ref1 ref2) (range i rounds)
          ≡ select (λ i. cmp (entry_at d r n i).value ref1 ref2) (range i rounds)
    select_agree i zero h = refl
    select_agree i (suc rounds) h =
        rw
          (
            ap (λ (e : ScanEntry). cmp e.value ref1 ref2) (entry_agree i (omega arith)),
            select_agree (i + 1) rounds (omega arith),
          )
          refl

    pub hits_agree : hits c r n cmp ref1 ref2 ≡ hits d r n cmp ref1 ref2
    hits_agree = select_agree 0 ((raw_bytes r).size / n) (omega arith)

    map_agree :
        (p : ℕ → Bool) (i rounds : ℕ)
        → i + rounds ≤ (raw_bytes r).size / n
        → map (entry_at c r n) (select p (range i rounds))
          ≡ map (entry_at d r n) (select p (range i rounds))
    map_agree p i zero h = refl
    map_agree p i (suc rounds) h = elim (Bool-cases (p i)) [
      | inl hit ↦
          rw hit (ap₂ ◌∷◌ (entry_agree i (omega arith)) (map_agree p (i + 1) rounds (omega arith)))
      | inr miss ↦ rw miss (map_agree p (i + 1) rounds (omega arith))
    ]

    -- The entries of a search are the same in both memories.
    pub entries_agree :
        map (entry_at c r n) (hits c r n cmp ref1 ref2)
        ≡ map (entry_at d r n) (hits d r n cmp ref1 ref2)
    entries_agree = rw hits_agree (
        map_agree (λ i. cmp (entry_at d r n i).value ref1 ref2) 0 ((raw_bytes r).size / n)
          (omega arith))
