-- ===== src/Scan/Search.antt =====
-- `scan::search_value` against a description without a loop: the elements of the region whose value
-- passes the comparison, in order.
use native.Mathlib.Nat.{add-zero, zero-add, div-add-mod}
use mathlib.Core.List.{append-nil, append_assoc}
use slow_scanner.Prelude.{
  ℕ, zero, suc, ◌+◌, ◌*◌, ◌/◌, ◌≤◌, ◌<◌, ◌≡◌, refl, ap, ◌∙◌, Bool, true, Option, some, List, [],
  ◌∷◌, ◌++◌, map, arith, length, select, range, All, ltb, add-one-add, contains, Ascending,
  contains-select-range_zero, Ascending-select-range, ◌&&◌, inl, inr, Bool-cases,
}
use slow_scanner.Words.{load}
use slow_scanner.Region.{Region, can_read, raw_bytes, elements_by_size}
use slow_scanner.Scan.{Scan, ScanEntry, Comparator, search_loop, search_in, search_value}

-- The entry that a hit on element `i` of the region records.
abbrev pub entry_at : (ℕ → ℕ) → Region → ℕ → ℕ → ScanEntry
entry_at cells r n i =
    let v = load cells ((raw_bytes r).position + i * n) n in
    record { value = v; snapshot_value = v; element_index = i }

-- An entry holds the value of its element, twice, and all its bytes are bytes of the region.
abbrev pub IsFaithful : (ℕ → ℕ) → Region → ℕ → ScanEntry → Type 0
IsFaithful cells r n e =
    (e ≡ entry_at cells r n e.element_index) × (e.element_index * n + n ≤ (raw_bytes r).size)

-- The indices of the elements that pass.
abbrev pub hits : (ℕ → ℕ) → Region → ℕ → Comparator → ℕ → Option ℕ → List ℕ
hits cells r n cmp ref1 ref2 =
    select (λ i. cmp (entry_at cells r n i).value ref1 ref2) (range 0 ((raw_bytes r).size / n))

pub inside : (i n size : ℕ) → i < size / n → i * n + n ≤ size
inside i n size h = grind (arith, div-add-mod size n)

module _ (cells : ℕ → ℕ) (r : Region) (n : ℕ) (cmp : Comparator) (ref1 : ℕ) (ref2 : Option ℕ) where
  abbrev passes : ℕ → Bool
  passes i = cmp (entry_at cells r n i).value ref1 ref2

  readable :
      (i rounds : ℕ)
      → i + suc rounds ≤ (raw_bytes r).size / n
      → can_read (raw_bytes r) ((raw_bytes r).position + i * n) n ≡ true
  readable i rounds h = let fits = inside i n (raw_bytes r).size (omega arith) in ground arith

  search_loop_lem :
      (rounds i : ℕ) (found : List ScanEntry) (count : ℕ)
      → i + rounds ≤ (raw_bytes r).size / n
      → search_loop cells (raw_bytes r) (elements_by_size r n) n cmp ref1 ref2 rounds i found count
        ≡ some (
          found ++ map (entry_at cells r n) (select passes (range i rounds)),
          count + length (select passes (range i rounds)),
        )
  unfolding search_loop
  search_loop_lem zero i found count h = rw (append-nil, add-zero)
  search_loop_lem (suc rounds) i found count h = elim (Bool-cases (passes i)) [
    | inl hit ↦ rw (
      readable i rounds h,
      hit,
      search_loop_lem rounds (i + 1) (found ++ entry_at cells r n i ∷ []) (count + 1) (omega arith),
      append_assoc,
      add-one-add,
    )
    | inr miss ↦
        rw (readable i rounds h, miss) (search_loop_lem rounds (i + 1) found count (omega arith))
  ]

search_in-hits :
    (cells : ℕ → ℕ) (r : Region) (cmp : Comparator) (ref1 : ℕ) (ref2 : Option ℕ) (s : Scan)
    → let found = hits cells r s.elem_size cmp ref1 ref2 in
      search_in cells cmp ref1 ref2 s (some r)
      ≡ some (
        length found,
        record s {
          results = map (entry_at cells r s.elem_size) found;
          valid = ltb 0 (length found);
        },
      )
unfolding search_in
search_in-hits cells r cmp ref1 ref2 s = rw (
  search_loop_lem cells r s.elem_size cmp ref1 ref2 ((raw_bytes r).size / s.elem_size) 0 [] 0
      (omega arith),
  zero-add,
)

-- On a scan with a region, `search_value` returns the number of hits, stores an entry for each
-- element that passes, in order, and marks the scan valid exactly when there is one. It leaves the
-- region, the type and the element size as they were.
pub search_value-hits :
    (cells : ℕ → ℕ) (r : Region) (cmp : Comparator) (ref1 : ℕ) (ref2 : Option ℕ) (s : Scan)
    → s.region ≡ some r
    → let found = hits cells r s.elem_size cmp ref1 ref2 in
      search_value cells cmp ref1 ref2 s
      ≡ some (
        length found,
        record s {
          results = map (entry_at cells r s.elem_size) found;
          valid = ltb 0 (length found);
        },
      )
unfolding search_value
search_value-hits cells r cmp ref1 ref2 s e =
    ap (search_in cells cmp ref1 ref2 s) e ∙ search_in-hits cells r cmp ref1 ref2 s

abbrev pub indices : List ScanEntry → List ℕ
indices = map (λ e. e.element_index)

-- What a search of region `r` in elements of `n` bytes has to find.
pub record Finds (cells : ℕ → ℕ) (r : Region) (n : ℕ) (cmp : Comparator) (ref1 : ℕ)
    (ref2 : Option ℕ) (entries : List ScanEntry) : Type 0 where
  -- An element is among the entries exactly when it lies in the region and passes.
  pub exact :
      (i : ℕ)
      → contains i (indices entries) ≡ (
          ltb i ((raw_bytes r).size / n)
          && cmp (load cells ((raw_bytes r).position + i * n) n) ref1 ref2)
  -- No element is there twice.
  pub ascending : Ascending 0 (indices entries)
  pub faithful : All (IsFaithful cells r n) entries

indices-map :
    (cells : ℕ → ℕ) (r : Region) (n : ℕ) (is : List ℕ) → indices (map (entry_at cells r n) is) ≡ is
indices-map cells r n [] = refl
indices-map cells r n (i ∷ is) = ap (λ (t : List ℕ). i ∷ t) (indices-map cells r n is)

pub IsFaithful-select :
    (cells : ℕ → ℕ) (r : Region) (n : ℕ) (p : ℕ → Bool) (i rounds : ℕ)
    → 0 < n
    → i + rounds ≤ (raw_bytes r).size / n
    → All (IsFaithful cells r n) (map (entry_at cells r n) (select p (range i rounds)))
IsFaithful-select cells r n p i zero pos h = tt
IsFaithful-select cells r n p i (suc rounds) pos h = elim (Bool-cases (p i)) [
  | inl hit ↦ rw hit (
    (refl, inside i n (raw_bytes r).size (omega arith)),
    IsFaithful-select cells r n p (i + 1) rounds pos (omega arith),
  )
  | inr miss ↦ rw miss (IsFaithful-select cells r n p (i + 1) rounds pos (omega arith))
]

-- On a scan with a region and elements of at least one byte, `search_value` makes no read that leaves
-- the region's bytes, as it returns, and finds exactly the elements that pass: an element is among the
-- entries that it stores exactly when it lies in the region and passes, none is there twice, and each
-- entry holds the value of its element. It returns their number, and the scan is valid exactly when
-- there is one.
pub search_value-Finds :
    (cells : ℕ → ℕ) (r : Region) (cmp : Comparator) (ref1 : ℕ) (ref2 : Option ℕ) (s : Scan)
    → s.region ≡ some r
    → 0 < s.elem_size
    → (count : ℕ) × (s' : Scan) × (search_value cells cmp ref1 ref2 s ≡ some (count, s'))
      × (length s'.results ≡ count)
      × (s'.valid ≡ ltb 0 count)
      × Finds cells r s.elem_size cmp ref1 ref2 s'.results
search_value-Finds cells r cmp ref1 ref2 s e pos = (
  length found,
  record s { results = map (entry_at cells r n) found; valid = ltb 0 (length found) },
  search_value-hits cells r cmp ref1 ref2 s e,
  length-entries found,
  refl,
  record {
    exact = λ i. rw (indices-map cells r n found) (contains-select-range_zero test i rounds);
    ascending =
        rw (indices-map cells r n found) (Ascending-select-range test 0 0 rounds (omega arith));
    faithful = IsFaithful-select cells r n test 0 rounds pos (omega arith);
  },
)
  where
    n : ℕ
    n = s.elem_size

    rounds : ℕ
    rounds = (raw_bytes r).size / n

    test : ℕ → Bool
    test i = cmp (entry_at cells r n i).value ref1 ref2

    found : List ℕ
    found = hits cells r n cmp ref1 ref2

    length-entries : (is : List ℕ) → length (map (entry_at cells r n) is) ≡ length is
    length-entries [] = refl
    length-entries (i ∷ is) = ap suc (length-entries is)
