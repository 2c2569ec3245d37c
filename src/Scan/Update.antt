-- ===== src/Scan/Update.antt =====
-- `scan::update`: the values are read again, and nothing else of a result changes.
use native.Mathlib.Nat.{div-le_self}
use slow_scanner.Prelude.{
  ℕ, suc, zero, ◌/◌, subst, select, range, Bool-cases, inl, inr, arith, true, ◌≤◌, ◌+◌, ◌*◌, ◌^◌,
  ◌<◌, ◌≡◌, ◌≢◌, refl, Bool, Option, some, List, [], ◌∷◌, map, All, ap, ap₂, ◌∙◌, ltb, length,
}
use slow_scanner.Words.{load}
use slow_scanner.Words.Laws.{overlay_low, load-lt}
use slow_scanner.Scan.Search.{inside, entry_at, hits, search_value-hits}
use slow_scanner.Region.Again.{SameBytes, read_memory-SameBytes}
use slow_scanner.World.{Os, World, ◌>>=◌}
use slow_scanner.Region.{Region, raw_bytes, read_memory, elements_by_size}
use slow_scanner.Scan.{
  Scan, ScanEntry, Comparator, search_value, refresh, refresh_reads, refresh_all, update_region,
  update,
}

-- An entry with the value that its element has now.
abbrev pub now_at : (ℕ → ℕ) → Region → ℕ → ScanEntry → ScanEntry
now_at cells r n e = record e {
  value = load cells ((raw_bytes r).position + e.element_index * n) n;
}

module _ (cells : ℕ → ℕ) (r : Region) (n : ℕ) where
  refresh_now :
      (es : List ScanEntry)
      → All (λ e. e.value < 256 ^ n) es
      → map (refresh cells (elements_by_size r n) n) es ≡ map (now_at cells r n) es
  refresh_now [] h = refl
  refresh_now (e ∷ es) h =
      ap₂ ◌∷◌
        (ap (λ (v : ℕ). record e { value = v })
          (overlay_low e.value n (load cells ((raw_bytes r).position + e.element_index * n) n) h.0))
        (refresh_now es h.1)

-- All bytes of an entry's element are bytes of the region that have been read.
abbrev pub IsInside : Region → ℕ → ScanEntry → Type 0
IsInside r n e = e.element_index * n + n ≤ (raw_bytes r).size

refresh_reads-true :
    (r : Region) (n : ℕ) (es : List ScanEntry)
    → All (λ e. IsInside r n e) es
    → refresh_reads r n es ≡ true
unfolding refresh_reads
refresh_reads-true r n [] h = refl
refresh_reads-true r n (e ∷ es) h = ground (arith, h.0, refresh_reads-true r n es h.1)

module _ (os : Os) (s : Scan) (r r' : Region) (success : Bool) (w w' : World)
    (again : read_memory os r w ≡ some ((success, r'), w'))
    (fits : All (λ e. e.value < 256 ^ s.elem_size) s.results)
    (inside : All (λ e. IsInside r' s.elem_size e) s.results) where
  abbrev updated : Scan
  updated = record s { region = some r'; results = map (now_at w'.cells r' s.elem_size) s.results }

  update_some :
      (e : ScanEntry) (es : List ScanEntry)
      → update_region os s (some r) (e ∷ es) w ≡ some (updated, w')
  unfolding update_region refresh_all
  update_some e es = rw (
    again,
    ◌>>=◌,
    refresh_reads-true r' s.elem_size s.results inside,
    refresh_now w'.cells r' s.elem_size s.results fits,
  )

  update_in :
      (o : Option Region) (es : List ScanEntry)
      → o ≡ some r
      → es ≢ []
      → update_region os s o es w ≡ some (updated, w')
  update_in o [] e ne = absurd (ne refl)
  update_in o (x ∷ es) e ne = rw e (update_some x es)

  -- If the values of its results fit the element size, and their elements lie in the bytes that the
  -- region has after it is read again, whether that read succeeds or not, `update` of a scan with a
  -- region and results returns, and gives each result the value that its element has then. The
  -- values seen when it was found, the indices, and all else of the scan stay.
  pub update_lem : s.region ≡ some r → s.results ≢ [] → update os s w ≡ some (updated, w')
  unfolding update
  update_lem e ne = update_in s.region s.results e ne

-- The values of entries that a search records fit the element size, if the memory holds bytes.
entries-fit :
    (cells : ℕ → ℕ) (r : Region) (n : ℕ) (is : List ℕ)
    → ((j : ℕ) → cells j < 256)
    → All (λ e. e.value < 256 ^ n) (map (entry_at cells r n) is)
entries-fit cells r n [] bytes = tt
entries-fit cells r n (i ∷ is) bytes =
    (load-lt cells ((raw_bytes r).position + i * n) n bytes, entries-fit cells r n is bytes)

some_bytes : (size n i : ℕ) → i < size / n → 0 < size
some_bytes size n i h = omega (arith, div-le_self size n)

-- The elements that were found are inside, if all that were there are.
entries-IsInside :
    (cells : ℕ → ℕ) (r r' : Region) (n : ℕ) (p : ℕ → Bool) (i rounds : ℕ)
    → i + rounds ≤ (raw_bytes r).size / n
    → ((j : ℕ) → j < (raw_bytes r).size / n → j * n + n ≤ (raw_bytes r').size)
    → All (λ e. IsInside r' n e) (map (entry_at cells r n) (select p (range i rounds)))
entries-IsInside cells r r' n p i zero h all = tt
entries-IsInside cells r r' n p i (suc rounds) h all = elim (Bool-cases (p i)) [
  | inl hit ↦
      rw hit (all i (omega arith), entries-IsInside cells r r' n p (i + 1) rounds (omega arith) all)
  | inr miss ↦ rw miss (entries-IsInside cells r r' n p (i + 1) rounds (omega arith) all)
]

-- Where the memory holds bytes, `update` after `search_value` gives each element that was found the
-- value that it has when the region is read again, and keeps the value that it was found with, its
-- index, and the number and order of the results; the elements are not searched again.
pub update-search_value :
    (os : Os) (cmp : Comparator) (ref1 : ℕ) (ref2 : Option ℕ) (s : Scan) (r r' : Region)
    (success : Bool) (w w' : World) (count : ℕ) (s' : Scan)
    → ((j : ℕ) → w.cells j < 256)
    → s.region ≡ some r
    → read_memory os r w ≡ some ((success, r'), w')
    → hits w.cells r s.elem_size cmp ref1 ref2 ≢ []
    → search_value w.cells cmp ref1 ref2 s ≡ some (count, s')
    → update os s' w
      ≡ some (
        record s {
          region = some r';
          valid = ltb 0 (length (hits w.cells r s.elem_size cmp ref1 ref2));
          results =
              map
                (λ i. now_at w'.cells r' s.elem_size (entry_at w.cells r s.elem_size i))
                (hits w.cells r s.elem_size cmp ref1 ref2);
        },
        w',
      )
update-search_value os cmp ref1 ref2 s r r' success w w' count s' bytes e again found searched =
    rw is_after (
      update_lem os after r r' success w w' again (entries-fit w.cells r s.elem_size is bytes)
        (entries-IsInside w.cells r r' s.elem_size _ 0 ((raw_bytes r).size / s.elem_size)
          (omega arith) inside_again)
        e (nonempty is found)
      ∙ ap (λ (es : List ScanEntry). some (record after { region = some r'; results = es }, w'))
          (map_twice is))
  where
    is : List ℕ
    is = hits w.cells r s.elem_size cmp ref1 ref2

    after : Scan
    after = record s {
      results = map (entry_at w.cells r s.elem_size) is;
      valid = ltb 0 (length is);
    }

    same : 0 < (raw_bytes r).size → raw_bytes r' ≡ raw_bytes r
    same = subst (SameBytes r) again (read_memory-SameBytes os r w)

    inside_again :
        (i : ℕ)
        → i < (raw_bytes r).size / s.elem_size
        → i * s.elem_size + s.elem_size ≤ (raw_bytes r').size
    inside_again i h =
        let fits = inside i s.elem_size (raw_bytes r).size h in
        rw (same (some_bytes (raw_bytes r).size s.elem_size i h)) fits

    is_after : s' ≡ after
    is_after = let found = search_value-hits w.cells r cmp ref1 ref2 s e in cc (searched, found)

    nonempty : (is : List ℕ) → is ≢ [] → map (entry_at w.cells r s.elem_size) is ≢ []
    nonempty [] h x = h refl
    nonempty (i ∷ is) h x = cc

    map_twice :
        (is : List ℕ)
        → map (now_at w'.cells r' s.elem_size) (map (entry_at w.cells r s.elem_size) is)
          ≡ map (λ i. now_at w'.cells r' s.elem_size (entry_at w.cells r s.elem_size i)) is
    map_twice [] = refl
    map_twice (i ∷ is) =
        ap
          (λ (es : List ScanEntry).
            now_at w'.cells r' s.elem_size (entry_at w.cells r s.elem_size i) ∷ es)
          (map_twice is)
