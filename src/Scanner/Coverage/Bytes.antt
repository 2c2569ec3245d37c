-- ===== src/Scanner/Coverage/Bytes.antt =====
-- `get_regions` on a range that starts at a page misses no eligible byte.
use slow_scanner.Prelude.{
  ℕ, zero, suc, ◌+◌, ◌-◌, ◌%◌, ◌^◌, ◌≤◌, ◌<◌, ◌≡◌, ◌∙◌, subst, Bool, true, false, Option, none,
  some, List, [], ◌∷◌, ◌++◌, arith, Bool-cases, Option-cases, ltb, leb, inl, inr, ◌⊎◌, ◌&&◌, ◌||◌,
  if◌then◌else◌, ltb_iff,
}
use slow_scanner.Words.{long_to_handle}
use slow_scanner.World.{MemoryInfo, Os, World}
use slow_scanner.File.{page_size}
use slow_scanner.Region.{
  Region, new_region, base, size, has_protection_flags, is_commited, is_memmapped,
}
use slow_scanner.Scanner.{AddressRange, clip, eligible, region_loop, get_regions}
use slow_scanner.Scanner.Coverage.{QueriesPages, Standing, Round, round}

-- Some region of the list has the byte at address `x`.
abbrev pub has_byte : ℕ → List Region → Bool
has_byte x [] = false
has_byte x (r ∷ rs) = (leb (base r) x && ltb x (base r + size r)) || has_byte x rs

has_byte-append :
    (x : ℕ) (rs : List Region) (r : Region)
    → has_byte x rs ≡ true
    → has_byte x (rs ++ r ∷ []) ≡ true
has_byte-append x [] r h = cc
has_byte-append x (q ∷ rs) r h = ground (arith, has_byte-append x rs r)

has_byte_last :
    (x : ℕ) (rs : List Region) (r : Region)
    → base r ≤ x
    → x < base r + size r
    → has_byte x (rs ++ r ∷ []) ≡ true
has_byte_last x [] r a b = ground arith
has_byte_last x (q ∷ rs) r a b = ground (arith, has_byte_last x rs r a b)

-- The answer to every query up to the address `x` is a region, and where that region has the byte at
-- `x` it is eligible.
abbrev pub IsWanted : Os → ℕ → AddressRange → ℕ → ℕ → Type 0
IsWanted os handle range protect x =
    (t a : ℕ)
    → range.first ≤ a
    → a ≤ x
    → (info : MemoryInfo) × (os.virtual_query t (long_to_handle handle) a ≡ some info)
      × (x < info.base_address + info.region_size
          → eligible protect (new_region info handle) ≡ true)

-- The clipping looks at no attribute, and does not cut off a byte of the range.
eligible-clip :
    (range : AddressRange) (info : MemoryInfo) (handle protect : ℕ)
    → eligible protect (new_region (clip range info) handle)
      ≡ eligible protect (new_region info handle)
unfolding clip eligible has_protection_flags is_commited is_memmapped
eligible-clip range info handle protect = ground arith

end-clip :
    (range : AddressRange) (info : MemoryInfo) (x : ℕ)
    → range.second < 2 ^ 63
    → range.first ≤ info.base_address
    → info.base_address ≤ range.second
    → info.base_address + info.region_size ≤ 2 ^ 63
    → x < (clip range info).base_address + (clip range info).region_size
    → x < info.base_address + info.region_size
unfolding clip
end-clip range info x a b c d e = ground arith

abbrev pub HasByte : ℕ → Option (List Region × World) → Type 0
HasByte x none = ⊥
HasByte x (some (regions, w')) = has_byte x regions ≡ true

module _ (os : Os) (handle : ℕ) (range : AddressRange) (protect x : ℕ) (pages : QueriesPages os)
    (low : range.second < 2 ^ 63) (inside : x < range.second)
    (wanted : IsWanted os handle range protect x) where
  -- What one round adds: the byte, unless the next round still starts at or before it.
  pushed-HasByte :
      (fuel current t : ℕ) (regions : List Region) (info : MemoryInfo)
      → Standing range (suc fuel) current
      → current < range.second
      → os.virtual_query t (long_to_handle handle) current ≡ some info
      → Round os handle range protect pages low fuel current info
      → (has_byte x regions ≡ true) ⊎ (current ≤ x)
      → (has_byte x (
            if eligible protect (new_region (clip range info) handle)
            then regions ++ new_region (clip range info) handle ∷ []
            else regions)
          ≡ true)
        ⊎ ((clip range info).base_address + (clip range info).region_size ≤ x)
  pushed-HasByte fuel current t regions info s here e r (inl h) =
      elim (Bool-cases (eligible protect (new_region (clip range info) handle))) [
        | inl hit ↦ rw hit (inl (has_byte-append x regions (new_region (clip range info) handle) h))
        | inr miss ↦ rw miss (inl h)
      ]
  pushed-HasByte fuel current t regions info s here e r (inr h) =
      elim (Bool-cases (ltb x ((clip range info).base_address + (clip range info).region_size))) [
        | inr over ↦ inr (ground arith)
        | inl found ↦
            let q = pages t (long_to_handle handle) current info e in
            let at_page : info.base_address ≡ current = ground (arith, s.aligned, q.0) in
            let (info', e', k) = wanted t current s.from h in
            let same : info' ≡ info = ground (arith, e, e') in
            let found' : x < (clip range info).base_address + (clip range info).region_size =
              (ltb_iff _ _).0 found in
            let inner : x < info.base_address + info.region_size =
              end-clip range info x low (omega (arith, at_page, s.from))
                (omega (arith, at_page, s.upto)) q.3 found' in
            let hit : eligible protect (new_region (clip range info) handle) ≡ true =
              eligible-clip range info handle protect
              ∙ subst
                  (λ i.
                    x < i.base_address + i.region_size
                    → eligible protect (new_region i handle) ≡ true)
                  same k inner in
            rw hit (
              inl (
                has_byte_last x regions (new_region (clip range info) handle)
                  (omega (arith, r.starts, h)) found'))
      ]

  loop-HasByte :
      (fuel current : ℕ) (regions : List Region) (w : World)
      → Standing range fuel current
      → (has_byte x regions ≡ true) ⊎ (current ≤ x)
      → HasByte x (region_loop fuel os handle range protect current regions w)
  unfolding region_loop
  loop-HasByte zero current regions w s h = absurd (omega (arith, s.upto, s.fuelled))
  loop-HasByte (suc fuel) current regions w s h = elim (Bool-cases (ltb current range.second)) [
    | inr over ↦ rw over (ground (arith, h))
    | inl here ↦ elim (Option-cases (os.virtual_query w.clock (long_to_handle handle) current)) [
      | inl e ↦ rw (here, e) (answered e h)
      | inr (info, e) ↦
          let here' = (ltb_iff current range.second).0 here in
          let r = round os handle range protect pages low fuel current w.clock info s here' e in
          rw (here, e, r.no_wrap)
            (loop-HasByte fuel _ _ (record w { clock = w.clock + 1 }) r.goes_on
              (pushed-HasByte fuel current w.clock regions info s here' e r h))
    ]
  ]
    where
      answered :
          os.virtual_query w.clock (long_to_handle handle) current ≡ none
          → (has_byte x regions ≡ true) ⊎ (current ≤ x)
          → has_byte x regions ≡ true
      answered e (inl k) = k
      answered e (inr k) = let (info, e', _) = wanted w.clock current s.from k in cc

-- On a range that starts at a page and lies below 2 ^ 63, if the answers of `VirtualQueryEx` are
-- whole pages, every byte of the range is in a region that `get_regions` lists, if the queries up
-- to its address are answered and any answer that has the byte is eligible.
pub get_regions-HasByte :
    (os : Os) (handle : ℕ) (range : AddressRange) (protect x : ℕ) (w : World)
    → QueriesPages os
    → range.second < 2 ^ 63
    → range.first % page_size ≡ 0
    → range.first ≤ x
    → x < range.second
    → IsWanted os handle range protect x
    → HasByte x (get_regions os handle range protect w)
unfolding get_regions
get_regions-HasByte os handle range protect x w pages low start from inside wanted =
    loop-HasByte os handle range protect x pages low inside wanted
      (suc (range.second - range.first)) range.first [] w
      (record {
        from = omega arith;
        upto = omega arith;
        aligned = inl start;
        fuelled = omega arith;
      })
      (inr from)
