-- ===== src/Scanner/Regions.antt =====
-- `get_regions`: it ends, stays inside the range, and lists only what is eligible.
use slow_scanner.Prelude.{
  ℕ, zero, suc, ◌+◌, ◌-◌, ◌^◌, ◌≤◌, ◌<◌, ◌≡◌, refl, true, Option, none, some, List, [], ◌∷◌, ◌++◌,
  arith, All, All-append, Bool-cases, Option-cases, ltb, inl, inr, if◌then◌else◌, ltb_iff,
}
use slow_scanner.Words.{u64, long_to_handle}
use slow_scanner.World.{MemoryInfo, MFile, Os, World}
use slow_scanner.Region.{Region, new_region, base, size}
use slow_scanner.Scanner.{AddressRange, clip, eligible, region_loop, get_regions}

-- What `VirtualQueryEx` promises: the range that it describes holds the address it was asked about,
-- and lies in the lower half of the address space.
abbrev pub QueryCovers : Os → Type 0
QueryCovers os =
    (t handle address : ℕ) (info : MemoryInfo)
    → os.virtual_query t handle address ≡ some info
    → (info.base_address ≤ address)
      × (address < info.base_address + info.region_size)
      × (info.base_address + info.region_size ≤ 2 ^ 63)

-- The clipped range still holds the address, and no longer leaves `range`.
clip_lem :
    (range : AddressRange) (info : MemoryInfo) (current : ℕ)
    → range.first ≤ current
    → current < range.second
    → range.second < 2 ^ 63
    → info.base_address ≤ current
    → current < info.base_address + info.region_size
    → info.base_address + info.region_size ≤ 2 ^ 63
    → (range.first ≤ (clip range info).base_address)
      × ((clip range info).base_address ≤ current)
      × (current < (clip range info).base_address + (clip range info).region_size)
      × ((clip range info).base_address + (clip range info).region_size ≤ range.second)
unfolding clip
clip_lem range info current a b c d e f = ground arith

-- A region that `get_regions` may list: a new one, which an answer of `VirtualQueryEx` describes once it
-- is cut to the range; not empty, inside the range, and eligible.
pub record IsListed (os : Os) (handle : ℕ) (range : AddressRange) (protect : ℕ) (r : Region)
    : Type 0 where
  pub starts : range.first ≤ base r
  pub ends : base r + size r ≤ range.second
  pub nonempty : 0 < size r
  pub passes : eligible protect r ≡ true
  pub is_new : r ≡ new_region r.info handle
  pub answered :
      (time : ℕ) × (address : ℕ) × (found : MemoryInfo) × (os.virtual_query time
          (long_to_handle handle)
          address
        ≡ some found)
      × (r.info ≡ clip range found)

abbrev pub Listed :
    Os → ℕ → AddressRange → ℕ → MFile → (ℕ → ℕ) → Option (List Region × World) → Type 0
Listed os handle range protect file cells none = ⊥
Listed os handle range protect file cells (some (regions, w')) =
    All (IsListed os handle range protect) regions × (w'.file ≡ file) × (w'.cells ≡ cells)

module _ (os : Os) (handle : ℕ) (range : AddressRange) (protect : ℕ) (covers : QueryCovers os)
    (low : range.second < 2 ^ 63) where
  push-IsListed :
      (regions : List Region) (r : Region)
      → All (IsListed os handle range protect) regions
      → (eligible protect r ≡ true → IsListed os handle range protect r)
      → All
          (IsListed os handle range protect)
          (if eligible protect r then regions ++ r ∷ [] else regions)
  push-IsListed regions r h k = elim (Bool-cases (eligible protect r)) [
    | inl hit ↦
        rw hit (All-append (IsListed os handle range protect) regions (r ∷ []) h (k hit, tt))
    | inr miss ↦ rw miss h
  ]

  loop-Listed :
      (fuel current : ℕ) (regions : List Region) (w : World)
      → range.first ≤ current
      → 0 < fuel
      → range.second < fuel + current
      → All (IsListed os handle range protect) regions
      → Listed os handle range protect w.file w.cells
          (region_loop fuel os handle range protect current regions w)
  unfolding region_loop
  loop-Listed zero current regions w a z b h = absurd (omega arith)
  loop-Listed (suc fuel) current regions w a z b h = elim (Bool-cases (ltb current range.second)) [
    | inr over ↦ rw over (h, refl, refl)
    | inl inside ↦ elim (Option-cases (os.virtual_query w.clock (long_to_handle handle) current)) [
      | inl e ↦ rw (inside, e) (h, refl, refl)
      | inr (info, e) ↦
          let q = covers w.clock (long_to_handle handle) current info e in
          let c = clip_lem range info current a ((ltb_iff _ _).0 inside) low q.0 q.1 q.2 in
          rw (inside, e)
            (loop-Listed fuel (u64 (base (listed info) + size (listed info)))
              (if eligible protect (listed info) then regions ++ listed info ∷ [] else regions)
              (record w { clock = w.clock + 1 }) (omega (arith, c.0, c.1, c.2, c.3))
              (omega (arith, c.2, c.3)) (omega (arith, c.2, c.3))
              (push-IsListed regions (listed info) h (λ hit. record {
                starts = c.0;
                ends = c.3;
                nonempty = omega (arith, c.1, c.2);
                passes = hit;
                is_new = refl;
                answered = (w.clock, current, info, e, refl);
              })))
    ]
  ]
    where
      listed : MemoryInfo → Region
      listed info = new_region (clip range info) handle

-- On a range below 2 ^ 63, if the answers of `VirtualQueryEx` hold the address asked for,
-- `get_regions` ends: as many rounds as the range has bytes are enough, whatever the process does
-- to its memory meanwhile. Each region that it lists is one that `VirtualQueryEx` answered with, cut to
-- the range; it lies inside the range, is not empty, and has the protection that was asked for, is
-- committed and is not a mapped view; and the dump file is left alone.
pub get_regions-Listed :
    (os : Os) (handle : ℕ) (range : AddressRange) (protect : ℕ) (w : World)
    → QueryCovers os
    → range.second < 2 ^ 63
    → Listed os handle range protect w.file w.cells (get_regions os handle range protect w)
unfolding get_regions
get_regions-Listed os handle range protect w covers low =
    loop-Listed os handle range protect covers low (suc (range.second - range.first)) range.first []
      w (omega arith) (omega arith) (omega arith) tt
