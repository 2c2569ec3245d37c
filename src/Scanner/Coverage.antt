-- ===== src/Scanner/Coverage.antt =====
-- `get_regions` on a range that starts at a page: the regions follow one another without overlap, and
-- every eligible byte of the range is in one.
pub mod Bytes
use slow_scanner.Prelude.{
  ℕ, zero, suc, ◌+◌, ◌-◌, ◌*◌, ◌/◌, ◌%◌, ◌^◌, ◌≤◌, ◌<◌, ◌≡◌, refl, ap, ◌∙◌, sym, Bool, true, false,
  Option, none, some, List, [], ◌∷◌, ◌++◌, arith, Bool-cases, Option-cases, ltb, leb, inl, inr, ◌⊎◌,
  ◌&&◌, ◌||◌, if◌then◌else◌, ltb_iff, lt→ltb,
}
use slow_scanner.Words.{u64, sub64, long_to_handle}
use slow_scanner.World.{MemoryInfo, Os, World, ◌>>=◌}
use slow_scanner.File.{page_size}
use slow_scanner.Region.{Region, new_region, base, size}
use slow_scanner.Scanner.{AddressRange, clip, eligible, region_loop, get_regions}

-- What `VirtualQueryEx` promises in whole pages: its answer starts at the page of the address, and
-- is some pages of the lower half of the address space.
abbrev pub QueriesPages : Os → Type 0
QueriesPages os =
    (t handle address : ℕ) (info : MemoryInfo)
    → os.virtual_query t handle address ≡ some info
    → (info.base_address ≡ address / page_size * page_size)
      × (0 < info.region_size)
      × (info.region_size % page_size ≡ 0)
      × (info.base_address + info.region_size ≤ 2 ^ 63)

-- The regions lie one behind the other, from `low` up to `high`.
abbrev pub Chain : ℕ → List Region → ℕ → Type 0
Chain low [] high = low ≤ high
Chain low (r ∷ rs) high = (low ≤ base r) × Chain (base r + size r) rs high

Chain-mono :
    (low : ℕ) (rs : List Region) (mid high : ℕ) → Chain low rs mid → mid ≤ high → Chain low rs high
Chain-mono low [] mid high c h = omega arith
Chain-mono low (r ∷ rs) mid high c h = (c.0, Chain-mono (base r + size r) rs mid high c.1 h)

Chain-append :
    (low : ℕ) (rs : List Region) (r : Region)
    → Chain low rs (base r)
    → Chain low (rs ++ r ∷ []) (base r + size r)
Chain-append low [] r c = (c, omega arith)
Chain-append low (q ∷ rs) r c = (c.0, Chain-append (base q + size q) rs r c.1)

-- At the start of a page the answer starts at the address itself, and only its end is cut.
clip_aligned :
    (range : AddressRange) (info : MemoryInfo) (current : ℕ)
    → range.first ≤ current
    → current < range.second
    → range.second < 2 ^ 63
    → current % page_size ≡ 0
    → info.base_address ≡ current / page_size * page_size
    → 0 < info.region_size
    → info.region_size % page_size ≡ 0
    → info.base_address + info.region_size ≤ 2 ^ 63
    → ((clip range info).base_address ≡ current)
      × (current < (clip range info).base_address + (clip range info).region_size)
      × ((clip range info).base_address + (clip range info).region_size ≤ range.second)
      × ((((clip range info).base_address + (clip range info).region_size) % page_size ≡ 0)
          ⊎ ((clip range info).base_address + (clip range info).region_size ≡ range.second))
unfolding clip
clip_aligned range info current a b c d e f g h = ground arith

abbrev pub InOrder : AddressRange → Option (List Region × World) → Type 0
InOrder range none = ⊥
InOrder range (some (regions, w')) = Chain range.first regions range.second

-- Where the loop of `get_regions` stands: at a page of the range, or at its end.
record Standing (range : AddressRange) (fuel current : ℕ) : Type 0 where
  from : range.first ≤ current
  upto : current ≤ range.second
  aligned : (current % page_size ≡ 0) ⊎ (current ≡ range.second)
  fuelled : range.second < fuel + current

module _ (os : Os) (handle : ℕ) (range : AddressRange) (protect : ℕ) (pages : QueriesPages os)
    (low : range.second < 2 ^ 63) where
  abbrev listed : MemoryInfo → Region
  listed info = new_region (clip range info) handle

  -- One round: the region that is found starts where the loop stands, and the loop moves to its end.
  record Round (fuel current : ℕ) (info : MemoryInfo) : Type 0 where
    starts : base (listed info) ≡ current
    longer : current < base (listed info) + size (listed info)
    no_wrap :
        u64 (base (listed info) + size (listed info)) ≡ base (listed info) + size (listed info)
    goes_on : Standing range fuel (base (listed info) + size (listed info))

  round :
      (fuel current t : ℕ) (info : MemoryInfo)
      → Standing range (suc fuel) current
      → current < range.second
      → os.virtual_query t (long_to_handle handle) current ≡ some info
      → Round fuel current info
  round fuel current t info s inside e =
      let q = pages t (long_to_handle handle) current info e in
      let at_page : current % page_size ≡ 0 = ground (arith, s.aligned) in
      let c = clip_aligned range info current s.from inside low at_page q.0 q.1 q.2 q.3 in
      record {
        starts = c.0;
        longer = c.1;
        no_wrap = omega (arith, c.2);
        goes_on = record {
          from = omega (arith, c.1, s.from);
          upto = c.2;
          aligned = ground (arith, c.3);
          fuelled = omega (arith, c.1, s.fuelled);
        };
      }

  loop-InOrder :
      (fuel current : ℕ) (regions : List Region) (w : World)
      → Standing range fuel current
      → Chain range.first regions current
      → InOrder range (region_loop fuel os handle range protect current regions w)
  unfolding region_loop
  loop-InOrder zero current regions w s h = absurd (omega (arith, s.upto, s.fuelled))
  loop-InOrder (suc fuel) current regions w s h = elim (Bool-cases (ltb current range.second)) [
    | inr over ↦ rw over (Chain-mono range.first regions current range.second h s.upto)
    | inl inside ↦ elim (Option-cases (os.virtual_query w.clock (long_to_handle handle) current)) [
      | inl e ↦ rw (inside, e) (Chain-mono range.first regions current range.second h s.upto)
      | inr (info, e) ↦
          let r = round fuel current w.clock info s ((ltb_iff _ _).0 inside) e in
          rw (inside, e, r.no_wrap)
            (loop-InOrder fuel (base (listed info) + size (listed info))
              (if eligible protect (listed info) then regions ++ listed info ∷ [] else regions)
              (record w { clock = w.clock + 1 }) r.goes_on (pushed info r))
    ]
  ]
    where
      pushed :
          (info : MemoryInfo)
          → Round fuel current info
          → Chain range.first
              (if eligible protect (listed info) then regions ++ listed info ∷ [] else regions)
              (base (listed info) + size (listed info))
      pushed info r = elim (Bool-cases (eligible protect (listed info))) [
        | inl hit ↦ rw hit (Chain-append range.first regions (listed info) (rw (r.starts) h))
        | inr miss ↦ rw miss (Chain-mono range.first regions current _ h (omega (arith, r.longer)))
      ]

-- On a range that starts at a page and lies below 2 ^ 63, if the answers of `VirtualQueryEx` are
-- whole pages, `get_regions` lists its regions in ascending order, each behind the end of the one
-- before, all inside the range.
pub get_regions-InOrder :
    (os : Os) (handle : ℕ) (range : AddressRange) (protect : ℕ) (w : World)
    → QueriesPages os
    → range.second < 2 ^ 63
    → range.first ≤ range.second
    → range.first % page_size ≡ 0
    → InOrder range (get_regions os handle range protect w)
unfolding get_regions
get_regions-InOrder os handle range protect w pages low order start =
    loop-InOrder os handle range protect pages low (suc (range.second - range.first)) range.first []
      w (record { from = omega arith; upto = order; aligned = inl start; fuelled = omega arith })
      (omega arith)
