-- ===== src/Session/Places.antt =====
-- Where the regions of a program's scans lie.
use slow_scanner.Prelude.{
  ℕ, ◌+◌, ◌%◌, ◌^◌, ◌≤◌, ◌≡◌, ap, subst, ◌∙◌, some, List, [], ◌∷◌, arith, map, All,
}
use slow_scanner.World.{MemoryInfo, Os, World}
use slow_scanner.File.{page_size}
use slow_scanner.Region.{Region}
use slow_scanner.Scanner.{AddressRange, clip, get_regions}
use slow_scanner.Scanner.Regions.{IsListed, Listed, get_regions-Listed}
use slow_scanner.Scanner.First.Result.{QueriesPages-QueryCovers}
use slow_scanner.Scanner.Coverage.{QueriesPages}
use slow_scanner.Scanner.Next.Places.{IsPlaced}

-- At the start of a page, in the user's part of the address space.
abbrev pub HasPlace : MemoryInfo → Type 0
HasPlace info =
    (info.base_address % page_size ≡ 0) × (info.base_address + info.region_size ≤ 2 ^ 47)

pub HasPlace-IsPlaced :
    (r : Region) (info : MemoryInfo) → r.info ≡ info → HasPlace info → IsPlaced r
HasPlace-IsPlaced r info e h = record {
  aligned = ap (λ (i : MemoryInfo). i.base_address % page_size) e ∙ h.0;
  low = omega (
    arith,
    h.1,
    ap (λ (i : MemoryInfo). i.base_address) e,
    ap (λ (i : MemoryInfo). i.region_size) e,
  );
}

-- What a page-aligned range leaves of an answer that starts at a page.
clip_page :
    (range : AddressRange) (info : MemoryInfo)
    → range.first % page_size ≡ 0
    → info.base_address % page_size ≡ 0
    → (clip range info).base_address % page_size ≡ 0
unfolding clip
clip_page range info a b = ground arith

module _ (os : Os) (handle : ℕ) (range : AddressRange) (protect : ℕ) (pages : QueriesPages os)
    (start : range.first % page_size ≡ 0) (low : range.second ≤ 2 ^ 47) where
  pub IsListed-HasPlace : (r : Region) → IsListed os handle range protect r → HasPlace r.info
  IsListed-HasPlace r h =
      let (time, address, found, e, cut) = h.answered in
      let at = (pages time _ address found e).0 in
      (
        ap (λ (i : MemoryInfo). i.base_address % page_size) cut
            ∙ clip_page range found start (omega (arith, at)),
        omega (arith, h.ends),
      )

  pub listed-HasPlace :
      (rs : List Region)
      → All (IsListed os handle range protect) rs
      → All HasPlace (map (λ r. r.info) rs)
  listed-HasPlace [] a = tt
  listed-HasPlace (r ∷ rs) a = (IsListed-HasPlace r a.0, listed-HasPlace rs a.1)

  pub get_regions-HasPlace :
      (w w1 : World) (rs : List Region)
      → get_regions os handle range protect w ≡ some (rs, w1)
      → All HasPlace (map (λ r. r.info) rs)
  get_regions-HasPlace w w1 rs e =
      listed-HasPlace rs
        (subst (Listed os handle range protect w.file w.cells) e (
          get_regions-Listed os handle range protect w (QueriesPages-QueryCovers os pages)
            (omega (arith, low)))).0
