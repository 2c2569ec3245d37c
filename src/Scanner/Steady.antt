-- ===== src/Scanner/Steady.antt =====
-- What the listing of regions and the making of scans change of the dump file.
use slow_scanner.Prelude.{
  ℕ, zero, suc, ◌+◌, ◌-◌, Option, none, some, List, [], ◌∷◌, ◌++◌, if◌then◌else◌, ltb,
}
use slow_scanner.Words.{u64, long_to_handle}
use slow_scanner.World.{MemoryInfo, Os, MFile, M, pure, fault, call}
use slow_scanner.File.Steady.{
  Keeps, Keeps-pure, Keeps-fault, Keeps-call, Keeps-if, Keeps-bind, IsSame,
}
use slow_scanner.Region.{Region, new_region, base, size}
use slow_scanner.Scan.{Scan, ScanType, new_scan}
use slow_scanner.Scanner.{
  AddressRange, clip, eligible, region_loop, get_regions, make_scan, make_scans,
}

module _ (os : Os) (f0 : MFile) where
  abbrev Same : MFile → Type 0
  Same = IsSame f0

  pub region-Keeps :
      (o : Option Region) → Keeps Same {A = Region} (elim o [ none ↦ fault | some r ↦ pure r ])
  region-Keeps none = Keeps-fault Same
  region-Keeps (some r) = Keeps-pure Same r

  pub made-Keeps : (o : Option Scan) → Keeps Same (make_scan o)
  made-Keeps none = Keeps-fault Same
  made-Keeps (some s) = Keeps-pure Same s

  pub make_scans-Keeps :
      (kind : ScanType) (n : ℕ) (rs : List Region) → Keeps Same (make_scans kind n rs)
  unfolding make_scans
  make_scans-Keeps kind n [] = Keeps-pure Same []
  make_scans-Keeps kind n (r ∷ rs) =
      Keeps-bind Same (make_scan (new_scan (some r) kind n)) _
        (made-Keeps (new_scan (some r) kind n))
        (λ s.
          Keeps-bind Same (make_scans kind n rs) (λ rest. pure (s ∷ rest))
            (make_scans-Keeps kind n rs) (λ rest. Keeps-pure Same (s ∷ rest)))

  pub answered-Keeps :
      (handle : ℕ) (range : AddressRange) (protect : ℕ) (regions : List Region)
      (go : ℕ → List Region → M (List Region)) (result : Option MemoryInfo)
      → ((current : ℕ) (rs : List Region) → Keeps Same (go current rs))
      → Keeps Same {A = List Region} (elim result [
        | none ↦ pure regions
        | some info ↦
            let region = new_region (clip range info) handle in
            go
              (u64 (base region + size region))
              (if eligible protect region then regions ++ region ∷ [] else regions)
      ])
  answered-Keeps handle range protect regions go none h = Keeps-pure Same regions
  answered-Keeps handle range protect regions go (some info) h = h _ _

  pub region_loop-Keeps :
      (fuel handle : ℕ) (range : AddressRange) (protect current : ℕ) (regions : List Region)
      → Keeps Same (region_loop fuel os handle range protect current regions)
  unfolding region_loop
  region_loop-Keeps zero handle range protect current regions = Keeps-fault Same
  region_loop-Keeps (suc fuel) handle range protect current regions =
      Keeps-if Same (ltb current range.second) _ (pure regions)
        (Keeps-bind Same (call (λ t. os.virtual_query t (long_to_handle handle) current)) _
          (Keeps-call Same (λ t. os.virtual_query t (long_to_handle handle) current))
          (λ result.
            answered-Keeps handle range protect regions
              (λ c rs. region_loop fuel os handle range protect c rs) result
              (λ c rs. region_loop-Keeps fuel handle range protect c rs)))
        (Keeps-pure Same regions)

  pub get_regions-Keeps :
      (handle : ℕ) (range : AddressRange) (protect : ℕ)
      → Keeps Same (get_regions os handle range protect)
  unfolding get_regions
  get_regions-Keeps handle range protect =
      region_loop-Keeps (suc (range.second - range.first)) handle range protect range.first []
