-- ===== src/Session/Search.antt =====
-- What `next_scan` promises, without the walk along two lists: each region is matched with the first
-- earlier scan that it overlaps.
use slow_scanner.Prelude.{ℕ, ◌%◌, ◌^◌, ◌≤◌, ◌<◌, ◌≡◌, refl, Option, none, some, List, []}
use slow_scanner.World.{Os, World, M, pure, ◌>>=◌}
use slow_scanner.File.{page_size}
use slow_scanner.Region.{Region}
use slow_scanner.Scan.{Scan, ScanType}
use slow_scanner.Compare.{ElementType, FloatFormat, element_size, make_comparator}
use slow_scanner.Scanner.{AddressRange, get_regions, sort_scans}
use slow_scanner.Scanner.Coverage.{QueriesPages, InOrder, get_regions-InOrder}
use slow_scanner.Scanner.Ordered.{ScanChain}
use slow_scanner.Scanner.Next.{next_scan}
use slow_scanner.Scanner.Next.Merge.{each_region, next_loop-each_region}

unfoldable pub search_scan :
    Os
    → FloatFormat
    → FloatFormat
    → ℕ
    → AddressRange
    → ℕ
    → ScanType
    → ElementType
    → List Scan
    → ℕ
    → Option ℕ
    → M (List Scan)
search_scan os f32 f64 handle range protect kind elem prevs raw1 raw2 = do
  let cmp = make_comparator f32 f64 kind elem
  regions ← get_regions os handle range protect
  g ←
      each_region os cmp kind (element_size elem) raw2 prevs regions
        (record { results = []; raw1 = raw1 })
  pure (sort_scans g.results)

module _ (os : Os) (f32 f64 : FloatFormat) (handle : ℕ) (range : AddressRange) (protect : ℕ)
    (kind : ScanType) (elem : ElementType) (prevs : List Scan) (raw1 : ℕ) (raw2 : Option ℕ)
    (w : World) where
  listed-search_scan :
      (from : ℕ) (o : Option (List Region × World))
      → get_regions os handle range protect w ≡ o
      → InOrder range o
      → range.second < 2 ^ 63
      → ScanChain from prevs
      → next_scan os f32 f64 handle range protect kind elem prevs raw1 raw2 w
        ≡ search_scan os f32 f64 handle range protect kind elem prevs raw1 raw2 w
  unfolding next_scan search_scan
  listed-search_scan from none e c small chain = absurd c
  listed-search_scan from (some (rs, w1)) e c small chain =
      rw
        (
          e,
          ◌>>=◌,
          next_loop-each_region os (make_comparator f32 f64 kind elem) kind (element_size elem) raw2
              rs prevs (record { results = []; raw1 = raw1 }) w1 range.first range.second from c
              small chain,
        )
        refl

  pub next_scan-search_scan :
      (from : ℕ)
      → QueriesPages os
      → range.first % page_size ≡ 0
      → range.first ≤ range.second
      → range.second < 2 ^ 63
      → ScanChain from prevs
      → next_scan os f32 f64 handle range protect kind elem prevs raw1 raw2 w
        ≡ search_scan os f32 f64 handle range protect kind elem prevs raw1 raw2 w
  next_scan-search_scan from pages start order low chain =
      listed-search_scan from (get_regions os handle range protect w) refl
        (get_regions-InOrder os handle range protect w pages low order start) low chain
