-- ===== src/Scanner/Next/Outcome.antt =====
-- `next_scan` as a whole: it returns, and what its result consists of.
use slow_scanner.Prelude.{
  ℕ, ◌+◌, ◌-◌, ◌%◌, ◌^◌, ◌≤◌, ◌<◌, ◌≡◌, refl, ap, ◌∙◌, Option, none, some, List, [], ◌∷◌, arith,
  All,
}
use slow_scanner.World.{Os, World, ◌>>=◌}
use slow_scanner.File.{page_size}
use slow_scanner.Region.Fetch.{ReadsWithin}
use slow_scanner.File.Reserve.{MapsExactly, CanGrow, IsLean, HasSpace, IsMapped}
use slow_scanner.Region.{Region, base, size}
use slow_scanner.Scan.{Scan, ScanType}
use slow_scanner.Compare.{ElementType, FloatFormat, element_size, make_comparator}
use slow_scanner.Scanner.{AddressRange, get_regions}
use slow_scanner.Scanner.Regions.{Listed, get_regions-Listed}
use slow_scanner.Scanner.Coverage.{QueriesPages, Chain, InOrder, get_regions-InOrder}
use slow_scanner.Scanner.Task.{CanMap}
use slow_scanner.Scanner.Sort.{IsSorted, sort_scans-perm, sort_scans-IsSorted, Permᴰ-All, total}
use slow_scanner.Scanner.First.Result.{QueriesPages-QueryCovers}
use slow_scanner.Scanner.Next.{Progress, next_loop, next_scan}
use slow_scanner.Scanner.Next.Round.{IsMatched, Follows}
use slow_scanner.Scanner.Next.Reads.{HasSnapshot}
use slow_scanner.Scanner.Next.Result.{Looped, loop-Looped}

total-Chain : (low high : ℕ) (rs : List Region) → Chain low rs high → low + total size rs ≤ high
total-Chain low high [] c = omega arith
total-Chain low high (r ∷ rs) c = omega (arith, total-Chain (base r + size r) high rs c.1)

module _ (os : Os) (f32 f64 : FloatFormat) (handle : ℕ) (range : AddressRange) (protect : ℕ)
    (kind : ScanType) (elem : ElementType) (prevs : List Scan) (raw1 : ℕ) (raw2 : Option ℕ)
    (w : World) where
  -- Each scan of the result is as in `Matched`, they are in ascending order of their base addresses,
  -- all bytes that were in the file are as they were, and at most the length of the range has been
  -- written to it.
  abbrev pub NextScanned : Option (List Scan × World) → Type 0
  NextScanned none = ⊥
  NextScanned (some (scans, w')) =
      All
        (IsMatched os (make_comparator f32 f64 kind elem) kind elem raw1 raw2 handle range protect
          prevs w')
        scans
      × IsSorted scans
      × Follows w w'
      × (w'.file.offset ≤ w.file.offset + (range.second - range.first))
      × IsMapped w'.file
      × IsLean w'.file

  abbrev start : Progress
  start = record { results = []; raw1 = raw1 }

  module _ (rs : List Region) (w1 : World)
      (listed : get_regions os handle range protect w ≡ some (rs, w1)) (file : w1.file ≡ w.file)
      (cells : w1.cells ≡ w.cells) where
    looped :
        (o : Option (Progress × World))
        → next_loop os
            (make_comparator f32 f64 kind elem)
            kind
            (element_size elem)
            raw2
            rs
            prevs
            start
            w1
          ≡ o
        → Looped os
            (make_comparator f32 f64 kind elem)
            kind
            elem
            raw1
            raw2
            handle
            range
            protect
            prevs
            (total size rs)
            w1
            o
        → Chain range.first rs range.second
        → NextScanned (next_scan os f32 f64 handle range protect kind elem prevs raw1 raw2 w)
    unfolding next_scan
    looped none e h c = absurd h
    looped (some (g, w2)) e (going, follows, bytes, mapped, lean) c =
        rw (listed, ◌>>=◌, e)
          (
            Permᴰ-All _ (sort_scans-perm g.results) going.matched,
            sort_scans-IsSorted g.results,
            (
              omega (arith, follows.0, ap (λ f. f.offset) file),
              λ j h. follows.1 j (omega (arith, h, ap (λ f. f.offset) file)) ∙ ap (λ c. c j) cells,
            ),
            omega
                (arith, bytes, ap (λ f. f.offset) file, total-Chain range.first range.second rs c),
            mapped,
            lean,
          )

  module _ (exact : MapsExactly os) (grow : CanGrow os) (short : ReadsWithin os) (can : CanMap os)
      (below : range.second < 2 ^ 63) (regions : All HasSnapshot prevs) (inv : IsMapped w.file)
      (lean : IsLean w.file) (space : HasSpace (range.second - range.first) w.file) where
    next-Listed :
        (o : Option (List Region × World))
        → get_regions os handle range protect w ≡ o
        → Listed os handle range protect w.file w.cells o
        → InOrder range o
        → NextScanned (next_scan os f32 f64 handle range protect kind elem prevs raw1 raw2 w)
    next-Listed none e h c = absurd h
    next-Listed (some (rs, w1)) e (a, file, cells) c =
        looped rs w1 e file cells
          (next_loop os (make_comparator f32 f64 kind elem) kind (element_size elem) raw2 rs prevs
            start w1)
          refl
          (loop-Looped os (make_comparator f32 f64 kind elem) kind elem raw1 raw2 handle range
            protect prevs exact grow short can below rs [] prevs start w1 refl regions a
            (record {
              going = record { matched = tt; plain = λ p. refl };
              mapped = rw file inv;
              lean = rw file lean;
              space =
                  omega (arith, ap (λ f. f.offset) file, total-Chain range.first range.second rs c);
            }))
          c

-- `next_scan`, on a range that starts at a page and lies below 2 ^ 63, with a file that is mapped as
-- far as it reaches, is at most four times its data and a page, and has the space, with calls on it
-- that succeed, answers of `VirtualQueryEx` as `QueriesPages` says and reads that write no more than
-- was asked for, and with earlier scans whose regions lie below 2 ^ 47 and were read as a whole and
-- whose results have indices in them, returns, and no read leaves its snapshot, whatever the process
-- does meanwhile. Each scan of its result is what `narrow` makes of a region that is listed and
-- overlaps one of the earlier scans, on a snapshot of it that was read, and is valid; for a scan type
-- that does not look at earlier values, the value compared with is the caller's. The scans are in
-- ascending order of base address, and every byte that was in the file is as it was.
pub next_scan-NextScanned :
    (os : Os) (f32 f64 : FloatFormat) (handle : ℕ) (range : AddressRange) (protect : ℕ)
    (kind : ScanType) (elem : ElementType) (prevs : List Scan) (raw1 : ℕ) (raw2 : Option ℕ)
    (w : World)
    → MapsExactly os
    → CanGrow os
    → ReadsWithin os
    → CanMap os
    → QueriesPages os
    → All HasSnapshot prevs
    → range.first % page_size ≡ 0
    → range.first ≤ range.second
    → range.second < 2 ^ 63
    → IsMapped w.file
    → IsLean w.file
    → HasSpace (range.second - range.first) w.file
    → NextScanned os f32 f64 handle range protect kind elem prevs raw1 raw2 w
        (next_scan os f32 f64 handle range protect kind elem prevs raw1 raw2 w)
next_scan-NextScanned os f32 f64 handle range protect kind elem prevs raw1 raw2 w exact grow short
      can pages regions first order low inv lean space =
    next-Listed os f32 f64 handle range protect kind elem prevs raw1 raw2 w exact grow short can low
      regions inv lean space (get_regions os handle range protect w) refl
      (get_regions-Listed os handle range protect w (QueriesPages-QueryCovers os pages) low)
      (get_regions-InOrder os handle range protect w pages low order first)
