-- ===== src/Scanner/Next/Match.antt =====
-- What the round of `match_region` gives.
use slow_scanner.Prelude.{
  ℕ, ◌+◌, ◌^◌, ◌≤◌, ap, ◌<◌, ◌≡◌, refl, ◌∙◌, Bool, true, false, Option, none, some, List, [], ◌∷◌,
  ◌++◌, arith, All, All-append, Bool-cases, inl, inr,
}
use slow_scanner.World.{MemoryInfo, Os, World, ◌>>=◌}
use slow_scanner.Region.Fetch.{ReadsWithin}
use slow_scanner.File.Reserve.{MapsExactly, CanGrow, IsLean, HasSpace, IsMapped}
use slow_scanner.Dump.{Span}
use slow_scanner.Region.{Region, new_region, read_memory, base, size, raw_bytes, first_span}
use slow_scanner.Region.Snapshot.{Captured, Snapped, read_memory-Snapped}
use slow_scanner.Scan.{Scan, ScanType, Comparator}
use slow_scanner.Compare.{ElementType, element_size}
use slow_scanner.Scanner.{AddressRange}
use slow_scanner.Scanner.Regions.{IsListed}
use slow_scanner.Scanner.Task.{CanMap, task_of, not-MapFailed}
use slow_scanner.Scanner.First.{new_scan-element_size}
use slow_scanner.Scanner.Next.Reads.{narrow_reads-true}
use slow_scanner.Scanner.Next.{overlap_of, narrow, narrow_reads, Progress, keep_valid, match_region}
use slow_scanner.Scanner.Next.Round.{
  Follows, Follows-refl, narrow_raw1, IsMatched, Going, Going-Follows, Rounded,
}

module _ (os : Os) (cmp : Comparator) (kind : ScanType) (elem : ElementType) (raw1 : ℕ)
    (raw2 : Option ℕ) (handle : ℕ) (range : AddressRange) (protect : ℕ) (prevs : List Scan)
    (before after : List Scan) (prev : Scan) (among : prevs ≡ before ++ prev ∷ after) (old : Region)
    (old_region : prev.region ≡ some old) (full : (raw_bytes old).size ≡ size old)
    (low : base old + size old ≤ 2 ^ 47)
    (within : All (λ e. e.element_index ≤ size old) prev.results) (info : MemoryInfo)
    (new_low : info.base_address + info.region_size < 2 ^ 64)
    (listed : IsListed os handle range protect (new_region info handle))
    (overlaps : ((overlap_of (new_region info handle) old).p_start
        < (overlap_of (new_region info handle) old).r_end)
      × ((overlap_of (new_region info handle) old).r_start
          < (overlap_of (new_region info handle) old).p_end))
    (g : Progress) (w : World)
    (going : Going os cmp kind elem raw1 raw2 handle range protect prevs g w) where
  abbrev n : ℕ
  n = element_size elem

  abbrev State : World → Progress → Type 0
  State v h = Going os cmp kind elem raw1 raw2 handle range protect prevs h v

  module _ (new : Region) (w' : World)
      (c : Captured os (new_region info handle) w true new w') where
    abbrev outcome : Scan × ℕ
    outcome = narrow w'.cells cmp kind n raw2 prev old (task_of kind n new) new g.raw1

    follows : Follows w w'
    follows = (omega (arith, c.offset), c.below)

    kept : State w' (keep_valid g outcome)
    kept = record {
      matched = elim (Bool-cases (outcome.0).valid) [
        | inl hit ↦ rw hit (All-append _ g.results (outcome.0 ∷ []) older (newest hit, tt))
        | inr miss ↦ rw miss older
      ];
      plain = λ p.
          narrow_raw1 w'.cells cmp kind n raw2 prev (task_of kind n new) old new g.raw1 p
          ∙ going.plain p;
    }
      where
        older : All (IsMatched os cmp kind elem raw1 raw2 handle range protect prevs w') g.results
        older =
            (Going-Follows os cmp kind elem raw1 raw2 handle range protect prevs g w w' follows
              going).matched

        newest :
            (outcome.0).valid ≡ true
            → IsMatched os cmp kind elem raw1 raw2 handle range protect prevs w' outcome.0
        newest hit = record {
          before = before;
          prev = prev;
          after = after;
          among = among;
          old = old;
          old_region = old_region;
          info = info;
          listed = listed;
          overlaps = overlaps;
          new = new;
          start = w;
          read = w';
          snapshot = c;
          since = Follows-refl w';
          value = g.raw1;
          plain = going.plain;
          outcome = refl;
          passed = hit;
        }

  match-Snapped :
      (o : Option ((Bool × Region) × World))
      → CanMap os
      → read_memory os (new_region info handle) w ≡ o
      → Snapped os (new_region info handle) w o
      → Rounded os cmp kind elem raw1 raw2 handle range protect prevs info.region_size w
          (match_region os cmp kind n raw2 prev old (new_region info handle) g w)
  unfolding match_region
  match-Snapped none can e h = absurd h
  match-Snapped (some ((success, r), w')) can e (inl s) = absurd (not-MapFailed os can s.unmapped)
  match-Snapped (some ((false, r), w')) can e (inr c) =
      rw (new_scan-element_size (some (new_region info handle)) kind elem, ◌>>=◌, e)
        (
          Going-Follows os cmp kind elem raw1 raw2 handle range protect prevs g w w'
              (omega (arith, c.offset), c.below) going,
          (omega (arith, c.offset), c.below),
          c.offset,
          c.mapped,
          c.lean,
        )
  match-Snapped (some ((true, r), w')) can e (inr c) =
      rw (new_scan-element_size (some (new_region info handle)) kind elem, ◌>>=◌, e, inside)
        (kept r w' c, follows r w' c, c.offset, c.mapped, c.lean)
    where
      sizes : r.info ≡ info → (raw_bytes r).size ≡ info.region_size → (raw_bytes r).size ≡ size r
      sizes same s = omega (arith, s, ap (λ (i : MemoryInfo). i.region_size) same)

      inside : narrow_reads n prev old r ≡ true
      inside =
          narrow_reads-true elem old r full
            (sizes c.info (ap (λ (spans : List Span). (first_span spans).size) c.spans)) low
            (omega (
              arith,
              new_low,
              ap (λ (i : MemoryInfo). i.base_address) c.info,
              ap (λ (i : MemoryInfo). i.region_size) c.info,
            ))
            prev within

  pub match_region-Rounded :
      MapsExactly os
      → CanGrow os
      → ReadsWithin os
      → CanMap os
      → IsMapped w.file
      → IsLean w.file
      → HasSpace info.region_size w.file
      → Rounded os cmp kind elem raw1 raw2 handle range protect prevs info.region_size w
          (match_region os cmp kind n raw2 prev old (new_region info handle) g w)
  match_region-Rounded exact grow short can inv lean space =
      match-Snapped (read_memory os (new_region info handle) w) can refl
        (read_memory-Snapped os info handle w exact grow short inv listed.nonempty lean space)
