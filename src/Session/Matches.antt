-- ===== src/Session/Matches.antt =====
-- The results of a later scan: snapshots too.
use slow_scanner.Prelude.{
  ℕ, ◌+◌, ◌%◌, ◌^◌, ◌≤◌, ◌≡◌, refl, ap, ◌∙◌, sym, subst, Option, List, arith, All, All-map,
  All-middle,
}
use slow_scanner.World.{MemoryInfo, Os, World}
use slow_scanner.File.{page_size}
use slow_scanner.Dump.{Span}
use slow_scanner.Region.{Region, size, raw_bytes, first_span}
use slow_scanner.Scan.{Scan, ScanType, Comparator}
use slow_scanner.Scan.Search.{IsFaithful}
use slow_scanner.Scan.Agree.{SameBytes, IsFaithful-agree}
use slow_scanner.Compare.{ElementType, element_size}
use slow_scanner.Scanner.{AddressRange}
use slow_scanner.Scanner.Coverage.{QueriesPages}
use slow_scanner.Scanner.Task.{task_of}
use slow_scanner.Scanner.First.{element_size_positive}
use slow_scanner.Scanner.Next.{narrow}
use slow_scanner.Scanner.Next.Round.{IsMatched}
use slow_scanner.Scanner.Next.Added.{narrow_region}
use slow_scanner.Scanner.Next.Places.{IsPlaced}
use slow_scanner.Scanner.Next.Entries.{narrow-IsFaithful}
use slow_scanner.Session.Places.{HasPlace, HasPlace-IsPlaced, IsListed-HasPlace}
use slow_scanner.Session.Snapshots.{IsSnapshot, full_span}

module _ (os : Os) (cmp : Comparator) (raw1 : ℕ) (raw2 : Option ℕ) (kind : ScanType)
    (elem : ElementType) (handle : ℕ) (range : AddressRange) (protect : ℕ) (prevs : List Scan)
    (pages : QueriesPages os) (start : range.first % page_size ≡ 0) (low : range.second ≤ 2 ^ 47)
    (c : ℕ → ℕ) (l : ℕ) (held : All (IsSnapshot os c l) prevs) (w : World) (s : Scan)
    (m : IsMatched os cmp kind elem raw1 raw2 handle range protect prevs w s) where
  abbrev n : ℕ
  n = element_size elem

  abbrev outcome : Scan
  outcome =
      (narrow m.read.cells cmp kind n raw2 m.prev m.old (task_of kind n m.new) m.new m.value).0

  place : HasPlace m.info
  place = IsListed-HasPlace os handle range protect pages start low _ m.listed

  prev_held : IsSnapshot os c l m.prev
  prev_held =
      All-middle (IsSnapshot os c l) m.before m.prev m.after
        (subst (All (IsSnapshot os c l)) m.among held)

  is_old : prev_held.region ≡ m.old
  is_old = let a = prev_held.here in let b = m.old_region in cc

  full : (raw_bytes m.new).size ≡ size m.new
  full = full_span m.new m.info m.start.file.offset m.snapshot.info m.snapshot.spans

  narrowed : All (IsFaithful m.read.cells m.new n) outcome.results × (outcome.elem_size ≡ n)
  narrowed =
      narrow-IsFaithful m.read.cells cmp kind elem raw2 m.new m.old
        (HasPlace-IsPlaced m.new m.info m.snapshot.info place)
        (subst IsPlaced is_old
          (HasPlace-IsPlaced prev_held.region prev_held.info prev_held.same prev_held.place))
        full m.prev (task_of kind n m.new) refl m.value c (m.prev).elem_size prev_held.sized
        (subst (λ (r : Region). (raw_bytes r).size ≡ size r) is_old
          (full_span prev_held.region prev_held.info prev_held.position prev_held.same
            prev_held.span))
        (subst (λ (r : Region). All (IsFaithful c r (m.prev).elem_size) (m.prev).results) is_old
          prev_held.faithful)

  -- What has been written since is behind it.
  bytes : SameBytes m.new m.read.cells w.cells
  bytes j lo hi = sym (
      m.since.1 j (
        omega (
          arith,
          m.snapshot.offset,
          full,
          ap (λ (i : MemoryInfo). i.region_size) m.snapshot.info,
          ap (λ (spans : List Span). (first_span spans).position) m.snapshot.spans,
        )))

  pub Matched-IsSnapshot : IsSnapshot os w.cells w.file.offset s
  Matched-IsSnapshot = record {
    region = m.new;
    info = m.info;
    handle = handle;
    time = m.snapshot.time;
    position = m.start.file.offset;
    valid = m.passed;
    here =
        ap (λ (t : Scan). t.region) m.outcome
        ∙ narrow_region m.read.cells cmp kind n raw2 m.prev (task_of kind n m.new) m.old m.new
            m.value;
    same = m.snapshot.info;
    span = m.snapshot.spans;
    within = omega (arith, m.snapshot.offset, m.since.0);
    place = place;
    sized =
        omega
          (arith, element_size_positive elem, narrowed.1, ap (λ (t : Scan). t.elem_size) m.outcome);
    faithful =
        subst (λ (t : Scan). All (IsFaithful w.cells m.new t.elem_size) t.results) (sym m.outcome)
          (subst (λ (k : ℕ). All (IsFaithful w.cells m.new k) outcome.results) (sym narrowed.1)
            (All-map (IsFaithful m.read.cells m.new n) (IsFaithful w.cells m.new n) outcome.results
              (λ e h.
                IsFaithful-agree m.read.cells w.cells m.new n (element_size_positive elem) bytes e
                  h)
              narrowed.0));
    answer = m.snapshot.answer;
    content = λ j lt.
        m.since.1 (m.start.file.offset + j) (omega (arith, m.snapshot.offset))
        ∙ m.snapshot.content j lt;
  }
