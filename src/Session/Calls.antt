-- ===== src/Session/Calls.antt =====
-- Every call of the scanner returns, and leaves it usable.
use slow_scanner.Prelude.{
  ℕ, ◌+◌, ◌≡◌, refl, sym, subst, Option, none, some, List, map, All, All-map, arith,
}
use slow_scanner.World.{Os, World, ◌>>=◌}
use slow_scanner.Scan.{Scan}
use slow_scanner.Compare.{FloatFormat, element_size, make_comparator}
use slow_scanner.Scanner.First.{element_size_positive}
use slow_scanner.Scanner.Ordered.{ScanChain-le}
use slow_scanner.Scanner.Threads.{first_scan_threads}
use slow_scanner.Scanner.Threads.Result.{ThreadsScanned, first_scan_threads-ThreadsScanned}
use slow_scanner.Scanner.Next.{next_scan}
use slow_scanner.Scanner.Next.Outcome.{NextScanned, next_scan-NextScanned}
use slow_scanner.Scanner.Next.Chained.{Chained, next_scan-Chained}
use slow_scanner.Session.Places.{get_regions-HasPlace}
use slow_scanner.Scanner.Next.Reads.{HasSnapshot}
use slow_scanner.Session.Snapshots.{IsSnapshot-HasSnapshot, IsSnapshot, Each-IsSnapshot}
use slow_scanner.Session.Matches.{Matched-IsSnapshot}
use slow_scanner.Session.{
  SlowScanner, get_instance, Request, Command, attach, first, next, Session, carry_out, perform,
}
use slow_scanner.Session.Kept.{
  Serves, IsRange, bytes_of, IsValid, Fits, FairFor, Usable, Kept, Performed, Got, get_instance-Got,
}

module _ (os : Os) (f32 f64 : FloatFormat) (this : SlowScanner) (spent : ℕ) (scans : List Scan)
    (w : World) (u : Usable os this spent scans w) where
  first-Performed :
      (q : Request) (turns : List ℕ) (o : Option (List Scan × World))
      → Serves os
      → IsRange q.range
      → first_scan_threads os f32 f64 turns this.process_handle q.range q.protect q.kind q.elem
          q.raw1 q.raw2 w
        ≡ o
      → ThreadsScanned os f32 f64 turns this.process_handle q.range q.protect q.kind q.elem q.raw1
          q.raw2 w o
      → Performed os
          (spent + bytes_of (first q turns))
          (carry_out os f32 f64 (first q turns) scans this w)
  unfolding carry_out
  first-Performed q turns none serves valid e h = absurd h
  first-Performed q turns (some (found, w')) serves valid e h =
      rw (e, ◌>>=◌)
        (record {
          mapped = h.mapped;
          lean = h.lean;
          written = omega (arith, h.bytes, u.written);
          chained = ScanChain-le 0 q.range.first found (omega arith) h.chained;
          snapshots = subst (All (IsSnapshot os w'.cells w'.file.offset)) (sym h.kept) (
              Each-IsSnapshot os (make_comparator f32 f64 q.kind q.elem) q.raw1 q.raw2 q.kind
                (element_size q.elem) this.process_handle (element_size_positive q.elem) w'.cells
                w'.file.offset (map (λ r. r.info) h.listing) h.ran
                (get_regions-HasPlace os this.process_handle q.range q.protect serves.pages
                  valid.start valid.low w h.listed_at h.listing h.listed)
                h.each);
          eight = u.eight;
        })

  next-Performed :
      (q : Request) (o : Option (List Scan × World))
      → Serves os
      → IsRange q.range
      → next_scan os f32 f64 this.process_handle q.range q.protect q.kind q.elem scans q.raw1 q.raw2
          w
        ≡ o
      → NextScanned os f32 f64 this.process_handle q.range q.protect q.kind q.elem scans q.raw1
          q.raw2 w o
      → Chained os f32 f64 this.process_handle q.range q.protect q.kind q.elem scans q.raw1 q.raw2 w
          o
      → Performed os (spent + bytes_of (next q)) (carry_out os f32 f64 (next q) scans this w)
  unfolding carry_out
  next-Performed q none serves valid e h c = absurd h
  next-Performed q (some (found, w')) serves valid e h c =
      rw (e, ◌>>=◌)
        (record {
          mapped = h.4;
          lean = h.5;
          written = omega (arith, h.3, u.written);
          chained = ScanChain-le 0 q.range.first found (omega arith) c;
          snapshots =
              All-map _ (IsSnapshot os w'.cells w'.file.offset) found
                (λ s m.
                  Matched-IsSnapshot os (make_comparator f32 f64 q.kind q.elem) q.raw1 q.raw2 q.kind
                    q.elem this.process_handle q.range q.protect scans serves.pages valid.start
                    valid.low w.cells w.file.offset u.snapshots w' s m)
                h.0;
          eight = u.eight;
        })

  carry_out-Performed :
      (c : Command)
      → Serves os
      → IsValid c
      → FairFor os c (some (this, w))
      → Fits (spent + bytes_of c)
      → Performed os (spent + bytes_of c) (carry_out os f32 f64 c scans this w)
  carry_out-Performed (attach handle) serves valid fair fits =
      unfold carry_out in
      record {
        mapped = u.mapped;
        lean = u.lean;
        written = omega (arith, u.written);
        chained = u.chained;
        snapshots = u.snapshots;
        eight = u.eight;
      }
  carry_out-Performed (first q turns) serves valid fair fits =
      first-Performed q turns
        (first_scan_threads os f32 f64 turns this.process_handle q.range q.protect q.kind q.elem
          q.raw1 q.raw2 w)
        serves valid refl
        (first_scan_threads-ThreadsScanned os f32 f64 turns this.process_handle q.range q.protect
          q.kind q.elem q.raw1 q.raw2 w serves.exact serves.grow serves.can serves.pages
          serves.short fair valid.start valid.order (omega (arith, valid.low)) u.mapped u.lean
          (omega (arith, fits, u.written)))
  carry_out-Performed (next q) serves valid fair fits =
      next-Performed q
        (next_scan os f32 f64 this.process_handle q.range q.protect q.kind q.elem scans q.raw1
          q.raw2 w)
        serves valid refl
        (next_scan-NextScanned os f32 f64 this.process_handle q.range q.protect q.kind q.elem scans
          q.raw1 q.raw2 w serves.exact serves.grow serves.short serves.can serves.pages
          (All-map (IsSnapshot os w.cells w.file.offset) HasSnapshot scans
            (IsSnapshot-HasSnapshot os w.cells w.file.offset) u.snapshots)
          valid.start valid.order (omega (arith, valid.low)) u.mapped u.lean
          (omega (arith, fits, u.written)))
        (next_scan-Chained os f32 f64 this.process_handle q.range q.protect q.kind q.elem scans
          q.raw1 q.raw2 w serves.pages valid.start valid.order (omega (arith, valid.low)))

module _ (os : Os) (f32 f64 : FloatFormat) (serves : Serves os) (c : Command) (spent : ℕ)
    (s : Session) (w : World) where
  Got-Performed :
      (o : Option (SlowScanner × World))
      → get_instance os s.instance w ≡ o
      → Got os spent s.scans o
      → IsValid c
      → FairFor os c o
      → Fits (spent + bytes_of c)
      → Performed os (spent + bytes_of c) (perform os f32 f64 c s w)
  unfolding perform
  Got-Performed none e h valid fair fits = absurd h
  Got-Performed (some (this, w')) e h valid fair fits =
      rw (e, ◌>>=◌)
        (carry_out-Performed os f32 f64 this spent s.scans w' h c serves valid fair fits)

  pub perform-Performed :
      Kept os spent s w
      → IsValid c
      → FairFor os c (get_instance os s.instance w)
      → Fits (spent + bytes_of c)
      → Performed os (spent + bytes_of c) (perform os f32 f64 c s w)
  perform-Performed kept valid fair fits =
      Got-Performed (get_instance os s.instance w) refl
        (get_instance-Got os serves s.instance spent s.scans w kept) valid fair fits
