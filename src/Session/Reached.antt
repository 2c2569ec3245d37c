-- ===== src/Session/Reached.antt =====
-- The states that a program reaches by calls of the scanner.
use slow_scanner.Prelude.{ℕ, ◌+◌, ◌≡◌, refl, sym, subst, Option, none, some, List, [], arith}
use slow_scanner.World.{Os, World}
use slow_scanner.Scan.{Scan}
use slow_scanner.Compare.{FloatFormat}
use slow_scanner.Scanner.Ordered.{ScanChain}
use slow_scanner.Scanner.Next.{next_scan}
use slow_scanner.Session.{SlowScanner, get_instance, Request, Command, Session, perform}
use slow_scanner.Session.Kept.{
  Serves, IsRange, bytes_of, IsValid, Fits, FairFor, UsableIf, Kept, Performed,
}
use slow_scanner.Session.Calls.{perform-Performed}
use slow_scanner.Session.Search.{search_scan, next_scan-search_scan}

-- A program begins without an instance and without scans, and makes one call after another. The
-- number is how many bytes its calls may have written.
pub data Reached (os : Os) (f32 f64 : FloatFormat) : ℕ → Session → World → Type 0 where
  begun : (w : World) → Reached os f32 f64 0 (record { instance = none; scans = [] }) w
  performed :
      (c : Command) (spent : ℕ) (s s' : Session) (w w' : World)
      → Reached os f32 f64 spent s w
      → IsValid c
      → FairFor os c (get_instance os s.instance w)
      → perform os f32 f64 c s w ≡ some (s', w')
      → Reached os f32 f64 (spent + bytes_of c) s' w'

UsableIf-ScanChain :
    (os : Os) (instance : Option SlowScanner) (spent : ℕ) (scans : List Scan) (w : World)
    → UsableIf os instance spent scans w
    → ScanChain 0 scans
UsableIf-ScanChain os none spent scans w h = subst (ScanChain 0) (sym h) tt
UsableIf-ScanChain os (some this) spent scans w u = u.chained

module _ (os : Os) (f32 f64 : FloatFormat) (serves : Serves os) where
  -- In every state that is reached by a program that begins without an instance and makes calls
  -- with ranges that start at a page and end at or below 2 ^ 47, and with fair turns, on a system
  -- whose calls succeed as in `Serves`, as long as all these ranges together fit into the file: if
  -- there is an instance, its file is mapped as far as it reaches and at most four times its data
  -- and a page, no more has been written than the ranges are long, its pool is the one of the
  -- constructor, and the scans that the program holds are valid and lie in order. Each still has in
  -- the file what `ReadProcessMemory` answered when its region was read, whatever has been attached
  -- to or scanned since, and each of its results is an element of the region, with the value that
  -- the element has there. Without an instance there are no scans.
  pub Reached-Kept :
      {spent : ℕ} {s : Session} {w : World}
      → Reached os f32 f64 spent s w
      → Fits spent
      → Kept os spent s w
  Reached-Kept (begun w) fits = refl
  Reached-Kept (performed c spent s s' w w' before valid fair e) fits =
      subst (Performed os (spent + bytes_of c)) e (
        perform-Performed os f32 f64 serves c spent s w (Reached-Kept before (omega (arith, fits)))
          valid fair fits)

  -- In every state that is reached by a program that begins without an instance and makes calls
  -- with ranges that start at a page and end at or below 2 ^ 47, and with fair turns, on a system
  -- whose calls succeed as in `Serves`, as long as all these ranges together fit into the file,
  -- each further such call returns, the first of them constructing the scanner, and again the file
  -- is mapped as far as it reaches and the scans that the program holds are valid snapshots in
  -- order, as in `Kept`.
  pub perform-Reached :
      (c : Command) {spent : ℕ} {s : Session} {w : World}
      → Reached os f32 f64 spent s w
      → IsValid c
      → FairFor os c (get_instance os s.instance w)
      → Fits (spent + bytes_of c)
      → Performed os (spent + bytes_of c) (perform os f32 f64 c s w)
  perform-Reached c {spent} {s} {w} reached valid fair fits =
      perform-Performed os f32 f64 serves c spent s w (Reached-Kept reached (omega (arith, fits)))
        valid fair fits

  -- In every state that is reached by a program that begins without an instance and makes calls
  -- with ranges that start at a page and end at or below 2 ^ 47, and with fair turns, on a system
  -- whose calls succeed as in `Serves`, as long as all these ranges together fit into the file,
  -- `next_scan` on the scans that the program holds, with such a range and whatever other
  -- arguments, has the outcome of `search_scan`, which looks all of them through for each region.
  pub Reached-search_scan :
      (q : Request) (handle : ℕ) {spent : ℕ} {s : Session} {w : World}
      → Reached os f32 f64 spent s w
      → Fits spent
      → IsRange q.range
      → next_scan os f32 f64 handle q.range q.protect q.kind q.elem s.scans q.raw1 q.raw2 w
        ≡ search_scan os f32 f64 handle q.range q.protect q.kind q.elem s.scans q.raw1 q.raw2 w
  Reached-search_scan q handle {spent} {s} {w} reached fits range =
      next_scan-search_scan os f32 f64 handle q.range q.protect q.kind q.elem s.scans q.raw1 q.raw2
        w 0 serves.pages range.start range.order (omega (arith, range.low))
        (UsableIf-ScanChain os s.instance spent s.scans w (Reached-Kept reached fits))
