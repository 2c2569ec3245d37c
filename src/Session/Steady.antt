-- ===== src/Session/Steady.antt =====
-- What no call of the scanner changes of the dump file, however the calls on the file and the process
-- fail.
use slow_scanner.Prelude.{ℕ, ◌%◌, ◌≡◌, refl, ap, Option, none, some, List}
use slow_scanner.World.{Os, MFile, World, M, pure}
use slow_scanner.File.{page_size, valid, file_name, file_size}
use slow_scanner.File.Steady.{After, Keeps, Keeps-pure, Keeps-bind, IsSame}
use slow_scanner.Scan.{Scan}
use slow_scanner.Compare.{FloatFormat}
use slow_scanner.Scanner.Threads.{first_scan_threads}
use slow_scanner.Scanner.Next.{next_scan}
use slow_scanner.Session.{SlowScanner, Command, attach, first, next, Session, attach_to, carry_out}
use slow_scanner.Scanner.Threads.Steady.{first_scan_threads-Keeps}
use slow_scanner.Scanner.Next.Steady.{next_scan-Keeps}

module _ (os : Os) (f0 : MFile) where
  abbrev Same : MFile → Type 0
  Same = IsSame f0

  carry_out-Keeps :
      (f32 f64 : FloatFormat) (c : Command) (scans : List Scan) (this : SlowScanner)
      → Keeps Same (carry_out os f32 f64 c scans this)
  unfolding carry_out
  carry_out-Keeps f32 f64 (attach handle) scans this =
      Keeps-pure Same (record { instance = some (attach_to handle this); scans = scans })
  carry_out-Keeps f32 f64 (first q turns) scans this =
      Keeps-bind Same
        (first_scan_threads os f32 f64 turns this.process_handle q.range q.protect q.kind q.elem
          q.raw1 q.raw2)
        (λ found. pure (record { instance = some this; scans = found }))
        (first_scan_threads-Keeps os f0 f32 f64 turns this.process_handle q.range q.protect q.kind
          q.elem q.raw1 q.raw2)
        (λ found. Keeps-pure Same (record { instance = some this; scans = found }))
  carry_out-Keeps f32 f64 (next q) scans this =
      Keeps-bind Same
        (next_scan os f32 f64 this.process_handle q.range q.protect q.kind q.elem scans q.raw1
          q.raw2)
        (λ found. pure (record { instance = some this; scans = found }))
        (next_scan-Keeps os f0 f32 f64 this.process_handle q.range q.protect q.kind q.elem scans
          q.raw1 q.raw2)
        (λ found. Keeps-pure Same (record { instance = some this; scans = found }))

-- What a getter of `m_file` answers.
abbrev pub answer : {A : Type 0} → M A → World → Option A
answer m w = elim (m w) [ none ↦ none | some (a, w') ↦ some a ]

-- After a call, if it returns: `valid` and `file_name` answer as before, the handle is the same, and
-- `size` is a number of whole pages.
abbrev pub Unchanged : World → Option (Session × World) → Type 0
Unchanged w none = Unit {0}
Unchanged w (some (s, w')) =
    (answer valid w' ≡ answer valid w)
    × (answer file_name w' ≡ answer file_name w)
    × (w'.file.file_handle ≡ w.file.file_handle)
    × (n : ℕ) × (answer file_size w' ≡ some n)
    × (n % page_size ≡ 0)

Same-Unchanged :
    (w : World) (o : Option (Session × World)) → After (IsSame w.file) o → Unchanged w o
unfolding valid file_name file_size
Same-Unchanged w none h = tt
Same-Unchanged w (some (s, w')) h =
    (ap some h.validity, ap some h.name, h.handle, w'.file.size, refl, h.pages)

-- A call of `attach_to`, `first_scan` or `next_scan`, with any arguments, with the turns of the tasks
-- in any order, fair or not, and however the calls of Windows and mio answer: if it returns without
-- undefined behaviour, and after no more answers of `VirtualQueryEx` than the range has bytes, the dump
-- file is the same one and as valid as before, and it still has a number of whole pages, if it had.
pub carry_out-Unchanged :
    (os : Os) (f32 f64 : FloatFormat) (c : Command) (scans : List Scan) (this : SlowScanner)
    (w : World)
    → w.file.size % page_size ≡ 0
    → Unchanged w (carry_out os f32 f64 c scans this w)
carry_out-Unchanged os f32 f64 c scans this w pages =
    Same-Unchanged w (carry_out os f32 f64 c scans this w) (
      (carry_out-Keeps os w.file f32 f64 c scans this).run w
        (record { handle = refl; name = refl; validity = refl; pages = pages }))
