-- ===== src/Session.antt =====
-- The object of class `slow_scanner` of slow_scanner.h, the one instance of it that singleton.hpp
-- hands out, and the calls that a program makes of it, one after another.
pub mod Search
pub mod Places
pub mod Snapshots
pub mod Matches
pub mod Kept
pub mod Calls
pub mod Steady
pub mod Leftover
pub mod Reached
use slow_scanner.Prelude.{ℕ, ◌+◌, ◌-◌, ◌^◌, Option, none, some, List, []}
use slow_scanner.World.{Os, World, M, pure, ◌>>=◌, ◌>>◌}
use slow_scanner.File.{open_file}
use slow_scanner.Pool.{Pool, new_pool}
use slow_scanner.Scan.{Scan, ScanType}
use slow_scanner.Compare.{ElementType, FloatFormat}
use slow_scanner.Scanner.{AddressRange}
use slow_scanner.Scanner.Threads.{first_scan_threads}
use slow_scanner.Scanner.Next.{next_scan}

-- The members, but for `_file`, which is the file of the `World`.
pub record SlowScanner : Type 0 where
  pub process_handle : ℕ
  pub pool : Pool

-- The constructor. The handle is -1, as a 32-bit `long`, until there is a process.
unfoldable pub construct_scanner : Os → M SlowScanner
construct_scanner os = do
  open_file os "dump.bin"
  pure (record { process_handle = 2 ^ 32 - 1; pool = new_pool 8 })

-- `singleton::get_instance`, for what is stored in its static variable.
unfoldable pub get_instance : Os → Option SlowScanner → M SlowScanner
get_instance os none = construct_scanner os
get_instance os (some instance) = pure instance

-- `attach_to`
abbrev pub attach_to : ℕ → SlowScanner → SlowScanner
attach_to handle this = record this { process_handle = handle }

-- The arguments that both scans have.
pub record Request : Type 0 where
  pub range : AddressRange
  pub protect : ℕ
  pub kind : ScanType
  pub elem : ElementType
  pub raw1 : ℕ
  pub raw2 : Option ℕ

-- A call of one of the three public methods. The first scan comes with the order of its tasks' steps.
pub data Command : Type 0 where
  attach : ℕ → Command
  first : Request → List ℕ → Command
  next : Request → Command

-- The static variable, and the caller's vector of scans.
pub record Session : Type 0 where
  pub instance : Option SlowScanner
  pub scans : List Scan

-- A first scan waits for the futures of all its tasks, so the pool is at rest before and after a call.
-- What it does during one is `turns`, an order of steps; `Scanner.Threads.Runs` says which orders the
-- pool comes to.
unfoldable pub carry_out :
    Os → FloatFormat → FloatFormat → Command → List Scan → SlowScanner → M Session
carry_out os f32 f64 (attach handle) scans this =
    pure (record { instance = some (attach_to handle this); scans = scans })
carry_out os f32 f64 (first q turns) scans this = do
  found ←
      first_scan_threads os f32 f64 turns this.process_handle q.range q.protect q.kind q.elem q.raw1
        q.raw2
  pure (record { instance = some this; scans = found })
carry_out os f32 f64 (next q) scans this = do
  found ←
      next_scan os f32 f64 this.process_handle q.range q.protect q.kind q.elem scans q.raw1 q.raw2
  pure (record { instance = some this; scans = found })

-- A call, through `get_instance`.
unfoldable pub perform : Os → FloatFormat → FloatFormat → Command → Session → M Session
perform os f32 f64 c s = do this ← get_instance os s.instance; carry_out os f32 f64 c s.scans this
