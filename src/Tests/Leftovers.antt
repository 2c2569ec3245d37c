-- ===== src/Tests/Leftovers.antt =====
-- Examples for calls that fail.
use slow_scanner.Prelude.{◌≡◌, refl, none, some, [], arith}
use slow_scanner.World.{Os, World, ◌>>=◌}
use slow_scanner.Region.{read_memory}
use slow_scanner.Session.{SlowScanner, construct_scanner, carry_out}
use slow_scanner.Pool.{new_pool}
use slow_scanner.Session.Steady.{Unchanged, carry_out-Unchanged}
use slow_scanner.Session.Leftover.{construct_scanner-leftover}
use slow_scanner.Tests.Setting.{good_os, new_file, used_file, world_of, whole}
use slow_scanner.Tests.Sessions.{scan_eight, eight_region}

carry_out-Unchanged_example : Unchanged (world_of used_file) (
    carry_out good_os whole whole scan_eight []
      (record { process_handle = 7; pool = new_pool 8 })
      (world_of used_file))
carry_out-Unchanged_example =
    carry_out-Unchanged good_os whole whole scan_eight []
      (record { process_handle = 7; pool = new_pool 8 }) (world_of used_file) (omega arith)

-- A dump file of a page is still there.
abbrev leftover_os : Os
leftover_os = record good_os { get_file_size = λ t. some 4096 }

construct_scanner-leftover_example :
    ((this : SlowScanner) × (w' : World) × (construct_scanner leftover_os (world_of new_file)
        ≡ some (this, w')))
    × ((construct_scanner leftover_os >>= λ this. read_memory leftover_os eight_region)
          (world_of new_file)
        ≡ none)
construct_scanner-leftover_example =
    construct_scanner-leftover leftover_os 4096 (world_of new_file) eight_region (omega arith) refl
      refl refl (omega arith)
