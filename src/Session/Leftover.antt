-- ===== src/Session/Leftover.antt =====
-- The scanner over a dump file that `DeleteFileA` could not delete.
use slow_scanner.Prelude.{
  ℕ, ◌+◌, ◌-◌, ◌*◌, ◌^◌, ◌≤◌, ◌<◌, ◌≡◌, refl, ap, ◌∙◌, Bool, true, false, Option, none, some, List,
  arith, if◌then◌else◌,
}
use slow_scanner.Words.{u64}
use slow_scanner.World.{Os, World, ◌>>=◌}
use slow_scanner.File.{open_file, measured_file, write}
use slow_scanner.File.Failures.{write_kept, put_active-Short}
use slow_scanner.Dump.{Dumpable, write_data, dump, alloc_f}
use slow_scanner.Region.{Region, size, fetch, read_memory}
use slow_scanner.Region.Fetch.{new_read}
use slow_scanner.Pool.{new_pool}
use slow_scanner.Session.{SlowScanner, construct_scanner}

abbrev fresh_scanner : SlowScanner
fresh_scanner = record { process_handle = 2 ^ 32 - 1; pool = new_pool 8 }

abbrev opened_on : ℕ → World → World
opened_on n w = record w { file = measured_file "dump.bin" (some n); clock = w.clock + 1 + 1 }

module _ (os : Os) (n : ℕ) (w : World) (small : n < 2 ^ 64) where
  construct_leftover :
      os.create_file w.clock "dump.bin" ≡ true
      → os.get_file_size (w.clock + 1) ≡ some n
      → construct_scanner os w ≡ some (fresh_scanner, opened_on n w)
  unfolding construct_scanner open_file
  construct_leftover created sized = rw (◌>>=◌, created, sized) refl

  write_leftover :
      (buffer : Option (List ℕ)) (k : ℕ) → k ≤ n → write os buffer k (opened_on n w) ≡ none
  write_leftover buffer k fits =
      write_kept os buffer k (opened_on n w) (omega arith) small
      ∙ put_active-Short buffer k none (opened_on n w) tt

  alloc_leftover : (k : ℕ) (d : Dumpable) → k ≤ n → alloc_f os k d (opened_on n w) ≡ none
  unfolding alloc_f dump write_data
  alloc_leftover k d fits =
      let whole : u64 (k * 1) ≡ k = omega arith in
      rw (◌>>=◌, whole, write_leftover none k fits) refl

  read_leftover :
      (r : Region) → r.mem_reserved ≡ false → size r ≤ n → read_memory os r (opened_on n w) ≡ none
  unfolding read_memory
  read_leftover r new fits =
      ap (λ (b : Bool). (if b then fetch os r else new_read os r) (opened_on n w)) new
      ∙ rw (◌>>=◌, alloc_leftover (size r) r.dumped fits) refl

-- If the dump file could not be deleted, since another program has it open, and opens with the size
-- `n`, then the scanner is constructed as if nothing had happened, and the first region of at most `n`
-- bytes that is then read follows a null pointer: it is a fault.
pub construct_scanner-leftover :
    (os : Os) (n : ℕ) (w : World) (r : Region)
    → n < 2 ^ 64
    → os.create_file w.clock "dump.bin" ≡ true
    → os.get_file_size (w.clock + 1) ≡ some n
    → r.mem_reserved ≡ false
    → size r ≤ n
    → ((this : SlowScanner) × (w' : World) × (construct_scanner os w ≡ some (this, w')))
      × ((construct_scanner os >>= λ this. read_memory os r) w ≡ none)
construct_scanner-leftover os n w r small created sized new fits =
    let made = construct_leftover os n w small created sized in
    ((fresh_scanner, opened_on n w, made), rw (◌>>=◌, made) (read_leftover os n w small r new fits))
