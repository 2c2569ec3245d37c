-- ===== src/Region/Snapshot.antt =====
-- `memory_region::read_memory` on a new region: the snapshot that it takes, and the snapshots that it
-- leaves alone.
use slow_scanner.Prelude.{
  ℕ, zero, suc, ◌+◌, ◌-◌, ◌<◌, ◌≡◌, refl, ap, ◌∙◌, ◌⊎◌, inl, inr, Bool, true, false, Option, none,
  some, List, [], ◌∷◌, arith, get_or, length, leb_iff, replicate, le→ltb, lt→ltb,
}
use slow_scanner.Prelude.Int.{ℤ}
use slow_scanner.Words.{long_to_handle}
use slow_scanner.World.{MemoryInfo, ActiveMap, Os, World, blit, ◌>>=◌}
use slow_scanner.File.Reserve.{MapsExactly, CanGrow, MapFailed, IsLean, HasSpace, IsMapped}
use slow_scanner.File.Write.{Holds}
use slow_scanner.Dump.{Span, Dumpable, empty_dump, insert_active, insert_map, alloc_f}
use slow_scanner.Dump.Spans.{Appended, Dumped, alloc_f-Dumped}
use slow_scanner.Region.Fetch.{ReadsWithin}
use slow_scanner.Region.{Region, new_region, base, size, fetch_into, fetch, read_memory}

-- The region has one span, at what was the write position, inside a view that the region keeps
-- mapped. It holds what `ReadProcessMemory` answered, and zeros behind that.
pub record Captured (os : Os) (r : Region) (w : World) (success : Bool) (r' : Region) (w' : World)
    : Type 0 where
  pub time : ℕ
  pub answer :
      (os.read_process_memory time (long_to_handle r.process_handle) (base r) (size r)).0 ≡ success
  pub keeper : ActiveMap
  pub kept : r'.dumped.maps ≡ keeper ∷ []
  pub holds : Holds (some keeper) w.file.offset (size r)
  pub spans : r'.dumped.spans ≡ (record { position = w.file.offset; size = size r }) ∷ []
  pub info : r'.info ≡ r.info
  pub reserved : r'.mem_reserved ≡ true
  pub content :
      (j : ℕ)
      → j < size r
      → w'.cells (w.file.offset + j)
        ≡ get_or
            (os.read_process_memory time (long_to_handle r.process_handle) (base r) (size r)).1
            j
            0
  pub below : (j : ℕ) → j < w.file.offset → w'.cells j ≡ w.cells j
  pub offset : w'.file.offset ≡ w.file.offset + size r
  pub mapped : IsMapped w'.file
  pub lean : IsLean w'.file

-- A mapping failed: nothing was read, and no byte has changed.
pub record Skipped (os : Os) (r : Region) (w : World) (success : Bool) (r' : Region) (w' : World)
    : Type 0 where
  pub unmapped : MapFailed os
  pub failed : success ≡ false
  pub same : r' ≡ r
  pub cells : w'.cells ≡ w.cells
  pub offset : w'.file.offset ≡ w.file.offset

abbrev pub Snapped : Os → Region → World → Option ((Bool × Region) × World) → Type 0
Snapped os r w none = ⊥
Snapped os r w (some ((success, r'), w')) =
    Skipped os r w success r' w' ⊎ Captured os r w success r' w'

pub get_or-replicate : (n i : ℕ) (a d : ℕ) → i < n → get_or (replicate n a) i d ≡ a
get_or-replicate zero i a d h = absurd (omega arith)
get_or-replicate (suc n) zero a d h = refl
get_or-replicate (suc n) (suc i) a d h = get_or-replicate n i a d (omega arith)

two_writes :
    (c : ℕ → ℕ) (p n : ℕ) (bs : List ℕ) (j : ℕ)
    → j < n
    → blit (blit c p (replicate n 0)) p bs (p + j) ≡ get_or bs j 0
two_writes c p n bs j h =
    let e : p + j - p ≡ j = omega arith in
    rw (le→ltb (p + j) p (omega arith), e, get_or-replicate n j 0 (c (p + j)) h)

keep_active :
    (o : Option ActiveMap) (p n : ℕ)
    → Holds o p n
    → (m : ActiveMap) × (insert_active o [] ≡ m ∷ []) × Holds (some m) p n
unfolding insert_active insert_map
keep_active none p n h = absurd h
keep_active (some m) p n h = (m, refl, h)

module _ (os : Os) (info : MemoryInfo) (handle : ℕ) (w : World) (short : ReadsWithin os) where
  abbrev fresh : Region
  fresh = new_region info handle

  fetch-Captured :
      (d : Dumpable) (w1 : World)
      → Appended none (size fresh) empty_dump w d w1
      → Snapped os fresh w (fetch os (record fresh { dumped = d; mem_reserved = true }) w1)
  unfolding fetch
  fetch-Captured d w1 a = via d.spans a.spans
    where
      keeper :
          (m : ActiveMap) × (insert_active a.active [] ≡ m ∷ [])
          × Holds (some m) w.file.offset (size fresh)
      keeper = keep_active a.active w.file.offset (size fresh) a.holds

      read : Region
      read = record fresh { dumped = d; mem_reserved = true }

      answer : Bool × List ℕ
      answer = os.read_process_memory w1.clock (long_to_handle handle) (base fresh) (size fresh)

      after : ℕ → World
      after p = record w1 { clock = w1.clock + 1; cells = blit w1.cells p answer.1 }

      captured : Captured os fresh w answer.0 read (after w.file.offset)
      captured = record {
        time = w1.clock;
        answer = refl;
        keeper = keeper.0;
        kept = a.kept ∙ keeper.1;
        holds = keeper.2;
        spans = a.spans;
        info = refl;
        reserved = refl;
        content = λ j h. rw (a.cells) (two_writes w.cells w.file.offset (size fresh) answer.1 j h);
        below = λ j h. rw (a.cells, lt→ltb j w.file.offset h);
        offset = a.offset;
        mapped = a.mapped;
        lean = a.lean;
      }

      via :
          (spans : List Span)
          → spans ≡ (record { position = w.file.offset; size = size fresh }) ∷ []
          → Snapped os fresh w (fetch_into os read spans w1)
      via spans e =
          rw
            (
              e,
              fetch_into,
              (leb_iff (length answer.1) (size fresh)).1
                  (short w1.clock (long_to_handle handle) (base fresh) (size fresh)),
            )
            (inr captured)

  read-Dumped :
      (r : Option ((ℤ × Dumpable) × World))
      → alloc_f os (size fresh) empty_dump w ≡ r
      → Dumped os none (size fresh) empty_dump w r
      → Snapped os fresh w (read_memory os fresh w)
  unfolding read_memory
  read-Dumped none e h = absurd h
  read-Dumped (some ((index, d), w1)) e (inl (failed, u)) =
      rw (e, ◌>>=◌, failed)
        (inl (record {
          unmapped = u.unmapped;
          failed = refl;
          same = ap (λ (t : Dumpable). record fresh { dumped = t }) u.same;
          cells = u.cells;
          offset = u.offset;
        }))
  read-Dumped (some ((index, d), w1)) e (inr (found, a)) =
      rw (e, ◌>>=◌, found) (fetch-Captured d w1 a)

-- Reading a new region that is not empty, on a file whose map is up to date and that is at most
-- four times its data and a page, with space below 2 ^ 64 and a disk that has room, where
-- `ReadProcessMemory` writes no more than it is asked for, never writes past its span. Either a mapping failed, and nothing is read or written; or the region's bytes are
-- those that `ReadProcessMemory` gave, and zeros behind them, at a fresh place of the file behind
-- all that was written, whose view the region keeps mapped, and every byte before it is as it was.
pub read_memory-Snapped :
    (os : Os) (info : MemoryInfo) (handle : ℕ) (w : World)
    → MapsExactly os
    → CanGrow os
    → ReadsWithin os
    → IsMapped w.file
    → 0 < info.region_size
    → IsLean w.file
    → HasSpace info.region_size w.file
    → Snapped os (new_region info handle) w (read_memory os (new_region info handle) w)
read_memory-Snapped os info handle w exact grow short inv positive lean space =
    read-Dumped os info handle w short (alloc_f os info.region_size empty_dump w) refl
      (alloc_f-Dumped os info.region_size empty_dump w exact grow inv positive lean space)
