-- ===== src/File/Failures.antt =====
-- What `m_file::write` does after a call into the system has failed, and on a file that was opened
-- with a size: its later writes leave the mapping.
use slow_scanner.Prelude.{
  ℕ, ◌+◌, ◌*◌, ◌^◌, ◌≤◌, ◌<◌, ◌≡◌, refl, true, Option, none, some, arith, List, lt→ltb, ◌∙◌,
}
use Prim.Native.String.{String}
use slow_scanner.Words.{u64, sub64}
use slow_scanner.World.{View, Sink, ActiveMap, Os, MFile, World, ◌>>=◌}
use slow_scanner.File.{
  page_size, align, resize, do_map, reserve, put_bytes, put_sink, put_active, write, open_file,
  open_sized,
}
use slow_scanner.File.Growth.{align_lem}
use slow_scanner.File.Reserve.{CanGrow, IsMapped, Covers, enlarged, expand_size-true}

-- The current map has fewer than `n` bytes from the write position on, or there is none.
abbrev pub Short : ℕ → Option ActiveMap → MFile → Type 0
Short n none f = Unit {0}
Short n (some m) f = (v : View) × (m.map ≡ some v) × (v.length < f.map_offset + n)

pub put_active-Short :
    (buffer : Option (List ℕ)) (n : ℕ) (o : Option ActiveMap) (w : World)
    → Short n o w.file
    → put_active buffer n o w ≡ none
unfolding put_active put_sink
put_active-Short buffer n none w h = refl
put_active-Short buffer n (some m) w (v, mapped, short) = via m.map mapped
  where
    past : put_bytes buffer n v w ≡ none
    past = unfold put_bytes in ground arith

    via : (sink : Sink) → sink ≡ some v → put_sink buffer n m sink w ≡ none
    via sink e = rw (e, put_sink, ◌>>=◌, past)

-- A write that needs no more room by `_size` goes through the current map as it is.
pub write_kept :
    (os : Os) (buffer : Option (List ℕ)) (n : ℕ) (w : World)
    → w.file.offset + n ≤ w.file.size
    → w.file.size < 2 ^ 64
    → write os buffer n w ≡ put_active buffer n w.file.current_map w
unfolding write reserve
write_kept os buffer n w fits bounded = ground arith

-- The state after a `write` whose mapping failed.
abbrev unmapped : ℕ → World → World
unmapped n w = record (enlarged n w) { clock = w.clock + 1 + 1 + 1 + 1 }

Short-unmapped :
    (n m : ℕ) (o : Option ActiveMap) (f : MFile)
    → Covers o f
    → f.size < f.offset + m
    → Short m o (record f { size = align ((f.size + n) * 2) })
Short-unmapped n m none f h over = tt
Short-unmapped n m (some a) f (v, mapped, here, end) over =
    (v, mapped, omega (arith, here, end, over))

module _ (os : Os) (first second : Option (List ℕ)) (n m : ℕ) (w : World) (grow : CanGrow os)
    (inv : IsMapped w.file) (small : (w.file.size + n) * 2 + page_size ≤ 2 ^ 64)
    (full : w.file.size < w.file.offset + n) where
  unmapped_lem :
      os.make_mmap_sink
          (w.clock + 1 + 1 + 1)
          w.file.filename
          w.file.offset
          (sub64 (align ((w.file.size + n) * 2)) w.file.offset)
        ≡ none
      → write os first n w ≡ some ((none, none), unmapped n w)
  unfolding write reserve do_map
  unmapped_lem failed =
      rw
        (
          lt→ltb w.file.size (u64 (w.file.offset + n)) (omega (arith, inv.within)),
          ◌>>=◌,
          expand_size-true os n w grow inv small,
          failed,
        )
        refl

  -- On a file whose map is up to date, a `write` that needs more room, and gets the room but no
  -- mapping, returns null; the file's size has become the larger one, and its map and its write
  -- position are the old ones. The next `write`
  -- that fits the new size and not the old one goes on with the old mapping, and leaves it, or
  -- follows a null pointer: it is a fault.
  pub write_after_failed_map :
      os.make_mmap_sink
          (w.clock + 1 + 1 + 1)
          w.file.filename
          w.file.offset
          (sub64 (align ((w.file.size + n) * 2)) w.file.offset)
        ≡ none
      → w.file.size < w.file.offset + m
      → w.file.offset + m ≤ align ((w.file.size + n) * 2)
      → (w' : World) × (write os first n w ≡ some ((none, none), w'))
        × (w'.file.size ≡ align ((w.file.size + n) * 2))
        × (w'.file.current_map ≡ w.file.current_map)
        × (w'.file.offset ≡ w.file.offset)
        × (write os second m w' ≡ none)
  write_after_failed_map failed over fits = (
    unmapped n w,
    unmapped_lem failed,
    refl,
    refl,
    refl,
    write_kept os second m (unmapped n w) fits
          (omega (arith, align_lem ((w.file.size + n) * 2) small))
        ∙ put_active-Short second m w.file.current_map (unmapped n w)
            (Short-unmapped n m w.file.current_map w.file inv.covered over),
  )

open_sized_lem :
    (os : Os) (name : String) (size : ℕ) (w w' : World)
    → open_sized os name size w ≡ some (tt, w')
    → w'.file.valid ≡ true
    → (w'.file.offset ≡ 0) × (w'.file.current_map ≡ none) × (w'.file.size ≡ align size)
unfolding open_sized open_file resize
open_sized_lem os name size w w' opened ready = ground arith

-- If a file is opened with a size and is valid, its first `write` that fits that size follows a
-- null pointer: it is a fault.
pub open_sized_then_write :
    (os : Os) (name : String) (size n : ℕ) (buffer : Option (List ℕ)) (w w' : World)
    → size + page_size ≤ 2 ^ 64
    → open_sized os name size w ≡ some (tt, w')
    → w'.file.valid ≡ true
    → n ≤ size
    → write os buffer n w' ≡ none
open_sized_then_write os name size n buffer w w' small opened ready fits =
    let f = open_sized_lem os name size w w' opened ready in
    let a = align_lem size small in
    write_kept os buffer n w' (omega arith) (omega arith)
    ∙ put_active-Short buffer n w'.file.current_map w' (rw (f.1) tt)
