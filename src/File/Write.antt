-- ===== src/File/Write.antt =====
-- `m_file::write` on a file whose mapping is up to date: where the bytes go, and what they displace.
use slow_scanner.Prelude.{
  ℕ, ◌+◌, ◌*◌, ◌≤◌, ◌<◌, ◌≡◌, refl, Bool, true, false, Option, none, some, arith, List, length,
  length-replicate, length-take, ◌∙◌, sym, ap,
}
use slow_scanner.Words.{u64}
use slow_scanner.World.{View, Sink, ActiveMap, Os, World, blit, ◌>>=◌}
use slow_scanner.File.{page_size, reserve, put_bytes, put_sink, put_active, source_bytes, write}
use slow_scanner.File.Reserve.{
  MapsExactly, CanGrow, MapFailed, IsLean, HasSpace, IsMapped, Room, Reserved, reserve-Reserved,
}

-- A map with a view that contains the `n` bytes from the file position `p` on.
abbrev pub Holds : Option ActiveMap → ℕ → ℕ → Type 0
Holds none p n = ⊥
Holds (some m) p n = (v : View) × (m.map ≡ some v) × (v.start ≤ p) × (p + n ≤ v.start + v.length)

-- A buffer that is not null has the bytes that are to be written.
abbrev pub Supplies : ℕ → Option (List ℕ) → Type 0
Supplies n none = Unit {0}
Supplies n (some buffer) = n ≤ length buffer

-- What a `write` may do: hand out the bytes at the write position, all inside the view of the map
-- that it returns, or report that no mapping could be made and change no byte.
abbrev pub Written :
    Os → Option (List ℕ) → ℕ → World → Option ((Option ℕ × Option ActiveMap) × World) → Type 0
Written os buffer n w none = ⊥
Written os buffer n w (some ((none, active), w')) =
    (active ≡ none)
    × MapFailed os
    × (w'.cells ≡ w.cells)
    × (w'.file.offset ≡ w.file.offset)
    × (w'.file.current_map ≡ w.file.current_map)
Written os buffer n w (some ((some p, active), w')) =
    (p ≡ w.file.offset)
    × (w'.file.offset ≡ w.file.offset + n)
    × (w'.cells ≡ blit w.cells p (source_bytes buffer n))
    × (active ≡ w'.file.current_map)
    × Holds active p n
    × IsMapped w'.file
    × IsLean w'.file

pub put_bytes_lem :
    (buffer : Option (List ℕ)) (n : ℕ) (v : View) (w : World)
    → length (source_bytes buffer n) ≡ n
    → w.file.map_offset + n ≤ v.length
    → put_bytes buffer n v w
      ≡ some (
        v.start + w.file.map_offset,
        record w {
          cells = blit w.cells (v.start + w.file.map_offset) (source_bytes buffer n);
          file = record w.file {
            map_offset = u64 (w.file.map_offset + n);
            offset = u64 (w.file.offset + n);
          };
        },
      )
unfolding put_bytes
put_bytes_lem buffer n v w len fits = ground arith

length-source_bytes :
    (n : ℕ) (buffer : Option (List ℕ)) → Supplies n buffer → length (source_bytes buffer n) ≡ n
length-source_bytes n none h = length-replicate n 0
length-source_bytes n (some b) h = length-take n b h

-- The part after `reserve`, for a map with room.
put_active-Written :
    (os : Os) (buffer : Option (List ℕ)) (n : ℕ) (o : Option ActiveMap) (w w' : World)
    → Supplies n buffer
    → w'.file.current_map ≡ o
    → Room n o w'.file
    → w'.cells ≡ w.cells
    → w'.file.offset ≡ w.file.offset
    → IsMapped w'.file
    → w'.file.size ≤ 4 * (w.file.offset + n) + page_size
    → Written os buffer n w (put_active buffer n o w')
unfolding put_active put_sink
put_active-Written os buffer n none w w' s c room cells at inv lean = absurd room
put_active-Written os buffer n (some m) w w' s c (v, mapped, here, end, fits) cells at inv lean =
    via m.map mapped
  where
    pos : v.start + w'.file.map_offset ≡ w.file.offset
    pos = here ∙ at

    via : (sink : Sink) → sink ≡ some v → Written os buffer n w (put_sink buffer n m sink w')
    via sink e =
        rw (e, put_sink, ◌>>=◌, put_bytes_lem buffer n v w' (length-source_bytes n buffer s) fits)
          (
            pos,
            omega (arith, here, at, end, fits, inv.bounded),
            ap (λ (c : ℕ → ℕ). blit c (v.start + w'.file.map_offset) (source_bytes buffer n)) cells,
            sym c,
            (v, mapped, omega arith, omega (arith, fits)),
            record {
              open_handle = inv.open_handle;
              is_valid = inv.is_valid;
              within = omega (arith, here, end, fits, inv.bounded);
              bounded = inv.bounded;
              covered = rw c (v, mapped, omega (arith, here, end, fits, inv.bounded), end);
            },
            omega (arith, here, at, end, fits, inv.bounded),
          )

module _ (os : Os) (buffer : Option (List ℕ)) (n : ℕ) (w : World)
    (supplied : Supplies n buffer) where
  write-Reserved :
      (r : Option (Bool × World))
      → reserve os n w ≡ r
      → Reserved os n w r
      → Written os buffer n w (write os buffer n w)
  unfolding write
  write-Reserved none e h = absurd h
  write-Reserved (some (false, w')) e h = rw (e, ◌>>=◌) (refl, h.0, h.1, h.2, h.3)
  write-Reserved (some (true, w')) e h =
      rw (e, ◌>>=◌)
        (put_active-Written os buffer n w'.file.current_map w w' supplied refl h.2 h.0 h.1 h.3 h.4)

-- On a file whose map is up to date and that is at most four times its data and a page, with space
-- below 2 ^ 64 and a disk that has room, `write` of at least one byte never follows a null pointer
-- and never leaves the view of the map it returns. It either hands out the next `n` bytes, which
-- hold the buffer's bytes (zeros for a null buffer) while every other byte stays, and moves the
-- write position by `n`, and the file stays within that bound; or it returns null, a mapping
-- having failed, and changes no byte, nor the position, nor the current map.
pub write-Written :
    (os : Os) (buffer : Option (List ℕ)) (n : ℕ) (w : World)
    → MapsExactly os
    → CanGrow os
    → IsMapped w.file
    → 0 < n
    → IsLean w.file
    → HasSpace n w.file
    → Supplies n buffer
    → Written os buffer n w (write os buffer n w)
write-Written os buffer n w exact grow inv pos lean space s =
    write-Reserved os buffer n w s (reserve os n w) refl
      (reserve-Reserved os n w exact inv pos lean space grow)
