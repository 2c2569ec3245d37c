-- ===== src/File/Reserve.antt =====
-- `reserve` on a file whose mapping is up to date: there is room afterwards, or no mapping was made.
use slow_scanner.Prelude.{
  ℕ, ◌+◌, ◌*◌, ◌%◌, ◌^◌, ◌≤◌, ◌<◌, ◌≡◌, refl, Bool, true, false, Option, none, some, arith, inl,
  inr, Bool-cases, Option-cases, ltb, ltb_iff,
}
use Prim.Native.String.{String}
use slow_scanner.Words.{u64, sub64}
use slow_scanner.World.{View, Sink, ActiveMap, Os, MFile, World, ◌>>=◌}
use slow_scanner.File.{page_size, align, resize, expand_size, do_map, reserve}
use slow_scanner.File.Growth.{align_lem}

-- What mio promises: a sink with data covers the range that was asked for.
abbrev pub MapsExactly : Os → Type 0
MapsExactly os =
    (t : ℕ) (name : String) (offset n : ℕ) (v : View)
    → 0 < n
    → os.make_mmap_sink t name offset n ≡ some v
    → (v.start ≡ offset) × (v.length ≡ n)

-- The disk has room: a file can be given any length.
abbrev pub CanGrow : Os → Type 0
CanGrow os = (t size : ℕ) → (os.set_file_pointer t size ≡ true) × (os.set_end_of_file t size ≡ true)

-- Some mapping that was asked for was not made.
abbrev pub MapFailed : Os → Type 0
MapFailed os =
    (t : ℕ) × (name : String) × (offset : ℕ) × (n : ℕ) × (0 < n)
    × (os.make_mmap_sink t name offset n ≡ none)

-- The file is at most four times as long as what has been written to it, and a page.
abbrev pub IsLean : MFile → Type 0
IsLean f = f.size ≤ 4 * f.offset + page_size

-- There is room for `n` more bytes below 2 ^ 64, whatever the growth.
abbrev pub HasSpace : ℕ → MFile → Type 0
HasSpace n f = 8 * (f.offset + n) + 3 * page_size ≤ 2 ^ 64

-- The current map reaches from its start to the end of the file, and the next byte to write is
-- the same by both counts of the position. A file without a map is empty.
abbrev pub Covers : Option ActiveMap → MFile → Type 0
Covers none f = (f.size ≡ 0) × (f.offset ≡ 0)
Covers (some m) f =
    (v : View) × (m.map ≡ some v)
    × (v.start + f.map_offset ≡ f.offset)
    × (v.start + v.length ≡ f.size)

pub record IsMapped (f : MFile) : Type 0 where
  pub open_handle : f.file_handle ≡ true
  pub is_valid : f.valid ≡ true
  pub within : f.offset ≤ f.size
  pub bounded : f.size < 2 ^ 64
  pub covered : Covers f.current_map f

-- There is a map whose view has `n` bytes from the write position on.
abbrev pub Room : ℕ → Option ActiveMap → MFile → Type 0
Room n none f = ⊥
Room n (some m) f =
    (v : View) × (m.map ≡ some v)
    × (v.start + f.map_offset ≡ f.offset)
    × (v.start + v.length ≡ f.size)
    × (f.map_offset + n ≤ v.length)

abbrev pub Reserved : Os → ℕ → World → Option (Bool × World) → Type 0
Reserved os n w none = ⊥
Reserved os n w (some (false, w')) =
    MapFailed os
    × (w'.cells ≡ w.cells)
    × (w'.file.offset ≡ w.file.offset)
    × (w'.file.current_map ≡ w.file.current_map)
Reserved os n w (some (true, w')) =
    (w'.cells ≡ w.cells)
    × (w'.file.offset ≡ w.file.offset)
    × Room n w'.file.current_map w'.file
    × IsMapped w'.file
    × (w'.file.size ≤ 4 * (w.file.offset + n) + page_size)

Room-kept :
    (n : ℕ) (o : Option ActiveMap) (f : MFile)
    → 0 < n
    → Covers o f
    → f.offset + n ≤ f.size
    → Room n o f
Room-kept n none f pos h fits = omega arith
Room-kept n (some m) f pos (v, e, at, end) fits = (v, e, at, end, omega arith)

-- The state after `expand_size` has succeeded.
abbrev pub enlarged : ℕ → World → World
enlarged n w = record w {
  file = record w.file { size = align ((w.file.size + n) * 2) };
  clock = w.clock + 1 + 1;
}

pub expand_size-true :
    (os : Os) (n : ℕ) (w : World)
    → CanGrow os
    → IsMapped w.file
    → (w.file.size + n) * 2 + page_size ≤ 2 ^ 64
    → expand_size os n w ≡ some (true, enlarged n w)
unfolding expand_size resize
expand_size-true os n w grow inv small = ground (
  arith,
  grow w.clock (align ((w.file.size + n) * 2)),
  grow (w.clock + 1) (align ((w.file.size + n) * 2)),
)

module _ (os : Os) (n : ℕ) (w : World) (exact : MapsExactly os) (inv : IsMapped w.file)
    (pos : 0 < n) (lean : IsLean w.file) (space : HasSpace n w.file) where
  small : (w.file.size + n) * 2 + page_size ≤ 2 ^ 64
  small = omega arith

  abbrev new_size : ℕ
  new_size = align ((w.file.size + n) * 2)

  -- A view of the rest of the grown file has room for `n` bytes.
  Room-enlarged :
      (t : ℕ) (v : View)
      → os.make_mmap_sink t w.file.filename w.file.offset (sub64 new_size w.file.offset) ≡ some v
      → (v.start + 0 ≡ w.file.offset)
        × (v.start + v.length ≡ new_size)
        × (0 + n ≤ v.length)
        × (w.file.offset ≤ new_size)
        × (new_size < 2 ^ 64)
  Room-enlarged t v e = omega (
    arith,
    inv.within,
    big.0,
    big.1,
    exact t w.file.filename w.file.offset (sub64 new_size w.file.offset) v
        (omega (arith, big.0, big.1, inv.within)) e,
  )
    where
      big :
          ((w.file.size + n) * 2 ≤ new_size)
          × (new_size < (w.file.size + n) * 2 + page_size)
          × (new_size % page_size ≡ 0)
      big = align_lem ((w.file.size + n) * 2) small

  reserve_grown :
      CanGrow os
      → ltb w.file.size (u64 (w.file.offset + n)) ≡ true
      → Reserved os n w (reserve os n w)
  unfolding reserve do_map
  reserve_grown grow full =
      rw (full, expand_size-true os n w grow inv small, ◌>>=◌)
        (elim (Option-cases sink) [
          | inl e ↦ rw e (
            (_, w.file.filename, w.file.offset, sub64 new_size w.file.offset, more, e),
            refl,
            refl,
            refl,
          )
          | inr (v, e) ↦
              let room = Room-enlarged _ v e in
              rw e (
                refl,
                refl,
                (v, e, room.0, room.1, room.2),
                record {
                  open_handle = inv.open_handle;
                  is_valid = inv.is_valid;
                  within = room.3;
                  bounded = room.4;
                  covered = (v, e, room.0, room.1);
                },
                grown_lean,
              )
        ])
    where
      big :
          ((w.file.size + n) * 2 ≤ new_size)
          × (new_size < (w.file.size + n) * 2 + page_size)
          × (new_size % page_size ≡ 0)
      big = align_lem ((w.file.size + n) * 2) small

      more : 0 < sub64 new_size w.file.offset
      more = omega (arith, big.0, big.1, inv.within)

      grown_lean : new_size ≤ 4 * (w.file.offset + n) + page_size
      grown_lean = omega (arith, big.1, (ltb_iff w.file.size (u64 (w.file.offset + n))).0 full)

      sink : Sink
      sink =
          os.make_mmap_sink (w.clock + 1 + 1 + 1) w.file.filename w.file.offset
            (sub64 new_size w.file.offset)

  pub reserve-Reserved : CanGrow os → Reserved os n w (reserve os n w)
  unfolding reserve
  reserve-Reserved grow = elim (Bool-cases (ltb w.file.size (u64 (w.file.offset + n)))) [
    | inl full ↦ reserve_grown grow full
    | inr fits ↦ rw fits (
      refl,
      refl,
      Room-kept n w.file.current_map w.file pos inv.covered (ground (arith, inv.within)),
      inv,
      omega arith,
    )
  ]
