-- ===== src/File/Growth.antt =====
-- How the dump file grows: the arithmetic of `expand_size`, and what it leaves alone.
use slow_scanner.Prelude.{
  ℕ, ◌+◌, ◌*◌, ◌%◌, ◌^◌, ◌≤◌, ◌<◌, ◌≡◌, Bool, true, false, Option, none, some, arith,
}
use slow_scanner.World.{Os, World}
use slow_scanner.File.{page_size, align, resize, expand_size}

-- `align` rounds up to the next page, unless the sum wraps.
pub align_lem :
    (n : ℕ)
    → n + page_size ≤ 2 ^ 64
    → (n ≤ align n) × (align n < n + page_size) × (align n % page_size ≡ 0)
unfolding align
align_lem n h = omega arith

abbrev pub Enlarges : Os → ℕ → World → Option (Bool × World) → Type 0
Enlarges os n w none = ⊥
Enlarges os n w (some (true, w')) =
    (w'.file ≡ record w.file { size = align ((w.file.size + n) * 2) })
    × (w'.cells ≡ w.cells)
    × (w.file.size + n ≤ w'.file.size)
    × (w'.file.size % page_size ≡ 0)
    × (w.file.valid ≡ true)
    × (w.clock ≤ w'.clock)
Enlarges os n w (some (false, w')) =
    (w'.file ≡ w.file) × (w'.cells ≡ w.cells) × (w.clock ≤ w'.clock)

-- If the new size does not wrap, `expand_size` never faults. On success the file was valid, its
-- size is the new one, in whole pages, which makes room for `n` more bytes, and no byte has
-- changed; on failure neither the file's state nor a byte has.
pub expand_size_lem :
    (os : Os) (n : ℕ) (w : World)
    → (w.file.size + n) * 2 + page_size ≤ 2 ^ 64
    → Enlarges os n w (expand_size os n w)
unfolding expand_size resize
expand_size_lem os n w h = ground (arith, align_lem ((w.file.size + n) * 2) h)
