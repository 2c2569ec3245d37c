-- ===== src/Words.antt =====
-- Unsigned machine words, and the bytes that `std::memcpy` moves into them. A `uint64_t`, a
-- `size_t` and a pointer are numbers below 2 ^ 64; the machine is little-endian.
pub mod Laws
use slow_scanner.Prelude.{ℕ, zero, suc, ◌+◌, ◌-◌, ◌*◌, ◌/◌, ◌%◌, ◌^◌, ltb, if◌then◌else◌}

abbrev pub u64 : ℕ → ℕ
u64 n = n % 2 ^ 64

-- a - b in 64 bits, for b below 2 ^ 64.
abbrev pub sub64 : ℕ → ℕ → ℕ
sub64 a b = (a + 2 ^ 64 - b) % 2 ^ 64

-- `LongToHandle`: a 32-bit `long`, as its bit pattern, sign-extended to 64 bits.
abbrev pub long_to_handle : ℕ → ℕ
long_to_handle h = if ltb h (2 ^ 31) then h else h + 2 ^ 64 - 2 ^ 32

-- `uint64_t v = 0; memcpy(&v, p, n);`, with the bytes at `p`, `p + 1`, … .
unfoldable pub load : (ℕ → ℕ) → ℕ → ℕ → ℕ
load cells p zero = 0
load cells p (suc n) = cells p + 256 * load cells (p + 1) n

-- `memcpy(&v, p, n);` over an old `v`: its low `n` bytes are replaced.
unfoldable pub overlay : ℕ → ℕ → ℕ → ℕ
overlay old n low = old / 256 ^ n * 256 ^ n + low
