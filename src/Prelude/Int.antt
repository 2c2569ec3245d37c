-- ===== src/Prelude/Int.antt =====
-- Signed integers over the native numbers: `negsuc n` is -(n + 1). The C++ `int` here has 32 bits.
use Prim.Native.Nat.{ℕ, ◌-◌, ◌%◌, ◌^◌}
use mathlib.Core.Bool.{Bool, false}
use slow_scanner.Prelude.Tests.{ltb, ◌==◌, if◌then◌else◌}

pub data ℤ : Type 0 where
  pos : ℕ → ℤ
  negsuc : ℕ → ℤ

-- A `size_t` where an `int` is wanted.
abbrev pub int_of_size : ℕ → ℤ
int_of_size n = let k = n % 2 ^ 32 in if ltb k (2 ^ 31) then pos k else negsuc (2 ^ 32 - 1 - k)

-- An `int` where it is compared with a `size_t`.
abbrev pub size_of_int : ℤ → ℕ
size_of_int (pos n) = n
size_of_int (negsuc n) = 2 ^ 64 - 1 - n

-- Is it -1?
abbrev pub is_minus_one : ℤ → Bool
is_minus_one (pos n) = false
is_minus_one (negsuc n) = n == 0
