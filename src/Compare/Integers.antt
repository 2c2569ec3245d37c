-- ===== src/Compare/Integers.antt =====
-- The comparator on the integer types, against what each scan type means.
use slow_scanner.Prelude.{ℕ, ◌+◌, ◌%◌, ◌^◌, ◌<◌, ◌≡◌, ◌≢◌, ◌↔◌, true, Option, none, some, arith}
use slow_scanner.Scan.{
  ScanType, unknown_value, increased_value, decreased_value, exact_value, increased_by,
  decreased_by, smaller_than, bigger_than, changed, unchanged, value_between,
}
use slow_scanner.Compare.{
  ElementType, u8, u16, u32, u64, float, double, FloatFormat, given, value_or_zero, compare_bits,
  make_comparator,
}

-- What a scan of each type looks for: the value `a` now, the reference `b`, and the third value.
abbrev pub Means : ScanType → ℕ → ℕ → Option ℕ → Type 0
Means exact_value a b c = a ≡ b
Means unchanged a b c = a ≡ b
Means changed a b c = a ≢ b
Means increased_value a b c = b < a
Means bigger_than a b c = b < a
Means decreased_value a b c = a < b
Means smaller_than a b c = a < b
Means increased_by a b (some c) = a ≡ (b + c) % 2 ^ 64
Means decreased_by a b (some c) = b ≡ (a + c) % 2 ^ 64
Means value_between a b (some c) = (b < a) × (a < c)
Means _ a b c = ⊥

abbrev pub IsInteger : ElementType → Type 0
IsInteger float = ⊥
IsInteger double = ⊥
IsInteger _ = Unit {0}

abbrev Fits : Option ℕ → Type 0
Fits none = Unit {0}
Fits (some c) = c < 2 ^ 64

bits-Means :
    (kind : ScanType) (a b : ℕ) (c : Option ℕ)
    → a < 2 ^ 64
    → b < 2 ^ 64
    → Fits c
    → (compare_bits kind a b (given c) (value_or_zero c) ≡ true) ↔ Means kind a b c
unfolding compare_bits
bits-Means exact_value a b c ha hb hc = ground arith
bits-Means unchanged a b c ha hb hc = ground arith
bits-Means changed a b c ha hb hc = ground arith
bits-Means increased_value a b c ha hb hc = ground arith
bits-Means bigger_than a b c ha hb hc = ground arith
bits-Means decreased_value a b c ha hb hc = ground arith
bits-Means smaller_than a b c ha hb hc = ground arith
bits-Means increased_by a b none ha hb hc = ground arith
bits-Means increased_by a b (some c) ha hb hc = ground arith
bits-Means decreased_by a b none ha hb hc = ground arith
bits-Means decreased_by a b (some c) ha hb hc = ground arith
bits-Means value_between a b none ha hb hc = ground arith
bits-Means value_between a b (some c) ha hb hc = ground arith
bits-Means unknown_value a b c ha hb hc = ground arith

-- On an integer type the comparator decides the meaning of every scan type, for 64-bit operands;
-- sums wrap at 2 ^ 64 whatever the width of the element. Without a third value the three types that
-- need one match nothing, and an unknown value never matches.
pub make_comparator-Means :
    (f32 f64 : FloatFormat) (kind : ScanType) (et : ElementType) (a b : ℕ) (c : Option ℕ)
    → IsInteger et
    → a < 2 ^ 64
    → b < 2 ^ 64
    → Fits c
    → (make_comparator f32 f64 kind et a b c ≡ true) ↔ Means kind a b c
make_comparator-Means f32 f64 kind u8 a b c i ha hb hc =
    unfold make_comparator in bits-Means kind a b c ha hb hc
make_comparator-Means f32 f64 kind u16 a b c i ha hb hc =
    unfold make_comparator in bits-Means kind a b c ha hb hc
make_comparator-Means f32 f64 kind u32 a b c i ha hb hc =
    unfold make_comparator in bits-Means kind a b c ha hb hc
make_comparator-Means f32 f64 kind u64 a b c i ha hb hc =
    unfold make_comparator in bits-Means kind a b c ha hb hc
make_comparator-Means f32 f64 kind float a b c i ha hb hc = absurd i
make_comparator-Means f32 f64 kind double a b c i ha hb hc = absurd i
