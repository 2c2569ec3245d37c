-- ===== src/Compare.antt =====
-- `element_type`, `element_size` and `make_comparator` of slow_scanner.h. The arithmetic of `float`
-- and `double` is the processor's, and a parameter here.
pub mod Integers
pub mod Reals
use slow_scanner.Prelude.{
  ℕ, ◌+◌, ◌-◌, Bool, true, false, not, ◌&&◌, Option, none, some, ltb, leb, ◌==◌,
}
use slow_scanner.Words.{sub64}
use slow_scanner.Scan.{
  ScanType, unknown_value, increased_value, decreased_value, exact_value, increased_by,
  decreased_by, smaller_than, bigger_than, changed, unchanged, value_between, Comparator,
}

pub data ElementType : Type 0 where
  u8 u16 u32 u64 float double : ElementType

unfoldable pub element_size : ElementType → ℕ
element_size u8 = 1
element_size u16 = 2
element_size u32 = 4
element_size u64 = 8
element_size float = 4
element_size double = 8

-- One floating-point format: `of_bits` is `memcpy` from the low bytes of a `uint64_t`.
pub record FloatFormat : Type 1 where
  pub Real : Type 0
  pub of_bits : ℕ → Real
  pub zero : Real
  pub eps : Real
  pub plus : Real → Real → Real
  pub minus : Real → Real → Real
  pub magnitude : Real → Real  -- `std::abs`
  pub less : Real → Real → Bool
  pub less_eq : Real → Real → Bool
  pub equal : Real → Real → Bool

-- `c_bits ? read_fp(c, *c_bits) : 0`
abbrev pub third : (format : FloatFormat) → Option ℕ → format.Real
third format none = format.zero
third format (some bits) = format.of_bits bits

abbrev pub given : Option ℕ → Bool
given none = false
given (some bits) = true

module _ (format : FloatFormat) where
  open format use {Real, eps, plus, minus, magnitude, less, less_eq, equal}

  abbrev pub near : Real → Real → Bool
  near x y = less_eq (magnitude (minus x y)) eps

  abbrev pub above : Real → Real → Bool
  above x y = less (plus y eps) x

  abbrev pub below : Real → Real → Bool
  below x y = less x (minus y eps)

  -- The case for `float`.
  unfoldable pub compare_float : ScanType → Real → Real → Bool → Real → Bool
  compare_float exact_value a b has_c c = near a b
  compare_float increased_value a b has_c c = above a b
  compare_float decreased_value a b has_c c = below a b
  compare_float bigger_than a b has_c c = above a b
  compare_float smaller_than a b has_c c = below a b
  compare_float changed a b has_c c = less eps (magnitude (minus a b))
  compare_float unchanged a b has_c c = near a b
  compare_float increased_by a b has_c c = has_c && less_eq (magnitude (minus (minus a b) c)) eps
  compare_float decreased_by a b has_c c = has_c && less_eq (magnitude (minus (minus b a) c)) eps
  compare_float value_between a b has_c c = has_c && (above a b && below a c)
  compare_float unknown_value a b has_c c = false

  -- The case for `double`.
  unfoldable pub compare_double : ScanType → Real → Real → Bool → Real → Bool
  compare_double exact_value a b has_c c = equal a b
  compare_double increased_value a b has_c c = less b a
  compare_double decreased_value a b has_c c = less a b
  compare_double bigger_than a b has_c c = above a b
  compare_double smaller_than a b has_c c = below a b
  compare_double changed a b has_c c = not (equal a b)
  compare_double unchanged a b has_c c = equal a b
  compare_double increased_by a b has_c c = has_c && equal (minus a b) c
  compare_double decreased_by a b has_c c = has_c && equal (minus b a) c
  compare_double value_between a b has_c c = has_c && (less b a && less a c)
  compare_double unknown_value a b has_c c = false

-- The default case: the values are compared as `uint64_t`, whatever the element's width.
unfoldable pub compare_bits : ScanType → ℕ → ℕ → Bool → ℕ → Bool
compare_bits exact_value a b has_c c = a == b
compare_bits increased_value a b has_c c = ltb b a
compare_bits decreased_value a b has_c c = ltb a b
compare_bits bigger_than a b has_c c = ltb b a
compare_bits smaller_than a b has_c c = ltb a b
compare_bits changed a b has_c c = not (a == b)
compare_bits unchanged a b has_c c = a == b
compare_bits increased_by a b has_c c = has_c && sub64 a b == c
compare_bits decreased_by a b has_c c = has_c && sub64 b a == c
compare_bits value_between a b has_c c = has_c && (ltb b a && ltb a c)
compare_bits unknown_value a b has_c c = false

-- `c_bits.value_or(0)`
abbrev pub value_or_zero : Option ℕ → ℕ
value_or_zero none = 0
value_or_zero (some c) = c

-- `make_comparator`, over the formats of `float` and `double`.
unfoldable pub make_comparator : FloatFormat → FloatFormat → ScanType → ElementType → Comparator
make_comparator f32 f64 kind float a b c =
    compare_float f32 kind (f32.of_bits a) (f32.of_bits b) (given c) (third f32 c)
make_comparator f32 f64 kind double a b c =
    compare_double f64 kind (f64.of_bits a) (f64.of_bits b) (given c) (third f64 c)
make_comparator f32 f64 kind _ a b c = compare_bits kind a b (given c) (value_or_zero c)
