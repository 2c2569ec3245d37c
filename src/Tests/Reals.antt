-- ===== src/Tests/Reals.antt =====
-- An example for NaN, in a format of numbers and NaN.
use slow_scanner.Prelude.{
  ℕ, ◌+◌, ◌-◌, ◌≡◌, refl, Bool, true, false, Option, none, some, ◌⊎◌, inl, inr, arith, ltb, leb,
  ◌==◌, if◌then◌else◌,
}
use slow_scanner.Compare.{FloatFormat}
use slow_scanner.Compare.Reals.{NanLaws}

abbrev lift : (ℕ → ℕ → ℕ) → Option ℕ → Option ℕ → Option ℕ
lift f none y = none
lift f (some x) none = none
lift f (some x) (some y) = some (f x y)

abbrev holds : (ℕ → ℕ → Bool) → Option ℕ → Option ℕ → Bool
holds f none y = false
holds f (some x) none = false
holds f (some x) (some y) = f x y

abbrev missing : Option ℕ → Bool
missing none = true
missing (some x) = false

abbrev with_nan : FloatFormat
with_nan = record {
  Real = Option ℕ;
  of_bits = λ n. if n == 255 then none else some n;
  zero = some 0;
  eps = some 1;
  plus = lift (λ x y. x + y);
  minus = lift (λ x y. x - y);
  magnitude = λ x. x;
  less = holds ltb;
  less_eq = holds leb;
  equal = holds ◌==◌;
}

lift-missing :
    (f : ℕ → ℕ → ℕ) (x y : Option ℕ)
    → missing x ≡ true ⊎ missing y ≡ true
    → missing (lift f x y) ≡ true
lift-missing f none y h = refl
lift-missing f (some x) none h = refl
lift-missing f (some x) (some y) (inl h) = h
lift-missing f (some x) (some y) (inr h) = h

holds-missing :
    (f : ℕ → ℕ → Bool) (x y : Option ℕ) → missing x ≡ true ⊎ missing y ≡ true → holds f x y ≡ false
holds-missing f none y h = refl
holds-missing f (some x) none h = refl
holds-missing f (some x) (some y) (inl h) = absurd (ground arith)
holds-missing f (some x) (some y) (inr h) = absurd (ground arith)

with_nan-NanLaws : NanLaws with_nan
with_nan-NanLaws = record {
  is_nan = missing;
  minus_nan = lift-missing (λ x y. x - y);
  plus_nan = λ x y h. lift-missing (λ a b. a + b) x y (inl h);
  magnitude_nan = λ x h. h;
  less_nan = holds-missing ltb;
  less_eq_nan = holds-missing leb;
  equal_nan = holds-missing ◌==◌;
}
