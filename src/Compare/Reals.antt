-- ===== src/Compare/Reals.antt =====
-- The comparator on `float` and `double` where a value is NaN.
use slow_scanner.Prelude.{◌≡◌, Bool, true, false, ◌⊎◌}
use slow_scanner.Scan.{ScanType, changed}
use slow_scanner.Compare.{FloatFormat}

-- What IEEE 754 says of NaN: arithmetic passes it on, and no comparison with it holds.
pub record NanLaws (format : FloatFormat) : Type 0 where
  pub is_nan : format.Real → Bool
  pub minus_nan :
      (x y : format.Real) → is_nan x ≡ true ⊎ is_nan y ≡ true → is_nan (format.minus x y) ≡ true
  pub plus_nan : (x y : format.Real) → is_nan x ≡ true → is_nan (format.plus x y) ≡ true
  pub magnitude_nan : (x : format.Real) → is_nan x ≡ true → is_nan (format.magnitude x) ≡ true
  pub less_nan : (x y : format.Real) → is_nan x ≡ true ⊎ is_nan y ≡ true → format.less x y ≡ false
  pub less_eq_nan :
      (x y : format.Real) → is_nan x ≡ true ⊎ is_nan y ≡ true → format.less_eq x y ≡ false
  pub equal_nan : (x y : format.Real) → is_nan x ≡ true ⊎ is_nan y ≡ true → format.equal x y ≡ false

-- Is the scan type `changed`?
abbrev pub is_changed : ScanType → Bool
is_changed changed = true
is_changed _ = false
