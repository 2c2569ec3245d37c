-- ===== src/Words/Laws.antt =====
-- What a load reads: nothing but its own bytes, and a number that fits them.
use native.Mathlib.Nat.{pow-suc}
use slow_scanner.Prelude.{ℕ, zero, suc, ◌+◌, ◌^◌, ◌≤◌, ◌<◌, ◌≡◌, refl, arith}
use slow_scanner.Words.{load, overlay}

-- Two memories that agree on the bytes of a load give the same value.
pub load_agree :
    (c d : ℕ → ℕ) (p n : ℕ) → ((j : ℕ) → p ≤ j → j < p + n → c j ≡ d j) → load c p n ≡ load d p n
unfolding load
load_agree c d p zero h = refl
load_agree c d p (suc n) h = omega (
  arith,
  h p (omega arith) (omega arith),
  load_agree c d (p + 1) n (λ j lo hi. h j (omega arith) (omega arith)),
)

-- A load of `n` bytes is below 256 ^ n.
pub load-lt : (c : ℕ → ℕ) (p n : ℕ) → ((j : ℕ) → c j < 256) → load c p n < 256 ^ n
unfolding load
load-lt c p zero h = omega arith
load-lt c p (suc n) h = omega (arith, h p, load-lt c (p + 1) n h, pow-suc 256 n)

-- Writing the low bytes over a value that has no others gives the bytes alone.
pub overlay_low : (old n low : ℕ) → old < 256 ^ n → overlay old n low ≡ low
unfolding overlay
overlay_low old n low h = grind arith
