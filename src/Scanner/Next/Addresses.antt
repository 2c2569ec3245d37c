-- ===== src/Scanner/Next/Addresses.antt =====
-- Where an earlier result lies, for `next_scan`: its address, and its index in the new region.
use slow_scanner.Prelude.{
  ℕ, ◌+◌, ◌-◌, ◌*◌, ◌/◌, ◌%◌, ◌^◌, ◌≤◌, ◌<◌, ◌≡◌, Bool, true, false, List, [], ◌∷◌, arith,
  if◌then◌else◌,
}
use slow_scanner.Scan.{ScanType, ScanEntry}
use slow_scanner.Compare.{ElementType, u8, u16, u32, float, double, element_size}
use slow_scanner.Compare
use slow_scanner.Scanner.Next.{Overlap, uses_snapshot}

-- The absolute address of an earlier result.
abbrev pub address_of : Overlap → ℕ → ScanEntry → ℕ
address_of o n e = o.p_start + e.element_index * n

abbrev pub has_entry : List ScanEntry → Bool
has_entry [] = false
has_entry (e ∷ es) = true

-- The value that an earlier result is compared with.
abbrev pub reference : ScanType → ℕ → ScanEntry → ℕ
reference kind raw1 e = if uses_snapshot kind then e.snapshot_value else raw1

-- Addresses below 2 ^ 63, and two regions whose elements lie at the same addresses.
pub record IsAligned (o : Overlap) (n : ℕ) : Type 0 where
  pub low : (o.r_start < 2 ^ 63) × (o.r_end < 2 ^ 63) × (o.p_start < 2 ^ 63) × (o.p_end < 2 ^ 63)
  pub phase : o.p_start % n ≡ o.r_start % n

-- A result at an address `r_start` or behind it has a whole index in the new region.
pub index_exact :
    (elem : ElementType) (p r i : ℕ)
    → p % element_size elem ≡ r % element_size elem
    → r ≤ p + i * element_size elem
    → (p + i * element_size elem - r) / element_size elem * element_size elem
      ≡ p + i * element_size elem - r
unfolding element_size
index_exact u8 p r i a b = omega arith
index_exact u16 p r i a b = omega arith
index_exact u32 p r i a b = omega arith
index_exact Compare.u64 p r i a b = omega arith
index_exact float p r i a b = omega arith
index_exact double p r i a b = omega arith
