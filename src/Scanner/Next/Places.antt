-- ===== src/Scanner/Next/Places.antt =====
-- Two regions that start at pages are in step, and their overlap lies in both.
use slow_scanner.Prelude.{
  ℕ, zero, suc, ◌+◌, ◌*◌, ◌%◌, ◌^◌, ◌≤◌, ◌<◌, ◌≡◌, ◌∙◌, sym, Bool, arith, select, range, All,
  Bool-cases, inl, inr,
}
use slow_scanner.File.{page_size}
use slow_scanner.Region.{Region, base, size}
use slow_scanner.Compare.{ElementType, u8, u16, u32, float, double, element_size}
use slow_scanner.Compare
use slow_scanner.Scanner.Next.{Overlap, overlap_of, ov_start, overlap_bytes, r_off}
use slow_scanner.Scanner.Next.Addresses.{IsAligned}
use slow_scanner.Scanner.Next.Unknown.{InStep}

-- A region that starts at a page, in the user's part of the address space.
pub record IsPlaced (r : Region) : Type 0 where
  pub aligned : base r % page_size ≡ 0
  pub low : base r + size r ≤ 2 ^ 47

page_phase : (elem : ElementType) (b : ℕ) → b % page_size ≡ 0 → b % element_size elem ≡ 0
unfolding element_size
page_phase u8 b h = omega arith
page_phase u16 b h = omega arith
page_phase u32 b h = omega arith
page_phase Compare.u64 b h = omega arith
page_phase float b h = omega arith
page_phase double b h = omega arith

pub element_size_small : (elem : ElementType) → element_size elem ≤ 8
unfolding element_size
element_size_small u8 = omega arith
element_size_small u16 = omega arith
element_size_small u32 = omega arith
element_size_small Compare.u64 = omega arith
element_size_small float = omega arith
element_size_small double = omega arith

pub le-mul : (i k : ℕ) → 0 < k → i ≤ i * k
le-mul i zero h = absurd (omega (arith, h))
le-mul i (suc k) h = omega arith

pub mul_small : (elem : ElementType) (i : ℕ) → i * element_size elem ≤ i * 8
unfolding element_size
mul_small u8 i = omega arith
mul_small u16 i = omega arith
mul_small u32 i = omega arith
mul_small Compare.u64 i = omega arith
mul_small float i = omega arith
mul_small double i = omega arith

-- A selection from the numbers below `n`.
pub select_below :
    (p : ℕ → Bool) (i rounds n : ℕ) → i + rounds ≤ n → All (λ k. k < n) (select p (range i rounds))
select_below p i zero n h = tt
select_below p i (suc rounds) n h = elim (Bool-cases (p i)) [
  | inl hit ↦ rw hit (omega arith, select_below p (i + 1) rounds n (omega arith))
  | inr miss ↦ rw miss (select_below p (i + 1) rounds n (omega arith))
]

module _ (elem : ElementType) (r p : Region) (new : IsPlaced r) (old : IsPlaced p) where
  abbrev o : Overlap
  o = overlap_of r p

  abbrev n : ℕ
  n = element_size elem

  pub overlap-IsAligned : IsAligned o n
  overlap-IsAligned = record {
    low = (
      omega (arith, new.low),
      omega (arith, new.low),
      omega (arith, old.low),
      omega (arith, old.low),
    );
    phase = page_phase elem (base p) old.aligned ∙ sym (page_phase elem (base r) new.aligned);
  }

  r_off-page : r_off o % page_size ≡ 0
  r_off-page =
      let a = new.low in
      let b = old.low in let c = new.aligned in let d = old.aligned in ground arith

  pub overlap-InStep : InStep o n
  overlap-InStep = (
    omega (arith, new.low),
    omega (arith, new.low),
    omega (arith, old.low),
    omega (arith, old.low),
    omega (arith, element_size_small elem),
    page_phase elem (r_off o) r_off-page,
  )

  -- The overlap lies in the new region.
  pub start_off : base r + r_off o ≡ ov_start o
  start_off = let a = new.low in let b = old.low in ground arith

  pub bytes_fit : 0 < overlap_bytes o → r_off o + overlap_bytes o ≤ size r
  bytes_fit h = let a = new.low in let b = old.low in ground arith
