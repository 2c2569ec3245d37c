-- ===== src/Region.antt =====
-- Class `memory_region` of scanner/memory_region.hpp and scanner/memory_region.cpp: a range of the
-- memory of the scanned process, and its bytes as they were when it was read.
pub mod Snapshot
pub mod Fetch
pub mod Again
pub mod Steady
use slow_scanner.Prelude.{
  ℕ, ◌+◌, ◌*◌, ◌/◌, Bool, true, false, not, Option, none, some, List, [], ◌∷◌, if◌then◌else◌, ◌==◌,
  bit_and, leb, length, ◌&&◌,
}
use slow_scanner.Prelude.Int.{is_minus_one}
use slow_scanner.Words.{long_to_handle}
use slow_scanner.World.{MemoryInfo, Os, M, pure, fault, call, write_cells, ◌>>=◌, ◌>>◌}
use slow_scanner.Dump.{Span, Dumpable, empty_dump, alloc_f}

-- The constants of the Windows headers.
abbrev pub mem_commit : ℕ
mem_commit = 0x1000

abbrev pub mem_mapped : ℕ
mem_mapped = 0x40000

pub record Region : Type 0 where
  pub dumped : Dumpable  -- the base class
  pub info : MemoryInfo  -- `_mbi`
  pub process_handle : ℕ
  pub mem_reserved : Bool

abbrev pub new_region : MemoryInfo → ℕ → Region
new_region info handle = record {
  dumped = empty_dump;
  info = info;
  process_handle = handle;
  mem_reserved = false;
}

abbrev pub base : Region → ℕ
base r = r.info.base_address

abbrev pub size : Region → ℕ
size r = r.info.region_size

unfoldable pub has_protection_flags : Region → ℕ → Bool
has_protection_flags r flags = not (bit_and r.info.protect flags == 0)

unfoldable pub is_commited : Region → Bool
is_commited r = r.info.state == mem_commit

unfoldable pub is_memmapped : Region → Bool
is_memmapped r = r.info.kind == mem_mapped

-- `ReadProcessMemory` into `_data[0]`: whether it succeeded. What it wrote before a failure stays
-- written. More bytes than the span has would go past it.
unfoldable pub fetch_into : Os → Region → List Span → M (Bool × Region)
fetch_into os r [] = fault
fetch_into os r (s ∷ _) = do
  (success, bytes) ←
      call (λ t. os.read_process_memory t (long_to_handle r.process_handle) (base r) (size r))
  if leb (length bytes) s.size then (write_cells s.position bytes >> pure (success, r)) else fault

unfoldable pub fetch : Os → Region → M (Bool × Region)
unfolding fetch_into
fetch os r = fetch_into os r r.dumped.spans

-- `read_memory`, with the region as it leaves it.
unfoldable pub read_memory : Os → Region → M (Bool × Region)
read_memory os r = if r.mem_reserved then fetch os r else do
  (index, d) ← alloc_f os (size r) r.dumped
  if is_minus_one index
      then pure (false, record r { dumped = d })
      else fetch os (record r { dumped = d; mem_reserved = true })

-- `raw_bytes`: the first span, or an empty one with a null pointer.
abbrev pub first_span : List Span → Span
first_span [] = record { position = 0; size = 0 }
first_span (s ∷ _) = s

abbrev pub raw_bytes : Region → Span
raw_bytes r = first_span r.dumped.spans

-- Does a read of `n` bytes at `p`, through a pointer into `bytes`, stay inside them? Through a null
-- pointer none does.
abbrev pub can_read : Span → ℕ → ℕ → Bool
can_read bytes p n = leb bytes.position p && leb (p + n) (bytes.position + bytes.size)

-- Class `strided_span`.
pub record StridedSpan : Type 0 where
  pub pointer : ℕ
  pub count : ℕ
  pub stride : ℕ

abbrev pub elements_by_size : Region → ℕ → StridedSpan
elements_by_size r n = record {
  pointer = (raw_bytes r).position;
  count = (raw_bytes r).size / n;
  stride = n;
}

-- `operator[]`
abbrev pub element : StridedSpan → ℕ → ℕ
element s i = s.pointer + i * s.stride
