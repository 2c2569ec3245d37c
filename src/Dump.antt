-- ===== src/Dump.antt =====
-- Class `dumpable<uint8_t>` of dumpable/dumpable.hpp: data in memory, and the spans of it that were
-- written to the dump file, with the maps that keep them mapped.
pub mod Spans
use slow_scanner.Prelude.{
  ℕ, ◌+◌, ◌-◌, ◌*◌, Bool, true, false, not, ◌||◌, Option, none, some, List, [], ◌∷◌, ◌++◌,
  if◌then◌else◌, ltb, leb, ◌==◌, length, get_elem?,
}
use slow_scanner.Prelude.Int.{ℤ, negsuc, int_of_size, size_of_int, is_minus_one}
use slow_scanner.Words.{u64}
use slow_scanner.World.{ActiveMap, Os, M, pure, ◌>>=◌}
use slow_scanner.File.{write}

-- `std::span<uint8_t>`: a file position and a count of bytes.
pub record Span : Type 0 where
  pub position : ℕ
  pub size : ℕ

abbrev pub no_span : Span
no_span = record { position = 0; size = 0 }

pub record Dumpable : Type 0 where
  pub spans : List Span  -- `_data`
  pub in_memory : List ℕ  -- `_in_memory_data`
  pub maps : List ActiveMap  -- `_maps`, a set by the address of the object

abbrev pub empty_dump : Dumpable
empty_dump = record { spans = []; in_memory = []; maps = [] }

abbrev pub has_map : ActiveMap → List ActiveMap → Bool
has_map m [] = false
has_map m (n ∷ ns) = n.address == m.address || has_map m ns

-- `_maps.insert(map)`: nothing happens if the object is there.
unfoldable pub insert_map : ActiveMap → List ActiveMap → List ActiveMap
insert_map m ms = if has_map m ms then ms else m ∷ ms

-- A null `map` would be inserted too; `write` sets it whenever it returns a pointer.
unfoldable pub insert_active : Option ActiveMap → List ActiveMap → List ActiveMap
insert_active none ms = ms
insert_active (some m) ms = insert_map m ms

unfoldable pub add : ℕ → Dumpable → Dumpable
add element d = record d { in_memory = d.in_memory ++ element ∷ [] }

-- `write_data`; an element has one byte.
unfoldable pub write_data : Os → Option (List ℕ) → ℕ → Dumpable → M (Span × Dumpable)
write_data os buffer size d = do
  (pointer, map) ← write os buffer (u64 (size * 1))
  elim pointer [
    | none ↦ pure (no_span, d)
    | some p ↦
        pure (record { position = p; size = size }, record d { maps = insert_active map d.maps })
  ]

-- `dump(buffer, size)`: the index of the new span, or -1.
unfoldable pub dump : Os → Option (List ℕ) → ℕ → Dumpable → M (ℤ × Dumpable)
dump os buffer size d = do
  (span, d') ← write_data os buffer size d
  if span.size == 0 then pure (negsuc 0, d') else do
    let spans = d'.spans ++ span ∷ []
    pure (int_of_size (length spans - 1), record d' { spans = spans })

-- `dump(data)`
unfoldable pub dump_vector : Os → List ℕ → Dumpable → M (ℤ × Dumpable)
dump_vector os bytes d = dump os (some bytes) (length bytes) d

-- `dump()`
unfoldable pub dump_buffer : Os → Dumpable → M (ℤ × Dumpable)
dump_buffer os d = dump_vector os d.in_memory d

-- `alloc_f`
unfoldable pub alloc_f : Os → ℕ → Dumpable → M (ℤ × Dumpable)
alloc_f os size d = dump os none size d

-- `span(index)`: the comparison with `size()` is unsigned. `_data[index]` past the end is undefined
-- behaviour, which is `none`.
unfoldable pub span : ℤ → Dumpable → Option Span
span index d =
    if is_minus_one index || leb (length d.spans) (size_of_int index)
    then some no_span
    else get_elem? d.spans (size_of_int index)
