-- ===== src/File.antt =====
-- Class `m_file` of dumpable/dumpable.hpp and dumpable/src/dumpable.cpp: the dump file, which
-- grows in whole pages and is written through one mapping at a time.
pub mod Growth
pub mod Reserve
pub mod Write
pub mod Failures
pub mod Steady
use slow_scanner.Prelude.{
  ℕ, ◌+◌, ◌-◌, ◌*◌, ◌/◌, Bool, true, false, not, ◌||◌, Option, none, some, List, if◌then◌else◌, ltb,
  ◌==◌, length, take, replicate,
}
use Prim.Native.String.{String}
use slow_scanner.Words.{u64, sub64}
use slow_scanner.World.{
  View, Sink, ActiveMap, Os, MFile, M, pure, fault, call, get_file, put_file, write_cells, ◌>>=◌,
  ◌>>◌,
}

abbrev pub page_size : ℕ
page_size = 0x1000

-- ((size + PAGE_SIZE - 1) / PAGE_SIZE) * PAGE_SIZE
unfoldable pub align : ℕ → ℕ
align size = u64 (u64 (size + page_size - 1) / page_size * page_size)

-- The members as their initialisers leave them.
abbrev pub closed_file : String → MFile
closed_file name = record {
  file_handle = false;
  filename = name;
  size = 0;
  offset = 0;
  valid = false;
  current_map = none;
  map_offset = 0;
}

-- What the constructor stores once the file is open: its size, if Windows tells it.
abbrev pub measured_file : String → Option ℕ → MFile
measured_file name none = record (closed_file name) { file_handle = true }
measured_file name (some n) = record (closed_file name) {
  file_handle = true;
  size = n;
  valid = true;
}

-- `m_file(name)`. The result of `DeleteFileA` is not looked at, so the file may have a size.
unfoldable pub open_file : Os → String → M (Unit {0})
open_file os name = do
  created ← call (λ t. os.create_file t name)
  if created
      then (do measured ← call os.get_file_size; put_file (measured_file name measured))
      else put_file (closed_file name)

-- `SetFilePointerEx(…) && SetEndOfFile(…)`
unfoldable pub resize : Os → ℕ → M Bool
resize os size = do
  moved ← call (λ t. os.set_file_pointer t size)
  if moved then call (λ t. os.set_end_of_file t size) else pure false

-- `m_file(name, size)`
unfoldable pub open_sized : Os → String → ℕ → M (Unit {0})
open_sized os name size = do
  open_file os name
  file ← get_file
  if not file.valid then pure tt else do
    let aligned = align size
    done ← resize os aligned
    if done
        then put_file (record file { size = aligned })
        else put_file (record file { valid = false })

-- `~m_file`: the mapping is dropped and the handle closed.
unfoldable pub close_file : M (Unit {0})
close_file = do
  file ← get_file
  put_file (record file { valid = false; current_map = none; file_handle = false })

-- `expand_size`: (_size + size) * 2, in whole pages.
unfoldable pub expand_size : Os → ℕ → M Bool
expand_size os size = do
  file ← get_file
  if not file.valid || not file.file_handle then pure false else do
    let aligned = align (u64 (u64 (file.size + size) * 2))
    done ← resize os aligned
    if done then (do put_file (record file { size = aligned }); pure true) else pure false

-- `do_map`: a new map of the file from `offset` to its end.
unfoldable pub do_map : Os → ℕ → M ActiveMap
do_map os offset = do
  file ← get_file
  address ← call os.new_address
  sink ← call (λ t. os.make_mmap_sink t file.filename offset (sub64 file.size offset))
  pure (record { address = address; map = sink })

-- The `if` of `write`: more room and a new mapping. `false` is its `return nullptr`; the result of
-- `expand_size` is not looked at.
unfoldable pub reserve : Os → ℕ → M Bool
reserve os size = do
  file ← get_file
  if ltb file.size (u64 (file.offset + size))
      then (do
        _ ← expand_size os size
        grown ← get_file
        new_map ← do_map os grown.offset
        elim new_map.map [
          | none ↦ pure false
          | some view ↦ do
            put_file (record grown { current_map = some new_map; map_offset = 0 })
            pure true
        ])
      else pure true

-- The bytes that `memcpy` takes from the buffer, or `memset` writes for a null buffer.
abbrev pub source_bytes : Option (List ℕ) → ℕ → List ℕ
source_bytes none size = replicate size 0
source_bytes (some buffer) size = take size buffer

-- The rest of `write`, at the view of the current map. It is a fault to write past the view's end,
-- or to read past the buffer's.
unfoldable pub put_bytes : Option (List ℕ) → ℕ → View → M ℕ
put_bytes buffer size view = do
  file ← get_file
  let bytes = source_bytes buffer size
  if ltb view.length (file.map_offset + size) || not (length bytes == size) then fault else (do
    write_cells (view.start + file.map_offset) bytes
    put_file (record file {
      map_offset = u64 (file.map_offset + size);
      offset = u64 (file.offset + size);
    })
    pure (view.start + file.map_offset))

-- The last part of `write`, through `_current_map` and its sink. A null `_current_map` is followed,
-- and so is a pointer at an offset into a sink without data.
unfoldable pub put_sink : Option (List ℕ) → ℕ → ActiveMap → Sink → M (Option ℕ × Option ActiveMap)
put_sink buffer size active none = do
  file ← get_file
  if file.map_offset == 0 then pure (none, some active) else fault
put_sink buffer size active (some view) = do
  position ← put_bytes buffer size view
  pure (some position, some active)

unfoldable pub put_active : Option (List ℕ) → ℕ → Option ActiveMap → M (Option ℕ × Option ActiveMap)
put_active buffer size none = fault
put_active buffer size (some active) = put_sink buffer size active active.map

-- `write`: the destination, as a file position, `none` for a null pointer; and the map that `active`
-- is set to.
unfoldable pub write : Os → Option (List ℕ) → ℕ → M (Option ℕ × Option ActiveMap)
write os buffer size = do
  ready ← reserve os size
  if not ready
      then pure (none, none)
      else do file ← get_file; put_active buffer size file.current_map

-- `valid`, `file_name` and `size`; each is one step, under the mutex.
unfoldable pub valid : M Bool
valid = do file ← get_file; pure file.valid

unfoldable pub file_name : M String
file_name = do file ← get_file; pure file.filename

unfoldable pub file_size : M ℕ
file_size = do file ← get_file; pure file.size
