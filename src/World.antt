-- ===== src/World.antt =====
-- What the scanner shares: the dump file, the bytes that are mapped from it, and the calls into
-- Windows and mio, which are not part of the repository and are parameters here.
use slow_scanner.Prelude.{ℕ, ◌+◌, ◌-◌, Bool, Option, none, some, List, ltb, if◌then◌else◌, get_or}
use Prim.Native.String.{String}

-- A mapped range of the file: `length` bytes from the file position `start` on.
pub record View : Type 0 where
  pub start : ℕ
  pub length : ℕ

-- `mio::mmap_sink`; `none` is a sink whose `data()` is null.
abbrev pub Sink : Type 0
Sink = Option View

-- A heap object of class `active_map`, with the address by which `shared_ptr`s to it compare.
pub record ActiveMap : Type 0 where
  pub address : ℕ
  pub map : Sink

-- `MEMORY_BASIC_INFORMATION`, the fields that the scanner reads.
pub record MemoryInfo : Type 0 where
  pub base_address : ℕ
  pub region_size : ℕ
  pub state : ℕ
  pub protect : ℕ
  pub kind : ℕ  -- the field `Type`

-- The calls. Each takes the time of the call first, so that no two calls need answer alike.
pub record Os : Type 0 where
  pub create_file : ℕ → String → Bool  -- `CreateFileA` returns a handle
  pub get_file_size : ℕ → Option ℕ  -- `GetFileSizeEx`
  pub set_file_pointer : ℕ → ℕ → Bool  -- `SetFilePointerEx`
  pub set_end_of_file : ℕ → ℕ → Bool  -- `SetEndOfFile`, at the pointer just set
  pub make_mmap_sink : ℕ → String → ℕ → ℕ → Sink  -- file name, offset, size
  pub new_address : ℕ → ℕ  -- `make_shared`: where the object is put
  pub read_process_memory : ℕ → ℕ → ℕ → ℕ → Bool × List ℕ  -- handle, base, size; the bytes written
  pub virtual_query : ℕ → ℕ → ℕ → Option MemoryInfo  -- handle, address; `none` for the result 0

-- Class `m_file`, but for its mutex: each of its methods is one step.
pub record MFile : Type 0 where
  pub file_handle : Bool  -- is `_file_handle` other than `INVALID_HANDLE_VALUE`
  pub filename : String
  pub size : ℕ
  pub offset : ℕ
  pub valid : Bool
  pub current_map : Option ActiveMap  -- a `shared_ptr`, which may be null
  pub map_offset : ℕ

-- `cells` are the bytes of the file as every mapping of it shows them, by file position.
pub record World : Type 0 where
  pub file : MFile
  pub cells : ℕ → ℕ
  pub clock : ℕ

-- A step that may have undefined behaviour, which is `none`: a null pointer that is followed, or an
-- access outside the bytes that a pointer leads to. A loop that is out of fuel is `none` too.
abbrev pub M : Type 0 → Type 0
M A = World → Option (A × World)

abbrev pub pure : {A : Type 0} → A → M A
pure a w = some (a, w)

abbrev pub fault : {A : Type 0} → M A
fault w = none

infixl 5 ◌>>=◌ ◌>>◌
abbrev pub ◌>>=◌ : {A B : Type 0} → M A → (A → M B) → M B
◌>>=◌ m f w = elim (m w) [ none ↦ none | some (a, w') ↦ f a w' ]

abbrev pub ◌>>◌ : {B : Type 0} → M (Unit {0}) → M B → M B
m >> k = m >>= λ _. k

-- One call of the environment: its answer, and the clock moves on.
abbrev pub call : {A : Type 0} → (ℕ → A) → M A
call f w = some (f w.clock, record w { clock = w.clock + 1 })

abbrev pub get_file : M MFile
get_file w = some (w.file, w)

abbrev pub put_file : MFile → M (Unit {0})
put_file f w = some (tt, record w { file = f })

-- Bytes written from a file position on.
abbrev pub blit : (ℕ → ℕ) → ℕ → List ℕ → ℕ → ℕ
blit cells p bytes j = if ltb j p then cells j else get_or bytes (j - p) (cells j)

abbrev pub write_cells : ℕ → List ℕ → M (Unit {0})
write_cells p bytes w = some (tt, record w { cells = blit w.cells p bytes })
