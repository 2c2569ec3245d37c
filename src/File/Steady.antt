-- ===== src/File/Steady.antt =====
-- What no operation on the dump file changes, however its calls fail.
use slow_scanner.Prelude.{
  ℕ, ◌+◌, ◌*◌, ◌%◌, ◌≡◌, Bool, true, false, not, ◌||◌, Option, none, some, List, arith,
  if◌then◌else◌, ltb, ◌==◌, length,
}
use slow_scanner.Words.{u64, sub64}
use slow_scanner.World.{
  View, Sink, ActiveMap, Os, MFile, World, M, pure, fault, call, get_file, put_file, write_cells,
  ◌>>=◌, ◌>>◌,
}
use slow_scanner.File.{
  page_size, align, resize, expand_size, do_map, reserve, source_bytes, put_bytes, put_sink,
  put_active, write,
}

-- What is known of the file after a step, if it returns.
abbrev pub After : (P : MFile → Type 0) → {A : Type 0} → Option (A × World) → Type 0
After P none = Unit {0}
After P (some (a, w)) = P w.file

-- A step that keeps a property of the file, if it returns.
pub record Keeps (P : MFile → Type 0) {A : Type 0} (m : M A) : Type 0 where
  pub run : (w : World) → P w.file → After P (m w)

pub Keeps-pure : (P : MFile → Type 0) {A : Type 0} (a : A) → Keeps P (pure a)
Keeps-pure P a = record { run = λ w h. h }

pub Keeps-fault : (P : MFile → Type 0) {A : Type 0} → Keeps P (fault {A = A})
Keeps-fault P = record { run = λ w h. tt }

pub Keeps-call : (P : MFile → Type 0) {A : Type 0} (f : ℕ → A) → Keeps P (call f)
Keeps-call P f = record { run = λ w h. h }

pub Keeps-get :
    (P : MFile → Type 0) {A : Type 0} (k : MFile → M A)
    → ((f : MFile) → P f → Keeps P (k f))
    → Keeps P (get_file >>= k)
Keeps-get P k step = record { run = λ w h. (step w.file h).run w h }

pub Keeps-if :
    (P : MFile → Type 0) {A : Type 0} (b : Bool) (m n : M A)
    → Keeps P m
    → Keeps P n
    → Keeps P (if b then m else n)
Keeps-if P true m n h k = h
Keeps-if P false m n h k = k

After-bind :
    (P : MFile → Type 0) {A B : Type 0} (k : A → M B) (o : Option (A × World))
    → ((a : A) → Keeps P (k a))
    → After P o
    → After P (elim o [ none ↦ none | some (a, w) ↦ k a w ])
After-bind P k none step h = tt
After-bind P k (some (a, w)) step h = (step a).run w h

pub Keeps-bind :
    (P : MFile → Type 0) {A B : Type 0} (m : M A) (k : A → M B)
    → Keeps P m
    → ((a : A) → Keeps P (k a))
    → Keeps P (m >>= k)
Keeps-bind P m k h step = record { run = λ w p. After-bind P k (m w) step (h.run w p) }

pub Keeps-put : (P : MFile → Type 0) (f : MFile) → P f → Keeps P (put_file f)
Keeps-put P f h = record { run = λ w p. h }

pub Keeps-write : (P : MFile → Type 0) (p : ℕ) (bytes : List ℕ) → Keeps P (write_cells p bytes)
Keeps-write P p bytes = record { run = λ w h. h }

-- The same file: its handle, its name and whether it is valid; and its size in whole pages.
pub record IsSame (old new : MFile) : Type 0 where
  pub handle : new.file_handle ≡ old.file_handle
  pub name : new.filename ≡ old.filename
  pub validity : new.valid ≡ old.valid
  pub pages : new.size % page_size ≡ 0

align_pages : (n : ℕ) → align n % page_size ≡ 0
unfolding align
align_pages n = omega arith

module _ (os : Os) where
  resize-Keeps : (P : MFile → Type 0) (size : ℕ) → Keeps P (resize os size)
  unfolding resize
  resize-Keeps P size = Keeps-bind P _ _ (Keeps-call P (λ t. os.set_file_pointer t size)) (λ moved.
      Keeps-if P moved _ _ (Keeps-call P (λ t. os.set_end_of_file t size)) (Keeps-pure P false))

  do_map-Keeps : (P : MFile → Type 0) (offset : ℕ) → Keeps P (do_map os offset)
  unfolding do_map
  do_map-Keeps P offset = Keeps-get P _ (λ f h.
      Keeps-bind P _ _ (Keeps-call P os.new_address) (λ address.
        Keeps-bind P _ _
          (Keeps-call P (λ t. os.make_mmap_sink t f.filename offset (sub64 f.size offset)))
          (λ sink. Keeps-pure P (record { address = address; map = sink }))))

  module _ (f0 : MFile) where
    abbrev Same : MFile → Type 0
    Same = IsSame f0

    expand_size-Keeps : (size : ℕ) → Keeps Same (expand_size os size)
    unfolding expand_size
    expand_size-Keeps size = Keeps-get Same _ (λ f h.
        let aligned = align (u64 (u64 (f.size + size) * 2)) in
        let bigger : MFile = record f { size = aligned } in
        let same : Same bigger = record {
          handle = h.handle;
          name = h.name;
          validity = h.validity;
          pages = align_pages _;
        } in
        let grown : M Bool = (do put_file bigger; pure true) in
        Keeps-if Same (not f.valid || not f.file_handle) _ _ (Keeps-pure Same false) (
          Keeps-bind Same (resize os aligned) _ (resize-Keeps Same aligned) (λ done.
            Keeps-if Same done grown (pure false)
              (Keeps-bind Same (put_file bigger) (λ u. pure true) (Keeps-put Same bigger same)
                (λ u. Keeps-pure Same true))
              (Keeps-pure Same false))))

    remap-Keeps :
        (grown : MFile)
        → Same grown
        → Keeps Same (do
          new_map ← do_map os grown.offset
          elim new_map.map [
            | none ↦ pure false
            | some view ↦ do
              put_file (record grown { current_map = some new_map; map_offset = 0 })
              pure true
          ])
    remap-Keeps grown h =
        Keeps-bind Same (do_map os grown.offset) _ (do_map-Keeps Same grown.offset)
          (λ new_map. mapped new_map new_map.map)
      where
        mapped :
            (m : ActiveMap) (sink : Sink)
            → Keeps Same (elim sink [
              | none ↦ pure false
              | some view ↦ do
                put_file (record grown { current_map = some m; map_offset = 0 })
                pure true
            ])
        mapped m none = Keeps-pure Same false
        mapped m (some view) =
            Keeps-bind Same (put_file (record grown { current_map = some m; map_offset = 0 }))
              (λ u. pure true)
              (Keeps-put Same (record grown { current_map = some m; map_offset = 0 })
                (record {
                  handle = h.handle;
                  name = h.name;
                  validity = h.validity;
                  pages = h.pages;
                }))
              (λ u. Keeps-pure Same true)

    reserve-Keeps : (size : ℕ) → Keeps Same (reserve os size)
    unfolding reserve
    reserve-Keeps size = Keeps-get Same _ (λ f h.
        Keeps-if Same (ltb f.size (u64 (f.offset + size))) _ (pure true)
          (Keeps-bind Same (expand_size os size) _ (expand_size-Keeps size)
            (λ done. Keeps-get Same _ (λ grown k. remap-Keeps grown k)))
          (Keeps-pure Same true))

    put_bytes-Keeps :
        (buffer : Option (List ℕ)) (size : ℕ) (view : View)
        → Keeps Same (put_bytes buffer size view)
    unfolding put_bytes
    put_bytes-Keeps buffer size view = Keeps-get Same _ (λ f h.
        let bytes = source_bytes buffer size in
        let moved : MFile = record f {
          map_offset = u64 (f.map_offset + size);
          offset = u64 (f.offset + size);
        } in
        Keeps-if Same (ltb view.length (f.map_offset + size) || not (length bytes == size)) fault _
          (Keeps-fault Same)
          (Keeps-bind Same (write_cells (view.start + f.map_offset) bytes) _
            (Keeps-write Same (view.start + f.map_offset) bytes)
            (λ u.
              Keeps-bind Same (put_file moved) (λ v. pure (view.start + f.map_offset))
                (Keeps-put Same moved (record {
                  handle = h.handle;
                  name = h.name;
                  validity = h.validity;
                  pages = h.pages;
                }))
                (λ v. Keeps-pure Same (view.start + f.map_offset)))))

    put_sink-Keeps :
        (buffer : Option (List ℕ)) (size : ℕ) (active : ActiveMap) (sink : Sink)
        → Keeps Same (put_sink buffer size active sink)
    unfolding put_sink
    put_sink-Keeps buffer size active none = Keeps-get Same _ (λ f h.
        Keeps-if Same (f.map_offset == 0) (pure (none, some active)) fault
          (Keeps-pure Same (none, some active)) (Keeps-fault Same))
    put_sink-Keeps buffer size active (some view) =
        Keeps-bind Same (put_bytes buffer size view) (λ position. pure (some position, some active))
          (put_bytes-Keeps buffer size view)
          (λ position. Keeps-pure Same (some position, some active))

    put_active-Keeps :
        (buffer : Option (List ℕ)) (size : ℕ) (active : Option ActiveMap)
        → Keeps Same (put_active buffer size active)
    unfolding put_active
    put_active-Keeps buffer size none = Keeps-fault Same
    put_active-Keeps buffer size (some active) = put_sink-Keeps buffer size active active.map

    pub write-Keeps : (buffer : Option (List ℕ)) (size : ℕ) → Keeps Same (write os buffer size)
    unfolding write
    write-Keeps buffer size = Keeps-bind Same (reserve os size) _ (reserve-Keeps size) (λ ready.
        Keeps-if Same (not ready) (pure (none, none)) _ (Keeps-pure Same (none, none))
          (Keeps-get Same _ (λ f h. put_active-Keeps buffer size f.current_map)))
