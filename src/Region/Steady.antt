-- ===== src/Region/Steady.antt =====
-- What a read of a region changes of the dump file, however its calls fail.
use slow_scanner.Prelude.{
  ℕ, ◌-◌, ◌*◌, true, false, Option, none, some, List, [], ◌∷◌, ◌++◌, ◌==◌, leb, length,
}
use slow_scanner.Prelude.Int.{is_minus_one, negsuc, int_of_size}
use slow_scanner.Words.{u64, long_to_handle}
use slow_scanner.World.{ActiveMap, Os, MFile, pure, fault, call, write_cells, ◌>>◌}
use slow_scanner.File.{write}
use slow_scanner.File.Steady.{
  Keeps, Keeps-pure, Keeps-fault, Keeps-call, Keeps-if, Keeps-bind, Keeps-write, IsSame,
  write-Keeps,
}
use slow_scanner.Dump.{Span, no_span, Dumpable, insert_active, write_data, dump, alloc_f}
use slow_scanner.Region.{Region, base, size, fetch_into, fetch, read_memory}

module _ (os : Os) (f0 : MFile) where
  abbrev Same : MFile → Type 0
  Same = IsSame f0

  pub write_data-Keeps :
      (buffer : Option (List ℕ)) (n : ℕ) (d : Dumpable) → Keeps Same (write_data os buffer n d)
  unfolding write_data
  write_data-Keeps buffer n d =
      Keeps-bind Same (write os buffer (u64 (n * 1))) _ (write-Keeps os f0 buffer (u64 (n * 1)))
        (λ (pointer, m). stored pointer m)
    where
      stored :
          (pointer : Option ℕ) (m : Option ActiveMap)
          → Keeps Same {A = Span × Dumpable} (elim pointer [
            | none ↦ pure (no_span, d)
            | some p ↦
                pure (record { position = p; size = n }, record d { maps = insert_active m d.maps })
          ])
      stored none m = Keeps-pure Same (no_span, d)
      stored (some p) m =
          Keeps-pure Same
            (record { position = p; size = n }, record d { maps = insert_active m d.maps })

  pub alloc_f-Keeps : (n : ℕ) (d : Dumpable) → Keeps Same (alloc_f os n d)
  unfolding alloc_f dump
  alloc_f-Keeps n d =
      Keeps-bind Same (write_data os none n d) _ (write_data-Keeps none n d) (λ (s, d').
        Keeps-if Same (s.size == 0) (pure (negsuc 0, d'))
          (pure (
            int_of_size (length (d'.spans ++ s ∷ []) - 1),
            record d' { spans = d'.spans ++ s ∷ [] },
          ))
          (Keeps-pure Same (negsuc 0, d'))
          (Keeps-pure Same (
            int_of_size (length (d'.spans ++ s ∷ []) - 1),
            record d' { spans = d'.spans ++ s ∷ [] },
          )))

  pub fetch-Keeps : (r : Region) (spans : List Span) → Keeps Same (fetch_into os r spans)
  unfolding fetch_into
  fetch-Keeps r [] = Keeps-fault Same
  fetch-Keeps r (s ∷ ss) =
      Keeps-bind Same
        (call (λ t. os.read_process_memory t (long_to_handle r.process_handle) (base r) (size r))) _
        (Keeps-call Same
          (λ t. os.read_process_memory t (long_to_handle r.process_handle) (base r) (size r)))
        (λ (success, bytes).
          Keeps-if Same (leb (length bytes) s.size)
            (write_cells s.position bytes >> pure (success, r)) fault
            (Keeps-bind Same (write_cells s.position bytes) (λ u. pure (success, r))
              (Keeps-write Same s.position bytes) (λ u. Keeps-pure Same (success, r)))
            (Keeps-fault Same))

  pub read_memory-Keeps : (r : Region) → Keeps Same (read_memory os r)
  unfolding read_memory fetch
  read_memory-Keeps r = Keeps-if Same r.mem_reserved (fetch os r) _ (fetch-Keeps r r.dumped.spans) (
      Keeps-bind Same (alloc_f os (size r) r.dumped) _ (alloc_f-Keeps (size r) r.dumped)
        (λ (index, d).
          Keeps-if Same (is_minus_one index) (pure (false, record r { dumped = d }))
            (fetch os (record r { dumped = d; mem_reserved = true }))
            (Keeps-pure Same (false, record r { dumped = d }))
            (fetch-Keeps (record r { dumped = d; mem_reserved = true }) d.spans)))
