-- ===== src/Dump/Spans.antt =====
-- `dumpable::dump` and `span`: what is written is appended, can be found by the index that is
-- returned, and what was written before stays as it is.
use slow_scanner.Prelude.{
  ℕ, ◌+◌, ◌-◌, ◌*◌, ◌^◌, ◌<◌, ◌≡◌, refl, ap, ◌∙◌, subst, ◌⊎◌, ◌≢◌, inl, inr, false, Option, none,
  some, List, [], ◌∷◌, ◌++◌, arith, length, length-append, get_or, get_or-get_elem?,
  get_or-append_left, get_or-append_last, le→ltb, ◌==◌,
}
use slow_scanner.Prelude.Int.{ℤ, pos, negsuc, int_of_size}
use slow_scanner.Words.{u64}
use slow_scanner.World.{ActiveMap, Os, World, blit, ◌>>=◌}
use slow_scanner.File.{source_bytes, write}
use slow_scanner.File.Reserve.{MapsExactly, CanGrow, MapFailed, IsLean, HasSpace, IsMapped}
use slow_scanner.File.Write.{Holds, Supplies, Written, write-Written}
use slow_scanner.Dump.{no_span, Dumpable, insert_active, write_data, dump, alloc_f, span}

-- `n` bytes were written at the write position, and the new span is the last.
pub record Appended (buffer : Option (List ℕ)) (n : ℕ) (d : Dumpable) (w : World) (d' : Dumpable)
    (w' : World) : Type 0 where
  pub active : Option ActiveMap
  pub spans : d'.spans ≡ d.spans ++ (record { position = w.file.offset; size = n }) ∷ []
  pub in_memory : d'.in_memory ≡ d.in_memory
  pub kept : d'.maps ≡ insert_active active d.maps
  pub holds : Holds active w.file.offset n
  pub cells : w'.cells ≡ blit w.cells w.file.offset (source_bytes buffer n)
  pub offset : w'.file.offset ≡ w.file.offset + n
  pub mapped : IsMapped w'.file
  pub lean : IsLean w'.file

-- Nothing was written, since a mapping failed.
pub record Unwritten (os : Os) (d : Dumpable) (w : World) (d' : Dumpable) (w' : World)
    : Type 0 where
  pub unmapped : MapFailed os
  pub same : d' ≡ d
  pub cells : w'.cells ≡ w.cells
  pub offset : w'.file.offset ≡ w.file.offset

abbrev pub Dumped :
    Os → Option (List ℕ) → ℕ → Dumpable → World → Option ((ℤ × Dumpable) × World) → Type 0
Dumped os buffer n d w none = ⊥
Dumped os buffer n d w (some ((index, d'), w')) =
    ((index ≡ negsuc 0) × Unwritten os d w d' w')
    ⊎ ((index ≡ int_of_size (length d.spans)) × Appended buffer n d w d' w')

module _ (os : Os) (buffer : Option (List ℕ)) (n : ℕ) (d : Dumpable) (w : World) (positive : 0 < n)
    (small : n < 2 ^ 64) where
  dump-Written :
      (r : Option ((Option ℕ × Option ActiveMap) × World))
      → write os buffer n w ≡ r
      → Written os buffer n w r
      → Dumped os buffer n d w (dump os buffer n d w)
  unfolding dump write_data
  dump-Written none e h = absurd h
  dump-Written (some ((none, active), w')) e h =
      let one : u64 (n * 1) ≡ n = omega arith in
      rw (one, ◌>>=◌, e)
        (inl (refl, record { unmapped = h.1; same = refl; cells = h.2; offset = h.3 }))
  dump-Written (some ((some p, active), w')) e h =
      let one : u64 (n * 1) ≡ n = omega arith in
      let nonzero : (n == 0) ≡ false = ground arith in
      rw (one, ◌>>=◌, e, nonzero)
        (inr (
          ap int_of_size
              (omega (arith, length-append d.spans (record { position = p; size = n } ∷ []))),
          record {
            active = active;
            spans = ap (λ (q : ℕ). d.spans ++ record { position = q; size = n } ∷ []) h.0;
            in_memory = refl;
            kept = refl;
            holds = subst (λ q. Holds active q n) h.0 h.4;
            cells = h.2 ∙ ap (λ (q : ℕ). blit w.cells q (source_bytes buffer n)) h.0;
            offset = h.1;
            mapped = h.5;
            lean = h.6;
          },
        ))

-- On a file whose map is up to date and that is at most four times its data and a page, with space
-- for the data below 2 ^ 64 and a disk that has room, `dump` of at least one byte returns -1 and
-- changes neither the object nor a byte, or appends one span: the next `n` bytes of the file,
-- which hold the buffer (zeros for a null buffer), inside the view of a map that the object then
-- keeps. The index is the number of spans before, as an `int`.
pub dump-Dumped :
    (os : Os) (buffer : Option (List ℕ)) (n : ℕ) (d : Dumpable) (w : World)
    → MapsExactly os
    → CanGrow os
    → IsMapped w.file
    → 0 < n
    → IsLean w.file
    → HasSpace n w.file
    → Supplies n buffer
    → Dumped os buffer n d w (dump os buffer n d w)
dump-Dumped os buffer n d w exact grow inv positive lean space s =
    dump-Written os buffer n d w positive (omega arith) (write os buffer n w) refl
      (write-Written os buffer n w exact grow inv positive lean space s)

pub alloc_f-Dumped :
    (os : Os) (n : ℕ) (d : Dumpable) (w : World)
    → MapsExactly os
    → CanGrow os
    → IsMapped w.file
    → 0 < n
    → IsLean w.file
    → HasSpace n w.file
    → Dumped os none n d w (alloc_f os n d w)
unfolding alloc_f
alloc_f-Dumped os n d w exact grow inv positive lean space =
    dump-Dumped os none n d w exact grow inv positive lean space tt

-- `span` at an index that is not negative, and at one that is.
span_pos : (i : ℕ) (d : Dumpable) → span (pos i) d ≡ some (get_or d.spans i no_span)
unfolding span
span_pos i d = get_or-get_elem? d.spans i no_span

-- For fewer than 2 ^ 63 spans `span` never reads past the end of them: every negative index, -1 and
-- those that the unsigned comparison turns into huge ones, gives an empty span; any other gives the
-- span of that number, and an empty one past the last.
pub span_total :
    (d : Dumpable)
    → length d.spans < 2 ^ 63
    → ((i : ℕ) → span (pos i) d ≡ some (get_or d.spans i no_span))
      × ((k : ℕ) → k < 2 ^ 31 → span (negsuc k) d ≡ some no_span)
unfolding span
span_total d small = ((λ i. span_pos i d), (λ k h. ground arith))

blit_below : (c : ℕ → ℕ) (p : ℕ) (bs : List ℕ) (j : ℕ) → j < p → blit c p bs j ≡ c j
blit_below c p bs j h = ground arith

blit_at : (c : ℕ → ℕ) (p : ℕ) (bs : List ℕ) (j : ℕ) → blit c p bs (p + j) ≡ get_or bs j (c (p + j))
blit_at c p bs j = let e : p + j - p ≡ j = omega arith in rw (le→ltb (p + j) p (omega arith), e)

-- What a successful `dump` can be asked for afterwards: its index gives the new span, every older
-- index the span that it gave before, the new span holds the buffer's bytes, and every byte below
-- it, so every byte of an older span, is as it was.
pub record Retrieves (buffer : Option (List ℕ)) (n : ℕ) (d : Dumpable) (w : World) (index : ℤ)
    (d' : Dumpable) (w' : World) : Type 0 where
  pub newest : span index d' ≡ some (record { position = w.file.offset; size = n })
  pub older : (i : ℕ) → i < length d.spans → span (pos i) d' ≡ span (pos i) d
  pub bytes :
      (j : ℕ)
      → w'.cells (w.file.offset + j)
        ≡ get_or (source_bytes buffer n) j (w.cells (w.file.offset + j))
  pub below : (j : ℕ) → j < w.file.offset → w'.cells j ≡ w.cells j

pub dump_then_span :
    (buffer : Option (List ℕ)) (n : ℕ) (d : Dumpable) (w : World) (index : ℤ) (d' : Dumpable)
    (w' : World)
    → length d.spans < 2 ^ 31
    → index ≡ int_of_size (length d.spans)
    → Appended buffer n d w d' w'
    → Retrieves buffer n d w index d' w'
dump_then_span buffer n d w index d' w' small e a = record {
  newest =
      rw (e, is_pos)
        (span_pos (length d.spans) d'
          ∙ ap some (rw (a.spans) (get_or-append_last d.spans _ no_span)));
  older = λ i h.
      rw (span_pos i d', span_pos i d, a.spans)
        (ap some (get_or-append_left d.spans _ i no_span h));
  bytes = λ j. rw (a.cells) (blit_at w.cells w.file.offset _ j);
  below = λ j h. rw (a.cells) (blit_below w.cells w.file.offset _ j h);
}
  where
    is_pos : int_of_size (length d.spans) ≡ pos (length d.spans)
    is_pos = ground arith

-- The round trip of `dump` and `span`: if `dump` did not return -1, its result is as in `Retrieves`.
pub dump-Retrieves :
    (os : Os) (buffer : Option (List ℕ)) (n : ℕ) (d : Dumpable) (w : World) (index : ℤ)
    (d' : Dumpable) (w' : World)
    → MapsExactly os
    → CanGrow os
    → IsMapped w.file
    → 0 < n
    → IsLean w.file
    → HasSpace n w.file
    → Supplies n buffer
    → length d.spans < 2 ^ 31
    → dump os buffer n d w ≡ some ((index, d'), w')
    → index ≢ negsuc 0
    → Retrieves buffer n d w index d' w'
dump-Retrieves os buffer n d w index d' w' exact grow inv positive lean space s few e ne =
    elim (subst (Dumped os buffer n d w) e
      (dump-Dumped os buffer n d w exact grow inv positive lean space s)) [
        | inl (failed, _) ↦ absurd (ne failed)
        | inr (found, a) ↦ dump_then_span buffer n d w index d' w' few found a
      ]
