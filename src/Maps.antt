-- ===== src/Maps.antt =====
-- Class `active_map` of dumpable/dumpable.hpp: an object that owns a mapping, and unmaps it once.
pub mod Ownership
use slow_scanner.Prelude.{
  ℕ, ◌+◌, ◌≡◌, Bool, Option, none, some, List, [], ◌∷◌, ◌++◌, if◌then◌else◌, ◌==◌,
}

-- The objects that live, each as the mapping that its `_map` holds, `none` where `data()` is null;
-- and the mappings that the process has. Mappings are numbered.
pub record Objects : Type 0 where
  pub sinks : List (Option ℕ)
  pub mapped : List ℕ

-- `mmap_sink::unmap`; it is a fault, which is `none`, to unmap what is not mapped.
unfoldable pub unmap : ℕ → List ℕ → Option (List ℕ)
unmap k [] = none
unmap k (j ∷ js) =
    let rest = unmap k js in
    if j == k then some js else elim rest [ none ↦ none | some left ↦ some (j ∷ left) ]

-- `if (_map.data()) _map.unmap();`
unfoldable pub release : Option ℕ → List ℕ → Option (List ℕ)
release none mapped = some mapped
release (some k) mapped = unmap k mapped

-- What the constructor gets from `make_mmap_sink`.
abbrev pub opened : Option ℕ → List ℕ → List ℕ
opened none mapped = mapped
opened (some k) mapped = k ∷ mapped

-- The constructor with a file name. An error is not looked at, and leaves a sink without data.
unfoldable pub construct : Option ℕ → Objects → Objects
construct sink p = record { sinks = p.sinks ++ sink ∷ []; mapped = opened sink p.mapped }

-- The move constructor, from the object between `us` and `vs`: a sink that is moved from has no data.
unfoldable pub move_construct : List (Option ℕ) → Option ℕ → List (Option ℕ) → Objects → Objects
move_construct us sink vs p = record p { sinks = (us ++ none ∷ vs) ++ sink ∷ [] }

-- The move assignment between two objects: the sinks of this one and the other, afterwards.
unfoldable pub move_assign : Option ℕ → Option ℕ → List ℕ → Option ((Option ℕ × Option ℕ) × List ℕ)
move_assign this other mapped = elim (release this mapped) [
  | none ↦ none
  | some left ↦ some ((other, none), left)
]

-- The objects after a move assignment to the earlier, and to the later of two.
abbrev pub to_earlier :
    List (Option ℕ)
    → List (Option ℕ)
    → List (Option ℕ)
    → Option ((Option ℕ × Option ℕ) × List ℕ)
    → Option Objects
to_earlier us vs ws none = none
to_earlier us vs ws (some ((this, other), left)) =
    some (record { sinks = us ++ this ∷ (vs ++ other ∷ ws); mapped = left })

abbrev pub to_later :
    List (Option ℕ)
    → List (Option ℕ)
    → List (Option ℕ)
    → Option ((Option ℕ × Option ℕ) × List ℕ)
    → Option Objects
to_later us vs ws none = none
to_later us vs ws (some ((this, other), left)) =
    some (record { sinks = us ++ other ∷ (vs ++ this ∷ ws); mapped = left })

-- The destructor, of the object between `us` and `vs`.
unfoldable pub destroy : List (Option ℕ) → Option ℕ → List (Option ℕ) → Objects → Option Objects
destroy us sink vs p = elim (release sink p.mapped) [
  | none ↦ none
  | some left ↦ some (record { sinks = us ++ vs; mapped = left })
]

-- Does a sink hold the mapping `k`: once or not at all.
abbrev pub is_owner : ℕ → Option ℕ → ℕ
is_owner k none = 0
is_owner k (some j) = if j == k then 1 else 0

-- How many objects hold it.
abbrev pub owners : ℕ → List (Option ℕ) → ℕ
owners k [] = 0
owners k (x ∷ xs) = is_owner k x + owners k xs

-- How often it is mapped.
abbrev pub times_mapped : ℕ → List ℕ → ℕ
times_mapped k [] = 0
times_mapped k (j ∷ js) = is_owner k (some j) + times_mapped k js

-- The system gives out a mapping that is not in use.
abbrev pub IsFresh : Option ℕ → List ℕ → Type 0
IsFresh none mapped = Unit {0}
IsFresh (some k) mapped = times_mapped k mapped ≡ 0

-- The operations, each with the objects afterwards, `none` for a fault.
pub data Step : Objects → Option Objects → Type 0 where
  make : (p : Objects) (sink : Option ℕ) → IsFresh sink p.mapped → Step p (some (construct sink p))
  move_new :
      (p : Objects) (us vs : List (Option ℕ)) (x : Option ℕ)
      → p.sinks ≡ us ++ x ∷ vs
      → Step p (some (move_construct us x vs p))
  assign_earlier :
      (p : Objects) (us vs ws : List (Option ℕ)) (x y : Option ℕ)
      → p.sinks ≡ us ++ x ∷ (vs ++ y ∷ ws)
      → Step p (to_earlier us vs ws (move_assign x y p.mapped))
  assign_later :
      (p : Objects) (us vs ws : List (Option ℕ)) (x y : Option ℕ)
      → p.sinks ≡ us ++ x ∷ (vs ++ y ∷ ws)
      → Step p (to_later us vs ws (move_assign y x p.mapped))
  assign_self : (p : Objects) → Step p (some p)
  drop :
      (p : Objects) (us vs : List (Option ℕ)) (x : Option ℕ)
      → p.sinks ≡ us ++ x ∷ vs
      → Step p (destroy us x vs p)

-- What can be reached without a fault.
pub data Reach : Objects → Type 0 where
  here : Reach (record { sinks = []; mapped = [] })
  next : {p q : Objects} → Reach p → Step p (some q) → Reach q
