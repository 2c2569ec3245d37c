-- ===== src/Maps/Ownership.antt =====
-- Each mapping has one owner, is unmapped by it, and never twice.
use slow_scanner.Prelude.{
  if◌then◌else◌, Bool, ℕ, ◌+◌, ◌≤◌, ◌<◌, ◌≡◌, refl, ap, Option, none, some, List, [], ◌∷◌, ◌++◌,
  arith, ◌==◌, Bool-cases, inl, inr, ==_iff,
}
use slow_scanner.Maps.{
  Objects, unmap, release, construct, move_construct, move_assign, to_earlier, to_later, destroy,
  is_owner, owners, times_mapped, IsFresh, Step, make, move_new, assign_earlier, assign_later,
  assign_self, drop, Reach, here, next,
}

owners-append : (k : ℕ) (us vs : List (Option ℕ)) → owners k (us ++ vs) ≡ owners k us + owners k vs
owners-append k [] vs = omega arith
owners-append k (u ∷ us) vs = omega (arith, owners-append k us vs)

-- A mapping that is there can be unmapped, and no other is affected.
Unmapped : Option ℕ → List ℕ → Option (List ℕ) → Type 0
Unmapped x mapped none = ⊥
Unmapped x mapped (some left) = (j : ℕ) → times_mapped j mapped ≡ times_mapped j left + is_owner j x

unmap-Unmapped :
    (k : ℕ) (mapped : List ℕ)
    → 0 < times_mapped k mapped
    → (left : List ℕ) × (unmap k mapped ≡ some left)
      × ((j : ℕ) → times_mapped j mapped ≡ times_mapped j left + is_owner j (some k))
unfolding unmap
unmap-Unmapped k [] h = absurd (omega arith)
unmap-Unmapped k (i ∷ is) h = elim (Bool-cases (i == k)) [
  | inl hit ↦
      let e : i ≡ k = (==_iff i k).0 hit in
      (
        is,
        ap
            (λ (b : Bool).
              if b
              then some is
              else elim (unmap k is) [ none ↦ none | some left ↦ some (i ∷ left) ])
            hit,
        λ j. omega (arith, ap (λ (x : ℕ). is_owner j (some x)) e),
      )
  | inr miss ↦
      let zero_here : is_owner k (some i) ≡ 0 = rw miss refl in
      let (left, e, f) = unmap-Unmapped k is (omega (arith, zero_here)) in
      (i ∷ left, rw (miss, e) refl, λ j. omega (arith, f j))
]

release-lem :
    (x : Option ℕ) (mapped : List ℕ)
    → ((k : ℕ) → is_owner k x ≤ times_mapped k mapped)
    → (left : List ℕ) × (release x mapped ≡ some left)
      × ((j : ℕ) → times_mapped j mapped ≡ times_mapped j left + is_owner j x)
unfolding release
release-lem none mapped h = (mapped, refl, λ j. omega arith)
release-lem (some k) mapped h =
    let own : is_owner k (some k) ≡ 1 = ground arith in
    unmap-Unmapped k mapped (omega (arith, h k, own))

-- Each mapping is held by as many objects as it is mapped times, and that is at most once.
pub record IsOwned (p : Objects) : Type 0 where
  pub held : (k : ℕ) → times_mapped k p.mapped ≡ owners k p.sinks
  pub single : (k : ℕ) → times_mapped k p.mapped ≤ 1

-- The operation did not fault, and the objects are still owned so.
abbrev pub Owned : Option Objects → Type 0
Owned none = ⊥
Owned (some p) = IsOwned p

owners-at :
    (k : ℕ) (p : Objects) (us vs : List (Option ℕ)) (x : Option ℕ)
    → p.sinks ≡ us ++ x ∷ vs
    → owners k p.sinks ≡ owners k us + is_owner k x + owners k vs
owners-at k p us vs x e = omega (arith, ap (owners k) e, owners-append k us (x ∷ vs))

owners-at_two :
    (k : ℕ) (p : Objects) (us vs ws : List (Option ℕ)) (x y : Option ℕ)
    → p.sinks ≡ us ++ x ∷ (vs ++ y ∷ ws)
    → owners k p.sinks ≡ owners k us + is_owner k x + owners k vs + is_owner k y + owners k ws
owners-at_two k p us vs ws x y e =
    omega (arith, owners-at k p us (vs ++ y ∷ ws) x e, owners-append k vs (y ∷ ws))

make-IsOwned :
    (p : Objects) (x : Option ℕ) → IsFresh x p.mapped → IsOwned p → IsOwned (construct x p)
unfolding construct
make-IsOwned p none f h = record {
  held = λ k. omega (arith, h.held k, owners-append k p.sinks (none ∷ []));
  single = h.single;
}
make-IsOwned p (some j) f h = record {
  held = λ k. omega (arith, h.held k, owners-append k p.sinks (some j ∷ []));
  single = λ k. elim (Bool-cases (j == k)) [
    | inl hit ↦
        let e : j ≡ k = (==_iff j k).0 hit in
        rw hit (omega (arith, ap (λ (i : ℕ). times_mapped i p.mapped) e, f))
    | inr miss ↦ rw miss (omega (arith, h.single k))
  ];
}

move_construct-IsOwned :
    (p : Objects) (us vs : List (Option ℕ)) (x : Option ℕ)
    → p.sinks ≡ us ++ x ∷ vs
    → IsOwned p
    → IsOwned (move_construct us x vs p)
unfolding move_construct
move_construct-IsOwned p us vs x e h = record {
  held = λ k. omega (
    arith,
    h.held k,
    owners-at k p us vs x e,
    owners-append k (us ++ none ∷ vs) (x ∷ []),
    owners-append k us (none ∷ vs),
  );
  single = h.single;
}

-- What an object holds is mapped.
has_mapping :
    (p : Objects) (us vs : List (Option ℕ)) (x : Option ℕ)
    → p.sinks ≡ us ++ x ∷ vs
    → IsOwned p
    → (k : ℕ) → is_owner k x ≤ times_mapped k p.mapped
has_mapping p us vs x e h k = omega (arith, h.held k, owners-at k p us vs x e)

-- The state once the mapping of `x` is gone, for sinks that hold all the others.
released-IsOwned :
    (p : Objects) (x : Option ℕ) (left : List ℕ) (sinks : List (Option ℕ))
    → ((j : ℕ) → times_mapped j p.mapped ≡ times_mapped j left + is_owner j x)
    → ((j : ℕ) → owners j p.sinks ≡ owners j sinks + is_owner j x)
    → IsOwned p
    → IsOwned (record { sinks = sinks; mapped = left })
released-IsOwned p x left sinks gone others h = record {
  held = λ k. omega (arith, h.held k, gone k, others k);
  single = λ k. omega (arith, h.single k, gone k);
}

destroy-Owned :
    (p : Objects) (us vs : List (Option ℕ)) (x : Option ℕ)
    → p.sinks ≡ us ++ x ∷ vs
    → IsOwned p
    → Owned (destroy us x vs p)
unfolding destroy
destroy-Owned p us vs x e h =
    let (left, r, gone) = release-lem x p.mapped (has_mapping p us vs x e h) in
    rw (Owned, r)
      (released-IsOwned p x left (us ++ vs) gone
        (λ j. omega (arith, owners-at j p us vs x e, owners-append j us vs)) h)

module _ (p : Objects) (us vs ws : List (Option ℕ)) (x y : Option ℕ)
    (e : p.sinks ≡ us ++ x ∷ (vs ++ y ∷ ws)) (h : IsOwned p) where
  assign_earlier-Owned : Owned (to_earlier us vs ws (move_assign x y p.mapped))
  unfolding move_assign
  assign_earlier-Owned =
      let (left, r, gone) =
        release-lem x p.mapped (λ k. omega (arith, h.held k, owners-at_two k p us vs ws x y e)) in
      rw (Owned, r)
        (released-IsOwned p x left (us ++ y ∷ (vs ++ none ∷ ws)) gone
          (λ j. omega (
            arith,
            owners-at_two j p us vs ws x y e,
            owners-append j us (y ∷ (vs ++ none ∷ ws)),
            owners-append j vs (none ∷ ws),
          ))
          h)

  assign_later-Owned : Owned (to_later us vs ws (move_assign y x p.mapped))
  unfolding move_assign
  assign_later-Owned =
      let (left, r, gone) =
        release-lem y p.mapped (λ k. omega (arith, h.held k, owners-at_two k p us vs ws x y e)) in
      rw (Owned, r)
        (released-IsOwned p y left (us ++ none ∷ (vs ++ x ∷ ws)) gone
          (λ j. omega (
            arith,
            owners-at_two j p us vs ws x y e,
            owners-append j us (none ∷ (vs ++ x ∷ ws)),
            owners-append j vs (x ∷ ws),
          ))
          h)

Step-Owned : {p : Objects} {o : Option Objects} → Step p o → IsOwned p → Owned o
Step-Owned (make p x f) h = make-IsOwned p x f h
Step-Owned (move_new p us vs x e) h = move_construct-IsOwned p us vs x e h
Step-Owned (assign_earlier p us vs ws x y e) h = assign_earlier-Owned p us vs ws x y e h
Step-Owned (assign_later p us vs ws x y e) h = assign_later-Owned p us vs ws x y e h
Step-Owned (assign_self p) h = h
Step-Owned (drop p us vs x e) h = destroy-Owned p us vs x e h

Reach-IsOwned : (p : Objects) → Reach p → IsOwned p
Reach-IsOwned _ here = record { held = λ k. refl; single = λ k. omega arith }
Reach-IsOwned _ (next r s) = Step-Owned s (Reach-IsOwned _ r)

-- From any objects that can be reached, no construction, move, self-assignment or destruction of an
-- `active_map` unmaps what is not mapped; and afterwards each mapping is held by exactly one object,
-- so when the last object is gone no mapping is left.
pub Reach-Owned : (p : Objects) (o : Option Objects) → Reach p → Step p o → Owned o
Reach-Owned p o r s = Step-Owned s (Reach-IsOwned p r)
