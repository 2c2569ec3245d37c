-- ===== src/Scanner/Sort.antt =====
-- The sort at the end of both scans, and the orders in which the pool may run the tasks.
use mathlib.Core.List.{Permᴰ}
use mathlib.Core.List.Permᴰ
use slow_scanner.Prelude.{
  ℕ, ◌≤◌, ◌≡◌, refl, ap, ◌+◌, ◌∙◌, sym, subst, List, [], ◌∷◌, map, arith, Bool-cases, All, All-map,
  ltb, inl, inr,
}
use slow_scanner.Scan.{Scan}
use slow_scanner.Scanner.{scan_base, insert_scan, sort_scans}

-- By base address, ascending.
abbrev pub IsSorted : List Scan → Type 0
IsSorted [] = Unit {0}
IsSorted (s ∷ ss) = All (λ t. scan_base s ≤ scan_base t) ss × IsSorted ss

insert_scan-perm : (s : Scan) (ts : List Scan) → Permᴰ (insert_scan s ts) (s ∷ ts)
unfolding insert_scan
insert_scan-perm s [] = Permᴰ.refl (s ∷ [])
insert_scan-perm s (t ∷ ts) = elim (Bool-cases (ltb (scan_base t) (scan_base s))) [
  | inl behind ↦
      rw behind (Permᴰ.trans (Permᴰ.cons refl (insert_scan-perm s ts)) (Permᴰ.swap refl refl))
  | inr here ↦ rw here (Permᴰ.refl (s ∷ t ∷ ts))
]

insert_scan-All :
    (low : ℕ) (s : Scan) (ts : List Scan)
    → low ≤ scan_base s
    → All (λ t. low ≤ scan_base t) ts
    → All (λ t. low ≤ scan_base t) (insert_scan s ts)
unfolding insert_scan
insert_scan-All low s [] h a = (h, tt)
insert_scan-All low s (t ∷ ts) h a = elim (Bool-cases (ltb (scan_base t) (scan_base s))) [
  | inl behind ↦ rw behind (a.0, insert_scan-All low s ts h a.1)
  | inr here ↦ rw here (h, a)
]

insert_scan-IsSorted : (s : Scan) (ts : List Scan) → IsSorted ts → IsSorted (insert_scan s ts)
unfolding insert_scan
insert_scan-IsSorted s [] h = (tt, tt)
insert_scan-IsSorted s (t ∷ ts) h = elim (Bool-cases (ltb (scan_base t) (scan_base s))) [
  | inl behind ↦
      rw behind
        (insert_scan-All (scan_base t) s ts (ground arith) h.0, insert_scan-IsSorted s ts h.1)
  | inr here ↦
      let at_most : scan_base s ≤ scan_base t = ground arith in
      rw here (
        (
          at_most,
          All-map (λ u. scan_base t ≤ scan_base u) (λ u. scan_base s ≤ scan_base u) ts
              (λ u k. omega arith) h.0,
        ),
        h,
      )
]

pub sort_scans-perm : (ss : List Scan) → Permᴰ (sort_scans ss) ss
unfolding sort_scans
sort_scans-perm [] = Permᴰ.refl []
sort_scans-perm (s ∷ ss) =
    Permᴰ.trans (insert_scan-perm s (sort_scans ss)) (Permᴰ.cons refl (sort_scans-perm ss))

pub sort_scans-IsSorted : (ss : List Scan) → IsSorted (sort_scans ss)
unfolding sort_scans
sort_scans-IsSorted [] = tt
sort_scans-IsSorted (s ∷ ss) = insert_scan-IsSorted s (sort_scans ss) (sort_scans-IsSorted ss)

module _ {A : Type 0} where
  pub Permᴰ-All : (P : A → Type 0) {l m : List A} → Permᴰ l m → All P m → All P l
  Permᴰ-All P Permᴰ.nil h = tt
  Permᴰ-All P (Permᴰ.cons e p) h = (subst P (sym e) h.0, Permᴰ-All P p h.1)
  Permᴰ-All P (Permᴰ.swap e f) h = (subst P (sym e) h.1.0, (subst P (sym f) h.0, h.1.1))
  Permᴰ-All P (Permᴰ.trans p q) h = Permᴰ-All P p (Permᴰ-All P q h)

  -- The sum of a measure over a list.
  abbrev pub total : (A → ℕ) → List A → ℕ
  total f [] = 0
  total f (x ∷ xs) = f x + total f xs

  pub Permᴰ-total : (f : A → ℕ) {l m : List A} → Permᴰ l m → total f l ≡ total f m
  Permᴰ-total f Permᴰ.nil = refl
  Permᴰ-total f (Permᴰ.cons e p) = omega (arith, ap f e, Permᴰ-total f p)
  Permᴰ-total f (Permᴰ.swap e g) = omega (arith, ap f e, ap f g)
  Permᴰ-total f (Permᴰ.trans p q) = Permᴰ-total f p ∙ Permᴰ-total f q

module _ {A B : Type 0} (f : A → B) where
  -- A reordered image is the image of a reordered list.
  pub Permᴰ-map_inv :
      {l m : List B} (p : Permᴰ l m) (xs : List A)
      → m ≡ map f xs
      → (ys : List A) × (l ≡ map f ys) × Permᴰ ys xs
  Permᴰ-map_inv Permᴰ.nil [] e = ([], refl, Permᴰ.nil)
  Permᴰ-map_inv Permᴰ.nil (x ∷ xs) e = cc
  Permᴰ-map_inv (Permᴰ.cons h p) [] e = cc
  Permᴰ-map_inv (Permᴰ.cons h p) (x ∷ xs) e =
      let (ys, l, q) = Permᴰ-map_inv p xs (cc) in (x ∷ ys, cc, Permᴰ.cons refl q)
  Permᴰ-map_inv (Permᴰ.swap g h) [] e = cc
  Permᴰ-map_inv (Permᴰ.swap g h) (x ∷ []) e = cc
  Permᴰ-map_inv (Permᴰ.swap g h) (x ∷ y ∷ xs) e = (y ∷ x ∷ xs, cc, Permᴰ.swap refl refl)
  Permᴰ-map_inv (Permᴰ.trans p q) xs e =
      let (ys, l, r) = Permᴰ-map_inv q xs e in
      let (zs, k, s) = Permᴰ-map_inv p ys l in (zs, k, Permᴰ.trans s r)
