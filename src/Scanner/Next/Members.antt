-- ===== src/Scanner/Next/Members.antt =====
-- Scans among others, and the sort, which drops none.
use slow_scanner.Prelude.{◌≡◌, ◌⊎◌, inl, inr, refl, List, [], ◌∷◌, ◌++◌, Bool-cases, ltb}
use slow_scanner.Scan.{Scan}
use slow_scanner.Scanner.{scan_base, insert_scan, sort_scans}

-- Is a scan among others?
abbrev pub Has : Scan → List Scan → Type 0
Has s [] = ⊥
Has s (t ∷ ts) = s ≡ t ⊎ Has s ts

pub Has-append : (s : Scan) (ts us : List Scan) → Has s ts → Has s (ts ++ us)
Has-append s [] us h = absurd h
Has-append s (t ∷ ts) us (inl e) = inl e
Has-append s (t ∷ ts) us (inr h) = inr (Has-append s ts us h)

pub Has-last : (s : Scan) (ts : List Scan) → Has s (ts ++ s ∷ [])
Has-last s [] = inl refl
Has-last s (t ∷ ts) = inr (Has-last s ts)

Has-past :
    (s t u : Scan) (ts rest : List Scan)
    → (s ≡ t ⊎ Has s ts → Has s rest)
    → s ≡ t ⊎ Has s (u ∷ ts)
    → s ≡ u ⊎ Has s rest
Has-past s t u ts rest f (inl e) = inr (f (inl e))
Has-past s t u ts rest f (inr (inl e)) = inl e
Has-past s t u ts rest f (inr (inr k)) = inr (f (inr k))

insert_scan-Has : (s t : Scan) (ts : List Scan) → s ≡ t ⊎ Has s ts → Has s (insert_scan t ts)
unfolding insert_scan
insert_scan-Has s t [] h = h
insert_scan-Has s t (u ∷ ts) h = elim (Bool-cases (ltb (scan_base u) (scan_base t))) [
  | inr here ↦ rw here h
  | inl behind ↦ rw behind (Has-past s t u ts (insert_scan t ts) (insert_scan-Has s t ts) h)
]

pub sort_scans-Has : (s : Scan) (ts : List Scan) → Has s ts → Has s (sort_scans ts)
unfolding sort_scans
sort_scans-Has s [] h = h
sort_scans-Has s (t ∷ ts) (inl e) = insert_scan-Has s t (sort_scans ts) (inl e)
sort_scans-Has s (t ∷ ts) (inr h) =
    insert_scan-Has s t (sort_scans ts) (inr (sort_scans-Has s ts h))
