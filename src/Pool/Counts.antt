-- ===== src/Pool/Counts.antt =====
-- How many workers of a list are in a phase.
use slow_scanner.Prelude.{ℕ, zero, suc, ◌+◌, ◌≡◌, refl, ap, ◌∙◌, List, [], ◌∷◌, ◌++◌, arith, map}
use slow_scanner.Pool.{
  Phase, checking, asleep, running, exited, Pool, idle_workers, wake, is_asleep, is_exited, count,
}

pub count-append :
    (f : Phase → ℕ) (us vs : List Phase) (x : Phase)
    → count f (us ++ x ∷ vs) ≡ count f us + f x + count f vs
count-append f [] vs x = omega arith
count-append f (u ∷ us) vs x = omega (arith, count-append f us vs x)

pub count-idle :
    (n : ℕ) → (count is_asleep (idle_workers n) ≡ 0) × (count is_exited (idle_workers n) ≡ 0)
count-idle zero = (refl, refl)
count-idle (suc n) = (omega (arith, (count-idle n).0), omega (arith, (count-idle n).1))

pub count-wake :
    (ws : List Phase)
    → (count is_asleep (map wake ws) ≡ 0) × (count is_exited (map wake ws) ≡ count is_exited ws)
count-wake [] = (refl, refl)
count-wake (checking ∷ ws) = (omega (arith, (count-wake ws).0), omega (arith, (count-wake ws).1))
count-wake (asleep ∷ ws) = (omega (arith, (count-wake ws).0), omega (arith, (count-wake ws).1))
count-wake (running t ∷ ws) = (omega (arith, (count-wake ws).0), omega (arith, (count-wake ws).1))
count-wake (exited ∷ ws) = (omega (arith, (count-wake ws).0), omega (arith, (count-wake ws).1))

pub count-at :
    (f : Phase → ℕ) (p : Pool) (us vs : List Phase) (x : Phase)
    → p.workers ≡ us ++ x ∷ vs
    → count f p.workers ≡ count f us + f x + count f vs
count-at f p us vs x e = ap (count f) e ∙ count-append f us vs x
