-- ===== src/Pool/Shutdown.antt =====
-- The destructor of the pool: once it has woken the workers, each of them returns, and the tasks that
-- were accepted have all been started.
use slow_scanner.Prelude.{
  ℕ, zero, suc, ◌+◌, ◌*◌, ◌<◌, ◌≡◌, refl, sym, ap, subst, ◌∙◌, Bool, true, false, List, [], ◌∷◌,
  ◌++◌, arith, length, length-append, map, All,
}
use mathlib.Core.List.{append-nil}
use slow_scanner.Pool.{
  Phase, checking, asleep, running, exited, Pool, idle_workers, worker_check, enqueue, wake,
  begin_shutdown, notify_all, checked, set_worker, Work, check, finish, is_asleep, is_exited, count,
  Step, work, spurious, push, notify, notify_nobody, shut, wake_all, Reach, here, next,
}
use slow_scanner.Pool.Counts.{count-append, count-at}
use slow_scanner.Pool.Safety.{IsSound, Reach-IsSound}

-- The steps that a worker has ahead of it, without those for tasks that wait.
abbrev steps_of : Phase → ℕ
steps_of checking = 1
steps_of (running t) = 2
steps_of _ = 0

-- All the steps ahead: a waiting task takes one more to be taken and one to be finished.
abbrev pub steps_ahead : Pool → ℕ
steps_ahead p = 2 * length p.tasks + count steps_of p.workers

-- A run of `k` steps of the workers.
pub data Run : ℕ → Pool → Pool → Type 0 where
  none_left : (p : Pool) → Run zero p p
  then_run : {k : ℕ} {p q r : Pool} → Work p q → Run k q r → Run (suc k) p r

-- What a step of a worker does to a stopped pool.
record Advances (p q : Pool) : Type 0 where
  stop : q.stop ≡ true
  closing : q.closing ≡ p.closing
  accepted : q.accepted ≡ p.accepted
  ahead : steps_ahead p ≡ suc (steps_ahead q)

check-ahead :
    (p : Pool) (us vs : List Phase) (tasks : List ℕ)
    → p.tasks ≡ tasks
    → p.workers ≡ us ++ checking ∷ vs
    → steps_ahead p
      ≡ suc (
          2 * length (worker_check true tasks).1
          + count steps_of (us ++ (worker_check true tasks).0 ∷ vs))
unfolding worker_check
check-ahead p us vs [] q e =
    omega
      (arith, ap length q, count-append steps_of us vs exited, count-at steps_of p us vs checking e)
check-ahead p us vs (t ∷ ts) q e = omega (
  arith,
  ap length q,
  count-append steps_of us vs (running t),
  count-at steps_of p us vs checking e,
)

Work-Advances : {p q : Pool} → Work p q → p.stop ≡ true → Advances p q
unfolding checked
Work-Advances (check p us vs e) s = record {
  stop = s;
  closing = refl;
  accepted = refl;
  ahead =
      check-ahead p us vs p.tasks refl e
      ∙ ap
          (λ (b : Bool). suc (
            2 * length (worker_check b p.tasks).1
            + count steps_of (us ++ (worker_check b p.tasks).0 ∷ vs)))
          (sym s);
}
Work-Advances (finish p us vs t e) s = record {
  stop = s;
  closing = refl;
  accepted = refl;
  ahead =
      omega (arith, count-append steps_of us vs checking, count-at steps_of p us vs (running t) e);
}

-- In a stopped pool a run of the workers has as many steps as it takes off the steps ahead, so none
-- is longer than that number: the workers cannot go on for ever.
pub Run-steps_ahead :
    (k : ℕ) (p q : Pool) → p.stop ≡ true → Run k p q → k + steps_ahead q ≡ steps_ahead p
Run-steps_ahead _ p _ s (none_left _) = omega arith
Run-steps_ahead _ p q s (then_run w r) =
    let a = Work-Advances w s in omega (arith, a.ahead, Run-steps_ahead _ _ q a.stop r)

-- A worker that is awake, or none is.
data Awake (ws : List Phase) : Type 0 where
  found_checking : (us vs : List Phase) → ws ≡ us ++ checking ∷ vs → Awake ws
  found_running : (us vs : List Phase) (t : ℕ) → ws ≡ us ++ running t ∷ vs → Awake ws
  all_exited : All (λ x. x ≡ exited) ws → count steps_of ws ≡ 0 → Awake ws

Awake-cons : (ws : List Phase) (x : Phase) → Awake ws → (x ≡ exited) → Awake (x ∷ ws)
Awake-cons ws x (found_checking us vs e) h =
    found_checking (x ∷ us) vs (ap (λ (ys : List Phase). x ∷ ys) e)
Awake-cons ws x (found_running us vs t e) h =
    found_running (x ∷ us) vs t (ap (λ (ys : List Phase). x ∷ ys) e)
Awake-cons ws x (all_exited a c) h = all_exited (h, a) (omega (arith, c, ap steps_of h))

Awake-worker : (ws : List Phase) → count is_asleep ws ≡ 0 → Awake ws
Awake-worker [] h = all_exited tt refl
Awake-worker (checking ∷ ws) h = found_checking [] ws refl
Awake-worker (asleep ∷ ws) h = absurd (omega (arith, h))
Awake-worker (running t ∷ ws) h = found_running [] ws t refl
Awake-worker (exited ∷ ws) h = Awake-cons ws exited (Awake-worker ws (omega (arith, h))) refl

length-swap :
    (ws us vs : List Phase) (x y : Phase) → ws ≡ us ++ x ∷ vs → length (us ++ y ∷ vs) ≡ length ws
length-swap ws us vs x y e =
    omega (arith, ap length e, length-append us (x ∷ vs), length-append us (y ∷ vs))

length-map_wake : (ws : List Phase) → length (map wake ws) ≡ length ws
length-map_wake [] = refl
length-map_wake (x ∷ ws) = ap suc (length-map_wake ws)

length-idle : (n : ℕ) → length (idle_workers n) ≡ n
length-idle zero = refl
length-idle (suc n) = ap suc (length-idle n)

workers-enqueue : (p : Pool) (t : ℕ) → (enqueue t p).workers ≡ p.workers
unfolding enqueue
workers-enqueue p t = ground arith

-- No thread is added or removed.
length-Step : {p q : Pool} → Step p q → length q.workers ≡ length p.workers
unfolding checked begin_shutdown notify_all
length-Step (work (check p us vs e)) = length-swap p.workers us vs checking _ e
length-Step (work (finish p us vs t e)) = length-swap p.workers us vs (running t) checking e
length-Step (spurious p us vs e) = length-swap p.workers us vs asleep checking e
length-Step (push p t) = ap length (workers-enqueue p t)
length-Step (notify p us vs k n e) = length-swap p.workers us vs asleep checking e
length-Step (notify_nobody p k n e) = refl
length-Step (shut p e) = refl
length-Step (wake_all p e) = length-map_wake p.workers

length-Reach : (n : ℕ) (p : Pool) → Reach n p → length p.workers ≡ n
length-Reach n _ here = length-idle n
length-Reach n _ (next r s) = length-Step s ∙ length-Reach n _ r

-- All workers have returned, and every task that was accepted has been started.
pub record IsDrained (p : Pool) : Type 0 where
  pub returned : All (λ x. x ≡ exited) p.workers
  pub empty : p.tasks ≡ []
  pub all_started : p.started ≡ p.accepted

count-exited : (ws : List Phase) → All (λ x. x ≡ exited) ws → count is_exited ws ≡ length ws
count-exited [] h = refl
count-exited (x ∷ ws) h = omega (arith, ap is_exited h.0, count-exited ws h.1)

exited-IsDrained :
    (p : Pool) → 0 < length p.workers → IsSound p → All (λ x. x ≡ exited) p.workers → IsDrained p
exited-IsDrained p some_worker h a =
    let empty = (h.done (omega (arith, count-exited p.workers a))).1 in
    record {
      returned = a;
      empty = empty;
      all_started =
          sym (append-nil p.started) ∙ (ap (λ (xs : List ℕ). p.started ++ xs) (sym empty) ∙ h.fifo);
    }

-- A run of the workers to the state in which all have returned.
abbrev pub Joins : Pool → Type 0
Joins p = (q : Pool) × Run (steps_ahead p) p q × IsDrained q × (q.accepted ≡ p.accepted)

step_first : (p q : Pool) → Work p q → p.stop ≡ true → Joins q → Joins p
step_first p q w s (r, run, drained, same) =
    let a = Work-Advances w s in
    (r, subst (λ (k : ℕ). Run k p r) (sym a.ahead) (then_run w run), drained, same ∙ a.accepted)

module _ (n : ℕ) (positive : 0 < n) where
  -- The first step of a worker that is awake, or the end.
  one_step :
      (p : Pool)
      → Reach n p
      → p.stop ≡ true
      → ((q : Pool) → Work p q → Joins q)
      → Awake p.workers
      → Joins p
  one_step p r s rest (found_checking us vs e) =
      let w : Work p (checked p us vs) = check p us vs e in
      step_first p (checked p us vs) w s (rest (checked p us vs) w)
  one_step p r s rest (found_running us vs t e) =
      let w : Work p (set_worker p us checking vs) = finish p us vs t e in
      step_first p (set_worker p us checking vs) w s (rest (set_worker p us checking vs) w)
  one_step p r s rest (all_exited a none_ahead) =
      let d =
        exited-IsDrained p (omega (arith, length-Reach n p r, positive)) (Reach-IsSound n p r) a in
      let over : steps_ahead p ≡ 0 = omega (arith, none_ahead, ap length d.empty) in
      (p, subst (λ (k : ℕ). Run k p p) (sym over) (none_left p), d, refl)

  join_lem :
      (m : ℕ) (p : Pool)
      → Reach n p
      → p.stop ≡ true
      → p.closing ≡ false
      → steps_ahead p ≡ m
      → Joins p
  join_lem zero p r s c e =
      one_step p r s (λ q w. absurd (omega (arith, e, (Work-Advances w s).ahead)))
        (Awake-worker p.workers ((Reach-IsSound n p r).woken s c))
  join_lem (suc m) p r s c e =
      one_step p r s
        (λ q w.
          let a = Work-Advances w s in
          join_lem m q (next r (work w)) a.stop (a.closing ∙ c) (omega (arith, e, a.ahead)))
        (Awake-worker p.workers ((Reach-IsSound n p r).woken s c))

-- In any state that a pool with a thread can reach in which the destructor has woken the workers,
-- they can run to the end: after exactly as many steps as are ahead, each has returned, the queue is
-- empty, and the tasks started are those accepted, in that order, no matter how many waited.
pub Reach-Joins :
    (n : ℕ) (p : Pool) → 0 < n → Reach n p → p.stop ≡ true → p.closing ≡ false → Joins p
Reach-Joins n p positive r s c = join_lem n positive (steps_ahead p) p r s c refl
