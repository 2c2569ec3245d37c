-- ===== src/Pool/Safety.antt =====
-- The pool runs what it accepts, in order and once, and no wakeup is lost.
use mathlib.Core.List.{append-nil, append_assoc}
use slow_scanner.Prelude.{
  ℕ, ◌+◌, ◌≤◌, ◌<◌, ◌≡◌, refl, sym, ap, subst, ◌∙◌, Bool, true, false, List, [], ◌∷◌, ◌++◌, arith,
  length, length-append, if◌then◌else◌, Bool-cases, inl, inr,
}
use slow_scanner.Pool.{
  Phase, checking, asleep, running, exited, Pool, new_pool, worker_check, task_in, enqueue,
  begin_shutdown, notify_all, checked, Work, check, finish, is_asleep, is_exited, is_awake, count,
  Step, work, spurious, push, notify, notify_nobody, shut, wake_all, Reach, here, next,
}
use slow_scanner.Pool.Counts.{count-append, count-idle, count-wake, count-at}

pub record IsSound (p : Pool) : Type 0 where
  -- The tasks that were started, and behind them those that wait, are those accepted.
  pub fifo : p.started ++ p.tasks ≡ p.accepted
  -- A worker leaves only when the pool is stopped and the queue is empty, and it stays so.
  pub done : 0 < count is_exited p.workers → (p.stop ≡ true) × (p.tasks ≡ [])
  -- While a worker sleeps, each waiting task has a notice on its way or a worker awake.
  pub noticed :
      0 < count is_asleep p.workers → length p.tasks ≤ p.notices + count is_awake p.workers
  -- Once the destructor has woken all, none sleeps.
  pub woken : p.stop ≡ true → p.closing ≡ false → count is_asleep p.workers ≡ 0

new_pool-IsSound : (n : ℕ) → IsSound (new_pool n)
new_pool-IsSound n = record {
  fifo = refl;
  done = λ h. absurd (omega (arith, h, (count-idle n).1));
  noticed = λ h. omega arith;
  woken = λ s c. (count-idle n).0;
}

-- The check of a worker, on the values of `stop` and the queue.
check-IsSound :
    (p : Pool) (us vs : List Phase) (stop : Bool) (tasks : List ℕ)
    → p.stop ≡ stop
    → p.tasks ≡ tasks
    → p.workers ≡ us ++ checking ∷ vs
    → IsSound p
    → IsSound (record p {
      workers = us ++ (worker_check stop tasks).0 ∷ vs;
      tasks = (worker_check stop tasks).1;
      started = p.started ++ task_in (worker_check stop tasks).0;
    })
unfolding worker_check
check-IsSound p us vs false [] s q e h = record {
  fifo =
      ap (λ (xs : List ℕ). xs ++ []) (append-nil p.started)
      ∙ (ap (λ (xs : List ℕ). p.started ++ xs) (sym q) ∙ h.fifo);
  done = λ x.
      let (a, b) = h.done (
        omega
          (arith, x, count-append is_exited us vs asleep, count-at is_exited p us vs checking e)) in
      (a, refl);
  noticed = λ x. omega arith;
  woken = λ a b. cc;
}
check-IsSound p us vs true [] s q e h = record {
  fifo =
      ap (λ (xs : List ℕ). xs ++ []) (append-nil p.started)
      ∙ (ap (λ (xs : List ℕ). p.started ++ xs) (sym q) ∙ h.fifo);
  done = λ x. (s, refl);
  noticed = λ x. omega arith;
  woken = λ a b. omega (
    arith,
    h.woken a b,
    count-append is_asleep us vs exited,
    count-at is_asleep p us vs checking e,
  );
}
check-IsSound p us vs stop (t ∷ ts) s q e h = record {
  fifo =
      append_assoc p.started (t ∷ []) ts ∙ (ap (λ (xs : List ℕ). p.started ++ xs) (sym q) ∙ h.fifo);
  done = λ x. absurd (
      busy
        (h.done (
          omega (
            arith,
            x,
            count-append is_exited us vs (running t),
            count-at is_exited p us vs checking e,
          ))).1);
  noticed = λ x. omega (
    arith,
    h.noticed (
        omega (
          arith,
          x,
          count-append is_asleep us vs (running t),
          count-at is_asleep p us vs checking e,
        )),
    ap length q,
    count-append is_awake us vs (running t),
    count-at is_awake p us vs checking e,
  );
  woken = λ a b. omega (
    arith,
    h.woken a b,
    count-append is_asleep us vs (running t),
    count-at is_asleep p us vs checking e,
  );
}
  where
    busy : p.tasks ≡ [] → ⊥
    busy x = cc

-- A worker goes on to `checking`, from a phase of the loop, and at most one notice is used up.
moved-IsSound :
    (p : Pool) (us vs : List Phase) (x : Phase) (k : ℕ)
    → is_exited x ≡ 0
    → p.workers ≡ us ++ x ∷ vs
    → (count is_asleep p.workers ≡ 0 → is_asleep x ≡ 0)
    → p.notices + is_awake x ≤ k + 1
    → IsSound p
    → IsSound (record p { workers = us ++ checking ∷ vs; notices = k })
moved-IsSound p us vs x k live e same enough h = record {
  fifo = h.fifo;
  done = λ a.
      h.done
        (omega (arith, a, count-append is_exited us vs checking, count-at is_exited p us vs x e));
  noticed = λ a. omega (
    arith,
    h.noticed
        (omega (arith, a, count-append is_asleep us vs checking, count-at is_asleep p us vs x e)),
    count-append is_awake us vs checking,
    count-at is_awake p us vs x e,
    enough,
  );
  woken = λ a b.
      omega
        (arith, h.woken a b, count-append is_asleep us vs checking, count-at is_asleep p us vs x e);
}

Work-IsSound : {p q : Pool} → Work p q → IsSound p → IsSound q
unfolding checked
Work-IsSound (check p us vs e) h = check-IsSound p us vs p.stop p.tasks refl refl e h
Work-IsSound (finish p us vs t e) h =
    moved-IsSound p us vs (running t) p.notices refl e (λ a. refl) (omega arith) h

-- The state after a task has been accepted.
abbrev pushed : ℕ → Pool → Pool
pushed t p = record p {
  tasks = p.tasks ++ t ∷ [];
  accepted = p.accepted ++ t ∷ [];
  notices = p.notices + 1;
}

pushed-IsSound : (p : Pool) (t : ℕ) → p.stop ≡ false → IsSound p → IsSound (pushed t p)
pushed-IsSound p t open_pool h = record {
  fifo = sym (append_assoc p.started p.tasks (t ∷ [])) ∙ ap (λ (xs : List ℕ). xs ++ t ∷ []) h.fifo;
  done = λ a. absurd (clash ((h.done a).0));
  noticed = λ a. omega (arith, h.noticed a, length-append p.tasks (t ∷ []));
  woken = λ a b. absurd (clash a);
}
  where
    clash : p.stop ≡ true → ⊥
    clash a = cc

enqueue-IsSound : (p : Pool) (t : ℕ) → IsSound p → IsSound (enqueue t p)
unfolding enqueue
enqueue-IsSound p t h = elim (Bool-cases p.stop) [
  | inl stopped ↦ subst IsSound (sym (ap (λ (b : Bool). if b then p else pushed t p) stopped)) h
  | inr open_pool ↦
      subst IsSound (sym (ap (λ (b : Bool). if b then p else pushed t p) open_pool))
        (pushed-IsSound p t open_pool h)
]

-- Every step keeps the pool sound.
Step-IsSound : {p q : Pool} → Step p q → IsSound p → IsSound q
unfolding begin_shutdown notify_all
Step-IsSound (work w) h = Work-IsSound w h
Step-IsSound (spurious p us vs e) h =
    moved-IsSound p us vs asleep p.notices refl e
      (λ a. omega (arith, a, count-at is_asleep p us vs asleep e)) (omega arith) h
Step-IsSound (push p t) h = enqueue-IsSound p t h
Step-IsSound (notify p us vs k n e) h =
    moved-IsSound p us vs asleep k refl e
      (λ a. omega (arith, a, count-at is_asleep p us vs asleep e)) (omega (arith, n)) h
Step-IsSound (notify_nobody p k n none_sleep) h = record {
  fifo = h.fifo;
  done = h.done;
  noticed = λ a. absurd (omega (arith, a, none_sleep));
  woken = h.woken;
}
Step-IsSound (shut p open_pool) h = record {
  fifo = h.fifo;
  done = λ a. (refl, (h.done a).1);
  noticed = h.noticed;
  woken = λ a b. cc;
}
Step-IsSound (wake_all p c) h = record {
  fifo = h.fifo;
  done = λ a. h.done (omega (arith, a, (count-wake p.workers).1));
  noticed = λ a. absurd (omega (arith, a, (count-wake p.workers).0));
  woken = λ a b. (count-wake p.workers).0;
}

-- In every state that a pool can reach: the tasks that were started and those that wait are, in this
-- order, the tasks accepted; a worker has returned only if the pool is stopped and its queue empty;
-- while a worker sleeps, each waiting task has a notice on its way or a worker that is awake; and
-- once the destructor has woken the workers none sleeps.
pub Reach-IsSound : (n : ℕ) (p : Pool) → Reach n p → IsSound p
Reach-IsSound n _ here = new_pool-IsSound n
Reach-IsSound n _ (next r s) = Step-IsSound s (Reach-IsSound n _ r)
