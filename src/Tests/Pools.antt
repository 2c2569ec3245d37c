-- ===== src/Tests/Pools.antt =====
-- Examples for the thread pool.
use slow_scanner.Prelude.{◌+◌, ◌≡◌, refl, true, false, [], ◌∷◌, arith}
use slow_scanner.Pool.{
  Pool, checking, new_pool, enqueue, begin_shutdown, notify_all, checked, check, Reach, here, next,
  push, shut, wake_all,
}
use slow_scanner.Pool.Safety.{IsSound, Reach-IsSound}
use slow_scanner.Pool.Shutdown.{
  steps_ahead, then_run, none_left, Run-steps_ahead, Joins, Reach-Joins,
}

Reach-IsSound_example : IsSound (enqueue 7 (new_pool 2))
Reach-IsSound_example = Reach-IsSound 2 (enqueue 7 (new_pool 2)) (next here (push (new_pool 2) 7))

-- Two threads, one task, and the destructor.
abbrev stopped_pool : Pool
stopped_pool = notify_all (begin_shutdown (enqueue 7 (new_pool 2)))

stopped_pool-Reach : Reach 2 stopped_pool
unfolding enqueue begin_shutdown
stopped_pool-Reach =
    next (next (next here (push (new_pool 2) 7)) (shut (enqueue 7 (new_pool 2)) refl))
      (wake_all (begin_shutdown (enqueue 7 (new_pool 2))) refl)

Reach-Joins_example : Joins stopped_pool
unfolding notify_all begin_shutdown
Reach-Joins_example = Reach-Joins 2 stopped_pool (omega arith) stopped_pool-Reach refl refl

abbrev one_worker : Pool
one_worker = record {
  workers = checking ∷ [];
  tasks = 7 ∷ [];
  stop = true;
  notices = 0;
  closing = false;
  accepted = 7 ∷ [];
  started = [];
}

Run-steps_ahead_example : 1 + steps_ahead (checked one_worker [] []) ≡ steps_ahead one_worker
Run-steps_ahead_example =
    Run-steps_ahead 1 one_worker (checked one_worker [] []) refl
      (then_run (check one_worker [] [] refl) (none_left (checked one_worker [] [])))
