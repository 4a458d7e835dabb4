-- ===== src/ThreadPool/Tests.antt =====
-- Runs of the thread pool, and its theorems at concrete operations.
use cpp_url_shortener.ThreadPool.{
  Task, ThreadPool, append_p, stop, end_stop, post, end_wait, take_task, run_turn, new_pool,
}
use cpp_url_shortener.ThreadPool.Fifo.{
  PoolOp, appends, posts, waits, turns, stops, pool_step, pool_run, accepts, takes, task_of,
  accepted, taken, pool_run-taken,
}
use cpp_url_shortener.ThreadPool.Wakeups.{IsServed, pool_run-IsServed}
use cpp_url_shortener.Common.{ℕ, ◌≡◌, refl, inl, false, some, List, [], ◌∷◌, ◌++◌, arith}

program : Unit {0}
unfolding append_p stop end_stop post end_wait take_task run_turn new_pool pool_step pool_run
    accepts takes task_of accepted taken
program = tt

abbrev pool : ThreadPool
pool = record {
  thread_number = 2;
  max_requests = 2;
  workqueue = [];
  queuestat = 0;
  posting = 0;
  woken = 0;
  stopped = false;
  joined = false;
}

starts : new_pool 2 2 ≡ some pool
unfolding program
starts = refl

abbrev job : ℕ → Task
job fd = record { request = some fd; generation = 1 }

abbrev ops : List PoolOp
ops =
    appends (job 5)
    ∷ posts
    ∷ appends (job 6)
    ∷ appends (job 7)
    ∷ waits
    ∷ turns
    ∷ turns
    ∷ posts
    ∷ waits
    ∷ turns
    ∷ []

took : taken ops pool ≡ job 5 ∷ job 6 ∷ []
unfolding program
took = refl

pool_run-taken_example : [] ++ accepted ops pool ≡ taken ops pool ++ (pool_run ops pool).workqueue
pool_run-taken_example =
    pool_run-taken ops pool
      (refl, (refl, (refl, (refl, (refl, (refl, (refl, (refl, (refl, (refl, tt))))))))))

pool_run-IsServed_example :
    IsServed (pool_run (appends (job 5) ∷ stops ∷ posts ∷ waits ∷ turns ∷ []) pool)
pool_run-IsServed_example =
    pool_run-IsServed (appends (job 5) ∷ stops ∷ posts ∷ waits ∷ turns ∷ []) pool
      (record { bound = omega arith; served = omega arith; stopped = inl refl })
