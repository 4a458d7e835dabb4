-- ===== src/ThreadPool/Wakeups.antt =====
-- The bound of the queue, and the posts that its tasks need.
use cpp_url_shortener.ThreadPool.{
  Task, ThreadPool, append_p, stop, end_stop, post, end_wait, Turn, take_task, run_turn,
}
use cpp_url_shortener.ThreadPool.Fifo.{
  PoolOp, appends, posts, waits, turns, stops, ends_stop, pool_step, pool_run,
}
use cpp_url_shortener.Common.{
  suc, ◌+◌, ◌-◌, ◌≤◌, ◌≡◌, refl, ap, ◌⊎◌, inl, inr, Bool, false, ◌||◌, List, [], ◌∷◌, arith, leb,
  ◌==◌, length, length-append, if-cases,
}

-- Each task has a post, to make, made, or taken by a worker on its way to the section; a stopped pool has no task.
pub record IsServed (p : ThreadPool) : Type 0 where
  pub bound : length p.workqueue ≤ p.max_requests
  pub served : length p.workqueue ≤ p.queuestat + p.posting + p.woken
  pub stopped : p.stopped ≡ false ⊎ (p.workqueue ≡ [])

append_p-IsServed : (t : Task) (p : ThreadPool) → IsServed p → IsServed (append_p t p).1
unfolding append_p
append_p-IsServed t p v =
    if-cases (λ (a : Bool × ThreadPool). IsServed a.1)
      (p.stopped || leb p.max_requests (length p.workqueue)) _ _ (λ refused. v)
      (λ room.
        let len = length-append p.workqueue (t ∷ []) in
        let served = v.served in
        record { bound = ground arith; served = omega arith; stopped = inl (ground arith) })

post-IsServed : (p : ThreadPool) → IsServed p → IsServed (post p)
unfolding post
post-IsServed p v =
    if-cases IsServed (p.posting == 0) _ _ (λ nothing. v)
      (λ some_post.
        let served = v.served in
        record { bound = v.bound; served = ground arith; stopped = v.stopped })

end_wait-IsServed : (p : ThreadPool) → IsServed p → IsServed (end_wait p)
unfolding end_wait
end_wait-IsServed p v =
    if-cases IsServed (p.queuestat == 0) _ _ (λ nothing. v)
      (λ some_post.
        let served = v.served in
        record { bound = v.bound; served = ground arith; stopped = v.stopped })

take_task-IsServed :
    (q : List Task) (p : ThreadPool)
    → p.workqueue ≡ q
    → length q ≤ p.max_requests
    → length q ≤ suc (p.queuestat + p.posting + p.woken)
    → p.stopped ≡ false ⊎ (q ≡ [])
    → IsServed (take_task q p).1
unfolding take_task
take_task-IsServed [] p e b s st =
    let none_left = ap length e in
    record { bound = omega arith; served = omega arith; stopped = inr e }
take_task-IsServed (t ∷ rest) p e b s (inl runs) = record {
  bound = omega arith;
  served = omega arith;
  stopped = inl runs;
}
take_task-IsServed (t ∷ rest) p e b s (inr nil) = absurd (cc)

run_turn-IsServed : (p : ThreadPool) → IsServed p → IsServed (run_turn p).1
unfolding run_turn
run_turn-IsServed p v =
    if-cases (λ (a : Turn × ThreadPool). IsServed a.1) (p.woken == 0) _ _ (λ none_woken. v)
      (λ some_woken.
        let served = v.served in
        take_task-IsServed p.workqueue (record p { woken = p.woken - 1 }) refl v.bound
          (ground arith) v.stopped)

stop-IsServed : (p : ThreadPool) → IsServed p → IsServed (stop p)
unfolding stop
stop-IsServed p v =
    if-cases IsServed p.joined _ _ (λ twice. v)
      (λ first. record { bound = omega arith; served = omega arith; stopped = inr refl })

pool_step-IsServed : (op : PoolOp) (p : ThreadPool) → IsServed p → IsServed (pool_step op p)
unfolding pool_step end_stop
pool_step-IsServed (appends t) p v = append_p-IsServed t p v
pool_step-IsServed posts p v = post-IsServed p v
pool_step-IsServed waits p v = end_wait-IsServed p v
pool_step-IsServed turns p v = run_turn-IsServed p v
pool_step-IsServed stops p v = stop-IsServed p v
pool_step-IsServed ends_stop p v = record {
  bound = v.bound;
  served = v.served;
  stopped = v.stopped;
}

-- Through every interleaving of appends, posts, waits and sections of workers and of stops, the
-- queue keeps its bound, and a stopped pool has no task. Every task in the queue has a post of the
-- semaphore, about to be made, made, or taken by a worker that is on its way to the queue: where
-- there is none of the three, no task is left behind.
pub pool_run-IsServed :
    (ops : List PoolOp) (p : ThreadPool) → IsServed p → IsServed (pool_run ops p)
unfolding pool_run
pool_run-IsServed [] p v = v
pool_run-IsServed (op ∷ ops) p v =
    pool_run-IsServed ops (pool_step op p) (pool_step-IsServed op p v)
