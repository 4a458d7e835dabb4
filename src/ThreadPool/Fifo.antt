-- ===== src/ThreadPool/Fifo.antt =====
-- The order of tasks.
use cpp_url_shortener.ThreadPool.{
  Task, ThreadPool, append_p, stop, end_stop, post, end_wait, Turn, task, take_task, run_turn,
}
use cpp_url_shortener.Common.{
  ◌-◌, ◌≡◌, refl, sym, ap, ◌∙◌, inl, inr, Bool, true, false, ◌||◌, List, [], ◌∷◌, ◌++◌,
  append_assoc, append-nil, leb, ◌==◌, if◌then◌else◌, Bool-cases, length, All, if-cases,
}

pub data PoolOp : Type 0 where
  appends : Task → PoolOp
  posts waits turns stops ends_stop : PoolOp

unfoldable pub pool_step : PoolOp → ThreadPool → ThreadPool
pool_step (appends t) p = (append_p t p).1
pool_step posts p = post p
pool_step waits p = end_wait p
pool_step turns p = (run_turn p).1
pool_step stops p = stop p
pool_step ends_stop p = end_stop p

unfoldable pub pool_run : List PoolOp → ThreadPool → ThreadPool
pool_run [] p = p
pool_run (op ∷ ops) p = pool_run ops (pool_step op p)

-- The task that a step accepts, and the one that it hands to a worker.
unfoldable pub accepts : PoolOp → ThreadPool → List Task
accepts (appends t) p = if (append_p t p).0 then t ∷ [] else []
accepts op p = []

unfoldable pub task_of : Turn → List Task
task_of (task t) = t ∷ []
task_of turn = []

unfoldable pub takes : PoolOp → ThreadPool → List Task
takes turns p = task_of (run_turn p).0
takes op p = []

unfoldable pub accepted : List PoolOp → ThreadPool → List Task
accepted [] p = []
accepted (op ∷ ops) p = accepts op p ++ accepted ops (pool_step op p)

unfoldable pub taken : List PoolOp → ThreadPool → List Task
taken [] p = []
taken (op ∷ ops) p = takes op p ++ taken ops (pool_step op p)

-- No step of these operations is a `stop`.
abbrev pub is_running : PoolOp → Bool
is_running stops = false
is_running op = true

Moves : PoolOp → ThreadPool → Type 0
Moves op p = p.workqueue ++ accepts op p ≡ takes op p ++ (pool_step op p).workqueue

take_task-Moves :
    (q : List Task) (p : ThreadPool)
    → p.workqueue ≡ q
    → q ++ [] ≡ task_of (take_task q p).0 ++ (take_task q p).1.workqueue
unfolding take_task task_of
take_task-Moves [] p e = elim (Bool-cases p.stopped) [
  | inl s ↦ simp s (sym e)
  | inr r ↦ simp r (sym e)
]
take_task-Moves (t ∷ rest) p e = append-nil (t ∷ rest)

pool_step-Moves : (op : PoolOp) (p : ThreadPool) → is_running op ≡ true → Moves op p
unfolding pool_step Moves accepts takes append_p post end_wait run_turn end_stop task_of
pool_step-Moves (appends t) p r =
    if-cases
      (λ (a : Bool × ThreadPool). p.workqueue ++ (if a.0 then t ∷ [] else []) ≡ a.1.workqueue)
      (p.stopped || leb p.max_requests (length p.workqueue)) _ _ (λ refused. append-nil p.workqueue)
      (λ room. refl)
pool_step-Moves posts p r = elim (Bool-cases (p.posting == 0)) [
  | inl nothing ↦ simp nothing (append-nil p.workqueue)
  | inr some_post ↦ simp some_post (append-nil p.workqueue)
]
pool_step-Moves waits p r = elim (Bool-cases (p.queuestat == 0)) [
  | inl nothing ↦ simp nothing (append-nil p.workqueue)
  | inr some_post ↦ simp some_post (append-nil p.workqueue)
]
pool_step-Moves turns p r =
    if-cases (λ (a : Turn × ThreadPool). p.workqueue ++ [] ≡ task_of a.0 ++ a.1.workqueue)
      (p.woken == 0) _ _ (λ none_woken. append-nil p.workqueue)
      (λ some_woken. take_task-Moves p.workqueue (record p { woken = p.woken - 1 }) refl)
pool_step-Moves stops p r = absurd (cc)
pool_step-Moves ends_stop p r = append-nil p.workqueue

-- As long as the pool is not stopped, through every interleaving of appends, posts, waits and
-- sections of workers, the tasks waiting at first and then accepted are the tasks taken, in the same order,
-- followed by those that still wait: none is lost, taken twice or passed over.
pub pool_run-taken :
    (ops : List PoolOp) (p : ThreadPool)
    → All (λ op. is_running op ≡ true) ops
    → p.workqueue ++ accepted ops p ≡ taken ops p ++ (pool_run ops p).workqueue
unfolding pool_run accepted taken Moves
pool_run-taken [] p r = append-nil p.workqueue
pool_run-taken (op ∷ ops) p r =
    let step = pool_step-Moves op p r.0 in
    let next = pool_step op p in
    let rest = pool_run-taken ops next r.1 in
    sym (append_assoc p.workqueue (accepts op p) (accepted ops next))
    ∙ (ap (λ (l : List Task). l ++ accepted ops next) step
        ∙ (append_assoc (takes op p) next.workqueue (accepted ops next)
            ∙ (ap (◌++◌ (takes op p)) rest
                ∙ sym (append_assoc (takes op p) (taken ops next) (pool_run ops next).workqueue))))
