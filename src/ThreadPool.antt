-- ===== src/ThreadPool.antt =====
-- threadpool/threadpool.h: `threadpool<http_conn>`. Each section under the lock is one step, and so is
-- each post and each wait of the semaphore, since other threads run between them. A request is
-- named by its socket. Creating and joining the threads is left out, but for the flag.
pub mod Fifo
pub mod Wakeups
mod Tests
use cpp_url_shortener.Common.{
  ℕ, ◌+◌, ◌-◌, Bool, true, false, ◌||◌, Option, none, some, List, [], ◌∷◌, ◌++◌, leb, ◌==◌,
  if◌then◌else◌, length,
}

pub record Task : Type 0 where
  pub request : Option ℕ
  pub generation : ℕ

-- `posting` is the number of posts that threads behind a section still have to make, `woken` that
-- of the workers between a wait that has ended and the section behind it.
pub record ThreadPool : Type 0 where
  pub thread_number : ℕ
  pub max_requests : ℕ
  pub workqueue : List Task
  pub queuestat : ℕ
  pub posting : ℕ
  pub woken : ℕ
  pub stopped : Bool
  pub joined : Bool

-- None where the constructor throws.
unfoldable pub new_pool : ℕ → ℕ → Option ThreadPool
new_pool thread_number max_requests =
    if thread_number == 0 || max_requests == 0
    then none
    else some (record {
      thread_number = thread_number;
      max_requests = max_requests;
      workqueue = [];
      queuestat = 0;
      posting = 0;
      woken = 0;
      stopped = false;
      joined = false;
    })

unfoldable pub append_p : Task → ThreadPool → Bool × ThreadPool
append_p t p =
    if p.stopped || leb p.max_requests (length p.workqueue)
    then (false, p)
    else (true, record p { workqueue = p.workqueue ++ t ∷ []; posting = p.posting + 1 })

-- `stop`, up to its posts, and the end of its joins.
unfoldable pub stop : ThreadPool → ThreadPool
stop p =
    if p.joined
    then p
    else record p { stopped = true; workqueue = []; posting = p.posting + p.thread_number }

unfoldable pub end_stop : ThreadPool → ThreadPool
end_stop p = record p { joined = true }

-- One of the posts; without one to make there is no step.
unfoldable pub post : ThreadPool → ThreadPool
post p =
    if p.posting == 0 then p else record p { posting = p.posting - 1; queuestat = p.queuestat + 1 }

-- The end of a wait; without a post a worker goes on waiting.
unfoldable pub end_wait : ThreadPool → ThreadPool
end_wait p =
    if p.queuestat == 0 then p else record p { queuestat = p.queuestat - 1; woken = p.woken + 1 }

-- What a turn of `run` comes to: it leaves, goes on, or has a task; or no worker is woken.
pub data Turn : Type 0 where
  blocked leaves idle : Turn
  task : Task → Turn

-- The section of `run` behind the wait.
unfoldable pub take_task : List Task → ThreadPool → Turn × ThreadPool
take_task [] p = (if p.stopped then leaves else idle, p)
take_task (t ∷ rest) p = (task t, record p { workqueue = rest })

-- A worker enters the section.
unfoldable pub run_turn : ThreadPool → Turn × ThreadPool
run_turn p =
    if p.woken == 0 then (blocked, p) else take_task p.workqueue (record p { woken = p.woken - 1 })
