-- ===== src/BlockQueue/Tests.antt =====
-- Runs of the log queue, and its theorem at concrete calls.
use mathlib.Core.Option
use cpp_url_shortener.BlockQueue.{
  BlockQueue, next_index, new_queue, clear, push, pop, read_at, front_of, back_of, full, empty,
}
use cpp_url_shortener.BlockQueue.Refines.{
  QueueOp, pushes, pops, queue_run, fifo_run, pop_reply, queue_step, fifo_step, queue_run-fifo_run,
}
use cpp_url_shortener.Common.{ℕ, ◌≡◌, refl, none, some, List, [], ◌∷◌, arith}

program : Unit {0}
unfolding next_index new_queue clear push pop read_at front_of back_of full empty pop_reply
    queue_step queue_run fifo_step fifo_run
program = tt

abbrev ops : List (QueueOp ℕ)
ops = pushes 1 ∷ pushes 2 ∷ pushes 3 ∷ pops ∷ pushes 4 ∷ pops ∷ pops ∷ pops ∷ []

-- Before the first `pop` the index of `front` is -1, and later it is that of the element popped.
front_before_pop : front_of {T = ℕ} (push 7 (new_queue 0 2)).1 ≡ some none
unfolding program
front_before_pop = refl

front_after_pop :
    Option.map
      (λ (r : ℕ × BlockQueue ℕ). front_of r.1)
      (pop 0 (push 8 (push 7 (new_queue 0 2)).1).1)
    ≡ some (some (some 7))
unfolding program
front_after_pop = refl

back_last : back_of {T = ℕ} (push 8 (push 7 (new_queue 0 2)).1).1 ≡ some (some 8)
unfolding program
back_last = refl

queue_run-fifo_run_example : queue_run 0 ops (new_queue 0 2) ≡ fifo_run 2 ops []
queue_run-fifo_run_example = queue_run-fifo_run 0 2 ops (omega arith)
