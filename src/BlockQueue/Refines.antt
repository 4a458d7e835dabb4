-- ===== src/BlockQueue/Refines.antt =====
-- The ring is a bounded first-in first-out queue.
use mathlib.Core.Path.{ap₂}
use cpp_url_shortener.BlockQueue.{BlockQueue, next_index, new_queue, clear, push, pop, full}
use cpp_url_shortener.BlockQueue.Slots.{
  Holds, offset, offset-none, new_queue-Holds, clear-Holds, push-Holds, pop-Holds, get_or-some,
}
use cpp_url_shortener.Common.{
  ℕ, ◌<◌, ◌≡◌, refl, ap, ◌∙◌, inl, inr, Bool, true, false, Option, none, some, List, [], ◌∷◌, ◌++◌,
  arith, ltb, leb, if◌then◌else◌, Bool-cases, length, get_elem?, get_or,
}

pub data QueueOp (T : Type 0) : Type 0 where
  pushes : T → QueueOp T
  pops clears : QueueOp T

-- What a call answers; a `pop` that has nothing waits.
pub data Reply (T : Type 0) : Type 0 where
  pushed : Bool → Reply T
  popped : T → Reply T
  waits cleared : Reply T

module _ {T : Type 0} where
  unfoldable pub pop_reply : BlockQueue T → Option (T × BlockQueue T) → Reply T × BlockQueue T
  pop_reply q none = (waits, q)
  pop_reply q (some (item, after)) = (popped item, after)

  module _ (fallback : T) where
    unfoldable pub queue_step : QueueOp T → BlockQueue T → Reply T × BlockQueue T
    queue_step (pushes item) q = let (taken, after) = push item q in (pushed taken, after)
    queue_step pops q = pop_reply q (pop fallback q)
    queue_step clears q = (cleared, clear q)

    unfoldable pub queue_run : List (QueueOp T) → BlockQueue T → List (Reply T)
    queue_run [] q = []
    queue_run (op ∷ ops) q = let (reply, after) = queue_step op q in reply ∷ queue_run ops after

  -- A list of at most `cap` elements, oldest first.
  unfoldable pub fifo_step : ℕ → QueueOp T → List T → Reply T × List T
  fifo_step cap (pushes item) xs =
      if ltb (length xs) cap then (pushed true, xs ++ item ∷ []) else (pushed false, xs)
  fifo_step cap pops [] = (waits, [])
  fifo_step cap pops (x ∷ xs) = (popped x, xs)
  fifo_step cap clears xs = (cleared, [])

  unfoldable pub fifo_run : ℕ → List (QueueOp T) → List T → List (Reply T)
  fifo_run cap [] xs = []
  fifo_run cap (op ∷ ops) xs =
      let (reply, after) = fifo_step cap op xs in reply ∷ fifo_run cap ops after

  -- Both answer the same and agree afterwards.
  Agrees : ℕ → Reply T × BlockQueue T → Reply T × List T → Type 0
  Agrees cap r a = (r.0 ≡ a.0) × (r.1.max_size ≡ cap) × (s : ℕ) × Holds r.1 a.1 s

  module _ (fallback : T) where
    queue_step-Agrees :
        (op : QueueOp T) (q : BlockQueue T) (xs : List T) (s : ℕ)
        → Holds q xs s
        → Agrees q.max_size (queue_step fallback op q) (fifo_step q.max_size op xs)
    unfolding queue_step fifo_step push pop pop_reply Agrees clear
    queue_step-Agrees (pushes item) q xs s v = elim (Bool-cases (ltb (length xs) q.max_size)) [
      | inl room ↦
          let free : leb q.max_size q.size ≡ false = (let sz = v.size in ground arith) in
          simp (room, free) (refl, refl, s, push-Holds item q xs s v (ground arith))
      | inr full ↦
          let taken : leb q.max_size q.size ≡ true = (let sz = v.size in ground arith) in
          simp (full, taken) (refl, refl, s, v)
    ]
    queue_step-Agrees pops q [] s v =
        let nothing : leb q.size 0 ≡ true = (let sz = v.size in ground arith) in
        simp nothing (refl, refl, s, v)
    queue_step-Agrees pops q (x ∷ xs) s v =
        let there : leb q.size 0 ≡ false = (let sz = v.size in ground arith) in
        let oldest : get_or q.array (next_index q.front q.max_size) fallback ≡ x =
          get_or-some q.array (next_index q.front q.max_size) fallback x (
            ap (get_elem? q.array) (v.start ∙ offset-none s q.max_size v.inside)
            ∙ v.slots 0 (omega arith)) in
        simp there (ap popped oldest, refl, offset s 1 q.max_size, pop-Holds q x xs s v)
    queue_step-Agrees clears q xs s v = (refl, refl, 0, clear-Holds q xs s v)

    queue_run-fifo :
        (ops : List (QueueOp T)) (q : BlockQueue T) (xs : List T) (s : ℕ)
        → Holds q xs s
        → queue_run fallback ops q ≡ fifo_run q.max_size ops xs
    unfolding queue_run fifo_run Agrees
    queue_run-fifo [] q xs s v = refl
    queue_run-fifo (op ∷ ops) q xs s v =
        let (reply, cap, t, w) = queue_step-Agrees op q xs s v in
        let rest = queue_run-fifo ops (queue_step fallback op q).1 _ t w in
        ap₂ ◌∷◌ reply (rest ∙ ap (λ (n : ℕ). fifo_run n ops (fifo_step q.max_size op xs).1) cap)

-- A new ring with at least one slot answers every series of calls of push, pop and clear as a
-- first-in first-out queue of that capacity does: in the order of arrival, refusing what does not
-- fit, and waiting where nothing is there.
pub queue_run-fifo_run :
    {T : Type 0} (fallback : T) (max_size : ℕ) (ops : List (QueueOp T))
    → 0 < max_size
    → queue_run fallback ops (new_queue fallback max_size) ≡ fifo_run max_size ops []
unfolding new_queue
queue_run-fifo_run fallback max_size ops room =
    queue_run-fifo fallback ops (new_queue fallback max_size) [] 0
      (new_queue-Holds fallback max_size room)
