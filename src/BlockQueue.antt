-- ===== src/BlockQueue.antt =====
-- log/block_queue.h: `block_queue`. Each section under the mutex is one step. The two cursors start
-- at -1, which is `none`; a wait of `pop` is a step that is not taken.
pub mod Slots
pub mod Refines
mod Tests
use cpp_url_shortener.Common.{
  ℕ, ◌+◌, ◌-◌, ◌%◌, Bool, true, false, Option, none, some, List, leb, ◌==◌, if◌then◌else◌,
  get_elem?, get_or, set, replicate,
}

pub record BlockQueue (T : Type 0) : Type 0 where
  pub array : List T
  pub size : ℕ
  pub max_size : ℕ
  pub front : Option ℕ
  pub back : Option ℕ

-- `(i + 1) % m_max_size`
unfoldable pub next_index : Option ℕ → ℕ → ℕ
next_index none max_size = 0 % max_size
next_index (some i) max_size = (i + 1) % max_size

-- The array is that of `new T[max_size]`, with `T()` in each slot.
unfoldable pub new_queue : {T : Type 0} → T → ℕ → BlockQueue T
new_queue fill max_size = record {
  array = replicate max_size fill;
  size = 0;
  max_size = max_size;
  front = none;
  back = none;
}

unfoldable pub clear : {T : Type 0} → BlockQueue T → BlockQueue T
clear q = record q { size = 0; front = none; back = none }

unfoldable pub full : {T : Type 0} → BlockQueue T → Bool
full q = leb q.max_size q.size

unfoldable pub empty : {T : Type 0} → BlockQueue T → Bool
empty q = 0 == q.size

unfoldable pub push : {T : Type 0} → T → BlockQueue T → Bool × BlockQueue T
push item q =
    let back = next_index q.back q.max_size in
    if leb q.max_size q.size
    then (false, q)
    else (true, record q { array = set q.array back item; size = q.size + 1; back = some back })

-- `pop` once there is an element; none while it waits. The slots are in bounds, so `fallback` is
-- not read.
unfoldable pub pop : {T : Type 0} → T → BlockQueue T → Option (T × BlockQueue T)
pop fallback q =
    let front = next_index q.front q.max_size in
    if leb q.size 0
    then none
    else some (get_or q.array front fallback, record q { size = q.size - 1; front = some front })

-- `front(value)` and `back(value)`: none is the result false, `some none` a read at index -1.
unfoldable pub read_at : {T : Type 0} → Option ℕ → BlockQueue T → Option (Option T)
read_at none q = some none
read_at (some i) q = some (get_elem? q.array i)

unfoldable pub front_of : {T : Type 0} → BlockQueue T → Option (Option T)
front_of q = if 0 == q.size then none else read_at q.front q

unfoldable pub back_of : {T : Type 0} → BlockQueue T → Option (Option T)
back_of q = if 0 == q.size then none else read_at q.back q
