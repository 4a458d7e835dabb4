-- ===== src/Snowflake.antt =====
-- shorturl/snowflake.{h,cpp}: `SnowflakeIdGenerator`. A call is made under the mutex, so a call is
-- one step on the generator's state. The clock is an argument: the readings of the system clock,
-- in Unix seconds, that one call makes, in order.
pub mod Ids
mod Tests
use cpp_url_shortener.Common.{
  ℕ, ◌+◌, ◌-◌, ◌%◌, ◌^◌, bit_and, bit_or, Option, none, some, List, [], ◌∷◌, ltb, leb, ◌==◌,
  if◌then◌else◌, ◌<<◌, ℤ, pos, negsuc,
}

abbrev pub epoch_seconds : ℕ
epoch_seconds = 1767225600

abbrev pub sequence_bits : ℕ
sequence_bits = 12

abbrev pub worker_bits : ℕ
worker_bits = 10

abbrev pub max_sequence : ℕ
max_sequence = 2 ^ sequence_bits - 1

abbrev pub max_worker_id : ℕ
max_worker_id = 2 ^ worker_bits - 1

abbrev pub max_timestamp_delta : ℕ
max_timestamp_delta = 2 ^ 29 - 1

pub record Generator : Type 0 where
  pub last_second : ℕ
  pub sequence : ℕ

abbrev pub new_generator : Generator
new_generator = record { last_second = 0; sequence = 0 }

-- The initial value of `s_worker_id_`, from the process id.
unfoldable pub initial_worker_id : ℕ → ℕ
initial_worker_id pid = bit_and pid max_worker_id

-- A negative argument keeps the worker id as it is.
unfoldable pub set_worker_id : ℤ → ℕ → ℕ
set_worker_id (negsuc n) worker = worker
set_worker_id (pos id) worker = bit_and id max_worker_id

unfoldable pub current_seconds : ℕ → ℕ
current_seconds unix_seconds =
    if leb unix_seconds epoch_seconds then 0 else unix_seconds - epoch_seconds

-- The loop that sleeps until the clock passes `last_second`: the readings that it makes. `none`
-- says that it still waits after all of them.
unfoldable pub wait_next_second : ℕ → List ℕ → Option ℕ
wait_next_second last_second [] = none
wait_next_second last_second (t ∷ readings) =
    let now = current_seconds t in
    if leb now last_second then wait_next_second last_second readings else some now

pub data Outcome : Type 0 where
  issued : ℕ → Generator → Outcome
  -- `throw std::runtime_error`, with the state that the call leaves
  overflow : Generator → Outcome
  -- still in `wait_next_second`, holding the mutex
  waiting : Outcome

-- `(now << 22) | (worker << 12) | sequence` in 64 bits.
unfoldable pub compose_id : ℕ → ℕ → ℕ → ℕ
compose_id now worker sequence =
    bit_or
      (bit_or ((now << (sequence_bits + worker_bits)) % 2 ^ 64)
        ((worker << sequence_bits) % 2 ^ 64))
      sequence

-- The second that the call works in: never before the last one.
unfoldable pub clamp_second : ℕ → ℕ → ℕ
clamp_second last_second now = if ltb now last_second then last_second else now

-- `sequence_` is written before the check, `last_second_` after it.
unfoldable pub finish : ℕ → Generator → ℕ → ℕ → Outcome
finish worker g now sequence =
    if ltb max_timestamp_delta now
    then overflow (record g { sequence = sequence })
    else issued (compose_id now worker sequence) (record { last_second = now; sequence = sequence })

unfoldable pub after_wait : ℕ → Generator → Option ℕ → Outcome
after_wait worker g none = waiting
after_wait worker g (some now) = finish worker g now 0

unfoldable pub next_id : ℕ → Generator → ℕ → List ℕ → Outcome
next_id worker g unix_seconds later =
    let now = clamp_second g.last_second (current_seconds unix_seconds) in
    if now == g.last_second
    then (if leb max_sequence g.sequence
        then after_wait worker g (wait_next_second g.last_second later)
        else finish worker g now (g.sequence + 1))
    else finish worker g now 0

-- The ids that a series of calls returns, up to the first call that returns none.
unfoldable pub issue : ℕ → Generator → List (ℕ × List ℕ) → List ℕ
issue worker g [] = []
issue worker g ((unix_seconds, later) ∷ calls) = elim (next_id worker g unix_seconds later) [
  | issued id g' ↦ id ∷ issue worker g' calls
  | overflow g' ↦ []
  | waiting ↦ []
]
