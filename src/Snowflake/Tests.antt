-- ===== src/Snowflake/Tests.antt =====
-- Runs of `next_id`, and its theorems at concrete clocks.
use cpp_url_shortener.Common.{ℕ, ◌+◌, ◌*◌, ◌^◌, ◌≤◌, ◌≡◌, refl, ◌≢◌, List, [], ◌∷◌, arith, pos}
use cpp_url_shortener.Snowflake.{
  Generator, new_generator, max_worker_id, max_timestamp_delta, set_worker_id, epoch_seconds,
  current_seconds, wait_next_second, issued, overflow, compose_id, clamp_second, finish, after_wait,
  next_id, issue,
}
use cpp_url_shortener.Snowflake.Ids.{
  IsValid, IncreasingFrom, Issued, issue-IncreasingFrom, next_id-Issued, workers-ne,
  set_worker_id-le, overflow_reissues,
}

program : Unit {0}
unfolding current_seconds wait_next_second compose_id clamp_second finish after_wait next_id issue
program = tt

-- The second 100 twice, then a clock that steps back.
abbrev calls : List (ℕ × List ℕ)
calls = (epoch_seconds + 100, []) ∷ (epoch_seconds + 100, []) ∷ (epoch_seconds + 90, []) ∷ []

issue_runs : issue 5 new_generator calls ≡ 419450880 ∷ 419450881 ∷ 419450882 ∷ []
unfolding program
issue_runs = refl

-- A full second waits for the next one.
abbrev full_second : Generator
full_second = record { last_second = 100; sequence = 4095 }

issue_waits :
    next_id 0 full_second (epoch_seconds + 100) ((epoch_seconds + 100) ∷ (epoch_seconds + 101) ∷ [])
    ≡ issued (101 * 2 ^ 22) (record { last_second = 101; sequence = 0 })
unfolding program
issue_waits = refl

new_generator-IsValid : IsValid new_generator
new_generator-IsValid = omega arith

next_id-Issued_example : Issued 5 new_generator (next_id 5 new_generator (epoch_seconds + 100) [])
next_id-Issued_example =
    next_id-Issued 5 new_generator (epoch_seconds + 100) [] (omega arith) new_generator-IsValid

issue-IncreasingFrom_example :
    IncreasingFrom (0 * 2 ^ 22 + 5 * 2 ^ 12 + 0) (issue 5 new_generator calls)
issue-IncreasingFrom_example =
    issue-IncreasingFrom 5 new_generator calls (omega arith) new_generator-IsValid

workers-ne_example : ◌≢◌ {A = ℕ} 419450880 419454976
unfolding program
workers-ne_example =
    workers-ne 5 6 new_generator new_generator (record { last_second = 100; sequence = 0 })
      (record { last_second = 100; sequence = 0 }) (epoch_seconds + 100) (epoch_seconds + 100) [] []
      419450880 419454976 (omega arith) (omega arith) new_generator-IsValid new_generator-IsValid
      (omega arith) refl refl

set_worker_id-le_example : set_worker_id (pos 1025) 0 ≤ max_worker_id
set_worker_id-le_example = set_worker_id-le (pos 1025) 0 (omega arith)

overflow_reissues_example :
    let g : Generator = record { last_second = 7; sequence = 5 } in
    let back : Generator = record { last_second = 7; sequence = 0 } in
    (next_id 3 g (epoch_seconds + max_timestamp_delta + 1) [] ≡ overflow back)
    × (issue 3 new_generator ((epoch_seconds + 7, []) ∷ calls)
        ≡ compose_id 7 3 0 ∷ issue 3 back calls)
    × (next_id 3 back (epoch_seconds + 7) []
        ≡ issued (compose_id 7 3 1) (record { last_second = 7; sequence = 1 }))
overflow_reissues_example =
    overflow_reissues 3 (epoch_seconds + max_timestamp_delta + 1) [] new_generator
      (record { last_second = 7; sequence = 5 }) calls (omega arith) (omega arith) (omega arith)
