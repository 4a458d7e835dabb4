-- ===== src/TimerList/Tests.antt =====
-- Runs of the timer list, and its theorems at concrete timers.
use cpp_url_shortener.TimerList.{
  Timer, add_behind, add_timer, move_timer, adjust_timer, del_timer, tick, set_expire, start_timer,
  refresh_timer,
}
use cpp_url_shortener.TimerList.Order.{
  TimerOp, starts, refreshes, deletes, ticks, timer_step, timer_run, clock, Splits, tick-timer_run,
}
use cpp_url_shortener.Common.{ℕ, ◌≡◌, refl, List, [], ◌∷◌, arith}

program : Unit {0}
unfolding add_behind add_timer move_timer adjust_timer del_timer tick set_expire start_timer
    refresh_timer timer_step timer_run clock
program = tt

abbrev ops : List TimerOp
ops = starts 5 10 ∷ starts 6 11 ∷ starts 7 11 ∷ refreshes 5 12 ∷ deletes 7 ∷ ticks 20 ∷ []

abbrev timer : ℕ → ℕ → Timer
timer fd expire = record { expire = expire; sockfd = fd }

runs : timer_run 5 ops [] ≡ timer 6 26 ∷ timer 5 27 ∷ []
unfolding program
runs = refl

fires : (tick 26 (timer_run 5 ops [])).0 ≡ timer 6 26 ∷ []
unfolding program
fires = refl

tick-timer_run_example : Splits 26 (timer_run 5 ops []) (tick 26 (timer_run 5 ops []))
unfolding clock
tick-timer_run_example = tick-timer_run 5 26 ops (omega arith)
