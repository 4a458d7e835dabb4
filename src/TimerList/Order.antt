-- ===== src/TimerList/Order.antt =====
-- The timers stand in the order of their expiry.
use cpp_url_shortener.TimerList.{
  Timer, add_behind, add_timer, move_timer, adjust_timer, del_timer, tick, set_expire, start_timer,
  refresh_timer,
}
use cpp_url_shortener.Common.{
  ℕ, ◌+◌, ◌*◌, ◌≤◌, ◌<◌, ◌≡◌, refl, ap, inl, inr, List, [], ◌∷◌, ◌++◌, arith, ltb, ◌==◌, Bool-cases,
  All, if-cases,
}

-- Expiries do not fall, and start at `lo` or later.
abbrev pub RisesFrom : ℕ → List Timer → Type 0
RisesFrom lo [] = Unit {0}
RisesFrom lo (t ∷ ts) = (lo ≤ t.expire) × RisesFrom t.expire ts

-- No timer runs past `hi`.
abbrev pub EndBy : ℕ → List Timer → Type 0
EndBy hi = All (λ (t : Timer). t.expire ≤ hi)

pub data TimerOp : Type 0 where
  starts refreshes : ℕ → ℕ → TimerOp
  deletes : ℕ → TimerOp
  ticks : ℕ → TimerOp

unfoldable pub timer_step : ℕ → TimerOp → List Timer → List Timer
timer_step timeslot (starts fd cur) ts = start_timer timeslot fd cur ts
timer_step timeslot (refreshes fd cur) ts = refresh_timer timeslot fd cur ts
timer_step timeslot (deletes fd) ts = del_timer fd ts
timer_step timeslot (ticks cur) ts = (tick cur ts).1

unfoldable pub timer_run : ℕ → List TimerOp → List Timer → List Timer
timer_run timeslot [] ts = ts
timer_run timeslot (op ∷ ops) ts = timer_run timeslot ops (timer_step timeslot op ts)

-- The clock behind an operation.
unfoldable pub clock : ℕ → TimerOp → ℕ
clock now (starts fd cur) = cur
clock now (refreshes fd cur) = cur
clock now (deletes fd) = now
clock now (ticks cur) = cur

-- The clock, which shows `now`, is not set back.
abbrev pub ClockFrom : ℕ → List TimerOp → Type 0
ClockFrom now [] = Unit {0}
ClockFrom now (op ∷ ops) = (now ≤ clock now op) × ClockFrom (clock now op) ops

RisesFrom-le : (a b : ℕ) (ts : List Timer) → a ≤ b → RisesFrom b ts → RisesFrom a ts
RisesFrom-le a b [] le r = tt
RisesFrom-le a b (t ∷ ts) le r = (omega (arith, r.0), r.1)

add_behind-RisesFrom :
    (t prev : Timer) (ts : List Timer) (lo : ℕ)
    → RisesFrom lo (prev ∷ ts)
    → prev.expire ≤ t.expire
    → RisesFrom lo (add_behind t prev ts)
unfolding add_behind
add_behind-RisesFrom t prev [] lo r le = (r.0, (le, tt))
add_behind-RisesFrom t prev (tmp ∷ ts) lo r le =
    if-cases (RisesFrom lo) (ltb t.expire tmp.expire) _ _
      (λ before. (r.0, (le, (ground arith, r.1.1))))
      (λ behind. (r.0, add_behind-RisesFrom t tmp ts prev.expire r.1 (ground arith)))

add_timer-RisesFrom :
    (t : Timer) (ts : List Timer) (lo : ℕ)
    → RisesFrom lo ts
    → lo ≤ t.expire
    → RisesFrom lo (add_timer t ts)
unfolding add_timer
add_timer-RisesFrom t [] lo r le = (le, tt)
add_timer-RisesFrom t (head ∷ ts) lo r le =
    if-cases (RisesFrom lo) (ltb t.expire head.expire) _ _ (λ before. (le, (ground arith, r.1)))
      (λ behind. add_behind-RisesFrom t head ts lo r (ground arith))

move_timer-RisesFrom :
    (t : Timer) (ts : List Timer) (lo : ℕ)
    → RisesFrom lo ts
    → lo ≤ t.expire
    → RisesFrom lo (move_timer t ts)
unfolding move_timer
move_timer-RisesFrom t [] lo r le = (le, tt)
move_timer-RisesFrom t (next ∷ ts) lo r le =
    if-cases (RisesFrom lo) (ltb t.expire next.expire) _ _ (λ before. (le, (ground arith, r.1)))
      (λ behind. add_behind-RisesFrom t next ts lo r (ground arith))

refresh-RisesFrom :
    (fd e : ℕ) (ts : List Timer) (lo : ℕ)
    → RisesFrom lo ts
    → EndBy e ts
    → RisesFrom lo (adjust_timer fd (set_expire fd e ts))
unfolding adjust_timer set_expire
refresh-RisesFrom fd e [] lo r by = tt
refresh-RisesFrom fd e (t ∷ ts) lo r by = elim (Bool-cases (t.sockfd == fd)) [
  | inl own ↦
      rw (own, adjust_timer, own)
        (move_timer-RisesFrom (record t { expire = e }) ts lo (RisesFrom-le lo t.expire ts r.0 r.1)
          (omega (arith, r.0, by.0)))
  | inr other ↦ rw (other, adjust_timer, other) (r.0, refresh-RisesFrom fd e ts t.expire r.1 by.1)
]

del_timer-RisesFrom :
    (fd : ℕ) (ts : List Timer) (lo : ℕ) → RisesFrom lo ts → RisesFrom lo (del_timer fd ts)
unfolding del_timer
del_timer-RisesFrom fd [] lo r = tt
del_timer-RisesFrom fd (t ∷ ts) lo r =
    if-cases (RisesFrom lo) (t.sockfd == fd) _ _ (λ own. RisesFrom-le lo t.expire ts r.0 r.1)
      (λ other. (r.0, del_timer-RisesFrom fd ts t.expire r.1))

tick-RisesFrom :
    (cur : ℕ) (ts : List Timer) (lo : ℕ) → RisesFrom lo ts → RisesFrom lo (tick cur ts).1
unfolding tick
tick-RisesFrom cur [] lo r = tt
tick-RisesFrom cur (t ∷ ts) lo r =
    if-cases (λ (p : List Timer × List Timer). RisesFrom lo p.1) (ltb cur t.expire) _ _ (λ runs. r)
      (λ over. tick-RisesFrom cur ts lo (RisesFrom-le lo t.expire ts r.0 r.1))

EndBy-le : (a b : ℕ) (ts : List Timer) → a ≤ b → EndBy a ts → EndBy b ts
EndBy-le a b [] le h = tt
EndBy-le a b (t ∷ ts) le h = (omega (arith, h.0), EndBy-le a b ts le h.1)

module _ (hi : ℕ) where
  add_behind-EndBy :
      (t prev : Timer) (ts : List Timer)
      → EndBy hi (prev ∷ ts)
      → t.expire ≤ hi
      → EndBy hi (add_behind t prev ts)
  unfolding add_behind
  add_behind-EndBy t prev [] h le = (h.0, (le, tt))
  add_behind-EndBy t prev (tmp ∷ ts) h le =
      if-cases (EndBy hi) (ltb t.expire tmp.expire) _ _ (λ before. (h.0, (le, h.1)))
        (λ behind. (h.0, add_behind-EndBy t tmp ts h.1 le))

  add_timer-EndBy :
      (t : Timer) (ts : List Timer) → EndBy hi ts → t.expire ≤ hi → EndBy hi (add_timer t ts)
  unfolding add_timer
  add_timer-EndBy t [] h le = (le, tt)
  add_timer-EndBy t (head ∷ ts) h le =
      if-cases (EndBy hi) (ltb t.expire head.expire) _ _ (λ before. (le, h))
        (λ behind. add_behind-EndBy t head ts h le)

  move_timer-EndBy :
      (t : Timer) (ts : List Timer) → EndBy hi ts → t.expire ≤ hi → EndBy hi (move_timer t ts)
  unfolding move_timer
  move_timer-EndBy t [] h le = (le, tt)
  move_timer-EndBy t (next ∷ ts) h le =
      if-cases (EndBy hi) (ltb t.expire next.expire) _ _ (λ before. (le, h))
        (λ behind. add_behind-EndBy t next ts h le)

  refresh-EndBy :
      (fd e : ℕ) (ts : List Timer)
      → EndBy hi ts
      → e ≤ hi
      → EndBy hi (adjust_timer fd (set_expire fd e ts))
  unfolding adjust_timer set_expire
  refresh-EndBy fd e [] h le = tt
  refresh-EndBy fd e (t ∷ ts) h le = elim (Bool-cases (t.sockfd == fd)) [
    | inl own ↦ rw (own, adjust_timer, own) (move_timer-EndBy (record t { expire = e }) ts h.1 le)
    | inr other ↦ rw (other, adjust_timer, other) (h.0, refresh-EndBy fd e ts h.1 le)
  ]

  del_timer-EndBy : (fd : ℕ) (ts : List Timer) → EndBy hi ts → EndBy hi (del_timer fd ts)
  unfolding del_timer
  del_timer-EndBy fd [] h = tt
  del_timer-EndBy fd (t ∷ ts) h =
      if-cases (EndBy hi) (t.sockfd == fd) _ _ (λ own. h.1)
        (λ other. (h.0, del_timer-EndBy fd ts h.1))

  tick-EndBy : (cur : ℕ) (ts : List Timer) → EndBy hi ts → EndBy hi (tick cur ts).1
  unfolding tick
  tick-EndBy cur [] h = tt
  tick-EndBy cur (t ∷ ts) h =
      if-cases (λ (p : List Timer × List Timer). EndBy hi p.1) (ltb cur t.expire) _ _ (λ runs. h)
        (λ over. tick-EndBy cur ts h.1)

-- What holds of the list while the clock shows `now`.
record IsOrdered (timeslot now : ℕ) (ts : List Timer) : Type 0 where
  rises : RisesFrom 0 ts
  ends : EndBy (now + 3 * timeslot) ts

timer_step-IsOrdered :
    (timeslot now : ℕ) (op : TimerOp) (ts : List Timer)
    → now ≤ clock now op
    → IsOrdered timeslot now ts
    → IsOrdered timeslot (clock now op) (timer_step timeslot op ts)
unfolding timer_step clock start_timer refresh_timer
timer_step-IsOrdered timeslot now (starts fd cur) ts le v = record {
  rises = add_timer-RisesFrom _ ts 0 v.rises (omega arith);
  ends = add_timer-EndBy _ _ ts (EndBy-le _ _ ts (omega arith) v.ends) (omega arith);
}
timer_step-IsOrdered timeslot now (refreshes fd cur) ts le v =
    let later = EndBy-le (now + 3 * timeslot) (cur + 3 * timeslot) ts (omega arith) v.ends in
    record {
      rises = refresh-RisesFrom fd (cur + 3 * timeslot) ts 0 v.rises later;
      ends = refresh-EndBy _ fd (cur + 3 * timeslot) ts later (omega arith);
    }
timer_step-IsOrdered timeslot now (deletes fd) ts le v = record {
  rises = del_timer-RisesFrom fd ts 0 v.rises;
  ends = del_timer-EndBy _ fd ts v.ends;
}
timer_step-IsOrdered timeslot now (ticks cur) ts le v = record {
  rises = tick-RisesFrom cur ts 0 v.rises;
  ends = tick-EndBy _ cur ts (EndBy-le _ _ ts (omega arith) v.ends);
}

timer_run-RisesFrom :
    (timeslot now : ℕ) (ops : List TimerOp) (ts : List Timer)
    → ClockFrom now ops
    → IsOrdered timeslot now ts
    → RisesFrom 0 (timer_run timeslot ops ts)
unfolding timer_run
timer_run-RisesFrom timeslot now [] ts c v = v.rises
timer_run-RisesFrom timeslot now (op ∷ ops) ts c v =
    timer_run-RisesFrom timeslot (clock now op) ops (timer_step timeslot op ts) c.1
      (timer_step-IsOrdered timeslot now op ts c.0 v)

runs_past :
    (cur lo : ℕ) (ts : List Timer)
    → RisesFrom lo ts
    → cur < lo
    → All (λ (t : Timer). cur < t.expire) ts
runs_past cur lo [] r lt = tt
runs_past cur lo (t ∷ ts) r lt =
    let next : cur < t.expire = omega (arith, r.0) in (next, runs_past cur t.expire ts r.1 next)

-- A tick splits the list at the time.
pub record Splits (cur : ℕ) (ts : List Timer) (p : List Timer × List Timer) : Type 0 where
  pub all : p.0 ++ p.1 ≡ ts
  pub over : EndBy cur p.0
  pub runs : All (λ (t : Timer). cur < t.expire) p.1

tick-Splits : (cur lo : ℕ) (ts : List Timer) → RisesFrom lo ts → Splits cur ts (tick cur ts)
unfolding tick
tick-Splits cur lo [] r = record { all = refl; over = tt; runs = tt }
tick-Splits cur lo (t ∷ ts) r =
    let rest = tick-Splits cur t.expire ts r.1 in
    if-cases (Splits cur (t ∷ ts)) (ltb cur t.expire) _ _
      (λ runs. record {
        all = refl;
        over = tt;
        runs = ((ground arith), runs_past cur t.expire ts r.1 (ground arith));
      })
      (λ over. record {
        all = ap (◌∷◌ t) rest.all;
        over = ((ground arith), rest.over);
        runs = rest.runs;
      })

-- After every series of new, refreshed, deleted and fired timers under a clock that is not set
-- back, a tick fires exactly the timers whose time has come, keeps exactly the others, and leaves
-- the order of both as it was.
pub tick-timer_run :
    (timeslot cur : ℕ) (ops : List TimerOp)
    → ClockFrom 0 ops
    → Splits cur (timer_run timeslot ops []) (tick cur (timer_run timeslot ops []))
tick-timer_run timeslot cur ops c =
    tick-Splits cur 0 _ (timer_run-RisesFrom timeslot 0 ops [] c (record { rises = tt; ends = tt }))
