-- ===== src/TimerList/Reorder.antt =====
-- Adding and adjusting loses no timer.
use mathlib.Core.List.{Perm}
use mathlib.Core.List.Perm
use cpp_url_shortener.TimerList.{Timer, add_behind, add_timer, move_timer, adjust_timer}
use cpp_url_shortener.Common.{ℕ, List, [], ◌∷◌, ltb, ◌==◌, if-cases}

add_behind-Perm : (t prev : Timer) (ts : List Timer) → Perm (add_behind t prev ts) (t ∷ prev ∷ ts)
unfolding add_behind
add_behind-Perm t prev [] = Perm.swap t prev []
add_behind-Perm t prev (tmp ∷ ts) =
    if-cases (λ (l : List Timer). Perm l (t ∷ prev ∷ tmp ∷ ts)) (ltb t.expire tmp.expire) _ _
      (λ before. Perm.swap t prev (tmp ∷ ts))
      (λ behind.
        Perm.trans (Perm.cons prev (add_behind-Perm t tmp ts)) (Perm.swap t prev (tmp ∷ ts)))

move_timer-Perm : (t : Timer) (ts : List Timer) → Perm (move_timer t ts) (t ∷ ts)
unfolding move_timer
move_timer-Perm t [] = Perm.refl (t ∷ [])
move_timer-Perm t (next ∷ ts) =
    if-cases (λ (l : List Timer). Perm l (t ∷ next ∷ ts)) (ltb t.expire next.expire) _ _
      (λ before. Perm.refl (t ∷ next ∷ ts)) (λ behind. add_behind-Perm t next ts)

add_timer-Perm : (t : Timer) (ts : List Timer) → Perm (add_timer t ts) (t ∷ ts)
unfolding add_timer
add_timer-Perm t [] = Perm.refl (t ∷ [])
add_timer-Perm t (head ∷ ts) =
    if-cases (λ (l : List Timer). Perm l (t ∷ head ∷ ts)) (ltb t.expire head.expire) _ _
      (λ before. Perm.refl (t ∷ head ∷ ts)) (λ behind. add_behind-Perm t head ts)

adjust_timer-Perm : (fd : ℕ) (ts : List Timer) → Perm (adjust_timer fd ts) ts
unfolding adjust_timer
adjust_timer-Perm fd [] = Perm.refl []
adjust_timer-Perm fd (t ∷ ts) =
    if-cases (λ (l : List Timer). Perm l (t ∷ ts)) (t.sockfd == fd) _ _
      (λ own. move_timer-Perm t ts) (λ other. Perm.cons t (adjust_timer-Perm fd ts))

-- Adding a timer and adjusting one only reorder: the list then has the timers it had, and the new
-- one.
pub timers-Perm :
    (t : Timer) (fd : ℕ) (ts : List Timer)
    → Perm (add_timer t ts) (t ∷ ts) × Perm (adjust_timer fd ts) ts
timers-Perm t fd ts = (add_timer-Perm t ts, adjust_timer-Perm fd ts)
