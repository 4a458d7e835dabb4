-- ===== src/TimerList.antt =====
-- timer/lst_timer.{h,cpp}: `sort_timer_lst`, with the calls of webserver.cpp that set an expiry. The
-- list has the nodes from `head` to `tail`; the links of a node are its neighbours. A node is named
-- by the socket of its client. The callback of a timer is left to the caller of `tick`.
pub mod Order
pub mod Reorder
mod Tests
use cpp_url_shortener.Common.{ℕ, ◌+◌, ◌*◌, List, [], ◌∷◌, ltb, ◌==◌, if◌then◌else◌}

pub record Timer : Type 0 where
  pub expire : ℕ
  pub sockfd : ℕ

-- `add_timer(timer, lst_head)`: the list from `prev` on, with the timer behind it.
unfoldable pub add_behind : Timer → Timer → List Timer → List Timer
add_behind timer prev [] = prev ∷ timer ∷ []
add_behind timer prev (tmp ∷ rest) =
    let later = add_behind timer tmp rest in
    if ltb timer.expire tmp.expire then prev ∷ timer ∷ tmp ∷ rest else prev ∷ later

unfoldable pub add_timer : Timer → List Timer → List Timer
add_timer timer [] = timer ∷ []
add_timer timer (head ∷ rest) =
    if ltb timer.expire head.expire then timer ∷ head ∷ rest else add_behind timer head rest

-- The list from the timer on, with the timer moved back where its successor comes first.
unfoldable pub move_timer : Timer → List Timer → List Timer
move_timer timer [] = timer ∷ []
move_timer timer (next ∷ rest) =
    if ltb timer.expire next.expire then timer ∷ next ∷ rest else add_behind timer next rest

unfoldable pub adjust_timer : ℕ → List Timer → List Timer
adjust_timer fd [] = []
adjust_timer fd (timer ∷ rest) =
    let later = adjust_timer fd rest in
    if timer.sockfd == fd then move_timer timer rest else timer ∷ later

unfoldable pub del_timer : ℕ → List Timer → List Timer
del_timer fd [] = []
del_timer fd (timer ∷ rest) =
    let later = del_timer fd rest in if timer.sockfd == fd then rest else timer ∷ later

-- `tick` at the time `cur`: the timers whose callback is called, in that order, and those left.
unfoldable pub tick : ℕ → List Timer → List Timer × List Timer
tick cur [] = ([], [])
tick cur (timer ∷ rest) =
    let (fired, left) = tick cur rest in
    if ltb cur timer.expire then ([], timer ∷ rest) else (timer ∷ fired, left)

-- `timer->expire = expire`
unfoldable pub set_expire : ℕ → ℕ → List Timer → List Timer
set_expire fd expire [] = []
set_expire fd expire (timer ∷ rest) =
    let later = set_expire fd expire rest in
    if timer.sockfd == fd then record timer { expire = expire } ∷ rest else timer ∷ later

-- `WebServer::timer` and `WebServer::adjust_timer` at the time `cur`.
unfoldable pub start_timer : ℕ → ℕ → ℕ → List Timer → List Timer
start_timer timeslot fd cur ts = add_timer (record { expire = cur + 3 * timeslot; sockfd = fd }) ts

unfoldable pub refresh_timer : ℕ → ℕ → ℕ → List Timer → List Timer
refresh_timer timeslot fd cur ts = adjust_timer fd (set_expire fd (cur + 3 * timeslot) ts)
