-- ===== src/Server/Counts.antt =====
-- How many timers of a connection stand in the list.
use cpp_url_shortener.TimerList.{
  Timer, add_behind, add_timer, move_timer, del_timer, tick, set_expire, start_timer, refresh_timer,
}
use cpp_url_shortener.TimerList
use cpp_url_shortener.Common.{
  ℕ, ◌+◌, ◌-◌, ◌*◌, ◌≡◌, refl, ap, ◌∙◌, ◌≢◌, Bool, true, false, List, [], ◌∷◌, arith, ltb, ◌==◌,
  if-cases,
}

unfoldable pub one_of : Bool → ℕ
one_of true = 1
one_of false = 0

unfoldable pub count : ℕ → List Timer → ℕ
count fd [] = 0
count fd (t ∷ ts) = one_of (t.sockfd == fd) + count fd ts

module _ (j : ℕ) where
  count-add_behind :
      (t prev : Timer) (ts : List Timer)
      → count j (add_behind t prev ts) ≡ one_of (t.sockfd == j) + count j (prev ∷ ts)
  unfolding add_behind count
  count-add_behind t prev [] = omega arith
  count-add_behind t prev (tmp ∷ ts) =
      let later = count-add_behind t tmp ts in
      if-cases (λ (l : List Timer). count j l ≡ one_of (t.sockfd == j) + count j (prev ∷ tmp ∷ ts))
        (ltb t.expire tmp.expire) _ _ (λ before. omega arith) (λ behind. omega arith)

  count-add_timer :
      (t : Timer) (ts : List Timer) → count j (add_timer t ts) ≡ one_of (t.sockfd == j) + count j ts
  unfolding add_timer count
  count-add_timer t [] = refl
  count-add_timer t (head ∷ ts) =
      if-cases (λ (l : List Timer). count j l ≡ one_of (t.sockfd == j) + count j (head ∷ ts))
        (ltb t.expire head.expire) _ _ (λ before. refl) (λ behind. count-add_behind t head ts)

  count-move_timer :
      (t : Timer) (ts : List Timer)
      → count j (move_timer t ts) ≡ one_of (t.sockfd == j) + count j ts
  unfolding move_timer count
  count-move_timer t [] = refl
  count-move_timer t (next ∷ ts) =
      if-cases (λ (l : List Timer). count j l ≡ one_of (t.sockfd == j) + count j (next ∷ ts))
        (ltb t.expire next.expire) _ _ (λ before. refl) (λ behind. count-add_behind t next ts)

  count-adjust_timer :
      (fd : ℕ) (ts : List Timer) → count j (TimerList.adjust_timer fd ts) ≡ count j ts
  unfolding TimerList.adjust_timer count
  count-adjust_timer fd [] = refl
  count-adjust_timer fd (t ∷ ts) =
      if-cases (λ (l : List Timer). count j l ≡ count j (t ∷ ts)) (t.sockfd == fd) _ _
        (λ own. count-move_timer t ts)
        (λ other. ap (λ (n : ℕ). one_of (t.sockfd == j) + n) (count-adjust_timer fd ts))

  count-set_expire : (fd e : ℕ) (ts : List Timer) → count j (set_expire fd e ts) ≡ count j ts
  unfolding set_expire count
  count-set_expire fd e [] = refl
  count-set_expire fd e (t ∷ ts) =
      if-cases (λ (l : List Timer). count j l ≡ count j (t ∷ ts)) (t.sockfd == fd) _ _ (λ own. refl)
        (λ other. ap (λ (n : ℕ). one_of (t.sockfd == j) + n) (count-set_expire fd e ts))

  pub count-start_timer :
      (slot fd cur : ℕ) (ts : List Timer)
      → count j (start_timer slot fd cur ts) ≡ one_of (fd == j) + count j ts
  unfolding start_timer
  count-start_timer slot fd cur ts = count-add_timer _ ts

  pub count-refresh_timer :
      (slot fd cur : ℕ) (ts : List Timer) → count j (refresh_timer slot fd cur ts) ≡ count j ts
  unfolding refresh_timer
  count-refresh_timer slot fd cur ts =
      count-adjust_timer fd (set_expire fd (cur + 3 * slot) ts)
      ∙ count-set_expire fd (cur + 3 * slot) ts

  pub count-del_timer_ne :
      (fd : ℕ) (ts : List Timer) → fd ≢ j → count j (del_timer fd ts) ≡ count j ts
  unfolding del_timer count one_of
  count-del_timer_ne fd [] ne = refl
  count-del_timer_ne fd (t ∷ ts) ne =
      if-cases (λ (l : List Timer). count j l ≡ count j (t ∷ ts)) (t.sockfd == fd) _ _
        (λ own.
          let other : (t.sockfd == j) ≡ false =
            (let e : t.sockfd ≡ fd = ground arith in ground arith) in
          rw (other, one_of) (omega arith))
        (λ other. ap (λ (n : ℕ). one_of (t.sockfd == j) + n) (count-del_timer_ne fd ts ne))

  pub count-del_timer_self : (ts : List Timer) → count j (del_timer j ts) ≡ count j ts - 1
  unfolding del_timer count one_of
  count-del_timer_self [] = omega arith
  count-del_timer_self (t ∷ ts) =
      let later = count-del_timer_self ts in
      if-cases (λ (l : List Timer). count j l ≡ count j (t ∷ ts) - 1) (t.sockfd == j) _ _
        (λ own. let one : one_of (t.sockfd == j) ≡ 1 = ap one_of own in omega arith)
        (λ other. let none_here : one_of (t.sockfd == j) ≡ 0 = ap one_of other in omega arith)

  pub count-tick :
      (cur : ℕ) (ts : List Timer) → count j (tick cur ts).0 + count j (tick cur ts).1 ≡ count j ts
  unfolding tick count
  count-tick cur [] = omega arith
  count-tick cur (t ∷ ts) =
      let rest = count-tick cur ts in
      if-cases (λ (p : List Timer × List Timer). count j p.0 + count j p.1 ≡ count j (t ∷ ts))
        (ltb cur t.expire) _ _ (λ runs. omega arith) (λ over. omega arith)
