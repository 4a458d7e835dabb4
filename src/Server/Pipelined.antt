-- ===== src/Server/Pipelined.antt =====
-- A response that is sent in part, with the next request already received.
use cpp_url_shortener.HttpConn.State.{HttpConn, epollout, has_pipelined_input}
use cpp_url_shortener.HttpConn.Writing
use cpp_url_shortener.HttpConn.Writing.{Writev, wrote, Written, write, write_loop, advance, unsent}
use mathlib.Core.Path.{subst}
use cpp_url_shortener.HttpConn.Sending.{Tracks, unsent-advance}
use cpp_url_shortener.ThreadPool.{ThreadPool, Task, append_p}
use cpp_url_shortener.Server.{
  Client, Server, set_client, set_conn, after_append, hand_over, after_written, after_write,
  dealwithwrite, adjust_timer,
}
use cpp_url_shortener.Common.{
  ℕ, ◌-◌, ◌<◌, ◌≡◌, refl, sym, ap, ◌∙◌, true, false, Option, some, List, [], ◌∷◌, ◌++◌, arith, leb,
  ◌==◌, length, take, drop, Bytes, if-cases,
}

pub own_client :
    (fd : ℕ) (client : Client) (s : Server) → (set_client fd client s).clients fd ≡ client
unfolding set_client
own_client fd client s = let own : (fd == fd) ≡ true = ground arith in rw own refl

advance-left : (n : ℕ) (c : HttpConn) → n < c.bytes_to_send → 0 < (advance n c).bytes_to_send
unfolding advance
advance-left n c more = omega arith

stopped : ℕ → HttpConn → Written
stopped n c = record {
  result = true;
  conn = advance n c;
  sent = [] ++ take n (unsent c);
  armed = some epollout;
}

write_stopped :
    (n : ℕ) (rs : List Writev) (c : HttpConn)
    → c.pending_close ≡ false
    → n < c.bytes_to_send
    → write (wrote n ∷ Writing.would_block ∷ rs) c ≡ some (stopped n c)
unfolding write write_loop advance stopped
write_stopped n rs c alive more =
    let t1 : (c.bytes_to_send == 0) ≡ false = ground arith in
    let t2 : leb (c.bytes_to_send - n) 0 ≡ false = ground arith in simp (alive, t1, t2) refl

-- The rest of the server that a changed timer leaves alone.
adjust_timer-keeps :
    (fd cur : ℕ) (s : Server)
    → ((adjust_timer fd cur s).pool ≡ s.pool) × ((adjust_timer fd cur s).clients ≡ s.clients)
unfolding adjust_timer
adjust_timer-keeps fd cur s =
    if-cases (λ (r : Server). (r.pool ≡ s.pool) × (r.clients ≡ s.clients)) (s.clients fd).has_timer
      _ _ (λ h. (refl, refl)) (λ h. (refl, refl))

hand_over-keeps :
    (fd cur : ℕ) (s : Server)
    → s.pool.stopped ≡ false
    → length s.pool.workqueue < s.pool.max_requests
    → ((hand_over fd cur s).pool.workqueue
        ≡ s.pool.workqueue
          ++ record { request = some fd; generation = (s.clients fd).conn.generation } ∷ [])
      × ((hand_over fd cur s).clients ≡ s.clients)
unfolding hand_over append_p after_append
hand_over-keeps fd cur s runs room =
    let t : leb s.pool.max_requests (length s.pool.workqueue) ≡ false = ground arith in
    simp (runs, t)
      (
        ap (λ (p : ThreadPool). p.workqueue) (adjust_timer-keeps fd cur _).0,
        (adjust_timer-keeps fd cur _).1,
      )

-- A server whose worker is to get the slot, which still has these bytes to send.
pub record IsShared (fd : ℕ) (before : List Task) (generation : ℕ) (unsent_rest : Bytes)
    (s : Server) : Type 0 where
  pub given :
      s.pool.workqueue ≡ before ++ record { request = some fd; generation = generation } ∷ []
  pub left : 0 < (s.clients fd).conn.bytes_to_send
  pub rest : unsent (s.clients fd).conn ≡ unsent_rest

stopped-IsShared :
    (fd n cur : ℕ) (s : Server)
    → n < (s.clients fd).conn.bytes_to_send
    → Tracks (s.clients fd).conn
    → has_pipelined_input (s.clients fd).conn ≡ true
    → s.pool.stopped ≡ false
    → length s.pool.workqueue < s.pool.max_requests
    → IsShared fd s.pool.workqueue
        (s.clients fd).conn.generation
        (drop n (unsent (s.clients fd).conn))
        (after_written true fd cur (set_conn fd (advance n (s.clients fd).conn) s))
unfolding after_written set_conn set_client advance
stopped-IsShared fd n cur s more t pipelined runs room =
    let c = (s.clients fd).conn in
    let after = set_conn fd (advance n c) s in
    let own : (after.clients fd).conn ≡ advance n c =
      ap (λ (client : Client). client.conn)
        (own_client fd (record (s.clients fd) { conn = advance n c }) s) in
    let still : has_pipelined_input (after.clients fd).conn ≡ true =
      ap has_pipelined_input own ∙ (unfold has_pipelined_input in pipelined) in
    let (given, kept) = hand_over-keeps fd cur after runs room in
    let end : ((hand_over fd cur after).clients fd).conn ≡ advance n c =
      ap (λ (clients : ℕ → Client). (clients fd).conn) kept ∙ own in
    rw still (record {
      given =
          given
          ∙ ap
              (λ (d : HttpConn).
                s.pool.workqueue ++ record { request = some fd; generation = d.generation } ∷ [])
              own;
      left = subst (λ (d : HttpConn). 0 < d.bytes_to_send) (sym end) (advance-left n c more);
      rest = ap unsent end ∙ unsent-advance n c t;
    })

-- Where the socket's buffer stops a response part way and bytes of the next request have been
-- received, `dealwithwrite` gives the slot to a worker, if the pool has room, and the slot it
-- gives away still has the rest of the response to send.
pub dealwithwrite-IsShared :
    (fd n cur : ℕ) (rs : List Writev) (s : Server)
    → (s.clients fd).conn.pending_close ≡ false
    → n < (s.clients fd).conn.bytes_to_send
    → Tracks (s.clients fd).conn
    → has_pipelined_input (s.clients fd).conn ≡ true
    → s.pool.stopped ≡ false
    → length s.pool.workqueue < s.pool.max_requests
    → IsShared fd s.pool.workqueue
        (s.clients fd).conn.generation
        (drop n (unsent (s.clients fd).conn))
        (dealwithwrite fd (wrote n ∷ Writing.would_block ∷ rs) cur s)
unfolding dealwithwrite after_write stopped
dealwithwrite-IsShared fd n cur rs s alive more t pipelined runs room =
    let c = (s.clients fd).conn in
    subst
      (λ (o : Option Written).
        IsShared fd s.pool.workqueue c.generation (drop n (unsent c)) (after_write fd cur s o))
      (sym (write_stopped n rs c alive more))
      (stopped-IsShared fd n cur s more t pipelined runs room)
