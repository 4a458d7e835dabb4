-- ===== src/Server/Timers.antt =====
-- A connection is open exactly while it has a timer, and then the list has one timer of it.
use cpp_url_shortener.Server.Clients.{
  is_some, IsTimed, set_client-Timed, set_conn-IsTimed, adjust_timer-IsTimed, deal_timer-IsTimed,
  closed-Timed, close_client-closed, has_one,
}
use cpp_url_shortener.HttpConn.State.{HttpConn, has_pipelined_input}
use cpp_url_shortener.HttpConn.Reading.{Recv}
use cpp_url_shortener.HttpConn.Writing.{Writev, Written}
use cpp_url_shortener.ThreadPool.{ThreadPool}
use cpp_url_shortener.TimerList.{Timer, start_timer, tick}
use cpp_url_shortener.Server.{
  Server, set_client, close_client, cb_func, timer, deal_timer, set_conn, after_append, hand_over,
  after_read, dealwithread, after_written, after_write, dealwithwrite, call_back, timer_handler,
}
use cpp_url_shortener.Server.Counts.{one_of, count, count-start_timer, count-tick}
use cpp_url_shortener.Common.{
  ℕ, ◌+◌, ◌≤◌, ◌≡◌, refl, ap, ◌∙◌, Bool, true, false, Option, none, some, List, [], ◌∷◌, arith,
  ◌==◌, if-cases,
}

pub data ServerOp : Type 0 where
  accepts : ℕ → ℕ → ServerOp
  reads : ℕ → List Recv → ℕ → ServerOp
  writes : ℕ → List Writev → ℕ → ServerOp
  fails : ℕ → ServerOp
  ticks : ℕ → ServerOp

unfoldable pub server_step : ServerOp → Server → Server
server_step (accepts fd cur) s = timer fd cur s
server_step (reads fd rs cur) s = dealwithread fd rs cur s
server_step (writes fd rs cur) s = dealwithwrite fd rs cur s
server_step (fails fd) s = deal_timer fd s
server_step (ticks cur) s = timer_handler cur s

unfoldable pub server_run : List ServerOp → Server → Server
server_run [] s = s
server_run (op ∷ ops) s = server_run ops (server_step op s)

-- An accepted socket is not one that is open, as the kernel has it.
abbrev pub IsNew : ServerOp → Server → Type 0
IsNew (accepts fd cur) s = (s.clients fd).sockfd ≡ none
IsNew op s = Unit {0}

abbrev pub AcceptsNew : List ServerOp → Server → Type 0
AcceptsNew [] s = Unit {0}
AcceptsNew (op ∷ ops) s = IsNew op s × AcceptsNew ops (server_step op s)

-- Every connection is timed.
abbrev pub AllTimed : Server → Type 0
AllTimed s = (j : ℕ) → IsTimed [] s j

timer-IsTimed :
    (fd cur : ℕ) (s : Server) (j : ℕ)
    → (s.clients fd).sockfd ≡ none
    → AllTimed s
    → IsTimed [] (timer fd cur s) j
unfolding timer IsTimed count set_client
timer-IsTimed fd cur s j new v =
    let added = count-start_timer j s.timeslot fd cur s.timers in
    let client = (timer fd cur s).clients fd in
    set_client-Timed _ fd _ (record s { timers = start_timer s.timeslot fd cur s.timers }) j
      (λ e.
        let own : (fd == j) ≡ true = ground arith in
        let one : one_of (fd == j) ≡ 1 = unfold one_of in ap one_of own in
        let closed : (s.clients fd).has_timer ≡ false = (v fd).open_socket ∙ ap is_some new in
        let empty_fd : count fd s.timers ≡ 0 = unfold one_of in has_one fd s false (v fd) closed in
        let empty_j : count j s.timers ≡ 0 = ap (λ (i : ℕ). count i s.timers) e ∙ empty_fd in
        record { timers = unfold one_of in omega (arith, added, one, empty_j); open_socket = refl })
      (λ ne.
        let other : (fd == j) ≡ false = ground arith in
        let none_new : one_of (fd == j) ≡ 0 = unfold one_of in ap one_of other in
        let before = v j in
        record {
          timers =
              (let same : 0 + count j (start_timer s.timeslot fd cur s.timers)
                    ≡ 0 + count j s.timers =
                  omega (arith, added, none_new) in
                same ∙ before.timers);
          open_socket = before.open_socket;
        })

pool-IsTimed : (p : ThreadPool) (s : Server) → AllTimed s → AllTimed (record s { pool = p })
unfolding IsTimed
pool-IsTimed p s v j = record { timers = (v j).timers; open_socket = (v j).open_socket }

after_append-IsTimed :
    (fd cur : ℕ) (s : Server) (r : Bool × ThreadPool)
    → AllTimed s
    → AllTimed (after_append fd cur s r)
unfolding after_append
after_append-IsTimed fd cur s (true, p) v j =
    adjust_timer-IsTimed [] fd cur (record s { pool = p }) j (pool-IsTimed p s v j)
after_append-IsTimed fd cur s (false, p) v j = deal_timer-IsTimed fd s j v

hand_over-IsTimed : (fd cur : ℕ) (s : Server) → AllTimed s → AllTimed (hand_over fd cur s)
unfolding hand_over
hand_over-IsTimed fd cur s v = after_append-IsTimed fd cur s _ v

after_read-IsTimed :
    (fd cur : ℕ) (s : Server) (o : Option (Bool × HttpConn))
    → AllTimed s
    → AllTimed (after_read fd cur s o)
unfolding after_read
after_read-IsTimed fd cur s none v = v
after_read-IsTimed fd cur s (some (true, conn)) v =
    hand_over-IsTimed fd cur (set_conn fd conn s) (λ j. set_conn-IsTimed [] fd conn s j (v j))
after_read-IsTimed fd cur s (some (false, conn)) v =
    λ j. deal_timer-IsTimed fd (set_conn fd conn s) j (λ i. set_conn-IsTimed [] fd conn s i (v i))

after_written-IsTimed :
    (result : Bool) (fd cur : ℕ) (s : Server)
    → AllTimed s
    → AllTimed (after_written result fd cur s)
unfolding after_written
after_written-IsTimed true fd cur s v =
    if-cases AllTimed (has_pipelined_input (s.clients fd).conn) _ _
      (λ more. hand_over-IsTimed fd cur s v)
      (λ nothing. λ j. adjust_timer-IsTimed [] fd cur s j (v j))
after_written-IsTimed false fd cur s v = λ j. deal_timer-IsTimed fd s j v

after_write-IsTimed :
    (fd cur : ℕ) (s : Server) (o : Option Written) → AllTimed s → AllTimed (after_write fd cur s o)
unfolding after_write
after_write-IsTimed fd cur s none v = v
after_write-IsTimed fd cur s (some w) v =
    after_written-IsTimed w.result fd cur (set_conn fd w.conn s)
      (λ j. set_conn-IsTimed [] fd w.conn s j (v j))

one_of_le : (b : Bool) → one_of b ≤ 1
unfolding one_of
one_of_le true = omega arith
one_of_le false = omega arith

due_closed :
    (t : Timer) (due : List Timer) (s : Server) (j : ℕ)
    → ((i : ℕ) → IsTimed (t ∷ due) s i)
    → IsTimed due (cb_func t.sockfd s) j
unfolding cb_func IsTimed count set_client
due_closed t due s j v =
    let fd = t.sockfd in
    let all : one_of (fd == j) + count j due + count j s.timers ≡ one_of (s.clients j).has_timer =
      (v j).timers in
    let le = one_of_le (s.clients j).has_timer in
    set_client-Timed (count j due + count j s.timers) fd (close_client (s.clients fd)) s j
      (λ e.
        let one : one_of (fd == j) ≡ 1 =
          (let own : (fd == j) ≡ true = ground arith in unfold one_of in ap one_of own) in
        closed-Timed (count j due + count j s.timers) (close_client (s.clients fd)) (omega arith)
          (close_client-closed (s.clients fd) (v fd).open_socket))
      (λ ne.
        let none_here : one_of (fd == j) ≡ 0 =
          (let other : (fd == j) ≡ false = ground arith in unfold one_of in ap one_of other) in
        record { timers = omega arith; open_socket = (v j).open_socket })

call_back-IsTimed :
    (due : List Timer) (s : Server) → ((j : ℕ) → IsTimed due s j) → AllTimed (call_back due s)
unfolding call_back
call_back-IsTimed [] s v = v
call_back-IsTimed (t ∷ due) s v =
    call_back-IsTimed due (cb_func t.sockfd s) (λ j. due_closed t due s j v)

timer_handler-IsTimed : (cur : ℕ) (s : Server) → AllTimed s → AllTimed (timer_handler cur s)
unfolding timer_handler IsTimed
timer_handler-IsTimed cur s v =
    call_back-IsTimed (tick cur s.timers).0 (record s { timers = (tick cur s.timers).1 })
      (λ j. record {
        timers =
            count-tick j cur s.timers
            ∙ ((let z : count j s.timers ≡ 0 + count j s.timers = omega arith in z)
                ∙ (unfold count in (v j).timers));
        open_socket = (v j).open_socket;
      })

server_step-IsTimed :
    (op : ServerOp) (s : Server) → IsNew op s → AllTimed s → AllTimed (server_step op s)
unfolding server_step dealwithread dealwithwrite
server_step-IsTimed (accepts fd cur) s new v = λ j. timer-IsTimed fd cur s j new v
server_step-IsTimed (reads fd rs cur) s new v = after_read-IsTimed fd cur s _ v
server_step-IsTimed (writes fd rs cur) s new v = after_write-IsTimed fd cur s _ v
server_step-IsTimed (fails fd) s new v = λ j. deal_timer-IsTimed fd s j v
server_step-IsTimed (ticks cur) s new v = timer_handler-IsTimed cur s v

-- Through every series of accepted sockets, reads, writes, failures and ticks, each connection is
-- open exactly while it has a timer, and the list has one timer of it then and none otherwise: no
-- timer outlives its connection, and no open connection is without one. (An accepted socket is one
-- that is not open.)
pub server_run-IsTimed :
    (ops : List ServerOp) (s : Server) → AcceptsNew ops s → AllTimed s → AllTimed (server_run ops s)
unfolding server_run
server_run-IsTimed [] s new v = v
server_run-IsTimed (op ∷ ops) s new v =
    server_run-IsTimed ops (server_step op s) new.1 (server_step-IsTimed op s new.0 v)
