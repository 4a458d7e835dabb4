-- ===== src/Server.antt =====
-- webserver.cpp: what the event loop does to one connection, with the callback of timer/lst_timer.cpp.
-- The slots, the timers and the worker pool are those of the other modules. The results of recv
-- and writev and the clock are arguments; the calls of epoll and close and the count of users are
-- left out.
pub mod Pipelined
pub mod Counts
pub mod Clients
pub mod Timers
mod Tests
use cpp_url_shortener.HttpConn.State.{HttpConn, init, invalidate, has_pipelined_input}
use cpp_url_shortener.HttpConn.Reading.{Recv, read_once}
use cpp_url_shortener.HttpConn.Writing.{Writev, Written, write}
use cpp_url_shortener.ThreadPool.{ThreadPool, append_p}
use cpp_url_shortener.TimerList.{Timer, start_timer, refresh_timer, del_timer, tick}
use cpp_url_shortener.Common.{
  ℕ, Bool, true, false, Option, none, some, List, [], ◌∷◌, ◌==◌, if◌then◌else◌,
}

-- `users[fd]` and `users_timer[fd]`; a socket that is -1 is none.
pub record Client : Type 0 where
  pub conn : HttpConn
  pub sockfd : Option ℕ
  pub has_timer : Bool

pub record Server : Type 0 where
  pub clients : ℕ → Client
  pub timers : List Timer
  pub pool : ThreadPool
  pub timeslot : ℕ
  pub trig_mode : ℕ

unfoldable pub set_client : ℕ → Client → Server → Server
set_client fd client s = record s { clients = λ j. if j == fd then client else s.clients j }

-- `cb_func`, on the client's socket.
unfoldable pub close_at : Option ℕ → Client → Client
close_at none client = client
close_at (some fd) client = record {
  conn = invalidate client.conn;
  sockfd = none;
  has_timer = false;
}

unfoldable pub close_client : Client → Client
close_client client = close_at client.sockfd client

unfoldable pub cb_func : ℕ → Server → Server
cb_func fd s = set_client fd (close_client (s.clients fd)) s

-- `WebServer::timer`
unfoldable pub timer : ℕ → ℕ → Server → Server
timer connfd cur s =
    set_client connfd
      (record {
        conn = init connfd s.trig_mode (s.clients connfd).conn;
        sockfd = some connfd;
        has_timer = true;
      })
      (record s { timers = start_timer s.timeslot connfd cur s.timers })

-- `WebServer::adjust_timer`, where there is a timer.
unfoldable pub adjust_timer : ℕ → ℕ → Server → Server
adjust_timer fd cur s =
    if (s.clients fd).has_timer
    then record s { timers = refresh_timer s.timeslot fd cur s.timers }
    else s

unfoldable pub forget_timer : ℕ → Server → Server
forget_timer fd s = set_client fd (record (s.clients fd) { has_timer = false }) s

unfoldable pub deal_timer : ℕ → Server → Server
deal_timer fd s = forget_timer fd (
    if (s.clients fd).has_timer
    then record (cb_func fd s) { timers = del_timer fd s.timers }
    else cb_func fd s)

unfoldable pub set_conn : ℕ → HttpConn → Server → Server
set_conn fd conn s = set_client fd (record (s.clients fd) { conn = conn }) s

-- The task is taken, or the client is sent the text of `reject_overload`, which is left out, and
-- closed.
unfoldable pub after_append : ℕ → ℕ → Server → Bool × ThreadPool → Server
after_append fd cur s (true, pool) = adjust_timer fd cur (record s { pool = pool })
after_append fd cur s (false, pool) = deal_timer fd s

unfoldable pub hand_over : ℕ → ℕ → Server → Server
hand_over fd cur s =
    after_append fd cur s
      (append_p (record { request = some fd; generation = (s.clients fd).conn.generation }) s.pool)

unfoldable pub after_read : ℕ → ℕ → Server → Option (Bool × HttpConn) → Server
after_read fd cur s none = s
after_read fd cur s (some (true, conn)) = hand_over fd cur (set_conn fd conn s)
after_read fd cur s (some (false, conn)) = deal_timer fd (set_conn fd conn s)

unfoldable pub dealwithread : ℕ → List Recv → ℕ → Server → Server
dealwithread fd rs cur s = after_read fd cur s (read_once rs (s.clients fd).conn)

unfoldable pub after_written : Bool → ℕ → ℕ → Server → Server
after_written true fd cur s =
    if has_pipelined_input (s.clients fd).conn then hand_over fd cur s else adjust_timer fd cur s
after_written false fd cur s = deal_timer fd s

unfoldable pub after_write : ℕ → ℕ → Server → Option Written → Server
after_write fd cur s none = s
after_write fd cur s (some w) = after_written w.result fd cur (set_conn fd w.conn s)

unfoldable pub dealwithwrite : ℕ → List Writev → ℕ → Server → Server
dealwithwrite fd rs cur s = after_write fd cur s (write rs (s.clients fd).conn)

-- The callbacks of a tick, in their order.
unfoldable pub call_back : List Timer → Server → Server
call_back [] s = s
call_back (t ∷ fired) s = call_back fired (cb_func t.sockfd s)

-- `Utils::timer_handler` without its `alarm`.
unfoldable pub timer_handler : ℕ → Server → Server
timer_handler cur s =
    let (fired, left) = tick cur s.timers in call_back fired (record s { timers = left })
