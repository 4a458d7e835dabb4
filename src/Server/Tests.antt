-- ===== src/Server/Tests.antt =====
-- Runs of the event loop, and its theorems at concrete connections.
use cpp_url_shortener.HttpConn.State.{new_conn, init, invalidate, reset, has_pipelined_input}
use cpp_url_shortener.HttpConn.Reading.{received, read_once, read_edge, read_level, append_received}
use cpp_url_shortener.HttpConn.Writing
use cpp_url_shortener.HttpConn.Writing.{Writev, wrote, Written, write, write_loop, advance, unsent}
use cpp_url_shortener.ThreadPool.{ThreadPool, append_p}
use cpp_url_shortener.TimerList
use cpp_url_shortener.TimerList.{
  Timer, add_timer, add_behind, move_timer, set_expire, start_timer, refresh_timer, del_timer, tick,
}
use cpp_url_shortener.Server.{
  Client, Server, set_client, close_at, close_client, cb_func, timer, adjust_timer, forget_timer,
  deal_timer, set_conn, after_append, hand_over, after_read, dealwithread, after_written,
  after_write, dealwithwrite, call_back, timer_handler,
}
use cpp_url_shortener.Server.Counts.{count, one_of}
use cpp_url_shortener.Server.Clients.{IsTimed}
use cpp_url_shortener.Server.Timers.{
  ServerOp, accepts, reads, fails, ticks, server_step, server_run, AllTimed, server_run-IsTimed,
}
use cpp_url_shortener.Server.Pipelined.{IsShared, dealwithwrite-IsShared}
use cpp_url_shortener.Common.{◌≡◌, refl, false, none, some, List, [], ◌∷◌, arith, codes}

program : Unit {0}
unfolding init invalidate reset has_pipelined_input read_once read_edge read_level append_received
    write write_loop advance unsent append_p add_timer add_behind move_timer set_expire start_timer
    refresh_timer del_timer tick TimerList.adjust_timer set_client close_at close_client cb_func
    timer adjust_timer forget_timer deal_timer set_conn after_append hand_over after_read
    dealwithread after_written after_write dealwithwrite call_back timer_handler count one_of
    server_step server_run
program = tt

abbrev unused : Client
unused = record { conn = new_conn; sockfd = none; has_timer = false }

abbrev pool : ThreadPool
pool = record {
  thread_number = 2;
  max_requests = 2;
  workqueue = [];
  queuestat = 0;
  posting = 0;
  woken = 0;
  stopped = false;
  joined = false;
}

abbrev server : Server
server = record { clients = λ fd. unused; timers = []; pool = pool; timeslot = 5; trig_mode = 1 }

abbrev ops : List ServerOp
ops =
    accepts 7 10 ∷ reads 7 (received (codes "GET") ∷ []) 11 ∷ accepts 8 12 ∷ fails 7 ∷ ticks 13 ∷ []

left_open : (server_run ops server).timers ≡ record { expire = 27; sockfd = 8 } ∷ []
unfolding program
left_open = refl

server-AllTimed : AllTimed server
unfolding IsTimed count one_of
server-AllTimed j = record { timers = omega arith; open_socket = refl }

server_run-IsTimed_example : AllTimed (server_run ops server)
unfolding program
server_run-IsTimed_example =
    server_run-IsTimed ops server (refl, (tt, (refl, (tt, (tt, tt))))) server-AllTimed

abbrev answering : Client
answering = record {
  conn = record new_conn {
    read_buf = codes "..GET";
    checked_idx = 2;
    write_buf = codes "HTTP";
    iov_len = 4;
    bytes_to_send = 4;
  };
  sockfd = some 7;
  has_timer = false;
}

abbrev busy : Server
busy = record server { clients = λ fd. answering }

dealwithwrite-IsShared_example :
    IsShared 7 [] 0 (codes "TTP") (dealwithwrite 7 (wrote 1 ∷ Writing.would_block ∷ []) 9 busy)
unfolding has_pipelined_input unsent
dealwithwrite-IsShared_example =
    dealwithwrite-IsShared 7 1 9 [] busy refl (omega arith) (record { base = refl; len = refl })
      refl refl (omega arith)
