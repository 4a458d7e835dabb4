-- ===== src/ConnectionPool.antt =====
-- CGImysql/sql_connection_pool.{h,cpp}: `connection_pool`. Each section under the lock is one step, and
-- so is each wait and post of the semaphore. A connection is named by a number; opening and
-- closing it is MySQL's. The login data is left out.
pub mod Conservation
mod Tests
use cpp_url_shortener.Common.{
  ℕ, zero, suc, ◌+◌, ◌-◌, Bool, false, not, Option, none, some, List, [], ◌∷◌, ◌++◌, leb, ◌==◌,
  if◌then◌else◌, length, ℤ, pos, negsuc,
}

abbrev pub default_acquire_timeout_ms : ℕ
default_acquire_timeout_ms = 50

unfoldable pub succ_int : ℤ → ℤ
succ_int (pos n) = pos (n + 1)
succ_int (negsuc zero) = pos 0
succ_int (negsuc (suc n)) = negsuc n

unfoldable pub pred_int : ℤ → ℤ
pred_int (pos zero) = negsuc 0
pred_int (pos (suc n)) = pos n
pred_int (negsuc n) = negsuc (suc n)

-- `granted` is the number of threads between their wait and the section behind it, `posting` the
-- number of posts that threads behind a section still have to make.
pub record ConnectionPool : Type 0 where
  pub max_conn : ℕ
  pub cur_conn : ℤ
  pub free_conn : ℤ
  pub acquire_timeout_ms : ℕ
  pub test_mode : Bool
  pub conn_list : List ℕ
  pub reserve : ℕ
  pub granted : ℕ
  pub posting : ℕ

unfoldable pub new_pool : ConnectionPool
new_pool = record {
  max_conn = 0;
  cur_conn = pos 0;
  free_conn = pos 0;
  acquire_timeout_ms = default_acquire_timeout_ms;
  test_mode = false;
  conn_list = [];
  reserve = 0;
  granted = 0;
  posting = 0;
}

unfoldable pub set_acquire_timeout_ms : ℕ → ConnectionPool → ConnectionPool
set_acquire_timeout_ms timeout_ms p = record p { acquire_timeout_ms = timeout_ms }

-- The loop of `init`: the connections opened before the first failure.
unfoldable pub opened : List (Option ℕ) → List ℕ
opened [] = []
opened (none ∷ rest) = []
opened (some con ∷ rest) = con ∷ opened rest

-- `init`, with what opening each of the `MaxConn` connections gives.
unfoldable pub init : List (Option ℕ) → ConnectionPool → ConnectionPool
init opens p = record p {
  test_mode = false;
  cur_conn = pos 0;
  free_conn = pos (length (opened opens));
  conn_list = opened opens;
  max_conn = length (opened opens);
  reserve = length (opened opens);
}

-- The first section of `GetConnection`: false is an empty or destroyed pool.
unfoldable pub may_acquire : ConnectionPool → Bool
may_acquire p = not (leb p.max_conn 0)

-- The wait: none while there is nothing to wait for, as at the end of the timeout.
unfoldable pub wait_reserve : ConnectionPool → Option ConnectionPool
wait_reserve p =
    if p.reserve == 0
    then none
    else some (record p { reserve = p.reserve - 1; granted = p.granted + 1 })

-- The section behind the wait, on the list of connections.
unfoldable pub take_front : List ℕ → ConnectionPool → Option ℕ × ConnectionPool
take_front [] p = (none, record p { granted = p.granted - 1; posting = p.posting + 1 })
take_front (con ∷ rest) p = (
  some con,
  record p {
    granted = p.granted - 1;
    conn_list = rest;
    free_conn = pred_int p.free_conn;
    cur_conn = succ_int p.cur_conn;
  },
)

unfoldable pub take_connection : ConnectionPool → Option ℕ × ConnectionPool
take_connection p = take_front p.conn_list p

unfoldable pub release_connection : ℕ → ConnectionPool → ConnectionPool
release_connection con p = record p {
  conn_list = p.conn_list ++ con ∷ [];
  free_conn = succ_int p.free_conn;
  cur_conn = pred_int p.cur_conn;
  posting = p.posting + 1;
}

unfoldable pub post_reserve : ConnectionPool → ConnectionPool
post_reserve p =
    if p.posting == 0 then p else record p { posting = p.posting - 1; reserve = p.reserve + 1 }

unfoldable pub destroy_pool : ConnectionPool → ConnectionPool
destroy_pool p = record p {
  cur_conn = pos 0;
  free_conn = pos 0;
  max_conn = 0;
  conn_list = [];
  test_mode = false;
  reserve = 0;
}

unfoldable pub get_free_conn : ConnectionPool → ℤ
get_free_conn p = p.free_conn
