-- ===== src/ConnectionPool/Tests.antt =====
-- Runs of the connection pool, and its theorems at concrete threads.
use mathlib.Core.List.Perm
use cpp_url_shortener.ConnectionPool.{
  succ_int, pred_int, wait_reserve, take_front, take_connection, release_connection, post_reserve,
  may_acquire, destroy_pool, init, new_pool, opened,
}
use cpp_url_shortener.ConnectionPool.Conservation.{
  Lending, LendOp, waits, takes, posts, releases, drop_at, keep_waited, keep_taken, release_held,
  lend_step, lend_run, IsSound, lend_run-IsSound, take_connection-some,
}
use cpp_url_shortener.Common.{ℕ, ◌≡◌, refl, Option, none, some, List, [], ◌∷◌, arith, negsuc}

program : Unit {0}
unfolding succ_int pred_int wait_reserve take_front take_connection release_connection post_reserve
    may_acquire destroy_pool init new_pool opened drop_at keep_waited keep_taken release_held
    lend_step lend_run
program = tt

abbrev opens : List (Option ℕ)
opens = some 11 ∷ some 12 ∷ none ∷ []

start : Lending
unfolding program
start = record { pool = init opens new_pool; held = [] }

start-IsSound : IsSound (11 ∷ 12 ∷ []) start
unfolding program start
start-IsSound = record {
  exact = refl;
  free = refl;
  current = refl;
  total = refl;
  conns = Perm.refl _;
}

abbrev ops : List LendOp
ops = waits ∷ waits ∷ waits ∷ takes ∷ releases 0 ∷ posts ∷ waits ∷ []

-- A connection that comes back to a destroyed pool is counted as -1 in use, and stays open.
late_release :
    (release_connection 11 (destroy_pool (lend_run (waits ∷ takes ∷ []) start).pool)).cur_conn
    ≡ negsuc 0
unfolding program start
late_release = refl

lend_run-IsSound_example : IsSound (11 ∷ 12 ∷ []) (lend_run ops start)
lend_run-IsSound_example = lend_run-IsSound (11 ∷ 12 ∷ []) ops start start-IsSound

granted_two : (lend_run ops start).pool.granted ≡ 2
unfolding program start
granted_two = refl

take_connection-some_example :
    (con : ℕ) × (rest : List ℕ) × ((lend_run ops start).pool.conn_list ≡ con ∷ rest)
    × ((take_connection (lend_run ops start).pool).0 ≡ some con)
take_connection-some_example =
    take_connection-some (11 ∷ 12 ∷ []) ops start start-IsSound (omega (arith, granted_two))
