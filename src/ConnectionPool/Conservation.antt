-- ===== src/ConnectionPool/Conservation.antt =====
-- Connections that are lent come back, and none is lent twice.
use mathlib.Core.Path.{subst}
use mathlib.Core.List.{Perm, perm_middle}
use mathlib.Core.List.Perm
use cpp_url_shortener.ConnectionPool.{
  ConnectionPool, succ_int, pred_int, wait_reserve, take_front, take_connection, release_connection,
  post_reserve,
}
use cpp_url_shortener.Common.{
  ℕ, zero, suc, ◌+◌, ◌<◌, ◌≡◌, refl, sym, ap, ◌∙◌, Option, none, some, List, [], ◌∷◌, ◌++◌,
  append_assoc, arith, ◌==◌, if◌then◌else◌, length, get_elem?, length-append, pos, if-cases,
}

-- The pool, and the connections that threads hold.
pub record Lending : Type 0 where
  pub pool : ConnectionPool
  pub held : List ℕ

-- The steps of threads that acquire and of threads that hold a connection; the place of a released
-- one in the list of those held.
pub data LendOp : Type 0 where
  waits takes posts : LendOp
  releases : ℕ → LendOp

unfoldable pub drop_at : ℕ → List ℕ → List ℕ
drop_at i [] = []
drop_at zero (c ∷ held) = held
drop_at (suc i) (c ∷ held) = c ∷ drop_at i held

unfoldable pub keep_waited : Lending → Option ConnectionPool → Lending
keep_waited l none = l
keep_waited l (some p) = record l { pool = p }

unfoldable pub keep_taken : Lending → Option ℕ × ConnectionPool → Lending
keep_taken l (none, p) = record l { pool = p }
keep_taken l (some con, p) = record { pool = p; held = con ∷ l.held }

unfoldable pub release_held : ℕ → Lending → Option ℕ → Lending
release_held i l none = l
release_held i l (some con) = record {
  pool = release_connection con l.pool;
  held = drop_at i l.held;
}

-- A section is entered by a thread that was granted it.
unfoldable pub lend_step : LendOp → Lending → Lending
lend_step waits l = keep_waited l (wait_reserve l.pool)
lend_step takes l = if l.pool.granted == 0 then l else keep_taken l (take_connection l.pool)
lend_step posts l = record l { pool = post_reserve l.pool }
lend_step (releases i) l = release_held i l (get_elem? l.held i)

unfoldable pub lend_run : List LendOp → Lending → Lending
lend_run [] l = l
lend_run (op ∷ ops) l = lend_run ops (lend_step op l)

-- The counters are those of the two lists, the semaphore counts the free connections, and the
-- connections are those of the pool's start.
pub record IsSound (all : List ℕ) (l : Lending) : Type 0 where
  pub exact : l.pool.reserve + l.pool.granted + l.pool.posting ≡ length l.pool.conn_list
  pub free : l.pool.free_conn ≡ pos (length l.pool.conn_list)
  pub current : l.pool.cur_conn ≡ pos (length l.held)
  pub total : length l.pool.conn_list + length l.held ≡ l.pool.max_conn
  pub conns : Perm (l.pool.conn_list ++ l.held) all

drop_at-Perm :
    (held : List ℕ) (i c : ℕ) → get_elem? held i ≡ some c → Perm held (c ∷ drop_at i held)
unfolding drop_at
drop_at-Perm [] i c e = absurd (cc)
drop_at-Perm (d ∷ held) zero c e =
    let same : d ≡ c = cc in
    subst (λ (x : ℕ). Perm (d ∷ held) (x ∷ held)) same (Perm.refl (d ∷ held))
drop_at-Perm (d ∷ held) (suc i) c e =
    Perm.trans (Perm.cons d (drop_at-Perm held i c e)) (Perm.swap c d (drop_at i held))

length-drop_at :
    (held : List ℕ) (i c : ℕ)
    → get_elem? held i ≡ some c
    → length held ≡ suc (length (drop_at i held))
unfolding drop_at
length-drop_at [] i c e = absurd (cc)
length-drop_at (d ∷ held) zero c e = refl
length-drop_at (d ∷ held) (suc i) c e = ap suc (length-drop_at held i c e)

found :
    (p : ConnectionPool) (q : List ℕ)
    → p.conn_list ≡ q
    → 0 < length p.conn_list
    → (con : ℕ) × (rest : List ℕ) × (p.conn_list ≡ con ∷ rest) × ((take_connection p).0 ≡ some con)
unfolding take_connection take_front
found p [] e some_left = absurd (let z = ap length e in omega arith)
found p (con ∷ rest) e some_left = (con, rest, e, ap (λ (q : List ℕ). (take_front q p).0) e)

module _ (all : List ℕ) where
  waits-IsSound : (l : Lending) → IsSound all l → IsSound all (lend_step waits l)
  unfolding lend_step wait_reserve keep_waited
  waits-IsSound l v =
      if-cases (λ (o : Option ConnectionPool). IsSound all (keep_waited l o)) (l.pool.reserve == 0)
        _ _ (λ nothing. v)
        (λ some_slot. record {
          exact = (let e = v.exact in ground arith);
          free = v.free;
          current = v.current;
          total = v.total;
          conns = v.conns;
        })

  posts-IsSound : (l : Lending) → IsSound all l → IsSound all (lend_step posts l)
  unfolding lend_step post_reserve
  posts-IsSound l v =
      if-cases (λ (p : ConnectionPool). IsSound all (record l { pool = p })) (l.pool.posting == 0) _
        _ (λ nothing. v)
        (λ some_post. record {
          exact = (let e = v.exact in ground arith);
          free = v.free;
          current = v.current;
          total = v.total;
          conns = v.conns;
        })

  take_front-IsSound :
      (q : List ℕ) (l : Lending)
      → l.pool.conn_list ≡ q
      → 0 < l.pool.granted
      → IsSound all l
      → IsSound all (keep_taken l (take_front q l.pool))
  unfolding take_front keep_taken pred_int succ_int
  take_front-IsSound [] l e g v = absurd (let x = v.exact in let z = ap length e in omega arith)
  take_front-IsSound (con ∷ rest) l e g v =
      let z = ap length e in
      let x = v.exact in
      let t = v.total in
      record {
        exact = omega arith;
        free = ap pred_int (v.free ∙ ap pos z);
        current =
            ap succ_int v.current
            ∙ ap pos (let up : length l.held + 1 ≡ suc (length l.held) = omega arith in up);
        total = omega arith;
        conns =
            Perm.trans (perm_middle rest l.held)
              (subst (λ (q : List ℕ). Perm (q ++ l.held) all) e v.conns);
      }

  release_held-IsSound :
      (i : ℕ) (l : Lending) (o : Option ℕ)
      → get_elem? l.held i ≡ o
      → IsSound all l
      → IsSound all (release_held i l o)
  unfolding release_held release_connection succ_int pred_int
  release_held-IsSound i l none e v = v
  release_held-IsSound i l (some con) e v =
      let shorter = length-drop_at l.held i con e in
      let grown = length-append l.pool.conn_list (con ∷ []) in
      let x = v.exact in
      let t = v.total in
      let up : length l.pool.conn_list + 1 ≡ length (l.pool.conn_list ++ con ∷ []) = omega arith in
      record {
        exact = omega arith;
        free = ap succ_int v.free ∙ ap pos up;
        current = ap pred_int (v.current ∙ ap pos shorter);
        total = omega arith;
        conns =
            subst (λ (q : List ℕ). Perm q all)
              (sym (append_assoc l.pool.conn_list (con ∷ []) (drop_at i l.held)))
              (Perm.trans
                (Perm.append (Perm.refl l.pool.conn_list) (Perm.symm (drop_at-Perm l.held i con e)))
                v.conns);
      }

  lend_step-IsSound : (op : LendOp) (l : Lending) → IsSound all l → IsSound all (lend_step op l)
  lend_step-IsSound waits l v = waits-IsSound l v
  lend_step-IsSound takes l v =
      unfold lend_step take_connection in
      if-cases (IsSound all) (l.pool.granted == 0) _ _ (λ nobody. v)
        (λ granted. take_front-IsSound l.pool.conn_list l refl (ground arith) v)
  lend_step-IsSound posts l v = posts-IsSound l v
  lend_step-IsSound (releases i) l v =
      unfold lend_step in release_held-IsSound i l (get_elem? l.held i) refl v

  -- While the pool is neither opened nor destroyed, through every interleaving of the waits, sections
  -- and posts of threads that acquire and release, the counters agree with the connections that
  -- are free and lent, the semaphore with its slots on the way counts the free ones, and free and
  -- lent ones together are the connections of the start, each once.
  pub lend_run-IsSound :
      (ops : List LendOp) (l : Lending) → IsSound all l → IsSound all (lend_run ops l)
  unfolding lend_run
  lend_run-IsSound [] l v = v
  lend_run-IsSound (op ∷ ops) l v = lend_run-IsSound ops (lend_step op l) (lend_step-IsSound op l v)

  -- Then a thread that the semaphore has let through finds a connection: the check for an empty list
  -- never fires.
  pub take_connection-some :
      (ops : List LendOp) (l : Lending)
      → IsSound all l
      → 0 < (lend_run ops l).pool.granted
      → (con : ℕ) × (rest : List ℕ) × ((lend_run ops l).pool.conn_list ≡ con ∷ rest)
        × ((take_connection (lend_run ops l).pool).0 ≡ some con)
  take_connection-some ops l v granted =
      found (lend_run ops l).pool (lend_run ops l).pool.conn_list refl
        (let e = (lend_run-IsSound ops l v).exact in omega arith)
