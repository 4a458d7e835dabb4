-- ===== src/Server/Clients.antt =====
-- The timer of one connection, and what closing does to it.
use mathlib.Core.Path.{subst}
use cpp_url_shortener.HttpConn.State.{HttpConn}
use cpp_url_shortener.TimerList.{Timer, del_timer}
use cpp_url_shortener.Server.{
  Client, Server, set_client, close_at, close_client, cb_func, adjust_timer, forget_timer,
  deal_timer, set_conn,
}
use cpp_url_shortener.Server.Pipelined.{own_client}
use cpp_url_shortener.Server.Counts.{
  one_of, count, count-refresh_timer, count-del_timer_ne, count-del_timer_self,
}
use cpp_url_shortener.Common.{
  ℕ, ◌+◌, ◌≡◌, refl, sym, ap, ◌∙◌, ◌≢◌, Bool, true, false, Option, none, some, List, [], arith,
  ◌==◌, if-cases,
}

abbrev pub is_some : Option ℕ → Bool
is_some none = false
is_some (some fd) = true

-- A client with `n` timers: open exactly while it has one.
pub record Timed (n : ℕ) (client : Client) : Type 0 where
  pub timers : n ≡ one_of client.has_timer
  pub open_socket : client.has_timer ≡ is_some client.sockfd

-- The timers that are `due` count with those of the list.
unfoldable pub IsTimed : List Timer → Server → ℕ → Type 0
IsTimed due s j = Timed (count j due + count j s.timers) (s.clients j)

pub set_client-Timed :
    (n fd : ℕ) (client : Client) (s : Server) (j : ℕ)
    → (j ≡ fd → Timed n client)
    → (j ≢ fd → Timed n (s.clients j))
    → Timed n ((set_client fd client s).clients j)
unfolding set_client
set_client-Timed n fd client s j own other =
    if-cases (Timed n) (j == fd) _ _ (λ e. own (ground arith)) (λ e. other (ground arith))

close_at-closed :
    (o : Option ℕ) (client : Client)
    → client.sockfd ≡ o
    → client.has_timer ≡ is_some o
    → ((close_at o client).has_timer ≡ false) × ((close_at o client).sockfd ≡ none)
unfolding close_at
close_at-closed none client e h = (h, e)
close_at-closed (some fd) client e h = (refl, refl)

pub close_client-closed :
    (client : Client)
    → client.has_timer ≡ is_some client.sockfd
    → ((close_client client).has_timer ≡ false) × ((close_client client).sockfd ≡ none)
unfolding close_client
close_client-closed client h = close_at-closed client.sockfd client refl h

pub closed-Timed :
    (n : ℕ) (client : Client)
    → n ≡ 0
    → (client.has_timer ≡ false) × (client.sockfd ≡ none)
    → Timed n client
unfolding one_of
closed-Timed n client z c = record {
  timers = z ∙ sym (ap one_of c.0);
  open_socket = c.0 ∙ sym (ap is_some c.1);
}

module _ (due : List Timer) where
  pub set_conn-IsTimed :
      (fd : ℕ) (conn : HttpConn) (s : Server) (j : ℕ)
      → IsTimed due s j
      → IsTimed due (set_conn fd conn s) j
  unfolding set_conn IsTimed set_client
  set_conn-IsTimed fd conn s j v =
      set_client-Timed (count j due + count j s.timers) fd (record (s.clients fd) { conn = conn }) s
        j
        (λ e.
          let w = subst (λ (i : ℕ). Timed (count j due + count j s.timers) (s.clients i)) e v in
          record { timers = w.timers; open_socket = w.open_socket })
        (λ ne. v)

  pub adjust_timer-IsTimed :
      (fd cur : ℕ) (s : Server) (j : ℕ) → IsTimed due s j → IsTimed due (adjust_timer fd cur s) j
  unfolding adjust_timer IsTimed
  adjust_timer-IsTimed fd cur s j v =
      if-cases (λ (r : Server). IsTimed due r j) (s.clients fd).has_timer _ _
        (λ has. record {
          timers =
              ap (λ (n : ℕ). count j due + n) (count-refresh_timer j s.timeslot fd cur s.timers)
              ∙ v.timers;
          open_socket = v.open_socket;
        })
        (λ none_there. v)

-- A closed client forgets its timer.
forget_timer-IsTimed :
    (fd : ℕ) (s : Server) (j : ℕ)
    → (s.clients fd).sockfd ≡ none
    → count fd s.timers ≡ 0
    → (j ≢ fd → IsTimed [] s j)
    → IsTimed [] (forget_timer fd s) j
unfolding forget_timer IsTimed set_client count
forget_timer-IsTimed fd s j closed zero_left others =
    set_client-Timed (0 + count j s.timers) fd (record (s.clients fd) { has_timer = false }) s j
      (λ e.
        let z : 0 + count j s.timers ≡ 0 =
          (let q = ap (λ (i : ℕ). count i s.timers) e in omega arith) in
        closed-Timed (0 + count j s.timers) (record (s.clients fd) { has_timer = false }) z
          (refl, closed))
      others

-- The others are not touched when a client is closed.
other_client :
    (fd j : ℕ) (client : Client) (s : Server)
    → j ≢ fd
    → (set_client fd client s).clients j ≡ s.clients j
unfolding set_client
other_client fd j client s ne = let other : (j == fd) ≡ false = ground arith in rw other refl

cb_func-sockfd : (fd : ℕ) (s : Server) → IsTimed [] s fd → ((cb_func fd s).clients fd).sockfd ≡ none
unfolding cb_func IsTimed
cb_func-sockfd fd s v =
    ap (λ (c : Client). c.sockfd) (own_client fd (close_client (s.clients fd)) s)
    ∙ (close_client-closed (s.clients fd) v.open_socket).1

pub has_one :
    (fd : ℕ) (s : Server) (b : Bool)
    → IsTimed [] s fd
    → (s.clients fd).has_timer ≡ b
    → count fd s.timers ≡ one_of b
unfolding IsTimed count
has_one fd s b v e =
    (let z : count fd s.timers ≡ 0 + count fd s.timers = omega arith in z)
    ∙ (v.timers ∙ ap one_of e)

others-Timed :
    (fd n m : ℕ) (client : Client) (s : Server) (j : ℕ)
    → j ≢ fd
    → m ≡ n
    → Timed n (s.clients j)
    → Timed m ((set_client fd client s).clients j)
others-Timed fd n m client s j ne e v =
    subst (Timed m) (sym (other_client fd j client s ne))
      (record { timers = e ∙ v.timers; open_socket = v.open_socket })

pub deal_timer-IsTimed :
    (fd : ℕ) (s : Server) (j : ℕ) → ((i : ℕ) → IsTimed [] s i) → IsTimed [] (deal_timer fd s) j
unfolding deal_timer set_client
deal_timer-IsTimed fd s j v =
    if-cases (λ (r : Server). IsTimed [] (forget_timer fd r) j) (s.clients fd).has_timer _ _
      (λ has.
        forget_timer-IsTimed fd (record (cb_func fd s) { timers = del_timer fd s.timers }) j
          (cb_func-sockfd fd s (v fd))
          (let one : count fd s.timers ≡ 1 = unfold one_of in has_one fd s true (v fd) has in
            omega (arith, count-del_timer_self fd s.timers))
          (λ ne.
            unfold cb_func IsTimed count in
            others-Timed fd (0 + count j s.timers) (0 + count j (del_timer fd s.timers))
              (close_client (s.clients fd)) s j ne
              (ap (λ (n : ℕ). 0 + n) (count-del_timer_ne j fd s.timers (λ e. ne (sym e)))) (v j)))
      (λ gone.
        forget_timer-IsTimed fd (cb_func fd s) j (cb_func-sockfd fd s (v fd))
          (unfold cb_func set_client one_of in has_one fd s false (v fd) gone)
          (λ ne.
            unfold cb_func IsTimed count in
            others-Timed fd (0 + count j s.timers) (0 + count j s.timers)
              (close_client (s.clients fd)) s j ne refl (v j)))
