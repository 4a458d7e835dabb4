-- ===== src/HttpConn/Finishing.antt =====
-- When `write` has sent a whole response.
use cpp_url_shortener.HttpConn.Writing.{
  Writev, wrote, interrupted, Written, advance, write, unsent, finish_write, write_loop,
  process_write, fill_buffer,
}
use cpp_url_shortener.HttpConn.Writing
use cpp_url_shortener.HttpConn.Sending.{Tracks, send_step, unsent-none, all_taken, advance-Tracks}
use cpp_url_shortener.HttpConn.State.{HttpConn, epollin}
use cpp_url_shortener.Common.{
  ℕ, ◌+◌, ◌≤◌, ◌<◌, ◌≡◌, refl, sym, ap, ◌∙◌, inl, inr, Bool, true, false, some, List, [], ◌∷◌, ◌++◌,
  append-nil, arith, leb, ◌==◌, Bool-cases, take, All, Bytes,
}

-- The bytes that the results of a call that never blocks take.
unfoldable pub taken_by : List Writev → ℕ
taken_by [] = 0
taken_by (wrote n ∷ rs) = n + taken_by rs
taken_by (r ∷ rs) = taken_by rs

-- Neither a full socket buffer nor an error.
abbrev pub is_open : Writev → Bool
is_open (wrote n) = true
is_open interrupted = true
is_open Writing.would_block = false
is_open Writing.failed = false

-- A call that has sent everything.
pub record Finishes (c : HttpConn) (sent : Bytes) (w : Written) : Type 0 where
  pub all : w.sent ≡ sent ++ unsent c
  pub armed : w.armed ≡ some epollin
  pub result : w.result ≡ c.linger

finish_write-Finishes :
    (n : ℕ) (sent : Bytes) (c : HttpConn)
    → leb (advance n c).bytes_to_send 0 ≡ true
    → Tracks c
    → Finishes c sent (finish_write (sent ++ take n (unsent c)) (advance n c))
unfolding finish_write advance
finish_write-Finishes n sent c all t =
    let whole : sent ++ take n (unsent c) ≡ sent ++ unsent c =
      sym (append-nil _)
      ∙ (sym (ap (◌++◌ _) (unsent-none (advance n c) (all_taken n c all)))
          ∙ send_step n sent c t) in
    elim (Bool-cases c.linger) [
      | inl keep ↦ simp keep (record { all = whole; armed = refl; result = sym keep })
      | inr close ↦ simp close (record { all = whole; armed = refl; result = sym close })
    ]

advance-left :
    (n : ℕ) (c : HttpConn) (m : ℕ) → c.bytes_to_send ≤ n + m → (advance n c).bytes_to_send ≤ m
unfolding advance
advance-left n c m le = omega arith

advance-linger : (n : ℕ) (c : HttpConn) → (advance n c).linger ≡ c.linger
unfolding advance
advance-linger n c = refl

write_loop-Finishes :
    (rs : List Writev) (sent : Bytes) (c : HttpConn)
    → 0 < c.bytes_to_send
    → All (λ r. is_open r ≡ true) rs
    → c.bytes_to_send ≤ taken_by rs
    → Tracks c
    → (w : Written) × (write_loop rs sent c ≡ some w) × Finishes c sent w
unfolding write_loop taken_by
write_loop-Finishes [] sent c left opens enough t = absurd (omega arith)
write_loop-Finishes (interrupted ∷ rs) sent c left opens enough t =
    write_loop-Finishes rs sent c left opens.1 enough t
write_loop-Finishes (Writing.would_block ∷ rs) sent c left opens enough t = absurd (cc)
write_loop-Finishes (Writing.failed ∷ rs) sent c left opens enough t = absurd (cc)
write_loop-Finishes (wrote n ∷ rs) sent c left opens enough t =
    let taken = sent ++ take n (unsent c) in
    elim (Bool-cases (leb (advance n c).bytes_to_send 0)) [
      | inl all ↦
          simp all (finish_write taken (advance n c), refl, finish_write-Finishes n sent c all t)
      | inr more ↦
          let (w, e, f) =
            write_loop-Finishes rs taken (advance n c) (ground arith) opens.1
              (advance-left n c (taken_by rs) enough) (advance-Tracks n c) in
          simp more (
            w,
            e,
            record {
              all = f.all ∙ send_step n sent c t;
              armed = f.armed;
              result = f.result ∙ advance-linger n c;
            },
          )
    ]

-- Where the vector stands at the bytes that the counters say, as `write` leaves it, and
-- `process_write` in a slot of which nothing is counted as sent, and the socket neither blocks nor
-- fails until it has taken as many bytes as are left, `write` returns, every unsent byte is sent in
-- order, a new request is awaited, and the result tells whether the connection is kept alive.
pub write-Finishes :
    (rs : List Writev) (c : HttpConn)
    → c.pending_close ≡ false
    → 0 < c.bytes_to_send
    → All (λ r. is_open r ≡ true) rs
    → c.bytes_to_send ≤ taken_by rs
    → Tracks c
    → (w : Written) × (write rs c ≡ some w) × Finishes c [] w
unfolding write
write-Finishes rs c alive left opens enough t =
    let some_left : (c.bytes_to_send == 0) ≡ false = ground arith in
    simp (alive, some_left) (write_loop-Finishes rs [] c left opens enough t)
