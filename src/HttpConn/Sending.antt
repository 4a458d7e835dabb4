-- ===== src/HttpConn/Sending.antt =====
-- What `write` hands to the socket.
use mathlib.Core.Path.{subst}
use cpp_url_shortener.Response.{HttpResponse, serialize}
use cpp_url_shortener.HttpConn.Writing.{
  Writev, wrote, interrupted, Written, advance, write, unsent, finish_write, write_loop,
  process_write, fill_buffer,
}
use cpp_url_shortener.HttpConn.Writing
use cpp_url_shortener.HttpConn.State.{HttpConn, write_buffer_size, reset, retain_pipelined_bytes}
use cpp_url_shortener.Common.{
  ℕ, ◌≡◌, refl, sym, ap, ◌∙◌, ◌⊎◌, inl, inr, true, false, Option, none, some, List, [], ◌∷◌, ◌++◌,
  append_assoc, arith, leb, ◌==◌, length, take, drop, take-length-append, Bytes, if-cases,
  take_append_drop, drop-drop, drop-take,
}

-- The vector names the bytes that the counters say.
pub record Tracks (c : HttpConn) : Type 0 where
  pub base : c.iov_base ≡ c.bytes_have_send
  pub len : c.iov_len ≡ c.bytes_to_send

-- The same of a slot that may have nothing to send.
pub record IsReady (c : HttpConn) : Type 0 where
  pub len : c.iov_len ≡ c.bytes_to_send
  pub base : c.bytes_to_send ≡ 0 ⊎ (c.iov_base ≡ c.bytes_have_send)

Tracks-IsReady : (c : HttpConn) → Tracks c → IsReady c
Tracks-IsReady c t = record { len = t.len; base = inr t.base }

pub advance-Tracks : (n : ℕ) (c : HttpConn) → Tracks (advance n c)
unfolding advance
advance-Tracks n c = record { base = refl; len = refl }

pub unsent-advance : (n : ℕ) (c : HttpConn) → Tracks c → unsent (advance n c) ≡ drop n (unsent c)
unfolding unsent advance
unsent-advance n c t =
    rw
      (
        t.base,
        t.len,
        drop-take n c.bytes_to_send (drop c.bytes_have_send c.write_buf),
        drop-drop n c.bytes_have_send c.write_buf,
      )
      refl

pub send_step :
    (n : ℕ) (sent : Bytes) (c : HttpConn)
    → Tracks c
    → (sent ++ take n (unsent c)) ++ unsent (advance n c) ≡ sent ++ unsent c
send_step n sent c t = rw (unsent-advance n c t) (
    append_assoc sent (take n (unsent c)) (drop n (unsent c))
    ∙ ap (◌++◌ sent) (take_append_drop n (unsent c)))

pub unsent-none : (c : HttpConn) → c.iov_len ≡ 0 → unsent c ≡ []
unfolding unsent
unsent-none c e = ap (λ (k : ℕ). take k (drop c.iov_base c.write_buf)) e

-- What was sent before and during a call, and what is left behind it.
Conserves : Bytes → Option Written → Type 0
Conserves whole none = Unit {0}
Conserves whole (some w) = (w.sent ++ unsent w.conn ≡ whole) × IsReady w.conn

retain-unsent : (c : HttpConn) → c.iov_len ≡ 0 → unsent (retain_pipelined_bytes c) ≡ []
unfolding retain_pipelined_bytes reset
retain-unsent c e = unsent-none (retain_pipelined_bytes c) e

retain-IsReady : (c : HttpConn) → c.iov_len ≡ 0 → IsReady (retain_pipelined_bytes c)
unfolding retain_pipelined_bytes reset
retain-IsReady c e = record { len = e; base = inl refl }

finish_write-Conserves :
    (sent : Bytes) (c : HttpConn)
    → c.iov_len ≡ 0
    → Tracks c
    → Conserves (sent ++ []) (some (finish_write sent c))
unfolding finish_write Conserves
finish_write-Conserves sent c e t =
    if-cases (λ (w : Written). (w.sent ++ unsent w.conn ≡ sent ++ []) × IsReady w.conn) c.linger _ _
      (λ keep. (ap (◌++◌ sent) (retain-unsent c e), retain-IsReady c e))
      (λ close. (ap (◌++◌ sent) (unsent-none c e), Tracks-IsReady c t))

pub all_taken :
    (n : ℕ) (c : HttpConn) → leb (advance n c).bytes_to_send 0 ≡ true → (advance n c).iov_len ≡ 0
unfolding advance
all_taken n c all = ground arith

write_loop-Conserves :
    (rs : List Writev) (sent : Bytes) (c : HttpConn)
    → Tracks c
    → Conserves (sent ++ unsent c) (write_loop rs sent c)
unfolding write_loop Conserves
write_loop-Conserves [] sent c t = tt
write_loop-Conserves (interrupted ∷ rs) sent c t = write_loop-Conserves rs sent c t
write_loop-Conserves (Writing.would_block ∷ rs) sent c t = (refl, Tracks-IsReady c t)
write_loop-Conserves (Writing.failed ∷ rs) sent c t = (refl, Tracks-IsReady c t)
write_loop-Conserves (wrote n ∷ rs) sent c t =
    let taken = sent ++ take n (unsent c) in
    let step = send_step n sent c t in
    let t' = advance-Tracks n c in
    subst (λ (whole : Bytes). Conserves whole (write_loop (wrote n ∷ rs) sent c)) step
      (if-cases (Conserves (taken ++ unsent (advance n c))) (leb (advance n c).bytes_to_send 0) _ _
        (λ all.
          let e = all_taken n c all in
          subst (λ (l : Bytes). Conserves (taken ++ l) (some (finish_write taken (advance n c))))
            (sym (unsent-none (advance n c) e)) (finish_write-Conserves taken (advance n c) e t'))
        (λ more. write_loop-Conserves rs taken (advance n c) t'))

write-Conserves : (rs : List Writev) (c : HttpConn) → IsReady c → Conserves (unsent c) (write rs c)
unfolding write Conserves
write-Conserves rs c v =
    if-cases (Conserves (unsent c)) c.pending_close _ _
      (λ closing. (unfold unsent in refl, record { len = v.len; base = v.base }))
      (λ alive.
        if-cases (Conserves (unsent c)) (c.bytes_to_send == 0) _ _
          (λ nothing.
            let len = v.len in
            let e : c.iov_len ≡ 0 = ground arith in
            (retain-unsent c e ∙ sym (unsent-none c e), retain-IsReady c e))
          (λ some_left. write_loop-Conserves rs [] c (tracks v.base v.len some_left)))
  where
    tracks :
        c.bytes_to_send ≡ 0 ⊎ (c.iov_base ≡ c.bytes_have_send)
        → c.iov_len ≡ c.bytes_to_send
        → (c.bytes_to_send == 0) ≡ false
        → Tracks c
    tracks (inl none_left) len some_left = absurd (ground arith)
    tracks (inr base) len some_left = record { base = base; len = len }

-- Calls of `write` one behind the other, with the bytes that the socket takes in them; none where
-- one of them has not returned.
unfoldable pub write_calls : List (List Writev) → HttpConn → Option (Bytes × HttpConn)
write_calls [] c = some ([], c)
write_calls (rs ∷ calls) c = elim (write rs c) [
  | none ↦ none
  | some w ↦ elim (write_calls calls w.conn) [
    | none ↦ none
    | some (sent, after) ↦ some (w.sent ++ sent, after)
  ]
]

Delivers : Bytes → Option (Bytes × HttpConn) → Type 0
Delivers whole none = Unit {0}
Delivers whole (some (sent, after)) = sent ++ unsent after ≡ whole

Delivers-behind :
    (first rest whole : Bytes) (o : Option (Bytes × HttpConn))
    → Delivers rest o
    → first ++ rest ≡ whole
    → Delivers whole (elim o [ none ↦ none | some (sent, after) ↦ some (first ++ sent, after) ])
unfolding Delivers
Delivers-behind first rest whole none d e = tt
Delivers-behind first rest whole (some (sent, after)) d e =
    append_assoc first sent (unsent after) ∙ (ap (◌++◌ first) d ∙ e)

write_calls-Delivers :
    (calls : List (List Writev)) (c : HttpConn)
    → IsReady c
    → Delivers (unsent c) (write_calls calls c)
unfolding write_calls Conserves
write_calls-Delivers [] c v = unfold Delivers in refl
write_calls-Delivers (rs ∷ calls) c v =
    behind (write_calls-Delivers calls) (write rs c) (write-Conserves rs c v)
  where
    behind :
        ((d : HttpConn) → IsReady d → Delivers (unsent d) (write_calls calls d))
        → (o : Option Written) → Conserves (unsent c) o
        → Delivers (unsent c) (elim o [
          | none ↦ none
          | some w ↦ elim (write_calls calls w.conn) [
            | none ↦ none
            | some (sent, after) ↦ some (w.sent ++ sent, after)
          ]
        ])
    behind rest none u = unfold Delivers in tt
    behind rest (some w) (e, ready) =
        Delivers-behind w.sent (unsent w.conn) (unsent c) (write_calls calls w.conn)
          (rest w.conn ready) e

pub fill_buffer-unsent : (raw : Bytes) (c : HttpConn) → unsent (fill_buffer raw c) ≡ raw
unfolding unsent fill_buffer
fill_buffer-unsent raw c = take-length-append raw (drop (length raw) c.write_buf)

fill_buffer-IsReady :
    (raw : Bytes) (c : HttpConn) → c.bytes_have_send ≡ 0 → IsReady (fill_buffer raw c)
unfolding fill_buffer
fill_buffer-IsReady raw c fresh = record { len = refl; base = inr (sym fresh) }

process_write-IsReady :
    (resp : HttpResponse) (c d : HttpConn)
    → c.bytes_have_send ≡ 0
    → process_write resp c ≡ some d
    → IsReady d × (unsent d ≡ serialize resp)
unfolding process_write
process_write-IsReady resp c d fresh e =
    if-cases (λ (o : Option HttpConn). o ≡ some d → IsReady d × (unsent d ≡ serialize resp))
      (leb write_buffer_size (length (serialize resp))) none (some (fill_buffer (serialize resp) c))
      (λ large e'. absurd (cc))
      (λ fits e'.
        subst (λ (x : HttpConn). IsReady x × (unsent x ≡ serialize resp))
          (ap (λ (o : Option HttpConn). elim o [ none ↦ c | some x ↦ x ]) e')
          (fill_buffer-IsReady (serialize resp) c fresh, fill_buffer-unsent (serialize resp) c))
      e

-- After `process_write` has taken a response, in a slot of which nothing is counted as sent,
-- every series of calls of `write` that return, with every kind of result, hands the socket the
-- response's serialized bytes in order: those that it has taken, followed by those that the slot
-- still offers, are the whole response.
pub write_calls-process_write :
    (calls : List (List Writev)) (resp : HttpResponse) (c d after : HttpConn) (sent : Bytes)
    → c.bytes_have_send ≡ 0
    → process_write resp c ≡ some d
    → write_calls calls d ≡ some (sent, after)
    → sent ++ unsent after ≡ serialize resp
unfolding Delivers
write_calls-process_write calls resp c d after sent fresh filled e =
    let (ready, whole) = process_write-IsReady resp c d fresh filled in
    subst (Delivers (unsent d)) e (write_calls-Delivers calls d ready) ∙ whole
