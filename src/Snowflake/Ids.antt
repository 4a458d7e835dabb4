-- ===== src/Snowflake/Ids.antt =====
-- What the ids of `next_id` promise: their layout, that they grow, and that workers never collide.
use mathlib.Core.Path.{subst}
use mathlib.Core.Path.{ap₂, ◌≡⟨◌⟩◌, ◌∎}
use cpp_url_shortener.Common.{
  ℕ, ◌+◌, ◌*◌, ◌%◌, ◌^◌, ◌≤◌, ◌<◌, bit_or, ◌≡◌, refl, sym, ap, ◌∙◌, ◌≢◌, inl, inr, Option, none,
  some, List, [], ◌∷◌, arith, ltb, leb, ◌==◌, Bool-cases, ◌<<◌, bit_or_shifted, bit_and_low, ℤ, pos,
  negsuc,
}
use cpp_url_shortener.Snowflake.{
  epoch_seconds, Generator, max_sequence, max_worker_id, max_timestamp_delta, set_worker_id,
  current_seconds, wait_next_second, Outcome, issued, overflow, waiting, compose_id, clamp_second,
  finish, after_wait, next_id, issue,
}

pub record IsValid (g : Generator) : Type 0 where
  pub in_second : g.sequence ≤ max_sequence
  pub in_range : g.last_second ≤ max_timestamp_delta

abbrev pub id_value : ℕ → Generator → ℕ
id_value worker g = g.last_second * 2 ^ 22 + worker * 2 ^ 12 + g.sequence

pub compose_id_lem :
    (now worker sequence : ℕ)
    → now ≤ max_timestamp_delta
    → worker ≤ max_worker_id
    → sequence ≤ max_sequence
    → compose_id now worker sequence ≡ now * 2 ^ 22 + worker * 2 ^ 12 + sequence
unfolding compose_id
compose_id_lem now worker sequence hn hw hs =
    bit_or (bit_or ((now << 22) % 2 ^ 64) ((worker << 12) % 2 ^ 64)) sequence
    ≡⟨ ap₂ (λ a b. bit_or (bit_or a b) sequence) (omega arith) (omega arith) ⟩
      bit_or (bit_or (now << 22) (worker << 12)) sequence
    ≡⟨ ap (λ a. bit_or a sequence) (bit_or_shifted 22 now (worker << 12) (omega arith)) ⟩
      bit_or ((now << 22) + (worker << 12)) sequence
    ≡⟨ ap (λ a. bit_or a sequence) (omega arith) ⟩ bit_or ((now * 2 ^ 10 + worker) << 12) sequence
    ≡⟨ bit_or_shifted 12 (now * 2 ^ 10 + worker) sequence (omega arith) ⟩
      ((now * 2 ^ 10 + worker) << 12) + sequence
    ≡⟨ omega arith ⟩ now * 2 ^ 22 + worker * 2 ^ 12 + sequence ∎

-- After an id was issued: the id spells the new state, which is valid and later than the old one.
abbrev pub Issued : ℕ → Generator → Outcome → Type 0
Issued worker g (issued id g') =
    IsValid g'
    × (id ≡ id_value worker g')
    × (g.last_second * 2 ^ 12 + g.sequence < g'.last_second * 2 ^ 12 + g'.sequence)
Issued worker g (overflow g') = Unit {0}
Issued worker g waiting = Unit {0}

finish-Issued :
    (worker now sequence : ℕ) (g : Generator)
    → worker ≤ max_worker_id
    → sequence ≤ max_sequence
    → g.last_second * 2 ^ 12 + g.sequence < now * 2 ^ 12 + sequence
    → Issued worker g (finish worker g now sequence)
unfolding finish
finish-Issued worker now sequence g hw hs lt = elim (Bool-cases (ltb max_timestamp_delta now)) [
  | inl late ↦ rw late tt
  | inr fits ↦
      let h : now ≤ max_timestamp_delta = ground arith in
      rw fits
        (record { in_second = hs; in_range = h }, compose_id_lem now worker sequence h hw hs, lt)
]

-- A wait that ends is over a later second.
wait_next_second-lt :
    (last now : ℕ) (readings : List ℕ) → wait_next_second last readings ≡ some now → last < now
unfolding wait_next_second
wait_next_second-lt last now [] e = cc
wait_next_second-lt last now (t ∷ readings) e =
    ground (arith, wait_next_second-lt last now readings)

after_wait-Issued :
    (worker : ℕ) (g : Generator) (r : Option ℕ)
    → worker ≤ max_worker_id
    → IsValid g
    → ((now : ℕ) → r ≡ some now → g.last_second < now)
    → Issued worker g (after_wait worker g r)
unfolding after_wait
after_wait-Issued worker g none hw v later = tt
after_wait-Issued worker g (some now) hw v later =
    let lt : g.last_second < now = later now refl in
    let s = v.in_second in finish-Issued worker now 0 g hw (omega arith) (omega arith)

-- The three ways through `next_id`, by the second that it works in.
pub next_id-Issued :
    (worker : ℕ) (g : Generator) (unix_seconds : ℕ) (later : List ℕ)
    → worker ≤ max_worker_id
    → IsValid g
    → Issued worker g (next_id worker g unix_seconds later)
unfolding next_id clamp_second
next_id-Issued worker g unix_seconds later hw v =
    let s = v.in_second in
    let waited =
      after_wait-Issued worker g (wait_next_second g.last_second later) hw v
        (λ now e. wait_next_second-lt g.last_second now later e) in
    let now : ℕ = clamp_second g.last_second (current_seconds unix_seconds) in
    elim (Bool-cases (now == g.last_second)) [
      | inl same ↦ elim (Bool-cases (leb max_sequence g.sequence)) [
        | inl full ↦ rw (same, full) waited
        | inr room ↦
            rw (same, room)
              (finish-Issued worker now (g.sequence + 1) g hw (ground arith) (ground arith))
      ]
      | inr fresh ↦ rw fresh (finish-Issued worker now 0 g hw (omega arith) (ground arith))
    ]

-- Every id is above the bound, and each is below the next.
abbrev pub IncreasingFrom : ℕ → List ℕ → Type 0
IncreasingFrom n [] = Unit {0}
IncreasingFrom n (id ∷ ids) = (n < id) × IncreasingFrom id ids

issue_step-IncreasingFrom :
    (worker : ℕ) (g : Generator) (calls : List (ℕ × List ℕ)) (o : Outcome)
    → worker ≤ max_worker_id
    → Issued worker g o
    → ((g' : Generator) → IsValid g' → IncreasingFrom (id_value worker g') (issue worker g' calls))
    → IncreasingFrom
        (id_value worker g)
        (elim o [ issued id g' ↦ id ∷ issue worker g' calls | overflow g' ↦ [] | waiting ↦ [] ])
issue_step-IncreasingFrom worker g calls (issued id g') hw (v, e, lt) rest =
    (omega arith, rw e (rest g' v))
issue_step-IncreasingFrom worker g calls (overflow g') hw i rest = tt
issue_step-IncreasingFrom worker g calls waiting hw i rest = tt

-- The ids of one generator grow strictly over any series of calls that all return an id, whatever
-- the clock shows, backward steps and full seconds included; they start above the id of the
-- state before the first call.
pub issue-IncreasingFrom :
    (worker : ℕ) (g : Generator) (calls : List (ℕ × List ℕ))
    → worker ≤ max_worker_id
    → IsValid g
    → IncreasingFrom (id_value worker g) (issue worker g calls)
unfolding issue
issue-IncreasingFrom worker g [] hw v = tt
issue-IncreasingFrom worker g ((unix_seconds, later) ∷ calls) hw v =
    issue_step-IncreasingFrom worker g calls (next_id worker g unix_seconds later) hw
      (next_id-Issued worker g unix_seconds later hw v)
      (λ g' v'. issue-IncreasingFrom worker g' calls hw v')

worker_field :
    (w₁ w₂ : ℕ) (h₁ h₂ : Generator)
    → w₁ ≤ max_worker_id
    → w₂ ≤ max_worker_id
    → IsValid h₁
    → IsValid h₂
    → id_value w₁ h₁ ≡ id_value w₂ h₂
    → w₁ ≡ w₂
worker_field w₁ w₂ h₁ h₂ b₁ b₂ k₁ k₂ e =
    let s₁ = k₁.in_second in let s₂ = k₂.in_second in omega arith

-- An id carries its worker, so generators of different workers never issue the same id.
pub workers-ne :
    (w₁ w₂ : ℕ) (g₁ g₂ h₁ h₂ : Generator) (t₁ t₂ : ℕ) (l₁ l₂ : List ℕ) (a b : ℕ)
    → w₁ ≤ max_worker_id
    → w₂ ≤ max_worker_id
    → IsValid g₁
    → IsValid g₂
    → w₁ ≢ w₂
    → next_id w₁ g₁ t₁ l₁ ≡ issued a h₁
    → next_id w₂ g₂ t₂ l₂ ≡ issued b h₂
    → a ≢ b
workers-ne w₁ w₂ g₁ g₂ h₁ h₂ t₁ t₂ l₁ l₂ a b b₁ b₂ v₁ v₂ ne e₁ e₂ eq =
    let (k₁, s₁, _) = subst (Issued w₁ g₁) e₁ (next_id-Issued w₁ g₁ t₁ l₁ b₁ v₁) in
    let (k₂, s₂, _) = subst (Issued w₂ g₂) e₂ (next_id-Issued w₂ g₂ t₂ l₂ b₂ v₂) in
    ne (worker_field w₁ w₂ h₁ h₂ b₁ b₂ k₁ k₂ (sym s₁ ∙ eq ∙ s₂))

-- A worker id is a ten-bit field, whatever process id or configured number it comes from.
pub set_worker_id-le :
    (id : ℤ) (worker : ℕ) → worker ≤ max_worker_id → set_worker_id id worker ≤ max_worker_id
unfolding set_worker_id
set_worker_id-le (pos n) worker h = omega (arith, bit_and_low 10 n)
set_worker_id-le (negsuc n) worker h = h

-- A configured number is reduced modulo 1024: 1024 becomes 0, not 1023.
pub set_worker_id_wraps : (n worker : ℕ) → set_worker_id (pos n) worker ≡ n % 1024
unfolding set_worker_id
set_worker_id_wraps n worker = bit_and_low 10 n

issue-issued :
    (worker id t : ℕ) (readings : List ℕ) (g after : Generator) (calls : List (ℕ × List ℕ))
    → next_id worker g t readings ≡ issued id after
    → issue worker g ((t, readings) ∷ calls) ≡ id ∷ issue worker after calls
unfolding issue
issue-issued worker id t readings g after calls e = rw (e, issue) refl

exhausted :
    (worker later : ℕ) (readings : List ℕ) (g : Generator)
    → g.last_second ≤ max_timestamp_delta
    → epoch_seconds + max_timestamp_delta < later
    → next_id worker g later readings ≡ overflow (record g { sequence = 0 })
unfolding next_id clamp_second finish current_seconds
exhausted worker later readings g le late = ground arith

first_call :
    (worker : ℕ) (before g : Generator)
    → before.last_second < g.last_second
    → g.last_second ≤ max_timestamp_delta
    → next_id worker before (epoch_seconds + g.last_second) []
      ≡ issued (compose_id g.last_second worker 0) (record g { sequence = 0 })
unfolding next_id clamp_second finish current_seconds
first_call worker before g newer le = ground arith

next_call :
    (worker : ℕ) (g : Generator)
    → g.last_second ≤ max_timestamp_delta
    → next_id worker (record g { sequence = 0 }) (epoch_seconds + g.last_second) []
      ≡ issued (compose_id g.last_second worker 1) (record g { sequence = 1 })
unfolding next_id clamp_second finish current_seconds
next_call worker g le = ground arith

-- A call that finds the timestamp field exhausted leaves the sequence at 0 and the last second
-- as it was, whatever the sequence was. From there the calls get the same ids, the first one at
-- that second the id of sequence 1, as the calls behind the first call of that second got before.
pub overflow_reissues :
    (worker later : ℕ) (readings : List ℕ) (before g : Generator) (calls : List (ℕ × List ℕ))
    → before.last_second < g.last_second
    → g.last_second ≤ max_timestamp_delta
    → epoch_seconds + max_timestamp_delta < later
    → let back : Generator = record g { sequence = 0 } in
      let second = g.last_second in
      (next_id worker g later readings ≡ overflow back)
      × (issue worker before ((epoch_seconds + second, []) ∷ calls)
          ≡ compose_id second worker 0 ∷ issue worker back calls)
      × (next_id worker back (epoch_seconds + second) []
          ≡ issued (compose_id second worker 1) (record g { sequence = 1 }))
overflow_reissues worker later readings before g calls newer le late = (
  exhausted worker later readings g le late,
  issue-issued worker _ _ [] before (record g { sequence = 0 }) calls
      (first_call worker before g newer le),
  next_call worker g le,
)
