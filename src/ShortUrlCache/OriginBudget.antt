-- ===== src/ShortUrlCache/OriginBudget.antt =====
-- The origin budgets over any series of acquisitions, releases and changes of Redis's state, as
-- threads interleave them: every guard that holds a slot is counted.
use cpp_url_shortener.ShortUrlCache
use cpp_url_shortener.ShortUrlCache.{
  OriginKind, origin_redirect, origin_create, OriginBudgetGuard, max_slots, inflight, with_inflight,
  one_more, one_less, below_slots, try_acquire_origin, exchange_origin, release_origin, drop_guard,
  mark_redis_unavailable, restore_redis_available, ensure_probe_started,
}
use cpp_url_shortener.Common.{
  ℕ, ◌+◌, ◌-◌, ◌≤◌, ◌≡◌, refl, ◌⊎◌, inl, inr, Bool, true, false, not, ◌&&◌, List, [], ◌∷◌, arith,
  ◌==◌, if◌then◌else◌, Bool-cases, pos,
}

pub data BudgetOp : Type 0 where
  -- the loop of a request, with what its load of Redis's state gave at some time before
  acquires : Bool → OriginKind → BudgetOp
  drops : OriginKind → BudgetOp
  marks restores : BudgetOp

-- The cache with the number of guards that hold a slot of each kind.
pub record Holders : Type 0 where
  pub cache : ShortUrlCache.ShortUrlCache
  pub redirects : ℕ
  pub creates : ℕ

abbrev pub holding : OriginKind → Holders → ℕ
holding origin_redirect h = h.redirects
holding origin_create h = h.creates

abbrev pub with_holding : OriginKind → ℕ → Holders → Holders
with_holding origin_redirect n h = record h { redirects = n }
with_holding origin_create n h = record h { creates = n }

-- A guard that holds a slot of the kind.
abbrev pub held_guard : OriginKind → OriginBudgetGuard
held_guard kind = record { has_cache = true; kind = kind; held = true }

-- A thread drops a guard only if there is one.
unfoldable pub budget_step : BudgetOp → Holders → Holders
budget_step (acquires up kind) h =
    let (g, c) = try_acquire_origin up kind h.cache in
    let after : Holders = record h { cache = c } in
    if g.held then with_holding kind (holding kind h + 1) after else after
budget_step (drops kind) h =
    if holding kind h == 0
    then h
    else with_holding kind (holding kind h - 1)
        (record h { cache = drop_guard (held_guard kind) h.cache })
budget_step marks h = record h { cache = mark_redis_unavailable h.cache }
budget_step restores h = record h { cache = restore_redis_available h.cache }

unfoldable pub budget_run : List BudgetOp → Holders → Holders
budget_run [] h = h
budget_run (op ∷ ops) h = budget_run ops (budget_step op h)

-- The counters are exact and within the caps.
abbrev pub Balanced : OriginKind → Holders → Type 0
Balanced kind h =
    (inflight kind h.cache ≡ pos (holding kind h)) × (holding kind h ≤ max_slots kind h.cache)

budget_step-Balanced :
    (op : BudgetOp) (h : Holders)
    → Balanced origin_redirect h
    → Balanced origin_create h
    → Balanced origin_redirect (budget_step op h) × Balanced origin_create (budget_step op h)
unfolding budget_step try_acquire_origin exchange_origin drop_guard release_origin
    mark_redis_unavailable restore_redis_available ensure_probe_started
budget_step-Balanced (acquires true kind) h r c = (r, c)
budget_step-Balanced (acquires false origin_redirect) h r c = rw r.0 (ground arith)
budget_step-Balanced (acquires false origin_create) h r c = rw c.0 (ground arith)
budget_step-Balanced (drops origin_redirect) h r c = rw r.0 (ground arith)
budget_step-Balanced (drops origin_create) h r c = rw c.0 (ground arith)
budget_step-Balanced marks h r c = ground arith
budget_step-Balanced restores h r c = (r, c)

budget_run-Balanced :
    (ops : List BudgetOp) (h : Holders)
    → Balanced origin_redirect h
    → Balanced origin_create h
    → Balanced origin_redirect (budget_run ops h) × Balanced origin_create (budget_run ops h)
unfolding budget_run
budget_run-Balanced [] h r c = (r, c)
budget_run-Balanced (op ∷ ops) h r c =
    let (r', c') = budget_step-Balanced op h r c in budget_run-Balanced ops (budget_step op h) r' c'

-- Through every interleaving the counter of a kind is the number of its guards, and at most its
-- cap.
pub budget_bound :
    (ops : List BudgetOp) (h : Holders) (kind : OriginKind)
    → Balanced origin_redirect h
    → Balanced origin_create h
    → Balanced kind (budget_run ops h)
budget_bound ops h origin_redirect r c = (budget_run-Balanced ops h r c).0
budget_bound ops h origin_create r c = (budget_run-Balanced ops h r c).1

-- When a caller of `try_acquire_origin` goes on: Redis is up, or the kind has a slot left.
abbrev pub IsRefused : OriginKind → ShortUrlCache.ShortUrlCache → Type 0
IsRefused kind c =
    (c.redis_available ≡ false) × (below_slots (inflight kind c) (max_slots kind c) ≡ false)

abbrev pub IsAllowed : OriginKind → ShortUrlCache.ShortUrlCache → Type 0
IsAllowed kind c =
    c.redis_available ≡ true ⊎ (below_slots (inflight kind c) (max_slots kind c) ≡ true)

pub try_acquire_origin_cases :
    (kind : OriginKind) (c : ShortUrlCache.ShortUrlCache)
    → let (budget, taken) = try_acquire_origin c.redis_available kind c in
      (((not taken.redis_available && not budget.held) ≡ true) × IsRefused kind c)
      ⊎ (((not taken.redis_available && not budget.held) ≡ false) × IsAllowed kind c)
unfolding try_acquire_origin exchange_origin
try_acquire_origin_cases kind c = elim (Bool-cases c.redis_available) [
  | inl up ↦ inr (simp up refl, inl up)
  | inr down ↦ elim (Bool-cases (below_slots (inflight kind c) (max_slots kind c))) [
    | inl room ↦ inr (simp (down, room) (no_refusal _), inr room)
    | inr full ↦ inl (simp (down, full) refl, (down, full))
  ]
]
  where
    no_refusal : (b : Bool) → (b && false) ≡ false
    no_refusal true = refl
    no_refusal false = refl
