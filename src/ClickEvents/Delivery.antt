-- ===== src/ClickEvents/Delivery.antt =====
-- The events that the worker gets.
use cpp_url_shortener.Router.{HttpRequest}
use cpp_url_shortener.ClickEvents.{
  ClickEvent, ClickEventProducer, enqueue, click_event, report, publish_click, Turn, produces,
  with_id, take_event, worker_turn, begin_shutdown,
}
use cpp_url_shortener.Common.{
  ℕ, ◌≡◌, refl, sym, ap, ◌∙◌, inl, inr, Bool, not, ◌||◌, Option, List, [], ◌∷◌, ◌++◌, map,
  append_assoc, append-nil, leb, if◌then◌else◌, Bool-cases, length, Bytes, bytes_eq, if-cases,
}

pub data ClickOp : Type 0 where
  publishes : HttpRequest → Bytes → ℕ → ClickOp
  works : ℕ → ClickOp
  shuts_down : ClickOp

unfoldable pub click_step : ClickOp → ClickEventProducer → ClickEventProducer
click_step (publishes req code now_ms) p = (publish_click req code now_ms p).1
click_step (works id) p = (worker_turn id p).1
click_step shuts_down p = begin_shutdown p

unfoldable pub click_run : List ClickOp → ClickEventProducer → ClickEventProducer
click_run [] p = p
click_run (op ∷ ops) p = click_run ops (click_step op p)

-- The codes of the clicks that a call reports as published, and of those produced.
unfoldable pub published : ClickOp → ClickEventProducer → List Bytes
published (publishes req code now_ms) p =
    if ((publish_click req code now_ms p).0).0 then code ∷ [] else []
published op p = []

unfoldable pub turn_codes : Turn → List Bytes
turn_codes (produces event) = event.code ∷ []
turn_codes turn = []

unfoldable pub produced : ClickOp → ClickEventProducer → List Bytes
produced (works id) p = turn_codes (worker_turn id p).0
produced op p = []

unfoldable pub all_published : List ClickOp → ClickEventProducer → List Bytes
all_published [] p = []
all_published (op ∷ ops) p = published op p ++ all_published ops (click_step op p)

unfoldable pub all_produced : List ClickOp → ClickEventProducer → List Bytes
all_produced [] p = []
all_produced (op ∷ ops) p = produced op p ++ all_produced ops (click_step op p)

unfoldable pub waiting : ClickEventProducer → List Bytes
waiting p = map (λ (e : ClickEvent). e.code) p.queue

map-append :
    (f : ClickEvent → Bytes) (xs ys : List ClickEvent) → map f (xs ++ ys) ≡ map f xs ++ map f ys
map-append f [] ys = refl
map-append f (x ∷ xs) ys = ap (◌∷◌ (f x)) (map-append f xs ys)

-- What one call adds and takes.
Keeps : ClickOp → ClickEventProducer → Type 0
Keeps op p = waiting p ++ published op p ≡ produced op p ++ waiting (click_step op p)

-- What a published click adds.
Adds : Bytes → ClickEventProducer → (Bool × Option Bytes) × ClickEventProducer → Type 0
Adds code p r = waiting p ++ (if (r.0).0 then code ∷ [] else []) ≡ waiting r.1

report-Adds :
    (event : ClickEvent) (p : ClickEventProducer) → Adds event.code p (report (enqueue event p))
unfolding Adds report enqueue waiting
report-Adds event p =
    if-cases (λ (a : Bool × ClickEventProducer). Adds event.code p (report a))
      (not p.accepting || leb p.max_queue (length p.queue)) _ _ (λ refused. append-nil (waiting p))
      (λ room. sym (map-append (λ (e : ClickEvent). e.code) p.queue (event ∷ [])))

publish_click-Adds :
    (req : HttpRequest) (code : Bytes) (now_ms : ℕ) (p : ClickEventProducer)
    → Adds code p (publish_click req code now_ms p)
unfolding publish_click Adds click_event
publish_click-Adds req code now_ms p =
    if-cases (Adds code p) (not p.enabled) _ _ (λ off. append-nil (waiting p))
      (λ on.
        if-cases (Adds code p) (not p.accepting) _ _ (λ ending. append-nil (waiting p))
          (λ taking. report-Adds (click_event req code now_ms) p))

with_id-code : (id : ℕ) (event : ClickEvent) → (with_id id event).code ≡ event.code
unfolding with_id
with_id-code id event =
    if-cases (λ (e : ClickEvent). e.code ≡ event.code) (bytes_eq event.event_id []) _ _
      (λ new. refl) (λ old. refl)

take_event-Keeps :
    (id : ℕ) (q : List ClickEvent) (p : ClickEventProducer)
    → p.queue ≡ q
    → map (λ (e : ClickEvent). e.code) q ++ []
      ≡ turn_codes (take_event id q p).0 ++ waiting (take_event id q p).1
unfolding take_event turn_codes waiting
take_event-Keeps id [] p e =
    let nothing : map (λ (e : ClickEvent). e.code) p.queue ≡ [] =
      ap (map (λ (e : ClickEvent). e.code)) e in
    elim (Bool-cases p.stopping) [ inl s ↦ simp s (sym nothing) | inr r ↦ simp r (sym nothing) ]
take_event-Keeps id (event ∷ rest) p e =
    append-nil _
    ∙ ap (λ (c : Bytes). c ∷ map (λ (e : ClickEvent). e.code) rest) (sym (with_id-code id event))

click_step-Keeps : (op : ClickOp) (p : ClickEventProducer) → Keeps op p
unfolding Keeps click_step published produced worker_turn begin_shutdown waiting
click_step-Keeps (publishes req code now_ms) p = unfold Adds in publish_click-Adds req code now_ms p
click_step-Keeps (works id) p = take_event-Keeps id p.queue p refl
click_step-Keeps shuts_down p = append-nil (waiting p)

-- Through every interleaving of requests, turns of the worker and a shutdown up to its join, the
-- clicks waiting at first and then reported as published are those that the worker produces, in
-- the same order, followed by those still waiting.
pub click_run-published :
    (ops : List ClickOp) (p : ClickEventProducer)
    → waiting p ++ all_published ops p ≡ all_produced ops p ++ waiting (click_run ops p)
unfolding click_run all_published all_produced Keeps
click_run-published [] p = append-nil (waiting p)
click_run-published (op ∷ ops) p =
    let next = click_step op p in
    sym (append_assoc (waiting p) (published op p) (all_published ops next))
    ∙ (ap (λ (l : List Bytes). l ++ all_published ops next) (click_step-Keeps op p)
        ∙ (append_assoc (produced op p) (waiting next) (all_published ops next)
            ∙ (ap (◌++◌ (produced op p)) (click_run-published ops next)
                ∙ sym (
                    append_assoc (produced op p) (all_produced ops next)
                      (waiting (click_run ops next))))))
