-- ===== src/ClickEvents.antt =====
-- analytics/click_event_producer.{h,cpp}: the queue of `ClickEventProducer`. Each section under the
-- mutex is one step. The clock and the generator's ids are arguments; producing an event to Kafka
-- and the metrics are left out.
pub mod Delivery
mod Tests
use cpp_url_shortener.Base62.{base62_encode}
use cpp_url_shortener.Router.{HttpRequest}
use cpp_url_shortener.Common.{
  ℕ, Bool, true, false, not, ◌||◌, Option, none, some, List, [], ◌∷◌, ◌++◌, leb, if◌then◌else◌,
  length, Bytes, codes, bytes_eq, find,
}

pub record ClickEvent : Type 0 where
  pub code : Bytes
  pub user_agent : Bytes
  pub referer : Bytes
  pub x_forwarded_for : Bytes
  pub event_id : Bytes
  pub clicked_at_ms : ℕ

pub record ClickEventProducer : Type 0 where
  pub enabled : Bool
  pub available : Bool
  pub max_queue : ℕ
  pub queue : List ClickEvent
  pub accepting : Bool
  pub stopping : Bool

unfoldable pub new_producer : ClickEventProducer
new_producer = record {
  enabled = false;
  available = false;
  max_queue = 8192;
  queue = [];
  accepting = false;
  stopping = true;
}

unfoldable pub enqueue : ClickEvent → ClickEventProducer → Bool × ClickEventProducer
enqueue event p =
    if not p.accepting || leb p.max_queue (length p.queue)
    then (false, p)
    else (true, record p { queue = p.queue ++ event ∷ [] })

unfoldable pub header_or_empty : HttpRequest → Bytes → Bytes
header_or_empty req name = elim (find name req.headers) [ none ↦ [] | some value ↦ value ]

unfoldable pub click_event : HttpRequest → Bytes → ℕ → ClickEvent
click_event req code now_ms = record {
  code = code;
  user_agent = header_or_empty req (codes "User-Agent");
  referer = header_or_empty req (codes "Referer");
  x_forwarded_for = header_or_empty req (codes "X-Forwarded-For");
  event_id = [];
  clicked_at_ms = now_ms;
}

-- The result, with the text for the caller where there is one.
unfoldable pub report : Bool × ClickEventProducer → (Bool × Option Bytes) × ClickEventProducer
report (true, p) = ((true, none), p)
report (false, p) = ((false, some (codes "kafka click queue full")), p)

unfoldable pub publish_click :
    HttpRequest → Bytes → ℕ → ClickEventProducer → (Bool × Option Bytes) × ClickEventProducer
publish_click req code now_ms p =
    if not p.enabled
    then ((false, none), p)
    else if not p.accepting
    then ((false, some (codes "kafka producer shutting down")), p)
    else report (enqueue (click_event req code now_ms) p)

-- A turn of `worker_loop` behind its wait: it leaves, polls, or has an event to produce.
pub data Turn : Type 0 where
  leaves polls : Turn
  produces : ClickEvent → Turn

-- The id is minted where the event has none.
unfoldable pub with_id : ℕ → ClickEvent → ClickEvent
with_id id event =
    if bytes_eq event.event_id [] then record event { event_id = base62_encode id } else event

unfoldable pub take_event : ℕ → List ClickEvent → ClickEventProducer → Turn × ClickEventProducer
take_event id [] p = (if p.stopping then leaves else polls, p)
take_event id (event ∷ rest) p = (produces (with_id id event), record p { queue = rest })

unfoldable pub worker_turn : ℕ → ClickEventProducer → Turn × ClickEventProducer
worker_turn id p = take_event id p.queue p

-- `shutdown`, before and behind the join of the worker.
unfoldable pub begin_shutdown : ClickEventProducer → ClickEventProducer
begin_shutdown p = record p { accepting = false; stopping = true }

unfoldable pub end_shutdown : ClickEventProducer → ClickEventProducer
end_shutdown p = record p { queue = []; available = false }
