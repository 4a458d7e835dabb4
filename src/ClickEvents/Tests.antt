-- ===== src/ClickEvents/Tests.antt =====
-- Runs of the click producer, and its theorem at concrete clicks.
use cpp_url_shortener.Router.{HttpRequest}
use cpp_url_shortener.ClickEvents.{
  ClickEventProducer, enqueue, click_event, header_or_empty, report, publish_click, with_id,
  take_event, worker_turn, begin_shutdown, end_shutdown, new_producer,
}
use cpp_url_shortener.ClickEvents.Delivery.{
  ClickOp, publishes, works, shuts_down, click_step, click_run, published, turn_codes, produced,
  all_published, all_produced, waiting, click_run-published,
}
use cpp_url_shortener.Common.{◌≡◌, refl, true, false, List, [], ◌∷◌, ◌++◌, codes}

program : Unit {0}
unfolding enqueue click_event header_or_empty report publish_click with_id take_event worker_turn
    begin_shutdown end_shutdown new_producer click_step click_run published turn_codes produced
    all_published all_produced waiting
program = tt

abbrev request : HttpRequest
request = record {
  method = codes "GET";
  path = codes "/a";
  query = [];
  route_pattern = [];
  headers = [];
  body = [];
  params = [];
}

abbrev ready : ClickEventProducer
ready = record {
  enabled = true;
  available = true;
  max_queue = 2;
  queue = [];
  accepting = true;
  stopping = false;
}

abbrev ops : List ClickOp
ops =
    publishes request (codes "a") 1
    ∷ publishes request (codes "b") 2
    ∷ publishes request (codes "c") 3
    ∷ works 9
    ∷ shuts_down
    ∷ publishes request (codes "d") 4
    ∷ works 10
    ∷ works 11
    ∷ []

first_two : all_produced ops ready ≡ codes "a" ∷ codes "b" ∷ []
unfolding program
first_two = refl

click_run-published_example :
    waiting ready ++ all_published ops ready
    ≡ all_produced ops ready ++ waiting (click_run ops ready)
click_run-published_example = click_run-published ops ready
