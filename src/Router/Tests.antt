-- ===== src/Router/Tests.antt =====
-- Runs of the router, and its theorems at concrete requests.
use mathlib.Core.Option
use cpp_url_shortener.Common.{
  ◌≡◌, refl, ◌⊎◌, none, some, [], ◌∷◌, arith, Bytes, codes, find, insert,
}
use cpp_url_shortener.Base62.{base62_encode}
use cpp_url_shortener.Router.{
  HttpRequest, split_from, split_path, add_route, parameter_name, match_segments, match_route,
  dispatch, Handler, health, metrics, shorten, redirect, routes,
}
use cpp_url_shortener.Router.Segments.{join_segments}
use cpp_url_shortener.Router.Codes.{health_id, metrics_id, dispatch-base62_encode}

program : Unit {0}
unfolding split_from split_path add_route parameter_name match_segments match_route dispatch routes
    find insert join_segments
program = tt

abbrev request : Bytes → Bytes → HttpRequest
request method path = record {
  method = method;
  path = path;
  query = [];
  route_pattern = [];
  headers = [];
  body = [];
  params = [];
}

split_runs : split_path (codes "//api///stats/") ≡ codes "api" ∷ codes "stats" ∷ []
unfolding program
split_runs = refl

unmatched : dispatch routes (request (codes "GET") (codes "/a/b")) ≡ none
unfolding program
unmatched = refl

create :
    Option.map (λ r. r.0) (dispatch routes (request (codes "POST") (codes "/api/shorten")))
    ≡ some shorten
unfolding program
create = refl

shadowed : base62_encode health_id ≡ codes "health"
unfolding base62_encode
shadowed = refl

dispatch-base62_encode_example :
    let code = base62_encode 123456789 in
    (req' : HttpRequest) × (h : Handler) × (dispatch routes (request (codes "GET") (b'/' ∷ code))
      ≡ some (h, req'))
    × ((h ≡ redirect) × (find (codes "code") req'.params ≡ some code)
        ⊎ ((h ≡ health) × (123456789 ≡ health_id) ⊎ (h ≡ metrics) × (123456789 ≡ metrics_id)))
dispatch-base62_encode_example =
    dispatch-base62_encode 123456789 (request (codes "GET") (b'/' ∷ base62_encode 123456789))
      (omega arith) refl refl
