-- ===== src/Router.antt =====
-- http/router.{h,cpp}: `Router`. A handler is named by a value of any type, and `dispatch` returns
-- the handler that it would call, with the request as it passes it on.
pub mod Segments
pub mod Codes
mod Tests
use cpp_url_shortener.Common.{
  ◌-◌, true, false, not, ◌&&◌, Option, none, some, List, [], ◌∷◌, ◌++◌, leb, ◌==◌, if◌then◌else◌,
  length, get_or, take, drop, Bytes, codes, bytes_eq, insert,
}

-- `HttpRequest`, but for the connection pointer, which the router does not touch.
pub record HttpRequest : Type 0 where
  pub method : Bytes
  pub path : Bytes
  pub query : Bytes
  pub route_pattern : Bytes
  pub headers : List (Bytes × Bytes)
  pub body : Bytes
  pub params : List (Bytes × Bytes)

-- `std::getline` to the end of the text: the pieces between slashes, the empty ones left out. The
-- second argument is the piece being read.
unfoldable pub split_from : Bytes → Bytes → List Bytes
split_from [] [] = []
split_from [] (d ∷ seg) = (d ∷ seg) ∷ []
split_from (c ∷ path) [] = elim (c == b'/') [
  | true ↦ split_from path []
  | false ↦ split_from path (c ∷ [])
]
split_from (c ∷ path) (d ∷ seg) = elim (c == b'/') [
  | true ↦ (d ∷ seg) ∷ split_from path []
  | false ↦ split_from path ((d ∷ seg) ++ c ∷ [])
]

unfoldable pub split_path : Bytes → List Bytes
split_path path = split_from path []

pub record Route (H : Type 0) : Type 0 where
  pub method : Bytes
  pub pattern : Bytes
  pub segments : List Bytes
  pub handler : H

unfoldable pub add_route : {H : Type 0} → Bytes → Bytes → H → List (Route H) → List (Route H)
add_route method pattern h routes =
    routes
    ++ record { method = method; pattern = pattern; segments = split_path pattern; handler = h }
      ∷ []

-- The name in `{name}`, or none for a literal segment.
unfoldable pub parameter_name : Bytes → Option Bytes
parameter_name pat =
    if leb 3 (length pat) && (get_or pat 0 0 == b'{' && get_or pat (length pat - 1) 0 == b'}')
    then some (take (length pat - 2) (drop 1 pat))
    else none

-- The loop over the segments; the lists have one length.
unfoldable pub match_segments :
    List Bytes → List Bytes → List (Bytes × Bytes) → Option (List (Bytes × Bytes))
match_segments [] segs params = some params
match_segments (pat ∷ pats) [] params = none
match_segments (pat ∷ pats) (seg ∷ segs) params = elim (parameter_name pat) [
  | some name ↦ match_segments pats segs (insert name seg params)
  | none ↦ elim (bytes_eq pat seg) [ true ↦ match_segments pats segs params | false ↦ none ]
]

unfoldable pub match_route : {H : Type 0} → Route H → HttpRequest → Option (List (Bytes × Bytes))
match_route r req =
    if not (bytes_eq r.method req.method)
    then none
    else if not (length (split_path req.path) == length r.segments)
    then none
    else match_segments r.segments (split_path req.path) []

-- `none` is the result false: no route fits, and no handler is called.
unfoldable pub dispatch : {H : Type 0} → List (Route H) → HttpRequest → Option (H × HttpRequest)
dispatch [] req = none
dispatch (route ∷ routes) req = elim (match_route route req) [
  | some params ↦
      some (route.handler, record req { params = params; route_pattern = route.pattern })
  | none ↦ dispatch routes req
]

-- The handlers of main.cpp, and the order in which it registers them.
pub data Handler : Type 0 where
  health metrics shorten redirect : Handler

unfoldable pub routes : List (Route Handler)
routes = add_route (codes "GET") (codes "/{code}") redirect (
    add_route (codes "POST") (codes "/api/shorten") shorten (
      add_route (codes "GET") (codes "/metrics") metrics
        (add_route (codes "GET") (codes "/health") health [])))
