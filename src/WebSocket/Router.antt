-- ===== src/WebSocket/Router.antt =====
-- internal/websocket_handler/websocket.go: `WsRouter`. What encoding/json makes of the bytes is a parameter.
use service_template.Base.{
  String, str_eq, List, [], ◌∷◌, Option, none, some, if◌then◌else◌, Result, ok, err, Outcome,
  returned, panicked,
}

-- The messages with a method `Route`.
pub data Routable : Type 0 where
  first_request : (routing : String) → Routable
  second_request : (message routing : String) → Routable

unfoldable pub route : Routable → String
route (first_request routing) = "first"
route (second_request message routing) = "second"

-- What `json.Unmarshal` finds in the bytes for each of the two types.
pub record Json : Type 0 where
  pub first : String → Result String String
  pub second : String → Result String (String × String)

unfoldable pub assert_message_type : Json → String → Result String Routable
assert_message_type json bytes = elim (json.first bytes) [
  | err e ↦ err e
  | ok routing ↦
      if str_eq routing "second"
      then elim (json.second bytes) [ err e ↦ err e | ok m ↦ ok (second_request m.0 m.1) ]
      else err "unknown message type"
]

-- The routes: each with its handler, which may have an error.
abbrev pub Routes : Type 0
Routes = List (String × (Routable → Option String))

unfoldable pub find_route : String → Routes → Option (Routable → Option String)
find_route name [] = none
find_route name (r ∷ routes) =
    let later = find_route name routes in if str_eq r.0 name then some r.1 else later

-- `HandleMessage`, which calls a nil function where there is no route.
unfoldable pub handle_message : Routes → Routable → Outcome (Option String)
handle_message routes m = elim (find_route (route m) routes) [
  | none ↦ panicked
  | some handler ↦ returned (handler m)
]

-- `SecondHandler`, which logs.
unfoldable pub second_handler : Routable → Option String
second_handler m = none

-- The routes of cmd/websocket_server/main.go
unfoldable pub ws_routes : Routes
ws_routes = ("second", second_handler) ∷ []
