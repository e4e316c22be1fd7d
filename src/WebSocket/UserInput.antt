-- ===== src/WebSocket/UserInput.antt =====
-- internal/websocket_client/simply_client.go: `handleUserInput`, whose messages the server's router is to
-- take. What readline gives, turn by turn, and encoding/json are parameters.
use service_template.Base.{
  String, str_eq, List, [], ◌∷◌, Option, none, some, if◌then◌else◌, Result, ok, err, pos, Outcome,
  ◌≡◌,
}
use service_template.WebSocket.Pump.{Message}
use service_template.WebSocket.Router.{
  Routable, Json, assert_message_type, handle_message, ws_routes,
}

-- A turn of the loop: the context was done before it, or `Readline` gives a line or an error.
pub data InputTurn : Type 0 where
  quit_closed : InputTurn
  line_read : String → InputTurn
  input_ended : InputTurn

-- What becomes of a line: nothing for the empty one, and for one that has no JSON.
unfoldable pub message_of : (String × String → Result String String) → String → Option Message
message_of marshal line = if str_eq line "" then none else elim (marshal (line, "second")) [
  | err e ↦ none
  | ok bytes ↦ some (record { message_type = pos 1; bytes = bytes })
]

-- The messages that are sent to the pump, in order.
unfoldable pub handle_user_input :
    (String × String → Result String String) → List InputTurn → List Message
handle_user_input marshal [] = []
handle_user_input marshal (quit_closed ∷ turns) = []
handle_user_input marshal (input_ended ∷ turns) = []
handle_user_input marshal (line_read line ∷ turns) =
    let rest = handle_user_input marshal turns in
    elim (message_of marshal line) [ none ↦ rest | some m ↦ m ∷ rest ]

-- The lines, but the empty ones, up to the end of the input or of the context.
abbrev pub typed_lines : List InputTurn → List String
typed_lines [] = []
typed_lines (quit_closed ∷ turns) = []
typed_lines (input_ended ∷ turns) = []
typed_lines (line_read line ∷ turns) =
    let rest = typed_lines turns in if str_eq line "" then rest else line ∷ rest

-- What the server's router makes of a message: what it is read as, and what its handler comes to.
abbrev pub routed : Json → Message → Option (Routable × Outcome (Option String))
routed json m = elim (assert_message_type json m.bytes) [
  | err e ↦ none
  | ok r ↦ some (r, handle_message ws_routes r)
]

-- encoding/json reads back what it wrote of a message of the second kind.
pub record ReadsBack (marshal : String × String → Result String String) (json : Json) : Type 0 where
  pub bytes_of : String → String
  pub marshalled : (line : String) → marshal (line, "second") ≡ ok (bytes_of line)
  pub first_back : (line : String) → json.first (bytes_of line) ≡ ok "second"
  pub second_back : (line : String) → json.second (bytes_of line) ≡ ok (line, "second")
