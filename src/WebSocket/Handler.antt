-- ===== src/WebSocket/Handler.antt =====
-- internal/websocket_handler/echo_app.go: `Ws`. What the connection answers to each read is given. The
-- channel to the pump takes each message: it has room for 256, and the pump takes them out again.
pub mod Cleanup
pub mod Echo
pub mod Unexpected
use service_template.Base.{
  ℕ, ◌==◌, Bool, true, false, not, ◌&&◌, ◌||◌, String, List, [], ◌∷◌, ◌++◌, ℤ, pos, negsuc, Option,
  none, some, if◌then◌else◌, Result, ok, err, Outcome, returned, panicked,
}
use service_template.WebSocket.Hub.{register, unregister}
use service_template.WebSocket.Pump.{Message, close_message}
use service_template.WebSocket.Router.{Json, Routes, Routable, assert_message_type, handle_message}

-- What `ReadMessage` answers: a message, or an error, which has a code if it is a close error.
pub data Read : Type 0 where
  received : Message → Read
  failed : (code : Option ℕ) → Read

-- `websocket.IsCloseError` with CloseNoStatusReceived and CloseAbnormalClosure.
unfoldable pub is_close_error : Option ℕ → Bool
is_close_error none = false
is_close_error (some code) = (code == 1005) || (code == 1006)

-- `websocket.IsUnexpectedCloseError` with CloseGoingAway.
unfoldable pub is_unexpected_close_error : Option ℕ → Bool
is_unexpected_close_error none = false
is_unexpected_close_error (some code) = not (code == 1001)

-- How a turn of `MainLoop` goes on.
pub data Next : Type 0 where
  continue_loop : Next
  break_loop : Next
  panics : Next

abbrev pub decode_failed : String
decode_failed = "Ошибка при декодировании сообщения"

abbrev pub handle_failed : String
handle_failed = "Ошибка при обработке сообщения"

-- A turn from the decoding on: what it sends to the pump. `done` says whether the server's context is done.
unfoldable pub handle_read : Json → Routes → Bool → Message → List Message × Next
handle_read json routes done m = elim (assert_message_type json m.bytes) [
  | err e ↦ (record m { bytes = decode_failed } ∷ [], continue_loop)
  | ok msg ↦ elim (handle_message routes msg) [
    | panicked ↦ ([], panics)
    | returned (some e) ↦ (record m { bytes = handle_failed } ∷ [], continue_loop)
    | returned none ↦ if done then (close_message ∷ [], break_loop) else (m ∷ [], continue_loop)
  ]
]

-- The message of a read that failed: type -1 and no bytes.
abbrev pub no_message : Message
no_message = record { message_type = negsuc 0; bytes = "" }

-- A turn of `MainLoop`.
unfoldable pub main_turn : Json → Routes → Bool → Read → List Message × Next
main_turn json routes done (received m) = handle_read json routes done m
main_turn json routes done (failed code) =
    if is_close_error code
    then ([], break_loop)
    else if is_unexpected_close_error code
    then handle_read json routes done no_message
    else ([], break_loop)

-- What a turn and, if it goes on, the later ones send.
unfoldable pub join_turns : List Message × Next → List Message × Next → List Message × Next
join_turns one more = elim one.1 [
  | continue_loop ↦ (one.0 ++ more.0, more.1)
  | break_loop ↦ one
  | panics ↦ one
]

-- `MainLoop`: what it sends, and how it stands after these reads, each with whether the context is done.
unfoldable pub main_loop : Json → Routes → List (Read × Bool) → List Message × Next
main_loop json routes [] = ([], continue_loop)
main_loop json routes (r ∷ reads) =
    join_turns (main_turn json routes r.1 r.0) (main_loop json routes reads)

-- What is seen of a call of the handler: the hub, whether the connection was closed, what was sent to the
-- pump, and whether the channel to it was closed.
pub record Handled : Type 0 where
  pub clients : List ℕ
  pub conn_closed : Bool
  pub sent : List Message
  pub responses_closed : Bool

-- What `Upgrade` and `SetReadDeadline` answer, and the connection's number.
pub record Opening : Type 0 where
  pub upgrade_fails : Bool
  pub deadline_fails : Bool
  pub conn : ℕ

-- The handler from the loop on; `none` while the loop goes on. A panic is recovered behind the deferred
-- calls.
unfoldable pub after_loop : ℕ → List ℕ → List Message × Next → Option Handled
after_loop conn clients looped = elim looped.1 [
  | continue_loop ↦ none
  | break_loop ↦ some (record {
    clients = unregister conn clients;
    conn_closed = true;
    sent = looped.0;
    responses_closed = true;
  })
  | panics ↦ some (record {
    clients = unregister conn clients;
    conn_closed = true;
    sent = looped.0;
    responses_closed = false;
  })
]

-- `others` is what the handlers of other connections make of the hub meanwhile.
unfoldable pub ws :
    Json → Routes → Opening → List (Read × Bool) → (List ℕ → List ℕ) → List ℕ → Option Handled
ws json routes o reads others clients =
    if o.upgrade_fails
    then some
        (record { clients = clients; conn_closed = false; sent = []; responses_closed = false })
    else let registered = register o.conn clients in
      if o.deadline_fails
      then some (record {
        clients = unregister o.conn (others registered);
        conn_closed = true;
        sent = [];
        responses_closed = false;
      })
      else after_loop o.conn (others registered) (main_loop json routes reads)
