-- ===== src/WebSocket/Examples.antt =====
-- A connection to the server with one message of the second kind, and the theorems there.
use service_template.Base.{
  ℕ, ◌==◌, true, false, str_eq, List, [], ◌∷◌, ◌++◌, pos, some, ok, err, ◌≡◌, refl, inr,
  if◌then◌else◌, map, returned,
}
use service_template.WebSocket.Hub.{has_client, register, unregister}
use service_template.WebSocket.Hub.Members.{
  HubCall, call_register, call_unregister, call_collect, run_calls, set_calls, has_client-run_calls,
}
use service_template.WebSocket.Pump.{
  Message, close_message, ping_message, response, responses_closed, ticker, write_pump,
  client_write_pump,
}
use service_template.WebSocket.Pump.Agreement.{
  without_failure, write_pump-client_write_pump, takes_end, takes_message, takes_ping,
  write_pump-Takes,
}
use service_template.WebSocket.Router.{Json, ws_routes}
use service_template.WebSocket.Handler.{failed, is_unexpected_close_error, Opening, ws}
use service_template.WebSocket.Handler.Cleanup.{CleanedUp, ws-CleanedUp}
use service_template.WebSocket.Handler.Echo.{reads_of, ws-echoes}
use service_template.WebSocket.UserInput.{InputTurn, line_read, input_ended}
use service_template.WebSocket.Client.{client_failed, dial_failed, dialled, ClientTurn}

-- Texts that are not empty are read as messages of the second kind.
abbrev json : Json
json = record {
  first = λ bytes. if str_eq bytes "" then err "unexpected end of JSON input" else ok "second";
  second = λ bytes. ok (bytes, "second");
}

abbrev opening : Opening
opening = record { upgrade_fails = false; deadline_fails = false; conn = 7 }

abbrev hello : Message
hello = record { message_type = pos 1; bytes = "hello" }

abbrev unchanged : List ℕ → List ℕ
unchanged clients = clients

abbrev calls : List HubCall
calls = call_register 1 ∷ call_register 2 ∷ call_collect (λ c. c == 2) ∷ call_unregister 3 ∷ []

has_client-run_calls_example :
    has_client 2 (run_calls calls []) ≡ set_calls calls (λ x. has_client x []) 2
has_client-run_calls_example = has_client-run_calls calls [] 2

write_pump-client_write_pump_example :
    write_pump (response hello true ∷ response hello false ∷ [])
    ≡ client_write_pump (map without_failure (response hello true ∷ response hello false ∷ []))
write_pump-client_write_pump_example =
    write_pump-client_write_pump (response hello true ∷ response hello false ∷ []) (tt, (tt, tt))

pump_with_ping :
    write_pump (ticker false ∷ response hello true ∷ responses_closed false ∷ [])
    ≡ record { frames = ping_message ∷ hello ∷ close_message ∷ []; returned = true }
pump_with_ping =
    write_pump-Takes (hello ∷ []) (ticker false ∷ response hello true ∷ responses_closed false ∷ [])
      (ping_message ∷ hello ∷ close_message ∷ []) (takes_ping (takes_message takes_end))

going_away : is_unexpected_close_error (some 1001) ≡ false
unfolding is_unexpected_close_error
going_away = refl

hello_echoed :
    ws json ws_routes opening
      (reads_of (hello ∷ []) ++ (failed (some 1001), false) ∷ [])
      unchanged
      (2 ∷ [])
    ≡ some (record {
      clients = unregister 7 (register 7 (2 ∷ []));
      conn_closed = true;
      sent = hello ∷ [];
      responses_closed = true;
    })
hello_echoed =
    ws-echoes json opening (hello ∷ []) (some 1001) false unchanged (2 ∷ []) refl refl
      ((refl, ("hello", "second"), refl), tt) (inr going_away)

ws-CleanedUp_example : CleanedUp 7 (register 7 (2 ∷ [])) (record {
  clients = unregister 7 (register 7 (2 ∷ []));
  conn_closed = true;
  sent = hello ∷ [];
  responses_closed = true;
})
ws-CleanedUp_example =
    ws-CleanedUp json ws_routes opening (reads_of (hello ∷ []) ++ (failed (some 1001), false) ∷ [])
      unchanged (2 ∷ [])
      (record {
        clients = unregister 7 (register 7 (2 ∷ []));
        conn_closed = true;
        sent = hello ∷ [];
        responses_closed = true;
      })
      refl hello_echoed

abbrev client_turns : List ClientTurn
client_turns =
    record { connection = dial_failed "refused"; done_first = false; done_later = false }
    ∷ record {
      connection = dialled (client_failed "closed" ∷ []);
      done_first = false;
      done_later = false;
    }
    ∷ []

abbrev second_json : Json
second_json = record { first = λ bytes. ok "second"; second = λ bytes. ok (bytes, "second") }

abbrev turns : List InputTurn
turns = line_read "one" ∷ line_read "" ∷ line_read "two" ∷ input_ended ∷ line_read "three" ∷ []
