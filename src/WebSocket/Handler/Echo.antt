-- ===== src/WebSocket/Handler/Echo.antt =====
-- internal/websocket_handler/echo_app.go: the answers to a client's messages.
use service_template.Base.{
  ℕ, Bool, true, false, String, List, [], ◌∷◌, ◌++◌, Option, some, ok, if-branches, if-false, ◌≡◌,
  refl, ap, ◌∙◌, All, ◌⊎◌, inl, inr,
}
use service_template.WebSocket.Hub.{register, unregister}
use service_template.WebSocket.Pump.{Message}
use service_template.WebSocket.Router.{
  Json, Routes, assert_message_type, handle_message, find_route, route, second_handler, ws_routes,
  second_request,
}
use service_template.WebSocket.Handler.{
  Read, received, failed, is_close_error, is_unexpected_close_error, Next, continue_loop,
  break_loop, Opening, handle_read, main_turn, main_loop, join_turns, after_loop, ws,
}

-- The bytes are those of a message of the second kind.
abbrev pub IsSecond : Json → Message → Type 0
IsSecond json m =
    (json.first m.bytes ≡ ok "second") × (p : String × String) × (json.second m.bytes ≡ ok p)

-- The error ends the loop.
abbrev pub EndsLoop : Option ℕ → Type 0
EndsLoop code = (is_close_error code ≡ true) ⊎ (is_unexpected_close_error code ≡ false)

abbrev pub reads_of : List Message → List (Read × Bool)
reads_of [] = []
reads_of (m ∷ ms) = (received m, false) ∷ reads_of ms

assert_message_type-IsSecond :
    (json : Json) (m : Message) (p : String × String)
    → json.first m.bytes ≡ ok "second"
    → json.second m.bytes ≡ ok p
    → assert_message_type json m.bytes ≡ ok (second_request p.0 p.1)
unfolding assert_message_type
assert_message_type-IsSecond json m p f s = rw (assert_message_type, f, s)

handle_read-IsSecond :
    (json : Json) (m : Message) (p : String × String)
    → assert_message_type json m.bytes ≡ ok (second_request p.0 p.1)
    → handle_read json ws_routes false m ≡ (m ∷ [], continue_loop)
unfolding handle_read handle_message find_route route second_handler ws_routes
handle_read-IsSecond json m p e = rw (handle_read, e)

-- The turns of some reads that go on: what is sent before is sent first.
pub main_loop-next :
    (json : Json) (routes : Routes) (r : Read) (done : Bool) (reads : List (Read × Bool))
    (sent : List Message)
    → main_turn json routes done r ≡ (sent, continue_loop)
    → main_loop json routes ((r, done) ∷ reads)
      ≡ (sent ++ (main_loop json routes reads).0, (main_loop json routes reads).1)
unfolding main_loop join_turns
main_loop-next json routes r done reads sent e =
    ap (λ one. join_turns one (main_loop json routes reads)) e

main_loop-last :
    (json : Json) (routes : Routes) (r : Read) (done : Bool) (reads : List (Read × Bool))
    → main_turn json routes done r ≡ ([], break_loop)
    → main_loop json routes ((r, done) ∷ reads) ≡ ([], break_loop)
unfolding main_loop join_turns
main_loop-last json routes r done reads e =
    ap (λ one. join_turns one (main_loop json routes reads)) e

main_turn-ends :
    (json : Json) (routes : Routes) (done : Bool) (code : Option ℕ)
    → EndsLoop code
    → main_turn json routes done (failed code) ≡ ([], break_loop)
unfolding main_turn
main_turn-ends json routes done code (inl h) = rw (main_turn, h)
main_turn-ends json routes done code (inr h) =
    if-branches (λ (x : List Message × Next). x ≡ ([], break_loop)) (is_close_error code)
      (λ b. refl) (λ b. if-false (is_unexpected_close_error code) _ h)

main_turn-received :
    (json : Json) (done : Bool) (m : Message)
    → main_turn json ws_routes done (received m) ≡ handle_read json ws_routes done m
unfolding main_turn
main_turn-received json done m = refl

main_loop-messages :
    (json : Json) (ms : List Message) (code : Option ℕ) (done : Bool)
    → All (IsSecond json) ms
    → EndsLoop code
    → main_loop json ws_routes (reads_of ms ++ (failed code, done) ∷ []) ≡ (ms, break_loop)
main_loop-messages json [] code done h e =
    main_loop-last json ws_routes (failed code) done [] (main_turn-ends json ws_routes done code e)
main_loop-messages json (m ∷ ms) code done h e =
    let p = h.0.1 in
    main_loop-next json ws_routes (received m) false (reads_of ms ++ (failed code, done) ∷ [])
      (m ∷ [])
      (main_turn-received json false m
        ∙ handle_read-IsSecond json m p (assert_message_type-IsSecond json m p h.0.0 h.0.2))
    ∙ ap (λ (x : List Message × Next). (m ∷ x.0, x.1)) (main_loop-messages json ms code done h.1 e)

pub ws-echoes :
    (json : Json) (o : Opening) (ms : List Message) (code : Option ℕ) (done : Bool)
    (others : List ℕ → List ℕ) (clients : List ℕ)
    → o.upgrade_fails ≡ false
    → o.deadline_fails ≡ false
    → All (IsSecond json) ms
    → EndsLoop code
    → ws json ws_routes o (reads_of ms ++ (failed code, done) ∷ []) others clients
      ≡ some (record {
        clients = unregister o.conn (others (register o.conn clients));
        conn_closed = true;
        sent = ms;
        responses_closed = true;
      })
unfolding ws after_loop
ws-echoes json o ms code done others clients up deadline h e =
    if-false o.upgrade_fails _ up
    ∙ if-false o.deadline_fails _ deadline
    ∙ ap (after_loop o.conn (others (register o.conn clients)))
        (main_loop-messages json ms code done h e)
