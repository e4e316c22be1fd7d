-- ===== src/WebSocket/Pump/Agreement.antt =====
-- server/websocket_server.go and server/websocket_clent.go: how the two pumps differ, and what the server's
-- writes of the answers of its handler.
use service_template.Base.{Bool, true, false, List, [], ◌∷◌, map, ◌≡◌, refl, ap, All}
use service_template.WebSocket.Pump.{
  Message, close_message, ping_message, Turn, father_done, response, responses_closed, ticker,
  returns_after, after_frame, write_pump, client_write_pump,
}

-- The turn as it is if the write of a message has no error.
abbrev pub without_failure : Turn → Turn
without_failure father_done = father_done
without_failure (response msg fails) = response msg false
without_failure (responses_closed fails) = responses_closed fails
without_failure (ticker fails) = ticker fails

abbrev pub IsNoTick : Turn → Type 0
IsNoTick father_done = Unit
IsNoTick (response msg fails) = Unit
IsNoTick (responses_closed fails) = Unit
IsNoTick (ticker fails) = ⊥

-- Between pings the server's pump does what the client's does if no write of a message fails: it does not
-- see such a failure.
pub write_pump-client_write_pump :
    (turns : List Turn)
    → All IsNoTick turns
    → write_pump turns ≡ client_write_pump (map without_failure turns)
unfolding write_pump client_write_pump
write_pump-client_write_pump [] h = refl
write_pump-client_write_pump (father_done ∷ turns) h = refl
write_pump-client_write_pump (response msg fails ∷ turns) h =
    ap (after_frame msg) (write_pump-client_write_pump turns h.1)
write_pump-client_write_pump (responses_closed fails ∷ turns) h = refl
write_pump-client_write_pump (ticker fails ∷ turns) h = absurd h.0

-- The turns of a pump that takes these messages, with any failures and any pings that succeed between
-- them, up to the closing of the channel.
pub data Takes : List Message → List Turn → List Message → Type 0 where
  takes_end : {fails : Bool} → Takes [] (responses_closed fails ∷ []) (close_message ∷ [])
  takes_message :
      {msg : Message} {fails : Bool} {ms : List Message} {turns : List Turn} {frames : List Message}
      → Takes ms turns frames
      → Takes (msg ∷ ms) (response msg fails ∷ turns) (msg ∷ frames)
  takes_ping :
      {ms : List Message} {turns : List Turn} {frames : List Message}
      → Takes ms turns frames
      → Takes ms (ticker false ∷ turns) (ping_message ∷ frames)

-- A pump that takes messages until their channel is closed, and whose pings succeed, tries to write each
-- message in its place among the pings, then a close message, and returns.
pub write_pump-Takes :
    (ms : List Message) (turns : List Turn) (frames : List Message)
    → Takes ms turns frames
    → write_pump turns ≡ record { frames = frames; returned = true }
unfolding write_pump returns_after after_frame
write_pump-Takes _ _ _ takes_end = refl
write_pump-Takes _ _ _ (takes_message {msg} {ms} {turns} {frames} t) =
    ap (after_frame msg) (write_pump-Takes ms turns frames t)
write_pump-Takes _ _ _ (takes_ping {ms} {turns} {frames} t) =
    ap (after_frame ping_message) (write_pump-Takes ms turns frames t)
