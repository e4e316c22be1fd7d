-- ===== src/WebSocket/Pump.antt =====
-- server/websocket_server.go and server/websocket_clent.go: the two methods `WritePump`. What the `select`
-- receives is given turn by turn, with the answer of the write that follows.
pub mod Agreement
use service_template.Base.{Bool, true, false, String, List, [], ◌∷◌, ◌++◌, ℤ, pos, if◌then◌else◌}

-- `Message`, also with the types of the frames that the library sends: 1 for a text, 8 to close, 9 to ping.
pub record Message : Type 0 where
  pub message_type : ℤ
  pub bytes : String

abbrev pub close_message : Message
close_message = record { message_type = pos 8; bytes = "" }

abbrev pub ping_message : Message
ping_message = record { message_type = pos 9; bytes = "" }

-- What a turn of the loop receives, and whether the write has an error.
pub data Turn : Type 0 where
  father_done : Turn
  response : (msg : Message) (fails : Bool) → Turn
  responses_closed : (fails : Bool) → Turn
  ticker : (fails : Bool) → Turn

-- The frames that a pump tried to write, and whether it returned.
pub record Pumped : Type 0 where
  pub frames : List Message
  pub returned : Bool

unfoldable pub returns_after : List Message → Pumped
returns_after frames = record { frames = frames; returned = true }

unfoldable pub after_frame : Message → Pumped → Pumped
after_frame msg p = record p { frames = msg ∷ p.frames }

-- `Client.WritePump` of the server: the `break` after a failed write leaves the `select` alone.
unfoldable pub write_pump : List Turn → Pumped
write_pump [] = record { frames = []; returned = false }
write_pump (father_done ∷ turns) = returns_after []
write_pump (response msg fails ∷ turns) = after_frame msg (write_pump turns)
write_pump (responses_closed fails ∷ turns) = returns_after (close_message ∷ [])
write_pump (ticker fails ∷ turns) =
    let rest = write_pump turns in
    if fails then returns_after (ping_message ∷ []) else after_frame ping_message rest

-- `WebSocketClientConnection.WritePump`, which has no ticker: the `break` leaves the loop.
unfoldable pub client_write_pump : List Turn → Pumped
client_write_pump [] = record { frames = []; returned = false }
client_write_pump (father_done ∷ turns) = returns_after []
client_write_pump (response msg fails ∷ turns) =
    let rest = client_write_pump turns in
    if fails then returns_after (msg ∷ []) else after_frame msg rest
client_write_pump (responses_closed fails ∷ turns) = returns_after (close_message ∷ [])
client_write_pump (ticker fails ∷ turns) = client_write_pump turns
