-- ===== src/WebSocket/Handler/Unexpected.antt =====
-- internal/websocket_handler/echo_app.go: the loop on a connection that the client has closed.
use service_template.Base.{ℕ, zero, suc, Bool, false, List, [], ◌∷◌, some}
use service_template.WebSocket.Pump.{Message}
use service_template.WebSocket.Handler.{Read, failed, decode_failed, no_message}

-- Some reads that fail with the code.
abbrev pub failures : ℕ → ℕ → List (Read × Bool)
failures zero code = []
failures (suc n) code = (failed (some code), false) ∷ failures n code

-- As many answers that a message was not decoded, with the type -1.
abbrev pub complaints : ℕ → List Message
complaints zero = []
complaints (suc n) = record no_message { bytes = decode_failed } ∷ complaints n
