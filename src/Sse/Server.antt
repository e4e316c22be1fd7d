-- ===== src/Sse/Server.antt =====
-- cmd/sse_server/main.go: `sendSSE` and the events of `sseHandler`.
use service_template.Base.{Runes, runes, String, List, [], ◌∷◌, ◌++◌, if◌then◌else◌}
use service_template.Sse.Text.{newline, is_empty, split_lines}

pub record Event : Type 0 where
  pub event : Runes
  pub id : Runes
  pub bytes : Runes

-- A line with a field.
unfoldable pub field_line : String → Runes → Runes
field_line name value = runes name ++ value ++ newline ∷ []

unfoldable pub data_lines : List Runes → Runes
data_lines [] = []
data_lines (line ∷ lines) = field_line "data: " line ++ data_lines lines

-- What `sendSSE` writes.
unfoldable pub send_sse : Event → Runes
send_sse e =
    (if is_empty e.event then [] else field_line "event: " e.event)
    ++ (if is_empty e.id then [] else field_line "id: " e.id)
    ++ data_lines (split_lines e.bytes)
    ++ newline ∷ []

-- The events of `sseHandler`, in order; their texts are given.
unfoldable pub handler_events : (greeting lines unnamed : Runes) → List Event
handler_events greeting lines unnamed =
    record { event = runes "alert"; id = runes "1"; bytes = greeting }
    ∷ record { event = runes "news"; id = runes "2"; bytes = lines }
    ∷ record { event = []; id = runes "3"; bytes = unnamed }
    ∷ []

-- What a handler that writes some events sends.
unfoldable pub send_all : List Event → Runes
send_all [] = []
send_all (e ∷ events) = send_sse e ++ send_all events
