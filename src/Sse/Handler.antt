-- ===== src/Sse/Handler.antt =====
-- cmd/sse_server/main.go: `sseHandler`, as the calls that it makes of its writer.
use Prim.Native.String.{◌++◌ as str_append}
use Prim.Native.Char.{code}
use service_template.Base.{
  Bool, ◌==◌, String, str_eq, runes, List, [], ◌∷◌, ◌++◌, map, if◌then◌else◌,
}
use service_template.Sse.Text.{newline}
use service_template.Sse.Server.{Event}
use service_template.Http.Writer.Script.{Call, call_set, call_write}

-- The arguments of a call of `sendSSE`.
pub record TextEvent : Type 0 where
  pub event : String
  pub id : String
  pub text : String

-- `strings.Split` at each newline: the first line, and those behind it.
unfoldable pub split_text : String → String × List String
split_text String.[] = ("", [])
split_text (String.◌∷◌ c s) =
    let rest = split_text s in
    if code c == newline then ("", rest.0 ∷ rest.1) else (String.◌∷◌ c rest.0, rest.1)

-- `Fprintf` of a field, where its value is not empty.
unfoldable pub optional_field : (name value : String) → List String
optional_field name value =
    if str_eq value "" then [] else str_append name (str_append value "\n") ∷ []

unfoldable pub data_fields : List String → List String
data_fields [] = []
data_fields (line ∷ lines) = str_append "data: " (str_append line "\n") ∷ data_fields lines

-- What `sendSSE` writes, write by write.
unfoldable pub sse_writes : TextEvent → List String
sse_writes e =
    let lines = split_text e.text in
    optional_field "event: " e.event
    ++ optional_field "id: " e.id
    ++ data_fields (lines.0 ∷ lines.1)
    ++ "\n" ∷ []

unfoldable pub all_writes : List TextEvent → List String
all_writes [] = []
all_writes (e ∷ events) = sse_writes e ++ all_writes events

-- The header's fields.
unfoldable pub sse_header : List Call
sse_header =
    call_set "Content-Type" "text/event-stream"
    ∷ call_set "Cache-Control" "no-cache"
    ∷ call_set "Connection" "keep-alive"
    ∷ []

-- The three events.
unfoldable pub sse_events : List TextEvent
sse_events =
    record { event = "alert"; id = "1"; text = "{'message': 'Привет, мир!'}" }
    ∷ record { event = "news"; id = "2"; text = "Первая строка Вторая строка Третья строка" }
    ∷ record { event = ""; id = "3"; text = "Событие без имени (onmessage)" }
    ∷ []

-- `sseHandler` of the events; `flusher` says whether the writer is an `http.Flusher`, and `http_error` is what
-- `http.Error` calls.
unfoldable pub sse_handler : (flusher : Bool) (http_error : List Call) → List TextEvent → List Call
sse_handler flusher http_error events =
    sse_header ++ (if flusher then map call_write (all_writes events) else http_error)

-- The event with its texts as runes.
abbrev pub to_event : TextEvent → Event
to_event e = record { event = runes e.event; id = runes e.id; bytes = runes e.text }
