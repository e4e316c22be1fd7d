-- ===== src/Sse/RoundTrip.antt =====
-- cmd/sse_server/main.go and server/http_client.go: what a client hears of the events that a server sends.
use service_template.Base.{
  ℕ, zero, suc, ◌<◌, false, Runes, runes, List, [], ◌∷◌, ◌++◌, map, length, All, some,
  if◌then◌else◌, ◌≡◌, refl, sym, ◌∙◌, arith,
}
use mathlib.Core.List.{append_assoc, append-nil}
use mathlib.Core.Path.{subst}
use service_template.Sse.Text.{newline, is_empty, trim_space, split_lines}
use service_template.Sse.Server.{Event, field_line, data_lines, send_sse, send_all}
use service_template.Sse.Client.{response_of, server_closed, listen, start_listen}
use service_template.Sse.Passes.{
  OneLine, split_newlines-OneLine, Passes, Passes-refl, Passes-trans, Passes-line, on_line-event,
  on_line-id, on_line-blank, Passes-optional, Passes-data_lines,
}

-- An event whose name and id are lines.
abbrev pub IsEvent : Event → Type 0
IsEvent e = OneLine e.event × OneLine e.id

-- What a client is to hear of an event: its lines, each without the space around it.
abbrev pub heard : Event → List Runes
heard e = map trim_space (split_lines e.bytes)

abbrev pub heard_all : List Event → List Runes
heard_all [] = []
heard_all (e ∷ events) = heard e ++ heard_all events

OneLine-event : (s : Runes) → OneLine s → OneLine (runes "event: " ++ s)
OneLine-event s h = (refl, (refl, (refl, (refl, (refl, (refl, (refl, h)))))))

OneLine-id : (s : Runes) → OneLine s → OneLine (runes "id: " ++ s)
OneLine-id s h = (refl, (refl, (refl, (refl, h))))

send_sse-append :
    (e : Event) (rest : Runes)
    → send_sse e ++ rest
      ≡ (if is_empty e.event then [] else field_line "event: " e.event)
        ++ ((if is_empty e.id then [] else field_line "id: " e.id)
            ++ (data_lines (split_lines e.bytes) ++ newline ∷ rest))
unfolding send_sse
send_sse-append e rest =
    let a : Runes = if is_empty e.event then [] else field_line "event: " e.event in
    let b : Runes = if is_empty e.id then [] else field_line "id: " e.id in
    let d = data_lines (split_lines e.bytes) in
    append_assoc (a ++ b ++ d) (newline ∷ []) rest
    ∙ append_assoc (a ++ b) d (newline ∷ rest)
    ∙ append_assoc a b (d ++ newline ∷ rest)

Passes-send_sse :
    (e : Event) (rest : Runes) (messages : List Runes)
    → IsEvent e
    → Passes (send_sse e ++ rest) messages rest (messages ++ heard e)
Passes-send_sse e rest messages h =
    let a : Runes = if is_empty e.event then [] else field_line "event: " e.event in
    let b : Runes = if is_empty e.id then [] else field_line "id: " e.id in
    let ls = split_lines e.bytes in
    let d = data_lines ls ++ newline ∷ rest in
    let more = messages ++ heard e in
    let lines = split_newlines-OneLine e.bytes in
    let blank =
      subst (λ ms. Passes (newline ∷ rest) more rest ms) (on_line-blank more)
        (Passes-line [] rest more tt) in
    subst (λ t. Passes t messages rest more) (sym (send_sse-append e rest))
      (Passes-trans (a ++ (b ++ d)) messages (b ++ d) messages rest more
        (Passes-optional "event: " e.event (b ++ d) messages (OneLine-event e.event h.0)
          (on_line-event e.event messages))
        (Passes-trans (b ++ d) messages d messages rest more
          (Passes-optional "id: " e.id d messages (OneLine-id e.id h.1) (on_line-id e.id messages))
          (Passes-trans d messages (newline ∷ rest) more rest more
            (Passes-data_lines ls (newline ∷ rest) messages (lines.0, lines.1)) blank)))

Passes-send_all :
    (events : List Event) (messages : List Runes)
    → All IsEvent events
    → Passes (send_all events) messages [] (messages ++ heard_all events)
unfolding send_all
Passes-send_all [] messages h =
    subst (λ more. Passes [] messages [] more) (sym (append-nil messages)) (Passes-refl [] messages)
Passes-send_all (e ∷ events) messages h =
    Passes-trans (send_sse e ++ send_all events) messages (send_all events) (messages ++ heard e) []
      (messages ++ (heard e ++ heard_all events)) (Passes-send_sse e (send_all events) messages h.0)
      (subst (λ more. Passes (send_all events) (messages ++ heard e) [] more)
        (append_assoc messages (heard e) (heard_all events))
        (Passes-send_all events (messages ++ heard e) h.1))

listen-end :
    (fuel turn : ℕ) (messages : List Runes)
    → 0 < fuel
    → listen fuel turn (λ n. false) false [] messages
      ≡ some (record { messages = messages; closed = 1; ending = server_closed })
unfolding listen
listen-end zero turn messages h = absurd (omega (arith, h))
listen-end (suc fuel) turn messages h = refl

-- A client that listens to events as the server sends them, each with a name and an id of one line, has
-- each line of their data as a message, in order and without the space around it. It closes the body
-- once and returns nil, where the content type begins with text/event-stream, the server closes the
-- connection behind the events and the context is not done.
pub start_listen-send_all :
    (events : List Event) (charset : Runes)
    → All IsEvent events
    → start_listen
        (suc (length (send_all events)))
        (λ n. false)
        (response_of
          (runes "text/event-stream" ++ charset)
          (record { bytes = send_all events; breaks = false }))
      ≡ some (record { messages = heard_all events; closed = 1; ending = server_closed })
unfolding start_listen
start_listen-send_all events charset h =
    let p = Passes-send_all events [] h (suc (length (send_all events))) 0 (omega arith) in
    p.3 ∙ listen-end p.0 p.1 (heard_all events) p.2
