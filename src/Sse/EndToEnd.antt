-- ===== src/Sse/EndToEnd.antt =====
-- cmd/sse_server/main.go behind the middlewares of server/http_server.go, and a client of server/http_client.go.
mod Examples
use service_template.Base.{
  ℕ, suc, Bool, true, false, ◌||◌, String, runes, List, [], ◌∷◌, ◌++◌, map, length, All, some, none,
  ◌≡◌, refl, sym, ap, ◌∙◌, if-false, str_eq, Option, if◌then◌else◌,
}
use mathlib.Core.Path.{subst}
use service_template.Http.Writer.{Response, plain, add_field, set_field, without_field, response}
use service_template.Http.Writer.Script.{Call, answer_calls, call_write}
use service_template.Http.Middleware.{Logger, Request, Line, Handler, middlewares}
use service_template.Http.Middleware.Visible.{scripted, visible, sent, serve-visible}
use service_template.Http.Empty.Answers.{new_response}
use service_template.Sse.Server.{send_all}
use service_template.Sse.Client.{response_of, server_closed, start_listen}
use service_template.Sse.RoundTrip.{IsEvent, heard_all, start_listen-send_all}
use service_template.Sse.Handler.{TextEvent, all_writes, sse_header, sse_handler, to_event}
use service_template.Sse.Wire.{
  wire, all_writes-runes, put_all, answer_calls-writes, final_status, put_all-parts,
}

-- The first field of this name, or "".
abbrev pub get_field : String → List (String × String) → String
get_field name [] = ""
get_field name (h ∷ hs) = let rest = get_field name hs in if str_eq h.0 name then h.1 else rest

-- The status of the response is 200, and a client that listens to it has each line of the events' data as a
-- message, in order, and then the end of the connection.
abbrev pub Hears : List TextEvent → Response → Type 0
Hears events x =
    (final_status x ≡ 200)
    × (start_listen (suc (length (wire x.body))) (λ n. false)
          (response_of (runes (get_field "Content-Type" x.headers))
            (record { bytes = wire x.body; breaks = false }))
        ≡ some (record {
          messages = heard_all (map to_event events);
          closed = 1;
          ending = server_closed;
        }))

module _ (same : Logger → Logger → Bool) (nil_panics : Bool) (from_nil logger : Logger)
    (id : String) (apply_all : List (Handler → Handler) → Handler → Handler)
    (apply_all-nil : (h : Handler) → apply_all [] h ≡ h)
    (apply_all-cons : (m : Handler → Handler) (ms : List (Handler → Handler)) (h : Handler)
      → apply_all (m ∷ ms) h ≡ m (apply_all ms h))
    (same-sound : (a b : Logger) → same a b ≡ true → a ≡ b) (http_error : List Call)
    (events : List TextEvent) (r : Request) (lines : List Line) where
  -- The response to a request of the events.
  abbrev pub answered : Response
  answered =
      (visible (
        apply_all (middlewares same nil_panics from_nil logger id)
          (scripted (λ _. sse_handler true http_error events) (λ _. false)) r (plain new_response)
          lines)).0

  -- The response before the writes.
  with_header : Response
  with_header = record new_response {
    headers =
        ("X-Correlation-ID", id)
        ∷ ("Content-Type", "text/event-stream")
        ∷ ("Cache-Control", "no-cache")
        ∷ ("Connection", "keep-alive")
        ∷ [];
  }

  answered-put_all : answered ≡ put_all (all_writes events) with_header
  unfolding with_header sse_handler sse_header add_field set_field without_field response
  answered-put_all =
      let calls : Request → List Call = λ _. sse_handler true http_error events in
      let made = answer_calls-writes (all_writes events) with_header in
      ap (λ x. x.0)
        (serve-visible same nil_panics from_nil logger id apply_all apply_all-nil apply_all-cons
          same-sound calls (λ _. false) r (plain new_response) lines)
      ∙ ap (λ (x : Response × List Line). x.0)
          (if-false ((sent logger id calls r (plain new_response)).1 || false) _
            (ap (λ (x : Response × Bool). x.1 || false) made))
      ∙ ap (λ (x : Response × Bool). x.0) made

  -- The handler's response behind the middlewares is 200, and a client that listens to it hears every line of the
  -- events' data, in order and without the space around it, and then the end of the connection, if no name or
  -- id of an event has a line break in it and the context of the client is not done.
  pub answered-heard : All IsEvent (map to_event events) → Hears events answered
  unfolding with_header
  answered-heard h =
      let parts = put_all-parts (all_writes events) with_header refl in
      let sent_runes = ap wire parts.0 ∙ all_writes-runes events in
      let field = ap (get_field "Content-Type") parts.1 in
      subst (Hears events) (sym answered-put_all) (
        parts.2,
        ap
              (λ b.
                start_listen (suc (length b)) (λ n. false)
                  (response_of
                    (runes
                      (get_field "Content-Type" (put_all (all_writes events) with_header).headers))
                    (record { bytes = b; breaks = false })))
              sent_runes
            ∙ ap
                (λ c.
                  start_listen (suc (length (send_all (map to_event events)))) (λ n. false)
                    (response_of (runes c)
                      (record { bytes = send_all (map to_event events); breaks = false })))
                field
            ∙ start_listen-send_all (map to_event events) [] h,
      )
