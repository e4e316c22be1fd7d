-- ===== src/Sse/EndToEnd/Examples.antt =====
-- The three events of cmd/sse_server/main.go, and what a client has of them.
use service_template.Base.{Bool, true, false, runes, List, [], ◌∷◌, none, ◌≡◌, refl, map}
use service_template.Http.Middleware.{Logger, Request, Handler}
use service_template.Sse.Text.{is_space}
use service_template.Sse.RoundTrip.{heard_all}
use service_template.Sse.Handler.{sse_events, to_event}
use service_template.Sse.EndToEnd.{Hears, answered, answered-heard}

abbrev logger : Logger
logger = record { name = "sse-server"; fields = [] }

abbrev never_the_same : Logger → Logger → Bool
never_the_same a b = false

never_the_same-sound : (a b : Logger) → never_the_same a b ≡ true → a ≡ b
never_the_same-sound a b e = cc

abbrev apply_in_order : List (Handler → Handler) → Handler → Handler
apply_in_order [] h = h
apply_in_order (m ∷ ms) h = m (apply_in_order ms h)

abbrev request : Request
request = record {
  method = "GET";
  request_uri = "/events";
  user_agent = "test";
  logger = none;
  correlation_id = none;
}

test_heard :
    heard_all (map to_event sse_events)
    ≡ runes "{'message': 'Привет, мир!'}"
      ∷ runes "Первая строка Вторая строка Третья строка"
      ∷ runes "Событие без имени (onmessage)"
      ∷ []
unfolding sse_events is_space
test_heard = refl

answered-heard_example : Hears sse_events (
    answered never_the_same true logger logger "id" apply_in_order
      (λ h. refl)
      (λ m ms h. refl)
      never_the_same-sound
      []
      sse_events
      request
      [])
unfolding sse_events
answered-heard_example =
    answered-heard never_the_same true logger logger "id" apply_in_order (λ h. refl)
      (λ m ms h. refl) never_the_same-sound [] sse_events request []
      (
        ((refl, (refl, (refl, (refl, (refl, tt))))), (refl, tt)),
        (((refl, (refl, (refl, (refl, tt)))), (refl, tt)), ((tt, (refl, tt)), tt)),
      )
