-- ===== src/Http/Examples.antt =====
-- The middlewares in the order that gorilla/mux documents, a handler that panics, and the theorems there.
use service_template.Base.{
  Bool, true, false, List, [], ◌∷◌, ◌++◌, none, some, ◌≡◌, refl, pos, ok, ◌||◌, if◌then◌else◌,
}
use mathlib.Core.Bool.{false≢true}
use service_template.Http.Writer.{plain, decide_status, is_informational, add_field, response}
use service_template.Http.Writer.Script.{Call}
use service_template.Http.Middleware.{Logger, Request, completed, recovered, Handler, middlewares}
use service_template.Http.Middleware.Recovery.{serve-returns}
use service_template.Http.Middleware.Visible.{
  scripted, enriched, visible, sent, completed_line, serve-visible,
}
use service_template.Http.Server.{HttpServer, create_http_server, create_https_server}
use service_template.Http.Server.Guard.{panics_of, create_servers-panics}
use service_template.Http.Empty.{Replies}
use service_template.Http.Empty.Answers.{new_response}

abbrev apply_list : List (Handler → Handler) → Handler → Handler
apply_list [] h = h
apply_list (m ∷ ms) h = m (apply_list ms h)

abbrev apply_list-cons :
    (m : Handler → Handler) (ms : List (Handler → Handler)) (h : Handler)
    → apply_list (m ∷ ms) h ≡ m (apply_list ms h)
apply_list-cons m ms h = refl

abbrev never_same : Logger → Logger → Bool
never_same a b = false

never_same_sound : (a b : Logger) → never_same a b ≡ true → a ≡ b
never_same_sound a b h = absurd (false≢true h)

abbrev logger : Logger
logger = record { name = "service"; fields = [] }

abbrev request : Request
request = record {
  method = "POST";
  request_uri = "/empty";
  user_agent = "test";
  logger = none;
  correlation_id = none;
}

-- A handler that panics before it answers.
abbrev panicking_calls : Request → List Call
panicking_calls r = []

abbrev always : Request → Bool
always r = true

abbrev panicking : Handler
panicking = scripted panicking_calls always

serve-returns_example :
    (apply_list
      (middlewares never_same true logger logger "id")
      panicking
      request
      (plain new_response)
      []).panics
    ≡ false
serve-returns_example =
    serve-returns never_same true logger logger "id" apply_list (λ h. refl) apply_list-cons
      never_same_sound panicking request (plain new_response) []

-- The client gets 500, and the line of the request says 200.
serve-visible_example :
    visible (
      apply_list
        (middlewares never_same true logger logger "id")
        panicking
        request
        (plain new_response)
        [])
    ≡ (if (sent logger "id" panicking_calls request (plain new_response)).1
          || always (enriched logger "id" request)
        then (
          (decide_status 500 (sent logger "id" panicking_calls request (plain new_response)).0).0,
          []
              ++ completed_line logger "id" panicking_calls request (plain new_response)
                ∷ recovered
                ∷ [],
        )
        else (
          (sent logger "id" panicking_calls request (plain new_response)).0,
          [] ++ completed_line logger "id" panicking_calls request (plain new_response) ∷ [],
        ))
serve-visible_example =
    serve-visible never_same true logger logger "id" apply_list (λ h. refl) apply_list-cons
      never_same_sound panicking_calls always request (plain new_response) []

logged_status_after_panic :
    completed_line logger "id" panicking_calls request (plain new_response)
    ≡ completed (("correlation_id", "id") ∷ []) "POST" "/empty" "test" 200
unfolding add_field response
logged_status_after_panic = refl

sent_status_after_panic :
    (decide_status 500 (sent logger "id" panicking_calls request (plain new_response)).0).0.status
    ≡ some 500
unfolding decide_status is_informational add_field response
sent_status_after_panic = refl

abbrev replies : Replies
replies = record {
  lock_error = none;
  unlock_error = none;
  body = ok "{}";
  unmarshal = λ body. ok (record { name = "somebody"; age = pos 30; email = "a@b.c" });
  context_error = none;
  validate = λ e. none;
  count = pos 1;
  marshal = λ e. ok e.name;
}

abbrev add_route : HttpServer Handler → HttpServer Handler
add_route s = record s { routes = panicking ∷ s.routes }

abbrev first_route : List Handler → Handler
first_route [] = panicking
first_route (h ∷ hs) = h

abbrev apply_to_routes : List (Handler → Handler) → List Handler → Handler
apply_to_routes ms routes = apply_list ms (first_route routes)

create_servers-panics_example :
    ((create_http_server apply_to_routes
        (some panicking)
        add_route
        ":80"
        (middlewares never_same true logger logger "id")
        request
        (plain new_response)
        []).panics
      ≡ panics_of (some panicking) request (plain new_response) [])
    × ((create_https_server apply_to_routes
          (some panicking)
          add_route
          ":80"
          "server.crt"
          "server.key"
          (middlewares never_same true logger logger "id")
          request
          (plain new_response)
          []).panics
        ≡ panics_of (some panicking) request (plain new_response) [])
create_servers-panics_example =
    create_servers-panics never_same true logger logger "id" apply_list (λ h. refl) apply_list-cons
      never_same_sound first_route (some panicking) add_route ":80" "server.crt" "server.key"
      request (plain new_response) [] (λ s. refl)
