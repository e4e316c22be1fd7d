-- ===== src/Sse/Client.antt =====
-- server/http_client.go: the transport to one host and `StartListen`. What net/http answers is a parameter.
use service_template.Base.{
  ℕ, zero, suc, Bool, true, false, Runes, runes, List, [], ◌∷◌, ◌++◌, Option, none, some,
  if◌then◌else◌, Result, err, String,
}
use service_template.Sse.Text.{trim_space, cut_prefix, read_string}

pub record Url : Type 0 where
  pub scheme : String
  pub host : String
  pub path : String

-- `singleHostRoundTripper.RoundTrip`: the transport's answer to a request of the host, and else an error
-- that names the request's host. `print` is `URL.String`, and `equal_fold` is `strings.EqualFold`.
unfoldable pub round_trip {ℓ} :
    {A : Type ℓ} (print : Url → String) (equal_fold : String → String → Bool)
    → (host : Url) → (transport : Url → Result String A) → Url
    → Result String A
round_trip print equal_fold host transport url =
    let domain : Url = record { scheme = url.scheme; host = url.host; path = "" } in
    if equal_fold (print domain) (print host) then transport url else err url.host

-- What the server sends after its header: the bytes, and then its end or an error.
pub record Body : Type 0 where
  pub bytes : Runes
  pub breaks : Bool

-- What net/http answers to the request: the content type and the body.
pub data Reply : Type 0 where
  bad_request : Reply
  no_response : Reply
  response_of : (content_type : Runes) → Body → Reply

pub data Ending : Type 0 where
  request_failed : Ending
  do_failed : Ending
  unexpected_content_type : Runes → Ending
  context_cancelled : Ending
  server_closed : Ending
  read_failed : Ending

-- What `StartListen` comes to: the messages that `onData` had, how often it closed the response's body,
-- and what it returns.
pub record Listened : Type 0 where
  pub messages : List Runes
  pub closed : ℕ
  pub ending : Ending

-- What a line adds to the messages.
unfoldable pub on_line : Runes → List Runes → List Runes
on_line line messages = elim (cut_prefix (runes "data:") (trim_space line)) [
  | none ↦ messages
  | some rest ↦ messages ++ trim_space rest ∷ []
]

-- The loop, with fuel; `done` says at which of its turns the context is done. Where no newline is left the
-- rest of the bytes is not looked at.
unfoldable pub listen : (fuel turn : ℕ) → (ℕ → Bool) → Bool → Runes → List Runes → Option Listened
listen zero turn done breaks bytes messages = none
listen (suc fuel) turn done breaks bytes messages =
    let ended : Ending → Option Listened =
      λ e. some (record { messages = messages; closed = 1; ending = e }) in
    elim (done turn) [
      | true ↦ ended context_cancelled
      | false ↦ elim (read_string bytes) [
        | none ↦ ended (if breaks then read_failed else server_closed)
        | some l ↦ listen fuel (suc turn) done breaks l.1 (on_line l.0 messages)
      ]
    ]

abbrev pub unlistened : ℕ → Ending → Listened
unlistened closed ending = record { messages = []; closed = closed; ending = ending }

unfoldable pub start_listen : ℕ → (ℕ → Bool) → Reply → Option Listened
start_listen fuel done bad_request = some (unlistened 0 request_failed)
start_listen fuel done no_response = some (unlistened 0 do_failed)
start_listen fuel done (response_of content_type body) =
    elim (cut_prefix (runes "text/event-stream") content_type) [
      | none ↦ some (unlistened 1 (unexpected_content_type content_type))
      | some rest ↦ listen fuel 0 done body.breaks body.bytes []
    ]
