-- ===== src/Http/Writer.antt =====
-- server/http_server.go: `loggingResponseWriter`, around the response that net/http keeps.
pub mod Script
use service_template.Base.{
  ℕ, Bool, true, false, ◌||◌, ltb, ◌==◌, not, ◌&&◌, String, str_eq, List, [], ◌∷◌, ◌++◌, Option,
  none, some, if◌then◌else◌, Result, ok, err,
}

-- A response of net/http: the status line, once it is decided, the header fields and the body.
pub record Response : Type 0 where
  pub status : Option ℕ
  pub headers : List (String × String)
  pub body : List String

-- A status of 1xx other than 101 is sent at once and decides nothing.
unfoldable pub is_informational : ℕ → Bool
is_informational code = ltb code 200 && not (code == 101)

-- `WriteHeader` of net/http, and whether it panics: the first call decides, and a status that has not
-- three digits is a panic.
unfoldable pub decide_status : ℕ → Response → Response × Bool
decide_status code r = elim r.status [
  | some status ↦ (r, false)
  | none ↦
      if ltb code 100 || ltb 999 code
      then (r, true)
      else if is_informational code
      then (r, false)
      else (record r { status = some code }, false)
]

-- `Write` of net/http, which decides for 200 where nothing is decided.
unfoldable pub write_body : String → Response → Response
write_body bytes r = record {
  status = elim r.status [ none ↦ some 200 | some status ↦ some status ];
  headers = r.headers;
  body = r.body ++ bytes ∷ [];
}

unfoldable pub without_field : String → List (String × String) → List (String × String)
without_field name [] = []
without_field name (h ∷ hs) =
    if str_eq h.0 name then without_field name hs else h ∷ without_field name hs

unfoldable pub add_field : String → String → Response → Response
add_field name value r = record r { headers = r.headers ++ (name, value) ∷ [] }

unfoldable pub set_field : String → String → Response → Response
set_field name value r = record r { headers = without_field name r.headers ++ (name, value) ∷ [] }

-- The `http.ResponseWriter` that a handler has: the response, or a `loggingResponseWriter` around one.
pub data Writer : Type 0 where
  plain : Response → Writer
  logging : Writer → (status_code : ℕ) → Writer

-- `newLoggingResponseWriter`
unfoldable pub new_logging_response_writer : Writer → Writer
new_logging_response_writer w = logging w 200

-- The field `ResponseWriter`; the response has none.
unfoldable pub unwrap : Writer → Writer
unwrap (plain r) = plain r
unwrap (logging w code) = w

unfoldable pub status_code : Writer → ℕ
status_code (plain r) = 200
status_code (logging w code) = code

unfoldable pub write_header : ℕ → Writer → Writer × Bool
write_header code (plain r) = let d = decide_status code r in (plain d.0, d.1)
write_header code (logging w old) =
    let inner = write_header code w in (logging inner.0 code, inner.1)

-- What the other methods do with the response: `Header` and `Write` go through.
unfoldable pub on_response : (Response → Response) → Writer → Writer
on_response f (plain r) = plain (f r)
on_response f (logging w code) = logging (on_response f w) code

unfoldable pub write : String → Writer → Writer
write bytes w = on_response (write_body bytes) w

unfoldable pub response : Writer → Response
response (plain r) = r
response (logging w code) = response w

-- `Hijack`, of a writer for which `hijacker` says whether the response has the method, and `taken` what
-- the method answers.
unfoldable pub hijack {ℓ} : {A : Type ℓ} → Bool → Result String A → Writer → Result String A
hijack hijacker taken (plain r) = taken
hijack hijacker taken (logging (plain r) code) =
    if hijacker then taken else err "the ResponseWriter does not implement http.Hijacker"
hijack hijacker taken (logging (logging w inner) code) = hijack hijacker taken (logging w inner)

-- `Flush`, and whether it reaches the response; `flusher` says whether that has the method.
unfoldable pub flush : Bool → Writer → Bool
flush flusher (plain r) = flusher
flush flusher (logging w code) = flush flusher w
