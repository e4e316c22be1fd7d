-- ===== src/Http/Empty.antt =====
-- internal/http_handler/empty.go and pkg/serializer.go: the handler of POST /empty and the answers that it
-- writes. What etcd's mutex, the request's body, the JSON library, the validator, the context and
-- PostgreSQL answer are parameters. What the handler logs has no part in its answers.
pub mod Reply
pub mod Answers
use service_template.Base.{
  ℕ, Bool, true, false, String, List, [], ◌∷◌, Option, none, some, if◌then◌else◌, ℤ, Result, ok,
  err,
}
use service_template.Http.Writer.Script.{Call, call_write_header, call_write, call_set}
use service_template.Http.Middleware.{Request, logger_from_ctx}

pub record EmptyRequest : Type 0 where
  pub name : String
  pub age : ℤ
  pub email : String

-- What the calls of one request answer.
pub record Replies : Type 0 where
  pub lock_error : Option String
  pub unlock_error : Option String
  pub body : Result String String
  pub unmarshal : String → Result String EmptyRequest
  pub context_error : Option String
  pub validate : EmptyRequest → Option String
  pub count : ℤ
  pub marshal : EmptyRequest → Result String String

unfoldable pub deserialize : Replies → Result String EmptyRequest
deserialize a = elim a.body [ err e ↦ err e | ok body ↦ a.unmarshal body ]

-- `Serialize`, whose error comes with nil bytes.
unfoldable pub serialize : Replies → EmptyRequest → String × Option String
serialize a object = elim (a.marshal object) [ err e ↦ ("", some e) | ok json ↦ (json, none) ]

unfoldable pub response_json : String → ℕ → List Call
response_json bytes code =
    call_set "Content-Type" "application/json" ∷ call_write_header code ∷ call_write bytes ∷ []

-- `EmptyHandler` from the body on.
unfoldable pub handle_body : Replies → List Call
handle_body a = elim (deserialize a) [
  | err e ↦ response_json e 400
  | ok empty ↦ elim a.context_error [
    | some e ↦ response_json e 408
    | none ↦ elim (a.validate empty) [
      | some e ↦ response_json e 400
      | none ↦ response_json (serialize a (record empty { age = a.count })).0 200
    ]
  ]
]

-- The calls that `EmptyHandler` makes of its writer; `nil_panics` says whether a method of a nil logger
-- panics.
unfoldable pub empty_handler : Bool → Replies → Request → List Call
empty_handler nil_panics a r =
    let answer : List Call = elim a.lock_error [
      | some e ↦ response_json e 500
      | none ↦ elim a.unlock_error [ some e ↦ response_json e 500 | none ↦ handle_body a ]
    ] in
    elim (logger_from_ctx r) [ some l ↦ answer | none ↦ if nil_panics then [] else answer ]

-- Whether `EmptyHandler` panics.
unfoldable pub empty_fails : Bool → Request → Bool
empty_fails nil_panics r = elim (logger_from_ctx r) [ some l ↦ false | none ↦ nil_panics ]

-- The handler of /health in `HandlerList`
unfoldable pub health_handler : Request → List Call
health_handler r = call_write_header 200 ∷ []
