-- ===== src/Http/Middleware.antt =====
-- server/http_server.go: the middlewares, and pkg/logger.go: the logger of a context. A handler is a function
-- of the request, its writer and the log; its panic is a part of its result, since a deferred function
-- sees what was done before it. What the calls of a method of a nil `*zap.Logger` do is a parameter, and
-- so are `xid.New` and `mux.Router.Use`.
pub mod Chain
pub mod Recovery
pub mod Visible
use service_template.Base.{
  ℕ, Bool, true, false, String, str_eq, List, [], ◌∷◌, ◌++◌, Option, none, some, if◌then◌else◌,
}
use service_template.Http.Writer.{
  Response, Writer, add_field, new_logging_response_writer, unwrap, status_code, write_header,
  on_response,
}

-- A logger, with the fields that `With` gave it.
pub record Logger : Type 0 where
  pub name : String
  pub fields : List (String × String)

-- What of a request, and of its context, the program reads.
pub record Request : Type 0 where
  pub method : String
  pub request_uri : String
  pub user_agent : String
  pub logger : Option Logger
  pub correlation_id : Option String

-- A line of the log: that of `LoggingMiddleware`, that of `RecoverMiddleware`, and those of a handler.
pub data Line : Type 0 where
  completed :
      (fields : List (String × String)) (method url user_agent : String) (status_code : ℕ) → Line
  recovered : Line
  other : String → Line

pub record Served : Type 0 where
  pub writer : Writer
  pub lines : List Line
  pub panics : Bool

abbrev pub Handler : Type 0
Handler = Request → Writer → List Line → Served

unfoldable pub logger_from_ctx : Request → Option Logger
logger_from_ctx r = r.logger

-- `LoggerWithCtx`, where `same` says whether two pointers to loggers are the same.
unfoldable pub logger_with_ctx : (Logger → Logger → Bool) → Logger → Request → Request
logger_with_ctx same l r = elim r.logger [
  | none ↦ record r { logger = some l }
  | some lp ↦ if same lp l then r else record r { logger = some l }
]

unfoldable pub logger_context_middleware : (Logger → Logger → Bool) → Logger → Handler → Handler
logger_context_middleware same logger next r w lines =
    let s = next (logger_with_ctx same logger r) (new_logging_response_writer w) lines in
    record s { writer = unwrap s.writer }

-- `LoggingMiddleware` from the logger of the context on.
unfoldable pub logging_with : (Logger → Logger → Bool) → String → Logger → Handler → Handler
logging_with same id logger next r w lines =
    let l = record logger { fields = logger.fields ++ ("correlation_id", id) ∷ [] } in
    let s =
      next (logger_with_ctx same l (record r { correlation_id = some id }))
        (new_logging_response_writer (on_response (add_field "X-Correlation-ID" id) w)) lines in
    record {
      writer = unwrap s.writer;
      lines =
          s.lines
          ++ completed l.fields r.method r.request_uri r.user_agent (status_code s.writer) ∷ [];
      panics = s.panics;
    }

-- `nil_panics` says whether a method of a nil logger panics, and `from_nil` is the logger that its `With`
-- answers if not; `id` is what `xid.New` gives.
unfoldable pub logging_middleware :
    (Logger → Logger → Bool) → Bool → Logger → String → Handler → Handler
logging_middleware same nil_panics from_nil id next r w lines = elim (logger_from_ctx r) [
  | some logger ↦ logging_with same id logger next r w lines
  | none ↦
      if nil_panics
      then record { writer = w; lines = lines; panics = true }
      else logging_with same id from_nil next r w lines
]

-- The deferred function of `RecoverMiddleware` after a panic.
unfoldable pub recover_panic : Bool → Option Logger → Served → Served
recover_panic nil_panics logger s =
    let answer = write_header 500 s.writer in
    let done : Served = record {
      writer = answer.0;
      lines = s.lines ++ recovered ∷ [];
      panics = answer.1;
    } in
    elim logger [
      | some l ↦ done
      | none ↦ if nil_panics then record s { panics = true } else record done { lines = s.lines }
    ]

unfoldable pub recover_middleware : Bool → Handler → Handler
recover_middleware nil_panics next r w lines =
    let s = next r w lines in if s.panics then recover_panic nil_panics (logger_from_ctx r) s else s

-- The middlewares of every server of the programs, in their order.
unfoldable pub middlewares :
    (Logger → Logger → Bool) → Bool → Logger → Logger → String → List (Handler → Handler)
middlewares same nil_panics from_nil logger id =
    logger_context_middleware same logger
    ∷ recover_middleware nil_panics
    ∷ logging_middleware same nil_panics from_nil id
    ∷ []
