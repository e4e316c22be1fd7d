-- ===== src/Http/Middleware/Recovery.antt =====
-- server/http_server.go: no panic of a handler leaves the middlewares.
use service_template.Base.{
  Bool, true, false, String, List, [], ◌∷◌, some, ◌≡◌, ap, ◌∙◌, if-branches,
}
use service_template.Http.Writer.{Writer, new_logging_response_writer}
use service_template.Http.Middleware.{
  Logger, Request, Line, Served, Handler, logger_with_ctx, logger_context_middleware,
  logging_middleware, recover_panic, recover_middleware, middlewares, logger_from_ctx,
}
use service_template.Http.Middleware.Chain.{write_header-500, chain, logger_with_ctx-sets}

module _ (same : Logger → Logger → Bool) (nil_panics : Bool) (from_nil logger : Logger)
    (id : String) (apply_all : List (Handler → Handler) → Handler → Handler)
    (apply_all-nil : (h : Handler) → apply_all [] h ≡ h)
    (apply_all-cons : (m : Handler → Handler) (ms : List (Handler → Handler)) (h : Handler)
      → apply_all (m ∷ ms) h ≡ m (apply_all ms h))
    (same-sound : (a b : Logger) → same a b ≡ true → a ≡ b) where
  recover_panic-returns :
      (k : Logger) (s : Served) → (recover_panic nil_panics (some k) s).panics ≡ false
  unfolding recover_panic
  recover_panic-returns k s = write_header-500 s.writer

  recover_middleware-returns :
      (k : Logger) (next : Handler) (r : Request) (w : Writer) (lines : List Line)
      → r.logger ≡ some k
      → (recover_middleware nil_panics next r w lines).panics ≡ false
  unfolding recover_middleware logger_from_ctx
  recover_middleware-returns k next r w lines e =
      if-branches (λ (s : Served). s.panics ≡ false) (next r w lines).panics
        (λ b.
          ap (λ o. (recover_panic nil_panics o (next r w lines)).panics) e
          ∙ recover_panic-returns k (next r w lines))
        (λ b. b)

  logger_context_middleware-returns :
      (h : Handler) (r : Request) (w : Writer) (lines : List Line)
      → (logger_context_middleware same logger (recover_middleware nil_panics h) r w lines).panics
        ≡ false
  unfolding logger_context_middleware
  logger_context_middleware-returns h r w lines =
      recover_middleware-returns logger h (logger_with_ctx same logger r)
        (new_logging_response_writer w) lines
        (ap (λ q. q.logger) (logger_with_ctx-sets same same-sound logger r))

  -- Behind the middlewares no panic of a handler reaches net/http, whatever the handler does and
  -- whatever the context of the request has; `apply_all` puts the first middleware outermost, and two
  -- pointers to loggers that are the same have the same logger.
  pub serve-returns :
      (h : Handler) (r : Request) (w : Writer) (lines : List Line)
      → (apply_all (middlewares same nil_panics from_nil logger id) h r w lines).panics ≡ false
  serve-returns h r w lines =
      ap (λ (f : Handler). (f r w lines).panics)
        (chain same nil_panics from_nil logger id apply_all apply_all-nil apply_all-cons h)
      ∙ logger_context_middleware-returns (logging_middleware same nil_panics from_nil id h) r w
          lines
