-- ===== src/Http/Middleware/Visible.antt =====
-- server/http_server.go: what a client and the log see of a handler behind the middlewares.
use service_template.Base.{
  Bool, true, ◌||◌, String, List, [], ◌∷◌, ◌++◌, some, if◌then◌else◌, ◌≡◌, refl, ap, ◌∙◌, if-agree,
  pair-eq,
}
use mathlib.Core.List.{append_assoc}
use service_template.Http.Writer.{
  Response, Writer, logging, decide_status, add_field, new_logging_response_writer, on_response,
  response,
}
use service_template.Http.Writer.Script.{
  Call, run_calls, answer_calls, last_code, seen-write_header, seen-run_calls,
  status_code-run_calls, response-on_response,
}
use service_template.Http.Middleware.{
  Logger, Request, Line, completed, recovered, Served, Handler, logger_with_ctx,
  logger_context_middleware, logging_with, logging_middleware, recover_panic, recover_middleware,
  middlewares, logger_from_ctx,
}
use service_template.Http.Middleware.Chain.{response-unwrap, chain, logger_with_ctx-sets}

-- A handler that makes some calls of its writer's methods, and panics behind them if `fails` says so.
abbrev pub scripted : (Request → List Call) → (Request → Bool) → Handler
scripted calls fails r w lines =
    let done = run_calls (calls r) w in
    record { writer = done.0; lines = lines; panics = done.1 || fails r }

-- The request that a handler behind the middlewares has.
abbrev pub enriched : Logger → String → Request → Request
enriched logger id r = record r {
  logger = some (record logger { fields = logger.fields ++ ("correlation_id", id) ∷ [] });
  correlation_id = some id;
}

-- What is seen of a handler that was served.
abbrev pub visible : Served → Response × List Line
visible s = (response s.writer, s.lines)

module _ (logger : Logger) (id : String) where
  -- What a handler that makes the calls `calls` and then may panic comes to: the response, whether there
  -- was a panic, and the line of `LoggingMiddleware`.
  abbrev pub sent : (Request → List Call) → Request → Writer → Response × Bool
  sent calls r w =
      answer_calls (calls (enriched logger id r)) (add_field "X-Correlation-ID" id (response w))

  abbrev pub completed_line : (Request → List Call) → Request → Writer → Line
  completed_line calls r w =
      completed (logger.fields ++ ("correlation_id", id) ∷ []) r.method r.request_uri r.user_agent (
        last_code (calls (enriched logger id r)) (add_field "X-Correlation-ID" id (response w)) 200)

module _ (same : Logger → Logger → Bool) (nil_panics : Bool) (from_nil logger : Logger)
    (id : String) (apply_all : List (Handler → Handler) → Handler → Handler)
    (apply_all-nil : (h : Handler) → apply_all [] h ≡ h)
    (apply_all-cons : (m : Handler → Handler) (ms : List (Handler → Handler)) (h : Handler)
      → apply_all (m ∷ ms) h ≡ m (apply_all ms h))
    (same-sound : (a b : Logger) → same a b ≡ true → a ≡ b) where
  logging_with-scripted :
      (calls : Request → List Call) (fails : Request → Bool) (r : Request) (w : Writer)
      (lines : List Line)
      → let s = logging_with same id logger (scripted calls fails) r w lines in
        (visible s
          ≡ ((sent logger id calls r w).0, lines ++ completed_line logger id calls r w ∷ []))
        × (s.panics ≡ ((sent logger id calls r w).1 || fails (enriched logger id r)))
  unfolding logging_with new_logging_response_writer response
  logging_with-scripted calls fails r w lines =
      let l : Logger = record logger { fields = logger.fields ++ ("correlation_id", id) ∷ [] } in
      let q = logger_with_ctx same l (record r { correlation_id = some id }) in
      let v = on_response (add_field "X-Correlation-ID" id) w in
      let known = logger_with_ctx-sets same same-sound l (record r { correlation_id = some id }) in
      let added = response-on_response (add_field "X-Correlation-ID" id) w in
      let seen_calls =
        seen-run_calls (calls q) (logging v 200)
        ∙ ap (λ x. answer_calls (calls q) x) added
        ∙ ap (λ x. answer_calls (calls x) (add_field "X-Correlation-ID" id (response w))) known in
      (
        pair-eq (response-unwrap (run_calls (calls q) (logging v 200)).0 ∙ ap (λ p. p.0) seen_calls)
            (ap (λ code. lines ++ completed l.fields r.method r.request_uri r.user_agent code ∷ [])
              (status_code-run_calls (calls q) v 200
                ∙ ap (λ x. last_code (calls q) x 200) added
                ∙ ap (λ x. last_code (calls x) (add_field "X-Correlation-ID" id (response w)) 200)
                    known)),
        ap (λ (x : Response × Bool). x.1 || fails q) seen_calls
            ∙ ap (λ x. (sent logger id calls r w).1 || fails x) known,
      )

  recover_panic-visible :
      (s : Served)
      → visible (recover_panic nil_panics (some logger) s)
        ≡ ((decide_status 500 (response s.writer)).0, s.lines ++ recovered ∷ [])
  unfolding recover_panic
  recover_panic-visible s = pair-eq (ap (λ p. p.0) (seen-write_header 500 s.writer)) refl

  recover_middleware-visible :
      (next : Handler) (r : Request) (w : Writer) (lines : List Line) (answer : Response × Bool)
      (line : Line) (bad : Bool)
      → r.logger ≡ some logger
      → visible (next r w lines) ≡ (answer.0, lines ++ line ∷ [])
      → (next r w lines).panics ≡ bad
      → visible (recover_middleware nil_panics next r w lines) ≡ (
          if bad
          then ((decide_status 500 answer.0).0, lines ++ line ∷ recovered ∷ [])
          else (answer.0, lines ++ line ∷ []))
  unfolding recover_middleware logger_from_ctx
  recover_middleware-visible next r w lines answer line bad e v b =
      if-agree visible (next r w lines).panics bad b
        (ap (λ o. visible (recover_panic nil_panics o (next r w lines))) e
          ∙ recover_panic-visible (next r w lines)
          ∙ ap (λ (x : Response × List Line). ((decide_status 500 x.0).0, x.1 ++ recovered ∷ [])) v
          ∙ pair-eq refl (append_assoc lines (line ∷ []) (recovered ∷ [])))
        v

  logging_middleware-scripted :
      (calls : Request → List Call) (fails : Request → Bool) (r : Request) (w : Writer)
      (lines : List Line)
      → let s =
          logging_middleware same nil_panics from_nil id
            (scripted calls fails)
            (record r { logger = some logger })
            w
            lines in
        (visible s
          ≡ ((sent logger id calls r w).0, lines ++ completed_line logger id calls r w ∷ []))
        × (s.panics ≡ ((sent logger id calls r w).1 || fails (enriched logger id r)))
  unfolding logging_middleware logger_from_ctx
  logging_middleware-scripted calls fails r w lines =
      logging_with-scripted calls fails (record r { logger = some logger }) w lines

  logger_context_middleware-scripted :
      (calls : Request → List Call) (fails : Request → Bool) (r : Request) (w : Writer)
      (lines : List Line)
      → visible (
          logger_context_middleware same logger
            (recover_middleware nil_panics
              (logging_middleware same nil_panics from_nil id (scripted calls fails)))
            r
            w
            lines)
        ≡ (if (sent logger id calls r w).1 || fails (enriched logger id r)
            then (
              (decide_status 500 (sent logger id calls r w).0).0,
              lines ++ completed_line logger id calls r w ∷ recovered ∷ [],
            )
            else ((sent logger id calls r w).0, lines ++ completed_line logger id calls r w ∷ []))
  unfolding logger_context_middleware new_logging_response_writer response
  logger_context_middleware-scripted calls fails r w lines =
      let next = logging_middleware same nil_panics from_nil id (scripted calls fails) in
      let inner = logging_middleware-scripted calls fails r (logging w 200) lines in
      let s =
        recover_middleware nil_panics next (logger_with_ctx same logger r) (logging w 200) lines in
      pair-eq (response-unwrap s.writer) refl
      ∙ ap (λ q. visible (recover_middleware nil_panics next q (logging w 200) lines))
          (logger_with_ctx-sets same same-sound logger r)
      ∙ recover_middleware-visible next (record r { logger = some logger }) (logging w 200) lines
          (sent logger id calls r w) (completed_line logger id calls r w)
          ((sent logger id calls r w).1 || fails (enriched logger id r)) refl inner.0 inner.1

  -- Behind the middlewares a handler's calls come to what they come to on a plain response that has the
  -- correlation id, and a panic to the status 500 where no status was decided. One line is logged of
  -- the request, with the code of the last call of `WriteHeader`, or 200, and one more of a panic.
  pub serve-visible :
      (calls : Request → List Call) (fails : Request → Bool) (r : Request) (w : Writer)
      (lines : List Line)
      → visible (
          apply_all
            (middlewares same nil_panics from_nil logger id)
            (scripted calls fails)
            r
            w
            lines)
        ≡ (if (sent logger id calls r w).1 || fails (enriched logger id r)
            then (
              (decide_status 500 (sent logger id calls r w).0).0,
              lines ++ completed_line logger id calls r w ∷ recovered ∷ [],
            )
            else ((sent logger id calls r w).0, lines ++ completed_line logger id calls r w ∷ []))
  serve-visible calls fails r w lines =
      ap (λ (f : Handler). visible (f r w lines))
        (chain same nil_panics from_nil logger id apply_all apply_all-nil apply_all-cons
          (scripted calls fails))
      ∙ logger_context_middleware-scripted calls fails r w lines
