-- ===== src/Http/Middleware/Chain.antt =====
-- The chain of the middlewares, the context of a request behind it, and the status 500.
use service_template.Base.{
  Bool, true, false, String, List, [], ◌∷◌, none, some, if◌then◌else◌, ◌≡◌, refl, ap, ◌∙◌,
  Option-cases, if-branches, inl, inr,
}
use service_template.Http.Writer.{
  Response, Writer, plain, logging, decide_status, is_informational, unwrap, write_header, response,
}
use service_template.Http.Writer.Script.{seen-write_header}
use service_template.Http.Middleware.{
  Logger, Request, Handler, logger_with_ctx, logger_context_middleware, logging_middleware,
  recover_middleware, middlewares,
}

pub response-unwrap : (w : Writer) → response (unwrap w) ≡ response w
unfolding unwrap response
response-unwrap (plain r) = refl
response-unwrap (logging w code) = refl

decide_status-500 : (r : Response) → (decide_status 500 r).1 ≡ false
unfolding decide_status is_informational
decide_status-500 r = elim (Option-cases r.status) [ inl e ↦ rw e | inr (status, e) ↦ rw e ]

pub write_header-500 : (w : Writer) → (write_header 500 w).1 ≡ false
write_header-500 w = ap (λ p. p.1) (seen-write_header 500 w) ∙ decide_status-500 (response w)

module _ (same : Logger → Logger → Bool) (nil_panics : Bool) (from_nil logger : Logger)
    (id : String) (apply_all : List (Handler → Handler) → Handler → Handler)
    (apply_all-nil : (h : Handler) → apply_all [] h ≡ h)
    (apply_all-cons : (m : Handler → Handler) (ms : List (Handler → Handler)) (h : Handler)
      → apply_all (m ∷ ms) h ≡ m (apply_all ms h)) where
  pub chain :
      (h : Handler)
      → apply_all (middlewares same nil_panics from_nil logger id) h
        ≡ logger_context_middleware same logger
            (recover_middleware nil_panics (logging_middleware same nil_panics from_nil id h))
  unfolding middlewares
  chain h =
      apply_all-cons _ _ h
      ∙ ap (logger_context_middleware same logger) (
          apply_all-cons _ _ h
          ∙ ap (recover_middleware nil_panics) (
              apply_all-cons _ _ h
              ∙ ap (logging_middleware same nil_panics from_nil id) (apply_all-nil h)))

module _ (same : Logger → Logger → Bool)
    (same-sound : (a b : Logger) → same a b ≡ true → a ≡ b) where
  logger_with_ctx-none :
      (l : Logger) (r : Request)
      → r.logger ≡ none
      → logger_with_ctx same l r ≡ record r { logger = some l }
  unfolding logger_with_ctx
  logger_with_ctx-none l r e = rw e

  logger_with_ctx-some :
      (l lp : Logger) (r : Request)
      → r.logger ≡ some lp
      → logger_with_ctx same l r ≡ (if same lp l then r else record r { logger = some l })
  unfolding logger_with_ctx
  logger_with_ctx-some l lp r e = rw e

  pub logger_with_ctx-sets :
      (l : Logger) (r : Request) → logger_with_ctx same l r ≡ record r { logger = some l }
  logger_with_ctx-sets l r = elim (Option-cases r.logger) [
    | inl e ↦ logger_with_ctx-none l r e
    | inr (lp, e) ↦
        logger_with_ctx-some l lp r e
        ∙ if-branches (λ x. x ≡ record r { logger = some l }) (same lp l)
            (λ b. ap (λ o. record r { logger = o }) (e ∙ ap some (same-sound lp l b))) (λ b. refl)
  ]
