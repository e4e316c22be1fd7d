-- ===== src/Http/Empty/Reply.antt =====
-- internal/http_handler/empty.go: which answer a request of /empty is to get, and the calls that send it.
use service_template.Base.{
  ℕ, Bool, false, String, List, [], ◌∷◌, ◌++◌, Option, none, some, ◌≡◌, refl, ap, ◌∙◌, Result, ok,
  err, if◌then◌else◌, inl, inr, Option-cases, Result-cases, sym, All,
}
use service_template.Http.Writer.{
  Response, decide_status, is_informational, set_field, without_field, write_body,
}
use service_template.Http.Writer.Script.{Call, answer_calls, last_code}
use service_template.Http.Middleware.{Logger, Request, logger_from_ctx}
use service_template.Http.Middleware.Visible.{enriched}
use service_template.Http.Empty.{
  EmptyRequest, Replies, deserialize, serialize, response_json, handle_body, empty_handler,
  empty_fails,
}

-- What the request is checked for, in order, with the status of the answer where the check has an error;
-- `d` is what the body decodes to.
abbrev pub checks : Replies → Result String EmptyRequest → List (Option String × ℕ)
checks a (err e) = (a.lock_error, 500) ∷ (a.unlock_error, 500) ∷ (some e, 400) ∷ []
checks a (ok empty) =
    (a.lock_error, 500)
    ∷ (a.unlock_error, 500)
    ∷ (a.context_error, 408)
    ∷ (a.validate empty, 400)
    ∷ []

-- The first check with an error, or the JSON of the object with the number of rows for its age.
abbrev pub first_error : List (Option String × ℕ) → String × ℕ → String × ℕ
first_error [] success = success
first_error ((none, code) ∷ rest) success = first_error rest success
first_error ((some e, code) ∷ rest) success = (e, code)

abbrev pub json_answer : Replies → Result String EmptyRequest → String
json_answer a (err e) = ""
json_answer a (ok empty) = (serialize a (record empty { age = a.count })).0

abbrev pub reply : Replies → String × ℕ
reply a = first_error (checks a (deserialize a)) (json_answer a (deserialize a), 200)

-- A status that the first `WriteHeader` decides for.
abbrev pub Final : ℕ → Type 0
Final code =
    (status : Option ℕ) (hs : List (String × String)) (body : List String)
    → status ≡ none
    → decide_status code (record { status = status; headers = hs; body = body })
      ≡ (record { status = some code; headers = hs; body = body }, false)

first_error-Final :
    (cs : List (Option String × ℕ)) (success : String × ℕ)
    → All (λ c. Final c.1) cs
    → Final success.1
    → Final (first_error cs success).1
first_error-Final [] success all last = last
first_error-Final ((none, code) ∷ cs) success all last = first_error-Final cs success all.1 last
first_error-Final ((some e, code) ∷ cs) success all last = all.0

Final-500 : Final 500
unfolding decide_status is_informational
Final-500 status hs body e = rw e

Final-408 : Final 408
unfolding decide_status is_informational
Final-408 status hs body e = rw e

Final-400 : Final 400
unfolding decide_status is_informational
Final-400 status hs body e = rw e

Final-200 : Final 200
unfolding decide_status is_informational
Final-200 status hs body e = rw e

checks-Final : (a : Replies) (d : Result String EmptyRequest) → All (λ c. Final c.1) (checks a d)
checks-Final a (err e) = (Final-500, (Final-500, (Final-400, tt)))
checks-Final a (ok empty) = (Final-500, (Final-500, (Final-408, (Final-400, tt))))

pub reply-Final : (a : Replies) → Final (reply a).1
reply-Final a =
    first_error-Final (checks a (deserialize a)) (json_answer a (deserialize a), 200)
      (checks-Final a (deserialize a)) Final-200

handle_body-reply :
    (a : Replies)
    → a.lock_error ≡ none
    → a.unlock_error ≡ none
    → handle_body a ≡ response_json (reply a).0 (reply a).1
unfolding handle_body response_json serialize
handle_body-reply a l u = elim (Result-cases (deserialize a)) [
  | inl (e, d) ↦ rw (handle_body, d, l, u)
  | inr (empty, d) ↦ elim (Option-cases a.context_error) [
    | inr (e, c) ↦ rw (handle_body, d, c, l, u)
    | inl c ↦ elim (Option-cases (a.validate empty)) [
      | inr (e, v) ↦ rw (handle_body, d, c, v, l, u)
      | inl v ↦ rw (handle_body, d, c, v, l, u)
    ]
  ]
]

reply-lock_error :
    (a : Replies) (e : String) (d : Result String EmptyRequest)
    → a.lock_error ≡ some e
    → first_error (checks a d) (json_answer a d, 200) ≡ (e, 500)
reply-lock_error a e (err x) l = rw l
reply-lock_error a e (ok x) l = rw l

reply-unlock_error :
    (a : Replies) (e : String) (d : Result String EmptyRequest)
    → a.lock_error ≡ none
    → a.unlock_error ≡ some e
    → first_error (checks a d) (json_answer a d, 200) ≡ (e, 500)
reply-unlock_error a e (err x) l u = rw (l, u)
reply-unlock_error a e (ok x) l u = rw (l, u)

module _ (nil_panics : Bool) (a : Replies) (logger : Logger) (id : String) (r : Request) where
  empty_handler-locking :
      (e : String)
      → a.lock_error ≡ some e
      → empty_handler nil_panics a (enriched logger id r) ≡ response_json e 500
  unfolding empty_handler logger_from_ctx
  empty_handler-locking e l = rw l

  empty_handler-unlocking :
      (e : String)
      → a.lock_error ≡ none
      → a.unlock_error ≡ some e
      → empty_handler nil_panics a (enriched logger id r) ≡ response_json e 500
  unfolding empty_handler logger_from_ctx
  empty_handler-unlocking e l u = rw (l, u)

  empty_handler-body :
      a.lock_error ≡ none
      → a.unlock_error ≡ none
      → empty_handler nil_panics a (enriched logger id r) ≡ handle_body a
  unfolding empty_handler logger_from_ctx
  empty_handler-body l u = simp (l, u)

  pub empty_handler-reply :
      empty_handler nil_panics a (enriched logger id r) ≡ response_json (reply a).0 (reply a).1
  empty_handler-reply =
      let answer : String × ℕ → List Call = λ x. response_json x.0 x.1 in
      elim (Option-cases a.lock_error) [
        | inr (e, l) ↦
            empty_handler-locking e l ∙ sym (ap answer (reply-lock_error a e (deserialize a) l))
        | inl l ↦ elim (Option-cases a.unlock_error) [
          | inr (e, u) ↦
              empty_handler-unlocking e l u
              ∙ sym (ap answer (reply-unlock_error a e (deserialize a) l u))
          | inl u ↦ empty_handler-body l u ∙ handle_body-reply a l u
        ]
      ]

pub answer_calls-response_json :
    (bytes : String) (code : ℕ) (r : Response)
    → r.status ≡ none
    → Final code
    → answer_calls (response_json bytes code) r ≡ (
      record {
        status = some code;
        headers =
            without_field "Content-Type" r.headers ++ ("Content-Type", "application/json") ∷ [];
        body = r.body ++ bytes ∷ [];
      },
      false,
    )
unfolding response_json set_field write_body
answer_calls-response_json bytes code r e final =
    ap (λ (p : Response × Bool). if p.1 then p else (write_body bytes p.0, false))
      (final r.status
        (without_field "Content-Type" r.headers ++ ("Content-Type", "application/json") ∷ []) r.body
        e)

pub last_code-response_json :
    (bytes : String) (code old : ℕ) (r : Response)
    → r.status ≡ none
    → Final code
    → last_code (response_json bytes code) r old ≡ code
unfolding response_json set_field
last_code-response_json bytes code old r e final =
    ap (λ (p : Response × Bool). if p.1 then code else code)
      (final r.status
        (without_field "Content-Type" r.headers ++ ("Content-Type", "application/json") ∷ []) r.body
        e)

pub empty_fails-logged :
    (nil_panics : Bool) (logger : Logger) (id : String) (r : Request)
    → empty_fails nil_panics (enriched logger id r) ≡ false
unfolding empty_fails logger_from_ctx
empty_fails-logged nil_panics logger id r = refl
