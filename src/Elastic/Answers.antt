-- ===== src/Elastic/Answers.antt =====
-- pkg/elastic.go: when a search has a result.
use service_template.Base.{ℕ, true, false, String, if◌then◌else◌, Result, ok, err, ◌≡◌}
use service_template.Elastic.{
  Response, ElasticError, marshal_error, do_error, status_error, decode_error,
}

module _ {A : Type 0} where
  -- What a call may come to, with how often it closed a body: an error of the query or of the request,
  -- where there is no body; an error of the response, by its status or in its body; or what its body
  -- decodes to.
  pub data Answered (marshalled : Result String String) (send : String → Result String (Response A))
      : Result ElasticError A × ℕ → Type 0 where
    query_refused :
        {e : String} → marshalled ≡ err e → Answered marshalled send (err (marshal_error e), 0)
    request_refused :
        (json : String) {e : String}
        → marshalled ≡ ok json
        → send json ≡ err e
        → Answered marshalled send (err (do_error e), 0)
    status_refused :
        (json : String) (res : Response A)
        → marshalled ≡ ok json
        → send json ≡ ok res
        → res.is_error ≡ true
        → Answered marshalled send (err (status_error res.body), 1)
    body_refused :
        (json : String) (res : Response A) {e : String}
        → marshalled ≡ ok json
        → send json ≡ ok res
        → res.is_error ≡ false
        → res.decoded ≡ err e
        → Answered marshalled send (err (decode_error e), 1)
    found_result :
        (json : String) (res : Response A) {found : A}
        → marshalled ≡ ok json
        → send json ≡ ok res
        → res.is_error ≡ false
        → res.decoded ≡ ok found
        → Answered marshalled send (ok found, 1)

  -- The steps behind a response.
  abbrev decode : Response A → Result ElasticError A
  decode res =
      if res.is_error
      then err (status_error res.body)
      else elim res.decoded [ err e ↦ err (decode_error e) | ok found ↦ ok found ]

  -- The steps behind the marshalled query.
  abbrev exchange :
      Result String String → (String → Result String (Response A)) → Result ElasticError A × ℕ
  exchange marshalled send = elim marshalled [
    | err e ↦ (err (marshal_error e), 0)
    | ok json ↦ elim (send json) [ err e ↦ (err (do_error e), 0) | ok res ↦ (decode res, 1) ]
  ]
