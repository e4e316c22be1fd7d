-- ===== src/Elastic.antt =====
-- pkg/elastic.go: `ElasticFacade`. What encoding/json and the client of Elasticsearch answer is a parameter;
-- with a result stands how often the call closed a response's body.
pub mod Answers
mod Examples
use service_template.Base.{
  ℕ, Bool, true, false, String, Option, none, some, if◌then◌else◌, Result, ok, err,
}

-- A response: whether its status is an error, its body as a text, and what the body decodes to.
pub record Response (A : Type 0) : Type 0 where
  pub is_error : Bool
  pub body : String
  pub decoded : Result String A

-- The errors that the methods add their words to.
pub data ElasticError : Type 0 where
  client_error : String → ElasticError
  marshal_error : String → ElasticError
  do_error : String → ElasticError
  status_error : String → ElasticError
  decode_error : String → ElasticError

-- The body of a request for a search: what the methods put beside the caller's part.
pub data SearchQuery (Q : Type 0) : Type 0 where
  track_total_hits : (query : Q) → SearchQuery Q
  size_zero : (aggs : Q) → SearchQuery Q

unfoldable pub new_elastic_facade :
    (client : Option String) → (info : Result String (Response Bool)) → Result ElasticError Bool × ℕ
new_elastic_facade client info = elim client [
  | some e ↦ (err (client_error e), 0)
  | none ↦ elim info [
    | err e ↦ (err (do_error e), 0)
    | ok res ↦ (if res.is_error then err (status_error res.body) else ok true, 1)
  ]
]

module _ {A D : Type 0} where
  -- `IndexDocument`; `send` is `IndexRequest.Do`, of the index, the id and the JSON.
  unfoldable pub index_document :
      (D → Result String String)
      → (String → String → String → Result String (Response A))
      → (index id : String) → D
      → Option ElasticError × ℕ
  index_document marshal send index id doc = elim (marshal doc) [
    | err e ↦ (some (marshal_error e), 0)
    | ok json ↦ elim (send index id json) [
      | err e ↦ (some (do_error e), 0)
      | ok res ↦ (if res.is_error then some (status_error res.body) else none, 1)
    ]
  ]

module _ {A Q : Type 0} where
  unfoldable pub search :
      (SearchQuery Q → Result String String)
      → (String → String → Result String (Response A))
      → (index : String) → Q
      → Result ElasticError A × ℕ
  search marshal send index query = elim (marshal (track_total_hits query)) [
    | err e ↦ (err (marshal_error e), 0)
    | ok json ↦ elim (send index json) [
      | err e ↦ (err (do_error e), 0)
      | ok res ↦ (
        if res.is_error
            then err (status_error res.body)
            else elim res.decoded [ err e ↦ err (decode_error e) | ok found ↦ ok found ],
        1,
      )
    ]
  ]

  unfoldable pub aggregate :
      (SearchQuery Q → Result String String)
      → (String → String → Result String (Response A))
      → (index : String) → Q
      → Result ElasticError A × ℕ
  aggregate marshal send index aggregation = elim (marshal (size_zero aggregation)) [
    | err e ↦ (err (marshal_error e), 0)
    | ok json ↦ elim (send index json) [
      | err e ↦ (err (do_error e), 0)
      | ok res ↦ (
        if res.is_error
            then err (status_error res.body)
            else elim res.decoded [ err e ↦ err (decode_error e) | ok found ↦ ok found ],
        1,
      )
    ]
  ]
