-- ===== src/Programs/Clients.antt =====
-- cmd/http_client/main.go, cmd/sse_client/main.go and cmd/elastic/main.go: what the programs do with the answers
-- of the components that they call, up to `Run`.
use service_template.Base.{
  ◌≡◌, arith, ℕ, ◌+◌, Bool, true, false, String, Runes, List, [], ◌∷◌, ◌++◌, map, Option, none,
  some, Result, ok, err,
}
use service_template.Sse.Client.{Url, Listened, Ending, context_cancelled, server_closed}
use service_template.Elastic.{
  Response, ElasticError, SearchQuery, new_elastic_facade, index_document, search, aggregate,
}

-- What `Post` answers: the status, and the bytes up to the end of the body or an error.
pub record Posted : Type 0 where
  pub status : String
  pub body : String
  pub read_error : Option String

-- A line that is logged, or printed.
pub data Line : Type 0 where
  send_failed : String → Line
  read_failed_of : String → Line
  status_line : String → Line
  body_line : String → Line

-- `ResolveReference` of a reference with the path alone.
unfoldable pub resolve_path : String → Url → Url
resolve_path path base = record base { path = path }

-- `Do`: where `Post` has an error the response is nil, and `resp.Body` panics.
unfoldable pub do_request : (Url → Result String Posted) → Url → List Line → List Line × Bool
do_request post base lines = elim (post (resolve_path "/empty" base)) [
  | err e ↦ (lines ++ send_failed e ∷ [], true)
  | ok p ↦ (
    lines
        ++ (elim p.read_error as (λ x. List Line) [ none ↦ [] | some e ↦ read_failed_of e ∷ [] ])
        ++ status_line p.status ∷ body_line p.body ∷ [],
    false,
  )
]

-- The requests of `main` over the two connections; the second is made only if the first did not panic.
unfoldable pub http_client_main : (first second : Url → Result String Posted) → List Line × Bool
http_client_main first second =
    let one =
      do_request first (record { scheme = "http"; host = "localhost:8081"; path = "" }) [] in
    let both =
      do_request second (record { scheme = "https"; host = "localhost:8080"; path = "" }) one.0 in
    elim one.1 [ true ↦ one | false ↦ both ]

-- The lines that `listen` of the client of the events logs.
pub data SseLine : Type 0 where
  got_message : Runes → SseLine
  listen_error : Ending → SseLine
  was_stopped : SseLine

-- Whether `StartListen` returns an error.
unfoldable pub is_error : Ending → Bool
is_error context_cancelled = true
is_error server_closed = false
is_error _ = true

unfoldable pub listen_lines : Listened → List SseLine
listen_lines l = map got_message l.messages ++ elim (is_error l.ending) as (λ b. List SseLine) [
  | true ↦ listen_error l.ending ∷ was_stopped ∷ []
  | false ↦ was_stopped ∷ []
]

-- How `main` of the search program ends before `Run`, with the step whose error `Fatal` logs; or it has printed
-- the aggregation and runs. Beside it stands how often the body of a response was closed.
pub data Searched : Type 0 where
  create_failed : ElasticError → Searched
  index_failed : ElasticError → Searched
  search_failed : ElasticError → Searched
  aggregate_failed : ElasticError → Searched
  format_failed : String → Searched
  running : (printed : String) → Searched

-- `marshal_doc` and `marshal` are `json.Marshal` of the document and of a query, `send_doc` and `send` the
-- requests of the client.
module _ {A D Q : Type 0} where
  unfoldable pub elastic_main :
      (client : Option String) (info : Result String (Response Bool))
      → (marshal_doc : D → Result String String)
      → (send_doc : String → String → String → Result String (Response A))
      → (marshal : SearchQuery Q → Result String String)
      → (send : String → String → Result String (Response A))
      → (marshal_indent : A → Result String String) → D
      → (query aggregation : Q) → Searched × ℕ
  elastic_main client info marshal_doc send_doc marshal send marshal_indent doc query aggregation =
      let created = new_elastic_facade client info in
      let indexed = index_document marshal_doc send_doc "test-index" "2" doc in
      let found = search marshal send "test-index" query in
      let aggregated = aggregate marshal send "test-index" aggregation in
      elim created.0 [
        | err e ↦ (create_failed e, created.1)
        | ok es ↦ elim indexed.0 [
          | some e ↦ (index_failed e, created.1 + indexed.1)
          | none ↦ elim found.0 [
            | err e ↦ (search_failed e, created.1 + indexed.1 + found.1)
            | ok m ↦ elim aggregated.0 [
              | err e ↦ (aggregate_failed e, created.1 + indexed.1 + found.1 + aggregated.1)
              | ok result ↦ (
                (elim (marshal_indent result) as (λ x. Searched) [
                  | err e ↦ format_failed e
                  | ok json ↦ running json
                ]),
                created.1 + indexed.1 + found.1 + aggregated.1,
              )
            ]
          ]
        ]
      ]

  -- When the program runs, it has closed the body of each of its four responses.
  elastic_main-running :
      (client : Option String) (info : Result String (Response Bool))
      (marshal_doc : D → Result String String)
      (send_doc : String → String → String → Result String (Response A))
      (marshal : SearchQuery Q → Result String String)
      (send : String → String → Result String (Response A))
      (marshal_indent : A → Result String String) (doc : D) (query aggregation : Q) {json : String}
      {closed : ℕ}
      → elastic_main client info marshal_doc send_doc marshal send marshal_indent doc query
          aggregation
        ≡ (running json, closed)
      → closed ≡ 4
  unfolding elastic_main new_elastic_facade index_document search aggregate
  elastic_main-running client info marshal_doc send_doc marshal send marshal_indent doc query
        aggregation e =
      ground arith
