-- ===== src/Consumer.antt =====
-- internal/consumer and pkg/rabbit_mq.go: the handlers of a delivery and of a returned message, and the
-- registration of publishers and consumers. What the client of RabbitMQ, encoding/json and PostgreSQL
-- answer is given.
pub mod Delivery
pub mod Push
use service_template.Base.{
  ℕ, Bool, true, false, String, List, [], ◌∷◌, Option, none, some, if◌then◌else◌, Result, ok, err,
  Outcome, returned, panicked, index_items,
}

-- What a handler of a delivery answers the broker.
pub data Action : Type 0 where
  ack : Action

-- What `WaitContext` of a confirmation answers: whether the broker confirmed, and an error.
pub record Confirmation : Type 0 where
  pub confirmed : Bool
  pub error : Option String

-- What `BlankConsumer` logs.
pub data Line : Type 0 where
  failed_to_publish : String → Line
  not_confirmed_yet : Line
  wait_error : String → Line
  confirmed_line : Line
  not_confirmed : Line
  consumed : String → Line

-- `confirms[0]` with the call of its method, which a nil pointer does not have.
unfoldable pub wait_first : List (Option Confirmation) → Outcome Confirmation
wait_first [] = panicked
wait_first (none ∷ confirms) = panicked
wait_first (some c ∷ confirms) = returned c

unfoldable pub is_missing : List (Option Confirmation) → Bool
is_missing [] = true
is_missing (none ∷ confirms) = true
is_missing (some c ∷ confirms) = false

unfoldable pub error_line : (String → Line) → Option String → List Line → List Line
error_line line none lines = lines
error_line line (some e) lines = line e ∷ lines

-- `BlankConsumer`: what it logs and answers. `error` and `confirms` are what the publisher returns.
unfoldable pub blank_consumer :
    (error : Option String) (confirms : List (Option Confirmation)) (body : String)
    → List Line × Outcome Action
blank_consumer error confirms body =
    let waited = wait_first confirms in
    let first : List Line = if is_missing confirms then not_confirmed_yet ∷ [] else [] in
    elim waited [
      | panicked ↦ (error_line failed_to_publish error first, panicked)
      | returned c ↦ (
        error_line failed_to_publish error (
            error_line wait_error c.error
              ((if c.confirmed then confirmed_line else not_confirmed) ∷ consumed body ∷ [])),
        returned ack,
      )
    ]

-- A returned message, as pkg/rabbit_mq.go keeps it; its headers and its time are texts.
pub record Return : Type 0 where
  pub reply_code : ℕ
  pub reply_text : String
  pub exchange : String
  pub routing_key : String
  pub content_type : String
  pub content_encoding : String
  pub headers : String
  pub delivery_mode : ℕ
  pub priority : ℕ
  pub correlation_id : String
  pub reply_to : String
  pub expiration : String
  pub message_id : String
  pub timestamp : String
  pub message_type : String
  pub user_id : String
  pub app_id : String
  pub body : String

-- `HandleFailedMessageFromRabbitServer`: the row that is inserted and what is returned. `marshal` is
-- `json.Marshal`, and `query_fails` says whether `NamedQuery` has an error, with which its rows are nil
-- and their `Close` panics.
unfoldable pub handle_failed_message :
    (Return → Result String String)
    → (query_fails : Bool) → Return
    → Option String × Outcome (Option String)
handle_failed_message marshal query_fails ret = elim (marshal ret) [
  | err e ↦ (none, returned (some e))
  | ok json ↦ if query_fails then (none, panicked) else (some json, returned none)
]

-- `RegisterPublisher` and `RegisterConsumer`: what the library makes, or the end of the program.
unfoldable pub register_publisher {ℓ} :
    {P : Type ℓ} → Result String P → (notified : P → P) → Outcome P
register_publisher (err e) notified = panicked
register_publisher (ok p) notified = returned (notified p)

unfoldable pub register_consumer {ℓ} : {C : Type ℓ} → Result String C → Outcome C
register_consumer (err e) = panicked
register_consumer (ok c) = returned c

-- What the goroutine of a route in `Run` logs: an error of the consumer or its panic, which it recovers.
unfoldable pub run_route : Outcome (Option String) → Option String
run_route (returned none) = none
run_route (returned (some e)) = some e
run_route panicked = some "Recovered in f"
