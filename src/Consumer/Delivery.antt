-- ===== src/Consumer/Delivery.antt =====
-- internal/consumer: which deliveries are acknowledged.
use service_template.Base.{
  true, false, String, List, [], ◌∷◌, Option, none, some, Outcome, returned, panicked, ◌≡◌, refl,
}
use service_template.Consumer.{Action, ack, Confirmation, is_missing, blank_consumer, wait_first}

-- A delivery is acknowledged where the publisher returns a first confirmation, whatever it says and
-- whatever error there was; without one the handler panics.
pub blank_consumer-acknowledges :
    (error : Option String) (confirms : List (Option Confirmation)) (body : String)
    → (blank_consumer error confirms body).1
      ≡ (elim (is_missing confirms) as (λ b. Outcome Action) [
        | true ↦ panicked
        | false ↦ returned ack
      ])
unfolding blank_consumer wait_first is_missing
blank_consumer-acknowledges error [] body = refl
blank_consumer-acknowledges error (none ∷ confirms) body = refl
blank_consumer-acknowledges error (some c ∷ confirms) body = refl
