-- ===== src/Migration/Brokers.antt =====
-- What the first call of `MigrateRabbitMq` leaves, where nothing fails and where every broker refuses.
use service_template.Base.{
  ◌≡◌, refl, ◌∙◌, sym, ap, Bool, true, false, String, str_eq, eq_iff, Option, some, List, [], ◌∷◌,
  ◌++◌, if◌then◌else◌, inl, inr, Bool-cases,
}
use mathlib.Core.List.{append-nil, append_assoc}
use service_template.Migration.{
  Operation, queue_declare, Answers, operations, run_operations, up_202412170001, set_broker,
  migrate_brokers,
}

-- What the connections add to the broker of one of them.
abbrev pub added : String → List String → List Operation
added c [] = []
added c (conn ∷ conns) = if str_eq c conn then operations ++ added c conns else added c conns

run_operations-all :
    (fails : Operation → Bool) (os before : List Operation)
    → ((o : Operation) → fails o ≡ false)
    → run_operations fails os before ≡ (true, before ++ os)
unfolding run_operations
run_operations-all fails [] before ok = ap (λ l. (true, l)) (sym (append-nil before))
run_operations-all fails (o ∷ os) before ok =
    rw (ok o, run_operations-all fails os (before ++ o ∷ []) ok)
      (ap (λ l. (true, l)) (append_assoc before (o ∷ []) os))

run_operations-refused :
    (fails : Operation → Bool) (o : Operation) (os before : List Operation)
    → fails o ≡ true
    → run_operations fails (o ∷ os) before ≡ (false, before)
unfolding run_operations
run_operations-refused fails o os before bad = rw bad

set_broker-at :
    (conn c : String) (os : List Operation) (brokers : String → List Operation)
    → set_broker conn os brokers c ≡ (if str_eq c conn then os else brokers c)
unfolding set_broker
set_broker-at conn c os brokers = refl

-- The last description.
abbrev pub described : List String → String → String → String
described [] text description = description
described (conn ∷ conns) text description = described conns text text

migrate_brokers-step :
    (a : Answers) (conn : String) (conns : List String) (description : String)
    (brokers : String → List Operation) (text : String) (os : List Operation)
    → a.channel_fails conn ≡ false
    → up_202412170001 (a.operation_fails conn) (brokers conn) ≡ (text, os)
    → migrate_brokers a (conn ∷ conns) description brokers
      ≡ migrate_brokers a conns text (set_broker conn os brokers)
unfolding migrate_brokers
migrate_brokers-step a conn conns description brokers text os ok up =
    rw (ok, migrate_brokers)
      (ap (λ u. migrate_brokers a conns u.0 (set_broker conn u.1 brokers)) up)

-- Every channel opens, and every operation is taken.
pub record Open (a : Answers) : Type 0 where
  pub channels : (c : String) → a.channel_fails c ≡ false
  pub operations_taken : (c : String) (o : Operation) → a.operation_fails c o ≡ false

-- Every channel opens, and every broker refuses the first operation.
pub record Refusing (a : Answers) : Type 0 where
  pub channels : (c : String) → a.channel_fails c ≡ false
  pub refused : (c : String) → a.operation_fails c (queue_declare "my_queue") ≡ true

up-Open :
    (a : Answers) (c : String) (os : List Operation)
    → Open a
    → up_202412170001 (a.operation_fails c) os ≡ ("Create RabbitMQ queue", os ++ operations)
unfolding up_202412170001
up-Open a c os h =
    ap (λ (r : Bool × List Operation). (if r.0 then "Create RabbitMQ queue" else "", r.1))
      (run_operations-all (a.operation_fails c) operations os (h.operations_taken c))

up-Refusing :
    (a : Answers) (c : String) (os : List Operation)
    → Refusing a
    → up_202412170001 (a.operation_fails c) os ≡ ("", os)
unfolding up_202412170001
up-Refusing a c os h =
    ap (λ (r : Bool × List Operation). (if r.0 then "Create RabbitMQ queue" else "", r.1))
      (run_operations-refused (a.operation_fails c) (queue_declare "my_queue") _ os (h.refused c))

added-step :
    (brokers : String → List Operation) (conn : String) (conns : List String) (c : String)
    → set_broker conn (brokers conn ++ operations) brokers c ++ added c conns
      ≡ brokers c ++ added c (conn ∷ conns)
unfolding set_broker
added-step brokers conn conns c = elim (Bool-cases (str_eq c conn)) [
  | inl at ↦
      let same : c ≡ conn = (eq_iff c conn).0 at in
      rw at (
        append_assoc (brokers conn) operations (added c conns)
        ∙ ap (λ d. brokers d ++ (operations ++ added c conns)) (sym same))
  | inr other ↦ rw other
]

same-step :
    (brokers : String → List Operation) (conn c : String)
    → set_broker conn (brokers conn) brokers c ≡ brokers c
unfolding set_broker
same-step brokers conn c = elim (Bool-cases (str_eq c conn)) [
  | inl at ↦ let same : c ≡ conn = (eq_iff c conn).0 at in rw at (ap brokers (sym same))
  | inr other ↦ rw other
]

-- What the loop over the connections leaves.
pub record Looped (description : String) (brokers : String → List Operation)
    (r : Option String × (String → List Operation)) : Type 0 where
  pub text : r.0 ≡ some description
  pub at : (c : String) → r.1 c ≡ brokers c

pub migrate_brokers-Open :
    (a : Answers) (conns : List String) (description : String) (brokers : String → List Operation)
    → Open a
    → Looped
        (described conns "Create RabbitMQ queue" description)
        (λ c. brokers c ++ added c conns)
        (migrate_brokers a conns description brokers)
migrate_brokers-Open a [] description brokers h =
    unfold migrate_brokers in record { text = refl; at = λ c. sym (append-nil (brokers c)) }
migrate_brokers-Open a (conn ∷ conns) description brokers h =
    let os = brokers conn ++ operations in
    let rest =
      migrate_brokers-Open a conns "Create RabbitMQ queue" (set_broker conn os brokers) h in
    let e =
      migrate_brokers-step a conn conns description brokers _ os (h.channels conn)
        (up-Open a conn (brokers conn) h) in
    record {
      text = ap (λ r. r.0) e ∙ rest.text;
      at = λ c. ap (λ r. r.1 c) e ∙ rest.at c ∙ added-step brokers conn conns c;
    }

pub migrate_brokers-Refusing :
    (a : Answers) (conns : List String) (description : String) (brokers : String → List Operation)
    → Refusing a
    → Looped (described conns "" description) brokers (migrate_brokers a conns description brokers)
migrate_brokers-Refusing a [] description brokers h =
    unfold migrate_brokers in record { text = refl; at = λ c. refl }
migrate_brokers-Refusing a (conn ∷ conns) description brokers h =
    let rest = migrate_brokers-Refusing a conns "" (set_broker conn (brokers conn) brokers) h in
    let e =
      migrate_brokers-step a conn conns description brokers _ _ (h.channels conn)
        (up-Refusing a conn (brokers conn) h) in
    record {
      text = ap (λ r. r.0) e ∙ rest.text;
      at = λ c. ap (λ r. r.1 c) e ∙ rest.at c ∙ same-step brokers conn c;
    }
