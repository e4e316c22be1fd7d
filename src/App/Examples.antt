-- ===== src/App/Examples.antt =====
-- The shutdown functions of cmd/consumer/main.go, each of which notes its name, and the theorems there.
use service_template.Base.{◌≡◌, refl, String, List, [], ◌∷◌, ◌++◌, ℤ, pos}
use service_template.App.{int_le, Shutdown, insert_behind, register_shutdown, shutdown_all, stop}
use service_template.App.Stop.{register_all, Stopped, stop-Stopped}

abbrev entry : String → ℤ → Shutdown (List String)
entry name p = record { priority = p; name = name; shutdown_func = λ names. names ++ name ∷ [] }

abbrev calls : List (Shutdown (List String))
calls =
    entry "logger" (pos 101)
    ∷ entry "postgres" (pos 100)
    ∷ entry "rabbitmq" (pos 100)
    ∷ entry "publisher" (pos 9)
    ∷ entry "publisher1" (pos 9)
    ∷ entry "redis-node" (pos 100)
    ∷ entry "consumer" (pos 10)
    ∷ entry "consumer1" (pos 10)
    ∷ []

consumer_order :
    (stop (register_all calls []) []).1
    ≡ "publisher" ∷ "publisher1" ∷ "consumer" ∷ "consumer1" ∷ "postgres" ∷ "rabbitmq" ∷ "redis-node"
      ∷ "logger" ∷ []
unfolding stop shutdown_all register_shutdown insert_behind int_le
consumer_order = refl

stop-Stopped_example : Stopped calls [] (stop (register_all calls []) [])
stop-Stopped_example = stop-Stopped calls []

abbrev two : List (Shutdown (List String))
two = entry "a" (pos 1) ∷ entry "b" (pos 2) ∷ []
