-- ===== src/Store.antt =====
-- pkg/map_store.go, and the commands of pkg/worker_pool.go that act on a store: `MemStore` as the
-- function of its map, whose zero value for a missing key is "".
use service_template.Base.{
  ℕ, ◌≡◌, not, ◌&&◌, String, str_eq, Option, none, some, arith, ◌==◌, if◌then◌else◌, ℤ, pos, negsuc,
}

pub record MemStore : Type 0 where
  pub entry : String → Option String

abbrev pub new_mem_store : MemStore
new_mem_store = record { entry = λ _. none }

unfoldable pub put : String → String → MemStore → MemStore
put key value m = record { entry = λ k. if str_eq k key then some value else m.entry k }

unfoldable pub get : String → MemStore → String
get key m = elim (m.entry key) [ none ↦ "" | some v ↦ v ]

unfoldable pub del : String → MemStore → MemStore
del key m = record { entry = λ k. if str_eq k key then none else m.entry k }

-- `PutCommand`, `GetCommand` and `DelCommand`, each with its `BaseCommand`
pub data Command : Type 0 where
  put_command : (key value : String) → Command
  get_command : (key value : String) → Command
  del_command : (key value : String) → Command

unfoldable pub get_key : Command → String
get_key (put_command key value) = key
get_key (get_command key value) = key
get_key (del_command key value) = key

unfoldable pub get_value : Command → String
get_value (put_command key value) = value
get_value (get_command key value) = value
get_value (del_command key value) = value

-- `Factory`
unfoldable pub factory : ℤ → String → String → Command
factory (negsuc _) key value = put_command key value
factory (pos n) key value =
    if n == 0
    then put_command key value
    else if n == 1
    then get_command key value
    else if n == 2
    then del_command key value
    else put_command key value

-- `Command.Apply`: the store that it leaves, and what `GetCommand` prints.
unfoldable pub apply_command : Command → String → String → MemStore → MemStore × Option String
apply_command (put_command _ _) key value m = (put key value m, none)
apply_command (get_command _ _) key value m = (m, some (get key m))
apply_command (del_command _ _) key value m = (del key m, none)

-- What the worker's handler of cmd/custom_worker_pool/main.go does with a command.
unfoldable pub handle_command : Command → MemStore → MemStore × Option String
handle_command c m = apply_command c (get_key c) (get_value c) m

-- A command that `Factory` made changes the value of its own key alone: 1 leaves it and prints it, 2
-- takes it away, and every other number, the negative ones too, puts the new value there.
pub handle_command-factory :
    (n : ℕ) (key value k : String) (m : MemStore)
    → (get k (handle_command (factory (pos n) key value) m).0
        ≡ (if str_eq k key && not (n == 1) then (if n == 2 then "" else value) else get k m))
      × ((handle_command (factory (pos n) key value) m).1
          ≡ (if n == 1 then some (get key m) else none))
      × (get k (handle_command (factory (negsuc n) key value) m).0
          ≡ (if str_eq k key then value else get k m))
unfolding handle_command factory apply_command get_key get_value put get del
handle_command-factory n key value k m = (ground arith, ground arith, ground arith)
