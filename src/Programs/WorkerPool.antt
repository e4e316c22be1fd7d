-- ===== src/Programs/WorkerPool.antt =====
-- cmd/custom_worker_pool/main.go: what the main function asks of its pool, and the handler of the workers.
pub mod Stores
mod Calls
mod Examples
use Prim.Native.String.{◌++◌ as str_append, slice}
use service_template.Base.{
  ℕ, zero, suc, ◌+◌, ◌*◌, ◌/◌, ◌%◌, ◌≡◌, refl, sym, ap, ◌∙◌, Bool, true, false, not, ◌&&◌, String,
  str_eq, eq_iff, Option, none, some, List, [], ◌∷◌, ◌++◌, arith, ◌==◌, ltb, if◌then◌else◌, pos,
  Bool-cases, inl, inr, All,
}
use mathlib.Core.Path.{subst}
use service_template.Pool.{Pool, new_pool_store, Reach, ready, here}
use service_template.Pool.Invariant.{weigh, weigh-append}
use service_template.Pool.Safety.{stopped-handled}
use service_template.Pool.Replay.{replay, total, Handled, Reach-Handled, Reach-trans}
use service_template.Store.{
  MemStore, new_mem_store, put, get, del, Command, put_command, get_command, del_command, get_key,
  get_value, factory, apply_command, handle_command,
}

-- `handler`: what it leaves in the store.
unfoldable pub pool_handler : Command → MemStore → MemStore
pool_handler c m = (handle_command c m).0

abbrev pub keys : List String
keys = "a" ∷ "b" ∷ "c" ∷ "d" ∷ "e" ∷ "f" ∷ "g" ∷ []

-- `%d` of a number, with fuel for its digits.
abbrev decimal_of : (fuel n : ℕ) → String
decimal_of zero n = ""
decimal_of (suc fuel) n =
    let front = decimal_of fuel (n / 10) in
    let digit = slice "0123456789" (n % 10) (n % 10 + 1) in
    if ltb n 10 then digit else str_append front digit

abbrev decimal : ℕ → String
decimal n = decimal_of (suc n) n

-- The commands of the loop over the keys from the index `i` on.
unfoldable pub pack_from : ℕ → List String → List Command
pack_from i [] = []
pack_from i (key ∷ ks) =
    factory (pos (i % 3)) key (str_append key (str_append "-" (decimal i))) ∷ pack_from (i + 1) ks

unfoldable pub pack : List Command
unfolding pack_from factory
pack = pack_from 0 keys

-- The last call of `Apply`.
unfoldable pub last_command : Command
unfolding factory
last_command = factory (pos 0) "a" "new-a"

-- Two commands that do the same to the value of a key.
abbrev pub same_effect : Command → Command → Bool
same_effect (put_command _ v) (put_command _ v') = str_eq v v'
same_effect (get_command _ _) (get_command _ _) = true
same_effect (del_command _ _) (del_command _ _) = true
same_effect _ _ = false

-- What a command does to the value of its key.
abbrev pub effect : Command → Option String → Option String
effect (put_command _ v) old = some v
effect (get_command _ _) old = old
effect (del_command _ _) old = none

-- The store at the end of a pack, with the value of "a".
abbrev pub holds : String → String → Option String
holds a k =
    if str_eq k "a"
    then some a
    else if str_eq k "d"
    then some "d-3"
    else if str_eq k "g"
    then some "g-6"
    else none

-- 1 for a command on the key, and 1 for one on it that does not do what `d` does.
abbrev pub on : String → Command → ℕ
on k c = if str_eq k (get_key c) then 1 else 0

abbrev pub against : Command → String → Command → ℕ
against d k c = if str_eq k (get_key c) && not (same_effect c d) then 1 else 0

abbrev pub flip : List Command → List Command
flip [] = []
flip (c ∷ cs) = flip cs ++ c ∷ []
