-- ===== src/App.antt =====
-- application/application.go: the shutdown functions of an `App`, in a linked list that is sorted by
-- priority. The list's nodes are never shared, so the list stands for the chain of `next` pointers.
-- The mutex makes each operation atomic. A shutdown function is a change of the world `W`.
pub mod Order
pub mod Register
pub mod Stop
pub mod Signals
mod Examples
use service_template.Base.{
  Bool, true, false, String, str_eq, List, [], ◌∷◌, not, leb, if◌then◌else◌, ℤ, pos, negsuc,
}

-- `a <= b` on Go's `int`
unfoldable pub int_le : ℤ → ℤ → Bool
int_le (pos a) (pos b) = leb a b
int_le (pos a) (negsuc b) = false
int_le (negsuc a) (pos b) = true
int_le (negsuc a) (negsuc b) = leb b a

pub record Shutdown (W : Type 0) : Type 0 where
  pub priority : ℤ
  pub name : String
  pub shutdown_func : W → W

module _ {W : Type 0} where
  -- The loop over `current.next` and the insertion behind `current`.
  unfoldable pub insert_behind : Shutdown W → List (Shutdown W) → List (Shutdown W)
  insert_behind s [] = s ∷ []
  insert_behind s (n ∷ rest) =
      if int_le n.priority s.priority then n ∷ insert_behind s rest else s ∷ n ∷ rest

  unfoldable pub register_shutdown : Shutdown W → List (Shutdown W) → List (Shutdown W)
  register_shutdown s [] = s ∷ []
  register_shutdown s (n ∷ rest) =
      if not (int_le n.priority s.priority) then s ∷ n ∷ rest else n ∷ insert_behind s rest

  -- The loop of `ShutdownByName` over `current.next`: what it leaves behind `current`.
  unfoldable pub shutdown_behind : String → List (Shutdown W) → W → List (Shutdown W) × W
  shutdown_behind name [] w = ([], w)
  shutdown_behind name (n ∷ rest) w =
      let later = shutdown_behind name rest w in
      if str_eq n.name name then (rest, n.shutdown_func w) else (n ∷ later.0, later.1)

  unfoldable pub shutdown_by_name : String → List (Shutdown W) → W → List (Shutdown W) × W
  shutdown_by_name name [] w = ([], w)
  shutdown_by_name name (n ∷ rest) w =
      let later = shutdown_behind name rest w in
      if str_eq n.name name then (rest, n.shutdown_func w) else (n ∷ later.0, later.1)

  -- `shutdownAllAndDeleteAllCanceled`, which `Stop` calls
  unfoldable pub shutdown_all : List (Shutdown W) → W → List (Shutdown W) × W
  shutdown_all [] w = ([], w)
  shutdown_all (n ∷ rest) w = shutdown_all rest (n.shutdown_func w)

  unfoldable pub stop : List (Shutdown W) → W → List (Shutdown W) × W
  stop = shutdown_all
