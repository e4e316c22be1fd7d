-- ===== src/Container.antt =====
-- container/dig.go: the containers that the programs of cmd/ are built with. go.uber.org/dig is a
-- parameter, `Dig`. What a constructor does when it is called is not modelled: a provider has the type
-- it provides, the types it takes, and the literals that it hands on.
pub mod Keys
pub mod Builders
pub mod Order
pub mod Resolve
mod Examples
use service_template.Base.{
  ℕ, Bool, true, false, String, Option, none, some, List, [], ◌∷◌, ◌++◌, ◌≡◌, ◌||◌, if◌then◌else◌,
}
use service_template.Container.Keys.{Key, key_eq}

-- A literal argument.
pub data Setting : Type 0 where
  text : String → Setting
  number : ℕ → Setting
  flag : Bool → Setting

-- A constructor that is handed to `container.Provide`.
pub record Provider : Type 0 where
  pub output : Key
  pub inputs : List Key
  pub settings : List (String × Setting)

abbrev pub contains_key : Key → List Key → Bool
contains_key k [] = false
contains_key k (l ∷ ls) = key_eq k l || contains_key k ls

-- Some provider provides the key.
abbrev pub provides : Key → List Provider → Bool
provides k [] = false
provides k (p ∷ ps) = key_eq k p.output || provides k ps

-- Some provider takes the key.
abbrev pub takes : Key → List Provider → Bool
takes k [] = false
takes k (p ∷ ps) = contains_key k p.inputs || takes k ps

-- What dig documents of `New` and `Provide`: a container holds its providers; a second provider for a
-- type and name is an error; a provider that is the first for its key and closes no cycle, since
-- neither it nor a provider before it takes what it provides, is added.
pub record Dig : Type 1 where
  pub Container : Type 0
  pub new : Container
  pub provide : Provider → Container → Option Container
  pub providers : Container → List Provider
  pub providers-new : providers new ≡ []
  pub provide-twice :
      (p : Provider) (c : Container) → provides p.output (providers c) ≡ true → provide p c ≡ none
  pub provide-first :
      (p : Provider) (c : Container)
      → provides p.output (providers c) ≡ false
      → takes p.output (providers c) ≡ false
      → contains_key p.output p.inputs ≡ false
      → (c' : Container) × (provide p c ≡ some c') × (providers c' ≡ providers c ++ p ∷ [])

-- `err = container.Provide(…)`, with `log.Fatalf` for an error or without.
pub data Step : Type 0 where
  must : Provider → Step
  attempt : Provider → Step

-- The steps of a builder on a container; `none` where `log.Fatalf` ends the program.
unfoldable pub run_steps : (dig : Dig) → List Step → dig.Container → Option dig.Container
run_steps dig [] c = some c
run_steps dig (must p ∷ steps) c = elim (dig.provide p c) [
  | none ↦ none
  | some c' ↦ run_steps dig steps c'
]
run_steps dig (attempt p ∷ steps) c = elim (dig.provide p c) [
  | none ↦ run_steps dig steps c
  | some c' ↦ run_steps dig steps c'
]

unfoldable pub build : (dig : Dig) → List Step → Option dig.Container
build dig steps = run_steps dig steps dig.new
