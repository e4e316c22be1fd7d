-- ===== src/Locator.antt =====
-- internal/container.go: the `Container` of services, and the locators that it makes. A Go map is a
-- function into options, a value of type `any` is none where it is nil. `log.Fatalf` ends the program:
-- the result is none then.
pub mod Set
mod Examples
use service_template.Base.{
  ℕ, ◌==◌, Bool, true, false, not, ◌&&◌, ◌||◌, String, str_eq, Option, none, some, List, [], ◌∷◌,
  if◌then◌else◌,
}

-- A service, by its address, and whether it implements `Сontainerized`.
pub record Service : Type 0 where
  pub address : ℕ
  pub is_containerized : Bool

pub record Container : Type 0 where
  pub services : String → Option (Option Service)
  pub requirements : String → Option (Option Service)

pub record ServiceInit : Type 0 where
  pub name : String
  pub service : Option Service

-- The locator that `SetServiceLocator` gave each service.
abbrev pub Locators : Type 0
Locators = ℕ → Option Container

abbrev pub is_bound : Option (Option Service) → Bool
is_bound none = false
is_bound (some v) = true

-- `m[key] = v`
abbrev pub bind :
    String → Option Service → (String → Option (Option Service)) → String → Option (Option Service)
bind key v m k = if str_eq k key then some v else m k

unfoldable pub set_requirements : String → Option Service → Container → Option Container
set_requirements key v c =
    if is_bound (c.requirements key)
    then none
    else some (record c { requirements = bind key v c.requirements })

abbrev pub empty_container : Container
empty_container = record { services = λ k. none; requirements = λ k. none }

-- The loop of `NewContainer`.
unfoldable pub set_all_requirements : List ServiceInit → Container → Option Container
set_all_requirements [] c = some c
set_all_requirements (v ∷ vs) c = elim (set_requirements v.name v.service c) [
  | none ↦ none
  | some c' ↦ set_all_requirements vs c'
]

unfoldable pub new_container : List ServiceInit → Option Container
new_container inits = set_all_requirements inits empty_container

unfoldable pub get_service : String → Container → Option Service
get_service key c = elim (c.services key) [ none ↦ none | some v ↦ v ]

unfoldable pub get_for_locator : String → Container → Option (Option Service)
get_for_locator key c = elim (c.services key) [ none ↦ c.requirements key | some v ↦ some v ]

unfoldable pub set_for_locator : String → Option Service → Container → Option Container
set_for_locator key v c =
    if is_bound (c.services key) then none else some (record c { services = bind key v c.services })

-- The loop of `NewServiceLocator`.
unfoldable pub fill_locator : List String → Container → Container → Option Container
fill_locator [] c local = some local
fill_locator (name ∷ names) c local = elim (get_for_locator name c) [
  | none ↦ none
  | some v ↦ elim (set_for_locator name v local) [
    | none ↦ none
    | some local' ↦ fill_locator names c local'
  ]
]

unfoldable pub new_service_locator : List String → Container → Option Container
new_service_locator names c = fill_locator names c empty_container

unfoldable pub all_available : List String → Container → Bool
all_available [] c = true
all_available (name ∷ names) c =
    let rest = all_available names c in
    if not (is_bound (c.services name)) && not (is_bound (c.requirements name)) then false else rest

-- `Set` from the assertion on: what it stores, and the locators.
unfoldable pub containerize :
    Option Service → List String → Container → Locators → Option (Option Service × Locators)
containerize none names c ls = some (none, ls)
containerize (some s) names c ls =
    if not s.is_containerized
    then some (none, ls)
    else if not (all_available names c)
    then none
    else elim (new_service_locator names c) [
      | none ↦ none
      | some l ↦ some (some s, λ p. if p == s.address then some l else ls p)
    ]

unfoldable pub set_service :
    String → Option Service → List String → Container → Locators → Option (Container × Locators)
set_service key cnt names c ls =
    if is_bound (c.services key) then none else elim (containerize cnt names c ls) [
      | none ↦ none
      | some r ↦ some (record c { services = bind key (r.0) c.services }, r.1)
    ]
