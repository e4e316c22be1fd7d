-- ===== src/Locator/Set.antt =====
-- `Set`: what a service finds in its locator, and what the container then holds.
use service_template.Base.{
  ℕ, ◌≡◌, refl, ◌∙◌, sym, ap, ◌==◌, Bool, true, false, not, ◌&&◌, ◌||◌, String, str_eq, eq_iff,
  Option, none, some, List, [], ◌∷◌, if◌then◌else◌, inl, inr, Bool-cases, Option-cases, if-true,
  if-false, arith,
}
use service_template.Locator.{
  Service, Container, Locators, is_bound, bind, empty_container, get_service, get_for_locator,
  set_for_locator, fill_locator, new_service_locator, all_available, containerize, set_service,
}

abbrev pub among : String → List String → Bool
among k [] = false
among k (name ∷ names) = str_eq k name || among k names

-- No name stands twice in the list.
abbrev pub Distinct : List String → Type 0
Distinct [] = Unit
Distinct (name ∷ names) = (among name names ≡ false) × Distinct names

-- Each name is that of a service in the container, or of one that it began with.
abbrev pub Available : Container → List String → Type 0
Available c [] = Unit
Available c (name ∷ names) = (is_bound (get_for_locator name c) ≡ true) × Available c names

found_somewhere :
    (a b : Option (Option Service))
    → is_bound (elim a as (λ o. Option (Option Service)) [ none ↦ b | some v ↦ some v ]) ≡ true
    → not (is_bound a) && not (is_bound b) ≡ false
found_somewhere none none h = absurd (cc)
found_somewhere none (some v) h = refl
found_somewhere (some v) b h = refl

all_available-Available :
    (names : List String) (c : Container) → Available c names → all_available names c ≡ true
unfolding all_available get_for_locator
all_available-Available [] c h = refl
all_available-Available (name ∷ names) c (here, later) =
    if-false (not (is_bound (c.services name)) && not (is_bound (c.requirements name))) false
      (found_somewhere (c.services name) (c.requirements name) here)
    ∙ all_available-Available names c later

-- The locator that `fill_locator` makes of one.
record Filled (names : List String) (c local : Container) : Type 0 where
  locator : Container
  made : fill_locator names c local ≡ some locator
  holds :
      (k : String)
      → locator.services k ≡ (if among k names then get_for_locator k c else local.services k)

same_name :
    (k name : String) (names : List String)
    → among name names ≡ false
    → str_eq k name ≡ true
    → among k names ≡ false
same_name k name names away e = ap (λ j. among j names) ((eq_iff k name).0 e) ∙ away

-- The next locator has room for the names that are left.
bind-free :
    (name : String) (v : Option Service) (names : List String) (local : Container)
    → among name names ≡ false
    → ((k : String) → among k (name ∷ names) ≡ true → is_bound (local.services k) ≡ false)
    → (k : String) → among k names ≡ true
    → is_bound (bind name v local.services k) ≡ false
bind-free name v names local away free k here = elim (Bool-cases (str_eq k name)) [
  | inl e ↦ let gone = same_name k name names away e in absurd (cc)
  | inr other ↦ rw other (free k (rw (other, here)))
]

bind-holds :
    (name : String) (v : Option Service) (names : List String) (c local : Container) (k : String)
    → among name names ≡ false
    → get_for_locator name c ≡ some v
    → (if among k names then get_for_locator k c else bind name v local.services k)
      ≡ (if among k (name ∷ names) then get_for_locator k c else local.services k)
bind-holds name v names c local k away e = elim (Bool-cases (str_eq k name)) [
  | inl at ↦
      rw (same_name k name names away at, at)
        (sym (ap (λ j. get_for_locator j c) ((eq_iff k name).0 at) ∙ e))
  | inr other ↦ rw other
]

fill_locator-next :
    (name : String) (names : List String) (c local : Container) (v : Option Service)
    → get_for_locator name c ≡ some v
    → is_bound (local.services name) ≡ false
    → fill_locator (name ∷ names) c local
      ≡ fill_locator names c (record local { services = bind name v local.services })
unfolding fill_locator set_for_locator
fill_locator-next name names c local v e free =
    ap (λ o. step o) e ∙ ap (λ o. rest o) (if-false (is_bound (local.services name)) none free)
  where
    rest : Option Container → Option Container
    rest o = elim o [ none ↦ none | some local' ↦ fill_locator names c local' ]

    step : Option (Option Service) → Option Container
    step o = elim o [ none ↦ none | some u ↦ rest (set_for_locator name u local) ]

fill_locator-Filled :
    (names : List String) (c local : Container)
    → Available c names
    → Distinct names
    → ((k : String) → among k names ≡ true → is_bound (local.services k) ≡ false)
    → Filled names c local
fill_locator-Filled [] c local h d free = record {
  locator = local;
  made = unfold fill_locator in refl;
  holds = λ k. refl;
}
fill_locator-Filled (name ∷ names) c local (here, later) (away, distinct) free =
    elim (Option-cases (get_for_locator name c)) [
      | inl missing ↦ absurd (cc)
      | inr (v, e) ↦
          let self = (eq_iff name name).1 refl in
          let next =
            fill_locator-Filled names c (record local { services = bind name v local.services })
              later distinct (bind-free name v names local away free) in
          record {
            locator = next.locator;
            made = fill_locator-next name names c local v e (free name (rw self)) ∙ next.made;
            holds = λ k. next.holds k ∙ bind-holds name v names c local k away e;
          }
    ]

-- What `Set` makes of a service that is containerized.
pub record Kept (key : String) (s : Service) (names : List String) (c : Container) (ls : Locators)
    : Type 0 where
  pub container : Container
  pub locators : Locators
  pub locator : Container
  pub result : set_service key (some s) names c ls ≡ some (container, locators)
  pub kept : get_service key container ≡ some s
  pub others : (k : String) → str_eq k key ≡ false → container.services k ≡ c.services k
  pub given : locators s.address ≡ some locator
  pub finds :
      (k : String) → locator.services k ≡ (if among k names then get_for_locator k c else none)

containerize-filled :
    (s : Service) (names : List String) (c l : Container) (ls : Locators)
    → s.is_containerized ≡ true
    → all_available names c ≡ true
    → new_service_locator names c ≡ some l
    → containerize (some s) names c ls ≡ some (some s, λ p. if p == s.address then some l else ls p)
unfolding containerize
containerize-filled s names c l ls yes_ all made =
    if-false (not s.is_containerized) _ (ap not yes_)
    ∙ if-false (not (all_available names c)) _ (ap not all)
    ∙ ap store made
  where
    store : Option Container → Option (Option Service × Locators)
    store o = elim o [
      | none ↦ none
      | some m ↦ some (some s, λ p. if p == s.address then some m else ls p)
    ]

set_service-stored :
    (key : String) (cnt v : Option Service) (names : List String) (c : Container)
    (ls ls' : Locators)
    → is_bound (c.services key) ≡ false
    → containerize cnt names c ls ≡ some (v, ls')
    → set_service key cnt names c ls ≡ some (record c { services = bind key v c.services }, ls')
unfolding set_service
set_service-stored key cnt v names c ls ls' free e =
    if-false (is_bound (c.services key)) none free ∙ ap store e
  where
    store : Option (Option Service × Locators) → Option (Container × Locators)
    store o = elim o [
      | none ↦ none
      | some r ↦ some (record c { services = bind key (r.0) c.services }, r.1)
    ]

get_service-bind :
    (key : String) (v : Option Service) (c : Container)
    → get_service key (record c { services = bind key v c.services }) ≡ v
unfolding get_service
get_service-bind key v c = let self = (eq_iff key key).1 refl in rw (self, get_service)

-- A service that is containerized, under a name that is free, is in the container afterwards, and
-- nothing else has changed there. It has a locator that answers, for each of the names it asked for,
-- the service that the container had under it or began with, and nothing else. The names are
-- available, and none stands twice in the list.
pub set_service-Kept :
    (key : String) (s : Service) (names : List String) (c : Container) (ls : Locators)
    → is_bound (c.services key) ≡ false
    → s.is_containerized ≡ true
    → Available c names
    → Distinct names
    → Kept key s names c ls
set_service-Kept key s names c ls free yes_ available distinct =
    let filled = fill_locator-Filled names c empty_container available distinct (λ k here. refl) in
    let l = filled.locator in
    let locators = λ (p : ℕ). if p == s.address then some l else ls p in
    let same : (s.address == s.address) ≡ true = ground arith in
    record {
      container = record c { services = bind key (some s) c.services };
      locators = locators;
      locator = l;
      result = set_service-stored key (some s) (some s) names c ls locators free (
          containerize-filled s names c l ls yes_ (all_available-Available names c available)
            (unfold new_service_locator in filled.made));
      kept = get_service-bind key (some s) c;
      others = λ k other. if-false (str_eq k key) (some (some s)) other;
      given = if-true (s.address == s.address) (ls s.address) same;
      finds = filled.holds;
    }

-- A service that is not containerized is lost, whatever it was and whatever names it asked for: `Set`
-- under a free name comes to its end, and `Get` answers nil for the name. The name is taken then: a
-- second `Set` under it ends the program.
pub set_service-lost :
    (key : String) (s : Service) (cnt : Option Service) (names names' : List String) (c : Container)
    (ls : Locators)
    → s.is_containerized ≡ false
    → is_bound (c.services key) ≡ false
    → (c' : Container) × (set_service key (some s) names c ls ≡ some (c', ls))
      × (get_service key c' ≡ none)
      × (set_service key cnt names' c' ls ≡ none)
unfolding set_service containerize
set_service-lost key s cnt names names' c ls plain free =
    let self = (eq_iff key key).1 refl in
    let taken : is_bound (bind key none c.services key) ≡ true = rw self in
    (
      record c { services = bind key none c.services },
      set_service-stored key (some s) none names c ls ls free
          (if-true (not s.is_containerized) _ (ap not plain)),
      get_service-bind key none c,
      if-true (is_bound (bind key none c.services key)) _ taken,
    )
