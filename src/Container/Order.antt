-- ===== src/Container/Order.antt =====
-- Providers in an order in which each takes only what those before it provide.
use service_template.Base.{
  ℕ, Bool, true, false, not, ◌&&◌, ◌||◌, some, List, [], ◌∷◌, ◌++◌, ◌≡◌, refl, ◌∙◌, ap, sym, ◌⊎◌,
  inl, inr, Bool-cases, All, get_elem?, length, arith,
}
use mathlib.Core.List.{append-nil, append_assoc}
use service_template.Container.Keys.{Key, key_eq, key_number}
use service_template.Container.{Provider, contains_key, provides, takes}

-- A value of the key can be built from the providers: some provider provides it, and what that takes
-- can be built. The derivation is finite: it follows no cycle.
pub data Resolvable (ps : List Provider) : Key → Type 0 where
  by_provider :
      {k : Key} (p : Provider) (place : ℕ)
      → get_elem? ps place ≡ some p
      → key_eq k p.output ≡ true
      → ((i : Key) → contains_key i p.inputs ≡ true → Resolvable ps i)
      → Resolvable ps k

abbrev pub all_provided : List Key → List Provider → Bool
all_provided [] ps = true
all_provided (k ∷ ks) ps = provides k ps && all_provided ks ps

-- The provider is the first for its key, closes no cycle, and takes what is provided already.
abbrev pub fits : List Provider → Provider → Bool
fits done p =
    not (provides p.output done)
    && (not (takes p.output done)
        && (not (contains_key p.output p.inputs) && all_provided p.inputs done))

-- Each provider fits those before it.
abbrev pub orderly : List Provider → List Provider → Bool
orderly done [] = true
orderly done (p ∷ ps) = fits done p && orderly (done ++ p ∷ []) ps

pub and-true : (a b : Bool) → a && b ≡ true → (a ≡ true) × (b ≡ true)
and-true true b h = (refl, h)
and-true false b h = absurd (cc)

not-true : (a : Bool) → not a ≡ true → a ≡ false
not-true true h = absurd (cc)
not-true false h = refl

or-true : (a b : Bool) → a || b ≡ true → (a ≡ true) ⊎ (b ≡ true)
or-true true b h = inl refl
or-true false b h = inr h

-- What `fits` says.
pub record Fitting (done : List Provider) (p : Provider) : Type 0 where
  pub first : provides p.output done ≡ false
  pub untaken : takes p.output done ≡ false
  pub apart : contains_key p.output p.inputs ≡ false
  pub inputs : all_provided p.inputs done ≡ true

pub fits-Fitting : (done : List Provider) (p : Provider) → fits done p ≡ true → Fitting done p
fits-Fitting done p h =
    let (a, bcd) = and-true _ _ h in
    let (b, cd) = and-true _ _ bcd in
    let (c, d) = and-true _ _ cd in
    record { first = not-true _ a; untaken = not-true _ b; apart = not-true _ c; inputs = d }

provides-append :
    (k : Key) (ps : List Provider) (p : Provider)
    → provides k (ps ++ p ∷ []) ≡ true
    → (provides k ps ≡ true) ⊎ (key_eq k p.output ≡ true)
provides-append k [] p h = inr (elim (or-true _ _ h) [ inl e ↦ e | inr e ↦ absurd (cc) ])
provides-append k (q ∷ ps) p h = elim (or-true (key_eq k q.output) (provides k (ps ++ p ∷ [])) h) [
  | inl e ↦ inl (rw e)
  | inr later ↦ elim (provides-append k ps p later) [
    | inl e ↦ inl (elim (Bool-cases (key_eq k q.output)) [ inl y ↦ rw y | inr n ↦ rw (n, e) ])
    | inr e ↦ inr e
  ]
]

get_elem?-append :
    (ps : List Provider) (p : Provider) (qs : List Provider)
    → get_elem? (ps ++ p ∷ qs) (length ps) ≡ some p
get_elem?-append [] p qs = refl
get_elem?-append (q ∷ ps) p qs = get_elem?-append ps p qs

provides-same :
    (k l : Key) (ps : List Provider) → key_number k ≡ key_number l → provides k ps ≡ provides l ps
provides-same k l [] same = refl
provides-same k l (p ∷ ps) same = rw (same, provides-same k l ps same)

key_eq-same :
    (k l : Key) (ps : List Provider)
    → key_eq k l ≡ true
    → provides l ps ≡ true
    → provides k ps ≡ true
key_eq-same k l ps e h = provides-same k l ps (ground arith) ∙ h

all_provided-one :
    (ks : List Key) (ps : List Provider) (k : Key)
    → all_provided ks ps ≡ true
    → contains_key k ks ≡ true
    → provides k ps ≡ true
all_provided-one [] ps k all h = absurd (cc)
all_provided-one (l ∷ ks) ps k all h =
    let (here, later) = and-true _ _ all in
    elim (or-true _ _ h) [
      | inl e ↦ key_eq-same k l ps e here
      | inr e ↦ all_provided-one ks ps k later e
    ]

-- In an order that fits, all that is provided can be built.
orderly-Resolvable :
    (ps done todo : List Provider)
    → ps ≡ done ++ todo
    → orderly done todo ≡ true
    → ((k : Key) → provides k done ≡ true → Resolvable ps k)
    → (k : Key) → provides k ps ≡ true
    → Resolvable ps k
orderly-Resolvable ps done [] e h before k is =
    before k (ap (provides k) (sym (e ∙ append-nil done)) ∙ is)
orderly-Resolvable ps done (p ∷ todo) e h before k is =
    let (fit, later) = and-true _ _ h in
    let inputs = (fits-Fitting done p fit).inputs in
    let at : get_elem? ps (length done) ≡ some p =
      ap (λ l. get_elem? l (length done)) e ∙ get_elem?-append done p todo in
    orderly-Resolvable ps (done ++ p ∷ []) todo (e ∙ sym (append_assoc done (p ∷ []) todo)) later
      (λ l h'. elim (provides-append l done p h') [
        | inl old ↦ before l old
        | inr new ↦
            by_provider p (length done) at new
              (λ i t. before i (all_provided-one p.inputs done i inputs t))
      ])
      k is

pub all_provided-Resolvable :
    (ps : List Provider) (ks : List Key)
    → orderly [] ps ≡ true
    → all_provided ks ps ≡ true
    → All (Resolvable ps) ks
all_provided-Resolvable ps [] h all = tt
all_provided-Resolvable ps (k ∷ ks) h all =
    let (here, later) = and-true _ _ all in
    (
      orderly-Resolvable ps [] ps refl h (λ l none_yet. absurd (cc)) k here,
      all_provided-Resolvable ps ks h later,
    )
