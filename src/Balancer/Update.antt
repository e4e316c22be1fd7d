-- ===== src/Balancer/Update.antt =====
-- `UpdateBackends` and `WatchBackends`.
use service_template.Base.{
  ℕ, ◌<◌, ◌≤◌, ◌≡◌, refl, Bool, true, false, ◌||◌, String, str_eq, eq_iff, Option, none, some, List,
  [], ◌∷◌, ◌==◌, Option-cases, arith, ap, ◌∙◌, sym, ◌⊎◌, inl, inr, Bool-cases, All, map,
  if◌then◌else◌,
}
use mathlib.Core.Path.{subst}
use mathlib.Core.Option.{some-injective}
use service_template.Balancer.{
  Fleet, LoadBalancer, add_backend, find_existing, collect, update_backends,
}

-- The URLs, in order, of the keys that are not this service's own and whose value parses.
abbrev pub wanted : (String → Option String) → String → List (String × String) → List String
wanted parse own [] = []
wanted parse own ((key, value) ∷ kvs) =
    if str_eq key own
    then wanted parse own kvs
    else elim (parse value) [ none ↦ wanted parse own kvs | some url ↦ url ∷ wanted parse own kvs ]

abbrev pub contains : ℕ → List ℕ → Bool
contains b [] = false
contains b (p ∷ ps) = (b == p) || contains b ps

-- Each of the addresses is that of a backend.
abbrev pub Below : Fleet → List ℕ → Type 0
Below f = All (λ b. b < f.fresh)

-- What an update makes of the old backends: the new list has the wanted URLs in order, each backend
-- of it is an old one or is new and alive, and no backend that there was is changed.
pub record Updated (old : List ℕ) (f : Fleet) (urls : List String) (new : List ℕ) (f' : Fleet)
    : Type 0 where
  pub grows : f.fresh ≤ f'.fresh
  pub same_url : (p : ℕ) → p < f.fresh → f'.url p ≡ f.url p
  pub same_alive : (p : ℕ) → p < f.fresh → f'.alive p ≡ f.alive p
  pub new_alive : (p : ℕ) → f.fresh ≤ p → p < f'.fresh → f'.alive p ≡ true
  pub below : Below f' new
  pub known : All (λ b. (contains b old ≡ true) ⊎ (f.fresh ≤ b)) new
  pub urls_of : map f'.url new ≡ urls

contains_first : (p b : ℕ) (ps : List ℕ) → p ≡ b → contains b (p ∷ ps) ≡ true
contains_first p b ps same = let e : (b == p) ≡ true = ground arith in rw e

contains_later : (b p : ℕ) (ps : List ℕ) → contains b ps ≡ true → contains b (p ∷ ps) ≡ true
contains_later b p ps known = elim (Bool-cases (b == p)) [ inl e ↦ rw e | inr e ↦ rw (e, known) ]

-- What `find_existing` answers: an old backend with that URL.
find_existing-some :
    (url : String) (old : List ℕ) (f : Fleet) (b : ℕ)
    → Below f old
    → find_existing url old f ≡ some b
    → (contains b old ≡ true) × (f.url b ≡ url) × (b < f.fresh)
unfolding find_existing
find_existing-some url [] f b below e = absurd (cc)
find_existing-some url (p ∷ ps) f b below e = elim (Bool-cases (str_eq (f.url p) url)) [
  | inl found ↦
      let same : p ≡ b = some-injective p b (rw found at e) in
      (
        contains_first p b ps same,
        ap f.url (sym same) ∙ (eq_iff (f.url p) url).0 found,
        subst (λ q. q < f.fresh) same below.0,
      )
  | inr other ↦
      let (known, url_of, lt) = find_existing-some url ps f b below.1 (rw other at e) in
      (contains_later b p ps known, url_of, lt)
]

All-weaken : {P Q : ℕ → Type 0} (bs : List ℕ) → ((b : ℕ) → P b → Q b) → All P bs → All Q bs
All-weaken [] imp h = h
All-weaken (b ∷ bs) imp h = (imp b h.0, All-weaken bs imp h.1)

-- Reading no more keys.
Updated-nil : (old : List ℕ) (f : Fleet) → Updated old f [] [] f
Updated-nil old f = record {
  grows = omega arith;
  same_url = λ p lt. refl;
  same_alive = λ p lt. refl;
  new_alive = λ p ge lt. absurd (omega arith);
  below = tt;
  known = tt;
  urls_of = refl;
}

-- An old backend stays in the list.
Updated-old :
    (old : List ℕ) (f : Fleet) (urls : List String) (new : List ℕ) (f' : Fleet) (url : String)
    (b : ℕ)
    → (contains b old ≡ true) × (f.url b ≡ url) × (b < f.fresh)
    → Updated old f urls new f'
    → Updated old f (url ∷ urls) (b ∷ new) f'
Updated-old old f urls new f' url b (known, url_of, lt) u = record {
  grows = u.grows;
  same_url = u.same_url;
  same_alive = u.same_alive;
  new_alive = u.new_alive;
  below = (omega (arith, u.grows), u.below);
  known = (inl known, u.known);
  urls_of = rw (u.same_url b lt, url_of, u.urls_of);
}

-- A new backend comes into it.
Updated-new :
    (old : List ℕ) (f : Fleet) (urls : List String) (new : List ℕ) (f' : Fleet) (url : String)
    → Updated old (add_backend url f) urls new f'
    → Updated old f (url ∷ urls) (f.fresh ∷ new) f'
unfolding add_backend
Updated-new old f urls new f' url u = record {
  grows = omega (arith, u.grows);
  same_url = λ p lt.
      let other : (p == f.fresh) ≡ false = ground arith in u.same_url p (omega arith) ∙ rw other;
  same_alive = λ p lt.
      let other : (p == f.fresh) ≡ false = ground arith in u.same_alive p (omega arith) ∙ rw other;
  new_alive = λ p ge lt. elim (Bool-cases (p == f.fresh)) [
    | inl at ↦ let e : p ≡ f.fresh = ground arith in u.same_alive p (omega arith) ∙ rw at
    | inr other ↦ let ne : f.fresh < p = ground arith in u.new_alive p (omega arith) lt
  ];
  below = (omega (arith, u.grows), u.below);
  known = (
    inr (omega arith),
    All-weaken new (λ b h. elim h [ inl k ↦ inl k | inr ge ↦ inr (omega arith) ]) u.known,
  );
  urls_of =
      let self : (f.fresh == f.fresh) ≡ true = ground arith in
      rw (u.same_url f.fresh (omega arith), u.urls_of, self);
}

Below-add_backend :
    (url : String) (f : Fleet) (bs : List ℕ) → Below f bs → Below (add_backend url f) bs
unfolding add_backend
Below-add_backend url f [] below = tt
Below-add_backend url f (b ∷ bs) (lt, below) = (omega (arith, lt), Below-add_backend url f bs below)

module _ (parse : String → Option String) (own : String) (old : List ℕ) (key value : String)
    (kvs : List (String × String)) (f : Fleet) where
  collect-own :
      str_eq key own ≡ true
      → collect parse own old ((key, value) ∷ kvs) f ≡ collect parse own old kvs f
  unfolding collect
  collect-own mine = rw mine

  collect-bad :
      str_eq key own ≡ false
      → parse value ≡ none
      → collect parse own old ((key, value) ∷ kvs) f ≡ collect parse own old kvs f
  unfolding collect
  collect-bad theirs bad = rw (theirs, bad)

  collect-old :
      (url : String) (b : ℕ)
      → str_eq key own ≡ false
      → parse value ≡ some url
      → find_existing url old f ≡ some b
      → collect parse own old ((key, value) ∷ kvs) f
        ≡ (b ∷ (collect parse own old kvs f).0, (collect parse own old kvs f).1)
  unfolding collect
  collect-old url b theirs good here = rw (theirs, good, here)

  collect-new :
      (url : String)
      → str_eq key own ≡ false
      → parse value ≡ some url
      → find_existing url old f ≡ none
      → collect parse own old ((key, value) ∷ kvs) f ≡ (
        f.fresh ∷ (collect parse own old kvs (add_backend url f)).0,
        (collect parse own old kvs (add_backend url f)).1,
      )
  unfolding collect
  collect-new url theirs good fresh = rw (theirs, good, fresh)

-- An update that was made of the list and the fleet.
abbrev Made : List ℕ → Fleet → List String → List ℕ × Fleet → Type 0
Made old f urls found = Updated old f urls found.0 found.1

-- The loop over what etcd returned.
collect-Updated :
    (parse : String → Option String) (own : String) (old : List ℕ) (kvs : List (String × String))
    (f : Fleet)
    → Below f old
    → Made old f (wanted parse own kvs) (collect parse own old kvs f)
collect-Updated parse own old [] f below = unfold collect in Updated-nil old f
collect-Updated parse own old ((key, value) ∷ kvs) f below = elim (Bool-cases (str_eq key own)) [
  | inl mine ↦
      rw (collect-own parse own old key value kvs f mine, mine)
        (collect-Updated parse own old kvs f below)
  | inr theirs ↦ elim (Option-cases (parse value)) [
    | inl bad ↦
        rw (collect-bad parse own old key value kvs f theirs bad, theirs, bad)
          (collect-Updated parse own old kvs f below)
    | inr (url, good) ↦ elim (Option-cases (find_existing url old f)) [
      | inl fresh ↦
          rw (collect-new parse own old key value kvs f url theirs good fresh, theirs, good)
            (Updated-new old f _ _ _ url (
              collect-Updated parse own old kvs (add_backend url f)
                (Below-add_backend url f old below)))
      | inr (b, here) ↦
          rw (collect-old parse own old key value kvs f url b theirs good here, theirs, good)
            (Updated-old old f _ _ _ url b (find_existing-some url old f b below here)
              (collect-Updated parse own old kvs f below))
    ]
  ]
]

pub update_backends-Updated :
    (parse : String → Option String) (own : String) (kvs : List (String × String))
    (lb : LoadBalancer) (f : Fleet)
    → Below f lb.backends
    → (let after = update_backends parse own (some kvs) lb f in
        Updated lb.backends f (wanted parse own kvs) after.0.backends after.1
        × (after.0.current ≡ 0))
      × (update_backends parse own none lb f ≡ (lb, f))
unfolding update_backends
update_backends-Updated parse own kvs lb f below =
    ((collect-Updated parse own lb.backends kvs f below, refl), refl)
