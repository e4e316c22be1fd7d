-- ===== src/Config.antt =====
-- config/config.go: `GetConfig`, whose `sync.Once` reads the file at the first call. What cleanenv reads is given
-- for each time that it is asked.
use service_template.Base.{
  ℕ, zero, suc, ◌+◌, ◌≡◌, ap, Option, none, some, Result, ok, err, arith, String,
}

-- The variables `instance` and `once`; `reads` is how often the file was read.
pub record Once (C : Type 0) : Type 0 where
  pub instance_ : Option C
  pub reads : ℕ

module _ {C : Type 0} where
  -- The instance that is returned, or nothing where `log.Fatal` ended the program.
  unfoldable pub get_config : (ℕ → Result String C) → Once C → Once C × Option C
  get_config read o = elim o.instance_ [
    | some c ↦ (o, some c)
    | none ↦ elim (read o.reads) [
      | err e ↦ (record o { reads = o.reads + 1 }, none)
      | ok c ↦ (record { instance_ = some c; reads = o.reads + 1 }, some c)
    ]
  ]

  abbrev pub new_once : Once C
  new_once = record { instance_ = none; reads = 0 }

  -- `n` calls behind a state, and what the last of them returned.
  abbrev pub calls : ℕ → (ℕ → Result String C) → Once C → Once C
  calls zero read o = o
  calls (suc n) read o = (get_config read (calls n read o)).0

  -- Where the file can be read at the first call, all calls return what was read then, whatever it holds later,
  -- and it is read once.
  pub get_config-calls :
      (n : ℕ) (read : ℕ → Result String C) (c : C)
      → read 0 ≡ ok c
      → ((get_config read (calls n read new_once)).1 ≡ some c)
        × (calls (suc n) read new_once ≡ record { instance_ = some c; reads = 1 })
  unfolding get_config
  get_config-calls zero read c e = (ground (arith, e), ground (arith, e))
  get_config-calls (suc n) read c e =
      let ih = get_config-calls n read c e in
      (
        ap (λ (o : Once C). (get_config read o).1) ih.1,
        ap (λ (o : Once C). (get_config read o).0) ih.1,
      )
