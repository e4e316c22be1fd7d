-- ===== src/Programs/Lifecycle.antt =====
-- The frame that the main functions under cmd/ share: `Start`, the deferred `RegisterRecovers` and `Stop`, the
-- statements, and `Run`; and the ways in which a statement can cut it short.
use service_template.Base.{
  ℕ, zero, suc, Bool, true, ◌&&◌, not, String, str_eq, List, [], ◌∷◌, Option, none, some,
  if◌then◌else◌, take,
}
use service_template.App.{Shutdown, stop}
use service_template.App.Stop.{register_all}
use service_template.Programs.{Statement, Program, main_of, shutdowns}
use service_template.Programs.Order.{mentions, uses}

-- What a statement comes to: it is done; `main` returns; it panics; or `Fatal` ends the process.
pub data Fate : Type 0 where
  done : Fate
  returns : Fate
  panics : Fate
  exits : Fate

-- The functions that `main` has registered when it comes to its deferred calls, or nothing where the process
-- was ended. A recovered panic and a return lead to the same deferred `Stop`.
unfoldable pub run_main :
    (Statement → Fate)
    → List Statement
    → List (Shutdown (List String))
    → Option (List (Shutdown (List String)))
run_main fate [] l = some l
run_main fate (s ∷ statements) l = elim (fate s) [
  | done ↦ run_main fate statements (register_all (shutdowns (s ∷ [])) l)
  | returns ↦ some l
  | panics ↦ some l
  | exits ↦ none
]

-- The names of the functions that the deferred `Stop` runs, in order.
unfoldable pub stopped_names : Option (List (Shutdown (List String))) → List String
stopped_names none = []
stopped_names (some l) = (stop l []).1

-- No `later` stands before a `first`.
abbrev pub precedes : (first later : String) → List String → Bool
precedes first later [] = true
precedes first later (n ∷ names) =
    let rest = precedes first later names in
    if str_eq n later then not (mentions first names) && rest else rest

abbrev all_uses : List (String × String) → List String → Bool
all_uses [] names = true
all_uses ((first, later) ∷ pairs) names = precedes first later names && all_uses pairs names

-- The names, when `main` was left behind `n` statements.
abbrev left_behind : ℕ → Program → List String
left_behind n p = stopped_names (some (register_all (shutdowns (take n (main_of p))) []))

-- Left behind each number of statements below `n`.
abbrev at_each : ℕ → Program → Bool
at_each zero p = true
at_each (suc n) p = all_uses (uses p) (left_behind n p) && at_each n p
