-- ===== src/Pool/Replay.antt =====
-- The store of a pool whose handler never panics, from the commands for which the handler was called.
use service_template.Base.{Option, some, List, [], ◌∷◌, ◌++◌, ◌≡◌, refl, sym, ap, ◌∙◌}
use mathlib.Core.List.{append_assoc}
use service_template.Pool.{
  Shared, Worker, Control, Pool, Move, Call, Step, Reach, work, call, cancel_main, here, next,
  handle, handle_panics, run,
}

module _ {C S : Type 0} (f : C → S → S) where
  -- The commands one by one, the last of the list first.
  abbrev pub replay : List C → S → S
  replay [] s = s
  replay (c ∷ cs) s = f c (replay cs s)

  replay-append : (cs ds : List C) (s : S) → replay (cs ++ ds) s ≡ replay cs (replay ds s)
  replay-append [] ds s = refl
  replay-append (c ∷ cs) ds s = ap (f c) (replay-append cs ds s)

  -- What was handled between two states, and what it made of the store.
  pub record Handled (m m' : Shared C S) : Type 0 where
    pub since : List C
    pub handled : m'.handled ≡ since ++ m.handled
    pub store : m'.store ≡ replay since m.store

  nothing : {m m' : Shared C S} → m'.handled ≡ m.handled → m'.store ≡ m.store → Handled m m'
  nothing h s = record { since = []; handled = h; store = s }

  Handled-trans : {m n o : Shared C S} → Handled m n → Handled n o → Handled m o
  Handled-trans {m} a b = record {
    since = b.since ++ a.since;
    handled =
        b.handled ∙ ap (λ l. b.since ++ l) a.handled ∙ sym (append_assoc b.since a.since m.handled);
    store = b.store ∙ ap (replay b.since) a.store ∙ sym (replay-append b.since a.since m.store);
  }

  abbrev pub total : C → S → Option S
  total c s = some (f c s)

  Move-Handled : {m m' : Shared C S} {w w' : Worker C} → Move total m w m' w' → Handled m m'
  Move-Handled (handle {c} e) = record { since = c ∷ []; handled = refl; store = cc }
  Move-Handled (handle_panics e) = cc
  Move-Handled mv = nothing refl refl

  Call-Handled :
      {m m' : Shared C S} {ws ws' : List (Worker C)} {k k' : Control C}
      → Call total m ws k m' ws' k'
      → Handled m m'
  Call-Handled (run e) = record { since = []; handled = refl; store = refl }
  Call-Handled c = record { since = []; handled = refl; store = refl }

  Step-Handled : {p q : Pool C S} → Step total p q → Handled p.shared q.shared
  Step-Handled (work us ws e mv) = Move-Handled mv
  Step-Handled (call c) = Call-Handled c
  Step-Handled cancel_main = nothing refl refl

  pub Reach-Handled : {p q : Pool C S} → Reach total p q → Handled p.shared q.shared
  Reach-Handled here = nothing refl refl
  Reach-Handled (next r st) = Handled-trans (Reach-Handled r) (Step-Handled st)

  pub Reach-trans : {p q r : Pool C S} → Reach total p q → Reach total q r → Reach total p r
  Reach-trans a here = a
  Reach-trans a (next b st) = next (Reach-trans a b) st
