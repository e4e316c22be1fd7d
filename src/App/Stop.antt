-- ===== src/App/Stop.antt =====
-- `Stop` and `ShutdownByName`.
use service_template.Base.{
  ◌≡◌, refl, true, false, String, str_eq, List, [], ◌∷◌, ◌++◌, ℤ, ◌∙◌, ap, sym,
}
use mathlib.Core.List.{append-nil, append_assoc}
use service_template.App.{
  Shutdown, register_shutdown, shutdown_behind, shutdown_by_name, shutdown_all, stop,
}
use service_template.App.Order.{IsSorted, of_priority, of_priority-append}
use service_template.App.Register.{register_shutdown-IsSorted}

module _ {W : Type 0} where
  -- The calls of `RegisterShutdown` that a program makes, one after the other.
  abbrev pub register_all : List (Shutdown W) → List (Shutdown W) → List (Shutdown W)
  register_all [] l = l
  register_all (s ∷ calls) l = register_all calls (register_shutdown s l)

  -- Each function of the list once, in order.
  abbrev pub call_all : List (Shutdown W) → W → W
  call_all [] w = w
  call_all (s ∷ l) w = call_all l (s.shutdown_func w)

  shutdown_all-call_all : (l : List (Shutdown W)) (w : W) → shutdown_all l w ≡ ([], call_all l w)
  unfolding shutdown_all
  shutdown_all-call_all [] w = refl
  shutdown_all-call_all (s ∷ l) w = shutdown_all-call_all l (s.shutdown_func w)

  register_all-IsSorted :
      (calls l : List (Shutdown W))
      → IsSorted l
      → IsSorted (register_all calls l)
        × ((p : ℤ) → of_priority p (register_all calls l) ≡ of_priority p l ++ of_priority p calls)
  register_all-IsSorted [] l o = (o, λ p. sym (append-nil (of_priority p l)))
  register_all-IsSorted (s ∷ calls) l o =
      let one = register_shutdown-IsSorted s l o in
      let more = register_all-IsSorted calls (register_shutdown s l) one.0 in
      (
        more.0,
        λ p.
            more.1 p
            ∙ ap (λ m. m ++ of_priority p calls) (one.1 p)
            ∙ append_assoc (of_priority p l) (of_priority p (s ∷ [])) (of_priority p calls)
            ∙ ap (λ m. of_priority p l ++ m) (sym (of_priority-append p (s ∷ []) calls)),
      )

  -- What `Stop` is to do with the functions that `calls` registered.
  pub record Stopped (calls : List (Shutdown W)) (w : W) (result : List (Shutdown W) × W)
      : Type 0 where
    pub order : List (Shutdown W)
    pub sorted : IsSorted order
    pub stable : (p : ℤ) → of_priority p order ≡ of_priority p calls
    pub called : result ≡ ([], call_all order w)

  -- After any calls of `RegisterShutdown` on a new `App`, `Stop` calls each registered function once,
  -- the lower priority first, and those of one priority in the order of their registration; the list
  -- is empty then.
  pub stop-Stopped :
      (calls : List (Shutdown W)) (w : W) → Stopped calls w (stop (register_all calls []) w)
  unfolding stop
  stop-Stopped calls w =
      let r = register_all-IsSorted calls [] tt in
      record {
        order = register_all calls [];
        sorted = r.0;
        stable = r.1;
        called = shutdown_all-call_all (register_all calls []) w;
      }

  -- No entry has the name.
  abbrev pub Without : String → List (Shutdown W) → Type 0
  Without name [] = Unit
  Without name (n ∷ l) = (str_eq n.name name ≡ false) × Without name l

  by_name-behind :
      (name : String) (l : List (Shutdown W)) (w : W)
      → shutdown_by_name name l w ≡ shutdown_behind name l w
  unfolding shutdown_by_name shutdown_behind
  by_name-behind name [] w = refl
  by_name-behind name (n ∷ l) w = refl

  behind-first :
      (name : String) (us : List (Shutdown W)) (s : Shutdown W) (ws : List (Shutdown W)) (w : W)
      → Without name us
      → str_eq s.name name ≡ true
      → shutdown_behind name (us ++ s ∷ ws) w ≡ (us ++ ws, s.shutdown_func w)
  unfolding shutdown_behind
  behind-first name [] s ws w out e = rw e
  behind-first name (u ∷ us) s ws w out e = rw (out.0, behind-first name us s ws w out.1 e)

  behind-none :
      (name : String) (l : List (Shutdown W)) (w : W)
      → Without name l
      → shutdown_behind name l w ≡ (l, w)
  unfolding shutdown_behind
  behind-none name [] w out = refl
  behind-none name (n ∷ l) w out = rw (out.0, behind-none name l w out.1)

  -- `ShutdownByName` calls the first function of that name, once, and takes it alone off the list;
  -- on the entries before it, none of which has the name, nothing happens.
  pub shutdown_by_name-first :
      (name : String) (us : List (Shutdown W)) (s : Shutdown W) (ws : List (Shutdown W)) (w : W)
      → Without name us
      → str_eq s.name name ≡ true
      → (shutdown_by_name name (us ++ s ∷ ws) w ≡ (us ++ ws, s.shutdown_func w))
        × (shutdown_by_name name us w ≡ (us, w))
  shutdown_by_name-first name us s ws w out e = (
    by_name-behind name (us ++ s ∷ ws) w ∙ behind-first name us s ws w out e,
    by_name-behind name us w ∙ behind-none name us w out,
  )
