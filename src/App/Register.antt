-- ===== src/App/Register.antt =====
-- `RegisterShutdown` keeps the list sorted, and puts an entry behind those of its priority.
use service_template.Base.{
  ◌≡◌, refl, true, false, ◌&&◌, List, [], ◌∷◌, ◌++◌, arith, ℤ, ◌∙◌, ap, sym, Bool-cases, inl, inr,
}
use mathlib.Core.List.{append-nil, append_assoc}
use service_template.App.{int_le, Shutdown, insert_behind, register_shutdown}
use service_template.App.Order.{
  int_le_refl, int_le_trans, int_le_total, From, From-trans, IsSorted, of_priority,
  of_priority-append, of_priority-nil,
}

module _ {W : Type 0} where
  register-insert :
      (s : Shutdown W) (l : List (Shutdown W)) → register_shutdown s l ≡ insert_behind s l
  unfolding register_shutdown insert_behind
  register-insert s [] = refl
  register-insert s (n ∷ rest) = ground arith

  insert_behind-From :
      (s : Shutdown W) (p : ℤ) (l : List (Shutdown W))
      → int_le p s.priority ≡ true
      → From p l
      → From p (insert_behind s l)
  unfolding insert_behind
  insert_behind-From s p [] h f = (h, tt)
  insert_behind-From s p (n ∷ rest) h f = ground (arith, insert_behind-From s p rest h f.1)

  insert_behind-IsSorted :
      (s : Shutdown W) (l : List (Shutdown W)) → IsSorted l → IsSorted (insert_behind s l)
  unfolding insert_behind
  insert_behind-IsSorted s [] o = (tt, tt)
  insert_behind-IsSorted s (n ∷ rest) o = elim (Bool-cases (int_le n.priority s.priority)) [
    | inl below ↦
        rw below (insert_behind-From s n.priority rest below o.0, insert_behind-IsSorted s rest o.1)
    | inr above ↦
        let le = int_le_total n.priority s.priority above in
        rw above ((le, From-trans s.priority n.priority rest le o.0), o)
  ]

  -- An entry in front of all that have a greater priority.
  of_priority-front :
      (s : Shutdown W) (p q : ℤ) (l : List (Shutdown W))
      → From q l
      → int_le q s.priority ≡ false
      → of_priority p (s ∷ l) ≡ of_priority p l ++ of_priority p (s ∷ [])
  of_priority-front s p q l f h = elim (Bool-cases (int_le p s.priority && int_le s.priority p)) [
    | inl same ↦
        let e : of_priority p l ≡ [] =
          of_priority-nil p q l f (ground (arith, int_le_trans q p s.priority)) in
        rw (same, e)
    | inr differ ↦ rw (differ, append-nil (of_priority p l))
  ]

  of_priority-insert :
      (s : Shutdown W) (p : ℤ) (l : List (Shutdown W))
      → IsSorted l
      → of_priority p (insert_behind s l) ≡ of_priority p l ++ of_priority p (s ∷ [])
  unfolding insert_behind
  of_priority-insert s p [] o = refl
  of_priority-insert s p (n ∷ rest) o = elim (Bool-cases (int_le n.priority s.priority)) [
    | inl below ↦ rw below (
        of_priority-append p (n ∷ []) (insert_behind s rest)
        ∙ ap (λ l. of_priority p (n ∷ []) ++ l) (of_priority-insert s p rest o.1)
        ∙ sym (append_assoc (of_priority p (n ∷ [])) (of_priority p rest) (of_priority p (s ∷ [])))
        ∙ ap (λ l. l ++ of_priority p (s ∷ [])) (sym (of_priority-append p (n ∷ []) rest)))
    | inr above ↦
        rw above (of_priority-front s p n.priority (n ∷ rest) (int_le_refl n.priority, o.0) above)
  ]

  -- `RegisterShutdown` keeps a list sorted that is, and puts the new entry behind those that have its
  -- priority; the entries of every other priority stay as they are.
  pub register_shutdown-IsSorted :
      (s : Shutdown W) (l : List (Shutdown W))
      → IsSorted l
      → IsSorted (register_shutdown s l)
        × ((p : ℤ)
            → of_priority p (register_shutdown s l) ≡ of_priority p l ++ of_priority p (s ∷ []))
  register_shutdown-IsSorted s l o =
      rw (register-insert s l) (insert_behind-IsSorted s l o, λ p. of_priority-insert s p l o)
