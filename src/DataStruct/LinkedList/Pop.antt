-- ===== src/DataStruct/LinkedList/Pop.antt =====
-- `PopFront` and `PopBack` of pkg/data_struct/linked_list.go.
use service_template.Base.{
  ℕ, zero, suc, ◌-◌, ◌≡◌, ◌<◌, refl, false, List, [], ◌∷◌, ◌++◌, arith, ◌==◌, length, length-append,
  ap, ◌∙◌, ==_iff, if◌then◌else◌, false, ok, err,
}
use mathlib.Core.Path.{subst}
use mathlib.Core.List.{append-nil}
use service_template.DataStruct.Heap.{Ptr, null, node, Heap, Ends, ends, Ends-mono, done, write}
use service_template.DataStruct.LinkedList.{
  LinkedList, list_empty, pop_front, pop_back, walk_before,
}
use service_template.DataStruct.LinkedList.Shape.{
  Cells, first, last, values, Chain, IsList, Represents,
}
use service_template.DataStruct.LinkedList.Splice.{
  Apart-nil, Chain-splice, cell-last, load-eq-done, set_next-eq-done, last-append, last_value,
  has-append, Chain-back, fresh-write,
}
use service_template.DataStruct.LinkedList.Push.{is_empty-true, is_empty-false}
use service_template.DataStruct.LinkedList.Split.{Represents-Split, cells-Headed}

values-nil : {T : Type 0} (xs : Cells T) → values xs ≡ [] → xs ≡ []
values-nil [] e = refl
values-nil ((_, v) ∷ xs) e = absurd (cc)

-- An operation left the list with the values `vs` and answered `r`.
abbrev pub Answers {κ} : {T : Type 0} {R : Type κ} → R → List T → R × LinkedList → Heap T → Type κ
Answers r vs (r', ll') h' = (r' ≡ r) × Represents h' ll' vs

module _ {T : Type 0} where
  IsList-nil_size :
      (h : Heap T) (ll : LinkedList) (xs : Cells T) → IsList h ll xs → values xs ≡ [] → ll.size ≡ 0
  IsList-nil_size h ll [] is e = is.size
  IsList-nil_size h ll ((_, v) ∷ xs) is e = absurd (cc)

  tail_of :
      (n : ℕ) (t a : Ptr) (xs : Cells T)
      → t ≡ last xs a
      → n ≡ suc (length xs)
      → (if n - 1 == 0 then null else t) ≡ last xs null
  tail_of n t a [] e f = rw f
  tail_of n t a ((b, w) ∷ xs) e f = let more : (n - 1 == 0) ≡ false = ground arith in rw more e

  pop_front-cons :
      (h : Heap T) (ll : LinkedList) (a : Ptr) (v : T) (xs : Cells T)
      → IsList h ll ((a, v) ∷ xs)
      → Ends (λ (r, ll') h'. (r ≡ ok v) × IsList h' ll' xs × (h'.fresh ≡ h.fresh)) (pop_front ll h)
  unfolding pop_front
  pop_front-cons h ll a v xs is =
      rw
        (
          is_empty-false ll (length xs) is.size,
          is.head,
          load-eq-done h a (first xs null) v is.chain.0 is.chain.2,
        )
        (ends (
          refl,
          record {
            chain = is.chain.4;
            head = refl;
            tail = tail_of ll.size ll.tail a xs is.tail is.size;
            size = omega (arith, is.size);
          },
          refl,
        ))

  -- The walk of `PopBack` stops before the last node.
  walk_before-eq-done :
      (h : Heap T) (fuel : ℕ) (a : Ptr) (v : T) (ys : Cells T) (t : Ptr) (u : T)
      → Chain h null ((a, v) ∷ (ys ++ (t, u) ∷ []))
      → length ys < fuel
      → walk_before fuel t a h ≡ done (last ys a) h
  unfolding walk_before
  walk_before-eq-done h zero a v ys t u c lt = absurd (omega arith)
  walk_before-eq-done h (suc fuel) a v [] t u c lt =
      rw (load-eq-done h a t v c.0 c.2) (ground arith)
  walk_before-eq-done h (suc fuel) a v ((b, w) ∷ ys) t u c lt =
      let differ : (b == t) ≡ false = ground (arith, has-append b ys ((t, u) ∷ [])) in
      rw (load-eq-done h a b v c.0 c.2, c.4.0, differ)
        (walk_before-eq-done h fuel b w ys t u c.4 (omega arith))

  pop_back-snoc :
      (h : Heap T) (ll : LinkedList) (ys : Cells T) (t : Ptr) (u : T)
      → IsList h ll (ys ++ (t, u) ∷ [])
      → Ends (λ (r, ll') h'. (r ≡ ok u) × IsList h' ll' ys × (h'.fresh ≡ h.fresh)) (pop_back ll h)
  unfolding pop_back
  pop_back-snoc h ll [] t u is =
      rw
        (
          is_empty-false ll 0 is.size,
          is.head,
          is.tail,
          (==_iff t t).1 refl,
          load-eq-done h t null u is.chain.0 is.chain.2,
        )
        (ends (refl, record { chain = tt; head = refl; tail = refl; size = refl }, refl))
  pop_back-snoc h ll ((a, v) ∷ ys) t u is =
      let c = is.chain in
      let at_tail = Chain-back h null ((a, v) ∷ ys) ((t, u) ∷ []) c in
      let at_last = cell-last h null a v ys ((t, u) ∷ []) c in
      let differ : (a == t) ≡ false = ground (arith, has-append a ys ((t, u) ∷ [])) in
      rw
        (
          is_empty-false ll (length (ys ++ (t, u) ∷ [])) is.size,
          is.head,
          is.tail ∙ last-append ys ((t, u) ∷ []) a,
          differ,
          walk_before-eq-done h ll.size a v ys t u c
              (omega (arith, is.size, length-append ys ((t, u) ∷ []))),
          load-eq-done h t null u at_tail.0 at_tail.2,
          set_next-eq-done h (last ys a) t null (last_value v ys) at_last.0 at_last.1,
        )
        (ends (
          refl,
          record {
            chain =
                subst
                  (λ zs.
                    Chain (write h (last ys a) (node (last_value v ys) null)) null ((a, v) ∷ zs))
                  (append-nil ys)
                  (Chain-splice h null a v ys ((t, u) ∷ []) [] c tt (Apart-nil ((a, v) ∷ ys)));
            head = refl;
            tail = refl;
            size = omega (arith, is.size, length-append ys ((t, u) ∷ []));
          },
          fresh-write h (last ys a) (node (last_value v ys) null),
        ))

module _ {T : Type 0} {h : Heap T} {ll : LinkedList} where
  -- On an empty list both operations fail and change nothing.
  pub pop-nil :
      Represents h ll []
      → (pop_front ll h ≡ done (err list_empty, ll) h)
        × (pop_back ll h ≡ done (err list_empty, ll) h)
  unfolding pop_front pop_back
  pop-nil r =
      let e = is_empty-true ll (IsList-nil_size h ll r.cells r.is_list r.is_values) in (rw e, rw e)

  -- `PopFront` answers the first value of a list that has one, and leaves the others.
  pub pop_front-Represents :
      (v : T) (vs : List T) → Represents h ll (v ∷ vs) → Ends (Answers (ok v) vs) (pop_front ll h)
  pop_front-Represents v vs r =
      let p = cells-Headed r.cells v vs r.is_values in
      let is = subst (λ xs. IsList h ll xs) p.cells r.is_list in
      Ends-mono (pop_front-cons h ll p.address v p.rest is) λ (r', ll') h' q. (
        q.0,
        record {
          cells = p.rest;
          is_list = q.1;
          is_values = p.of_rest;
          allocates = rw q.2 r.allocates;
        },
      )

  -- `PopBack` answers the last value of a list that has one, and leaves the others.
  pub pop_back-Represents :
      (vs : List T) (v : T)
      → Represents h ll (vs ++ v ∷ [])
      → Ends (Answers (ok v) vs) (pop_back ll h)
  pop_back-Represents vs v r =
      let s = Represents-Split vs (v ∷ []) r in
      let p = cells-Headed s.back v [] s.of_back in
      let is =
        subst (λ zs. IsList h ll (s.front ++ zs))
          (p.cells ∙ ap (λ zs. (p.address, v) ∷ zs) (values-nil p.rest p.of_rest)) s.is_list in
      Ends-mono (pop_back-snoc h ll s.front p.address v is) λ (r', ll') h' q. (
        q.0,
        record {
          cells = s.front;
          is_list = q.1;
          is_values = s.of_front;
          allocates = rw q.2 r.allocates;
        },
      )
