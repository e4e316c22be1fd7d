-- ===== src/DataStruct/LinkedList/Push.antt =====
-- `PushFront` and `PushBack` of pkg/data_struct/linked_list.go.
use service_template.Base.{
  ℕ, suc, ◌≡◌, refl, true, false, List, [], ◌∷◌, ◌++◌, arith, ◌==◌, length, length-append, ap, ◌∙◌,
  sym,
}
use mathlib.Core.Path.{subst}
use mathlib.Core.List.{append-nil}
use service_template.DataStruct.Heap.{
  Ends-mono, ends, Ptr, null, node, Heap, Ends, done, write, alloc, set_next,
}
use service_template.DataStruct.LinkedList.{LinkedList, push_front, push_back, is_empty}
use service_template.DataStruct.LinkedList.Shape.{
  Cells, first, last, values, Chain, IsList, Represents,
}
use service_template.DataStruct.LinkedList.Splice.{
  Apart-of_fresh, Chain-splice, cell-last, frame, not-has_of_fresh, set_next-eq-done, last-append,
  last_value,
}

pub is_empty-true : (ll : LinkedList) → ll.size ≡ 0 → is_empty ll ≡ true
unfolding is_empty
is_empty-true ll e = ground arith

pub is_empty-false : (ll : LinkedList) (n : ℕ) → ll.size ≡ suc n → is_empty ll ≡ false
unfolding is_empty
is_empty-false ll n e = ground arith

module _ {T : Type 0} where
  -- The heap after `alloc`, and after a write to the node that it made.
  abbrev pub grown : Heap T → T → Ptr → Heap T
  grown h v q = record { cell = (write h h.fresh (node v q)).cell; fresh = suc h.fresh }

  abbrev pub linked : Heap T → T → Ptr → Heap T
  linked h v q = write (grown h v null) h.fresh (node v q)

  pub Chain-grown :
      (h : Heap T) (v : T) (q stop : Ptr) (xs : Cells T)
      → Chain h stop xs
      → Chain (grown h v q) stop xs
  unfolding write
  Chain-grown h v q stop xs c =
      frame h (grown h v q) stop xs c (omega arith)
        (λ a e. ground (arith, not-has_of_fresh h stop a xs c))

  pub Chain-linked :
      (h : Heap T) (v : T) (stop : Ptr) (xs : Cells T)
      → (h.fresh == null) ≡ false
      → Chain h stop xs
      → Chain (linked h v (first xs stop)) stop ((h.fresh, v) ∷ xs)
  unfolding write
  Chain-linked h v stop xs ne c = (
    ne,
    omega arith,
    ground arith,
    not-has_of_fresh h stop h.fresh xs c (omega arith),
    frame h (linked h v (first xs stop)) stop xs c (omega arith)
        (λ a e. ground (arith, not-has_of_fresh h stop a xs c)),
  )

  pub values-append : (xs ys : Cells T) → values (xs ++ ys) ≡ values xs ++ values ys
  values-append [] ys = refl
  values-append ((_, v) ∷ xs) ys = ap (λ vs. v ∷ vs) (values-append xs ys)

module _ {T : Type 0} (h : Heap T) (ll : LinkedList) (v : T) (ne : (h.fresh == null) ≡ false) where
  abbrev Pushed : Cells T → LinkedList → Heap T → Type 0
  Pushed xs ll' h' = IsList h' ll' xs × ((h'.fresh == null) ≡ false)

  -- The new node alone, which either operation leaves in an empty list.
  alone : Cells T
  alone = (h.fresh, v) ∷ []

  node_at_fresh : set_next h.fresh ll.head (grown h v null) ≡ done tt (linked h v ll.head)
  unfolding write
  node_at_fresh = set_next-eq-done (grown h v null) h.fresh null ll.head v ne (ground arith)

  Chain-alone : Chain (grown h v null) null alone
  unfolding write alone
  Chain-alone = (ne, omega arith, ground arith, refl, tt)

  pub push_front-IsList :
      (xs : Cells T) → IsList h ll xs → Ends (Pushed ((h.fresh, v) ∷ xs)) (push_front v ll h)
  unfolding push_front alloc alone
  push_front-IsList [] is = rw (is_empty-true ll is.size) (
      ends (
        record { chain = Chain-alone; head = refl; tail = refl; size = omega (arith, is.size) },
        ground arith,
      ))
  push_front-IsList ((a, w) ∷ xs) is =
      rw (is_empty-false ll (length xs) is.size, node_at_fresh)
        (ends (
          record {
            chain =
                subst (λ p. Chain (linked h v p) null ((h.fresh, v) ∷ (a, w) ∷ xs)) (sym is.head)
                  (Chain-linked h v null ((a, w) ∷ xs) ne is.chain);
            head = refl;
            tail = is.tail;
            size = omega (arith, is.size);
          },
          unfold write in ground arith,
        ))

  pub push_back-IsList :
      (xs : Cells T) → IsList h ll xs → Ends (Pushed (xs ++ (h.fresh, v) ∷ [])) (push_back v ll h)
  unfolding push_back alloc alone
  push_back-IsList [] is = rw (is_empty-true ll is.size) (
      ends (
        record { chain = Chain-alone; head = refl; tail = refl; size = omega (arith, is.size) },
        ground arith,
      ))
  push_back-IsList ((a, w) ∷ xs) is =
      let old : Chain (grown h v null) null ((a, w) ∷ (xs ++ [])) =
        rw (append-nil xs) (Chain-grown h v null null ((a, w) ∷ xs) is.chain) in
      let at_last = cell-last (grown h v null) null a w xs [] old in
      let apart = Apart-of_fresh h null h.fresh v ((a, w) ∷ xs) is.chain (omega arith) in
      rw
        (
          is_empty-false ll (length xs) is.size,
          is.tail,
          set_next-eq-done (grown h v null) (last xs a) null h.fresh (last_value w xs) at_last.0
              at_last.1,
        )
        (ends (
          record {
            chain =
                Chain-splice (grown h v null) null a w xs [] ((h.fresh, v) ∷ []) old Chain-alone
                  apart;
            head = is.head;
            tail = rw (last-append xs ((h.fresh, v) ∷ []) a);
            size = omega (arith, is.size, length-append xs ((h.fresh, v) ∷ []));
          },
          unfold write in ground arith,
        ))

-- `PushFront` puts the value in front of the list's values, `PushBack` behind them.
pub push-Represents :
    {T : Type 0} {h : Heap T} {ll : LinkedList} {vs : List T} (v : T)
    → Represents h ll vs
    → Ends (λ ll' h'. Represents h' ll' (v ∷ vs)) (push_front v ll h)
      × Ends (λ ll' h'. Represents h' ll' (vs ++ v ∷ [])) (push_back v ll h)
push-Represents {h} {ll} v r = (
  Ends-mono (push_front-IsList h ll v r.allocates r.cells r.is_list) (λ ll' h' p. record {
    cells = _;
    is_list = p.0;
    is_values = ap (λ ws. v ∷ ws) r.is_values;
    allocates = p.1;
  }),
  Ends-mono (push_back-IsList h ll v r.allocates r.cells r.is_list) (λ ll' h' p. record {
    cells = _;
    is_list = p.0;
    is_values = values-append r.cells ((h.fresh, v) ∷ []) ∙ ap (λ ws. ws ++ v ∷ []) r.is_values;
    allocates = p.1;
  }),
)
