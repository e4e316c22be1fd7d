-- ===== src/DataStruct/Stack.antt =====
-- pkg/data_struct/stack.go: `Stack[T]`. A slice is the list of its items, its end the top; no other
-- code holds the backing array. Out of range an index or a slice bound panics.
use service_template.Base.{
  ℕ, zero, suc, ◌-◌, ◌≡◌, refl, Bool, some, List, [], ◌∷◌, ◌++◌, arith, ◌==◌, length, take,
  get_elem?, Outcome, returned, index_items, if◌then◌else◌, Result, ok, err, ap, suc-ne-zero,
  length-append, ◌∙◌,
}
use mathlib.Core.List.{reverse, reverse-cons}

pub record Stack (T : Type 0) : Type 0 where
  pub items : List T

pub data Error : Type 0 where
  empty_stack : Error

module _ {T : Type 0} where
  abbrev pub new_stack : Stack T
  new_stack = record { items = [] }

  unfoldable pub push : T → Stack T → Stack T
  push value s = record { items = s.items ++ value ∷ [] }

  unfoldable pub pop : Stack T → Outcome (Result Error T × Stack T)
  pop s =
      if length s.items == 0
      then returned (err empty_stack, s)
      else let top_index = length s.items - 1 in
        index_items s.items top_index (λ v. (ok v, record { items = take top_index s.items }))

  unfoldable pub peek : Stack T → Outcome (Result Error T)
  peek s =
      if length s.items == 0
      then returned (err empty_stack)
      else index_items s.items (length s.items - 1) ok

  abbrev pub size : Stack T → ℕ
  size s = length s.items

  unfoldable pub is_empty : Stack T → Bool
  is_empty s = length s.items == 0

  abbrev pub push_all : List T → Stack T → Stack T
  push_all [] s = s
  push_all (v ∷ vs) s = push_all vs (push v s)

  -- `n` pops in a row: what they answer, and the stack that they leave.
  abbrev pub pop_once : List T × Stack T → List T × Stack T
  pop_once (out, s) = elim (pop s) [ returned (ok v, s') ↦ (out ++ v ∷ [], s') | _ ↦ (out, s) ]

  abbrev pub pop_times : ℕ → Stack T → List T × Stack T
  pop_times zero s = ([], s)
  pop_times (suc n) s = pop_once (pop_times n s)

  top-snoc : (vs : List T) (v : T) → get_elem? (vs ++ v ∷ []) (length vs) ≡ some v
  top-snoc [] v = refl
  top-snoc (_ ∷ vs) v = top-snoc vs v

  take-snoc : (vs : List T) (v : T) → take (length vs) (vs ++ v ∷ []) ≡ vs
  take-snoc [] v = refl
  take-snoc (u ∷ vs) v = ap (λ ws. u ∷ ws) (take-snoc vs v)

  -- What `Push` puts on the stack is what `Pop` and `Peek` answer next, and `Pop` leaves the stack
  -- that there was; on an empty stack both fail, and `Pop` changes nothing. Neither panics.
  pub pop-push :
      (v : T) (s : Stack T)
      → (pop (push v s) ≡ returned (ok v, s))
        × (peek (push v s) ≡ returned (ok v))
        × (pop new_stack ≡ returned (err empty_stack, new_stack))
        × (peek new_stack ≡ returned (err empty_stack))
  unfolding push pop peek
  pop-push v s =
      let n : length (s.items ++ v ∷ []) ≡ suc (length s.items) =
        omega (arith, length-append s.items (v ∷ [])) in
      let m : suc (length s.items) - 1 ≡ length s.items = omega arith in
      (
        rw (take, n, suc-ne-zero (length s.items), m, index_items, top-snoc s.items v)
            (ap (λ vs. returned (ok v, record { items = vs }))
              (ap (λ k. take k (s.items ++ v ∷ [])) (ap (λ k. k - 1) n ∙ m) ∙ take-snoc s.items v)),
        rw (n, suc-ne-zero (length s.items), m, top-snoc s.items v, index_items),
        refl,
        refl,
      )

  -- Last in, first out: after `vs` is pushed, as many pops answer `vs` backwards and leave the stack
  -- that there was.
  pub pop_times-push_all :
      (vs : List T) (s : Stack T) → pop_times (length vs) (push_all vs s) ≡ (reverse vs, s)
  pop_times-push_all [] s = refl
  pop_times-push_all (v ∷ vs) s =
      ap pop_once (pop_times-push_all vs (push v s))
      ∙ rw (pop_once, (pop-push v s).0, reverse-cons v vs)
