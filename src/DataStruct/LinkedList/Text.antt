-- ===== src/DataStruct/LinkedList/Text.antt =====
-- `String` of pkg/data_struct/linked_list.go. `show` is what `fmt.Sprintf("%v", v)` prints, from
-- outside the repository; a text is the list of its code points.
use service_template.Base.{
  ℕ, zero, suc, ◌≡◌, ◌<◌, ◌+◌, refl, String, List, [], ◌∷◌, ◌++◌, arith, ◌==◌, if◌then◌else◌,
  length, not, ◌∙◌, ap, sym,
}
use Prim.Native.Char.{code}
use mathlib.Core.List.{append_assoc, append-nil}
use service_template.DataStruct.Heap.{Ptr, null, Heap, Cmd, out_of_fuel, pure, ◌>>=◌, done, load}
use service_template.DataStruct.LinkedList.{LinkedList, is_empty}
use service_template.DataStruct.LinkedList.Push.{is_empty-true, is_empty-false}
use service_template.DataStruct.LinkedList.Shape.{Cells, first, values, Chain, IsList, Represents}
use service_template.DataStruct.LinkedList.Splice.{load-eq-done}

abbrev pub codes : String → List ℕ
codes String.[] = []
codes (String.◌∷◌ c s) = code c ∷ codes s

module _ {T : Type 0} (show : T → List ℕ) where
  -- `for current != nil { … }`, on fuel
  unfoldable pub text_loop : ℕ → Ptr → List ℕ → Cmd T (List ℕ)
  text_loop zero current result = λ _. out_of_fuel
  text_loop (suc fuel) current result = if current == null then pure result else (do
    n ← load current
    let shown = result ++ show n.value
    text_loop fuel n.next (if not (n.next == null) then shown ++ codes " -> " else shown))

  unfoldable pub text : LinkedList → Cmd T (List ℕ)
  text ll =
      if is_empty ll
      then pure (codes "[]")
      else (do result ← text_loop (ll.size + 1) ll.head (codes "["); pure (result ++ codes "]"))

  -- The values with " -> " between neighbours.
  unfoldable pub joined : List T → List ℕ
  joined [] = []
  joined (v ∷ []) = show v
  joined (v ∷ w ∷ vs) = show v ++ (codes " -> " ++ joined (w ∷ vs))

  text_loop-joined :
      (h : Heap T) (fuel : ℕ) (xs : Cells T) (result : List ℕ)
      → Chain h null xs
      → length xs < fuel
      → text_loop fuel (first xs null) result h ≡ done (result ++ joined (values xs)) h
  unfolding text_loop joined
  text_loop-joined h zero xs result c lt = absurd (omega arith)
  text_loop-joined h (suc fuel) [] result c lt = ap (λ r. done r h) (sym (append-nil result))
  text_loop-joined h (suc fuel) ((a, v) ∷ []) result c lt =
      rw (c.0, load-eq-done h a null v c.0 c.2)
        (text_loop-joined h fuel [] (result ++ show v) tt (omega arith)
          ∙ ap (λ r. done r h) (append-nil (result ++ show v)))
  text_loop-joined h (suc fuel) ((a, v) ∷ (b, w) ∷ xs) result c lt =
      rw (c.0, load-eq-done h a b v c.0 c.2, c.4.0)
        (text_loop-joined h fuel ((b, w) ∷ xs) _ c.4 (omega arith)
          ∙ ap (λ r. done r h) (simp append_assoc))

  -- `String` prints the values in order between brackets, with " -> " between neighbours, and
  -- changes nothing; its loop ends, since the list has `size` nodes.
  pub text-joined :
      {h : Heap T} {ll : LinkedList} {vs : List T}
      → Represents h ll vs
      → text ll h ≡ done (codes "[" ++ (joined vs ++ codes "]")) h
  unfolding text
  text-joined {h} {ll} {vs} r = go r.cells r.is_list r.is_values
    where
      go :
          (xs : Cells T)
          → IsList h ll xs
          → values xs ≡ vs
          → text ll h ≡ done (codes "[" ++ (joined vs ++ codes "]")) h
      go [] is e = rw (is_empty-true ll is.size, ← e) (unfold joined in refl)
      go ((a, v) ∷ xs) is e = rw (
        is_empty-false ll (length xs) is.size,
        is.head,
        text_loop-joined h (ll.size + 1) ((a, v) ∷ xs) (codes "[") is.chain
            (omega (arith, is.size)),
        ← e,
      )
