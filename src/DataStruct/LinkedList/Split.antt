-- ===== src/DataStruct/LinkedList/Split.antt =====
-- Where the values of a list fall into parts, its nodes do.
use service_template.Base.{suc, ◌≡◌, refl, List, [], ◌∷◌, ◌++◌, length, ap, ◌∙◌, sym, ◌==◌, false}
use mathlib.Core.Path.{subst}
use service_template.DataStruct.Heap.{Ptr, Heap}
use service_template.DataStruct.LinkedList.{LinkedList}
use service_template.DataStruct.LinkedList.Shape.{Cells, values, IsList, Represents}

module _ {T : Type 0} where
  pub length-values : (xs : Cells T) → length (values xs) ≡ length xs
  length-values [] = refl
  length-values ((_, v) ∷ xs) = ap suc (length-values xs)

  record Parts (xs : Cells T) (us ws : List T) : Type 0 where
    front : Cells T
    back : Cells T
    cells : xs ≡ front ++ back
    of_front : values front ≡ us
    of_back : values back ≡ ws

  cells-Parts : (xs : Cells T) (us ws : List T) → values xs ≡ us ++ ws → Parts xs us ws
  cells-Parts xs [] ws e = record {
    front = [];
    back = xs;
    cells = refl;
    of_front = refl;
    of_back = e;
  }
  cells-Parts [] (u ∷ us) ws e = absurd (cc)
  cells-Parts ((a, v) ∷ xs) (u ∷ us) ws e =
      let p = cells-Parts xs us ws (cc) in
      record {
        front = (a, v) ∷ p.front;
        back = p.back;
        cells = ap (λ ys. (a, v) ∷ ys) p.cells;
        of_front = cc (p.of_front);
        of_back = p.of_back;
      }

  -- A list that represents two parts, with the nodes of each.
  pub record Split (h : Heap T) (ll : LinkedList) (us ws : List T) : Type 0 where
    pub front : Cells T
    pub back : Cells T
    pub is_list : IsList h ll (front ++ back)
    pub of_front : values front ≡ us
    pub of_back : values back ≡ ws
    pub count : length front ≡ length us
    pub allocates : (h.fresh == 0) ≡ false

  pub Represents-Split :
      {h : Heap T} {ll : LinkedList} (us ws : List T)
      → Represents h ll (us ++ ws)
      → Split h ll us ws
  Represents-Split {h} {ll} us ws r =
      let p = cells-Parts r.cells us ws r.is_values in
      record {
        front = p.front;
        back = p.back;
        is_list = subst (λ xs. IsList h ll xs) p.cells r.is_list;
        of_front = p.of_front;
        of_back = p.of_back;
        count = sym (length-values p.front) ∙ ap length p.of_front;
        allocates = r.allocates;
      }

  -- The node of a value in front of others.
  pub record Headed (zs : Cells T) (v : T) (ws : List T) : Type 0 where
    pub address : Ptr
    pub rest : Cells T
    pub cells : zs ≡ (address, v) ∷ rest
    pub of_rest : values rest ≡ ws

  pub cells-Headed : (zs : Cells T) (v : T) (ws : List T) → values zs ≡ v ∷ ws → Headed zs v ws
  cells-Headed [] v ws e = absurd (cc)
  cells-Headed ((a, u) ∷ zs) v ws e = record { address = a; rest = zs; cells = cc; of_rest = cc }
