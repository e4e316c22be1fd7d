-- ===== src/DataStruct/LinkedList/Shape.antt =====
-- What a chain of nodes stands for: its addresses and values, in order.
use service_template.Base.{◌≡◌, ◌<◌, Bool, false, ◌||◌, some, List, [], ◌∷◌, ◌==◌, length}
use service_template.DataStruct.Heap.{Ptr, null, node, Heap}
use service_template.DataStruct.LinkedList.{LinkedList}

abbrev pub Cells : Type 0 → Type 0
Cells T = List (Ptr × T)

module _ {T : Type 0} where
  -- The address of the first node, or `stop` if there is none.
  abbrev pub first : Cells T → Ptr → Ptr
  first [] stop = stop
  first ((a, _) ∷ xs) stop = a

  abbrev pub last : Cells T → Ptr → Ptr
  last [] d = d
  last ((a, _) ∷ xs) d = last xs a

  abbrev pub has : Ptr → Cells T → Bool
  has a [] = false
  has a ((b, _) ∷ xs) = (a == b) || has a xs

  abbrev pub values : Cells T → List T
  values [] = []
  values ((_, v) ∷ xs) = v ∷ values xs

  -- The nodes `xs` stand in the heap, each once, linked in order, the last one to `stop`.
  abbrev pub Chain : Heap T → Ptr → Cells T → Type 0
  Chain h stop [] = Unit
  Chain h stop ((a, v) ∷ xs) =
      ((a == null) ≡ false)
      × (a < h.fresh)
      × (h.cell a ≡ some (node v (first xs stop)))
      × (has a xs ≡ false)
      × Chain h stop xs

  -- `ll` is the list whose nodes are `xs`.
  pub record IsList (h : Heap T) (ll : LinkedList) (xs : Cells T) : Type 0 where
    pub chain : Chain h null xs
    pub head : ll.head ≡ first xs null
    pub tail : ll.tail ≡ last xs null
    pub size : ll.size ≡ length xs

  -- The list's values are `vs`, in a heap whose allocator is past address 0.
  pub record Represents (h : Heap T) (ll : LinkedList) (vs : List T) : Type 0 where
    pub cells : Cells T
    pub is_list : IsList h ll cells
    pub is_values : values cells ≡ vs
    pub allocates : (h.fresh == null) ≡ false
