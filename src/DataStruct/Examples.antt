-- ===== src/DataStruct/Examples.antt =====
-- Runs of the containers, and their theorems at concrete lists.
use service_template.Base.{ℕ, zero, suc, refl, List, [], ◌∷◌, arith, ok, pos}
use mathlib.Core.Option.{none}
use service_template.DataStruct.Heap.{null, Heap, Ends, node, write}
use service_template.DataStruct.LinkedList.{LinkedList, new_linked_list, insert, remove}
use service_template.DataStruct.LinkedList.Shape.{Represents}
use service_template.DataStruct.LinkedList.Pop.{Answers}
use service_template.DataStruct.LinkedList.Index.{insert-Represents, remove-Represents}
use service_template.DataStruct.Queue.{Queue}
use service_template.DataStruct.Stack.{Stack}

abbrev no_nodes : Heap ℕ
no_nodes = record { cell = λ _. none; fresh = 1 }

-- What three calls of `PushBack` on a new list leave.
abbrev three_heap : Heap ℕ
three_heap =
    write (write (write (record { cell = λ _. none; fresh = 4 }) 1 (node 10 2)) 2 (node 20 3)) 3
      (node 30 null)

abbrev three_list : LinkedList
three_list = record { head = 1; tail = 3; size = 3 }

three-Represents : Represents three_heap three_list (10 ∷ 20 ∷ 30 ∷ [])
unfolding write
three-Represents = record {
  cells = (1, 10) ∷ (2, 20) ∷ (3, 30) ∷ [];
  is_list = record {
    chain = (
      refl,
      omega arith,
      refl,
      refl,
      (refl, omega arith, refl, refl, (refl, omega arith, refl, refl, tt)),
    );
    head = refl;
    tail = refl;
    size = refl;
  };
  is_values = refl;
  allocates = refl;
}

empty-Represents : Represents no_nodes new_linked_list []
empty-Represents = record {
  cells = [];
  is_list = record { chain = tt; head = refl; tail = refl; size = refl };
  is_values = refl;
  allocates = refl;
}

insert-Represents_example :
    Ends (Answers (ok tt) (10 ∷ 15 ∷ 20 ∷ 30 ∷ [])) (insert (pos 1) 15 three_list three_heap)
insert-Represents_example = insert-Represents (10 ∷ []) (20 ∷ 30 ∷ []) 15 three-Represents

remove-Represents_example :
    Ends (Answers (ok 20) (10 ∷ 30 ∷ [])) (remove (pos 1) three_list three_heap)
remove-Represents_example = remove-Represents (10 ∷ []) 20 (30 ∷ []) three-Represents

-- A number as that many strokes.
abbrev strokes : ℕ → List ℕ
strokes zero = []
strokes (suc n) = b'|' ∷ strokes n

abbrev two_items : Queue ℕ
two_items = record { items = 1 ∷ 2 ∷ [] }

abbrev two_deep : Stack ℕ
two_deep = record { items = 1 ∷ 2 ∷ [] }
