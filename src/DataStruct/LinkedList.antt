-- ===== src/DataStruct/LinkedList.antt =====
-- pkg/data_struct/linked_list.go: `LinkedList[T]` over the heap of nodes. The struct itself is a
-- value; an operation that updates it returns the new one. `int` counts nodes and cannot overflow.
-- The loop that `PopBack` walks with takes fuel, and is given `size` rounds.
pub mod Shape
pub mod Splice
pub mod Split
pub mod Push
pub mod Pop
pub mod Index
pub mod Text
use service_template.Base.{
  ℕ, zero, suc, ◌+◌, ◌-◌, ◌≡◌, Bool, true, false, not, ◌&&◌, String, List, [], ◌∷◌, ◌++◌, ℤ, pos,
  negsuc, Result, ok, err, ◌==◌, leb, if◌then◌else◌,
}
use service_template.DataStruct.Heap.{
  Ptr, null, Heap, Cmd, out_of_fuel, pure, ◌>>=◌, ◌>>◌, alloc, load, set_next,
}

pub record LinkedList : Type 0 where
  pub head : Ptr
  pub tail : Ptr
  pub size : ℕ

pub data Error : Type 0 where
  list_empty : Error
  out_of_range : Error

abbrev pub new_linked_list : LinkedList
new_linked_list = record { head = null; tail = null; size = 0 }

unfoldable pub is_empty : LinkedList → Bool
is_empty ll = ll.size == 0

module _ {T : Type 0} where
  unfoldable pub push_front : T → LinkedList → Cmd T LinkedList
  push_front value ll = do
    n ← alloc value null
    if is_empty ll
        then pure (record { head = n; tail = n; size = ll.size + 1 })
        else (do set_next n ll.head; pure (record { head = n; tail = ll.tail; size = ll.size + 1 }))

  unfoldable pub push_back : T → LinkedList → Cmd T LinkedList
  push_back value ll = do
    n ← alloc value null
    if is_empty ll
        then pure (record { head = n; tail = n; size = ll.size + 1 })
        else (do set_next ll.tail n; pure (record { head = ll.head; tail = n; size = ll.size + 1 }))

  unfoldable pub pop_front : LinkedList → Cmd T (Result Error T × LinkedList)
  pop_front ll = if is_empty ll then pure (err list_empty, ll) else (do
    n ← load ll.head
    pure (
      ok n.value,
      record {
        head = n.next;
        tail = if ll.size - 1 == 0 then null else ll.tail;
        size = ll.size - 1;
      },
    ))

  -- `for current.next != nil && current.next != ll.tail`
  unfoldable pub walk_before : ℕ → Ptr → Ptr → Cmd T Ptr
  walk_before zero tail current = λ _. out_of_fuel
  walk_before (suc fuel) tail current = do
    n ← load current
    if not (n.next == null) && not (n.next == tail)
        then walk_before fuel tail n.next
        else pure current

  unfoldable pub pop_back : LinkedList → Cmd T (Result Error T × LinkedList)
  pop_back ll =
      if is_empty ll
      then pure (err list_empty, ll)
      else if ll.head == ll.tail
      then (do n ← load ll.head; pure (ok n.value, new_linked_list))
      else (do
        current ← walk_before ll.size ll.tail ll.head
        n ← load ll.tail
        set_next current null
        pure (ok n.value, record { head = ll.head; tail = current; size = ll.size - 1 }))

  -- `for i := 0; i < count; i++ { current = current.next }`
  unfoldable pub walk : ℕ → Ptr → Cmd T Ptr
  walk zero current = pure current
  walk (suc count) current = do n ← load current; walk count n.next

  unfoldable pub get : ℤ → LinkedList → Cmd T (Result Error T)
  unfolding walk
  get (negsuc _) ll = pure (err out_of_range)
  get (pos index) ll =
      if leb ll.size index
      then pure (err out_of_range)
      else (do current ← walk index ll.head; n ← load current; pure (ok n.value))

  -- The part of `Insert` behind its tests: the walk, the new node and the two links.
  unfoldable pub insert_inside : ℕ → T → LinkedList → Cmd T LinkedList
  insert_inside index value ll = do
    n ← alloc value null
    current ← walk (index - 1) ll.head
    c ← load current
    set_next n c.next
    set_next current n
    pure (record ll { size = ll.size + 1 })

  unfoldable pub insert : ℤ → T → LinkedList → Cmd T (Result Error (Unit {0}) × LinkedList)
  insert (negsuc _) value ll = pure (err out_of_range, ll)
  insert (pos index) value ll =
      if not (leb index ll.size)
      then pure (err out_of_range, ll)
      else if index == 0
      then (do l ← push_front value ll; pure (ok tt, l))
      else if index == ll.size
      then (do l ← push_back value ll; pure (ok tt, l))
      else (do l ← insert_inside index value ll; pure (ok tt, l))

  unfoldable pub remove_inside : ℕ → LinkedList → Cmd T (Result Error T × LinkedList)
  remove_inside index ll = do
    current ← walk (index - 1) ll.head
    c ← load current
    let removed = c.next
    r ← load removed
    set_next current r.next
    pure (
      ok r.value,
      record {
        head = ll.head;
        tail = if removed == ll.tail then current else ll.tail;
        size = ll.size - 1;
      },
    )

  unfoldable pub remove : ℤ → LinkedList → Cmd T (Result Error T × LinkedList)
  remove (negsuc _) ll = pure (err out_of_range, ll)
  remove (pos index) ll =
      if leb ll.size index
      then pure (err out_of_range, ll)
      else if index == 0
      then pop_front ll
      else remove_inside index ll
