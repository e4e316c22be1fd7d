-- ===== src/DataStruct/Queue.antt =====
-- pkg/data_struct/queue.go: `Queue[T]`. A slice is the list of its items; no other code holds the
-- backing array. A read past the end, which `q.items[0]` never makes, would be `none` of `head?`.
use service_template.Base.{
  ℕ, zero, suc, ◌≡◌, refl, Bool, List, [], ◌∷◌, ◌++◌, ◌==◌, length, drop, index_items, Outcome,
  returned, ◌+◌, true, false, length-append, if◌then◌else◌, Result, ok, err, ap, suc-ne-zero,
}
use mathlib.Core.List.{append_assoc, append-nil}

pub record Queue (T : Type 0) : Type 0 where
  pub items : List T

pub data Error : Type 0 where
  empty_queue : Error

module _ {T : Type 0} where
  abbrev pub new_queue : Queue T
  new_queue = record { items = [] }

  unfoldable pub enqueue : T → Queue T → Queue T
  enqueue value q = record { items = q.items ++ value ∷ [] }

  unfoldable pub dequeue : Queue T → Outcome (Result Error T × Queue T)
  dequeue q =
      if length q.items == 0
      then returned (err empty_queue, q)
      else index_items q.items 0 (λ v. (ok v, record { items = drop 1 q.items }))

  unfoldable pub peek : Queue T → Outcome (Result Error T)
  peek q = if length q.items == 0 then returned (err empty_queue) else index_items q.items 0 ok

  abbrev pub size : Queue T → ℕ
  size q = length q.items

  unfoldable pub is_empty : Queue T → Bool
  is_empty q = length q.items == 0

  -- The values are handed out in the order in which they came in, the oldest first, with none lost:
  -- a client that enqueues `vs` and then dequeues as long as the queue is not empty.
  abbrev pub enqueue_all : List T → Queue T → Queue T
  enqueue_all [] q = q
  enqueue_all (v ∷ vs) q = enqueue_all vs (enqueue v q)

  abbrev pub dequeue_all : ℕ → Queue T → List T
  dequeue_all zero q = []
  dequeue_all (suc n) q = elim (dequeue q) [ returned (ok v, q') ↦ v ∷ dequeue_all n q' | _ ↦ [] ]

  enqueue_all-items : (vs : List T) (q : Queue T) → (enqueue_all vs q).items ≡ q.items ++ vs
  unfolding enqueue
  enqueue_all-items [] q = rw (append-nil q.items)
  enqueue_all-items (v ∷ vs) q =
      rw (enqueue_all-items vs (enqueue v q), append_assoc q.items (v ∷ []) vs)

  dequeue-cons :
      (v : T) (vs : List T) (q : Queue T)
      → q.items ≡ v ∷ vs
      → dequeue q ≡ returned (ok v, record { items = vs })
  unfolding dequeue
  dequeue-cons v vs q e = rw (e, suc-ne-zero (length vs))

  dequeue_all-items : (vs : List T) (q : Queue T) → q.items ≡ vs → dequeue_all (length vs) q ≡ vs
  dequeue_all-items [] q e = refl
  dequeue_all-items (v ∷ vs) q e =
      rw (dequeue-cons v vs q e, dequeue_all) (ap (λ ws. v ∷ ws) (dequeue_all-items vs _ refl))

-- What the three operations answer for a queue with no item, and for one with a first item.
abbrev pub Answers : {T : Type 0} → Queue T → Type 0
Answers q =
    (dequeue q ≡ elim q.items [
      | [] ↦ returned (err empty_queue, q)
      | v ∷ vs ↦ returned (ok v, record { items = vs })
    ])
    × (peek q ≡ elim q.items [ [] ↦ returned (err empty_queue) | v ∷ _ ↦ returned (ok v) ])
    × (is_empty q ≡ elim q.items [ [] ↦ true | _ ∷ _ ↦ false ])

-- First in, first out, with nothing lost: the values that a queue holds and then those enqueued
-- come out of it in that order.
pub dequeue_all-enqueue_all :
    {T : Type 0} (vs : List T) (q : Queue T)
    → dequeue_all (length q.items + length vs) (enqueue_all vs q) ≡ q.items ++ vs
dequeue_all-enqueue_all vs q =
    rw (← length-append q.items vs)
      (dequeue_all-items (q.items ++ vs) (enqueue_all vs q) (enqueue_all-items vs q))

queue-Answers : {T : Type 0} (vs : List T) → Answers (record { items = vs })
unfolding dequeue peek is_empty
queue-Answers [] = (refl, refl, refl)
queue-Answers (v ∷ vs) =
    (rw (suc-ne-zero (length vs)), rw (suc-ne-zero (length vs)), suc-ne-zero (length vs))

-- `Dequeue`, `Peek` and `IsEmpty` never panic. On a queue with no item the first two fail, and
-- `Dequeue` leaves it as it is; otherwise both answer the oldest item, and `Dequeue` alone takes it
-- away. `IsEmpty` tells the two apart.
pub dequeue-Answers : {T : Type 0} (q : Queue T) → Answers q
dequeue-Answers q = queue-Answers q.items
