-- ===== src/DataStruct/Heap.antt =====
-- The nodes of pkg/data_struct/linked_list.go at addresses, and commands that read and write them.
-- Address 0 is Go's nil; reading through it, or through an address with no node, panics.
use service_template.Base.{ℕ, suc, Option, none, some, ◌==◌, if◌then◌else◌}

abbrev pub Ptr : Type 0
Ptr = ℕ

abbrev pub null : Ptr
null = 0

-- `Node[T]`
pub record Node (T : Type 0) : Type 0 where
  pub value : T
  pub next : Ptr

abbrev pub node : {T : Type 0} → T → Ptr → Node T
node v q = record { value = v; next = q }

-- `fresh` is the next address that Go's allocator hands out.
pub record Heap (T : Type 0) : Type 0 where
  pub cell : Ptr → Option (Node T)
  pub fresh : Ptr

pub data Run (T A : Type 0) : Type 0 where
  done : A → Heap T → Run T A
  panic : Run T A
  out_of_fuel : Run T A

-- The run neither panics nor is out of fuel, and what it ends with satisfies `P`.
pub data Ends {T A : Type 0} (P : A → Heap T → Type 0) : Run T A → Type 0 where
  ends : {a : A} {h : Heap T} → P a h → Ends P (done a h)

pub Ends-mono :
    {T A : Type 0} {P Q : A → Heap T → Type 0} {r : Run T A}
    → Ends P r
    → ((a : A) (h : Heap T) → P a h → Q a h)
    → Ends Q r
Ends-mono (ends p) weaken = ends (weaken _ _ p)

abbrev pub Cmd : Type 0 → Type 0 → Type 0
Cmd T A = Heap T → Run T A

module _ {T : Type 0} where
  abbrev pub pure : {A : Type 0} → A → Cmd T A
  pure a h = done a h

  abbrev pub and_then : {A B : Type 0} → Run T A → (A → Cmd T B) → Run T B
  and_then (done a h) k = k a h
  and_then panic k = panic
  and_then out_of_fuel k = out_of_fuel

  infixl 5 ◌>>=◌ ◌>>◌
  abbrev pub ◌>>=◌ : {A B : Type 0} → Cmd T A → (A → Cmd T B) → Cmd T B
  ◌>>=◌ m k h = and_then (m h) k

  abbrev pub ◌>>◌ : {B : Type 0} → Cmd T (Unit {0}) → Cmd T B → Cmd T B
  m >> n = m >>= λ _. n

  unfoldable pub write : Heap T → Ptr → Node T → Heap T
  write h p c = record h { cell = λ a. if a == p then some c else h.cell a }

  -- `&Node[T]{Value: v, next: q}`
  unfoldable pub alloc : T → Ptr → Cmd T Ptr
  unfolding write
  alloc v q h =
      done h.fresh (record { cell = (write h h.fresh (node v q)).cell; fresh = suc h.fresh })

  unfoldable pub load : Ptr → Cmd T (Node T)
  load p h = if p == null then panic else elim (h.cell p) [ none ↦ panic | some n ↦ done n h ]

  -- `p.next = q`
  unfoldable pub set_next : Ptr → Ptr → Cmd T (Unit {0})
  set_next p q = do n ← load p; (λ h. done tt (write h p (node n.value q)))

module _ {T A B : Type 0} {P : A → Heap T → Type 0} {Q : B → Heap T → Type 0} where
  pub Ends-and_then :
      {r : Run T A} {k : A → Cmd T B}
      → Ends P r
      → ((a : A) (h : Heap T) → P a h → Ends Q (k a h))
      → Ends Q (and_then r k)
  Ends-and_then (ends p) rest = rest _ _ p
