-- ===== src/DataStruct/LinkedList/Splice.antt =====
-- A write to the `next` field of the last node of a front part replaces what follows it.
use service_template.Base.{
  ℕ, zero, suc, ◌≡◌, ◌<◌, ◌≤◌, refl, true, false, ◌||◌, some, [], ◌∷◌, ◌++◌, arith, ◌==◌, length,
  Bool-cases, inl, inr, ap, ==_iff,
}
use service_template.DataStruct.Heap.{Ptr, null, Node, node, Heap, done, load, write, set_next}
use service_template.DataStruct.LinkedList.{walk}
use service_template.DataStruct.LinkedList.Shape.{Cells, first, last, has, Chain}

-- Equal addresses answer alike.
pub has-cong : {T : Type 0} (a b : Ptr) (xs : Cells T) → (a == b) ≡ true → has a xs ≡ has b xs
has-cong a b xs e = ap (λ p. has p xs) ((==_iff a b).0 e)

module _ {T : Type 0} where
  -- No address of `ys` is one of `zs`.
  abbrev pub Apart : Cells T → Cells T → Type 0
  Apart [] zs = Unit
  Apart ((a, _) ∷ ys) zs = (has a zs ≡ false) × Apart ys zs

  pub has-append : (a : Ptr) (ys zs : Cells T) → has a (ys ++ zs) ≡ (has a ys || has a zs)
  has-append a [] zs = refl
  has-append a ((b, _) ∷ ys) zs = ground (arith, has-append a ys zs)

  pub first-append :
      (ys zs : Cells T) (stop : Ptr) → first (ys ++ zs) stop ≡ first ys (first zs stop)
  first-append [] zs stop = refl
  first-append (_ ∷ ys) zs stop = refl

  pub last-append : (ys zs : Cells T) (d : Ptr) → last (ys ++ zs) d ≡ last zs (last ys d)
  last-append [] zs d = refl
  last-append ((a, _) ∷ ys) zs d = last-append ys zs a

  pub has-last : (a : Ptr) (v : T) (ys : Cells T) → has (last ys a) ((a, v) ∷ ys) ≡ true
  has-last a v [] = ground arith
  has-last a v ((b, w) ∷ ys) = ground (arith, has-last b w ys)

  -- A part of a chain is a chain that ends where the rest begins.
  pub Chain-front :
      (h : Heap T) (stop : Ptr) (ys zs : Cells T)
      → Chain h stop (ys ++ zs)
      → Chain h (first zs stop) ys
  Chain-front h stop [] zs c = tt
  Chain-front h stop ((a, v) ∷ ys) zs c = (
    c.0,
    c.1,
    rw (first-append ys zs stop) at (c.2),
    ground (arith, has-append a ys zs),
    Chain-front h stop ys zs c.4,
  )

  pub Chain-back :
      (h : Heap T) (stop : Ptr) (ys zs : Cells T) → Chain h stop (ys ++ zs) → Chain h stop zs
  Chain-back h stop [] zs c = c
  Chain-back h stop (_ ∷ ys) zs c = Chain-back h stop ys zs c.4

  pub Chain-Apart :
      (h : Heap T) (stop : Ptr) (ys zs : Cells T) → Chain h stop (ys ++ zs) → Apart ys zs
  Chain-Apart h stop [] zs c = tt
  Chain-Apart h stop ((a, v) ∷ ys) zs c =
      (ground (arith, has-append a ys zs), Chain-Apart h stop ys zs c.4)

  -- Every address of a chain lies below `fresh`.
  pub lt-fresh_of_has :
      (h : Heap T) (stop a : Ptr) (xs : Cells T) → Chain h stop xs → has a xs ≡ true → a < h.fresh
  lt-fresh_of_has h stop a [] c e = absurd (cc)
  lt-fresh_of_has h stop a ((b, v) ∷ xs) c e = ground (arith, lt-fresh_of_has h stop a xs c.4)

  pub not-has_of_fresh :
      (h : Heap T) (stop a : Ptr) (xs : Cells T) → Chain h stop xs → h.fresh ≤ a → has a xs ≡ false
  not-has_of_fresh h stop a xs c le = elim (Bool-cases (has a xs)) [
    | inl yes_ ↦ absurd (omega (arith, lt-fresh_of_has h stop a xs c yes_))
    | inr no_ ↦ no_
  ]

  pub Apart-of_fresh :
      (h : Heap T) (stop a : Ptr) (v : T) (ys : Cells T)
      → Chain h stop ys
      → h.fresh ≤ a
      → Apart ys ((a, v) ∷ [])
  Apart-of_fresh h stop a v [] c le = tt
  Apart-of_fresh h stop a v ((b, w) ∷ ys) c le = (ground arith, Apart-of_fresh h stop a v ys c.4 le)

  pub Apart-cons :
      (ys zs : Cells T) (a : Ptr) (v : T)
      → Apart ys ((a, v) ∷ [])
      → Apart ys zs
      → Apart ys ((a, v) ∷ zs)
  Apart-cons [] zs a v p q = tt
  Apart-cons ((b, w) ∷ ys) zs a v p q = (ground arith, Apart-cons ys zs a v p.1 q.1)

  pub Apart-tail : (ys zs : Cells T) (a : Ptr) (v : T) → Apart ys ((a, v) ∷ zs) → Apart ys zs
  Apart-tail [] zs a v p = tt
  Apart-tail ((b, w) ∷ ys) zs a v p = (ground arith, Apart-tail ys zs a v p.1)

  pub Apart-nil : (ys : Cells T) → Apart ys []
  Apart-nil [] = tt
  Apart-nil (_ ∷ ys) = (refl, Apart-nil ys)

  -- A chain survives a change that spares its addresses and takes no `fresh` address back.
  pub frame :
      (h g : Heap T) (stop : Ptr) (xs : Cells T)
      → Chain h stop xs
      → h.fresh ≤ g.fresh
      → ((a : Ptr) → has a xs ≡ true → g.cell a ≡ h.cell a)
      → Chain g stop xs
  frame h g stop [] c le same = tt
  frame h g stop ((a, v) ∷ xs) c le same = (
    c.0,
    omega arith,
    ground (arith, same a),
    c.3,
    frame h g stop xs c.4 le (λ b e. same b (ground arith)),
  )

  pub frame-write :
      (h : Heap T) (stop a : Ptr) (v : T) (q : Ptr) (xs : Cells T)
      → Chain h stop xs
      → has a xs ≡ false
      → Chain (write h a (node v q)) stop xs
  unfolding write
  frame-write h stop a v q xs c out =
      frame h (write h a (node v q)) stop xs c (omega arith) (λ b e. ground arith)

  pub fresh-write : (h : Heap T) (p : Ptr) (n : Node T) → (write h p n).fresh ≡ h.fresh
  unfolding write
  fresh-write h p n = refl

  abbrev pub last_value : T → Cells T → T
  last_value v [] = v
  last_value v ((_, w) ∷ ys) = last_value w ys

  -- What stands at the last node of a front part.
  pub cell-last :
      (h : Heap T) (stop a : Ptr) (v : T) (ys zs : Cells T)
      → Chain h stop ((a, v) ∷ (ys ++ zs))
      → ((last ys a == null) ≡ false)
        × (h.cell (last ys a) ≡ some (node (last_value v ys) (first zs stop)))
  cell-last h stop a v [] zs c = (c.0, c.2)
  cell-last h stop a v ((b, w) ∷ ys) zs c = cell-last h stop b w ys zs c.4

  pub load-eq-done :
      (h : Heap T) (p q : Ptr) (v : T)
      → (p == null) ≡ false
      → h.cell p ≡ some (node v q)
      → load p h ≡ done (node v q) h
  unfolding load
  load-eq-done h p q v e f = rw (e, f)

  pub set_next-eq-done :
      (h : Heap T) (p q r : Ptr) (v : T)
      → (p == null) ≡ false
      → h.cell p ≡ some (node v q)
      → set_next p r h ≡ done tt (write h p (node v r))
  unfolding set_next
  set_next-eq-done h p q r v e f = rw (load-eq-done h p q v e f)

  -- After the write the front part is followed by `zs'` in place of `zs`.
  pub Chain-splice :
      (h : Heap T) (stop a : Ptr) (v : T) (ys zs zs' : Cells T)
      → Chain h stop ((a, v) ∷ (ys ++ zs))
      → Chain h stop zs'
      → Apart ((a, v) ∷ ys) zs'
      → Chain
          (write h (last ys a) (node (last_value v ys) (first zs' stop)))
          stop
          ((a, v) ∷ (ys ++ zs'))
  unfolding write
  Chain-splice h stop a v [] zs zs' c d ap =
      (c.0, c.1, ground arith, ap.0, frame-write h stop a v (first zs' stop) zs' d ap.0)
  Chain-splice h stop a v ((b, w) ∷ ys) zs zs' c d ap =
      let h' = write h (last ys b) (node (last_value w ys) (first zs' stop)) in
      let ne : (a == last ys b) ≡ false = ground (
        arith,
        has-last b w ys,
        has-append a ((b, w) ∷ ys) zs,
        has-cong a (last ys b) ((b, w) ∷ ys),
      ) in
      (
        c.0,
        c.1,
        rw ne (c.2),
        ground (arith, has-append a ys zs, has-append a ys zs', c.3, ap.0),
        Chain-splice h stop b w ys zs zs' c.4 d ap.1,
      )

  pub walk-eq-done :
      (h : Heap T) (stop : Ptr) (i : ℕ) (ys zs : Cells T)
      → Chain h stop (ys ++ zs)
      → length ys ≡ i
      → walk i (first (ys ++ zs) stop) h ≡ done (first zs stop) h
  unfolding walk
  walk-eq-done h stop zero [] zs c e = refl
  walk-eq-done h stop zero (_ ∷ ys) zs c e = absurd (omega arith)
  walk-eq-done h stop (suc i) [] zs c e = absurd (omega arith)
  walk-eq-done h stop (suc i) ((a, v) ∷ ys) zs c e =
      rw (load-eq-done h a (first (ys ++ zs) stop) v c.0 c.2)
        (walk-eq-done h stop i ys zs c.4 (omega arith))
