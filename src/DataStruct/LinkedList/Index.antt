-- ===== src/DataStruct/LinkedList/Index.antt =====
-- `Get`, `Insert` and `Remove` of pkg/data_struct/linked_list.go.
use service_template.Base.{
  ℕ, suc, ◌-◌, ◌≡◌, ◌<◌, ◌≤◌, refl, false, List, [], ◌∷◌, ◌++◌, arith, ◌==◌, length, length-append,
  ap, ◌∙◌, sym, ok, err, pos, negsuc, false, if◌then◌else◌, lt→not-leb, suc-ne-zero, eq→==,
  lt→not-==, le→leb,
}
use mathlib.Core.Path.{subst, subst₂, ap₂}
use mathlib.Core.List.{append-nil}
use service_template.DataStruct.Heap.{
  Ptr, null, node, Heap, Ends, ends, Ends-mono, Ends-and_then, done, write, alloc,
}
use service_template.DataStruct.LinkedList.{
  LinkedList, out_of_range, walk, get, insert, insert_inside, remove, remove_inside,
}
use service_template.DataStruct.LinkedList.Shape.{
  Cells, first, last, has, Chain, IsList, Represents,
}
use service_template.DataStruct.LinkedList.Splice.{
  Apart-cons, Apart-tail, Apart-of_fresh, Chain-Apart, Chain-front, Chain-splice, cell-last,
  load-eq-done, set_next-eq-done, last-append, last_value, Chain-back, fresh-write, walk-eq-done,
  frame, not-has_of_fresh, has-last, has-cong,
}
use service_template.DataStruct.LinkedList.Push.{
  grown, linked, Chain-grown, Chain-linked, push-Represents, values-append,
}
use service_template.DataStruct.LinkedList.Split.{Represents-Split, cells-Headed, length-values}
use service_template.DataStruct.LinkedList.Pop.{Answers, pop_front-Represents}

module _ {T : Type 0} where
  size-length :
      (h : Heap T) (ll : LinkedList) (vs : List T) → Represents h ll vs → ll.size ≡ length vs
  size-length h ll vs r =
      omega (arith, r.is_list.size, length-values r.cells, ap length r.is_values)

  walk-last :
      (h : Heap T) (a : Ptr) (v : T) (ys zs : Cells T)
      → Chain h null ((a, v) ∷ (ys ++ zs))
      → walk (length ys) a h ≡ done (last ys a) h
  unfolding walk
  walk-last h a v [] zs c = refl
  walk-last h a v ((b, w) ∷ ys) zs c = rw (load-eq-done h a b v c.0 c.2) (walk-last h b w ys zs c.4)

  -- A chain survives the making of a node.
  Chain-kept :
      (h : Heap T) (v : T) (q stop : Ptr) (xs : Cells T)
      → Chain h stop xs
      → Chain (linked h v q) stop xs
  unfolding write
  Chain-kept h v q stop xs c =
      frame h (linked h v q) stop xs c (omega arith)
        (λ a e. ground (arith, not-has_of_fresh h stop a xs c))

  get-cells :
      (h : Heap T) (ll : LinkedList) (i : ℕ) (ys zs : Cells T) (a : Ptr) (v : T)
      → IsList h ll (ys ++ (a, v) ∷ zs)
      → length ys ≡ i
      → get (pos i) ll h ≡ done (ok v) h
  unfolding get
  get-cells h ll i ys zs a v is e =
      let node_ = Chain-back h null ys ((a, v) ∷ zs) is.chain in
      rw (
        lt→not-leb ll.size i (omega (arith, is.size, length-append ys ((a, v) ∷ zs))),
        is.head,
        walk-eq-done h null i ys ((a, v) ∷ zs) is.chain e,
        load-eq-done h a (first zs null) v node_.0 node_.2,
      )

  -- The removed node is the last one exactly if nothing follows it.
  tail_of :
      (t l r : Ptr) (zs : Cells T)
      → t ≡ last zs r
      → has r zs ≡ false
      → (if r == t then l else t) ≡ last zs l
  tail_of t l r [] e out = ground arith
  tail_of t l r ((b, w) ∷ zs) e out =
      let differ : (r == t) ≡ false = ground (arith, has-last b w zs, has-cong r t ((b, w) ∷ zs)) in
      rw differ e

  insert_inside-cells :
      (h : Heap T) (ll : LinkedList) (a : Ptr) (v : T) (ys : Cells T) (b : Ptr) (w : T)
      (rest : Cells T) (value : T)
      → IsList h ll ((a, v) ∷ (ys ++ (b, w) ∷ rest))
      → (h.fresh == null) ≡ false
      → Ends
          (λ ll' h'.
            IsList h' ll' ((a, v) ∷ (ys ++ (h.fresh, value) ∷ (b, w) ∷ rest))
            × ((h'.fresh == null) ≡ false))
          (insert_inside (suc (length ys)) value ll h)
  unfolding insert_inside alloc
  insert_inside-cells h ll a v ys b w rest value is ne =
      let zs = (b, w) ∷ rest in
      let g = grown h value null in
      let k = linked h value (first zs null) in
      let q = first zs null in
      let in_g = Chain-grown h value null null ((a, v) ∷ (ys ++ zs)) is.chain in
      let in_k = Chain-kept h value q null ((a, v) ∷ (ys ++ zs)) is.chain in
      let last_g = cell-last g null a v ys zs in_g in
      let last_k = cell-last k null a v ys zs in_k in
      let back = Chain-linked h value null zs ne (Chain-back h null ((a, v) ∷ ys) zs is.chain) in
      let apart =
        Apart-cons ((a, v) ∷ ys) zs h.fresh value
          (Apart-of_fresh h q h.fresh value ((a, v) ∷ ys)
            (Chain-front h null ((a, v) ∷ ys) zs is.chain) (omega arith))
          (Chain-Apart h null ((a, v) ∷ ys) zs is.chain) in
      let from_one : suc (length ys) - 1 ≡ length ys = omega arith in
      rw
        (
          from_one,
          is.head,
          walk-last g a v ys zs in_g,
          load-eq-done g (last ys a) q (last_value v ys) last_g.0 last_g.1,
          set_next-eq-done g h.fresh null q value ne (unfold write in ground arith),
          set_next-eq-done k (last ys a) q h.fresh (last_value v ys) last_k.0 last_k.1,
        )
        (ends (
          record {
            chain = Chain-splice k null a v ys zs ((h.fresh, value) ∷ zs) in_k back apart;
            head = refl;
            tail = is.tail ∙ last-append ys zs a ∙ sym (last-append ys ((h.fresh, value) ∷ zs) a);
            size =
                omega
                  (arith, is.size, length-append ys zs, length-append ys ((h.fresh, value) ∷ zs));
          },
          unfold write in ground arith,
        ))

  remove_inside-cells :
      (h : Heap T) (ll : LinkedList) (a : Ptr) (v : T) (ys : Cells T) (r : Ptr) (u : T)
      (zs : Cells T)
      → IsList h ll ((a, v) ∷ (ys ++ (r, u) ∷ zs))
      → Ends
          (λ (res, ll') h'.
            (res ≡ ok u) × IsList h' ll' ((a, v) ∷ (ys ++ zs)) × (h'.fresh ≡ h.fresh))
          (remove_inside (suc (length ys)) ll h)
  unfolding remove_inside
  remove_inside-cells h ll a v ys r u zs is =
      let c = is.chain in
      let at = Chain-back h null ((a, v) ∷ ys) ((r, u) ∷ zs) c in
      let at_last = cell-last h null a v ys ((r, u) ∷ zs) c in
      let apart =
        Apart-tail ((a, v) ∷ ys) zs r u (Chain-Apart h null ((a, v) ∷ ys) ((r, u) ∷ zs) c) in
      let from_one : suc (length ys) - 1 ≡ length ys = omega arith in
      rw
        (
          from_one,
          is.head,
          walk-last h a v ys ((r, u) ∷ zs) c,
          load-eq-done h (last ys a) r (last_value v ys) at_last.0 at_last.1,
          load-eq-done h r (first zs null) u at.0 at.2,
          set_next-eq-done h (last ys a) r (first zs null) (last_value v ys) at_last.0 at_last.1,
        )
        (ends (
          refl,
          record {
            chain = Chain-splice h null a v ys ((r, u) ∷ zs) zs c at.4 apart;
            head = refl;
            tail =
                tail_of ll.tail (last ys a) r zs (is.tail ∙ last-append ys ((r, u) ∷ zs) a) at.3
                ∙ sym (last-append ys zs a);
            size = omega (arith, is.size, length-append ys ((r, u) ∷ zs), length-append ys zs);
          },
          fresh-write h (last ys a) (node (last_value v ys) (first zs null)),
        ))

module _ {T : Type 0} {h : Heap T} {ll : LinkedList} where
  -- `Get` answers the value that stands behind `index` others, and changes nothing.
  pub get-Represents :
      (us : List T) (v : T) (ws : List T)
      → Represents h ll (us ++ v ∷ ws)
      → get (pos (length us)) ll h ≡ done (ok v) h
  get-Represents us v ws r =
      let s = Represents-Split us (v ∷ ws) r in
      let p = cells-Headed s.back v ws s.of_back in
      get-cells h ll (length us) s.front p.rest p.address v
        (subst (λ zs. IsList h ll (s.front ++ zs)) p.cells s.is_list) s.count

  -- A negative index fails and changes nothing, and so does one past what the operation allows: from
  -- the length on for `Get` and `Remove`, above the length for `Insert`.
  pub out_of_range-Represents :
      (vs : List T) (v : T) (i j : ℕ)
      → Represents h ll vs
      → length vs ≤ i
      → (get (negsuc j) ll h ≡ done (err out_of_range) h)
        × (insert (negsuc j) v ll h ≡ done (err out_of_range, ll) h)
        × (remove (negsuc j) ll h ≡ done (err out_of_range, ll) h)
        × (get (pos i) ll h ≡ done (err out_of_range) h)
        × (insert (pos (suc i)) v ll h ≡ done (err out_of_range, ll) h)
        × (remove (pos i) ll h ≡ done (err out_of_range, ll) h)
  unfolding get insert remove
  out_of_range-Represents vs v i j r le =
      let n = size-length h ll vs r in
      (
        refl,
        refl,
        refl,
        rw (le→leb ll.size i (omega arith)),
        rw (lt→not-leb (suc i) ll.size (omega arith)),
        rw (le→leb ll.size i (omega arith)),
      )

  -- `Insert` puts the value behind `index` others, at any index up to the length.
  pub insert-Represents :
      (us ws : List T) (v : T)
      → Represents h ll (us ++ ws)
      → Ends (Answers (ok tt) (us ++ v ∷ ws)) (insert (pos (length us)) v ll h)
  unfolding insert
  insert-Represents [] ws v r =
      rw (le→leb 0 ll.size (omega arith))
        (Ends-and_then ((push-Represents v r).0) λ ll' h' q. ends (refl, q))
  insert-Represents (u ∷ us) [] v r =
      let n = size-length h ll (u ∷ (us ++ [])) r in
      let e : suc (length us) ≡ ll.size = omega (arith, n, length-append us []) in
      rw
        (
          le→leb (suc (length us)) ll.size (omega arith),
          suc-ne-zero (length us),
          eq→== (suc (length us)) ll.size e,
        )
        (Ends-and_then ((push-Represents v r).1) λ ll' h' q.
          ends (refl, subst (λ vs. Represents h' ll' (u ∷ (vs ++ v ∷ []))) (append-nil us) q))
  insert-Represents (u ∷ us) (w ∷ ws) v r =
      let n = size-length h ll (u ∷ (us ++ w ∷ ws)) r in
      let lt : suc (length us) < ll.size = omega (arith, n, length-append us (w ∷ ws)) in
      let s = Represents-Split (u ∷ us) (w ∷ ws) r in
      let f = cells-Headed s.front u us s.of_front in
      let p = cells-Headed s.back w ws s.of_back in
      let is = subst₂ (λ ys zs. IsList h ll (ys ++ zs)) f.cells p.cells s.is_list in
      let m : length f.rest ≡ length us = sym (length-values f.rest) ∙ ap length f.of_rest in
      rw
        (
          le→leb (suc (length us)) ll.size (omega arith),
          suc-ne-zero (length us),
          lt→not-== (suc (length us)) ll.size lt,
          ← m,
        )
        (Ends-and_then
          (insert_inside-cells h ll f.address u f.rest p.address w p.rest v is r.allocates)
          λ ll' h' q. ends (
            refl,
            record {
              cells = (f.address, u) ∷ (f.rest ++ (h.fresh, v) ∷ (p.address, w) ∷ p.rest);
              is_list = q.0;
              is_values =
                  ap (λ xs. u ∷ xs)
                    (values-append f.rest ((h.fresh, v) ∷ (p.address, w) ∷ p.rest)
                      ∙ ap₂ (λ xs ys. xs ++ v ∷ w ∷ ys) f.of_rest p.of_rest);
              allocates = q.1;
            },
          ))

  -- `Remove` answers the value that stands behind `index` others, and leaves the others.
  pub remove-Represents :
      (us : List T) (v : T) (ws : List T)
      → Represents h ll (us ++ v ∷ ws)
      → Ends (Answers (ok v) (us ++ ws)) (remove (pos (length us)) ll h)
  unfolding remove
  remove-Represents [] v ws r =
      rw (lt→not-leb ll.size 0 (omega (arith, size-length h ll (v ∷ ws) r)))
        (pop_front-Represents v ws r)
  remove-Represents (u ∷ us) v ws r =
      let s = Represents-Split (u ∷ us) (v ∷ ws) r in
      let f = cells-Headed s.front u us s.of_front in
      let p = cells-Headed s.back v ws s.of_back in
      let is = subst₂ (λ ys zs. IsList h ll (ys ++ zs)) f.cells p.cells s.is_list in
      let n : length f.rest ≡ length us = sym (length-values f.rest) ∙ ap length f.of_rest in
      rw
        (
          lt→not-leb ll.size (suc (length us))
              (omega (arith, size-length h ll ((u ∷ us) ++ v ∷ ws) r, length-append us (v ∷ ws))),
          suc-ne-zero (length us),
          ← n,
        )
        (Ends-mono (remove_inside-cells h ll f.address u f.rest p.address v p.rest is)
          λ (r', ll') h' q. (
            q.0,
            record {
              cells = (f.address, u) ∷ (f.rest ++ p.rest);
              is_list = q.1;
              is_values =
                  ap (λ xs. u ∷ xs) (values-append f.rest p.rest ∙ ap₂ ◌++◌ f.of_rest p.of_rest);
              allocates = rw q.2 r.allocates;
            },
          ))
