-- ===== src/Pool/Safety.antt =====
-- What the callers of a pool rely on, in every state that a new pool may come to.
use service_template.Base.{
  ℕ, ◌≤◌, ◌≡◌, true, false, Option, List, [], ◌∷◌, length, arith, ap, ◌∙◌, inl, inr,
}
use mathlib.Core.Path.{subst}
use service_template.Pool.{Worker, ready, sending, Pool, new_pool_store, Reach}
use service_template.Pool.Invariant.{weigh, counted, in_hand, Fits, closing, Reach-Inv}

weigh-le-length :
    {A : Type 0} (f : A → ℕ) (xs : List A) → ((x : A) → f x ≤ 1) → weigh f xs ≤ length xs
weigh-le-length f [] h = omega arith
weigh-le-length f (x ∷ xs) h = omega (arith, h x, weigh-le-length f xs h)

module _ {C S : Type 0} {handler : C → S → Option S} (n : ℕ) (s : S) {q : Pool C S} where
  -- `Stop` loses nothing and leaves nothing behind: whenever the pool is not running and no call is
  -- under way, every worker is gone, `inWork` is 0, the channel is empty, and the commands that
  -- `Apply` accepted are those for which the handler was called, each as often (their weights agree,
  -- for every weight of a command).
  pub stopped-handled :
      Reach handler (new_pool_store n s) q
      → q.control ≡ ready
      → q.shared.run_atom ≡ false
      → (q.workers ≡ [])
        × (q.shared.in_work ≡ 0)
        × (q.shared.buffer ≡ [])
        × ((f : C → ℕ) → weigh f q.shared.accepted ≡ weigh f q.shared.handled)
  stopped-handled r at_ready off =
      let inv = Reach-Inv n s r in
      let rest = at_rest (subst (λ k. Fits q.shared q.workers k) at_ready inv.fits) in
      (
        rest.1,
        inv.counts ∙ ap (weigh counted) rest.1,
        rest.0,
        λ f. omega (arith, inv.kept f, ap (weigh f) rest.0, ap (weigh (in_hand f)) rest.1),
      )
    where
      at_rest : Fits q.shared q.workers ready → (q.shared.buffer ≡ []) × (q.workers ≡ [])
      at_rest (inl on) = absurd (cc)
      at_rest (inr rest) = rest

  -- The channel never holds more than its capacity, there are at most `size` workers, and `inWork`
  -- counts those of them that are in the handler, with those that died in it: it is at most `size`.
  pub pool_bounds :
      Reach handler (new_pool_store n s) q
      → (length q.shared.buffer ≤ q.shared.size)
        × (length q.workers ≤ q.shared.size)
        × (q.shared.in_work ≡ weigh counted q.workers)
        × (q.shared.in_work ≤ q.shared.size)
  pool_bounds r =
      let inv = Reach-Inv n s r in
      (
        inv.bounded,
        inv.crew,
        inv.counts,
        omega (arith, inv.crew, inv.counts, weigh-le-length counted q.workers counted-le-one),
      )
    where
      counted-le-one : (w : Worker C) → counted w ≤ 1
      counted-le-one w = ground arith

  -- `Apply` never sends on a closed channel, which would panic, nor on nil, which would block for
  -- ever, and the pool is running when it sends.
  pub sending-open :
      (c : C)
      → Reach handler (new_pool_store n s) q
      → q.control ≡ sending c
      → (q.shared.closed ≡ false) × (q.shared.published ≡ true) × (q.shared.run_atom ≡ true)
  sending-open c r e =
      let inv = Reach-Inv n s r in
      let fits = subst (λ k. Fits q.shared q.workers k) e inv.fits in
      (inv.open_ fits.1 (ap closing e), fits.1, fits.0)
