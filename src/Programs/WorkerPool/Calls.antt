-- ===== src/Programs/WorkerPool/Calls.antt =====
-- cmd/custom_worker_pool/main.go: the calls of the pool's methods that the main function makes, where `fails` says
-- which of its calls, counted from 0, returns an error.
use service_template.Base.{
  ℕ, ◌+◌, ◌≡◌, refl, ap, ◌∙◌, Bool, true, false, List, [], ◌∷◌, ◌++◌, map, if◌then◌else◌, arith,
  Bool-cases, inl, inr,
}
use mathlib.Core.Path.{fun_ext}
use service_template.Store.{Command}
use service_template.Programs.WorkerPool.{pack, last_command}

pub data PoolCall : Type 0 where
  apply_call : Command → PoolCall
  stop_call : PoolCall
  reconnect_call : PoolCall

-- The calls, and whether `main` comes to `Run`.
abbrev pub Made : Type 0
Made = List PoolCall × Bool

abbrev pub behind : List PoolCall → Made → Made
behind calls m = (calls ++ m.0, m.1)

module _ (fails : ℕ → Bool) where
  -- A loop of `Apply`, which breaks at an error: its calls, and the number of the next.
  unfoldable pub apply_pack : ℕ → List Command → List PoolCall × ℕ
  apply_pack n [] = ([], n)
  apply_pack n (c ∷ cs) =
      let rest = apply_pack (n + 1) cs in
      if fails n then (apply_call c ∷ [], n + 1) else (apply_call c ∷ rest.0, rest.1)

  -- A call of `Stop` or `Reconnect`, behind which `main` returns at an error.
  unfoldable pub or_return : PoolCall → ℕ → (ℕ → Made) → Made
  or_return call n next =
      let rest = next (n + 1) in if fails n then (call ∷ [], false) else (call ∷ rest.0, rest.1)

  -- A pack of commands, `Stop` and `Reconnect`, and what follows.
  unfoldable pub session : ℕ → (ℕ → Made) → Made
  session n next =
      let applied = apply_pack n pack in
      behind applied.0 (or_return stop_call applied.1 (λ m. or_return reconnect_call m next))

  unfoldable pub worker_pool_main : Made
  worker_pool_main = session 0 (λ n. session n (λ m. (apply_call last_command ∷ [], true)))

-- Where no call has an error, the main function makes these: the two packs, each with its stop and its
-- reconnection behind it, and the last command; and it comes to `Run`.
pub worker_pool_main-all :
    (fails : ℕ → Bool)
    → ((n : ℕ) → fails n ≡ false)
    → worker_pool_main fails ≡ (
      map apply_call pack
          ++ stop_call
            ∷ reconnect_call
            ∷ (map apply_call pack ++ stop_call ∷ reconnect_call ∷ apply_call last_command ∷ []),
      true,
    )
unfolding worker_pool_main session or_return apply_pack pack
worker_pool_main-all fails h = ap worker_pool_main (fun_ext {g = λ n. false} h)

-- How often `Stop` is called.
stops : List PoolCall → ℕ
stops [] = 0
stops (stop_call ∷ calls) = stops calls + 1
stops (_ ∷ calls) = stops calls

stops-append : (cs ds : List PoolCall) → stops (cs ++ ds) ≡ stops cs + stops ds
unfolding stops
stops-append [] ds = omega arith
stops-append (stop_call ∷ cs) ds = omega (arith, stops-append cs ds)
stops-append (reconnect_call ∷ cs) ds = stops-append cs ds
stops-append (apply_call c ∷ cs) ds = stops-append cs ds

module _ (fails : ℕ → Bool) where
  stops-apply_pack : (n : ℕ) (cs : List Command) → stops (apply_pack fails n cs).0 ≡ 0
  unfolding apply_pack stops
  stops-apply_pack n [] = refl
  stops-apply_pack n (c ∷ cs) = elim (Bool-cases (fails n)) [
    | inl e ↦ rw e
    | inr e ↦ rw e (stops-apply_pack (n + 1) cs)
  ]

  or_return-runs :
      (call : PoolCall) (n : ℕ) (next : ℕ → Made)
      → (or_return fails call n next).1 ≡ true
      → (or_return fails call n next ≡ (call ∷ (next (n + 1)).0, true)) × ((next (n + 1)).1 ≡ true)
  unfolding or_return
  or_return-runs call n next h = ground arith

  session-runs :
      (n : ℕ) (next : ℕ → Made)
      → (session fails n next).1 ≡ true
      → (m : ℕ) × ((next m).1 ≡ true) × (stops (session fails n next).0 ≡ stops (next m).0 + 1)
  unfolding session stops
  session-runs n next h =
      let applied = apply_pack fails n pack in
      let reconnect = λ (m : ℕ). or_return fails reconnect_call m next in
      let (stopped, go) = or_return-runs stop_call applied.1 reconnect h in
      let (again, on) = or_return-runs reconnect_call (applied.1 + 1) next go in
      (
        applied.1 + 1 + 1,
        on,
        stops-append applied.0 (or_return fails stop_call applied.1 reconnect).0
            ∙ omega (
              arith,
              stops-apply_pack n pack,
              ap (λ (x : Made). stops x.0) stopped,
              ap (λ (x : Made). stops x.0) again,
            ),
      )

-- Where the main function comes to `Run`, it has stopped the pool twice.
worker_pool_main-runs :
    (fails : ℕ → Bool) → (worker_pool_main fails).1 ≡ true → stops (worker_pool_main fails).0 ≡ 2
unfolding worker_pool_main stops
worker_pool_main-runs fails h =
    let last = λ (m : ℕ). let x : Made = (apply_call last_command ∷ [], true) in x in
    let (m, on, one) = session-runs fails 0 (λ n. session fails n last) h in
    let (m', on', two) = session-runs fails m last on in one ∙ ap (λ n. n + 1) two
