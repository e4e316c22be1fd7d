-- ===== src/Pool/Stuck.antt =====
-- `Stop` when workers have died or have left.
use service_template.Base.{
  ℕ, ◌<◌, ◌≤◌, ◌≡◌, ◌≢◌, refl, Bool, true, false, Option, List, [], ◌∷◌, ◌++◌, arith, ap, ◌∙◌, inl,
  inr,
}
use mathlib.Core.Path.{subst}
use service_template.Pool.{
  Shared, Worker, crashed, Control, ready, sending, stop_load, stop_test, stop_len, stop_cancelled,
  stop_closed, stop_waiting, Pool, new_pool_store, Gone, AllGone, Move, Call, Step, Reach, work,
  call, cancel_main, here, next, load_nil, load_tasks, frozen_pool_done, frozen_main_done,
  frozen_again, select_pool_done, select_main_done, select_closed, receive, begin, handle,
  handle_panics, finish, apply_begin, apply_send, stop_idle, stop_queued, stop_cancel, stop_close,
  stop_unpublish, stop_end, run, reconnect,
}
use service_template.Pool.Invariant.{
  weigh, weigh-append, counted, Fits, Inv, Reach-Inv, Step-Inv, snoc-ne-nil,
}

module _ {C : Type 0} where
  -- `Stop` is not called, or has not yet read an `inWork` of 0.
  abbrev pub early : Control C → Bool
  early ready = true
  early (sending _) = true
  early stop_load = true
  early stop_test = true
  early _ = false

  -- `Stop` is not called, or has not yet found the channel empty.
  abbrev pub undecided : Control C → Bool
  undecided stop_len = true
  undecided k = early k

  -- A worker that died in the handler is among them.
  abbrev pub lost : Worker C → ℕ
  lost crashed = 1
  lost _ = 0

  lost-le-counted : (ws : List (Worker C)) → weigh lost ws ≤ weigh counted ws
  lost-le-counted [] = omega arith
  lost-le-counted (w ∷ ws) = omega (arith, ground_one w, lost-le-counted ws)
    where
      ground_one : (w : Worker C) → lost w ≤ counted w
      ground_one w = ground arith

-- The pool is running, `Stop` has got nowhere, and a worker has died in the handler.
record Lost {C S : Type 0} (p : Pool C S) : Type 0 where
  on : p.shared.run_atom ≡ true
  control : early p.control ≡ true
  worker : 0 < weigh lost p.workers

module _ {C S : Type 0} {handler : C → S → Option S} where
  Move-lost :
      {m m' : Shared C S} {w w' : Worker C}
      → Move handler m w m' w'
      → (lost w ≤ lost w') × (m'.run_atom ≡ m.run_atom)
  Move-lost (load_nil e) = (omega arith, refl)
  Move-lost mv = (omega arith, refl)

  Call-Lost :
      {m m' : Shared C S} {ws ws' : List (Worker C)} {k k' : Control C}
      → Call handler m ws k m' ws' k'
      → m.in_work ≢ 0
      → Lost (record { shared = m; workers = ws; control = k })
      → Lost (record { shared = m'; workers = ws'; control = k' })
  Call-Lost (apply_begin c first e) busy l = record { on = l.on; control = refl; worker = l.worker }
  Call-Lost (stop_idle e) busy l = absurd (busy e)
  Call-Lost (run e) busy l = absurd (cc (l.on))
  Call-Lost (reconnect e) busy l = absurd (cc (l.on))
  Call-Lost (stop_queued e) busy l = absurd (cc (l.control))
  Call-Lost (stop_cancel e) busy l = absurd (cc (l.control))
  Call-Lost stop_close busy l = absurd (cc (l.control))
  Call-Lost stop_unpublish busy l = absurd (cc (l.control))
  Call-Lost (stop_end g) busy l = absurd (cc (l.control))
  Call-Lost c busy l = record { on = l.on; control = refl; worker = l.worker }

  Step-Lost : {p q : Pool C S} → Step handler p q → Inv p → Lost p → Lost q
  Step-Lost {p} (work us {w} {w'} ws e mv) inv l = record {
    on = (Move-lost mv).1 ∙ l.on;
    control = l.control;
    worker = omega (
      arith,
      l.worker,
      (Move-lost mv).0,
      ap (weigh lost) e,
      weigh-append lost us (w ∷ ws),
      weigh-append lost us (w' ∷ ws),
    );
  }
  Step-Lost {p} (call c) inv l =
      Call-Lost c (λ z. omega (arith, l.worker, inv.counts, z, lost-le-counted p.workers))
        (record { on = l.on; control = l.control; worker = l.worker })
  Step-Lost cancel_main inv l = record { on = l.on; control = l.control; worker = l.worker }

  Reach-Lost : {p q : Pool C S} → Reach handler p q → Inv p → Lost p → Inv q × Lost q
  Reach-Lost here inv l = (inv, l)
  Reach-Lost (next r st) inv l =
      let (inv', l') = Reach-Lost r inv l in (Step-Inv st inv', Step-Lost st inv' l')

-- A worker at work, or one that died in it, is a sign that the pool is running.
on_of_workers :
    {C S : Type 0} (m : Shared C S) (ws : List (Worker C)) (k : Control C)
    → Fits m ws k
    → ws ≢ []
    → m.run_atom ≡ true
on_of_workers m ws ready (inl on) ne = on
on_of_workers m ws ready (inr rest) ne = absurd (ne rest.1)
on_of_workers m ws (sending c) f ne = f.0
on_of_workers m ws stop_load f ne = f
on_of_workers m ws stop_test f ne = f.0
on_of_workers m ws stop_len f ne = f.0
on_of_workers m ws stop_cancelled f ne = f.0
on_of_workers m ws stop_closed f ne = f.0
on_of_workers m ws stop_waiting f ne = f.0

-- Once a handler has panicked, and unless `Stop` had already read an `inWork` of 0, no call of `Stop`
-- ever comes to its end: the panic leaves `inWork` above 0 for good, and the pool is never stopped.
pub lost-run_atom :
    {C S : Type 0} {handler : C → S → Option S} (n : ℕ) (s : S) {p q : Pool C S}
    → Reach handler (new_pool_store n s) p
    → early p.control ≡ true
    → 0 < weigh lost p.workers
    → Reach handler p q
    → (q.shared.run_atom ≡ true) × (early q.control ≡ true)
lost-run_atom n s {p} r e some_lost r' =
    let inv = Reach-Inv n s r in
    let on =
      on_of_workers p.shared p.workers p.control inv.fits
        (λ none_. omega (arith, some_lost, ap (weigh lost) none_)) in
    let (_, l) = Reach-Lost r' inv (record { on = on; control = e; worker = some_lost }) in
    (l.on, l.control)

-- All workers are gone, with tasks left in the channel, before `Stop` has found it empty.
record Abandoned {C S : Type 0} (p : Pool C S) : Type 0 where
  on : p.shared.run_atom ≡ true
  control : undecided p.control ≡ true
  tasks : p.shared.buffer ≢ []
  workers : AllGone p.workers

Gone-stays :
    {C : Type 0} (us : List (Worker C)) (w : Worker C) (ws xs : List (Worker C))
    → xs ≡ us ++ w ∷ ws
    → AllGone xs
    → Gone w
Gone-stays [] w ws xs e g = (subst AllGone e g).0
Gone-stays (u ∷ us) w ws xs e g = Gone-stays us w ws (us ++ w ∷ ws) refl (subst AllGone e g).1

module _ {C S : Type 0} {handler : C → S → Option S} where
  Move-not-Gone : {m m' : Shared C S} {w w' : Worker C} → Move handler m w m' w' → ¬ Gone w
  Move-not-Gone (load_nil e) g = elim g [ ]
  Move-not-Gone (load_tasks e) g = elim g [ ]
  Move-not-Gone (frozen_pool_done e) g = elim g [ ]
  Move-not-Gone (frozen_main_done e) g = elim g [ ]
  Move-not-Gone (frozen_again e f) g = elim g [ ]
  Move-not-Gone (select_pool_done e) g = elim g [ ]
  Move-not-Gone (select_main_done e) g = elim g [ ]
  Move-not-Gone (select_closed e f) g = elim g [ ]
  Move-not-Gone (receive e) g = elim g [ ]
  Move-not-Gone begin g = elim g [ ]
  Move-not-Gone (handle e) g = elim g [ ]
  Move-not-Gone (handle_panics e) g = elim g [ ]
  Move-not-Gone finish g = elim g [ ]

  Call-Abandoned :
      {m m' : Shared C S} {ws ws' : List (Worker C)} {k k' : Control C}
      → Call handler m ws k m' ws' k'
      → Abandoned (record { shared = m; workers = ws; control = k })
      → Abandoned (record { shared = m'; workers = ws'; control = k' })
  Call-Abandoned (stop_idle e) a = record {
    on = a.on;
    control = refl;
    tasks = a.tasks;
    workers = a.workers;
  }
  Call-Abandoned {m} (apply_send {c} lt) a = record {
    on = a.on;
    control = refl;
    tasks = λ e. absurd (snoc-ne-nil m.buffer c [] e);
    workers = a.workers;
  }
  Call-Abandoned (stop_cancel e) a = absurd (a.tasks e)
  Call-Abandoned stop_close a = absurd (cc (a.control))
  Call-Abandoned stop_unpublish a = absurd (cc (a.control))
  Call-Abandoned (stop_end g) a = absurd (cc (a.control))
  Call-Abandoned (run e) a = absurd (cc (a.on))
  Call-Abandoned (reconnect e) a = absurd (cc (a.on))
  Call-Abandoned c a = record { on = a.on; control = refl; tasks = a.tasks; workers = a.workers }

  Reach-Abandoned : {p q : Pool C S} → Reach handler p q → Abandoned p → Abandoned q
  Reach-Abandoned here a = a
  Reach-Abandoned (next r st) a = step st (Reach-Abandoned r a)
    where
      step : {p q : Pool C S} → Step handler p q → Abandoned p → Abandoned q
      step {p} (work us {w} ws e mv) a =
          absurd (Move-not-Gone mv (Gone-stays us w ws p.workers e a.workers))
      step (call c) a =
          Call-Abandoned c
            (record { on = a.on; control = a.control; tasks = a.tasks; workers = a.workers })
      step cancel_main a = record {
        on = a.on;
        control = a.control;
        tasks = a.tasks;
        workers = a.workers;
      }

-- Once all workers are gone while tasks are left in the channel (the main context was cancelled, or
-- every one of them died), and unless `Stop` had already found the channel empty, no call of `Stop`
-- ever comes to its end: the pool runs on, and the channel is never empty again.
pub abandoned-run_atom :
    {C S : Type 0} {handler : C → S → Option S} {p q : Pool C S}
    → p.shared.run_atom ≡ true
    → undecided p.control ≡ true
    → AllGone p.workers
    → p.shared.buffer ≢ []
    → Reach handler p q
    → (q.shared.run_atom ≡ true) × (undecided q.control ≡ true) × (q.shared.buffer ≢ [])
abandoned-run_atom on e gone tasks r =
    let a = Reach-Abandoned r (record { on = on; control = e; tasks = tasks; workers = gone }) in
    (a.on, a.control, a.tasks)
