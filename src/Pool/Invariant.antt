-- ===== src/Pool/Invariant.antt =====
-- What holds of a pool between any two steps: the counter of `inWork`, the channel, and where every
-- accepted command is.
use service_template.Base.{
  ℕ, zero, suc, ◌+◌, ◌≤◌, ◌≡◌, ◌≢◌, refl, Bool, true, false, Option, List, [], ◌∷◌, ◌++◌, length,
  length-append, if◌then◌else◌, arith, ap, ◌∙◌, sym, ◌⊎◌, inl, inr,
}
use service_template.Pool.{
  Shared, Worker, top, frozen, selecting, received, working, worked, exited, crashed, Control,
  ready, sending, stop_load, stop_test, stop_len, stop_cancelled, stop_closed, stop_waiting, Pool,
  replicate, new_pool_store, AllGone, Move, Call, Step, Reach, work, call, cancel_main, here, next,
  apply_check, receive, apply_begin, apply_send, stop_begin, stop_nil, stop_tasks, stop_busy,
  stop_idle, stop_queued, stop_cancel, stop_close, stop_unpublish, stop_end, run, reconnect,
}

-- The sum of a weight over a list.
abbrev pub weigh : {A : Type 0} → (A → ℕ) → List A → ℕ
weigh f [] = 0
weigh f (a ∷ as_) = f a + weigh f as_

pub weigh-append :
    {A : Type 0} (f : A → ℕ) (xs ys : List A) → weigh f (xs ++ ys) ≡ weigh f xs + weigh f ys
weigh-append f [] ys = omega arith
weigh-append f (x ∷ xs) ys = omega (arith, weigh-append f xs ys)

pub weigh-replicate :
    {A : Type 0} (f : A → ℕ) (n : ℕ) (a : A) → f a ≡ 0 → weigh f (replicate n a) ≡ 0
weigh-replicate f zero a e = refl
weigh-replicate f (suc n) a e = omega (arith, weigh-replicate f n a e)

module _ {C : Type 0} where
  -- A worker that `inWork` counts.
  abbrev pub counted : Worker C → ℕ
  counted (working _) = 1
  counted worked = 1
  counted crashed = 1
  counted _ = 0

  -- The weight of the command that a worker has taken and not yet handed to the handler.
  abbrev pub in_hand : (C → ℕ) → Worker C → ℕ
  in_hand f (received c) = f c
  in_hand f (working c) = f c
  in_hand f _ = 0

  pub weigh-in_hand-gone :
      (f : C → ℕ) (ws : List (Worker C)) → AllGone ws → weigh (in_hand f) ws ≡ 0
  weigh-in_hand-gone f [] g = refl
  weigh-in_hand-gone f (exited ∷ ws) g = omega (arith, weigh-in_hand-gone f ws g.1)
  weigh-in_hand-gone f (crashed ∷ ws) g = omega (arith, weigh-in_hand-gone f ws g.1)
  weigh-in_hand-gone f (top ∷ ws) (g, gs) = elim g [ ]
  weigh-in_hand-gone f (frozen ∷ ws) (g, gs) = elim g [ ]
  weigh-in_hand-gone f (selecting ∷ ws) (g, gs) = elim g [ ]
  weigh-in_hand-gone f (received _ ∷ ws) (g, gs) = elim g [ ]
  weigh-in_hand-gone f (working _ ∷ ws) (g, gs) = elim g [ ]
  weigh-in_hand-gone f (worked ∷ ws) (g, gs) = elim g [ ]

  -- What the position of the calling goroutine says.
  abbrev pub Fits : {S : Type 0} → Shared C S → List (Worker C) → Control C → Type 0
  Fits m ws ready = (m.run_atom ≡ true) ⊎ ((m.buffer ≡ []) × (ws ≡ []))
  Fits m ws (sending _) = (m.run_atom ≡ true) × (m.published ≡ true)
  Fits m ws stop_load = m.run_atom ≡ true
  Fits m ws stop_test = (m.run_atom ≡ true) × (m.published ≡ true)
  Fits m ws stop_len = (m.run_atom ≡ true) × (m.published ≡ true)
  Fits m ws _ = (m.run_atom ≡ true) × (m.buffer ≡ [])

-- The channel is closed only while `Stop` is about to take it out of `taskAtom`, or has.
abbrev pub closing : {C : Type 0} → Control C → Bool
closing stop_closed = true
closing _ = false

pub record Inv {C S : Type 0} (p : Pool C S) : Type 0 where
  pub counts : p.shared.in_work ≡ weigh counted p.workers
  pub bounded : length p.shared.buffer ≤ p.shared.size
  pub crew : length p.workers ≤ p.shared.size
  pub open_ : p.shared.published ≡ true → closing p.control ≡ false → p.shared.closed ≡ false
  pub fits : Fits p.shared p.workers p.control
  pub kept :
      (f : C → ℕ)
      → weigh f p.shared.accepted
        ≡ weigh f p.shared.handled + weigh (in_hand f) p.workers + weigh f p.shared.buffer

-- What a worker's step does to the counter, to the buffer and to the commands.
pub record Moved {C S : Type 0} (m : Shared C S) (w : Worker C) (m' : Shared C S) (w' : Worker C)
    : Type 0 where
  pub in_work : counted w ≤ m.in_work → m'.in_work + counted w ≡ m.in_work + counted w'
  pub shorter : length m'.buffer ≤ length m.buffer
  pub still_empty : m.buffer ≡ [] → m'.buffer ≡ []
  pub size : m'.size ≡ m.size
  pub run_atom : m'.run_atom ≡ m.run_atom
  pub published : m'.published ≡ m.published
  pub closed : m'.closed ≡ m.closed
  pub accepted : m'.accepted ≡ m.accepted
  pub commands :
      (f : C → ℕ)
      → weigh f m'.handled + in_hand f w' + weigh f m'.buffer
        ≡ weigh f m.handled + in_hand f w + weigh f m.buffer

module _ {C S : Type 0} {handler : C → S → Option S} where
  pub Move-Moved : {m m' : Shared C S} {w w' : Worker C} → Move handler m w m' w' → Moved m w m' w'
  Move-Moved (receive {c} {rest} e) = record {
    in_work = λ h. refl;
    shorter = omega (arith, ap length e);
    still_empty = λ n. ground arith;
    size = refl;
    run_atom = refl;
    published = refl;
    closed = refl;
    accepted = refl;
    commands = λ f. omega (arith, ap (weigh f) e);
  }
  Move-Moved mv = record {
    in_work = λ h. ground arith;
    shorter = omega arith;
    still_empty = λ n. n;
    size = refl;
    run_atom = refl;
    published = refl;
    closed = refl;
    accepted = refl;
    commands = λ f. omega arith;
  }

pub snoc-ne-nil : {A : Type 0} (us : List A) (w : A) (ws : List A) → us ++ w ∷ ws ≢ []
snoc-ne-nil [] w ws e = cc
snoc-ne-nil (u ∷ us) w ws e = cc

module _ {C S : Type 0} where
  work-Fits :
      (m m' : Shared C S) (us : List (Worker C)) (w w' : Worker C) (ws xs : List (Worker C))
      (k : Control C)
      → xs ≡ us ++ w ∷ ws
      → Moved m w m' w'
      → Fits m xs k
      → Fits m' (us ++ w' ∷ ws) k
  work-Fits m m' us w w' ws xs ready e v (inl r) = inl (v.run_atom ∙ r)
  work-Fits m m' us w w' ws xs ready e v (inr r) = absurd (snoc-ne-nil us w ws (sym e ∙ r.1))
  work-Fits m m' us w w' ws xs (sending c) e v f = (v.run_atom ∙ f.0, v.published ∙ f.1)
  work-Fits m m' us w w' ws xs stop_load e v f = v.run_atom ∙ f
  work-Fits m m' us w w' ws xs stop_test e v f = (v.run_atom ∙ f.0, v.published ∙ f.1)
  work-Fits m m' us w w' ws xs stop_len e v f = (v.run_atom ∙ f.0, v.published ∙ f.1)
  work-Fits m m' us w w' ws xs stop_cancelled e v f = (v.run_atom ∙ f.0, v.still_empty f.1)
  work-Fits m m' us w w' ws xs stop_closed e v f = (v.run_atom ∙ f.0, v.still_empty f.1)
  work-Fits m m' us w w' ws xs stop_waiting e v f = (v.run_atom ∙ f.0, v.still_empty f.1)

  -- A step of a worker keeps the invariant.
  pub work-Inv :
      (p : Pool C S) (us : List (Worker C)) (w w' : Worker C) (ws : List (Worker C))
      (m : Shared C S)
      → p.workers ≡ us ++ w ∷ ws
      → Moved p.shared w m w'
      → Inv p
      → Inv (record p { shared = m; workers = us ++ w' ∷ ws })
  work-Inv p us w w' ws m e v inv =
      let before = ap (weigh counted) e ∙ weigh-append counted us (w ∷ ws) in
      let after = weigh-append counted us (w' ∷ ws) in
      let n : m.in_work + counted w ≡ p.shared.in_work + counted w' =
        v.in_work (omega (arith, before, inv.counts)) in
      record {
        counts = omega (arith, inv.counts, n, before, after);
        bounded = omega (arith, inv.bounded, v.shorter, v.size);
        crew = omega (
          arith,
          inv.crew,
          v.size,
          ap length e,
          length-append us (w ∷ ws),
          length-append us (w' ∷ ws),
        );
        open_ = λ pub_ cl. v.closed ∙ inv.open_ (sym v.published ∙ pub_) cl;
        fits = work-Fits p.shared m us w w' ws p.workers p.control e v inv.fits;
        kept = λ f. omega (
          arith,
          ap (weigh f) v.accepted,
          inv.kept f,
          v.commands f,
          ap (weigh (in_hand f)) e,
          weigh-append (in_hand f) us (w ∷ ws),
          weigh-append (in_hand f) us (w' ∷ ws),
        );
      }

length-replicate : {A : Type 0} (n : ℕ) (a : A) → length (replicate n a) ≡ n
length-replicate zero a = refl
length-replicate (suc n) a = ap suc (length-replicate n a)

module _ {C S : Type 0} where
  -- A step that changes neither the pool's fields nor the workers.
  at_control :
      {m : Shared C S} {ws : List (Worker C)} (k k' : Control C)
      → Inv (record { shared = m; workers = ws; control = k })
      → closing k ≡ false
      → Fits m ws k'
      → Inv (record { shared = m; workers = ws; control = k' })
  at_control k k' inv out fits = record {
    counts = inv.counts;
    bounded = inv.bounded;
    crew = inv.crew;
    open_ = λ e _. inv.open_ e out;
    fits = fits;
    kept = inv.kept;
  }

module _ {C S : Type 0} where
  cancel-Fits :
      (m : Shared C S) (ws : List (Worker C)) (k : Control C)
      → Fits m ws k
      → Fits (record m { main_done = true; pool_done = true }) ws k
  cancel-Fits m ws ready f = f
  cancel-Fits m ws _ f = f

-- While the pool is not running there is no worker, and nothing in the channel.
resting : {P : Type 0} (b : Bool) → (b ≡ true) ⊎ P → b ≡ false → P
resting b (inl e) f = absurd (cc)
resting b (inr p) f = p

abbrev at_top : (C : Type 0) → Worker C
at_top C = top

crew_of : (C : Type 0) (b : Bool) (n : ℕ) → length (replicate (if b then n else 0) (at_top C)) ≤ n
crew_of C true n = omega (arith, length-replicate n (at_top C))
crew_of C false n = omega arith

module _ {C S : Type 0} {handler : C → S → Option S} where
  -- A step of the calling goroutine keeps the invariant.
  pub Call-Inv :
      {m m' : Shared C S} {ws ws' : List (Worker C)} {k k' : Control C}
      → Call handler m ws k m' ws' k'
      → Inv (record { shared = m; workers = ws; control = k })
      → Inv (record { shared = m'; workers = ws'; control = k' })
  unfolding apply_check
  Call-Inv (apply_begin c first e) inv = record {
    counts = inv.counts;
    bounded = inv.bounded;
    crew = inv.crew;
    open_ = inv.open_;
    fits = (ground arith, ground arith);
    kept = inv.kept;
  }
  Call-Inv {m} (apply_send {c} lt) inv = record {
    counts = inv.counts;
    bounded = omega (arith, length-append m.buffer (c ∷ []));
    crew = inv.crew;
    open_ = inv.open_;
    fits = inl inv.fits.0;
    kept = λ f. omega (arith, inv.kept f, weigh-append f m.buffer (c ∷ []));
  }
  Call-Inv (stop_begin e) inv = at_control ready stop_load inv refl e
  Call-Inv (stop_nil e) inv = at_control stop_load ready inv refl (inl inv.fits)
  Call-Inv (stop_tasks e) inv = at_control stop_load stop_test inv refl (inv.fits, e)
  Call-Inv (stop_busy e) inv = at_control stop_test stop_load inv refl (inv.fits.0)
  Call-Inv (stop_idle e) inv = at_control stop_test stop_len inv refl inv.fits
  Call-Inv (stop_queued e) inv = at_control stop_len stop_load inv refl (inv.fits.0)
  Call-Inv (stop_cancel e) inv = record {
    counts = inv.counts;
    bounded = inv.bounded;
    crew = inv.crew;
    open_ = inv.open_;
    fits = (inv.fits.0, e);
    kept = inv.kept;
  }
  Call-Inv stop_close inv = record {
    counts = inv.counts;
    bounded = inv.bounded;
    crew = inv.crew;
    open_ = λ _ c. cc;
    fits = inv.fits;
    kept = inv.kept;
  }
  Call-Inv stop_unpublish inv = record {
    counts = inv.counts;
    bounded = inv.bounded;
    crew = inv.crew;
    open_ = λ p _. cc;
    fits = inv.fits;
    kept = inv.kept;
  }
  Call-Inv {ws} (stop_end gone) inv = record {
    counts = refl;
    bounded = inv.bounded;
    crew = omega arith;
    open_ = inv.open_;
    fits = inr (inv.fits.1, refl);
    kept = λ f. omega (arith, inv.kept f, weigh-in_hand-gone f ws gone);
  }
  Call-Inv {m} (run e) inv =
      let rest = resting m.run_atom inv.fits e in
      record {
        counts = omega (
          arith,
          inv.counts,
          ap (weigh counted) rest.1,
          weigh-replicate counted (if m.published then m.size else 0) (at_top C) refl,
        );
        bounded = inv.bounded;
        crew = crew_of C m.published m.size;
        open_ = inv.open_;
        fits = inl refl;
        kept = λ f. omega (
          arith,
          inv.kept f,
          ap (weigh (in_hand f)) rest.1,
          weigh-replicate (in_hand f) (if m.published then m.size else 0) top refl,
        );
      }
  Call-Inv {m} (reconnect e) inv =
      let rest = resting m.run_atom inv.fits e in
      record {
        counts = omega (
          arith,
          inv.counts,
          ap (weigh counted) rest.1,
          weigh-replicate counted m.size (at_top C) refl,
        );
        bounded = omega arith;
        crew = crew_of C true m.size;
        open_ = λ _ _. refl;
        fits = inl refl;
        kept = λ f. omega (
          arith,
          inv.kept f,
          ap (weigh f) rest.0,
          ap (weigh (in_hand f)) rest.1,
          weigh-replicate (in_hand f) m.size top refl,
        );
      }

  -- Every step of the system keeps the invariant.
  pub Step-Inv : {p q : Pool C S} → Step handler p q → Inv p → Inv q
  Step-Inv {p} (work us {w} {w'} ws {m} e mv) inv = work-Inv p us w w' ws m e (Move-Moved mv) inv
  Step-Inv (call c) inv = Call-Inv c inv
  Step-Inv {p} cancel_main inv = record {
    counts = inv.counts;
    bounded = inv.bounded;
    crew = inv.crew;
    open_ = inv.open_;
    fits = cancel-Fits p.shared p.workers p.control inv.fits;
    kept = inv.kept;
  }

  -- A new pool has the invariant, and so has all that it may become.
  pub Reach-Inv : (n : ℕ) (s : S) {q : Pool C S} → Reach handler (new_pool_store n s) q → Inv q
  Reach-Inv n s here = record {
    counts = refl;
    bounded = omega arith;
    crew = omega arith;
    open_ = λ _ _. refl;
    fits = inr (refl, refl);
    kept = λ f. refl;
  }
  Reach-Inv n s (next r st) = Step-Inv st (Reach-Inv n s r)
