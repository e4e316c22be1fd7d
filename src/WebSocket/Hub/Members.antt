-- ===== src/WebSocket/Hub/Members.antt =====
-- server/websocket_server.go: the hub as a set of connections.
use service_template.Base.{
  ℕ, ◌==◌, ==_iff, Bool, true, false, not, ◌||◌, ◌&&◌, List, [], ◌∷◌, ◌≡◌, refl, sym, ap, ◌∙◌,
  Bool-cases, arith, if-branches, inl, inr,
}
use mathlib.Core.Bool.{false≢true, true≢false}
use service_template.WebSocket.Hub.{
  has_client, delete_client, register, unregister, collect_garbage_connections,
}

-- A call of one of the hub's methods.
pub data HubCall : Type 0 where
  call_register : ℕ → HubCall
  call_unregister : ℕ → HubCall
  call_collect : (fails : ℕ → Bool) → HubCall

abbrev pub run_call : HubCall → List ℕ → List ℕ
run_call (call_register c) clients = register c clients
run_call (call_unregister c) clients = unregister c clients
run_call (call_collect fails) clients = (collect_garbage_connections fails clients).0

abbrev pub run_calls : List HubCall → List ℕ → List ℕ
run_calls [] clients = clients
run_calls (call ∷ calls) clients = run_calls calls (run_call call clients)

-- The same on the set of the connections.
abbrev pub set_call : HubCall → (ℕ → Bool) → ℕ → Bool
set_call (call_register c) set d = (c == d) || set d
set_call (call_unregister c) set d = not (c == d) && set d
set_call (call_collect fails) set d = fails d && set d

abbrev pub set_calls : List HubCall → (ℕ → Bool) → ℕ → Bool
set_calls [] set d = set d
set_calls (call ∷ calls) set d = set_calls calls (set_call call set) d

and-false : (b : Bool) → (b && false) ≡ false
and-false true = refl
and-false false = refl

-- The clause for a client that is deleted, with `x` for the test of the place itself.
deleted : (x h : Bool) → (not x && h) ≡ (not x && (x || h))
deleted true h = refl
deleted false h = refl

kept : (x y h : Bool) → (y ≡ true → x ≡ false) → (y || (not x && h)) ≡ (not x && (y || h))
kept true true h e = absurd (true≢false (e refl))
kept true false h e = refl
kept false true h e = refl
kept false false h e = refl

tests-apart : (c d e : ℕ) → (e == c) ≡ false → (e == d) ≡ true → (c == d) ≡ false
tests-apart c d e h k = ground arith

tests-same : (c d e : ℕ) → (e == c) ≡ true → (e == d) ≡ (c == d)
tests-same c d e h = ap (λ x. x == d) ((==_iff e c).0 h)

has_client-delete_client :
    (c d : ℕ) (clients : List ℕ)
    → has_client d (delete_client c clients) ≡ (not (c == d) && has_client d clients)
unfolding has_client delete_client
has_client-delete_client c d [] = sym (and-false (not (c == d)))
has_client-delete_client c d (e ∷ clients) =
    let more = has_client-delete_client c d clients in
    if-branches (λ l. has_client d l ≡ (not (c == d) && ((e == d) || has_client d clients)))
      (e == c)
      (λ h.
        more
        ∙ deleted (c == d) (has_client d clients)
        ∙ ap (λ x. not (c == d) && (x || has_client d clients)) (sym (tests-same c d e h)))
      (λ h.
        ap (λ x. (e == d) || x) more
        ∙ kept (c == d) (e == d) (has_client d clients) (tests-apart c d e h))

-- A test that is passed already adds nothing.
passed : (x h : Bool) → (x ≡ true → h ≡ true) → h ≡ (x || h)
passed true h e = e refl
passed false h e = refl

excluded : (x h : Bool) → (x ≡ true → h ≡ false) → h ≡ (not x && h)
excluded true h e = e refl
excluded false h e = refl

has_client-at :
    (c d : ℕ) (b : Bool) (clients : List ℕ)
    → has_client c clients ≡ b
    → (c == d) ≡ true
    → has_client d clients ≡ b
has_client-at c d b clients h e = ap (λ x. has_client x clients) (sym ((==_iff c d).0 e)) ∙ h

has_client-register :
    (c d : ℕ) (clients : List ℕ)
    → has_client d (register c clients) ≡ ((c == d) || has_client d clients)
unfolding register has_client
has_client-register c d clients =
    if-branches (λ l. has_client d l ≡ ((c == d) || has_client d clients)) (has_client c clients)
      (λ h. passed (c == d) (has_client d clients) (has_client-at c d true clients h)) (λ h. refl)

pub has_client-unregister :
    (c d : ℕ) (clients : List ℕ)
    → has_client d (unregister c clients) ≡ (not (c == d) && has_client d clients)
unfolding unregister
has_client-unregister c d clients =
    if-branches (λ l. has_client d l ≡ (not (c == d) && has_client d clients))
      (has_client c clients) (λ h. has_client-delete_client c d clients)
      (λ h. excluded (c == d) (has_client d clients) (has_client-at c d false clients h))

collected : (f x h : Bool) → f ≡ true → (x || (f && h)) ≡ (f && (x || h))
collected true x h e = refl
collected false x h e = absurd (false≢true e)

dropped : (c d : ℕ) (f : ℕ → Bool) (h : Bool) → f c ≡ false → (f d && h) ≡ (f d && ((c == d) || h))
dropped c d f h e = elim (Bool-cases (c == d)) [
  | inl k ↦
      let no_fail = ap f (sym ((==_iff c d).0 k)) ∙ e in
      ap (λ x. x && h) no_fail ∙ sym (ap (λ x. x && ((c == d) || h)) no_fail)
  | inr k ↦ ap (λ x. f d && (x || h)) (sym k)
]

kept_failing :
    (c d : ℕ) (f : ℕ → Bool) (h : Bool)
    → f c ≡ true
    → ((c == d) || (f d && h)) ≡ (f d && ((c == d) || h))
kept_failing c d f h e = elim (Bool-cases (c == d)) [
  | inl k ↦ collected (f d) (c == d) h (ap f (sym ((==_iff c d).0 k)) ∙ e)
  | inr k ↦ ap (λ x. x || (f d && h)) k ∙ ap (λ x. f d && (x || h)) (sym k)
]

has_client-collect :
    (fails : ℕ → Bool) (d : ℕ) (clients : List ℕ)
    → has_client d (collect_garbage_connections fails clients).0 ≡ (fails d && has_client d clients)
unfolding collect_garbage_connections has_client
has_client-collect fails d [] = sym (and-false (fails d))
has_client-collect fails d (c ∷ clients) =
    let more = has_client-collect fails d clients in
    if-branches
      (λ (l : List ℕ × List ℕ). has_client d l.0 ≡ (fails d && ((c == d) || has_client d clients)))
      (fails c)
      (λ h. ap (λ x. (c == d) || x) more ∙ kept_failing c d fails (has_client d clients) h)
      (λ h. more ∙ dropped c d fails (has_client d clients) h)

closed-collect :
    (fails : ℕ → Bool) (clients : List ℕ) → (collect_garbage_connections fails clients).1 ≡ clients
unfolding collect_garbage_connections
closed-collect fails [] = refl
closed-collect fails (c ∷ clients) =
    if-branches (λ (l : List ℕ × List ℕ). l.1 ≡ c ∷ clients) (fails c)
      (λ h. ap (λ l. c ∷ l) (closed-collect fails clients))
      (λ h. ap (λ l. c ∷ l) (closed-collect fails clients))

has_client-run_call :
    (call : HubCall) (clients : List ℕ) (d : ℕ)
    → has_client d (run_call call clients) ≡ set_call call (λ x. has_client x clients) d
has_client-run_call (call_register c) clients d = has_client-register c d clients
has_client-run_call (call_unregister c) clients d = has_client-unregister c d clients
has_client-run_call (call_collect fails) clients d = has_client-collect fails d clients

set_calls-agree :
    (calls : List HubCall) (s t : ℕ → Bool)
    → ((x : ℕ) → s x ≡ t x)
    → (d : ℕ) → set_calls calls s d ≡ set_calls calls t d
set_calls-agree [] s t h d = h d
set_calls-agree (call_register c ∷ calls) s t h d =
    set_calls-agree calls _ _ (λ x. ap (λ y. (c == x) || y) (h x)) d
set_calls-agree (call_unregister c ∷ calls) s t h d =
    set_calls-agree calls _ _ (λ x. ap (λ y. not (c == x) && y) (h x)) d
set_calls-agree (call_collect fails ∷ calls) s t h d =
    set_calls-agree calls _ _ (λ x. ap (λ y. fails x && y) (h x)) d

-- Any sequence of calls of the hub's methods leaves it with the connections that the same calls leave in
-- a set, whatever connections fail to close, from any hub on.
pub has_client-run_calls :
    (calls : List HubCall) (clients : List ℕ) (d : ℕ)
    → has_client d (run_calls calls clients) ≡ set_calls calls (λ x. has_client x clients) d
has_client-run_calls [] clients d = refl
has_client-run_calls (call ∷ calls) clients d =
    has_client-run_calls calls (run_call call clients) d
    ∙ set_calls-agree calls _ _ (has_client-run_call call clients) d
