-- ===== src/Pool.antt =====
-- pkg/worker_pool.go: `CommandPool`, its workers and the goroutine that calls its methods, as steps
-- between the points where one goroutine can see what another did. An atomic variable, a channel
-- operation and the test of a context are one step each. Contexts and channels behave as the Go
-- documentation says. One goroutine calls the methods, as in cmd/custom_worker_pool/main.go.
pub mod Invariant
pub mod Safety
pub mod Stuck
pub mod Replay
mod Examples
use service_template.Base.{
  ℕ, suc, ◌+◌, ◌-◌, ◌<◌, ◌≡◌, ◌≢◌, Bool, true, false, not, ◌&&◌, ◌||◌, Option, none, some, List, [],
  ◌∷◌, ◌++◌, length, if◌then◌else◌,
}

module _ (C S : Type 0) where
  -- The fields of `CommandPool` and the store. `buffer` and `closed` are the channel of tasks, and
  -- `published` says that `taskAtom` holds it, not nil. `accepted` and `handled` are the history:
  -- the commands sent to the channel, and those for which the handler was called.
  pub record Shared : Type 0 where
    pub size : ℕ
    pub run_atom : Bool
    pub published : Bool
    pub closed : Bool
    pub buffer : List C
    pub in_work : ℕ
    pub pool_done : Bool
    pub main_done : Bool
    pub store : S
    pub accepted : List C
    pub handled : List C

-- Where a worker stands.
pub data Worker (C : Type 0) : Type 0 where
  top : Worker C  -- head of the loop
  frozen : Worker C  -- it has read nil from `taskAtom`, and slept
  selecting : Worker C  -- it has read the channel
  received : C → Worker C  -- before `inWork.Add(1)`
  working : C → Worker C  -- before the handler
  worked : Worker C  -- before `inWork.Add(-1)`
  exited : Worker C
  crashed : Worker C  -- the handler panicked, the panic was recovered, and the worker is gone

-- Where the goroutine stands that calls `Apply`, `Stop`, `Reconnect` and `Run`.
pub data Control (C : Type 0) : Type 0 where
  ready : Control C
  sending : C → Control C  -- at `currentTask <- cmd`
  stop_load : Control C  -- head of the loop in `Stop`
  stop_test : Control C  -- before `inWork.Load()`
  stop_len : Control C  -- before `len(currentTask)`
  stop_cancelled : Control C  -- after `poolCancel()`
  stop_closed : Control C  -- after `close(currentTask)`
  stop_waiting : Control C  -- at `wg.Wait()`

pub record Pool (C S : Type 0) : Type 0 where
  pub shared : Shared C S
  pub workers : List (Worker C)
  pub control : Control C

abbrev pub replicate : {A : Type 0} → ℕ → A → List A
replicate ℕ.zero a = []
replicate (suc n) a = a ∷ replicate n a

-- `NewPoolStore`
abbrev pub new_pool_store : {C S : Type 0} → ℕ → S → Pool C S
new_pool_store size store = record {
  shared = record {
    size = size;
    run_atom = false;
    published = true;
    closed = false;
    buffer = [];
    in_work = 0;
    pool_done = false;
    main_done = false;
    store = store;
    accepted = [];
    handled = [];
  };
  workers = [];
  control = ready;
}

-- The worker is gone: `wg.Done()` has run.
pub data Gone {C : Type 0} : Worker C → Type 0 where
  by_return : Gone exited
  by_panic : Gone crashed

abbrev pub AllGone : {C : Type 0} → List (Worker C) → Type 0
AllGone [] = Unit
AllGone (w ∷ ws) = Gone w × AllGone ws

-- Why `Apply` returns an error.
pub data ApplyError : Type 0 where
  not_running : ApplyError
  stopped : ApplyError
  pool_context_done : ApplyError
  context_done : ApplyError

-- The tests of `Apply` before it sends. Where both contexts are done, `select` takes either case:
-- `first` says that it takes the pool's.
unfoldable pub apply_check : {C S : Type 0} → Shared C S → Bool → Option ApplyError
apply_check m first =
    if not m.run_atom
    then some not_running
    else if not m.published
    then some stopped
    else if m.pool_done && (first || not m.main_done)
    then some pool_context_done
    else if m.main_done
    then some context_done
    else none

module _ {C S : Type 0} (handler : C → S → Option S) where
  -- One step of a worker, `Run`'s goroutine. The handler answers `none` where it panics.
  pub data Move (m : Shared C S) : Worker C → Shared C S → Worker C → Type 0 where
    load_nil : m.published ≡ false → Move m top m frozen
    load_tasks : m.published ≡ true → Move m top m selecting
    frozen_pool_done : m.pool_done ≡ true → Move m frozen m exited
    frozen_main_done : m.main_done ≡ true → Move m frozen m exited
    frozen_again : m.pool_done ≡ false → m.main_done ≡ false → Move m frozen m top
    select_pool_done : m.pool_done ≡ true → Move m selecting m exited
    select_main_done : m.main_done ≡ true → Move m selecting m exited
    select_closed : m.closed ≡ true → m.buffer ≡ [] → Move m selecting m exited
    receive :
        {c : C} {rest : List C}
        → m.buffer ≡ c ∷ rest
        → Move m selecting (record m { buffer = rest }) (received c)
    begin : {c : C} → Move m (received c) (record m { in_work = m.in_work + 1 }) (working c)
    handle :
        {c : C} {store : S}
        → handler c m.store ≡ some store
        → Move m (working c) (record m { store = store; handled = c ∷ m.handled }) worked
    handle_panics :
        {c : C}
        → handler c m.store ≡ none
        → Move m (working c) (record m { handled = c ∷ m.handled }) crashed
    finish : Move m worked (record m { in_work = m.in_work - 1 }) top

  -- One step of the goroutine that calls the methods. A call that fails at once changes nothing, and
  -- has no step. `n` is the number of goroutines that `Run` starts, the capacity of the channel.
  pub data Call (m : Shared C S)
      : List (Worker C) → Control C → Shared C S → List (Worker C) → Control C → Type 0 where
    apply_begin :
        {ws : List (Worker C)} (c : C) (first : Bool)
        → apply_check m first ≡ none
        → Call m ws ready m ws (sending c)
    apply_send :
        {ws : List (Worker C)} {c : C}
        → length m.buffer < m.size
        → Call m ws
            (sending c)
            (record m { buffer = m.buffer ++ c ∷ []; accepted = c ∷ m.accepted })
            ws
            ready
    stop_begin : {ws : List (Worker C)} → m.run_atom ≡ true → Call m ws ready m ws stop_load
    stop_nil : {ws : List (Worker C)} → m.published ≡ false → Call m ws stop_load m ws ready
    stop_tasks : {ws : List (Worker C)} → m.published ≡ true → Call m ws stop_load m ws stop_test
    stop_busy : {ws : List (Worker C)} → m.in_work ≢ 0 → Call m ws stop_test m ws stop_load
    stop_idle : {ws : List (Worker C)} → m.in_work ≡ 0 → Call m ws stop_test m ws stop_len
    stop_queued : {ws : List (Worker C)} → m.buffer ≢ [] → Call m ws stop_len m ws stop_load
    stop_cancel :
        {ws : List (Worker C)}
        → m.buffer ≡ []
        → Call m ws stop_len (record m { pool_done = true }) ws stop_cancelled
    stop_close :
        {ws : List (Worker C)}
        → Call m ws stop_cancelled (record m { closed = true }) ws stop_closed
    stop_unpublish :
        {ws : List (Worker C)}
        → Call m ws stop_closed (record m { published = false }) ws stop_waiting
    stop_end :
        {ws : List (Worker C)}
        → AllGone ws
        → Call m ws stop_waiting (record m { in_work = 0; run_atom = false }) [] ready
    run :
        {ws : List (Worker C)}
        → m.run_atom ≡ false
        → Call m ws ready
            (record m { run_atom = true })
            (replicate (if m.published then m.size else 0) top)
            ready
    reconnect :
        {ws : List (Worker C)}
        → m.run_atom ≡ false
        → Call m ws ready
            (record m {
              pool_done = m.main_done;
              published = true;
              closed = false;
              buffer = [];
              run_atom = true;
            })
            (replicate m.size top)
            ready

  -- Any goroutine takes the next step; the main context may be cancelled at any time, and cancels
  -- the pool's with it.
  pub data Step (p : Pool C S) : Pool C S → Type 0 where
    work :
        (us : List (Worker C)) {w w' : Worker C} (ws : List (Worker C)) {m : Shared C S}
        → p.workers ≡ us ++ w ∷ ws
        → Move p.shared w m w'
        → Step p (record p { shared = m; workers = us ++ w' ∷ ws })
    call :
        {ws : List (Worker C)} {k : Control C} {m : Shared C S}
        → Call p.shared p.workers p.control m ws k
        → Step p (record { shared = m; workers = ws; control = k })
    cancel_main :
        Step p (record p { shared = record p.shared { main_done = true; pool_done = true } })

  pub data Reach (p : Pool C S) : Pool C S → Type 0 where
    here : Reach p p
    next : {q r : Pool C S} → Reach p q → Step q r → Reach p r
