-- ===== src/Programs/WorkerPool/Stores.antt =====
-- cmd/custom_worker_pool/main.go: the store of pkg/map_store.go behind each pack of commands, which the
-- workers of pkg/worker_pool.go handle in any order.
use service_template.Base.{
  ℕ, ◌≡◌, refl, sym, ap, ◌∙◌, true, false, String, str_eq, eq_iff, Option, none, some, List, [],
  ◌∷◌, ◌++◌, arith, ◌==◌, if◌then◌else◌, Bool-cases, inl, inr, All,
}
use mathlib.Core.Path.{subst}
use service_template.Pool.{Pool, new_pool_store, Reach, ready, here}
use service_template.Pool.Invariant.{weigh, weigh-append}
use service_template.Pool.Safety.{stopped-handled}
use service_template.Pool.Replay.{replay, total, Reach-Handled, Reach-trans}
use service_template.Store.{
  MemStore, new_mem_store, put, del, Command, put_command, get_command, del_command, get_key,
  get_value, apply_command, handle_command,
}
use service_template.Programs.WorkerPool.{
  pool_handler, keys, pack, last_command, same_effect, effect, on, against, flip, holds,
}

handler-entry :
    (c : Command) (k : String) (m : MemStore)
    → (pool_handler c m).entry k
      ≡ (if str_eq k (get_key c) then effect c (m.entry k) else m.entry k)
unfolding pool_handler handle_command apply_command get_key get_value put del
handler-entry (put_command j v) k m = refl
handler-entry (get_command j v) k m = ground arith
handler-entry (del_command j v) k m = refl

effect-same :
    (c d : Command) (old : Option String) → same_effect c d ≡ true → effect c old ≡ effect d old
effect-same (put_command j v) (put_command j' v') old e = ap some ((eq_iff v v').0 e)
effect-same (put_command j v) (get_command j' v') old e = cc
effect-same (put_command j v) (del_command j' v') old e = cc
effect-same (get_command j v) (put_command j' v') old e = cc
effect-same (get_command j v) (get_command j' v') old e = refl
effect-same (get_command j v) (del_command j' v') old e = cc
effect-same (del_command j v) (put_command j' v') old e = cc
effect-same (del_command j v) (get_command j' v') old e = cc
effect-same (del_command j v) (del_command j' v') old e = refl

effect-effect : (d : Command) (old : Option String) → effect d (effect d old) ≡ effect d old
effect-effect (put_command j v) old = refl
effect-effect (get_command j v) old = refl
effect-effect (del_command j v) old = refl

-- The commands that all do to the value of a key what `d` does: one of them is enough.
replay-entry :
    (k : String) (d : Command) (cs : List Command) (m : MemStore)
    → weigh (against d k) cs ≡ 0
    → (replay pool_handler cs m).entry k
      ≡ (if weigh (on k) cs == 0 then m.entry k else effect d (m.entry k))
unfolding get_key
replay-entry k d [] m h = refl
replay-entry k d (c ∷ cs) m h =
    let later = replay pool_handler cs m in
    let ih = replay-entry k d cs m (omega arith) in
    let step = handler-entry c k later in
    elim (Bool-cases (str_eq k (get_key c))) [
      | inl hit ↦ elim (Bool-cases (same_effect c d)) [
        | inl same ↦
            let one = effect-same c d (later.entry k) same in
            let two = effect-effect d (m.entry k) in ground arith
        | inr other ↦ absurd (ground arith)
      ]
      | inr miss ↦ ground arith
    ]

-- No call is under way, and the pool is not running: before `Run`, and behind a `Stop`.
abbrev pub AtRest : Pool Command MemStore → Type 0
AtRest p = (p.control ≡ ready) × (p.shared.run_atom ≡ false)

module _ (n : ℕ) (s : MemStore) {p q : Pool Command MemStore} where
  -- Between two states in which the pool is at rest, whatever its workers do in whatever order: if all the
  -- commands on a key that `Apply` accepted in between do to a value what `d` does, then the value of
  -- the key is what `d` makes of the old one, or the old one where there was no such command.
  pub stopped-entry :
      Reach (total pool_handler) (new_pool_store n s) p
      → AtRest p
      → Reach (total pool_handler) p q
      → AtRest q
      → (new : List Command) → q.shared.accepted ≡ new ++ p.shared.accepted
      → (k : String) (d : Command) → weigh (against d k) new ≡ 0
      → q.shared.store.entry k ≡ (
          if weigh (on k) new == 0
          then p.shared.store.entry k
          else effect d (p.shared.store.entry k))
  stopped-entry r at_p r' at_q new e k d only =
      let h = Reach-Handled pool_handler r' in
      ap (λ (m : MemStore). m.entry k) h.store
      ∙ replay-entry k d h.since p.shared.store (sym (weigh_new (against d k)) ∙ only)
      ∙ ap (λ w. if w == 0 then p.shared.store.entry k else effect d (p.shared.store.entry k))
          (sym (weigh_new (on k)))
    where
      weigh_new : (f : Command → ℕ) → weigh f new ≡ weigh f (Reach-Handled pool_handler r').since
      weigh_new f =
          let h = Reach-Handled pool_handler r' in
          omega (
            arith,
            (stopped-handled n s r at_p.0 at_p.1).3 f,
            (stopped-handled n s (Reach-trans pool_handler r r') at_q.0 at_q.1).3 f,
            ap (weigh f) e,
            weigh-append f new p.shared.accepted,
            ap (weigh f) h.handled,
            weigh-append f h.since p.shared.handled,
          )

by_key :
    (P : String → Type 0) (k : String) (ks : List String)
    → All P ks
    → (All (λ j. str_eq k j ≡ false) ks → P k)
    → P k
by_key P k [] hs other = other tt
by_key P k (j ∷ js) (h, hs) other = elim (Bool-cases (str_eq k j)) [
  | inl e ↦ subst P (sym ((eq_iff k j).0 e)) h
  | inr ne ↦ by_key P k js hs (λ rest. other (ne, rest))
]

-- A command that stands for those of the pack on a key: what it makes of no value, and of the pack's.
record Settles (k : String) : Type 0 where
  command : Command
  only : weigh (against command k) (flip pack) ≡ 0
  first : (if weigh (on k) (flip pack) == 0 then none else effect command none) ≡ holds "a-0" k
  again :
      (if weigh (on k) (flip pack) == 0 then holds "a-0" k else effect command (holds "a-0" k))
      ≡ holds "a-0" k

pack-Settles : (k : String) → Settles k
unfolding pack get_key
pack-Settles k =
    by_key Settles k keys
      (
        record { command = put_command "a" "a-0"; only = refl; first = refl; again = refl },
        (
          record { command = get_command "b" ""; only = refl; first = refl; again = refl },
          (
            record { command = del_command "c" ""; only = refl; first = refl; again = refl },
            (
              record { command = put_command "d" "d-3"; only = refl; first = refl; again = refl },
              (
                record { command = get_command "e" ""; only = refl; first = refl; again = refl },
                (
                  record { command = del_command "f" ""; only = refl; first = refl; again = refl },
                  (
                    record {
                      command = put_command "g" "g-6";
                      only = refl;
                      first = refl;
                      again = refl;
                    },
                    tt,
                  ),
                ),
              ),
            ),
          ),
        ),
      )
      (λ out. record {
        command = get_command "" "";
        only = ground arith;
        first = ground arith;
        again = ground arith;
      })

last-holds :
    (k : String) {o : Option String}
    → o ≡ holds "a-0" k
    → (if weigh (on k) (last_command ∷ []) == 0 then o else effect last_command o) ≡ holds "new-a" k
unfolding last_command get_key
last-holds k e = elim (Bool-cases (str_eq k "a")) [ inl a ↦ rw a | inr b ↦ rw (b, e, b) ]

-- The program: at each of its first two stops the store holds what the pack makes of nothing, "a-0", "d-3"
-- and "g-6" under "a", "d" and "g", and no other key, whatever the number of workers and the
-- order in which they handle the commands; once it has stopped behind the last command, "a" has the new value.
pub main-holds :
    (n : ℕ) {p1 p2 q : Pool Command MemStore}
    → Reach (total pool_handler) (new_pool_store n new_mem_store) p1
    → AtRest p1
    → p1.shared.accepted ≡ flip pack ++ []
    → Reach (total pool_handler) p1 p2
    → AtRest p2
    → p2.shared.accepted ≡ flip pack ++ p1.shared.accepted
    → Reach (total pool_handler) p2 q
    → AtRest q
    → q.shared.accepted ≡ (last_command ∷ []) ++ p2.shared.accepted
    → (k : String)
    → (p1.shared.store.entry k ≡ holds "a-0" k)
      × (p2.shared.store.entry k ≡ holds "a-0" k)
      × (q.shared.store.entry k ≡ holds "new-a" k)
unfolding last_command get_key
main-holds n {p1} {p2} {q} r1 at1 acc1 r2 at2 acc2 r3 at3 acc3 k =
    let x = pack-Settles k in
    let e1 = stopped-entry n new_mem_store here (refl, refl) r1 at1 _ acc1 k x.command x.only in
    let e2 = stopped-entry n new_mem_store r1 at1 r2 at2 _ acc2 k x.command x.only in
    let to2 = Reach-trans pool_handler r1 r2 in
    let e3 =
      stopped-entry n new_mem_store to2 at2 r3 at3 (last_command ∷ []) acc3 k last_command
        (ground arith) in
    let f1 = e1 ∙ x.first in
    let f2 =
      e2
      ∙ ap (λ (o : Option String). if weigh (on k) (flip pack) == 0 then o else effect x.command o)
          f1
      ∙ x.again in
    (f1, f2, e3 ∙ last-holds k f2)
