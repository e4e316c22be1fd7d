-- ===== src/Programs/WorkerPool/Examples.antt =====
-- A whole run of cmd/custom_worker_pool/main.go, with one worker.
use service_template.Base.{◌≡◌, refl, true, false, List, [], ◌∷◌, ◌++◌, arith}
use service_template.Pool.{
  top, Pool, new_pool_store, by_return, Reach, ready, work, call, here, next, apply_check, load_nil,
  load_tasks, frozen_pool_done, receive, begin, handle, finish, apply_begin, apply_send, stop_begin,
  stop_tasks, stop_idle, stop_cancel, stop_close, stop_unpublish, stop_end, run, reconnect,
}
use service_template.Pool.Replay.{total, Reach-trans, replay}
use service_template.Store.{
  get_key, MemStore, new_mem_store, Command, put_command, get_command, del_command,
}
use service_template.Programs.WorkerPool.{pool_handler, pack, last_command, flip, holds}
use service_template.Programs.WorkerPool.Stores.{stopped-entry, main-holds}

test_pack :
    pack
    ≡ put_command "a" "a-0"
      ∷ get_command "b" "b-1"
      ∷ del_command "c" "c-2"
      ∷ put_command "d" "d-3"
      ∷ get_command "e" "e-4"
      ∷ del_command "f" "f-5"
      ∷ put_command "g" "g-6"
      ∷ []
unfolding pack
test_pack = refl

-- The one worker waits at the head of its loop.
abbrev running : MemStore → (accepted handled : List Command) → Pool Command MemStore
running m accepted handled = record {
  shared = record (new_pool_store {C = Command} 1 new_mem_store).shared {
    run_atom = true;
    store = m;
    accepted = accepted;
    handled = handled;
  };
  workers = top ∷ [];
  control = ready;
}

abbrev stopped : MemStore → (accepted handled : List Command) → Pool Command MemStore
stopped m accepted handled = record {
  shared = record (running m accepted handled).shared {
    run_atom = false;
    published = false;
    closed = true;
    pool_done = true;
  };
  workers = [];
  control = ready;
}

-- One command on its way through the pool.
pass :
    (c : Command) (m : MemStore) (a h : List Command)
    → Reach (total pool_handler) (running m a h) (running (pool_handler c m) (c ∷ a) (c ∷ h))
unfolding apply_check
pass c m a h =
    next
      (next
        (next
          (next
            (next
              (next (next here (call (apply_begin c true refl))) (call (apply_send (omega arith))))
              (work [] [] refl (load_tasks refl)))
            (work [] [] refl (receive refl)))
          (work [] [] refl begin))
        (work [] [] refl (handle refl)))
      (work [] [] refl finish)

pass_all :
    (cs : List Command) (m : MemStore) (a h : List Command)
    → Reach
        (total pool_handler)
        (running m a h)
        (running (replay pool_handler cs m) (cs ++ a) (cs ++ h))
pass_all [] m a h = here
pass_all (c ∷ cs) m a h =
    Reach-trans pool_handler (pass_all cs m a h)
      (pass c (replay pool_handler cs m) (cs ++ a) (cs ++ h))

stop_all :
    (m : MemStore) (a h : List Command) → Reach (total pool_handler) (running m a h) (stopped m a h)
stop_all m a h =
    next
      (next
        (next
          (next
            (next
              (next
                (next (next (next here (call (stop_begin refl))) (call (stop_tasks refl)))
                  (call (stop_idle refl)))
                (call (stop_cancel refl)))
              (call stop_close))
            (call stop_unpublish))
          (work [] [] refl (load_nil refl)))
        (work [] [] refl (frozen_pool_done refl)))
      (call (stop_end (by_return, tt)))

-- `Run`, or `Reconnect`, then the commands, and `Stop`.
session :
    (cs : List Command) (m : MemStore) (a h : List Command)
    → Reach
        (total pool_handler)
        (stopped m a h)
        (stopped (replay pool_handler cs m) (cs ++ a) (cs ++ h))
session cs m a h = Reach-trans pool_handler (next here (call (reconnect refl))) (
    Reach-trans pool_handler (pass_all cs m a h)
      (stop_all (replay pool_handler cs m) (cs ++ a) (cs ++ h)))

abbrev store1 : MemStore
store1 = replay pool_handler (flip pack) new_mem_store

abbrev store2 : MemStore
store2 = replay pool_handler (flip pack) store1

abbrev packs : List Command
packs = flip pack ++ (flip pack ++ [])

first_session :
    Reach
      (total pool_handler)
      (new_pool_store 1 new_mem_store)
      (stopped store1 (flip pack ++ []) (flip pack ++ []))
first_session = Reach-trans pool_handler (next here (call (run refl))) (
    Reach-trans pool_handler (pass_all (flip pack) new_mem_store [] [])
      (stop_all store1 (flip pack ++ []) (flip pack ++ [])))

main-holds_example :
    (store1.entry "a" ≡ holds "a-0" "a")
    × (store2.entry "a" ≡ holds "a-0" "a")
    × ((pool_handler last_command store2).entry "a" ≡ holds "new-a" "a")
main-holds_example =
    main-holds 1 first_session (refl, refl) refl
      (session (flip pack) store1 (flip pack ++ []) (flip pack ++ [])) (refl, refl) refl
      (session (last_command ∷ []) store2 packs packs) (refl, refl) refl "a"

stopped-entry_example : store1.entry "d" ≡ holds "a-0" "d"
unfolding pack get_key
stopped-entry_example =
    stopped-entry 1 new_mem_store here (refl, refl) first_session (refl, refl) (flip pack) refl "d"
      (put_command "d" "d-3") refl
