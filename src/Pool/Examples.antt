-- ===== src/Pool/Examples.antt =====
-- A pool of one worker over a `MemStore`: a run of it to the end of `Stop`, and two that get stuck.
use service_template.Base.{
  ℕ, ◌≤◌, ◌≡◌, refl, true, false, Option, none, some, [], ◌∷◌, length, arith,
}
use service_template.Pool.{
  top, working, exited, crashed, ready, sending, stop_load, Pool, new_pool_store, by_return, Reach,
  work, call, here, next, apply_check, load_nil, load_tasks, frozen_pool_done, receive, begin,
  handle, handle_panics, finish, apply_begin, apply_send, stop_begin, stop_tasks, stop_idle,
  stop_cancel, stop_close, stop_unpublish, stop_end, run,
}
use service_template.Pool.Invariant.{weigh, counted}
use service_template.Pool.Safety.{stopped-handled, pool_bounds, sending-open}
use service_template.Pool.Stuck.{early, lost-run_atom}
use service_template.Store.{MemStore, new_mem_store, Command, put_command, handle_command}

-- The handler of cmd/custom_worker_pool/main.go
abbrev stores : Command → MemStore → Option MemStore
stores c m = some (handle_command c m).0

abbrev panics : Command → MemStore → Option MemStore
panics c m = none

abbrev start : Pool Command MemStore
start = new_pool_store 1 new_mem_store

abbrev a_put : Command
a_put = put_command "a" "1"

-- The pool runs, and `Apply` is about to send.
abbrev at_send : Pool Command MemStore
at_send = record {
  shared = record start.shared { run_atom = true };
  workers = top ∷ [];
  control = sending a_put;
}

at_send-Reach : (handler : Command → MemStore → Option MemStore) → Reach handler start at_send
unfolding apply_check
at_send-Reach handler = next (next here (call (run refl))) (call (apply_begin a_put true refl))

sending-open_example :
    (at_send.shared.closed ≡ false)
    × (at_send.shared.published ≡ true)
    × (at_send.shared.run_atom ≡ true)
sending-open_example = sending-open 1 new_mem_store a_put (at_send-Reach stores) refl

-- The worker has the command, and has counted itself.
abbrev at_work : Pool Command MemStore
at_work = record {
  shared = record at_send.shared { in_work = 1; accepted = a_put ∷ [] };
  workers = working a_put ∷ [];
  control = ready;
}

at_work-Reach : (handler : Command → MemStore → Option MemStore) → Reach handler start at_work
at_work-Reach handler =
    next
      (next
        (next (next (at_send-Reach handler) (call (apply_send (omega arith))))
          (work [] [] refl (load_tasks refl)))
        (work [] [] refl (receive refl)))
      (work [] [] refl begin)

pool_bounds_example :
    (length at_work.shared.buffer ≤ 1)
    × (length at_work.workers ≤ 1)
    × (at_work.shared.in_work ≡ weigh counted at_work.workers)
    × (at_work.shared.in_work ≤ 1)
pool_bounds_example = pool_bounds 1 new_mem_store (at_work-Reach stores)

-- `Stop` has come to its end.
abbrev at_end : Pool Command MemStore
at_end = record {
  shared = record at_work.shared {
    run_atom = false;
    published = false;
    closed = true;
    in_work = 0;
    pool_done = true;
    store = (handle_command a_put new_mem_store).0;
    handled = a_put ∷ [];
  };
  workers = [];
  control = ready;
}

at_end-Reach : Reach stores start at_end
at_end-Reach =
    next
      (next
        (next
          (next
            (next
              (next
                (next
                  (next
                    (next
                      (next (next (at_work-Reach stores) (work [] [] refl (handle refl)))
                        (call (stop_begin refl)))
                      (work [] [] refl finish))
                    (call (stop_tasks refl)))
                  (call (stop_idle refl)))
                (call (stop_cancel refl)))
              (call stop_close))
            (call stop_unpublish))
          (work [] [] refl (load_nil refl)))
        (work [] [] refl (frozen_pool_done refl)))
      (call (stop_end (by_return, tt)))

stopped-handled_example :
    (at_end.workers ≡ [])
    × (at_end.shared.in_work ≡ 0)
    × (at_end.shared.buffer ≡ [])
    × ((f : Command → ℕ) → weigh f at_end.shared.accepted ≡ weigh f at_end.shared.handled)
stopped-handled_example = stopped-handled 1 new_mem_store at_end-Reach refl refl

-- The handler has panicked.
abbrev at_panic : Pool Command MemStore
at_panic = record at_work {
  shared = record at_work.shared { handled = a_put ∷ [] };
  workers = crashed ∷ [];
}

lost-run_atom_example : (at_panic.shared.run_atom ≡ true) × (early {C = Command} stop_load ≡ true)
lost-run_atom_example =
    lost-run_atom 1 new_mem_store {p = at_panic}
      (next (at_work-Reach panics) (work [] [] refl (handle_panics refl))) refl (omega arith)
      (next here (call (stop_begin refl)))

-- The only worker has left for a cancelled context, and a task waits.
abbrev at_cancel : Pool Command MemStore
at_cancel = record {
  shared = record at_send.shared {
    buffer = a_put ∷ [];
    accepted = a_put ∷ [];
    main_done = true;
    pool_done = true;
  };
  workers = exited ∷ [];
  control = ready;
}
