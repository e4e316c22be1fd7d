-- ===== src/Epoll/Examples.antt =====
-- The loop on a line, and then on the word to quit; and on both in one chunk.
use service_template.Base.{ℕ, ◌++◌, false, List, [], ◌∷◌, some, none, ◌≡◌, refl, runes, arith}
use service_template.Sse.Text.{is_space}
use service_template.Epoll.{
  buf_size, bytes_of, stdin_event, custom_event, Wait, events, interrupted, new_loop, quit,
  send_custom_event, handle_stdin, after_read, handle_custom, handle, handle_all, run,
}
use service_template.Epoll.Kept.{Keeps, run-Keeps}
use service_template.Epoll.Bounds.{IsBounded, run-IsBounded}

abbrev capacity : ℕ
capacity = 65536

-- "hi" and "!quit", each with its newline.
abbrev typed : List Wait
typed =
    events (stdin_event (bytes_of false (runes "hi" ++ 10 ∷ [])) ∷ [])
    ∷ interrupted
    ∷ events (custom_event ∷ stdin_event (bytes_of false (runes "!quit" ++ 10 ∷ [])) ∷ [])
    ∷ events (custom_event ∷ [])
    ∷ []

-- The same, where the descriptors of the third wait are in the other order.
abbrev other_order : List Wait
other_order =
    events (stdin_event (bytes_of false (runes "hi" ++ 10 ∷ [])) ∷ [])
    ∷ interrupted
    ∷ events (stdin_event (bytes_of false (runes "!quit" ++ 10 ∷ [])) ∷ custom_event ∷ [])
    ∷ []

test_typed :
    ((run capacity typed new_loop).1 ≡ some quit)
    × ((run capacity typed new_loop).0.printed ≡ runes "hi" ∷ runes "!quit" ∷ [])
unfolding run handle_all handle handle_stdin send_custom_event handle_custom after_read is_space
test_typed = (refl, refl)

-- The word is in one chunk with the line, and the program goes on.
test_other_order :
    ((run capacity other_order new_loop).1 ≡ none)
    × ((run capacity other_order new_loop).0.printed ≡ (runes "hi" ++ 10 ∷ runes "!quit") ∷ [])
unfolding run handle_all handle handle_stdin send_custom_event handle_custom after_read is_space
test_other_order = (refl, refl)

run-Keeps_example : Keeps (run capacity typed new_loop)
run-Keeps_example = run-Keeps capacity typed new_loop (record { whole = refl; lines = refl }, refl)

run-IsBounded_example : IsBounded 0 buf_size false (run capacity typed new_loop)
unfolding handle_all handle handle_stdin send_custom_event handle_custom after_read is_space
run-IsBounded_example =
    run-IsBounded capacity typed new_loop (omega arith) (omega arith)
      (omega arith, λ e. (omega arith, λ e'. (tt, λ e''. tt)))
