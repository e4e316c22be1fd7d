-- ===== src/Epoll/Bounds.antt =====
-- cmd/epoll/main.go: the goroutine that reads from the pipe writes to it too, and a full pipe would stop it.
use service_template.Base.{
  ℕ, ◌+◌, ◌-◌, ◌≤◌, ◌<◌, Bool, true, false, List, [], ◌∷◌, length, length-append, take, drop,
  Option, none, some, ◌≡◌, ◌≢◌, refl, ap, arith, if-branches, leb, ◌||◌, Runes, if◌then◌else◌,
}
use mathlib.Core.Path.{subst}
use service_template.Sse.Text.{is_empty}
use service_template.Epoll.{
  buf_size, StdinRead, bytes_of, again, failed, Event, stdin_event, custom_event, Wait, interrupted,
  wait_failed, events, Ending, quit, panicked, blocked, Loop, is_quit, send_custom_event,
  handle_stdin, after_read, handle_custom, handle, handle_all, run, and_then,
}

-- A read gives at most as many bytes as its buffer holds.
abbrev pub IsRead : StdinRead → Type 0
IsRead (bytes_of write_fails value) = length value ≤ buf_size
IsRead _ = Unit

-- What `EpollWait` may return with no timeout, where the pipe holds these bytes: the descriptors that are
-- ready, each once, in some order, the pipe's if and only if there is something in it.
abbrev pub IsOffered : Runes → List Event → Type 0
IsOffered [] (stdin_event r ∷ []) = IsRead r
IsOffered (b ∷ bs) (custom_event ∷ []) = Unit
IsOffered (b ∷ bs) (stdin_event r ∷ custom_event ∷ []) = IsRead r
IsOffered (b ∷ bs) (custom_event ∷ stdin_event r ∷ []) = IsRead r
IsOffered _ _ = ⊥

abbrev pub event_failed : Event → Bool
event_failed (stdin_event failed) = true
event_failed _ = false

abbrev pub any_event_failed : List Event → Bool
any_event_failed [] = false
any_event_failed (e ∷ es) = event_failed e || any_event_failed es

-- A call of `EpollWait`, or a read of the standard input, has failed.
abbrev pub any_failed : List Wait → Bool
any_failed [] = false
any_failed (interrupted ∷ waits) = any_failed waits
any_failed (wait_failed ∷ waits) = true
any_failed (events es ∷ waits) = any_event_failed es || any_failed waits

-- Each wait returns what it may, as long as the program runs.
abbrev pub Offered : ℕ → List Wait → Loop → Type 0
Offered n [] l = Unit
Offered n (interrupted ∷ waits) l = Offered n waits l
Offered n (wait_failed ∷ waits) l = Unit
Offered n (events es ∷ waits) l =
    IsOffered l.pipe es × ((handle_all n es l).1 ≡ none → Offered n waits (handle_all n es l).0)

-- The pipe holds from `lo` bytes to those of two buffers, and `hi` at most where the program goes on; it is
-- not blocked, and has panicked only if `broke`.
pub record IsBounded (lo hi : ℕ) (broke : Bool) (r : Loop × Option Ending) : Type 0 where
  pub above : lo ≤ length r.0.pipe
  pub within : length r.0.pipe ≤ buf_size + buf_size
  pub below : r.1 ≡ none → length r.0.pipe ≤ hi
  pub unblocked : r.1 ≢ some blocked
  pub unpanicked : broke ≡ false → r.1 ≢ some panicked

length-drop : (n : ℕ) (xs : Runes) → length (drop n xs) ≡ length xs - n
length-drop ℕ.zero xs = omega arith
length-drop (ℕ.suc n) [] = omega arith
length-drop (ℕ.suc n) (x ∷ xs) = omega (arith, length-drop n xs)

stdin-IsBounded :
    (n : ℕ) (r : StdinRead) (l : Loop)
    → IsRead r
    → length l.pipe ≤ buf_size
    → buf_size + buf_size ≤ n
    → IsBounded
        (length l.pipe)
        (length l.pipe + buf_size)
        (event_failed (stdin_event r))
        (handle n (stdin_event r) l)
unfolding handle handle_stdin send_custom_event
stdin-IsBounded n (bytes_of true value) l h small room = record {
  above = omega arith;
  within = omega arith;
  below = λ go. omega arith;
  unblocked = λ e. cc;
  unpanicked = λ f e. cc;
}
stdin-IsBounded n (bytes_of false value) l h small room =
    if-branches
      (λ (r : Loop × Option Ending). IsBounded (length l.pipe) (length l.pipe + buf_size) false r)
      (leb (length l.pipe + length value) n)
      (λ fits. record {
        above = omega (arith, length-append l.pipe value);
        within = omega (arith, length-append l.pipe value);
        below = λ go. omega (arith, length-append l.pipe value);
        unblocked = λ e. cc;
        unpanicked = λ f e. cc;
      })
      (λ full. absurd (ground arith))
stdin-IsBounded n again l h small room = record {
  above = omega arith;
  within = omega arith;
  below = λ go. omega arith;
  unblocked = λ e. cc;
  unpanicked = λ f e. cc;
}
stdin-IsBounded n failed l h small room = record {
  above = omega arith;
  within = omega arith;
  below = λ go. omega arith;
  unblocked = λ e. cc;
  unpanicked = λ f e. cc;
}

custom-IsBounded :
    (n : ℕ) (l : Loop)
    → 0 < length l.pipe
    → length l.pipe ≤ buf_size + buf_size
    → IsBounded 0 (length l.pipe - buf_size) false (handle n custom_event l)
unfolding handle handle_custom after_read
custom-IsBounded n l h small =
    if-branches (λ (r : Loop × Option Ending). IsBounded 0 (length l.pipe - buf_size) false r)
      (is_empty l.pipe) (λ none_. absurd (ground arith))
      (λ some_. record {
        above = omega arith;
        within = omega (arith, length-drop buf_size l.pipe);
        below = λ go. omega (arith, length-drop buf_size l.pipe);
        unblocked = unblocked (is_quit (take buf_size l.pipe));
        unpanicked = λ f. unpanicked (is_quit (take buf_size l.pipe));
      })
  where
    unblocked : (b : Bool) → ◌≢◌ {A = Option Ending} (if b then some quit else none) (some blocked)
    unblocked true e = cc
    unblocked false e = cc

    unpanicked :
        (b : Bool) → ◌≢◌ {A = Option Ending} (if b then some quit else none) (some panicked)
    unpanicked true e = cc
    unpanicked false e = cc

and_then-IsBounded :
    {lo hi hi' : ℕ} {broke broke' : Bool} (r : Loop × Option Ending)
    (k : Loop → Loop × Option Ending)
    → IsBounded lo hi broke r
    → ((l : Loop)
        → r.1 ≡ none
        → r.0 ≡ l
        → lo ≤ length l.pipe
        → length l.pipe ≤ buf_size + buf_size
        → length l.pipe ≤ hi
        → IsBounded 0 hi' broke' (k l))
    → IsBounded 0 hi' (broke || broke') (and_then r k)
and_then-IsBounded (l, some end) k b next = record {
  above = omega arith;
  within = b.within;
  below = λ go. cc;
  unblocked = b.unblocked;
  unpanicked = λ e. b.unpanicked (ground arith);
}
and_then-IsBounded {broke = broke} {broke' = broke'} (l, none) k b next =
    let x = next l refl refl b.above b.within (b.below refl) in
    record {
      above = omega arith;
      within = x.within;
      below = x.below;
      unblocked = x.unblocked;
      unpanicked = λ e. x.unpanicked (ground arith);
    }

end-IsBounded :
    (n : ℕ) (l : Loop) → length l.pipe ≤ buf_size → IsBounded 0 buf_size false (handle_all n [] l)
unfolding handle_all
end-IsBounded n l small = record {
  above = omega arith;
  within = omega arith;
  below = λ go. small;
  unblocked = λ e. cc;
  unpanicked = λ f e. cc;
}

batch-IsBounded :
    (n : ℕ) (es : List Event) (l : Loop) (p : Runes)
    → l.pipe ≡ p
    → length l.pipe ≤ buf_size
    → buf_size + buf_size ≤ n
    → IsOffered p es
    → IsBounded 0 buf_size (any_event_failed es) (handle_all n es l)
unfolding handle_all
batch-IsBounded n [] l [] e small room o = absurd o
batch-IsBounded n (custom_event ∷ es) l [] e small room o = absurd o
batch-IsBounded n (stdin_event r ∷ e2 ∷ es) l [] e small room o = absurd o
batch-IsBounded n (stdin_event r ∷ []) l [] e small room o =
    and_then-IsBounded (handle n (stdin_event r) l) (handle_all n [])
      (stdin-IsBounded n r l o small room)
      (λ l' go same lo peak hi. end-IsBounded n l' (omega (arith, ap length e)))
batch-IsBounded n [] l (b ∷ bs) e small room o = absurd o
batch-IsBounded n (custom_event ∷ []) l (b ∷ bs) e small room o =
    and_then-IsBounded (handle n custom_event l) (handle_all n [])
      (custom-IsBounded n l (omega (arith, ap length e)) (omega arith))
      (λ l' go same lo peak hi. end-IsBounded n l' (omega arith))
batch-IsBounded n (stdin_event r ∷ custom_event ∷ []) l (b ∷ bs) e small room o =
    and_then-IsBounded (handle n (stdin_event r) l) (handle_all n (custom_event ∷ []))
      (stdin-IsBounded n r l o small room)
      (λ l' go same lo peak hi.
        and_then-IsBounded (handle n custom_event l') (handle_all n [])
          (custom-IsBounded n l' (omega (arith, ap length e)) peak)
          (λ l'' go' same' lo' peak' hi'. end-IsBounded n l'' (omega arith)))
batch-IsBounded n (custom_event ∷ stdin_event r ∷ []) l (b ∷ bs) e small room o =
    and_then-IsBounded (handle n custom_event l) (handle_all n (stdin_event r ∷ []))
      (custom-IsBounded n l (omega (arith, ap length e)) (omega arith))
      (λ l' go same lo peak hi.
        and_then-IsBounded (handle n (stdin_event r) l') (handle_all n [])
          (stdin-IsBounded n r l' o (omega arith) room)
          (λ l'' go' same' lo' peak' hi'. end-IsBounded n l'' (omega arith)))
batch-IsBounded n (custom_event ∷ custom_event ∷ es) l (b ∷ bs) e small room o = absurd o
batch-IsBounded n (stdin_event r ∷ []) l (b ∷ bs) e small room o = absurd o
batch-IsBounded n (stdin_event r ∷ stdin_event r' ∷ es) l (b ∷ bs) e small room o = absurd o
batch-IsBounded n (stdin_event r ∷ custom_event ∷ e3 ∷ es) l (b ∷ bs) e small room o = absurd o
batch-IsBounded n (custom_event ∷ stdin_event r ∷ e3 ∷ es) l (b ∷ bs) e small room o = absurd o

-- With a pipe that has room for two buffers, and what `EpollWait` and the reads may answer: the pipe never holds
-- more than two buffers, and one at most between two waits, so the program is never blocked by its own
-- write; and it never reads from the empty pipe: it panics only if a wait or a read of its input failed.
pub run-IsBounded :
    (n : ℕ) (waits : List Wait) (l : Loop)
    → buf_size + buf_size ≤ n
    → length l.pipe ≤ buf_size
    → Offered n waits l
    → IsBounded 0 buf_size (any_failed waits) (run n waits l)
unfolding run
run-IsBounded n [] l room small o = record {
  above = omega arith;
  within = omega arith;
  below = λ go. small;
  unblocked = λ e. cc;
  unpanicked = λ f e. cc;
}
run-IsBounded n (interrupted ∷ waits) l room small o = run-IsBounded n waits l room small o
run-IsBounded n (wait_failed ∷ waits) l room small o = record {
  above = omega arith;
  within = omega arith;
  below = λ go. small;
  unblocked = λ e. cc;
  unpanicked = λ f e. cc;
}
run-IsBounded n (events es ∷ waits) l room small (o, os) =
    and_then-IsBounded (handle_all n es l) (run n waits)
      (batch-IsBounded n es l l.pipe refl small room o)
      (λ l' go same lo peak hi.
        run-IsBounded n waits l' room hi (subst (Offered n waits) same (os go)))
