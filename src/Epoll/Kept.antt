-- ===== src/Epoll/Kept.antt =====
-- cmd/epoll/main.go: nothing is lost or changed on the way through the pipe.
use service_template.Base.{
  ℕ, Bool, true, false, List, [], ◌∷◌, ◌++◌, take, drop, take-append-drop, Option, none, some, ◌≡◌,
  ◌≢◌, ◌↔◌, refl, sym, ap, ◌∙◌, arith, if◌then◌else◌, if-branches, length, leb, ◌+◌, ◌||◌, Runes,
  Bool-cases, inl, inr,
}
use mathlib.Core.List.{append-nil, append_assoc}
use service_template.Sse.Text.{is_empty, trim_space}
use service_template.Epoll.{
  buf_size, bytes_of, again, failed, Event, stdin_event, custom_event, Wait, interrupted,
  wait_failed, events, Ending, quit, Loop, is_quit, send_custom_event, handle_stdin, after_read,
  handle_custom, handle, handle_all, run, and_then,
}

abbrev pub joined : List Runes → Runes
joined [] = []
joined (c ∷ cs) = c ++ joined cs

-- The chunks that hold more than space, trimmed.
abbrev pub shown : List Runes → List Runes
shown [] = []
shown (c ∷ cs) =
    let rest = shown cs in if is_empty (trim_space c) then rest else trim_space c ∷ rest

abbrev pub quits : List Runes → Bool
quits [] = false
quits (c ∷ cs) = is_quit c || quits cs

joined-append : (cs ds : List Runes) → joined (cs ++ ds) ≡ joined cs ++ joined ds
joined-append [] ds = refl
joined-append (c ∷ cs) ds = rw (joined-append cs ds, append_assoc)

shown-append : (cs ds : List Runes) → shown (cs ++ ds) ≡ shown cs ++ shown ds
shown-append [] ds = refl
shown-append (c ∷ cs) ds = elim (Bool-cases (is_empty (trim_space c))) [
  | inl e ↦ rw (e, shown-append cs ds)
  | inr e ↦ rw (e, shown-append cs ds)
]

quits-append : (cs ds : List Runes) → quits (cs ++ ds) ≡ (quits cs || quits ds)
quits-append [] ds = refl
quits-append (c ∷ cs) ds = ground (arith, quits-append cs ds)

-- The bytes that were read from the pipe, with those still in it, are all that were written to it, in order;
-- the lines that were printed are those of the chunks.
pub record IsKept (l : Loop) : Type 0 where
  pub whole : joined l.chunks ++ l.pipe ≡ l.written
  pub lines : l.printed ≡ shown l.chunks

-- A result is kept, and the program has quit exactly when it read the word.
pub record Keeps (r : Loop × Option Ending) : Type 0 where
  pub kept : IsKept r.0
  pub quit_iff : (r.1 ≡ some quit) ↔ (quits r.0.chunks ≡ true)

-- A state that is kept, in which no word to quit was read.
abbrev pub Goes : Loop → Type 0
Goes l = IsKept l × (quits l.chunks ≡ false)

same-Keeps : {l : Loop} {o : Option Ending} → Goes l → o ≢ some quit → Keeps (l, o)
same-Keeps g ne = record { kept = g.0; quit_iff = (λ e. absurd (ne e), λ e. cc) }

send-Keeps :
    (n : ℕ) (write_fails : Bool) (value : Runes) (l : Loop)
    → Goes l
    → Keeps (send_custom_event n write_fails value l)
unfolding send_custom_event
send-Keeps n true value l g = same-Keeps g (λ e. cc)
send-Keeps n false value l g =
    if-branches Keeps (leb (length l.pipe + length value) n)
      (λ fits. record {
        kept = record {
          whole =
              sym (append_assoc (joined l.chunks) l.pipe value) ∙ ap (λ x. x ++ value) g.0.whole;
          lines = g.0.lines;
        };
        quit_iff = (λ e. cc, λ e. cc);
      })
      (λ full. same-Keeps g (λ e. cc))

read-Keeps :
    (n : ℕ) (chunk rest : Runes) (l : Loop)
    → l.pipe ≡ chunk ++ rest
    → Goes l
    → Keeps (after_read n chunk (record l { pipe = rest }))
unfolding after_read
read-Keeps n chunk rest l e g = record {
  kept = record {
    whole =
        ap (λ x. x ++ rest) (joined-append l.chunks (chunk ∷ []))
        ∙ append_assoc (joined l.chunks) (chunk ++ []) rest
        ∙ ap (λ x. joined l.chunks ++ x) (append_assoc chunk [] rest ∙ sym e)
        ∙ g.0.whole;
    lines = lines_after (is_empty (trim_space chunk)) refl;
  };
  quit_iff = rw (quits-append l.chunks (chunk ∷ []), g.1) (quit_after (is_quit chunk));
}
  where
    lines_after :
        (b : Bool)
        → is_empty (trim_space chunk) ≡ b
        → (if b then l.printed else l.printed ++ trim_space chunk ∷ [])
          ≡ shown (l.chunks ++ chunk ∷ [])
    lines_after true h = rw (shown-append, h, append-nil, g.0.lines)
    lines_after false h = rw (shown-append, h, g.0.lines)

    quit_after :
        (b : Bool)
        → (◌≡◌ {A = Option Ending} (if b then some quit else none) (some quit))
          ↔ ((b || false) ≡ true)
    quit_after true = (λ e. refl, λ e. refl)
    quit_after false = (λ e. cc, λ e. cc)

custom-Keeps : (n : ℕ) (l : Loop) → Goes l → Keeps (handle_custom n l)
unfolding handle_custom
custom-Keeps n l g =
    if-branches Keeps (is_empty l.pipe) (λ none_. same-Keeps g (λ e. cc))
      (λ some_.
        read-Keeps n (take buf_size l.pipe) (drop buf_size l.pipe) l
          (sym (take-append-drop buf_size l.pipe)) g)

handle-Keeps : (n : ℕ) (e : Event) (l : Loop) → Goes l → Keeps (handle n e l)
unfolding handle handle_stdin
handle-Keeps n (stdin_event (bytes_of write_fails value)) l g = send-Keeps n write_fails value l g
handle-Keeps n (stdin_event again) l g = same-Keeps g (λ e. cc)
handle-Keeps n (stdin_event failed) l g = same-Keeps g (λ e. cc)
handle-Keeps n custom_event l g = custom-Keeps n l g

and_then-Keeps :
    (r : Loop × Option Ending) (k : Loop → Loop × Option Ending)
    → Keeps r
    → ((l : Loop) → Goes l → Keeps (k l))
    → Keeps (and_then r k)
and_then-Keeps (l, some end) k h next = h
and_then-Keeps (l, none) k h next = elim (Bool-cases (quits l.chunks)) [
  | inl read ↦ absurd (not-none (h.quit_iff.1 read))
  | inr go ↦ next l (h.kept, go)
]
  where
    not-none : ◌≢◌ {A = Option Ending} none (some quit)
    not-none e = cc

handle_all-Keeps : (n : ℕ) (es : List Event) (l : Loop) → Goes l → Keeps (handle_all n es l)
unfolding handle_all
handle_all-Keeps n [] l g = same-Keeps g (λ e. cc)
handle_all-Keeps n (e ∷ es) l g =
    and_then-Keeps (handle n e l) (handle_all n es) (handle-Keeps n e l g) (handle_all-Keeps n es)

-- Whatever the kernel answers: what was read from the pipe and what is still in it are the bytes that went
-- into it, in their order; each chunk with more than space in it was printed, trimmed, in order, and
-- nothing else; and the program has quit if and only if one of the chunks, trimmed, is "!quit".
pub run-Keeps : (n : ℕ) (waits : List Wait) (l : Loop) → Goes l → Keeps (run n waits l)
unfolding run
run-Keeps n [] l g = same-Keeps g (λ e. cc)
run-Keeps n (interrupted ∷ waits) l g = run-Keeps n waits l g
run-Keeps n (wait_failed ∷ waits) l g = same-Keeps g (λ e. cc)
run-Keeps n (events es ∷ waits) l g =
    and_then-Keeps (handle_all n es l) (run n waits) (handle_all-Keeps n es l g) (run-Keeps n waits)
