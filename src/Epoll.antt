-- ===== src/Epoll.antt =====
-- cmd/epoll/main.go: the loop over `EpollWait`, which passes what it reads from the standard input through a
-- pipe and prints what it reads from the pipe. The answers of the kernel are arguments. A byte is a rune: the
-- input is ASCII.
pub mod Kept
pub mod Bounds
mod Examples
use service_template.Base.{
  ℕ, ◌+◌, Bool, true, false, List, [], ◌∷◌, ◌++◌, length, take, drop, Option, none, some, leb, ◌==◌,
  ◌&&◌, not, if◌then◌else◌, Runes, runes,
}
use service_template.Sse.Text.{is_empty, trim_space}

-- The size of `buf` in both cases.
abbrev pub buf_size : ℕ
buf_size = 1024

-- What `os.Stdin.Read` comes to: the bytes, and whether `unix.Write` of them to the pipe then fails; the bare
-- error EAGAIN; or any other error, the end of the input among them.
pub data StdinRead : Type 0 where
  bytes_of : (write_fails : Bool) → Runes → StdinRead
  again : StdinRead
  failed : StdinRead

-- The descriptor of an event, with what a read of it comes to.
pub data Event : Type 0 where
  stdin_event : StdinRead → Event
  custom_event : Event

-- What `EpollWait` returns.
pub data Wait : Type 0 where
  interrupted : Wait
  wait_failed : Wait
  events : List Event → Wait

-- How the program ends, or that it waits for ever in a write to a full pipe.
pub data Ending : Type 0 where
  quit : Ending
  panicked : Ending
  blocked : Ending

-- The bytes in the pipe and the lines that were printed. `written` and `chunks` are the history: all bytes that
-- went into the pipe, and what each read of it gave.
pub record Loop : Type 0 where
  pub pipe : Runes
  pub printed : List Runes
  pub written : Runes
  pub chunks : List Runes

abbrev pub new_loop : Loop
new_loop = record { pipe = []; printed = []; written = []; chunks = [] }

abbrev pub runes_eq : Runes → Runes → Bool
runes_eq [] [] = true
runes_eq [] (d ∷ t) = false
runes_eq (c ∷ s) [] = false
runes_eq (c ∷ s) (d ∷ t) = (c == d) && runes_eq s t

abbrev pub is_quit : Runes → Bool
is_quit chunk = runes_eq (trim_space chunk) (runes "!quit")

-- What follows, unless the program has come to an end.
abbrev pub and_then : Loop × Option Ending → (Loop → Loop × Option Ending) → Loop × Option Ending
and_then (l, some end) k = (l, some end)
and_then (l, none) k = k l

-- `capacity` is that of the pipe. A write of at most `PIPE_BUF` bytes is atomic.
module _ (capacity : ℕ) where
  -- `sendCustomEvent`, whose error is printed alone.
  unfoldable pub send_custom_event : Bool → Runes → Loop → Loop × Option Ending
  send_custom_event write_fails value l =
      if write_fails
      then (l, none)
      else if leb (length l.pipe + length value) capacity
      then (record l { pipe = l.pipe ++ value; written = l.written ++ value }, none)
      else (l, some blocked)

  unfoldable pub handle_stdin : StdinRead → Loop → Loop × Option Ending
  handle_stdin (bytes_of write_fails value) l = send_custom_event write_fails value l
  handle_stdin again l = (l, none)
  handle_stdin failed l = (l, some panicked)

  -- What is done with a chunk that was read from the pipe.
  unfoldable pub after_read : Runes → Loop → Loop × Option Ending
  after_read chunk l =
      let trimmed = trim_space chunk in
      (
        record l {
          printed = if is_empty trimmed then l.printed else l.printed ++ trimmed ∷ [];
          chunks = l.chunks ++ chunk ∷ [];
        },
        if is_quit chunk then some quit else none,
      )

  -- The read end does not block: on an empty pipe the read is an error.
  unfoldable pub handle_custom : Loop → Loop × Option Ending
  handle_custom l =
      if is_empty l.pipe
      then (l, some panicked)
      else after_read (take buf_size l.pipe) (record l { pipe = drop buf_size l.pipe })

  unfoldable pub handle : Event → Loop → Loop × Option Ending
  handle (stdin_event r) l = handle_stdin r l
  handle custom_event l = handle_custom l

  -- The loop over the events of one wait.
  unfoldable pub handle_all : List Event → Loop → Loop × Option Ending
  handle_all [] l = (l, none)
  handle_all (e ∷ es) l = and_then (handle e l) (handle_all es)

  unfoldable pub run : List Wait → Loop → Loop × Option Ending
  run [] l = (l, none)
  run (interrupted ∷ waits) l = run waits l
  run (wait_failed ∷ waits) l = (l, some panicked)
  run (events es ∷ waits) l = and_then (handle_all es l) (run waits)
