-- ===== src/Daemon/Process.antt =====
-- `run` of tincd/daemon/node.go: one life of tincd, with the goroutines that `run` starts and the
-- calls that it defers, as steps in any order.
pub mod Flows
pub mod Returned
pub mod Returning
pub mod Hanging
pub mod Blocking
use tinc_boot.Prelude.{ℕ, ◌≡◌, ◌≢◌, Bool, true, false, List, [], ◌∷◌, ◌++◌, leb}
use tinc_boot.Text.{Text}
use tinc_boot.Text.Strings.{byte_len, max_scan_token}
use tinc_boot.Daemon.Scanner.{Action, Links, Routes, scan_line}

-- Where the goroutine of `run` stands: before `cmd.Start`; in `cmd.Wait`; before each deferred call,
-- of which the last that was deferred comes first; and after its return.
pub data Stage : Type 0 where
  starting waiting closing_done stopping closing_writer joining returned : Stage

-- `done` is closed.
abbrev pub is_done : Stage → Bool
is_done starting = false
is_done waiting = false
is_done closing_done = false
is_done _ = true

-- The writer of the pipe is closed.
abbrev pub is_closed : Stage → Bool
is_closed joining = true
is_closed returned = true
is_closed _ = false

-- What listeners see: an action of the scanner, or `Stopped`.
pub data Event : Type 0 where
  scanned : Action → Event
  stopped : Event

-- A line that does not fit the buffer of a `bufio.Scanner` ends it with an error.
abbrev pub is_long : Text → Bool
is_long line = leb max_scan_token (byte_len line)

pub record Attempt : Type 0 where
  pub stage : Stage
  -- whether tincd runs
  pub alive : Bool
  -- the lines that it has written so far, those of them that the scanner has not read, and those that
  -- the scanner has in its buffer
  pub output : List Text
  pub pipe : List Text
  pub buffer : List Text
  -- the scanner: whether it goes on, what is left to do for its line, and its routes
  pub scanning : Bool
  pub todo : List Action
  pub routes : Routes
  -- `reloadSignal`, whose buffer has one place, and the goroutine that takes from it
  pub reload : Bool
  pub reloading : Bool
  -- what has happened, the first event first
  pub log : List Event

-- `run` is called; a signal may be left from before.
abbrev pub called : Bool → Attempt
called reload = record {
  stage = starting;
  alive = false;
  output = [];
  pipe = [];
  buffer = [];
  scanning = true;
  todo = [];
  routes = [];
  reload = reload;
  reloading = false;
  log = [];
}

-- Whether the calls that an event makes return, where the given events are done: its listeners, which
-- `emit` calls one after the other, or the command that an action runs.
abbrev pub Calls : Type 0
Calls = List Event → Event → Bool

pub data Step (links : Links) (calls : Calls) (a : Attempt) : Attempt → Type 0 where
  -- `cmd.Start`
  start :
      a.stage ≡ starting
      → Step links calls a (record a { stage = waiting; alive = true; reloading = true })
  start_failed : a.stage ≡ starting → Step links calls a (record a { stage = stopping })
  -- tincd writes a line, or ends, of itself or as the context is cancelled.
  write :
      (line : Text)
      → a.alive ≡ true
      → Step links calls a (record a { output = a.output ++ line ∷ []; pipe = a.pipe ++ line ∷ [] })
  exit : a.alive ≡ true → Step links calls a (record a { alive = false })
  -- The scanner reads ahead, and gives up at a long line.
  read :
      (line : Text) (lines : List Text)
      → a.scanning ≡ true
      → a.pipe ≡ line ∷ lines
      → is_long line ≡ false
      → Step links calls a (record a { buffer = a.buffer ++ line ∷ []; pipe = lines })
  give_up :
      (line : Text) (lines : List Text)
      → a.scanning ≡ true
      → a.todo ≡ []
      → a.buffer ≡ []
      → a.pipe ≡ line ∷ lines
      → is_long line ≡ true
      → Step links calls a (record a { scanning = false })
  -- It takes its next line, and does what is due for it.
  scan :
      (line : Text) (lines : List Text)
      → a.scanning ≡ true
      → a.todo ≡ []
      → a.buffer ≡ line ∷ lines
      → Step links calls a (record a {
        buffer = lines;
        todo = (scan_line links line a.routes).1;
        routes = (scan_line links line a.routes).0;
      })
  act :
      (now : Action) (later : List Action)
      → a.todo ≡ now ∷ later
      → calls a.log (scanned now) ≡ true
      → Step links calls a (record a { todo = later; log = a.log ++ scanned now ∷ [] })
  -- It ends where it has read a closed pipe to its end.
  end_of_output :
      a.scanning ≡ true
      → a.todo ≡ []
      → a.buffer ≡ []
      → a.pipe ≡ []
      → is_closed a.stage ≡ true
      → Step links calls a (record a { scanning = false })
  -- `Reload`
  ask_reload : Step links calls a (record a { reload = true })
  -- The goroutine of the signals, which a failed signal does not end.
  signal : a.reloading ≡ true → a.reload ≡ true → Step links calls a (record a { reload = false })
  quit :
      a.reloading ≡ true
      → is_done a.stage ≡ true
      → Step links calls a (record a { reloading = false })
  -- `cmd.Wait` returns when tincd has ended and all that it wrote was read.
  waited :
      a.stage ≡ waiting
      → a.alive ≡ false
      → a.pipe ≡ []
      → Step links calls a (record a { stage = closing_done })
  -- The deferred calls.
  close_done : a.stage ≡ closing_done → Step links calls a (record a { stage = stopping })
  emit_stopped :
      a.stage ≡ stopping
      → calls a.log stopped ≡ true
      → Step links calls a (record a { stage = closing_writer; log = a.log ++ stopped ∷ [] })
  close_writer : a.stage ≡ closing_writer → Step links calls a (record a { stage = joining })
  joined :
      a.stage ≡ joining
      → a.scanning ≡ false
      → a.reloading ≡ false
      → Step links calls a (record a { stage = returned })

pub data Reach (links : Links) (calls : Calls) (a : Attempt) : Attempt → Type 0 where
  here : Reach links calls a a
  next : {b c : Attempt} → Reach links calls a b → Step links calls b c → Reach links calls a c
