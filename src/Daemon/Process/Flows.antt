-- ===== src/Daemon/Process/Flows.antt =====
-- The invariant of `run` of tincd/daemon/node.go: what its steps keep of the output and of the log.
use tinc_boot.Prelude.{
  ℕ, suc, ◌≡◌, ◌≢◌, refl, ap, Bool, true, false, List, [], ◌∷◌, ◌++◌, append_assoc, append-nil, ◌⊎◌,
}
use tinc_boot.Text.{Text}
use tinc_boot.Daemon.Scanner.{Action, Links, scan_line, scanner}
use tinc_boot.Daemon.Process.{
  Stage, waiting, closing_writer, joining, returned, is_closed, Event, scanned, stopped, Attempt,
  called,
}

-- The actions of a log.
abbrev pub actions : List Event → List Action
actions [] = []
actions (scanned now ∷ log) = now ∷ actions log
actions (stopped ∷ log) = actions log

-- How often `Stopped` stands in a log.
abbrev pub stops : List Event → ℕ
stops [] = 0
stops (scanned _ ∷ log) = stops log
stops (stopped ∷ log) = suc (stops log)

actions-append : (xs ys : List Event) → actions (xs ++ ys) ≡ actions xs ++ actions ys
actions-append [] ys = refl
actions-append (scanned now ∷ xs) ys = ap (now ∷◌) (actions-append xs ys)
actions-append (stopped ∷ xs) ys = actions-append xs ys

pub stops-scanned : (log : List Event) (now : Action) → stops (log ++ scanned now ∷ []) ≡ stops log
stops-scanned [] now = refl
stops-scanned (scanned _ ∷ log) now = stops-scanned log now
stops-scanned (stopped ∷ log) now = ap suc (stops-scanned log now)

pub stops-stopped : (log : List Event) → stops (log ++ stopped ∷ []) ≡ suc (stops log)
stops-stopped [] = refl
stops-stopped (scanned _ ∷ log) = stops-stopped log
stops-stopped (stopped ∷ log) = ap suc (stops-stopped log)

-- How often `Stopped` was emitted at a stage.
abbrev pub emitted : Stage → ℕ
emitted closing_writer = 1
emitted joining = 1
emitted returned = 1
emitted _ = 0

-- tincd does not run, and nothing of its output is unread, at these stages.
abbrev pub is_quiet : Stage → Bool
is_quiet waiting = false
is_quiet _ = true

pub record Inv (links : Links) (a : Attempt) : Type 0 where
  -- Whatever tincd writes later, the actions done, those due and those of the lines that wait are
  -- the scanner's on the whole output.
  pub flows :
      (rest : List Text)
      → (scanner links (a.output ++ rest) []).1
        ≡ actions a.log ++ (a.todo ++ (scanner links (a.buffer ++ (a.pipe ++ rest)) a.routes).1)
  pub emits : stops a.log ≡ emitted a.stage
  pub quiet : is_quiet a.stage ≡ true → (a.alive ≡ false) × (a.pipe ≡ [])
  pub ended :
      a.scanning ≡ false
      → (a.todo ≡ []) × (a.buffer ≡ []) × ((is_closed a.stage ≡ true) ⊎ (a.pipe ≢ []))
  -- Neither goroutine goes on after the return.
  pub alone : a.stage ≡ returned → (a.scanning ≡ false) × (a.reloading ≡ false)

pub called-Inv : (links : Links) (reload : Bool) → Inv links (called reload)
called-Inv links reload = record {
  flows = λ rest. refl;
  emits = refl;
  quiet = λ _. (refl, refl);
  ended = λ e. absurd (cc);
  alone = λ e. absurd (cc);
}

pub write-flows :
    (links : Links) (a : Attempt) (line : Text)
    → Inv links a
    → (rest : List Text)
    → (scanner links ((a.output ++ line ∷ []) ++ rest) []).1
      ≡ actions a.log
        ++ (a.todo ++ (scanner links (a.buffer ++ ((a.pipe ++ line ∷ []) ++ rest)) a.routes).1)
write-flows links a line v rest =
    rw (append_assoc a.output (line ∷ []) rest)
      (rw (append_assoc a.pipe (line ∷ []) rest) (v.flows (line ∷ rest)))

pub read-flows :
    (links : Links) (a : Attempt) (line : Text) (lines rest : List Text)
    → Inv links a
    → a.pipe ≡ line ∷ lines
    → (scanner links (a.output ++ rest) []).1
      ≡ actions a.log
        ++ (a.todo ++ (scanner links ((a.buffer ++ line ∷ []) ++ (lines ++ rest)) a.routes).1)
read-flows links a line lines rest v e =
    rw (append_assoc a.buffer (line ∷ []) (lines ++ rest)) (rw e at (v.flows rest))

pub scan-flows :
    (links : Links) (a : Attempt) (line : Text) (lines rest : List Text)
    → Inv links a
    → a.todo ≡ []
    → a.buffer ≡ line ∷ lines
    → (scanner links (a.output ++ rest) []).1
      ≡ actions a.log
        ++ ((scan_line links line a.routes).1
            ++ (scanner links (lines ++ (a.pipe ++ rest)) (scan_line links line a.routes).0).1)
unfolding scanner
scan-flows links a line lines rest v e f = rw e at (rw f at (v.flows rest))

pub act-flows :
    (links : Links) (a : Attempt) (now : Action) (later : List Action) (rest : List Text)
    → Inv links a
    → a.todo ≡ now ∷ later
    → (scanner links (a.output ++ rest) []).1
      ≡ actions (a.log ++ scanned now ∷ [])
        ++ (later ++ (scanner links (a.buffer ++ (a.pipe ++ rest)) a.routes).1)
act-flows links a now later rest v e = rw (actions-append a.log (scanned now ∷ [])) (
    rw
      (append_assoc (actions a.log) (now ∷ [])
        (later ++ (scanner links (a.buffer ++ (a.pipe ++ rest)) a.routes).1))
      (rw e at (v.flows rest)))

pub stopped-flows :
    (links : Links) (a : Attempt) (rest : List Text)
    → Inv links a
    → (scanner links (a.output ++ rest) []).1
      ≡ actions (a.log ++ stopped ∷ [])
        ++ (a.todo ++ (scanner links (a.buffer ++ (a.pipe ++ rest)) a.routes).1)
stopped-flows links a rest v =
    rw (actions-append a.log (stopped ∷ [])) (rw (append-nil (actions a.log)) (v.flows rest))
