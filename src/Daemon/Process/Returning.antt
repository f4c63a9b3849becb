-- ===== src/Daemon/Process/Returning.antt =====
-- How `run` of tincd/daemon/node.go can go on to its return.
use tinc_boot.Prelude.{
  ◌≡◌, refl, ◌∙◌, Bool, true, false, List, [], ◌∷◌, inl, inr, In, All, All-of_In, Bool-cases, arith,
}
use tinc_boot.Text.{Text}
use tinc_boot.Daemon.Scanner.{Action, Links, scan_line}
use tinc_boot.Daemon.Process.{
  Stage, starting, waiting, closing_done, stopping, closing_writer, joining, returned, is_long,
  Event, scanned, stopped, Attempt, called, Calls, Step, start_failed, exit, read, scan, act,
  end_of_output, quit, waited, close_done, emit_stopped, close_writer, joined, Reach, here, next,
}
use tinc_boot.Daemon.Process.Returned.{Reach-Inv}
use tinc_boot.Daemon.Process.Flows.{Inv}
use tinc_boot.Daemon.Process.Hanging.{Unread, Reach-Unread}

pub Reach-trans :
    {links : Links} {calls : Calls} {a b c : Attempt}
    → Reach links calls a b
    → Reach links calls b c
    → Reach links calls a c
Reach-trans r here = r
Reach-trans r (next s st) = next (Reach-trans r s) st

-- The scanner can do all that is due at once.
record Drained (links : Links) (calls : Calls) (a : Attempt) : Type 0 where
  last : Attempt
  way : Reach links calls a last
  stage : last.stage ≡ a.stage
  output : last.output ≡ a.output
  alive : last.alive ≡ a.alive
  scanning : last.scanning ≡ true
  pipe : last.pipe ≡ []
  buffer : last.buffer ≡ []
  todo : last.todo ≡ []

-- The same from a state one step later.
after :
    {links : Links} {calls : Calls} {a : Attempt} (b : Attempt)
    → Step links calls a b
    → b.stage ≡ a.stage
    → b.output ≡ a.output
    → b.alive ≡ a.alive
    → Drained links calls b
    → Drained links calls a
after b st s o v d = record {
  last = d.last;
  way = Reach-trans (next here st) d.way;
  stage = d.stage ∙ s;
  output = d.output ∙ o;
  alive = d.alive ∙ v;
  scanning = d.scanning;
  pipe = d.pipe;
  buffer = d.buffer;
  todo = d.todo;
}

module _ {links : Links} {calls : Calls}
    (done : (log : List Event) (e : Event) → calls log e ≡ true) where
  -- First the actions that are due, then the lines that wait.
  drain_buffer :
      (buffer : List Text) (todo : List Action) (a : Attempt)
      → a.scanning ≡ true
      → a.pipe ≡ []
      → a.buffer ≡ buffer
      → a.todo ≡ todo
      → Drained links calls a
  drain_buffer [] [] a s p b t = record {
    last = a;
    way = here;
    stage = refl;
    output = refl;
    alive = refl;
    scanning = s;
    pipe = p;
    buffer = b;
    todo = t;
  }
  drain_buffer [] (now ∷ later) a s p b t =
      after _ (act now later t (done a.log (scanned now))) refl refl refl
        (drain_buffer [] later _ s p b refl)
  drain_buffer (line ∷ lines) (now ∷ later) a s p b t =
      after _ (act now later t (done a.log (scanned now))) refl refl refl
        (drain_buffer (line ∷ lines) later _ s p b refl)
  drain_buffer (line ∷ lines) [] a s p b t =
      after _ (scan line lines s t b) refl refl refl
        (drain_buffer lines (scan_line links line a.routes).1 _ s p refl refl)

  drain :
      (pipe : List Text) (a : Attempt)
      → a.scanning ≡ true
      → a.pipe ≡ pipe
      → All (λ line. is_long line ≡ false) pipe
      → Drained links calls a
  drain [] a s p short = drain_buffer a.buffer a.todo a s p refl refl
  drain (line ∷ lines) a s p short =
      after _ (read line lines s p short.0) refl refl refl (drain lines _ s refl short.1)

still_scanning :
    (a : Attempt)
    → Unread a
    → a.stage ≡ waiting
    → ((line : Text) → In line a.output → is_long line ≡ false)
    → a.scanning ≡ true
still_scanning a u e short = elim (Bool-cases a.scanning) [
  | inl s ↦ s
  | inr s ↦ elim (u.ended s) [
    | inl c ↦ absurd (ground arith)
    | inr (line, i, l) ↦ absurd (ground (arith, short line (u.written line i)))
  ]
]

module _ (links : Links) (calls : Calls)
    (done : (log : List Event) (e : Event) → calls log e ≡ true) where
  -- A state from which `run` can return without another line of tincd.
  record CanReturn (a : Attempt) : Type 0 where
    last : Attempt
    way : Reach links calls a last
    stage : last.stage ≡ returned
    output : last.output ≡ a.output

  through :
      {a : Attempt} (b : Attempt)
      → Reach links calls a b
      → b.output ≡ a.output
      → CanReturn b
      → CanReturn a
  through b r o c = record {
    last = c.last;
    way = Reach-trans r c.way;
    stage = c.stage;
    output = c.output ∙ o;
  }

  -- The goroutine of the signals ends, and `run` returns.
  return_joined : (a : Attempt) → a.stage ≡ joining → a.scanning ≡ false → CanReturn a
  return_joined a e s = elim (Bool-cases a.reloading) [
    | inl r ↦ record {
      last = _;
      way = next (next here (quit r (rw e refl))) (joined e s refl);
      stage = refl;
      output = refl;
    }
    | inr r ↦ record { last = _; way = next here (joined e s r); stage = refl; output = refl }
  ]

  return_joining : (a : Attempt) → a.stage ≡ joining → a.pipe ≡ [] → CanReturn a
  return_joining a e p = elim (Bool-cases a.scanning) [
    | inr s ↦ return_joined a e s
    | inl s ↦
        let d = drain done [] a s p tt in
        let end = end_of_output d.scanning d.todo d.buffer d.pipe (rw (d.stage ∙ e) refl) in
        through (record (d.last) { scanning = false }) (next d.way end) d.output
          (return_joined _ (d.stage ∙ e) refl)
  ]

  return_stopping : (a : Attempt) → a.stage ≡ stopping → a.pipe ≡ [] → CanReturn a
  return_stopping a e p =
      through _ (next (next here (emit_stopped e (done a.log stopped))) (close_writer refl)) refl
        (return_joining _ refl p)

  return_waiting : (a : Attempt) → a.stage ≡ waiting → a.alive ≡ false → a.pipe ≡ [] → CanReturn a
  return_waiting a e d p =
      through _ (next (next here (waited e d p)) (close_done refl)) refl (return_stopping _ refl p)

  return_dying : (a : Attempt) → a.stage ≡ waiting → a.pipe ≡ [] → CanReturn a
  return_dying a e p = elim (Bool-cases a.alive) [
    | inr d ↦ return_waiting a e d p
    | inl l ↦ through _ (next here (exit l)) refl (return_waiting _ e refl p)
  ]

  return_running :
      (a : Attempt)
      → a.stage ≡ waiting
      → a.scanning ≡ true
      → All (λ line. is_long line ≡ false) a.pipe
      → CanReturn a
  return_running a e s short =
      let d = drain done a.pipe a s refl short in
      through d.last d.way d.output (return_dying d.last (d.stage ∙ e) d.pipe)

  return_from :
      (stage : Stage) (a : Attempt)
      → a.stage ≡ stage
      → Inv links a
      → Unread a
      → ((line : Text) → In line a.output → is_long line ≡ false)
      → CanReturn a
  return_from starting a e v u short =
      through _ (next here (start_failed e)) refl (return_stopping _ refl (v.quiet (rw e refl)).1)
  return_from waiting a e v u short =
      return_running a e (still_scanning a u e short)
        (All-of_In (λ line. is_long line ≡ false) a.pipe (λ line i. short line (u.written line i)))
  return_from closing_done a e v u short =
      through _ (next here (close_done e)) refl (return_stopping _ refl (v.quiet (rw e refl)).1)
  return_from stopping a e v u short = return_stopping a e (v.quiet (rw e refl)).1
  return_from closing_writer a e v u short =
      through _ (next here (close_writer e)) refl (return_joining _ refl (v.quiet (rw e refl)).1)
  return_from joining a e v u short = return_joining a e (v.quiet (rw e refl)).1
  return_from returned a e v u short = record { last = a; way = here; stage = e; output = refl }

-- Where every listener and every command that is called returns, and tincd has written no line of
-- 65536 bytes or more, no state of `run` is a dead end: it can go on to its return, with no other line
-- of tincd.
pub run-returns :
    {links : Links} {calls : Calls} {reload : Bool} {a : Attempt}
    → Reach links calls (called reload) a
    → ((log : List Event) (e : Event) → calls log e ≡ true)
    → ((line : Text) → In line a.output → is_long line ≡ false)
    → (b : Attempt) × Reach links calls a b × (b.stage ≡ returned) × (b.output ≡ a.output)
run-returns {a = a} r done short =
    let c = return_from _ _ done a.stage a refl (Reach-Inv r) (Reach-Unread r) short in
    (c.last, c.way, c.stage, c.output)
