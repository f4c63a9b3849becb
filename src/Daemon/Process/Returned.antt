-- ===== src/Daemon/Process/Returned.antt =====
-- What holds while `run` of tincd/daemon/node.go goes on, and when it has returned.
use tinc_boot.Prelude.{◌≡◌, refl, sym, ap, ◌∙◌, Bool, false, [], append-nil, arith}
use tinc_boot.Daemon.Scanner.{Links, scanner}
use tinc_boot.Daemon.Process.{
  returned, Attempt, called, Calls, Step, start, start_failed, write, exit, read, give_up, scan,
  act, end_of_output, ask_reload, signal, quit, waited, close_done, emit_stopped, close_writer,
  joined, Reach, here, next,
}
use tinc_boot.Daemon.Process.Flows.{
  actions, stops, stops-scanned, stops-stopped, emitted, Inv, called-Inv, write-flows, read-flows,
  scan-flows, act-flows, stopped-flows,
}

Step-Inv :
    {links : Links} {calls : Calls} {a b : Attempt}
    → Step links calls a b
    → Inv links a
    → Inv links b
Step-Inv {links} {a} (start e) v = record {
  flows = v.flows;
  emits = ground (arith, v.emits);
  quiet = λ q. ground (arith, v.quiet);
  ended = λ q. ground (arith, v.ended);
  alone = λ q. ground (arith, v.alone);
}
Step-Inv {links} {a} (start_failed e) v = record {
  flows = v.flows;
  emits = ground (arith, v.emits);
  quiet = λ q. ground (arith, v.quiet);
  ended = λ q. ground (arith, v.ended);
  alone = λ q. ground (arith, v.alone);
}
Step-Inv {links} {a} (write line e) v = record {
  flows = write-flows links a line v;
  emits = ground (arith, v.emits);
  quiet = λ q. ground (arith, v.quiet);
  ended = λ q. ground (arith, v.ended);
  alone = λ q. ground (arith, v.alone);
}
Step-Inv {links} {a} (exit e) v = record {
  flows = v.flows;
  emits = ground (arith, v.emits);
  quiet = λ q. ground (arith, v.quiet);
  ended = λ q. ground (arith, v.ended);
  alone = λ q. ground (arith, v.alone);
}
Step-Inv {links} {a} (read line lines s e short) v = record {
  flows = λ rest. read-flows links a line lines rest v e;
  emits = ground (arith, v.emits);
  quiet = λ q. ground (arith, v.quiet);
  ended = λ q. ground (arith, v.ended);
  alone = λ q. ground (arith, v.alone);
}
Step-Inv {links} {a} (give_up line lines s t b e long) v = record {
  flows = v.flows;
  emits = ground (arith, v.emits);
  quiet = λ q. ground (arith, v.quiet);
  ended = λ q. ground (arith, v.ended);
  alone = λ q. ground (arith, v.alone);
}
Step-Inv {links} {a} (scan line lines s t e) v = record {
  flows = λ rest. scan-flows links a line lines rest v t e;
  emits = ground (arith, v.emits);
  quiet = λ q. ground (arith, v.quiet);
  ended = λ q. ground (arith, v.ended);
  alone = λ q. ground (arith, v.alone);
}
Step-Inv {links} {a} (act now later e c) v = record {
  flows = λ rest. act-flows links a now later rest v e;
  emits = stops-scanned a.log now ∙ v.emits;
  quiet = λ q. ground (arith, v.quiet);
  ended = λ q. ground (arith, v.ended);
  alone = λ q. ground (arith, v.alone);
}
Step-Inv {links} {a} (end_of_output s t b p e) v = record {
  flows = v.flows;
  emits = ground (arith, v.emits);
  quiet = λ q. ground (arith, v.quiet);
  ended = λ q. ground (arith, v.ended);
  alone = λ q. ground (arith, v.alone);
}
Step-Inv {links} {a} (ask_reload) v = record {
  flows = v.flows;
  emits = ground (arith, v.emits);
  quiet = λ q. ground (arith, v.quiet);
  ended = λ q. ground (arith, v.ended);
  alone = λ q. ground (arith, v.alone);
}
Step-Inv {links} {a} (signal r e) v = record {
  flows = v.flows;
  emits = ground (arith, v.emits);
  quiet = λ q. ground (arith, v.quiet);
  ended = λ q. ground (arith, v.ended);
  alone = λ q. ground (arith, v.alone);
}
Step-Inv {links} {a} (quit r e) v = record {
  flows = v.flows;
  emits = ground (arith, v.emits);
  quiet = λ q. ground (arith, v.quiet);
  ended = λ q. ground (arith, v.ended);
  alone = λ q. ground (arith, v.alone);
}
Step-Inv {links} {a} (waited e d p) v = record {
  flows = v.flows;
  emits = ground (arith, v.emits);
  quiet = λ q. ground (arith, v.quiet);
  ended = λ q. ground (arith, v.ended);
  alone = λ q. ground (arith, v.alone);
}
Step-Inv {links} {a} (close_done e) v = record {
  flows = v.flows;
  emits = ground (arith, v.emits);
  quiet = λ q. ground (arith, v.quiet);
  ended = λ q. ground (arith, v.ended);
  alone = λ q. ground (arith, v.alone);
}
Step-Inv {links} {a} (emit_stopped e c) v = record {
  flows = λ rest. stopped-flows links a rest v;
  emits = ground (arith, stops-stopped a.log, v.emits);
  quiet = λ q. ground (arith, v.quiet);
  ended = λ q. ground (arith, v.ended);
  alone = λ q. ground (arith, v.alone);
}
Step-Inv {links} {a} (close_writer e) v = record {
  flows = v.flows;
  emits = ground (arith, v.emits);
  quiet = λ q. ground (arith, v.quiet);
  ended = λ q. ground (arith, v.ended);
  alone = λ q. ground (arith, v.alone);
}
Step-Inv {links} {a} (joined e f r) v = record {
  flows = v.flows;
  emits = ground (arith, v.emits);
  quiet = λ q. ground (arith, v.quiet);
  ended = λ q. ground (arith, v.ended);
  alone = λ q. ground (arith, v.alone);
}

pub Reach-Inv :
    {links : Links} {calls : Calls} {reload : Bool} {a : Attempt}
    → Reach links calls (called reload) a
    → Inv links a
Reach-Inv {links} {reload} here = called-Inv links reload
Reach-Inv (next r st) = Step-Inv st (Reach-Inv r)

-- However the goroutines take turns: when `run` has returned, tincd does not run and both goroutines
-- have ended; `Stopped` was emitted once, and apart from it what happened is what the scanner does, in
-- this order, on the whole output of tincd.
pub run_lem :
    {links : Links} {calls : Calls} {reload : Bool} {a : Attempt}
    → Reach links calls (called reload) a
    → a.stage ≡ returned
    → (actions a.log ≡ (scanner links a.output []).1)
      × (stops a.log ≡ 1)
      × (a.alive ≡ false)
      × (a.scanning ≡ false)
      × (a.reloading ≡ false)
unfolding scanner
run_lem {links} {a = a} r e =
    let v = Reach-Inv r in
    let (dead, read_all) = v.quiet (rw e refl) in
    let (over, quiet) = v.alone e in
    let (none_due, none_waits, _) = v.ended over in
    (
      sym (
          rw (append-nil (actions a.log)) at (
            rw (append-nil a.output) at
              (rw none_due at (rw none_waits at (rw read_all at (v.flows [])))))),
      v.emits ∙ ap emitted e,
      dead,
      over,
      quiet,
    )
