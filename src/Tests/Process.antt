-- ===== src/Tests/Process.antt =====
-- Lives of tincd, step by step.
use tinc_boot.Prelude.{
  ℕ, zero, suc, ◌≡◌, ◌≢◌, refl, subst, true, false, [], ◌∷◌, In, inl, inr, arith,
}
use tinc_boot.Text.{Text, codes}
use tinc_boot.Text.Strings.{byte_len}
use tinc_boot.Daemon.Output.{is_subnet_added, is_subnet_removed, is_ready}
use tinc_boot.Daemon.Scanner.{
  Links, ready, configured, running, scan_line, scanner, on_ready, setup_network,
}
use tinc_boot.Daemon.Process.{
  stopping, returned, waiting, scanned, stopped, is_long, Attempt, called, Calls, start, write,
  exit, read, scan, act, end_of_output, quit, waited, close_done, emit_stopped, close_writer,
  joined, Reach, here, next,
}
use tinc_boot.Discovery.Http.{unmade, attend}
use tinc_boot.Discovery.Http.Orderly.{attend-late}
use tinc_boot.Daemon.Process.Returned.{run_lem}
use tinc_boot.Daemon.Process.Flows.{actions, stops}
use tinc_boot.Daemon.Process.Returning.{run-returns}
use tinc_boot.Daemon.Process.Hanging.{long-waiting}

abbrev links : Links
links = record { set_address = true; enable_interface = true }

-- Every call returns.
abbrev prompt : Calls
prompt = λ log e. true

-- A line that makes the scanner emit `Ready` and `Configured`.
abbrev ready_line : Text
ready_line = codes "Ready"

ready_actions : (scan_line links ready_line []).1 ≡ ready ∷ configured ∷ running ∷ []
unfolding scan_line is_subnet_added is_subnet_removed is_ready on_ready setup_network
ready_actions = refl

-- tincd gets ready and ends at once, and `Stopped` is emitted before the scanner has done the line.
hasty :
    (a : Attempt) × Reach links prompt (called false) a
    × (a.stage ≡ returned)
    × (a.output ≡ ready_line ∷ [])
    × (a.log ≡ stopped ∷ scanned ready ∷ scanned configured ∷ scanned running ∷ [])
unfolding scan_line is_subnet_added is_subnet_removed is_ready on_ready setup_network byte_len
hasty =
    let r1 = next (next here (start refl)) (write ready_line refl) in
    let r2 = next (next r1 (read ready_line [] refl refl refl)) (exit refl) in
    let r3 =
      next (next (next r2 (waited refl refl refl)) (close_done refl)) (emit_stopped refl refl) in
    let r4 = next (next r3 (scan ready_line [] refl refl refl)) (act ready _ refl refl) in
    let r5 =
      next (next (next r4 (act configured _ refl refl)) (act running _ refl refl))
        (close_writer refl) in
    let r6 = next (next r5 (end_of_output refl refl refl refl refl)) (quit refl refl) in
    (_, next r6 (joined refl refl refl), refl, refl, refl)

ready_short : is_long ready_line ≡ false
unfolding byte_len
ready_short = refl

run_lem_example :
    (actions hasty.0.log ≡ (scanner links hasty.0.output []).1)
    × (stops hasty.0.log ≡ 1)
    × (hasty.0.alive ≡ false)
    × (hasty.0.scanning ≡ false)
    × (hasty.0.reloading ≡ false)
run_lem_example = run_lem hasty.1 hasty.2

-- The server of the discovery that this life leaves.
left_listening : (attend (codes "10.0.0.1") hasty.0.log unmade).listening ≢ []
left_listening = rw hasty.4 (attend-late (codes "10.0.0.1") (stopped ∷ scanned ready ∷ []) unmade)

-- tincd runs, and has written a line that nobody has read.
abbrev begun : Attempt
begun = record (called true) {
  stage = waiting;
  alive = true;
  reloading = true;
  output = ready_line ∷ [];
  pipe = ready_line ∷ [];
}

begun-Reach : Reach links prompt (called true) begun
begun-Reach = next (next here (start refl)) (write ready_line refl)

run-returns_example :
    (b : Attempt) × Reach links prompt begun b × (b.stage ≡ returned) × (b.output ≡ ready_line ∷ [])
run-returns_example = run-returns begun-Reach (λ log e. refl) only_short
  where
    only_short : (line : Text) → In line (ready_line ∷ []) → is_long line ≡ false
    only_short line (inl e) = subst (λ t. is_long t ≡ false) e ready_short
    only_short line (inr i) = absurd i

letters : ℕ → Text
letters zero = []
letters (suc n) = b'a' ∷ letters n

byte_len-letters : (n : ℕ) → byte_len (letters n) ≡ n
unfolding letters byte_len
byte_len-letters zero = refl
byte_len-letters (suc n) = omega (arith, byte_len-letters n)

letters_long : is_long (letters 65536) ≡ true
letters_long = rw byte_len-letters

-- tincd has written a long line.
abbrev flooded : Attempt
flooded = record (called false) {
  stage = waiting;
  alive = true;
  reloading = true;
  output = letters 65536 ∷ [];
  pipe = letters 65536 ∷ [];
}

flooded-Reach : Reach links prompt (called false) flooded
flooded-Reach = next (next here (start refl)) (write (letters 65536) refl)

long-waiting_example : flooded.stage ≡ waiting
long-waiting_example = long-waiting (letters 65536) flooded-Reach (inl refl) letters_long

-- tincd does not start, and a listener of `Stopped` waits.
abbrev stuck : Calls
stuck = λ log e. elim e [ scanned now ↦ true | stopped ↦ false ]

abbrev unstarted : Attempt
unstarted = record (called false) { stage = stopping }
