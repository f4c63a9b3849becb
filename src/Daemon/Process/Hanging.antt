-- ===== src/Daemon/Process/Hanging.antt =====
-- The lines of tincd that the scanner of tincd/daemon/node.go has not read, and what a long one does.
use tinc_boot.Prelude.{
  ◌≡◌, refl, sym, subst, Bool, true, false, List, [], ◌∷◌, ◌++◌, ◌⊎◌, inl, inr, In, In-append_left,
  In-append_right, arith,
}
use tinc_boot.Text.{Text}
use tinc_boot.Daemon.Scanner.{Links}
use tinc_boot.Daemon.Process.{
  Stage, waiting, is_closed, is_long, Attempt, called, Calls, Step, start, start_failed, write,
  exit, read, give_up, scan, act, end_of_output, ask_reload, signal, quit, waited, close_done,
  emit_stopped, close_writer, joined, Reach, here, next,
}
use tinc_boot.Daemon.Process.Returned.{Reach-Inv}

abbrev pub HasLong : List Text → Type 0
HasLong lines = (line : Text) × In line lines × (is_long line ≡ true)

pub record Unread (a : Attempt) : Type 0 where
  -- What is unread was written.
  pub written : (line : Text) → In line a.pipe → In line a.output
  -- A long line that was written is unread.
  pub long : (line : Text) → is_long line ≡ true → In line a.output → In line a.pipe
  -- The scanner has ended only at a closed pipe or at a long line.
  pub ended : a.scanning ≡ false → (is_closed a.stage ≡ true) ⊎ HasLong a.pipe

In-snoc :
    (line new : Text) (xs ys : List Text)
    → (In line xs → In line ys)
    → In line (xs ++ new ∷ [])
    → In line (ys ++ new ∷ [])
In-snoc line new [] ys h (inl e) = In-append_right line ys (new ∷ []) (inl e)
In-snoc line new [] ys h (inr i) = absurd i
In-snoc line new (x ∷ xs) ys h (inl e) = In-append_left line ys (new ∷ []) (h (inl e))
In-snoc line new (x ∷ xs) ys h (inr i) = In-snoc line new xs ys (λ j. h (inr j)) i

HasLong-snoc : (new : Text) (xs : List Text) → HasLong xs → HasLong (xs ++ new ∷ [])
HasLong-snoc new xs (line, i, l) = (line, In-append_left line xs (new ∷ []) i, l)

module _ {a : Attempt} (u : Unread a) where
  write-Unread :
      (line : Text)
      → Unread (record a { output = a.output ++ line ∷ []; pipe = a.pipe ++ line ∷ [] })
  write-Unread new = record {
    written = λ line. In-snoc line new a.pipe a.output (u.written line);
    long = λ line l. In-snoc line new a.output a.pipe (u.long line l);
    ended = λ e. elim (u.ended e) [ inl c ↦ inl c | inr h ↦ inr (HasLong-snoc new a.pipe h) ];
  }

  read-Unread :
      (line : Text) (lines : List Text)
      → a.scanning ≡ true
      → a.pipe ≡ line ∷ lines
      → is_long line ≡ false
      → Unread (record a { buffer = a.buffer ++ line ∷ []; pipe = lines })
  read-Unread first lines s e short = record {
    written = λ line i. u.written line (subst (In line) (sym e) (inr i));
    long = λ line l i. elim (subst (In line) e (u.long line l i)) [
      | inl same ↦ absurd (subst (λ t. ¬ (is_long t ≡ false)) (sym same) (λ no_long. cc) short)
      | inr later ↦ later
    ];
    ended = λ q. absurd (cc);
  }

Step-Unread :
    {links : Links} {calls : Calls} {a b : Attempt} → Step links calls a b → Unread a → Unread b
Step-Unread (write line e) u = write-Unread u line
Step-Unread (read line lines s e short) u = read-Unread u line lines s e short
Step-Unread (give_up line lines s t b e long) u = record {
  written = u.written;
  long = u.long;
  ended = λ _. inr (line, subst (In line) (sym e) (inl refl), long);
}
Step-Unread (end_of_output s t b p c) u = record {
  written = u.written;
  long = u.long;
  ended = λ _. inl c;
}
Step-Unread (start e) u = record {
  written = u.written;
  long = u.long;
  ended = λ q. ground (arith, u.ended q);
}
Step-Unread (start_failed e) u = record {
  written = u.written;
  long = u.long;
  ended = λ q. ground (arith, u.ended q);
}
Step-Unread (waited e d p) u = record {
  written = u.written;
  long = u.long;
  ended = λ q. ground (arith, u.ended q);
}
Step-Unread (close_done e) u = record {
  written = u.written;
  long = u.long;
  ended = λ q. ground (arith, u.ended q);
}
Step-Unread (emit_stopped e c) u = record {
  written = u.written;
  long = u.long;
  ended = λ q. ground (arith, u.ended q);
}
Step-Unread (close_writer e) u = record {
  written = u.written;
  long = u.long;
  ended = λ q. ground (arith, u.ended q);
}
Step-Unread (joined e f r) u = record {
  written = u.written;
  long = u.long;
  ended = λ q. ground (arith, u.ended q);
}
Step-Unread (exit e) u = record { written = u.written; long = u.long; ended = u.ended }
Step-Unread (scan line lines s t e) u = record {
  written = u.written;
  long = u.long;
  ended = u.ended;
}
Step-Unread (act now later e c) u = record { written = u.written; long = u.long; ended = u.ended }
Step-Unread (signal r e) u = record { written = u.written; long = u.long; ended = u.ended }
Step-Unread (quit r e) u = record { written = u.written; long = u.long; ended = u.ended }
Step-Unread ask_reload u = record { written = u.written; long = u.long; ended = u.ended }

pub Reach-Unread :
    {links : Links} {calls : Calls} {reload : Bool} {a : Attempt}
    → Reach links calls (called reload) a
    → Unread a
Reach-Unread here = record { written = λ line i. i; long = λ line l i. i; ended = λ e. absurd (cc) }
Reach-Unread (next r st) = Step-Unread st (Reach-Unread r)

-- In every state in which tincd has written a line of 65536 bytes or more, `run` still waits in
-- `cmd.Wait`: it has not returned, nor emitted `Stopped`, whether tincd goes on or was killed.
pub long-waiting :
    {links : Links} {calls : Calls} {reload : Bool} {a : Attempt} (line : Text)
    → Reach links calls (called reload) a
    → In line a.output
    → is_long line ≡ true
    → a.stage ≡ waiting
long-waiting {a = a} line r i l = stays a.stage refl
  where
    stays : (s : Stage) → a.stage ≡ s → a.stage ≡ waiting
    stays waiting e = e
    stays s e =
        absurd
          (subst (In line) ((Reach-Inv r).quiet (rw e refl)).1 ((Reach-Unread r).long line l i))
