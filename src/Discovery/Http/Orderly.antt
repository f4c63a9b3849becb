-- ===== src/Discovery/Http/Orderly.antt =====
-- Lives of tincd in which `Stopped` comes last, and what they leave of the discovery's servers.
use tinc_boot.Prelude.{ℕ, suc, ◌≤◌, ◌≡◌, ◌≢◌, refl, ◌∙◌, List, [], ◌∷◌, ◌++◌, arith, ==_iff}
use tinc_boot.Text.{Text}
use tinc_boot.Daemon.Scanner.{
  Action, set_routing, remove_routing, subnet_added, subnet_removed, ready, configured, running,
}
use tinc_boot.Daemon.Process.{Event, scanned, stopped}
use tinc_boot.Discovery.Http.{Http, on_configured, on_stopped, attend, without, is_in_use}

-- The log of a life in which `Stopped` comes last.
abbrev pub orderly : List Action → List Event
orderly [] = stopped ∷ []
orderly (now ∷ later) = scanned now ∷ orderly later

-- How often tincd was configured.
abbrev pub settings : List Action → ℕ
settings [] = 0
settings (configured ∷ later) = suc (settings later)
settings (_ ∷ later) = settings later

-- No server listens.
abbrev pub IsIdle : Http → Type 0
IsIdle http = http.listening ≡ []

settled :
    (ip : Text) (actions : List Action) (http : Http)
    → settings actions ≡ 0
    → (attend ip (orderly actions) http).listening ≡ (on_stopped http).listening
unfolding attend
settled ip [] http h = refl
settled ip (set_routing _ ∷ later) http h = settled ip later http h
settled ip (remove_routing _ ∷ later) http h = settled ip later http h
settled ip (subnet_added _ ∷ later) http h = settled ip later http h
settled ip (subnet_removed _ ∷ later) http h = settled ip later http h
settled ip (ready ∷ later) http h = settled ip later http h
settled ip (configured ∷ later) http h = absurd (omega arith)
settled ip (running ∷ later) http h = settled ip later http h

stopped-IsIdle : (http : Http) → IsIdle http → IsIdle (on_stopped http)
unfolding on_stopped without
stopped-IsIdle http h = ground arith

configured-stopped :
    (ip : Text) (http : Http) → IsIdle http → IsIdle (on_stopped (on_configured ip http))
unfolding on_stopped on_configured without is_in_use
configured-stopped ip http h = rw h (rw ((==_iff http.made http.made).1 refl))

-- A life of tincd that is configured once at most, and whose `Stopped` comes last, leaves no server
-- that listens where none did before.
pub attend-IsIdle :
    (ip : Text) (actions : List Action) (http : Http)
    → settings actions ≤ 1
    → IsIdle http
    → IsIdle (attend ip (orderly actions) http)
unfolding attend
attend-IsIdle ip [] http h i = stopped-IsIdle http i
attend-IsIdle ip (set_routing _ ∷ later) http h i = attend-IsIdle ip later http h i
attend-IsIdle ip (remove_routing _ ∷ later) http h i = attend-IsIdle ip later http h i
attend-IsIdle ip (subnet_added _ ∷ later) http h i = attend-IsIdle ip later http h i
attend-IsIdle ip (subnet_removed _ ∷ later) http h i = attend-IsIdle ip later http h i
attend-IsIdle ip (ready ∷ later) http h i = attend-IsIdle ip later http h i
attend-IsIdle ip (configured ∷ later) http h i =
    settled ip later (on_configured ip http) (omega arith) ∙ configured-stopped ip http i
attend-IsIdle ip (running ∷ later) http h i = attend-IsIdle ip later http h i

attend-append :
    (ip : Text) (xs ys : List Event) (http : Http)
    → attend ip (xs ++ ys) http ≡ attend ip ys (attend ip xs http)
unfolding attend
attend-append ip [] ys http = refl
attend-append ip (scanned (set_routing _) ∷ xs) ys http = attend-append ip xs ys http
attend-append ip (scanned (remove_routing _) ∷ xs) ys http = attend-append ip xs ys http
attend-append ip (scanned (subnet_added _) ∷ xs) ys http = attend-append ip xs ys http
attend-append ip (scanned (subnet_removed _) ∷ xs) ys http = attend-append ip xs ys http
attend-append ip (scanned ready ∷ xs) ys http = attend-append ip xs ys http
attend-append ip (scanned configured ∷ xs) ys http = attend-append ip xs ys (on_configured ip http)
attend-append ip (scanned running ∷ xs) ys http = attend-append ip xs ys http
attend-append ip (stopped ∷ xs) ys http = attend-append ip xs ys (on_stopped http)

configured-listens : (ip : Text) (http : Http) → (on_configured ip http).listening ≢ []
unfolding on_configured is_in_use
configured-listens ip http e = listens http.listening refl e
  where
    listens :
        (l : List (ℕ × Text)) → http.listening ≡ l → (on_configured ip http).listening ≡ [] → ⊥
    listens [] h k = ground arith
    listens (x ∷ l) h k = ground arith

-- Where `Configured` is the last that the discovery hears of a life of tincd, a server is left that
-- listens.
pub attend-late :
    (ip : Text) (log : List Event) (http : Http)
    → (attend ip (log ++ scanned configured ∷ scanned running ∷ []) http).listening ≢ []
unfolding attend
attend-late ip log http =
    rw (attend-append ip log (scanned configured ∷ scanned running ∷ []) http)
      (configured-listens ip (attend ip log http))
