-- ===== src/Discovery/Http.antt =====
-- `Configured` and `Stopped` of tincd/discovery/discovery.go: the server of the discovery, which is
-- made anew by each `Configured`.
pub mod Orderly
use tinc_boot.Prelude.{
  ℕ, suc, ◌==◌, ◌||◌, Bool, true, false, List, [], ◌∷◌, ◌++◌, Option, none, some, if◌then◌else◌,
}
use tinc_boot.Text.{Text, codes, equal}
use tinc_boot.Daemon.Scanner.{Action, configured}
use tinc_boot.Daemon.Process.{Event, scanned, stopped}

-- `httpServer`, by the number of its making, and the servers that listen, with their addresses.
pub record Http : Type 0 where
  pub made : ℕ
  pub server : Option ℕ
  pub listening : List (ℕ × Text)

abbrev pub unmade : Http
unmade = record { made = 0; server = none; listening = [] }

-- An address at which a server listens is in use.
unfoldable pub is_in_use : Text → List (ℕ × Text) → Bool
is_in_use address [] = false
is_in_use address ((_, other) ∷ rest) = equal address other || is_in_use address rest

-- `Close` of a server.
unfoldable pub without : ℕ → List (ℕ × Text) → List (ℕ × Text)
without n [] = []
without n ((m, address) ∷ rest) =
    let others = without n rest in if m == n then others else (m, address) ∷ others

-- The `Addr` of a server, with `Port`.
unfoldable pub server_address : Text → Text
server_address ip = ip ++ codes ":18655"

-- `Configured`; `ListenAndServe` fails where the address is in use.
unfoldable pub on_configured : Text → Http → Http
unfolding server_address is_in_use
on_configured ip http = record {
  made = suc http.made;
  server = some http.made;
  listening =
      if is_in_use (server_address ip) http.listening
      then http.listening
      else (http.made, server_address ip) ∷ http.listening;
}

-- `Stopped`
unfoldable pub on_stopped : Http → Http
unfolding without
on_stopped http = elim http.server [
  | none ↦ http
  | some n ↦ record http { listening = without n http.listening }
]

-- What the discovery makes of the events of one life of tincd, with the daemon's address.
unfoldable pub attend : Text → List Event → Http → Http
attend ip [] http = http
attend ip (scanned configured ∷ log) http = attend ip log (on_configured ip http)
attend ip (scanned _ ∷ log) http = attend ip log http
attend ip (stopped ∷ log) http = attend ip log (on_stopped http)
