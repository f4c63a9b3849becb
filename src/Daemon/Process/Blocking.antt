-- ===== src/Daemon/Process/Blocking.antt =====
-- The return of `run` of tincd/daemon/node.go, and the listeners of `Stopped`.
use tinc_boot.Prelude.{◌≡◌, true, List}
use tinc_boot.Daemon.Process.{Stage, Event, stopped, Calls}
use tinc_boot.Daemon.Process.Flows.{emitted}

-- After the stage of `Stopped`, its listeners have returned.
abbrev Told : Calls → Stage → Type 0
Told calls stage = emitted stage ≡ 1 → (log : List Event) × (calls log stopped ≡ true)
