-- ===== src/Run/Together.antt =====
-- What runs together in a node that cmd/tinc-boot/run/main_linux.go has started: the requesters of the
-- discovery, the clients that join other nodes, and the service by which others join. They share the
-- table and the configuration, whose methods hold their locks.
pub mod Backed
pub mod Settling
pub mod Started
use tinc_boot.Prelude.{◌≡◌, List, [], ◌∷◌, none, some, In}
use tinc_boot.Text.{Text}
use tinc_boot.Daemon.Disk.{Disk, Env}
use tinc_boot.Daemon.Hosts.{HostError, add_host}
use tinc_boot.Discovery.Ssd.{Entity, Ssd, replace_if_newer}
use tinc_boot.Discovery.Ssd.Storage.{Json, Faults, Files}
use tinc_boot.Discovery.Client.{save_host}
use tinc_boot.Run.Start.{Startup, on_exchanged, on_joined}

-- The table, the configuration, and the names that were added and for which `Exchanged` or `Joined` is
-- due, or was called before.
pub record Shared : Type 0 where
  pub ssd : Ssd
  pub disk : Disk
  pub due : List Text

-- Any call of the operating system may fail at any step, and a peer may send anything.
pub data Step (s : Shared) : Shared → Type 0 where
  -- A requester merges what a peer answered, under the block that adds the host.
  merge :
      (system : Env) (info : Entity) (content : Text)
      → Step s (record s {
        ssd = (replace_if_newer s.ssd info (some (save_host system info.name content)) s.disk).0.0;
        disk = (replace_if_newer s.ssd info (some (save_host system info.name content)) s.disk).0.1;
      })
  -- A host of an archive, or one that joins, is added.
  add :
      (system : Env) (name content : Text)
      → (add_host system name content s.disk).1 ≡ none
      → Step s (record s { disk = (add_host system name content s.disk).0; due = name ∷ s.due })
  add_fails :
      (system : Env) (name content : Text) {e : HostError}
      → (add_host system name content s.disk).1 ≡ some e
      → Step s (record s { disk = (add_host system name content s.disk).0 })
  -- `Exchanged` or `Joined` is called for it.
  exchanged :
      (json : Json) (su : Startup) (faults : Faults) (tmp name : Text) (files : Files)
      → In name s.due
      → Step s (record s { ssd = (on_exchanged json su faults tmp name s.ssd files).0 })
  joined :
      (json : Json) (su : Startup) (faults : Faults) (tmp name : Text) (files : Files)
      → In name s.due
      → Step s (record s { ssd = (on_joined json su faults tmp name s.ssd files).0.0 })

pub data Reach (s : Shared) : Shared → Type 0 where
  here : Reach s s
  next : {t u : Shared} → Reach s t → Step t u → Reach s u
