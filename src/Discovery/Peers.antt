-- ===== src/Discovery/Peers.antt =====
-- Two nodes of tincd/discovery: the requester of client.go at the handlers of server.go.
pub mod Tables
pub mod Agree
use tinc_boot.Prelude.{◌<◌, ◌≡◌, List, some, length, All, In, ◌≤◌}
use tinc_boot.Prelude.Int.{negsuc, ◌<ℤ◌}
use tinc_boot.Text.{Text, codes}
use tinc_boot.Numbers.{Fits64}
use tinc_boot.Daemon.Disk.{Disk, calm}
use tinc_boot.Daemon.Hosts.{ok, host}
use tinc_boot.Discovery.Ssd.{Entity, Ssd, header}
use tinc_boot.Discovery.Ssd.Keyed.{IsKeyed}
use tinc_boot.Discovery.Ssd.Storage.{Json, Files}
use tinc_boot.Discovery.Client.{Network, Visit, hosts_url, host_url, run_rounds}
use tinc_boot.Discovery.Client.CatchUp.{IsKept, IsFitEntity}
use tinc_boot.Discovery.Server.{get_one, get_headers}

-- What a node knows: the table, and the configuration directory.
pub record Peer : Type 0 where
  pub ssd : Ssd
  pub disk : Disk

-- An entity that a node can pass on: its name fits a file and a line of tinc.conf, its version is one
-- that `?after=-1` asks for, and its host's file is there.
pub record IsServable (disk : Disk) (e : Entity) : Type 0 where
  pub fit : IsFitEntity e
  pub asked : negsuc 0 <ℤ e.version
  pub fits : Fits64 e.version
  pub content : Text
  pub readable : host calm e.name disk ≡ ok content

-- A node that can pass on its whole table.
pub record IsOpen (p : Peer) : Type 0 where
  pub keyed : IsKeyed p.ssd
  pub servable : (e : Entity) → In e (header p.ssd) → IsServable p.disk e
  pub kept : IsKept p.disk

-- The network leads from the address to the handlers of the node.
pub record Serves (json : Json) (p : Peer) (address : Text) (get : Network) : Type 0 where
  pub headers : get (hosts_url address) ≡ some (get_headers json p.ssd)
  pub one :
      (e : Entity)
      → In e (header p.ssd)
      → get (host_url address e.name) ≡ some (get_one calm p.ssd p.disk e.name (codes "-1"))

-- The visits of a requester at one peer, one for each entity of its table at least, on which no call on
-- the configuration fails.
pub record Attends (p : Peer) (get : Network) (visits : List Visit) : Type 0 where
  pub steady : All (λ v. (v.system ≡ calm) × (v.get ≡ get)) visits
  pub enough : length (header p.ssd) ≤ length visits

-- What a node knows after its rounds.
unfoldable pub learn : Json → Text → List Visit → Files → Peer → Peer
learn json address visits files p =
    let (ssd, disk, _) = run_rounds json address visits p.ssd p.disk files in
    record { ssd = ssd; disk = disk }
