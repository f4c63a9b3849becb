-- ===== src/Daemon/Spawning.antt =====
-- `Default`, `args`, `Spawn` and `runLoop` of tincd/daemon/node.go. What tincd itself does is
-- a parameter: each attempt of `run` returns an error or not, and the context is cancelled or not
-- while the loop waits.
use tinc_boot.Prelude.{
  ℕ, ◌≡◌, refl, Bool, true, false, List, [], ◌∷◌, ◌++◌, none, some, if◌then◌else◌, Option-cases,
  inl, inr,
}
use tinc_boot.Text.{Text, codes, equal}
use tinc_boot.Config.Types.{Main, Node}
use tinc_boot.Daemon.Disk.{Disk, Env, read_node_config}
use tinc_boot.Daemon.Hosts.{self_address, configured}

-- `Config`, without its lock and its listeners; the interval is in seconds.
pub record Config : Type 0 where
  pub binary : Text
  pub args : List Text
  pub pid_file : Text
  pub config_dir : Text
  pub restart_interval : ℕ

-- `Default`, for a directory that `filepath.Join` leaves as it is.
unfoldable pub default_config : Text → Config
default_config config_dir = record {
  binary = codes "tincd";
  args = [];
  pid_file = config_dir ++ codes "/pid.run";
  config_dir = config_dir;
  restart_interval = 5;
}

-- `args`
unfoldable pub daemon_args : Config → List Text → List Text
daemon_args config extra =
    (codes "-D"
      ∷ codes "-d"
      ∷ codes "-d"
      ∷ codes "-d"
      ∷ codes "-d"
      ∷ codes "--pidfile"
      ∷ config.pid_file
      ∷ codes "-c"
      ∷ config.config_dir
      ∷ [])
    ++ extra
    ++ config.args

pub data Status : Type 0 where
  initializing pending running restarting stopped : Status

pub data SpawnError : Type 0 where
  read_daemon_config no_device no_subnet : SpawnError

-- `Daemon`, without its channels.
pub record Daemon : Type 0 where
  pub name : Text
  pub main : Main
  pub self : Node
  pub status : Status
  pub ip : Text
  pub device_name : Text

pub data Spawned : Type 0 where
  ok : Daemon → Spawned
  err : SpawnError → Spawned

-- `Spawn`, up to the copy of the listeners and the start of the loop.
unfoldable pub spawn : Env → Disk → Spawned
spawn env disk = elim (read_node_config env disk) [
  | none ↦ err read_daemon_config
  | some (main, node) ↦
      if equal main.interface []
      then err no_device
      else if equal (self_address node) []
      then err no_subnet
      else ok (record {
        name = main.name;
        main = main;
        self = node;
        status = initializing;
        ip = self_address node;
        device_name = main.interface;
      })
]

abbrev pub is_spawned : Spawned → Bool
is_spawned (ok _) = true
is_spawned (err _) = false

-- `Configured` tells exactly whether `Spawn` would succeed on the same directory.
pub configured-spawn : (env : Env) (disk : Disk) → configured env disk ≡ is_spawned (spawn env disk)
unfolding configured spawn
configured-spawn env disk = elim (Option-cases (read_node_config env disk)) [
  | inl e ↦ rw (e, configured, spawn)
  | inr ((main, node), e) ↦
      rw (e, configured, spawn) (same (equal main.interface []) (equal (self_address node) []) _)
]
  where
    same :
        (a b : Bool) (d : Daemon)
        → (if a then false else if b then false else true)
          ≡ is_spawned (if a then err no_device else if b then err no_subnet else ok d)
    same true b d = refl
    same false true d = refl
    same false false d = refl

-- The statuses that `runLoop` sets, for attempts of which each says whether the context is cancelled
-- by the time it ends; the loop waits for another attempt where it is not.
unfoldable pub run_loop : List Bool → List Status
run_loop [] = []
run_loop (cancelled ∷ attempts) =
    let more = run_loop attempts in
    pending ∷ restarting ∷ (if cancelled then stopped ∷ [] else more)
