-- ===== src/Run/Start.antt =====
-- `Execute` of cmd/tinc-boot/run/main_linux.go up to the running daemon, and the callbacks by which
-- joining reaches the discovery table. The servers and clients that it starts are modelled in Boot and
-- Discovery; the firewall rules and the printed lines are not modelled.
pub mod Announcing
pub mod Restarting
use tinc_boot.Prelude.{
  ◌≡◌, Bool, true, false, not, List, [], ◌∷◌, Option, none, some, if◌then◌else◌,
}
use tinc_boot.Prelude.Int.{ℤ, pos}
use tinc_boot.Text.{Text}
use tinc_boot.Config.Types.{Main}
use tinc_boot.Daemon.Disk.{Disk, Env, Outcome, read_node_config}
use tinc_boot.Daemon.Hosts.{HostError, Result, ok, err, host_names, index_hosts, configured}
use tinc_boot.Daemon.Spawning.{SpawnError, Daemon, Spawned, spawn}
use tinc_boot.Daemon.Spawning
use tinc_boot.Discovery.Ssd.{Entity, Ssd, new_ssd, replace, replace_if_newer}
use tinc_boot.Discovery.Ssd.Storage.{Json, Faults, SaveError, ReadError, Files, save, read}
use tinc_boot.Run.Clock.{Tick, ticked, read_clock, write_failed, next_tick}
use tinc_boot.Run.Setup.{Cmd, Machine, Keygen, CreateError, create_config}

-- What a node keeps on disk: the configuration directory, the clock, and the files of the working
-- directory.
pub record Local : Type 0 where
  pub disk : Disk
  pub clock : Option Text
  pub files : Files

-- What one start meets: the flags, the machine, tincd, and the calls that fail.
pub record Startup : Type 0 where
  pub cmd : Cmd
  pub machine : Machine
  pub keygen : Keygen
  pub table_file : Text
  pub mkdir_config : Bool
  pub mkdir_hosts : Bool
  pub mkdir_work : Bool
  pub clock_denied : Bool
  pub clock_write : Outcome
  pub table_denied : Bool
  pub faults : Faults
  pub tmp : Text
  pub env : Env
  pub create_env : Env
  pub index_env : Env

pub data StartError : Type 0 where
  create_configuration_dir create_nodes_dir create_work_dir count_tick read_discovery : StartError
  read_host_names index_failed : HostError → StartError
  create_failed : CreateError → StartError
  read_generated_config : StartError
  spawn_failed : SpawnError → StartError

-- A running node: its table, its daemon, and the name and version under which it announced itself.
pub record Running : Type 0 where
  pub ssd : Ssd
  pub daemon : Daemon
  pub self : Text
  pub tick : ℤ

pub data Start : Type 0 where
  failed : StartError → Start
  started : Running → Start

-- `ssd.ReplaceIfNewer(entity, nil)` at version 0.
unfoldable pub restore : Ssd → Text → Ssd
restore ssd name =
    (replace_if_newer {W = Unit {0}} ssd (record { name = name; version = pos 0 }) none tt).0.0

-- The loop over the names of hosts.
unfoldable pub restore_all : Ssd → List Text → Ssd
restore_all ssd [] = ssd
restore_all ssd (name ∷ names) = restore_all (restore ssd name) names

-- `os.MkdirAll` of the directory of hosts.
unfoldable pub make_hosts : Disk → Disk
make_hosts disk = record disk {
  hosts = elim disk.hosts [ none ↦ some [] | some entries ↦ some entries ];
}

module _ (json : Json) (su : Startup) where
  -- `Execute` from `Spawn` on.
  unfoldable pub spawn_daemon : ℤ → Text → Ssd → Local → Local × Start
  spawn_daemon tick self ssd l = elim (spawn su.env l.disk) [
    | Spawning.err e ↦ (l, failed (spawn_failed e))
    | Spawning.ok d ↦ (l, started (record { ssd = ssd; daemon = d; self = self; tick = tick }))
  ]

  -- `Execute` from `IndexHosts` on.
  unfoldable pub index_and_spawn : ℤ → Text → Ssd → Local → Local × Start
  index_and_spawn tick self ssd l =
      let (disk, failure) = index_hosts su.index_env l.disk in
      elim failure [
        | some e ↦ (record l { disk = disk }, failed (index_failed e))
        | none ↦ spawn_daemon tick self ssd (record l { disk = disk })
      ]

  -- `Execute` from `ReadNodeConfig` on. A failure to save the table is only logged.
  unfoldable pub announce : ℤ → Ssd → Local → Local × Start
  announce tick ssd l = elim (read_node_config su.env l.disk) [
    | none ↦ (l, failed read_generated_config)
    | some (main, _) ↦
        let table = replace ssd (record { name = main.name; version = tick }) in
        let (files, _) = save json su.faults su.tmp table l.files in
        index_and_spawn tick main.name table (record l { files = files })
  ]

  -- `Execute` from the test of the configuration on.
  unfoldable pub configure : ℤ → Ssd → Local → Local × Start
  configure tick ssd l =
      if not (configured su.env l.disk)
      then (let (disk, failure) = create_config su.create_env su.keygen su.machine su.cmd l.disk in
          elim failure [
            | some e ↦ (record l { disk = disk }, failed (create_failed e))
            | none ↦ announce tick ssd (record l { disk = disk })
          ])
      else announce tick ssd l

  -- `Execute` from `HostNames` on.
  unfoldable pub restore_hosts : ℤ → Ssd → Local → Local × Start
  restore_hosts tick ssd l = elim (host_names su.env l.disk) [
    | err e ↦ (l, failed (read_host_names e))
    | ok names ↦ configure tick (restore_all ssd names) l
  ]

  -- `Execute` from the reading of the table on.
  unfoldable pub read_table : ℤ → Local → Local × Start
  read_table tick l =
      let (ssd, failure) = read json su.table_denied l.files (new_ssd su.table_file) in
      elim failure [ some _ ↦ (l, failed read_discovery) | none ↦ restore_hosts tick ssd l ]

  -- `Execute` from `nextTick` on.
  unfoldable pub count_and_read : Local → Local × Start
  count_and_read l =
      let (clock, t) = next_tick su.clock_denied su.clock_write l.clock in
      elim t [
        | ticked tick ↦ read_table tick (record l { clock = clock })
        | read_clock ↦ (record l { clock = clock }, failed count_tick)
        | write_failed ↦ (record l { clock = clock }, failed count_tick)
      ]

  -- `Execute`
  unfoldable pub execute : Local → Local × Start
  execute l =
      if su.mkdir_config
      then (l, failed create_configuration_dir)
      else if su.mkdir_hosts
      then (l, failed create_nodes_dir)
      else let made = record l { disk = make_hosts l.disk } in
        if su.mkdir_work then (made, failed create_work_dir) else count_and_read made

  -- `client.Exchanged` and the save behind it, whose error is logged.
  unfoldable pub on_exchanged : Faults → Text → Text → Ssd → Files → Ssd × Files
  on_exchanged faults tmp name ssd files =
      let table = restore ssd name in (table, (save json faults tmp table files).0)

  -- `greetHandler.Joined`: the flag says whether the daemon is told to reload.
  unfoldable pub on_joined : Faults → Text → Text → Ssd → Files → (Ssd × Files) × Bool
  on_joined faults tmp name ssd files =
      let ((table, _), merged) =
        replace_if_newer {W = Unit {0}} ssd (record { name = name; version = pos 0 }) none tt in
      ((table, (save json faults tmp table files).0), merged)
