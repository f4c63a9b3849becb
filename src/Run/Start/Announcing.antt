-- ===== src/Run/Start/Announcing.antt =====
-- What a start of cmd/tinc-boot/run/main_linux.go announces to the other nodes.
use tinc_boot.Prelude.{◌≡◌, refl, ap, ◌∙◌, sym, subst, List, Option, none, some, arith}
use tinc_boot.Prelude.Int.{ℤ}
use tinc_boot.Text.{Text}
use tinc_boot.Config.Types.{Main, Node}
use tinc_boot.Daemon.Disk.{Disk, read_node_config}
use tinc_boot.Daemon.Hosts.{Result, ok, err, host_names, index_hosts}
use tinc_boot.Discovery.Ssd.{Ssd, new_ssd, replace}
use tinc_boot.Discovery.Ssd.Storage.{Json, ReadError, read, save}
use tinc_boot.Run.Clock.{Tick, ticked, read_clock, write_failed, next_tick}
use tinc_boot.Run.Setup.{create_config}
use tinc_boot.Run.Start.{
  Local, Startup, Start, started, failed, read_generated_config, read_host_names, read_discovery,
  count_tick, Running, restore_all, spawn_daemon, index_and_spawn, announce, configure,
  restore_hosts, read_table, count_and_read,
}

-- A stage of a start at tick `tick` that ends in the running node `s` leaves the clock alone and the
-- table `table` of the node.
abbrev Ends : ℤ → Text → Ssd → Local → Local × Start → Running → Type 0
Ends tick self table l out s =
    (s.ssd ≡ table) × (s.self ≡ self) × (s.tick ≡ tick) × (out.0.clock ≡ l.clock)

module _ (json : Json) (su : Startup) (s : Running) where
  spawn_daemon-Ends :
      (tick : ℤ) (self : Text) (ssd : Ssd) (l : Local)
      → (spawn_daemon json su tick self ssd l).1 ≡ started s
      → Ends tick self ssd l (spawn_daemon json su tick self ssd l) s
  unfolding spawn_daemon
  spawn_daemon-Ends tick self ssd l h = ground arith

  pub index_and_spawn-Ends :
      (tick : ℤ) (self : Text) (ssd : Ssd) (l : Local)
      → (index_and_spawn json su tick self ssd l).1 ≡ started s
      → Ends tick self ssd l (index_and_spawn json su tick self ssd l) s
  unfolding index_and_spawn
  index_and_spawn-Ends tick self ssd l h = ground (
    arith,
    spawn_daemon-Ends tick self ssd (record l { disk = (index_hosts su.index_env l.disk).0 }),
  )

  -- The node's own entry is the last change of the table.
  abbrev pub Announces : ℤ → Ssd → Local → Local × Start → Type 0
  Announces tick ssd l out =
      (s.ssd ≡ replace ssd (record { name = s.self; version = tick }))
      × (s.tick ≡ tick)
      × (out.0.clock ≡ l.clock)

  announce-Announces :
      (tick : ℤ) (ssd : Ssd) (l : Local)
      → (announce json su tick ssd l).1 ≡ started s
      → Announces tick ssd l (announce json su tick ssd l)
  unfolding announce
  announce-Announces tick ssd l h = whole (read_node_config su.env l.disk) h
    where
      whole :
          (o : Option (Main × Node))
          → (elim o as (λ _. Local × Start) [
            | none ↦ (l, failed read_generated_config)
            | some (main, _) ↦
                let table = replace ssd (record { name = main.name; version = tick }) in
                index_and_spawn json su tick main.name table
                  (record l { files = (save json su.faults su.tmp table l.files).0 })
          ]).1
            ≡ started s
          → Announces tick ssd l (elim o as (λ _. Local × Start) [
            | none ↦ (l, failed read_generated_config)
            | some (main, _) ↦
                let table = replace ssd (record { name = main.name; version = tick }) in
                index_and_spawn json su tick main.name table
                  (record l { files = (save json su.faults su.tmp table l.files).0 })
          ])
      whole none k = absurd (ground arith)
      whole (some (main, node)) k =
          let table = replace ssd (record { name = main.name; version = tick }) in
          let (t, n, v, c) =
            index_and_spawn-Ends tick main.name table
              (record l { files = (save json su.faults su.tmp table l.files).0 }) k in
          (t ∙ ap (λ m. replace ssd (record { name = m; version = tick })) (sym n), v, c)

  configure-Announces :
      (tick : ℤ) (ssd : Ssd) (l : Local)
      → (configure json su tick ssd l).1 ≡ started s
      → Announces tick ssd l (configure json su tick ssd l)
  unfolding configure
  configure-Announces tick ssd l h = ground (
    arith,
    announce-Announces tick ssd l,
    announce-Announces tick ssd
        (record l { disk = (create_config su.create_env su.keygen su.machine su.cmd l.disk).0 }),
  )

  restore_hosts-Announces :
      (tick : ℤ) (ssd : Ssd) (l : Local)
      → (restore_hosts json su tick ssd l).1 ≡ started s
      → (names : List Text) × (host_names su.env l.disk ≡ ok names)
        × Announces tick (restore_all ssd names) l (restore_hosts json su tick ssd l)
  unfolding restore_hosts
  restore_hosts-Announces tick ssd l h = whole (host_names su.env l.disk) refl h
    where
      whole :
          (r : Result (List Text))
          → host_names su.env l.disk ≡ r
          → (elim r as (λ _. Local × Start) [
            | err e ↦ (l, failed (read_host_names e))
            | ok names ↦ configure json su tick (restore_all ssd names) l
          ]).1
            ≡ started s
          → (names : List Text) × (host_names su.env l.disk ≡ ok names)
            × Announces tick (restore_all ssd names) l (elim r as (λ _. Local × Start) [
              | err e ↦ (l, failed (read_host_names e))
              | ok names ↦ configure json su tick (restore_all ssd names) l
            ])
      whole (err e) p k = absurd (ground arith)
      whole (ok names) p k = (names, p, configure-Announces tick (restore_all ssd names) l k)

  -- The table that a start reads, the names of the hosts that it finds, and what it makes of them.
  abbrev pub Restored : Disk → ℤ → Ssd → Type 0
  Restored disk tick ssd =
      (names : List Text) × (host_names su.env disk ≡ ok names)
      × (s.ssd ≡ replace (restore_all ssd names) (record { name = s.self; version = tick }))

  read_table-Restored :
      (tick : ℤ) (l : Local)
      → (read_table json su tick l).1 ≡ started s
      → ((read json su.table_denied l.files (new_ssd su.table_file)).1 ≡ none)
        × Restored l.disk tick (read json su.table_denied l.files (new_ssd su.table_file)).0
        × (s.tick ≡ tick)
        × ((read_table json su tick l).0.clock ≡ l.clock)
  unfolding read_table
  read_table-Restored tick l h =
      whole (read json su.table_denied l.files (new_ssd su.table_file)).1 refl h
    where
      table : Ssd
      table = (read json su.table_denied l.files (new_ssd su.table_file)).0

      whole :
          (o : Option ReadError)
          → (read json su.table_denied l.files (new_ssd su.table_file)).1 ≡ o
          → (elim o as (λ _. Local × Start) [
            | some _ ↦ (l, failed read_discovery)
            | none ↦ restore_hosts json su tick table l
          ]).1
            ≡ started s
          → ((read json su.table_denied l.files (new_ssd su.table_file)).1 ≡ none)
            × Restored l.disk tick table
            × (s.tick ≡ tick)
            × ((elim o as (λ _. Local × Start) [
              | some _ ↦ (l, failed read_discovery)
              | none ↦ restore_hosts json su tick table l
            ]).0.clock
                ≡ l.clock)
      whole (some e) p k = absurd (ground arith)
      whole none p k =
          let (names, found, announced) = restore_hosts-Announces tick table l k in
          (p, (names, found, announced.0), announced.1, announced.2)

  pub count_and_read-Restored :
      (l : Local)
      → (count_and_read json su l).1 ≡ started s
      → (next_tick su.clock_denied su.clock_write l.clock
          ≡ ((count_and_read json su l).0.clock, ticked s.tick))
        × ((read json su.table_denied l.files (new_ssd su.table_file)).1 ≡ none)
        × Restored l.disk s.tick (read json su.table_denied l.files (new_ssd su.table_file)).0
  unfolding count_and_read
  count_and_read-Restored l h = whole (next_tick su.clock_denied su.clock_write l.clock) refl h
    where
      whole :
          (t : Option Text × Tick)
          → next_tick su.clock_denied su.clock_write l.clock ≡ t
          → (elim t.1 as (λ _. Local × Start) [
            | ticked tick ↦ read_table json su tick (record l { clock = t.0 })
            | read_clock ↦ (record l { clock = t.0 }, failed count_tick)
            | write_failed ↦ (record l { clock = t.0 }, failed count_tick)
          ]).1
            ≡ started s
          → (t ≡ (
            (elim t.1 as (λ _. Local × Start) [
              | ticked tick ↦ read_table json su tick (record l { clock = t.0 })
              | read_clock ↦ (record l { clock = t.0 }, failed count_tick)
              | write_failed ↦ (record l { clock = t.0 }, failed count_tick)
            ]).0.clock,
            ticked s.tick,
          ))
            × ((read json su.table_denied l.files (new_ssd su.table_file)).1 ≡ none)
            × Restored l.disk s.tick (read json su.table_denied l.files (new_ssd su.table_file)).0
      whole (clock, read_clock) p k = absurd (ground arith)
      whole (clock, write_failed) p k = absurd (ground arith)
      whole (clock, ticked tick) p k =
          let (r, found, v, c) = read_table-Restored tick (record l { clock = clock }) k in
          (
            λ i. (sym c i, ticked (sym v i)),
            r,
            subst
                (λ t.
                  Restored l.disk t (read json su.table_denied l.files (new_ssd su.table_file)).0)
                (sym v) found,
          )
