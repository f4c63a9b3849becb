-- ===== src/Run/Together/Settling.antt =====
-- What a start of cmd/tinc-boot/run/main_linux.go on an existing configuration does to the hosts.
use tinc_boot.Prelude.{
  ◌≡◌, refl, sym, subst, ap, ◌∙◌, true, some, ◌⊎◌, inl, inr, arith, Option-cases,
}
use tinc_boot.Prelude.Int.{ℤ}
use tinc_boot.Text.{Text}
use tinc_boot.Config.Types.{Main, Node}
use tinc_boot.Daemon.Disk.{Disk, Env, read_node_config, save_main}
use tinc_boot.Daemon.Hosts.{HostError, Result, ok, err, host_names, index_hosts, configured}
use tinc_boot.Discovery.Ssd.{Ssd, new_ssd, replace}
use tinc_boot.Discovery.Ssd.Storage.{Json, read, save}
use tinc_boot.Run.Clock.{ticked, read_clock, write_failed, Tick, next_tick}
use tinc_boot.Run.Start.{
  Local, Startup, Start, started, Running, restore_all, make_hosts, spawn_daemon, index_and_spawn,
  announce, configure, restore_hosts, read_table, count_and_read, execute,
}
use tinc_boot.Run.Start.Announcing.{index_and_spawn-Ends}

index_hosts-hosts : (env : Env) (disk : Disk) → (index_hosts env disk).0.hosts ≡ disk.hosts
unfolding index_hosts save_main
index_hosts-hosts env disk = ground arith

Result-cases :
    {A : Type 0} (r : Result A) → ((e : HostError) × (r ≡ err e)) ⊎ ((a : A) × (r ≡ ok a))
Result-cases (ok a) = inr (a, refl)
Result-cases (err e) = inl (e, refl)

module _ (json : Json) (su : Startup) (s : Running) where
  -- The node's own configuration is read, and hosts/ is left as it is.
  unfoldable pub Settles : Local → Local × Start → Type 0
  Settles l out =
      ((main : Main) × (node : Node) × (read_node_config su.env l.disk ≡ some (main, node))
        × (s.self ≡ main.name))
      × (out.0.disk.hosts ≡ l.disk.hosts)

  index_and_spawn-hosts :
      (tick : ℤ) (self : Text) (ssd : Ssd) (l : Local)
      → (index_and_spawn json su tick self ssd l).0.disk.hosts ≡ l.disk.hosts
  unfolding index_and_spawn spawn_daemon
  index_and_spawn-hosts tick self ssd l = ground (arith, index_hosts-hosts su.index_env l.disk)

  announce-Settles :
      (tick : ℤ) (ssd : Ssd) (l : Local)
      → (announce json su tick ssd l).1 ≡ started s
      → Settles l (announce json su tick ssd l)
  unfolding announce Settles
  announce-Settles tick ssd l h = elim (Option-cases (read_node_config su.env l.disk)) [
    | inl e ↦ absurd (ground (arith, e))
    | inr ((main, node), e) ↦
        let table = replace ssd (record { name = main.name; version = tick }) in
        let l' = record l { files = (save json su.faults su.tmp table l.files).0 } in
        rw (e, announce)
          (
            (
              main,
              node,
              refl,
              (index_and_spawn-Ends json su s tick main.name table l' (rw (e, announce) at h)).1,
            ),
            index_and_spawn-hosts tick main.name table l',
          )
  ]

  configure-Settles :
      (tick : ℤ) (ssd : Ssd) (l : Local)
      → configured su.env l.disk ≡ true
      → (configure json su tick ssd l).1 ≡ started s
      → Settles l (configure json su tick ssd l)
  unfolding configure
  configure-Settles tick ssd l c h =
      rw (c, configure) (announce-Settles tick ssd l (rw (c, configure) at h))

  restore_hosts-Settles :
      (tick : ℤ) (ssd : Ssd) (l : Local)
      → configured su.env l.disk ≡ true
      → (restore_hosts json su tick ssd l).1 ≡ started s
      → Settles l (restore_hosts json su tick ssd l)
  unfolding restore_hosts
  restore_hosts-Settles tick ssd l c h = elim (Result-cases (host_names su.env l.disk)) [
    | inl (e, f) ↦ absurd (ground (arith, f))
    | inr (names, f) ↦
        rw (f, restore_hosts)
          (configure-Settles tick (restore_all ssd names) l c (rw (f, restore_hosts) at h))
  ]

  read_table-Settles :
      (tick : ℤ) (l : Local)
      → configured su.env l.disk ≡ true
      → (read_table json su tick l).1 ≡ started s
      → Settles l (read_table json su tick l)
  unfolding read_table
  read_table-Settles tick l c h =
      elim (Option-cases (read json su.table_denied l.files (new_ssd su.table_file)).1) [
        | inr (e, f) ↦ absurd (ground (arith, f))
        | inl f ↦ rw (f, read_table) (restore_hosts-Settles tick _ l c (rw (f, read_table) at h))
      ]

  Tick-cases :
      (t : Tick) → ((tick : ℤ) × (t ≡ ticked tick)) ⊎ ((t ≡ read_clock) ⊎ (t ≡ write_failed))
  Tick-cases (ticked tick) = inl (tick, refl)
  Tick-cases read_clock = inr (inl refl)
  Tick-cases write_failed = inr (inr refl)

  count_and_read-Settles :
      (l : Local)
      → configured su.env l.disk ≡ true
      → (count_and_read json su l).1 ≡ started s
      → Settles l (count_and_read json su l)
  unfolding count_and_read Settles
  count_and_read-Settles l c h =
      elim (Tick-cases (next_tick su.clock_denied su.clock_write l.clock).1) [
        | inr (inl f) ↦ absurd (ground (arith, f))
        | inr (inr f) ↦ absurd (ground (arith, f))
        | inl (tick, f) ↦
            rw (f, count_and_read)
              (read_table-Settles tick
                (record l { clock = (next_tick su.clock_denied su.clock_write l.clock).0 }) c
                (rw (f, count_and_read) at h))
      ]

  -- A start leaves the directory of hosts as `MkdirAll` made it.
  pub execute-Settles :
      (l : Local)
      → configured su.env (make_hosts l.disk) ≡ true
      → (execute json su l).1 ≡ started s
      → Settles (record l { disk = make_hosts l.disk }) (execute json su l)
  unfolding execute
  execute-Settles l c h =
      let made = record l { disk = make_hosts l.disk } in
      let same : execute json su l ≡ count_and_read json su made = ground arith in
      subst (Settles made) (sym same) (count_and_read-Settles made c (sym (ap (λ p. p.1) same) ∙ h))
