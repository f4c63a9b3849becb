-- ===== src/Bootstrap/Gen/Execute/Writing.antt =====
-- The files that `Execute` of cmd/tinc-boot/gen/main.go writes where no call fails.
use tinc_boot.Prelude.{◌≡◌, ◌≢◌, refl, true, false, List, [], ◌∷◌, none, some}
use tinc_boot.Text.{Text, codes}
use tinc_boot.Dict.{Dict, insert}
use tinc_boot.Daemon.Disk.{Item, file, Disk, calm, whole, write_file}
use tinc_boot.Daemon.Hosts.Add.{IsOpenAt, write_host-whole}
use tinc_boot.Run.Start.{make_hosts}
use tinc_boot.Bootstrap.Cipher.{Cipher}
use tinc_boot.Bootstrap.Gen.{Cmd, Machine, Folder}
use tinc_boot.Bootstrap.Gen.Files.{tinc_conf, host_file}
use tinc_boot.Bootstrap.Gen.Requests.{boot}
use tinc_boot.Bootstrap.Gen.Execute.{
  Settled, script, write_scripts, script_files, write_tinc_conf, write_own_host, finish,
  write_files, build,
}

-- No call of the machine fails.
pub record IsWorking (machine : Machine) : Type 0 where
  pub copies : machine.copy_fails ≡ false
  pub makes : (name : Text) → machine.mkdir_fails name ≡ false
  pub writes : (name : Text) → machine.script_write name ≡ whole
  pub marks : (name : Text) → machine.chmod_fails name ≡ false

-- The directory that is there after the files are written.
abbrev pub written_disk : Cmd → Settled → Dict Item → Disk
written_disk cmd s entries = record {
  conf = some (tinc_conf s.name s.network s.port cmd.connect_to);
  hosts = some (insert s.name (file (host_file s.address cmd.public s.port)) entries);
}

module _ (machine : Machine) (cipher : Cipher) (cmd : Cmd) (works : IsWorking machine) where
  script-done :
      (name content : Text) (scripts : Dict Text)
      → (script machine calm cipher cmd name content scripts).1 ≡ true
  unfolding script write_file
  script-done name content scripts =
      rw (works.makes name) (rw (works.writes name) (rw (works.marks name)))

  write_scripts-done :
      (files : List (Text × Text)) (scripts : Dict Text)
      → (write_scripts machine calm cipher cmd files scripts).1 ≡ true
  unfolding write_scripts
  write_scripts-done [] scripts = refl
  write_scripts-done ((name, content) ∷ more) scripts =
      rw (script-done name content scripts)
        (write_scripts-done more (script machine calm cipher cmd name content scripts).0)

  write_tinc_conf-whole :
      (s : Settled) (disk : Disk)
      → write_tinc_conf machine calm cipher cmd s disk
        ≡ (record disk { conf = some (tinc_conf s.name s.network s.port cmd.connect_to) }, true)
  unfolding write_tinc_conf write_file
  write_tinc_conf-whole s disk = rw (works.makes (codes "tinc.conf"))

  write_own_host-whole :
      (s : Settled) (disk : Disk)
      → s.name ≢ []
      → (o : IsOpenAt s.name (make_hosts disk))
      → write_own_host machine calm cipher cmd s disk ≡ (
        record disk {
          hosts = some (insert s.name (file (host_file s.address cmd.public s.port)) o.entries);
        },
        true,
      )
  unfolding write_own_host make_hosts
  write_own_host-whole s disk ne o = rw (works.makes (codes "hosts")) (
      write_host-whole calm s.name (host_file s.address cmd.public s.port) (make_hosts disk) refl ne
        o)

  finish-whole :
      (s : Settled) (folder : Folder)
      → cmd.standalone ≡ true
      → cmd.no_gen_key ≡ true
      → finish machine calm cipher cmd s folder ≡ (folder, none)
  unfolding finish boot
  finish-whole s folder alone keyless = rw keyless (rw alone)

  write_files-whole :
      (s : Settled) (folder : Folder)
      → cmd.standalone ≡ true
      → cmd.no_gen_key ≡ true
      → s.name ≢ []
      → (o : IsOpenAt s.name (make_hosts folder.disk))
      → write_files machine calm cipher cmd s folder
        ≡ (record folder { disk = written_disk cmd s o.entries }, none)
  unfolding write_files make_hosts
  write_files-whole s folder alone keyless ne o = rw (write_tinc_conf-whole s folder.disk) (
      rw
        (write_own_host-whole s
          (record (folder.disk) { conf = some (tinc_conf s.name s.network s.port cmd.connect_to) })
          ne (record { entries = o.entries; is_there = o.is_there; no_directory = o.no_directory }))
        (finish-whole s (record folder { disk = written_disk cmd s o.entries }) alone keyless))

  pub build-whole :
      (s : Settled) (folder : Folder)
      → cmd.standalone ≡ true
      → cmd.no_gen_key ≡ true
      → s.name ≢ []
      → (o : IsOpenAt s.name (make_hosts folder.disk))
      → build machine calm cipher cmd s folder ≡ (
        record {
          disk = written_disk cmd s o.entries;
          scripts =
              (write_scripts machine calm cipher cmd
                (script_files machine calm cipher cmd s)
                folder.scripts).0;
        },
        none,
      )
  unfolding build
  build-whole s folder alone keyless ne o = rw works.copies (
      rw (works.makes []) (
        rw (write_scripts-done (script_files machine calm cipher cmd s) folder.scripts) (
          write_files-whole s
            (record folder {
              scripts =
                  (write_scripts machine calm cipher cmd (script_files machine calm cipher cmd s)
                    folder.scripts).0;
            })
            alone keyless ne o)))
