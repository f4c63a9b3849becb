-- ===== src/Bootstrap/Gen/Execute.antt =====
-- `Execute` of cmd/tinc-boot/gen/main.go.
pub mod Prefixes
pub mod Addresses
pub mod Writing
pub mod Standalone
use tinc_boot.Prelude.{
  ℕ, Bool, true, false, not, ◌&&◌, ◌||◌, List, [], ◌∷◌, ◌++◌, Option, none, some, if◌then◌else◌,
}
use tinc_boot.Prelude.Int.{ℤ}
use tinc_boot.Text.{Text, codes, equal}
use tinc_boot.Names.{clean_string}
use tinc_boot.Dict.{Dict, lookup, insert}
use tinc_boot.Daemon.Disk.{Disk, Env, write_host, write_file}
use tinc_boot.Run.Start.{make_hosts}
use tinc_boot.Bootstrap.Cipher.{Cipher}
use tinc_boot.Bootstrap.Gen.{Cmd, Machine, Folder}
use tinc_boot.Bootstrap.Gen.Files.{
  generate_ip, show_ip, tinc_up, tinc_down, subnet_up, subnet_down, tinc_conf, host_file,
}
use tinc_boot.Bootstrap.Gen.Requests.{boot}

pub data Failure : Type 0 where
  arguments hostname binary_path bad_prefix no_port copy_binary make_folder write_script write_conf
        write_host_file key_gen boot_nodes :
      Failure

-- What the first part of `Execute` settles.
pub record Settled : Type 0 where
  pub name : Text
  pub network : Text
  pub binary : Text
  pub address : Text
  pub port : ℕ

module _ (machine : Machine) (env : Env) (cipher : Cipher) (cmd : Cmd) where
  -- The name of the node before it is cleaned.
  unfoldable pub given_name : Option Text
  given_name = if equal cmd.name [] then machine.hostname else some cmd.name

  -- The guard of `Execute`.
  unfoldable pub missing_arguments : Bool
  missing_arguments =
      not cmd.standalone
      && (equal cmd.token [] || (elim cmd.urls as (λ _. Bool) [ [] ↦ true | _ ∷ _ ↦ false ]))

  -- `Execute` from the address on, up to the printed lines.
  unfoldable pub settle_address : Text → Text → Option Settled × Option Failure
  settle_address name binary = elim (generate_ip machine.draws cmd.prefix) [
    | none ↦ (none, some bad_prefix)
    | some ip ↦ elim (machine.listen cmd.port) [
      | none ↦ (none, some no_port)
      | some port ↦ (
        some (record {
          name = clean_string name;
          network = clean_string cmd.network;
          binary = binary;
          address = show_ip ip;
          port = port;
        }),
        none,
      )
    ]
  ]

  -- `Execute` up to the printed lines.
  unfoldable pub settle : Option Settled × Option Failure
  unfolding given_name missing_arguments settle_address
  settle = if missing_arguments then (none, some arguments) else elim given_name [
    | none ↦ (none, some hostname)
    | some name ↦ elim machine.binary [
      | none ↦ (none, some binary_path)
      | some binary ↦ settle_address name binary
    ]
  ]

  -- `script`: what it leaves of the scripts, and whether there is no error.
  unfoldable pub script : Text → Text → Dict Text → Dict Text × Bool
  script name content scripts =
      if machine.mkdir_fails name
      then (scripts, false)
      else let (written, done) =
          write_file (machine.script_write name) content (lookup name scripts) in
        let scripts' : Dict Text = elim written [
          | none ↦ scripts
          | some text ↦ insert name text scripts
        ] in
        (scripts', done && not (machine.chmod_fails name))

  -- The four scripts, one after the other.
  unfoldable pub write_scripts : List (Text × Text) → Dict Text → Dict Text × Bool
  unfolding script
  write_scripts [] scripts = (scripts, true)
  write_scripts ((name, content) ∷ more) scripts =
      let (scripts', done) = script name content scripts in
      let rest = write_scripts more scripts' in if done then rest else (scripts', false)

  unfoldable pub script_files : Settled → List (Text × Text)
  script_files s =
      (codes "tinc-up", tinc_up s.address cmd.mask s.binary)
      ∷ (codes "tinc-down", tinc_down s.address cmd.mask s.binary)
      ∷ (codes "subnet-up", subnet_up s.binary)
      ∷ (codes "subnet-down", subnet_down s.binary)
      ∷ []

  -- `cmd.file("tinc.conf")`
  unfoldable pub write_tinc_conf : Settled → Disk → Disk × Bool
  write_tinc_conf s disk =
      if machine.mkdir_fails (codes "tinc.conf")
      then (disk, false)
      else let (conf, done) =
          write_file env.write_conf (tinc_conf s.name s.network s.port cmd.connect_to) disk.conf in
        (record disk { conf = conf }, done)

  -- `cmd.file(filepath.Join("hosts", cmd.Name))`
  unfoldable pub write_own_host : Settled → Disk → Disk × Bool
  write_own_host s disk =
      if machine.mkdir_fails (codes "hosts")
      then (disk, false)
      else write_host env s.name (host_file s.address cmd.public s.port) (make_hosts disk)

  -- `Execute` from the keys on.
  unfoldable pub finish : Settled → Folder → Folder × Option Failure
  finish s folder =
      let (disk, made) =
        if cmd.no_gen_key then (folder.disk, true) else machine.keygen folder.disk in
      if not made
      then (record folder { disk = disk }, some key_gen)
      else let (disk', done) =
          boot cipher env machine.post cmd.token s.name cmd.standalone cmd.urls machine.draws
            disk in
        (record folder { disk = disk' }, if done then none else some boot_nodes)

  -- `Execute` from the file of tinc.conf on.
  unfoldable pub write_files : Settled → Folder → Folder × Option Failure
  unfolding write_tinc_conf write_own_host finish
  write_files s folder =
      let (disk, done) = write_tinc_conf s folder.disk in
      if not done
      then (record folder { disk = disk }, some write_conf)
      else let (disk', done') = write_own_host s disk in
        if not done'
        then (record folder { disk = disk' }, some write_host_file)
        else finish s (record folder { disk = disk' })

  -- `Execute` from the binary on.
  unfoldable pub build : Settled → Folder → Folder × Option Failure
  unfolding write_scripts script_files write_files
  build s folder =
      if machine.copy_fails
      then (folder, some copy_binary)
      else if machine.mkdir_fails []
      then (folder, some make_folder)
      else let (scripts, done) = write_scripts (script_files s) folder.scripts in
        if not done
        then (record folder { scripts = scripts }, some write_script)
        else write_files s (record folder { scripts = scripts })

  -- What follows from the first part.
  unfoldable pub proceed : Option Settled × Option Failure → Folder → Folder × Option Failure
  unfolding build
  proceed (none, failure) folder = (folder, failure)
  proceed (some s, failure) folder = build s folder

  -- `Execute`
  unfoldable pub execute : Folder → Folder × Option Failure
  unfolding settle proceed
  execute folder = proceed settle folder
