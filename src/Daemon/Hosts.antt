-- ===== src/Daemon/Hosts.antt =====
-- The methods of `Config` in tincd/daemon/node.go that read and change the configuration
-- directory. Each holds `configLock` for its whole body, but `IndexHosts`, which is not called
-- while another method runs.
pub mod Stored
pub mod Add
pub mod Filed
pub mod Listing
use tinc_boot.Prelude.{
  ℕ, ◌≡◌, Bool, true, false, not, ◌&&◌, ◌||◌, List, [], ◌∷◌, ◌++◌, Option, none, some,
  if◌then◌else◌,
}
use tinc_boot.Text.{Text, equal}
use tinc_boot.Text.Strings.{trim_space, before}
use tinc_boot.Dict.{Dict, lookup}
use tinc_boot.Names.{clean_string}
use tinc_boot.Config.Types.{Main, Node}
use tinc_boot.Daemon.Disk.{
  Item, file, directory, Disk, Env, content_at, read_main, read_node_config, save_main, write_host,
}

pub data HostError : Type 0 where
  malformed_name save_host read_main_config save_main_config read_hosts_dir read_host_file :
      HostError

pub data Result {ℓ} (A : Type ℓ) : Type ℓ where
  ok : A → Result A
  err : HostError → Result A

-- `types.CleanString(name) == name`
unfoldable pub is_clean : Text → Bool
is_clean name = equal (clean_string name) name

-- The loop of `HostNames`: directories and other names are left out.
names_of : Dict Item → List Text
names_of [] = []
names_of ((name, directory) ∷ rest) = names_of rest
names_of ((name, file _) ∷ rest) =
    let more = names_of rest in if not (is_clean name) then more else name ∷ more

-- `HostNames`
unfoldable pub host_names : Env → Disk → Result (List Text)
unfolding names_of is_clean
host_names env disk =
    if env.read_dir
    then err read_hosts_dir
    else elim disk.hosts [ none ↦ err read_hosts_dir | some entries ↦ ok (names_of entries) ]

cons_host : Text → Text → Result (List (Text × Text)) → Result (List (Text × Text))
cons_host name content (ok more) = ok ((name, content) ∷ more)
cons_host name content (err e) = err e

-- The loop of `Hosts`.
contents_of : Env → Dict Item → Result (List (Text × Text))
contents_of env [] = ok []
contents_of env ((name, directory) ∷ rest) = contents_of env rest
contents_of env ((name, file content) ∷ rest) =
    let more = contents_of env rest in
    if not (is_clean name)
    then more
    else if env.read_host name
    then err read_host_file
    else cons_host name content more

-- `Hosts`
unfoldable pub hosts : Env → Disk → Result (List (Text × Text))
unfolding contents_of cons_host is_clean
hosts env disk =
    if env.read_dir
    then err read_hosts_dir
    else elim disk.hosts [ none ↦ err read_hosts_dir | some entries ↦ contents_of env entries ]

-- `Host`
unfoldable pub host : Env → Text → Disk → Result Text
host env name disk =
    if not (is_clean name)
    then err malformed_name
    else elim (content_at env name disk) [ none ↦ err read_host_file | some content ↦ ok content ]

-- The loop over `main.ConnectTo`.
unfoldable pub is_listed : Text → List Text → Bool
is_listed name [] = false
is_listed name (connect_to ∷ rest) = equal name connect_to || is_listed name rest

-- The end of `AddHost`: the directive is added unless it is there.
unfoldable pub connect : Env → Text → Main → Disk → Disk × Option HostError
unfolding is_listed save_main
connect env name main disk =
    if is_listed name main.connect_to
    then (disk, none)
    else let (disk', saved) =
        save_main env (record main { connect_to = main.connect_to ++ name ∷ [] }) disk in
      (disk', if saved then none else some save_main_config)

-- `AddHost` from the reading of tinc.conf on.
unfoldable pub link_host : Env → Text → Disk → Disk × Option HostError
link_host env name disk = elim (read_main env disk) [
  | none ↦ (disk, some read_main_config)
  | some main ↦ connect env name main disk
]

-- `AddHost`; the result is its error, if any.
unfoldable pub add_host : Env → Text → Text → Disk → Disk × Option HostError
add_host env name content disk =
    if not (is_clean name)
    then (disk, some malformed_name)
    else let (disk', written) = write_host env name content disk in
      if not written then (disk', some save_host) else link_host env name disk'

-- `IndexHosts`
unfoldable pub index_hosts : Env → Disk → Disk × Option HostError
index_hosts env disk = elim (host_names env disk) [
  | err e ↦ (disk, some e)
  | ok names ↦ elim (read_main env disk) [
    | none ↦ (disk, some read_main_config)
    | some main ↦
        let (disk', saved) = save_main env (record main { connect_to = names }) disk in
        (disk', if saved then none else some save_main_config)
  ]
]

-- The test of `Configured`, also that of `Spawn`: the address of the node's own subnet.
unfoldable pub self_address : Node → Text
unfolding trim_space before
self_address node = trim_space (before b'/' node.subnet)

-- `Configured`
unfoldable pub configured : Env → Disk → Bool
unfolding read_node_config self_address equal
configured env disk = elim (read_node_config env disk) [
  | none ↦ false
  | some (main, node) ↦
      if equal main.interface []
      then false
      else if equal (self_address node) []
      then false
      else true
]
