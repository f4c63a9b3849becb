-- ===== src/Run/Setup.antt =====
-- The names, addresses and files that cmd/tinc-boot/run/main_linux.go makes for a fresh node. Random
-- numbers, the host's name and addresses, `net.SplitHostPort` and tincd are parameters. A name is taken
-- to have no slash, which would make it the name of a file elsewhere, and to be of one-byte characters.
pub mod Fresh
use tinc_boot.Prelude.{
  ℕ, zero, suc, ◌+◌, ◌-◌, ◌%◌, ◌^◌, ◌≡◌, Bool, true, false, not, ◌&&◌, List, [], ◌∷◌, ◌++◌, Option,
  none, some, if◌then◌else◌, length, drop, map, ◌==◌, leb,
}
use tinc_boot.Text.{Text, codes, equal}
use tinc_boot.Dict.{Dict, lookup, insert}
use tinc_boot.Names.{clean_string}
use tinc_boot.Numbers.{format_uint}
use tinc_boot.Config.Types.{Main, Node, node_fields}
use tinc_boot.Config.Marshal.{marshal}
use tinc_boot.Daemon.Disk.{
  Item, file, directory, Disk, Env, Outcome, whole, not_opened, cut, cut_in_flush, save_main,
}

-- The flags of `Cmd` that a fresh configuration is made of.
pub record Cmd : Type 0 where
  pub name : Text
  pub advertise : List Text
  pub tinc_port : ℕ
  pub device : Text
  pub ip : Text

-- What the machine supplies: its name, the random letters of a name, `rand.Intn` told apart by a
-- number, its routable addresses (none for an error), and `net.SplitHostPort`.
pub record Machine : Type 0 where
  pub hostname : Text
  pub letters : Text
  pub draws : ℕ → ℕ → ℕ
  pub routable : Option (List Text)
  pub split_host_port : Text → Option (Text × Text)

-- The loop of `advertise`: an address that cannot be split is left out.
unfoldable pub split_addresses : (Text → Option (Text × Text)) → List Text → List Text
split_addresses split_host_port [] = []
split_addresses split_host_port (address ∷ rest) =
    let more = split_addresses split_host_port rest in
    elim (split_host_port address) [
      | none ↦ more
      | some (host, port) ↦ (host ++ b' ' ∷ port) ∷ more
    ]

-- `advertise`
unfoldable pub advertise : Machine → Cmd → List Text
unfolding split_addresses
advertise machine cmd = elim cmd.advertise [
  | [] ↦ elim machine.routable [ none ↦ [] | some ips ↦ ips ]
  | a ∷ rest ↦ split_addresses machine.split_host_port (a ∷ rest)
]

-- `tincPort`
unfoldable pub tinc_port : Machine → Cmd → ℕ
tinc_port machine cmd =
    if not (cmd.tinc_port == 0) then cmd.tinc_port else (30000 + machine.draws 0 10000) % 2 ^ 16

-- `name`
unfoldable pub node_name : Machine → Cmd → Text
node_name machine cmd =
    if not (equal cmd.name []) then cmd.name else clean_string (machine.hostname ++ machine.letters)

-- `deviceName`, with the name that `name` gave.
unfoldable pub device_name : Cmd → Text → Text
device_name cmd name =
    if not (equal cmd.device [])
    then cmd.device
    else if leb (length name) 5
    then name
    else drop (length name - 5) name

-- `strings.ToUpper` of ASCII letters.
unfoldable pub upper : ℕ → ℕ
upper c = if leb b'a' c && leb c b'z' then c - 32 else c

-- `ip`, whose sums are bytes.
unfoldable pub vpn_ip : Machine → Cmd → Text
vpn_ip machine cmd =
    if not (equal cmd.ip [])
    then cmd.ip
    else codes "172."
      ++ format_uint ((16 + machine.draws 1 15) % 256)
      ++ b'.' ∷ format_uint (machine.draws 2 255 % 256)
      ++ b'.' ∷ format_uint ((1 + machine.draws 3 254) % 256)

-- What `createConfig` writes.
unfoldable pub fresh_main : Machine → Cmd → Main
unfolding tinc_port node_name device_name upper
fresh_main machine cmd = record {
  name = node_name machine cmd;
  port = tinc_port machine cmd;
  local_discovery = true;
  interface = codes "tun" ++ map upper (device_name cmd (node_name machine cmd));
  connect_to = [];
}

unfoldable pub fresh_node : Machine → Cmd → Node
unfolding vpn_ip advertise tinc_port
fresh_node machine cmd = record {
  subnet = vpn_ip machine cmd ++ codes "/32";
  address = advertise machine cmd;
  port = tinc_port machine cmd;
  public_key = [];
}

-- What `SaveFile` leaves of hosts/name, and whether it returns no error.
unfoldable pub saved : Outcome → Text → Text → Dict Item → Dict Item × Bool
saved whole name content entries = (insert name (file content) entries, true)
saved not_opened name content entries = (entries, false)
saved (cut part) name content entries = (insert name (file part) entries, false)
saved (cut_in_flush part) name content entries = (insert name (file part) entries, true)

-- `SaveFile` at hosts/name. An empty name is the directory itself.
unfoldable pub save_entry : Env → Text → Text → Dict Item → Dict Item × Bool
unfolding saved
save_entry env name content entries = elim (lookup name entries) [
  | some directory ↦ (entries, false)
  | _ ↦ saved env.write_host name content entries
]

unfoldable pub save_node : Env → Text → Node → Disk → Disk × Bool
unfolding save_entry
save_node env [] node disk = (disk, false)
save_node env (c ∷ name) node disk = elim disk.hosts [
  | none ↦ (disk, false)
  | some entries ↦
      let (entries', done) = save_entry env (c ∷ name) (marshal (node_fields node)) entries in
      (record disk { hosts = some entries' }, done)
]

pub data CreateError : Type 0 where
  create_main create_node generate_keys : CreateError

-- `tincd -K`, which works on the configuration directory; the flag is false for an error.
abbrev pub Keygen : Type 0
Keygen = Disk → Disk × Bool

-- `createConfig` from the node's file on.
unfoldable pub create_node_file : Env → Keygen → Main → Node → Disk → Disk × Option CreateError
create_node_file env keygen main node disk =
    let (disk', done) = save_node env main.name node disk in
    if not done
    then (disk', some create_node)
    else let (disk'', made) = keygen disk' in (disk'', if made then none else some generate_keys)

-- `createConfig`
unfoldable pub create_config : Env → Keygen → Machine → Cmd → Disk → Disk × Option CreateError
create_config env keygen machine cmd disk =
    let (disk', done) = save_main env (fresh_main machine cmd) disk in
    if not done
    then (disk', some create_main)
    else create_node_file env keygen (fresh_main machine cmd) (fresh_node machine cmd) disk'
