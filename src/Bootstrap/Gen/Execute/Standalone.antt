-- ===== src/Bootstrap/Gen/Execute/Standalone.antt =====
-- A first node: what `Execute` of cmd/tinc-boot/gen/main.go leaves for the daemon to start on.
use tinc_boot.Prelude.{
  ℕ, ◌<◌, ◌^◌, ◌≡◌, ◌≢◌, refl, ap, ◌∙◌, true, List, [], ◌++◌, none, some, length, All, arith,
}
use tinc_boot.Text.{Text, codes, equal_iff, equal_refl}
use tinc_boot.Text.Strings.{byte_len}
use tinc_boot.Text.Strings.Trim.{trim_space_of_IsTrimmed, before-append}
use tinc_boot.Dict.{Dict, lookup, insert, lookup-insert}
use tinc_boot.Names.{clean_string, clean_string-IsName}
use tinc_boot.Config.Types.{Main, Node, zero_node}
use tinc_boot.Config.RoundTrip.Pieces.{IsItem}
use tinc_boot.Config.RoundTrip.Templates.{unmarshal-tinc_conf}
use tinc_boot.Config.RoundTrip.HostFile.{unmarshal-host_file}
use tinc_boot.Daemon.Disk.{
  Item, file, Disk, calm, content_at, read_main, read_node, main_parsed, node_parsed,
  read_node_config,
}
use tinc_boot.Daemon.Hosts.{self_address, configured}
use tinc_boot.Daemon.Hosts.Stored.{IsItem-of_IsName, main_of-main_fields}
use tinc_boot.Daemon.Hosts.Add.{IsOpenAt}
use tinc_boot.Generator.Addresses.{IsIntn}
use tinc_boot.Run.Start.{make_hosts}
use tinc_boot.Run.Setup.Fresh.{node_of-node_fields}
use tinc_boot.Bootstrap.Cipher.{Cipher}
use tinc_boot.Bootstrap.Gen.{Cmd, Machine, Folder}
use tinc_boot.Bootstrap.Gen.Files.{generate_ip, show_ip, host_file}
use tinc_boot.Bootstrap.Gen.Execute.{
  Settled, given_name, missing_arguments, settle_address, settle, proceed, execute,
}
use tinc_boot.Bootstrap.Gen.Execute.Prefixes.{generate_ip-digits}
use tinc_boot.Bootstrap.Gen.Execute.Addresses.{
  show_ip-HasNo, show_ip-IsTrimmed, show_ip-ne-nil, subnet-IsItem,
}
use tinc_boot.Bootstrap.Gen.Execute.Writing.{IsWorking, written_disk, build-whole}

-- A name whose cleaned form can be written.
pub record IsUsable (name : Text) : Type 0 where
  pub not_empty : clean_string name ≢ []
  pub short : byte_len (clean_string name) < 60000

IsUsable-IsItem : (name : Text) → IsUsable name → IsItem (clean_string name)
IsUsable-IsItem name u =
    IsItem-of_IsName (clean_string name) (clean_string-IsName name) u.not_empty u.short

module _ (cmd : Cmd) where
  -- What `Execute` settles, and the configuration that a node is to find.
  abbrev pub settled : Text → Text → List ℕ → ℕ → Settled
  settled name binary ip port = record {
    name = clean_string name;
    network = clean_string cmd.network;
    binary = binary;
    address = show_ip ip;
    port = port;
  }

  abbrev pub chosen_main : Settled → Main
  chosen_main s = record {
    name = s.name;
    port = s.port;
    local_discovery = true;
    interface = s.network;
    connect_to = cmd.connect_to;
  }

  abbrev pub chosen_node : Settled → Node
  chosen_node s = record zero_node {
    subnet = s.address ++ codes "/32";
    address = cmd.public;
    port = s.port;
  }

module _ (machine : Machine) (cipher : Cipher) (cmd : Cmd) (works : IsWorking machine) where
  read_main-written :
      (s : Settled) (entries : Dict Item)
      → IsItem s.name
      → IsItem s.network
      → All IsItem cmd.connect_to
      → s.port < 2 ^ 16
      → read_main calm (written_disk cmd s entries) ≡ some (chosen_main cmd s)
  unfolding read_main main_parsed
  read_main-written s entries n w items p =
      rw (unmarshal-tinc_conf s.name s.network s.port cmd.connect_to n w items p)
        (ap some (main_of-main_fields (chosen_main cmd s)))

  own_entry :
      (name : Text) (item : Item) (entries : Dict Item)
      → lookup name (insert name item entries) ≡ some item
  own_entry name item entries = lookup-insert name name item entries ∙ rw equal_refl refl

  read_node-written :
      (s : Settled) (entries : Dict Item)
      → IsItem (s.address ++ codes "/32")
      → All IsItem cmd.public
      → s.port < 2 ^ 16
      → read_node calm s.name (written_disk cmd s entries) ≡ some (chosen_node cmd s)
  unfolding read_node node_parsed content_at
  read_node-written s entries a items p =
      rw
        (
          own_entry s.name (file (host_file s.address cmd.public s.port)) entries,
          read_node,
          content_at,
        )
        (rw (unmarshal-host_file s.address cmd.public s.port a items p)
          (ap some (node_of-node_fields (chosen_node cmd s))))

  read-written :
      (s : Settled) (entries : Dict Item)
      → IsItem s.name
      → IsItem s.network
      → IsItem (s.address ++ codes "/32")
      → All IsItem cmd.connect_to
      → All IsItem cmd.public
      → s.port < 2 ^ 16
      → read_node_config calm (written_disk cmd s entries)
        ≡ some (chosen_main cmd s, chosen_node cmd s)
  unfolding read_node_config
  read-written s entries n w a items public p =
      rw (read_main-written s entries n w items p, read_node_config)
        (rw (read_node-written s entries a public p))

  settle-whole :
      (name binary : Text) (ip : List ℕ) (port : ℕ)
      → cmd.standalone ≡ true
      → given_name machine calm cipher cmd ≡ some name
      → machine.binary ≡ some binary
      → generate_ip machine.draws cmd.prefix ≡ some ip
      → machine.listen cmd.port ≡ some port
      → settle machine calm cipher cmd ≡ (some (settled cmd name binary ip port), none)
  unfolding settle missing_arguments settle_address
  settle-whole name binary ip port alone n b i p =
      rw alone
        (rw (n, settle) (rw (b, settle) (rw (i, settle_address) (rw (p, settle_address) refl))))

  self_address-chosen :
      (name binary : Text) (ip : List ℕ) (port : ℕ)
      → self_address (chosen_node cmd (settled cmd name binary ip port)) ≡ show_ip ip
  unfolding self_address
  self_address-chosen name binary ip port =
      rw (before-append b'/' (show_ip ip) (codes "32") (show_ip-HasNo ip))
        (trim_space_of_IsTrimmed (show_ip ip) (show_ip-IsTrimmed ip))

  configured-chosen :
      (name binary : Text) (ip : List ℕ) (port : ℕ) (disk : Disk)
      → read_node_config calm disk
        ≡ some (
          chosen_main cmd (settled cmd name binary ip port),
          chosen_node cmd (settled cmd name binary ip port),
        )
      → clean_string cmd.network ≢ []
      → length ip ≡ 4
      → configured calm disk ≡ true
  unfolding configured
  configured-chosen name binary ip port disk h ne four =
      rw (h, configured)
        (rw (self_address-chosen name binary ip port) (
          ground (
            arith,
            equal_iff (clean_string cmd.network) [],
            equal_iff (show_ip ip) [],
            show_ip-ne-nil ip four,
          )))

  -- With no failing call and random numbers in their range, and with `--standalone` and `--no-gen-key`:
  -- where the prefix gives an address and the port is free and has 16 bits, the cleaned forms of the node's
  -- and the network's name are not empty and shorter than 60000 bytes, the peers and public addresses have
  -- no space at either end, no line feed, and some but fewer than 60000 bytes, and hosts/ has no directory
  -- of the node's name, `gen` succeeds; the daemon finds itself configured, under the cleaned names, with
  -- the port, the peers and the public addresses, and its own address is the one that was drawn.
  pub execute-configured :
      (folder : Folder) (name binary : Text) (ip : List ℕ) (port : ℕ)
      → cmd.standalone ≡ true
      → cmd.no_gen_key ≡ true
      → IsIntn machine.draws
      → given_name machine calm cipher cmd ≡ some name
      → machine.binary ≡ some binary
      → generate_ip machine.draws cmd.prefix ≡ some ip
      → machine.listen cmd.port ≡ some port
      → port < 2 ^ 16
      → IsUsable name
      → IsUsable cmd.network
      → All IsItem cmd.connect_to
      → All IsItem cmd.public
      → IsOpenAt (clean_string name) (make_hosts folder.disk)
      → ((execute machine calm cipher cmd folder).1 ≡ none)
        × (read_node_config calm (execute machine calm cipher cmd folder).0.disk
            ≡ some (
              chosen_main cmd (settled cmd name binary ip port),
              chosen_node cmd (settled cmd name binary ip port),
            ))
        × (configured calm (execute machine calm cipher cmd folder).0.disk ≡ true)
        × (self_address (chosen_node cmd (settled cmd name binary ip port)) ≡ show_ip ip)
  unfolding execute proceed
  execute-configured folder name binary ip port alone keyless intn n b i l p un uw items public o =
      let (_, four, bytes) = generate_ip-digits machine.draws cmd.prefix ip intn i in
      let found =
        read-written (settled cmd name binary ip port) o.entries (IsUsable-IsItem name un)
          (IsUsable-IsItem cmd.network uw) (subnet-IsItem ip four bytes) items public p in
      rw (settle-whole name binary ip port alone n b i l) (
        rw
          (build-whole machine cipher cmd works (settled cmd name binary ip port) folder alone
            keyless un.not_empty o)
          (
            refl,
            found,
            configured-chosen name binary ip port _ found uw.not_empty four,
            self_address-chosen name binary ip port,
          ))
