-- ===== src/Run/Setup/Fresh.antt =====
-- `createConfig` of cmd/tinc-boot/run/main_linux.go, and what the daemon makes of the result.
use tinc_boot.Prelude.{
  ◌≡◌, ◌≢◌, refl, ap, ◌∙◌, true, false, List, [], ◌∷◌, ◌++◌, Option, none, some, arith, All,
  if◌then◌else◌,
}
use tinc_boot.Text.{Text, codes, equal, equal_iff, equal_refl}
use tinc_boot.Text.Strings.Trim.{IsTrimmed, HasNo, trim_space_of_IsTrimmed, before-append}
use tinc_boot.Dict.{Dict, lookup, insert, lookup-insert}
use tinc_boot.Config.Types.{Main, Node, main_fields, node_fields, node_of}
use tinc_boot.Config.Marshal.{marshal}
use tinc_boot.Config.RoundTrip.{IsWritable}
use tinc_boot.Config.RoundTrip.Nodes.{IsWritableNode}
use tinc_boot.Config.RoundTrip.Keys.{IsPemLine, pem_block, pem_text, unmarshal-keyed}
use tinc_boot.Daemon.Disk.{
  Item, file, directory, Disk, calm, content_at, read_node, node_parsed, read_node_config,
  save_main,
}
use tinc_boot.Daemon.Hosts.{self_address, configured}
use tinc_boot.Daemon.Hosts.Stored.{read_main-Stored, texts_of-map}
use tinc_boot.Daemon.Hosts.Add.{IsOpenAt}
use tinc_boot.Run.Setup.{
  Cmd, Machine, Keygen, fresh_main, fresh_node, vpn_ip, saved, save_entry, save_node,
  create_node_file, create_config,
}

-- `tincd -K` as its manual has it: it appends the public key, with these lines, to the node's file.
pub record IsKeygen (keygen : Keygen) (name : Text) (ls : List Text) : Type 0 where
  pub pem : All IsPemLine ls
  pub appends :
      (conf : Option Text) (entries : Dict Item) (content : Text)
      → lookup name entries ≡ some (file content)
      → keygen (record { conf = conf; hosts = some entries }) ≡ (
        record { conf = conf; hosts = some (insert name (file (content ++ pem_block ls)) entries) },
        true,
      )

pub node_of-node_fields : (n : Node) → node_of (node_fields n) ≡ n
unfolding node_of node_fields
node_of-node_fields n = λ i. record {
  subnet = n.subnet;
  address = texts_of-map n.address i;
  port = n.port;
  public_key = n.public_key;
}

save_node-whole :
    (name : Text) (node : Node) (disk : Disk)
    → name ≢ []
    → (o : IsOpenAt name disk)
    → save_node calm name node disk ≡ (
      record disk { hosts = some (insert name (file (marshal (node_fields node))) o.entries) },
      true,
    )
unfolding save_node
save_node-whole [] node disk ne o = absurd (ne refl)
save_node-whole (c ∷ name) node disk ne o =
    rw (o.is_there, save_node)
      (rw (entry_saved (c ∷ name) (marshal (node_fields node)) o.entries o.no_directory))
  where
    entry_saved :
        (k content : Text) (entries : Dict Item)
        → lookup k entries ≢ some directory
        → save_entry calm k content entries ≡ (insert k (file content) entries, true)
    entry_saved k content entries nd = unfold save_entry saved in ground arith

-- The directory that a complete `createConfig` leaves.
abbrev pub created : Main → Node → List Text → Dict Item → Disk
created main node ls entries = record {
  conf = some (marshal (main_fields main));
  hosts = some (
      insert main.name (file (marshal (node_fields node) ++ pem_block ls))
        (insert main.name (file (marshal (node_fields node))) entries));
}

create_node_file-whole :
    (keygen : Keygen) (main : Main) (node : Node) (ls : List Text) (disk : Disk)
    → main.name ≢ []
    → (o : IsOpenAt main.name disk) → IsKeygen keygen main.name ls
    → disk.conf ≡ some (marshal (main_fields main))
    → create_node_file calm keygen main node disk ≡ (created main node ls o.entries, none)
unfolding create_node_file
create_node_file-whole keygen main node ls disk ne o k c =
    let content = marshal (node_fields node) in
    rw (save_node-whole main.name node disk ne o) (
      rw
        (k.appends disk.conf (insert main.name (file content) o.entries) content
          (lookup-insert main.name main.name (file content) o.entries ∙ rw (equal_refl main.name)))
        (rw c))

tun_named : (machine : Machine) (cmd : Cmd) → equal (fresh_main machine cmd).interface [] ≡ false
unfolding fresh_main equal
tun_named machine cmd = refl

module _ (keygen : Keygen) (machine : Machine) (cmd : Cmd) (ls : List Text) (disk : Disk)
    (named : (fresh_main machine cmd).name ≢ []) (o : IsOpenAt (fresh_main machine cmd).name disk)
    (k : IsKeygen keygen (fresh_main machine cmd).name ls) where
  abbrev made : Disk
  made = created (fresh_main machine cmd) (fresh_node machine cmd) ls o.entries

  create_config-whole : create_config calm keygen machine cmd disk ≡ (made, none)
  unfolding create_config save_main
  create_config-whole =
      create_node_file-whole keygen (fresh_main machine cmd) (fresh_node machine cmd) ls
        (record disk { conf = some (marshal (main_fields (fresh_main machine cmd))) }) named
        (record { entries = o.entries; is_there = o.is_there; no_directory = o.no_directory }) k
        refl

  abbrev keyed : Node
  keyed = record (fresh_node machine cmd) { public_key = pem_text ls }

  made-content :
      content_at calm (fresh_main machine cmd).name made
      ≡ some (marshal (node_fields (fresh_node machine cmd)) ++ pem_block ls)
  unfolding content_at
  made-content = rw (
    lookup-insert (fresh_main machine cmd).name (fresh_main machine cmd).name
          (file (marshal (node_fields (fresh_node machine cmd)) ++ pem_block ls))
          (insert (fresh_main machine cmd).name
            (file (marshal (node_fields (fresh_node machine cmd)))) o.entries)
        ∙ own,
    content_at,
  )
    where
      own :
          (if equal (fresh_main machine cmd).name (fresh_main machine cmd).name
            then some (file (marshal (node_fields (fresh_node machine cmd)) ++ pem_block ls))
            else lookup (fresh_main machine cmd).name (
                insert
                  (fresh_main machine cmd).name
                  (file (marshal (node_fields (fresh_node machine cmd))))
                  o.entries))
          ≡ some (file (marshal (node_fields (fresh_node machine cmd)) ++ pem_block ls))
      own = rw (equal_refl (fresh_main machine cmd).name)

  made-node :
      IsWritableNode (fresh_node machine cmd)
      → read_node calm (fresh_main machine cmd).name made ≡ some keyed
  unfolding read_node
  made-node w =
      rw (made-content, read_node)
        (rw (unmarshal-keyed (fresh_node machine cmd) ls w k.pem)
          (unfold node_parsed in ap some (node_of-node_fields keyed)))

  made-config :
      IsWritable (fresh_main machine cmd)
      → IsWritableNode (fresh_node machine cmd)
      → read_node_config calm made ≡ some (fresh_main machine cmd, keyed)
  unfolding read_node_config
  made-config m w =
      rw
        (
          read_main-Stored calm (fresh_main machine cmd) made refl
              (record { content = refl; writable = m }),
          read_node_config,
        )
        (rw (made-node w))

  fresh-address :
      HasNo b'/' (vpn_ip machine cmd)
      → IsTrimmed (vpn_ip machine cmd)
      → self_address keyed ≡ vpn_ip machine cmd
  unfolding self_address fresh_node
  fresh-address h t =
      rw (before-append b'/' (vpn_ip machine cmd) (codes "32") h)
        (trim_space_of_IsTrimmed (vpn_ip machine cmd) t)

  fresh-configured :
      IsWritable (fresh_main machine cmd)
      → IsWritableNode (fresh_node machine cmd)
      → HasNo b'/' (vpn_ip machine cmd)
      → IsTrimmed (vpn_ip machine cmd)
      → vpn_ip machine cmd ≢ []
      → configured calm made ≡ true
  unfolding configured
  fresh-configured m w h t ne =
      rw (made-config m w, configured)
        (rw (fresh-address h t)
          (rw (tun_named machine cmd) (ground (arith, equal_iff (vpn_ip machine cmd) []))))

  -- With no failing call, on a directory with a hosts/ in which the node's file can be written, and a
  -- tincd that appends its key to that file: where the values that `createConfig` chooses can be written
  -- (texts of one line, trimmed and short, and a 16-bit port) and the address has no slash and is not
  -- empty, `createConfig` returns no error, the configuration is read back as chosen, with the key, and
  -- the daemon is configured, with that address.
  pub create_config_lem :
      IsWritable (fresh_main machine cmd)
      → IsWritableNode (fresh_node machine cmd)
      → HasNo b'/' (vpn_ip machine cmd)
      → IsTrimmed (vpn_ip machine cmd)
      → vpn_ip machine cmd ≢ []
      → ((create_config calm keygen machine cmd disk).1 ≡ none)
        × (read_node_config calm (create_config calm keygen machine cmd disk).0
            ≡ some (
              fresh_main machine cmd,
              record (fresh_node machine cmd) { public_key = pem_text ls },
            ))
        × (configured calm (create_config calm keygen machine cmd disk).0 ≡ true)
        × (self_address (record (fresh_node machine cmd) { public_key = pem_text ls })
            ≡ vpn_ip machine cmd)
  create_config_lem m w h t ne =
      rw create_config-whole (refl, made-config m w, fresh-configured m w h t ne, fresh-address h t)
