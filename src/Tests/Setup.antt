-- ===== src/Tests/Setup.antt =====
-- A fresh configuration, and the files of nodes, read back.
use tinc_boot.Prelude.{
  ◌≡◌, ◌≢◌, refl, Bool, true, false, List, [], ◌∷◌, ◌++◌, Option, none, some, arith,
}
use tinc_boot.Text.{Text, codes, equal}
use tinc_boot.Text.Strings.{is_space, byte_len, has_prefix, trim_right, trim_onto}
use tinc_boot.Text.Strings.Trim.{HasNo, IsTrimmed, IsTrimmed-of_spaceless}
use tinc_boot.Dict.{Dict, lookup, insert}
use tinc_boot.Config.Types.{main_fields, node_fields, zero_main, zero_node}
use tinc_boot.Config.Marshal.{marshal}
use tinc_boot.Config.Parser.{ok, unmarshal}
use tinc_boot.Config.RoundTrip.{IsWritable}
use tinc_boot.Config.RoundTrip.Nodes.{IsWritableNode, unmarshal-marshal_node}
use tinc_boot.Config.RoundTrip.Keys.{pem_block, pem_text}
use tinc_boot.Config.RoundTrip.Pieces.{IsPlain, IsItem}
use tinc_boot.Config.RoundTrip.Templates.{unmarshal-tinc_conf}
use tinc_boot.Daemon.Disk.{Item, file, Disk, calm, read_node_config}
use tinc_boot.Daemon.Hosts.{configured, self_address}
use tinc_boot.Daemon.Hosts.Add.{IsOpenAt}
use tinc_boot.Run.Setup.{
  Cmd, Keygen, fresh_main, fresh_node, vpn_ip, node_name, device_name, tinc_port, upper, advertise,
  create_config,
}
use tinc_boot.Run.Setup.Fresh.{IsKeygen, create_config_lem}
use tinc_boot.Bootstrap.Gen.Files.{tinc_conf}
use tinc_boot.Tests.Inputs.{alice, bob, plain_word}
use tinc_boot.Tests.Run.{machine}

abbrev cmd : Cmd
cmd = record {
  name = alice;
  advertise = [];
  tinc_port = 655;
  device = codes "vpn";
  ip = codes "172.16.0.1";
}

abbrev key_lines : List Text
key_lines = codes "MIIB" ∷ []

-- It appends a key to alice's file.
unfoldable add_key : Option Item → Dict Item → Disk → Disk × Bool
add_key (some (file content)) entries disk = (
  record disk { hosts = some (insert alice (file (content ++ pem_block key_lines)) entries) },
  true,
)
add_key _ entries disk = (disk, false)

unfoldable keygen : Keygen
unfolding add_key
keygen disk = elim disk.hosts [
  | none ↦ (disk, false)
  | some entries ↦ add_key (lookup alice entries) entries disk
]

keygen-IsKeygen : IsKeygen keygen alice key_lines
unfolding has_prefix trim_right trim_onto is_space byte_len keygen add_key
keygen-IsKeygen = record {
  pem = (
    record {
      one_line = (refl, (refl, (refl, (refl, tt))));
      trimmed = refl;
      short = omega arith;
      inner = refl;
    },
    tt,
  );
  appends = λ conf entries content h. ground arith;
}

abbrev empty : Disk
empty = record { conf = none; hosts = some [] }

alice-IsOpenAt : IsOpenAt alice empty
unfolding lookup
alice-IsOpenAt = record { entries = []; is_there = refl; no_directory = λ e. cc }

main-IsWritable : IsWritable (fresh_main machine cmd)
unfolding fresh_main node_name device_name tinc_port upper byte_len is_space equal
main-IsWritable = record {
  name =
      plain_word (codes "alice") (refl, (refl, (refl, (refl, (refl, tt)))))
        (refl, (refl, (refl, (refl, (refl, tt))))) (omega arith);
  port = omega arith;
  interface =
      plain_word (codes "tunVPN") (refl, (refl, (refl, (refl, (refl, (refl, tt))))))
        (refl, (refl, (refl, (refl, (refl, (refl, tt)))))) (omega arith);
  connect_to = tt;
}

node-IsWritable : IsWritableNode (fresh_node machine cmd)
unfolding fresh_node vpn_ip advertise tinc_port byte_len is_space equal
node-IsWritable = record {
  subnet =
      plain_word (codes "172.16.0.1/32")
        (
          refl,
          (
            refl,
            (
              refl,
              (refl, (refl, (refl, (refl, (refl, (refl, (refl, (refl, (refl, (refl, tt)))))))))),
            ),
          ),
        )
        (
          refl,
          (
            refl,
            (
              refl,
              (refl, (refl, (refl, (refl, (refl, (refl, (refl, (refl, (refl, (refl, tt)))))))))),
            ),
          ),
        )
        (omega arith);
  address = (
    record {
      plain =
          plain_word (codes "1.2.3.4") (refl, (refl, (refl, (refl, (refl, (refl, (refl, tt)))))))
            (refl, (refl, (refl, (refl, (refl, (refl, (refl, tt))))))) (omega arith);
      not_empty = λ e. cc;
    },
    tt,
  );
  port = omega arith;
  no_key = refl;
}

ip-slashless : HasNo b'/' (vpn_ip machine cmd)
unfolding vpn_ip equal
ip-slashless = (refl, (refl, (refl, (refl, (refl, (refl, (refl, (refl, (refl, (refl, tt))))))))))

ip-IsTrimmed : IsTrimmed (vpn_ip machine cmd)
unfolding vpn_ip is_space equal
ip-IsTrimmed =
    IsTrimmed-of_spaceless (codes "172.16.0.1")
      (refl, (refl, (refl, (refl, (refl, (refl, (refl, (refl, (refl, (refl, tt))))))))))

ip-there : vpn_ip machine cmd ≢ []
unfolding vpn_ip equal
ip-there h = cc

fresh-named : (fresh_main machine cmd).name ≢ []
unfolding fresh_main node_name equal
fresh-named h = cc

fresh-IsOpenAt : IsOpenAt (fresh_main machine cmd).name empty
unfolding fresh_main node_name equal
fresh-IsOpenAt = alice-IsOpenAt

fresh-IsKeygen : IsKeygen keygen (fresh_main machine cmd).name key_lines
unfolding fresh_main node_name equal
fresh-IsKeygen = keygen-IsKeygen

create_config_example :
    ((create_config calm keygen machine cmd empty).1 ≡ none)
    × (read_node_config calm (create_config calm keygen machine cmd empty).0
        ≡ some (
          fresh_main machine cmd,
          record (fresh_node machine cmd) { public_key = pem_text key_lines },
        ))
    × (configured calm (create_config calm keygen machine cmd empty).0 ≡ true)
    × (self_address (record (fresh_node machine cmd) { public_key = pem_text key_lines })
        ≡ vpn_ip machine cmd)
create_config_example =
    create_config_lem keygen machine cmd key_lines empty fresh-named fresh-IsOpenAt fresh-IsKeygen
      main-IsWritable node-IsWritable ip-slashless ip-IsTrimmed ip-there

unmarshal-marshal_node_example :
    unmarshal (marshal (node_fields (fresh_node machine cmd))) (node_fields zero_node)
    ≡ ok (node_fields (fresh_node machine cmd))
unmarshal-marshal_node_example = unmarshal-marshal_node (fresh_node machine cmd) node-IsWritable

word-IsItem : (t : Text) → IsPlain t → t ≢ [] → IsItem t
word-IsItem t p h = record { plain = p; not_empty = h }

alice-IsItem : IsItem alice
unfolding byte_len is_space
alice-IsItem =
    word-IsItem alice
      (plain_word (codes "alice") (refl, (refl, (refl, (refl, (refl, tt)))))
        (refl, (refl, (refl, (refl, (refl, tt))))) (omega arith))
      (λ e. cc)

net-IsItem : IsItem (codes "dnet")
unfolding byte_len is_space
net-IsItem =
    word-IsItem (codes "dnet")
      (plain_word (codes "dnet") (refl, (refl, (refl, (refl, tt))))
        (refl, (refl, (refl, (refl, tt)))) (omega arith))
      (λ e. cc)

bob-IsItem : IsItem bob
unfolding byte_len is_space
bob-IsItem =
    word-IsItem bob
      (plain_word (codes "bob") (refl, (refl, (refl, tt))) (refl, (refl, (refl, tt))) (omega arith))
      (λ e. cc)

unmarshal-tinc_conf_example :
    unmarshal (tinc_conf alice (codes "dnet") 655 (bob ∷ [])) (main_fields zero_main)
    ≡ ok (
        main_fields (record {
          name = alice;
          port = 655;
          local_discovery = true;
          interface = codes "dnet";
          connect_to = bob ∷ [];
        }))
unmarshal-tinc_conf_example =
    unmarshal-tinc_conf alice (codes "dnet") 655 (bob ∷ []) alice-IsItem net-IsItem (bob-IsItem, tt)
      (omega arith)
