-- ===== src/Tests/Generating.antt =====
-- A first node that `gen` makes.
use tinc_boot.Prelude.{ℕ, ◌≡◌, refl, true, List, [], ◌∷◌, none, some, arith}
use tinc_boot.Text.{codes, equal}
use tinc_boot.Text.Strings.{split, byte_len}
use tinc_boot.Dict.{lookup}
use tinc_boot.Names.{IsName, is_enabled, clean_string, clean_string_of_IsName}
use tinc_boot.Numbers.{parse_uint_bits, parse_uint}
use tinc_boot.Daemon.Disk.{calm, read_node_config}
use tinc_boot.Daemon.Hosts.{self_address, configured}
use tinc_boot.Daemon.Hosts.Add.{IsOpenAt}
use tinc_boot.Generator.{segments, draw_segments}
use tinc_boot.Run.Start.{make_hosts}
use tinc_boot.Bootstrap.Gen.{Cmd}
use tinc_boot.Bootstrap.Gen.Files.{generate_ip, show_ip}
use tinc_boot.Bootstrap.Gen.Execute.{given_name, execute}
use tinc_boot.Bootstrap.Gen.Execute.Writing.{IsWorking}
use tinc_boot.Bootstrap.Gen.Execute.Standalone.{
  IsUsable, settled, chosen_main, chosen_node, execute-configured,
}
use tinc_boot.Tests.Inputs.{bob, bob-IsName, bob-short}
use tinc_boot.Tests.Booting.{cipher, draws, machine, cmd, folder, draws-IsIntn}

-- A first node with a prefix that can be split.
abbrev first : Cmd
first = record cmd { prefix = codes "172.16"; no_gen_key = true }

abbrev first_ip : List ℕ
first_ip = 172 ∷ 16 ∷ 0 ∷ 1 ∷ []

machine-IsWorking : IsWorking machine
machine-IsWorking = record {
  copies = refl;
  makes = λ name. refl;
  writes = λ name. refl;
  marks = λ name. refl;
}

first-ip : generate_ip draws (codes "172.16") ≡ some first_ip
unfolding generate_ip split segments draw_segments parse_uint_bits parse_uint
first-ip = refl

bob-IsUsable : IsUsable bob
bob-IsUsable = record {
  not_empty = rw (clean_string_of_IsName bob bob-IsName) (λ e. cc);
  short = rw (clean_string_of_IsName bob bob-IsName) bob-short;
}

dnet-IsName : IsName (codes "dnet")
unfolding is_enabled
dnet-IsName = (refl, (refl, (refl, (refl, tt))))

dnet-IsUsable : IsUsable (codes "dnet")
unfolding byte_len
dnet-IsUsable = record {
  not_empty = rw (clean_string_of_IsName (codes "dnet") dnet-IsName) (λ e. cc);
  short = rw (clean_string_of_IsName (codes "dnet") dnet-IsName) (omega arith);
}

bob-named : given_name machine calm cipher first ≡ some bob
unfolding given_name equal
bob-named = refl

folder-open : IsOpenAt (clean_string bob) (make_hosts folder.disk)
unfolding make_hosts lookup
folder-open = record { entries = []; is_there = refl; no_directory = λ e. cc }

execute-configured_example :
    ((execute machine calm cipher first folder).1 ≡ none)
    × (read_node_config calm (execute machine calm cipher first folder).0.disk
        ≡ some (
          chosen_main first (settled first bob (codes "/usr/local/bin/tinc-boot") first_ip 655),
          chosen_node first (settled first bob (codes "/usr/local/bin/tinc-boot") first_ip 655),
        ))
    × (configured calm (execute machine calm cipher first folder).0.disk ≡ true)
    × (self_address
          (chosen_node first (settled first bob (codes "/usr/local/bin/tinc-boot") first_ip 655))
        ≡ show_ip first_ip)
execute-configured_example =
    execute-configured machine cipher first machine-IsWorking folder bob
      (codes "/usr/local/bin/tinc-boot") first_ip 655 refl refl draws-IsIntn bob-named refl first-ip
      refl (omega arith) bob-IsUsable dnet-IsUsable tt tt folder-open
