-- ===== src/Tests/Together.antt =====
-- A node that starts, and a host that joins it.
use tinc_boot.Prelude.{◌≡◌, refl, true, [], ◌∷◌, none, some, inl, arith}
use tinc_boot.Prelude.Int.{pos, ◌<ℤ◌}
use tinc_boot.Text.{Text, codes, equal, less}
use tinc_boot.Dict.{lookup, IsMap}
use tinc_boot.Names.{IsName}
use tinc_boot.Daemon.Disk.{file, calm, written, write_host, write_entry}
use tinc_boot.Daemon.Spawning.{spawn}
use tinc_boot.Daemon.Hosts.{add_host, link_host, connect}
use tinc_boot.Daemon.Hosts.Filed.{IsFiled}
use tinc_boot.Discovery.Ssd.{Entity, new_ssd}
use tinc_boot.Discovery.Ssd.Storage.{no_faults, read}
use tinc_boot.Discovery.Ssd.Versions.{known}
use tinc_boot.Discovery.Server.{get_one, asked_version}
use tinc_boot.Run.Clock.{next_tick, increment}
use tinc_boot.Run.Start.{execute, on_joined}
use tinc_boot.Run.Together.{Shared, add, joined, Reach, here, next}
use tinc_boot.Run.Together.Started.{started-served}
use tinc_boot.Tests.Inputs.{alice, bob, alice-IsName}
use tinc_boot.Tests.Tables.{json}
use tinc_boot.Tests.Run.{start as startup, first, local, first-runs}
use tinc_boot.Text.Strings.{trim_space}
use tinc_boot.Numbers.{parse_int, format_int}
use tinc_boot.Daemon.Disk.{
  write_file, read_node_config, read_main, read_node, content_at, main_parsed, node_parsed,
}
use tinc_boot.Daemon.Hosts.{host_names, is_clean, configured, index_hosts, self_address}
use tinc_boot.Config.Parser.{unmarshal}
use tinc_boot.Config.Types.{main_fields, main_of, node_fields, node_of}
use tinc_boot.Discovery.Ssd.{replace, store, replace_if_newer}
use tinc_boot.Discovery.Ssd.Storage.{save}
use tinc_boot.Dict.{insert}
use tinc_boot.Run.Clock.{read_tick}
use tinc_boot.Run.Start.{
  count_and_read, read_table, restore_hosts, make_hosts, configure, announce, restore_all, restore,
  index_and_spawn, spawn_daemon,
}
use tinc_boot.Daemon.Disk.{save_main}
use tinc_boot.Config.Marshal.{
  marshal, all_zero, is_zero_value, marshal_plain, marshal_value, has_blob, marshal_blobs,
}
use tinc_boot.Names.{clean_string, cut_disabled, is_enabled, lower_rune}

abbrev of_bob : Entity
of_bob = record { name = bob; version = pos 0 }

abbrev begun : Shared
begun = record { ssd = first.ssd; disk = (execute json startup local).0.disk; due = [] }

abbrev with_bob : Shared
with_bob = record begun {
  disk = (add_host calm bob (codes "Port = 656") begun.disk).0;
  due = bob ∷ [];
}

abbrev joined_bob : Shared
joined_bob = record with_bob {
  ssd = (on_joined json startup no_faults (codes "tmp") bob begun.ssd []).0.0;
}

was_configured : configured startup.env (make_hosts local.disk) ≡ true
unfolding execute count_and_read next_tick write_file read_tick increment parse_int format_int
    trim_space read_table read restore_hosts host_names is_clean make_hosts configure configured
    read_node_config read_main read_node content_at unmarshal main_fields main_parsed node_parsed
    main_of node_fields node_of announce replace store insert save restore_all restore index_hosts
    replace_if_newer index_and_spawn spawn_daemon spawn lookup equal self_address save_main marshal
    all_zero is_zero_value marshal_plain marshal_value clean_string cut_disabled is_enabled
    lower_rune has_blob marshal_blobs
was_configured = refl

hosts_listed :
    (make_hosts local.disk).hosts ≡ some ((alice, file (codes "Subnet = 10.0.0.1/32")) ∷ [])
unfolding make_hosts
hosts_listed = refl

alone-IsMap : IsMap ((alice, file (codes "Subnet = 10.0.0.1/32")) ∷ [])
unfolding lookup
alone-IsMap = (refl, tt)

nothing-IsFiled :
    (name : Text) (e : Entity)
    → known (read json startup.table_denied local.files (new_ssd startup.table_file)).0 name
      ≡ some e
    → IsFiled (make_hosts local.disk) name
unfolding read lookup new_ssd
nothing-IsFiled name e h = absurd (ground arith)

first-IsName : IsName first.self
unfolding execute count_and_read next_tick write_file read_tick increment parse_int format_int
    trim_space read_table read restore_hosts host_names is_clean make_hosts configure configured
    read_node_config read_main read_node content_at unmarshal main_fields main_parsed node_parsed
    main_of node_fields node_of announce replace store insert save restore_all restore index_hosts
    replace_if_newer index_and_spawn spawn_daemon spawn lookup equal self_address save_main marshal
    all_zero is_zero_value marshal_plain marshal_value clean_string cut_disabled is_enabled
    lower_rune has_blob marshal_blobs
first-IsName = alice-IsName

bob-added : (add_host calm bob (codes "Port = 656") begun.disk).1 ≡ none
unfolding execute count_and_read next_tick write_file read_tick increment parse_int format_int
    trim_space read_table read restore_hosts host_names is_clean make_hosts configure configured
    read_node_config read_main read_node content_at unmarshal main_fields main_parsed node_parsed
    main_of node_fields node_of announce replace store insert save restore_all restore index_hosts
    replace_if_newer index_and_spawn spawn_daemon spawn lookup equal self_address save_main marshal
    all_zero is_zero_value marshal_plain marshal_value clean_string cut_disabled is_enabled
    lower_rune has_blob marshal_blobs add_host link_host connect write_host write_entry written
bob-added = refl

bob-joined : Reach begun joined_bob
bob-joined =
    next (next here (add calm bob (codes "Port = 656") bob-added))
      (joined json startup no_faults (codes "tmp") bob [] (inl refl))

bob-known : known joined_bob.ssd bob ≡ some of_bob
unfolding execute count_and_read next_tick write_file read_tick increment parse_int format_int
    trim_space read_table read restore_hosts host_names is_clean make_hosts configure configured
    read_node_config read_main read_node content_at unmarshal main_fields main_parsed node_parsed
    main_of node_fields node_of announce replace store insert save restore_all restore index_hosts
    replace_if_newer index_and_spawn spawn_daemon spawn lookup equal self_address save_main marshal
    all_zero is_zero_value marshal_plain marshal_value clean_string cut_disabled is_enabled
    lower_rune has_blob marshal_blobs on_joined less new_ssd
bob-known = refl

any_version : asked_version (codes "-1") <ℤ of_bob.version
unfolding asked_version parse_int
any_version = omega arith

started-served_example :
    (content : Text) × (get_one calm joined_bob.ssd joined_bob.disk bob (codes "-1")
      ≡ record { status = 200; x_name = bob; x_version = format_int (pos 0); body = some content })
started-served_example =
    started-served json startup first local ((alice, file (codes "Subnet = 10.0.0.1/32")) ∷ [])
      was_configured hosts_listed alone-IsMap first-IsName nothing-IsFiled first-runs bob
      (codes "-1") of_bob bob-joined bob-known any_version
