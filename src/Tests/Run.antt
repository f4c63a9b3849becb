-- ===== src/Tests/Run.antt =====
-- Starts of a node on a small configuration directory.
use tinc_boot.Prelude.{◌^◌, ◌-◌, ◌≡◌, ◌≢◌, refl, true, false, [], ◌∷◌, ◌++◌, none, some}
use tinc_boot.Prelude.Int.{pos, ◌<ℤ◌}
use tinc_boot.Text.{codes, equal}
use tinc_boot.Dict.{lookup}
use tinc_boot.Daemon.Disk.{file, calm, whole}
use tinc_boot.Daemon.Spawning.{pending, spawn}
use tinc_boot.Discovery.Ssd.{Ssd, new_ssd, can_be_merged}
use tinc_boot.Discovery.Ssd.Versions.{known}
use tinc_boot.Discovery.Ssd.Storage.{no_faults, read}
use tinc_boot.Run.Clock.{next_tick, increment}
use tinc_boot.Run.Setup.{Cmd, Machine}
use tinc_boot.Run.Start.{Local, Startup, Start, started, failed, Running, execute}
use tinc_boot.Run.Start.Restarting.{restart_lem}
use tinc_boot.Text.Strings.{trim_space}
use tinc_boot.Numbers.{parse_int, format_int}
use tinc_boot.Daemon.Disk.{
  write_file, read_node_config, read_main, read_node, content_at, main_parsed, node_parsed,
}
use tinc_boot.Daemon.Hosts.{host_names, is_clean, configured, index_hosts, self_address}
use tinc_boot.Config.Parser.{unmarshal}
use tinc_boot.Config.Types.{main_fields, main_of, node_fields, node_of}
use tinc_boot.Discovery.Ssd.{replace, store, replace_if_newer}
use tinc_boot.Discovery.Ssd.Storage.{save}
use tinc_boot.Dict.{insert}
use tinc_boot.Run.Clock.{read_tick}
use tinc_boot.Run.Start.{
  count_and_read, read_table, restore_hosts, make_hosts, configure, announce, restore_all, restore,
  index_and_spawn, spawn_daemon,
}
use tinc_boot.Daemon.Disk.{save_main}
use tinc_boot.Config.Marshal.{
  marshal, all_zero, is_zero_value, marshal_plain, marshal_value, has_blob, marshal_blobs,
}
use tinc_boot.Names.{clean_string, cut_disabled, is_enabled, lower_rune}
use tinc_boot.Tests.Inputs.{alice}
use tinc_boot.Tests.Tables.{json}

abbrev pub local : Local
local = record {
  disk = record {
    conf = some (codes "Name = alice" ++ b'\n' ∷ codes "Interface = tun0");
    hosts = some ((alice, file (codes "Subnet = 10.0.0.1/32")) ∷ []);
  };
  clock = none;
  files = [];
}

abbrev pub cmd : Cmd
cmd = record { name = []; advertise = []; tinc_port = 655; device = []; ip = [] }

abbrev pub machine : Machine
machine = record {
  hostname = alice;
  letters = codes "AB";
  draws = λ i n. 0;
  routable = some (codes "1.2.3.4" ∷ []);
  split_host_port = λ a. none;
}

abbrev pub start : Startup
start = record {
  cmd = cmd;
  machine = machine;
  keygen = λ disk. (disk, true);
  table_file = codes "discovery";
  mkdir_config = false;
  mkdir_hosts = false;
  mkdir_work = false;
  clock_denied = false;
  clock_write = whole;
  table_denied = false;
  faults = no_faults;
  tmp = codes "tmp";
  env = calm;
  create_env = calm;
  index_env = calm;
}

abbrev running_of : Start → Running
running_of (started s) = s
running_of (failed e) = record {
  ssd = new_ssd [];
  daemon = record {
    name = [];
    main = record { name = []; port = 0; local_discovery = false; interface = []; connect_to = [] };
    self = record { subnet = []; address = []; port = 0; public_key = [] };
    status = pending;
    ip = [];
    device_name = [];
  };
  self = [];
  tick = pos 0;
}

abbrev pub first : Running
first = running_of (execute json start local).1

abbrev kept : Local
kept = record local { clock = (execute json start local).0.clock }

abbrev second : Running
second = running_of (execute json start kept).1

abbrev peer : Ssd
peer = record { entities = (alice, record { name = alice; version = pos 1 }) ∷ []; file = [] }

pub first-runs : (execute json start local).1 ≡ started first
unfolding execute count_and_read next_tick write_file read_tick increment parse_int format_int
    trim_space read_table read restore_hosts host_names is_clean make_hosts configure configured
    read_node_config read_main read_node content_at unmarshal main_fields main_parsed node_parsed
    main_of node_fields node_of announce replace store insert save restore_all restore index_hosts
    replace_if_newer index_and_spawn spawn_daemon spawn lookup equal self_address save_main marshal
    all_zero is_zero_value marshal_plain marshal_value clean_string cut_disabled is_enabled
    lower_rune has_blob marshal_blobs
first-runs = refl

second-runs : (execute json start kept).1 ≡ started second
unfolding execute count_and_read next_tick write_file read_tick increment parse_int format_int
    trim_space read_table read restore_hosts host_names is_clean make_hosts configure configured
    read_node_config read_main read_node content_at unmarshal main_fields main_parsed node_parsed
    main_of node_fields node_of announce replace store insert save restore_all restore index_hosts
    replace_if_newer index_and_spawn spawn_daemon spawn lookup equal self_address save_main marshal
    all_zero is_zero_value marshal_plain marshal_value clean_string cut_disabled is_enabled
    lower_rune has_blob marshal_blobs
second-runs = refl

same_self : second.self ≡ first.self
unfolding execute count_and_read next_tick write_file read_tick increment parse_int format_int
    trim_space read_table read restore_hosts host_names is_clean make_hosts configure configured
    read_node_config read_main read_node content_at unmarshal main_fields main_parsed node_parsed
    main_of node_fields node_of announce replace store insert save restore_all restore index_hosts
    replace_if_newer index_and_spawn spawn_daemon spawn lookup equal self_address save_main marshal
    all_zero is_zero_value marshal_plain marshal_value clean_string cut_disabled is_enabled
    lower_rune has_blob marshal_blobs
same_self = refl

peer-knows : known peer first.self ≡ some (record { name = first.self; version = first.tick })
unfolding execute count_and_read next_tick write_file read_tick increment parse_int format_int
    trim_space read_table read restore_hosts host_names is_clean make_hosts configure configured
    read_node_config read_main read_node content_at unmarshal main_fields main_parsed node_parsed
    main_of node_fields node_of announce replace store insert save restore_all restore index_hosts
    replace_if_newer index_and_spawn spawn_daemon spawn lookup equal self_address save_main marshal
    all_zero is_zero_value marshal_plain marshal_value clean_string cut_disabled is_enabled
    lower_rune has_blob marshal_blobs
peer-knows = refl

first-small : first.tick ≢ pos (2 ^ 63 - 1)
unfolding execute count_and_read next_tick write_file read_tick increment parse_int format_int
    trim_space read_table read restore_hosts host_names is_clean make_hosts configure configured
    read_node_config read_main read_node content_at unmarshal main_fields main_parsed node_parsed
    main_of node_fields node_of announce replace store insert save restore_all restore index_hosts
    replace_if_newer index_and_spawn spawn_daemon spawn lookup equal self_address save_main marshal
    all_zero is_zero_value marshal_plain marshal_value clean_string cut_disabled is_enabled
    lower_rune has_blob marshal_blobs
first-small h = cc

restart_example :
    (second.tick ≡ increment first.tick)
    × (first.tick <ℤ second.tick)
    × (can_be_merged peer (record { name = second.self; version = second.tick }) ≡ true)
restart_example =
    restart_lem json start start first second local kept peer first-runs second-runs refl same_self
      peer-knows first-small
