-- ===== src/Lib.antt =====
-- tinc-boot sets up and runs a mesh of tinc VPN nodes. This library models the parts of it that decide
-- what a node knows of the others and what it writes to its configuration directory.
--
-- The parts, and the files that model them:
--  - Names: `CleanString` of types/utils.go, by which every name of a node is admitted.
--  - Config: tincd/config, the parser and printer of tinc's configuration files. A structure is the list
--    of its fields (Config/Fields); `Unmarshal` is Config/Parser, `Marshal` is Config/Marshal, the
--    structures `Main` and `Node` are Config/Types.
--  - Daemon: the methods of `Config` in tincd/daemon/node.go on the configuration directory
--    (Daemon/Hosts), which is a `Disk` of tinc.conf and hosts/ (Daemon/Disk); an `Env` says which calls
--    of the operating system fail. The rest of tincd/daemon: the parser of tinc's output is Daemon/Output,
--    the listeners are Daemon/Bus, the scanner is Daemon/Scanner, `Spawn` with the
--    statuses of the loop is Daemon/Spawning, and `run` with its goroutines is the step relation of
--    Daemon/Process, where a parameter `Calls` says which listeners and commands return.
--  - Discovery: tincd/discovery. The table `SSD` and its file are Discovery/Ssd, a requester's round and
--    the set of requesters are Discovery/Client, the handlers are Discovery/Server, the server that
--    `Configured` makes is Discovery/Http, and two nodes that ask one another are Discovery/Peers.
--  - Boot: tincd/boot. The token and the envelope are Boot/Token, the handler and the client's exchange
--    are Boot/Exchange.
--  - Generator: domain/generator/assemble.go, the configuration of a new node.
--  - Monitor: domain/monitor. `NodeArray` of types.go is Monitor/Nodes, `indexConnectTo` is Monitor/Index,
--    and the service with its handlers is the step relation of Monitor/Service; client.go is
--    Monitor/Client.
--  - Run: cmd/tinc-boot/run/main_linux.go. `nextTick` is Run/Clock, `createConfig` is Run/Setup, and
--    `Execute` up to the running daemon is Run/Start, and what then runs together is the step relation
--    of Run/Together.
--  - Bootstrap: cmd/tinc-boot/node/main.go (Bootstrap/Handler) and cmd/tinc-boot/gen/main.go with the
--    templates of scripts (Bootstrap/Gen), one against the other in Bootstrap/Meeting.
--  - Commands: the commands of tincd/daemon/network_linux.go and of the firewall, the addresses of an
--    interface (cmd/tools.go), and random names.
--  - Text, Numbers, Dict and Prelude: the functions of Go's standard library that the source calls
--    (strings, strconv, bufio, maps), and lemmas that the parts share. Tests: runs at concrete inputs.
--
-- How they interact: the discovery client asks a peer's server for its table and for the hosts that are
-- newer, and merges each under a block that stores the host by `AddHost`; joining stores the new node's
-- host by `AddHost` on the server and the server's hosts by `AddHost` on the client. `AddHost` reads and
-- writes tinc.conf with the parser and the printer. A start counts the clock, reads the table, makes or
-- reads the configuration and announces the node at the tick, by which discovery tells its entry from an
-- older one. The monitor's service stores the hosts that it fetches, and its index adds the public ones
-- to tinc.conf.
--
-- A text is the list of its code points. Each method that holds a lock is one step. The network, the
-- cipher, the hash, random numbers, regexp.MatchString, tincd's key generator, encoding/hex and
-- encoding/json are parameters; a theorem names what it relies on (`IsAead`, `IsCipher`, `IsIntn`,
-- `IsRegexp`, `IsKeygen`, and the law of `Json`). The parser's loop runs on fuel, one unit for each line,
-- which is shown to be enough. A file that opens is read to its end, the header of the table is in the
-- order of the names, and a node's name in the monitor is a name in hosts/. Integers are 64-bit where they
-- are parsed (Numbers) and a port keeps 16 bits.
--
-- Not modelled: the text of error messages and log lines; floats, signed integers, pointers and custom
-- scanners in the configuration parser, which the program's structures do not use; timers, and other
-- processes and goroutines than those of `run` and of a started node, beyond the steps that they run;
-- the systemd file, the pages of the monitor and its event stream; the assembly script, the flags of the
-- command line and the generated assets.
pub mod Boot
pub mod Bootstrap
pub mod Commands
pub mod Config
pub mod Daemon
pub mod Dict
pub mod Discovery
pub mod Generator
pub mod Monitor
pub mod Names
pub mod Numbers
pub mod Prelude
pub mod Run
pub mod Tests
pub mod Text
