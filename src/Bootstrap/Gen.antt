-- ===== src/Bootstrap/Gen.antt =====
-- cmd/tinc-boot/gen/main.go: the flags of `gen`, and what the machine supplies. The binary's copy and
-- the paths are not modelled: a file of the directory goes by its name.
pub mod Files
pub mod Windows
pub mod Requests
pub mod Execute
use tinc_boot.Prelude.{ℕ, Bool, List, Option}
use tinc_boot.Prelude.Int.{ℤ}
use tinc_boot.Text.{Text}
use tinc_boot.Dict.{Dict}
use tinc_boot.Daemon.Disk.{Disk, Outcome}
use tinc_boot.Boot.Token.{Bytes}
use tinc_boot.Generator.{Draws}

-- `Cmd`
pub record Cmd : Type 0 where
  pub network : Text
  pub name : Text
  pub token : Text
  pub prefix : Text
  pub mask : ℤ
  pub no_gen_key : Bool
  pub port : ℤ
  pub connect_to : List Text
  pub public : List Text
  pub standalone : Bool
  pub urls : List Text

-- The answer of a boot node: its status, its header `X-Node`, and its body, which may fail to be read.
pub record Response : Type 0 where
  pub status : ℕ
  pub node : Text
  pub body : Option Bytes

-- The POST of a payload at a URL; an error is a missing response.
abbrev pub Post : Type 0
Post = Text → Bytes → Option Response

-- What the machine supplies. `listen` gives the port of a listener, `binary` the absolute path of the
-- flag, `keygen` is tincd's, and a flag is true for a call that fails.
pub record Machine : Type 0 where
  pub hostname : Option Text
  pub binary : Option Text
  pub draws : Draws
  pub listen : ℤ → Option ℕ
  pub copy_fails : Bool
  pub mkdir_fails : Text → Bool
  pub script_write : Text → Outcome
  pub chmod_fails : Text → Bool
  pub keygen : Disk → Disk × Bool
  pub post : Post

-- The directory of the network: tinc.conf with hosts/, and the scripts by name.
pub record Folder : Type 0 where
  pub disk : Disk
  pub scripts : Dict Text
