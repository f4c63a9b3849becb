-- ===== src/Boot/Exchange/Accepted.antt =====
-- What `Run` and `exchange` of tincd/boot/client.go have done when `Complete` is called.
use tinc_boot.Prelude.{◌≡◌, false, List, some, ◌⊎◌, All}
use tinc_boot.Text.{Text}
use tinc_boot.Daemon.Disk.{Disk}
use tinc_boot.Daemon.Hosts.{ok, host, is_clean}
use tinc_boot.Daemon.Hosts.Filed.{IsFiled}
use tinc_boot.Boot.Token.{Bytes, Crypto, Json, decrypt, seal_envelope}
use tinc_boot.Boot.Exchange.{Exchange, Attempt, import_hosts}

-- A host of an archive is one that the import skips, or it has a file.
abbrev pub IsImported : Disk → Text × Text → Type 0
IsImported disk (name, content) = (is_clean name ≡ false) ⊎ IsFiled disk name

-- An exchange that ended without an error.
pub record Accepted (crypto : Crypto) (json : Json) (token : Text) (a : Attempt)
    (before after : Disk) : Type 0 where
  pub name : Text
  pub config : Text
  pub box : Bytes
  pub body : Bytes
  pub plain : Bytes
  pub archive : List (Text × Text)
  -- what was sent
  pub own : host a.system name before ≡ ok config
  pub sealed :
      seal_envelope crypto json a.random token (record { name = name; config = config }) ≡ some box
  -- what came back
  pub answered : a.post box ≡ some (200, some body)
  pub opened : decrypt crypto token body ≡ some plain
  pub decoded : json.decode_hosts plain ≡ some archive
  -- what it left
  pub left : after ≡ (import_hosts a.system archive before).disk
  pub imported : All (IsImported after) archive
