-- ===== src/Monitor/Index.antt =====
-- `indexConnectTo` of domain/monitor/service.go. `regexp.MatchString` is the standard library's: it is
-- a parameter.
pub mod Links
pub mod Runs
use tinc_boot.Prelude.{
  ℕ, Bool, true, false, ◌&&◌, ◌||◌, List, [], ◌∷◌, ◌++◌, Option, none, some, if◌then◌else◌, ◌==◌,
  drop,
}
use tinc_boot.Text.{Text, codes, equal}
use tinc_boot.Text.Strings.{contains}
use tinc_boot.Dict.{Dict}
use tinc_boot.Daemon.Disk.{Disk, Env, Item, file, directory, Outcome, write_file}

pub data IndexError : Type 0 where
  list_hosts read_host read_conf bad_pattern write_conf : IndexError

-- `regexp.MatchString(pattern, text)`, `none` for a pattern that does not compile.
abbrev pub Matches : Type 0
Matches = Text → Text → Option Bool

-- The pattern of `indexConnectTo` for a name.
unfoldable pub connect_pattern : Text → Text
connect_pattern name = codes "(?m)^ConnectTo[ ]*=[ ]*" ++ (name ++ codes "$")

-- The loop over the entries of hosts/; `none` is a file that cannot be read.
unfoldable pub public_names : Env → Text → Dict Item → Option (List Text)
public_names env self [] = some []
public_names env self ((name, directory) ∷ rest) = public_names env self rest
public_names env self ((name, file content) ∷ rest) =
    let more = public_names env self rest in
    if equal name self then more else if env.read_host name then none else elim more [
      | none ↦ none
      | some names ↦ if contains content (codes "Address") then some (name ∷ names) else some names
    ]

-- `"ConnectTo = " + publicNode + "\n" + text`
unfoldable pub prepend_link : Text → Text → Text
prepend_link name text = codes "ConnectTo = " ++ (name ++ b'\n' ∷ text)

-- The loop over the public nodes.
unfoldable pub link_missing : Matches → List Text → Text → Option Text
unfolding connect_pattern prepend_link
link_missing matches [] text = some text
link_missing matches (name ∷ names) text = elim (matches (connect_pattern name) text) [
  | none ↦ none
  | some matched ↦ link_missing matches names (if matched then text else prepend_link name text)
]

module _ (matches : Matches) (env : Env) (self : Text) where
  -- `indexConnectTo` from the reading of tinc.conf on.
  unfoldable pub index_conf : List Text → Disk → Disk × Option IndexError
  index_conf names disk = if env.read_conf then (disk, some read_conf) else elim disk.conf [
    | none ↦ (disk, some read_conf)
    | some content ↦ elim (link_missing matches names content) [
      | none ↦ (disk, some bad_pattern)
      | some text ↦
          let (conf, done) = write_file env.write_conf text (some content) in
          (record disk { conf = conf }, if done then none else some write_conf)
    ]
  ]

  -- `indexConnectTo`
  unfoldable pub index_connect_to : Disk → Disk × Option IndexError
  index_connect_to disk = if env.read_dir then (disk, some list_hosts) else elim disk.hosts [
    | none ↦ (disk, some list_hosts)
    | some entries ↦ elim (public_names env self entries) [
      | none ↦ (disk, some read_host)
      | some names ↦ index_conf names disk
    ]
  ]
