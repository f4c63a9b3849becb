-- ===== src/Daemon/Disk.antt =====
-- The configuration directory as the program sees it: tinc.conf and the directory of hosts, with
-- `SaveFile`, `ReadFile` and `ReadNodeConfig` of tincd/config/types.go on it. What the operating
-- system makes of a call is given by an `Env`.
use tinc_boot.Prelude.{Bool, true, false, [], ◌∷◌, Option, none, some, if◌then◌else◌}
use tinc_boot.Text.{Text}
use tinc_boot.Dict.{Dict, lookup, insert}
use tinc_boot.Config.Parser.{Parsed, ok, err, unmarshal}
use tinc_boot.Config.Marshal.{marshal}
use tinc_boot.Config.Types.{
  Main, Node, main_fields, main_of, zero_main, node_fields, node_of, zero_node,
}

pub data Item : Type 0 where
  file : Text → Item
  directory : Item

pub record Disk : Type 0 where
  -- the content of tinc.conf, if there is one
  pub conf : Option Text
  -- the entries of hosts/, if there is such a directory
  pub hosts : Option (Dict Item)

-- What becomes of a write: all of it is written; the file is not opened; the write stops with an
-- error, or so does the closing; or it stops in the deferred `Flush` of `MarshalStream`, whose error
-- is dropped.
pub data Outcome : Type 0 where
  whole : Outcome
  not_opened : Outcome
  cut : Text → Outcome
  cut_in_flush : Text → Outcome

-- Which calls fail.
pub record Env : Type 0 where
  pub read_dir : Bool
  pub read_host : Text → Bool
  pub read_conf : Bool
  pub write_host : Outcome
  pub write_conf : Outcome

abbrev pub calm : Env
calm = record {
  read_dir = false;
  read_host = λ _. false;
  read_conf = false;
  write_host = whole;
  write_conf = whole;
}

-- The result of a call that can fail, or `none` for its error.
unfoldable pub content_at : Env → Text → Disk → Option Text
content_at env name disk = elim disk.hosts [
  | none ↦ none
  | some entries ↦ elim (lookup name entries) [
    | none ↦ none
    | some directory ↦ none
    | some (file content) ↦ if env.read_host name then none else some content
  ]
]

unfoldable pub main_parsed : Parsed → Option Main
main_parsed (ok fields) = some (main_of fields)
main_parsed (err _ _) = none

unfoldable pub node_parsed : Parsed → Option Node
node_parsed (ok fields) = some (node_of fields)
node_parsed (err _ _) = none

-- `ReadFile` at tinc.conf, with a fresh `Main` as its target. A file that opens is read to its end.
unfoldable pub read_main : Env → Disk → Option Main
unfolding main_parsed
read_main env disk = if env.read_conf then none else elim disk.conf [
  | none ↦ none
  | some content ↦ main_parsed (unmarshal content (main_fields zero_main))
]

-- `ReadFile` at a host's file, with a fresh `Node` as its target.
unfoldable pub read_node : Env → Text → Disk → Option Node
unfolding node_parsed content_at
read_node env name disk = elim (content_at env name disk) [
  | none ↦ none
  | some content ↦ node_parsed (unmarshal content (node_fields zero_node))
]

-- `ReadNodeConfig`
unfoldable pub read_node_config : Env → Disk → Option (Main × Node)
unfolding read_main read_node
read_node_config env disk = elim (read_main env disk) [
  | none ↦ none
  | some main ↦ elim (read_node env main.name disk) [ none ↦ none | some node ↦ some (main, node) ]
]

-- `SaveFile` at tinc.conf; the flag is false for an error.
unfoldable pub save_main : Env → Main → Disk → Disk × Bool
save_main env main disk = elim env.write_conf [
  | whole ↦ (record disk { conf = some (marshal (main_fields main)) }, true)
  | not_opened ↦ (disk, false)
  | cut part ↦ (record disk { conf = some part }, false)
  | cut_in_flush part ↦ (record disk { conf = some part }, true)
]

-- `ioutil.WriteFile`, which has no buffer to flush: what the file holds afterwards, and whether there
-- is no error.
unfoldable pub write_file : Outcome → Text → Option Text → Option Text × Bool
write_file whole content old = (some content, true)
write_file not_opened content old = (old, false)
write_file (cut part) content old = (some part, false)
write_file (cut_in_flush part) content old = (some part, false)

-- What a write of hosts/name leaves, and whether it returns no error.
unfoldable pub written : Outcome → Text → Text → Dict Item → Dict Item × Bool
written whole name content entries = (insert name (file content) entries, true)
written not_opened name content entries = (entries, false)
written (cut part) name content entries = (insert name (file part) entries, false)
written (cut_in_flush part) name content entries = (insert name (file part) entries, false)

-- `ioutil.WriteFile` at hosts/name. An empty name is the directory itself.
unfoldable pub write_entry : Env → Text → Text → Dict Item → Dict Item × Bool
write_entry env name content entries = elim (lookup name entries) [
  | some directory ↦ (entries, false)
  | _ ↦ written env.write_host name content entries
]

unfoldable pub write_host : Env → Text → Text → Disk → Disk × Bool
unfolding write_entry
write_host env [] content disk = (disk, false)
write_host env (c ∷ name) content disk = elim disk.hosts [
  | none ↦ (disk, false)
  | some entries ↦
      let (entries', done) = write_entry env (c ∷ name) content entries in
      (record disk { hosts = some entries' }, done)
]
