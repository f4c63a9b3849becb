-- ===== src/Run/Together/Started.antt =====
-- The hosts of a node that `Execute` of cmd/tinc-boot/run/main_linux.go has started on an existing
-- configuration.
use tinc_boot.Prelude.{
  false, ◌≡◌, refl, sym, subst, ◌∙◌, true, List, [], ◌∷◌, none, some, In, ◌⊎◌, inl, inr, arith,
  Bool-cases, Option-cases,
}
use tinc_boot.Prelude.Int.{pos, ◌<ℤ◌}
use tinc_boot.Text.{Text, equal, equal_iff}
use tinc_boot.Numbers.{format_int}
use tinc_boot.Names.{IsName}
use tinc_boot.Dict.{Dict, IsMap}
use tinc_boot.Config.Types.{Main, Node}
use tinc_boot.Daemon.Disk.{
  Item, file, Disk, Env, calm, content_at, read_main, read_node, read_node_config,
}
use tinc_boot.Daemon.Hosts.{configured}
use tinc_boot.Daemon.Hosts.Add.{entry}
use tinc_boot.Daemon.Hosts.Filed.{IsFiled, host_names-IsFiled}
use tinc_boot.Discovery.Ssd.{Entity, Ssd, new_ssd, replace}
use tinc_boot.Discovery.Ssd.Storage.{Json, read}
use tinc_boot.Discovery.Ssd.Versions.{known, known-store}
use tinc_boot.Discovery.Server.{get_one, asked_version}
use tinc_boot.Run.Start.{
  Local, Startup, started, Running, restore, restore_all, make_hosts, execute,
}
use tinc_boot.Run.Start.Restarting.{execute-Restored}
use tinc_boot.Run.Together.{Shared, Reach}
use tinc_boot.Run.Together.Backed.{IsBacked, merged-from, known-served}
use tinc_boot.Run.Together.Settling.{Settles, execute-Settles}

content_at-entry :
    (env : Env) (name content : Text) (disk : Disk)
    → content_at env name disk ≡ some content
    → entry name disk ≡ some (file content)
unfolding content_at
content_at-entry env name content disk h = ground arith

-- The node whose configuration is read has a host's file.
read_node_config-IsFiled :
    (env : Env) (disk : Disk) (main : Main) (node : Node)
    → IsName main.name
    → read_node_config env disk ≡ some (main, node)
    → IsFiled disk main.name
unfolding read_node_config read_node content_at
read_node_config-IsFiled env disk main node clean h = elim (Option-cases (read_main env disk)) [
  | inl e ↦ absurd (ground (arith, e))
  | inr (own, e) ↦ elim (Option-cases (content_at env own.name disk)) [
    | inl f ↦ absurd (ground (arith, e, f))
    | inr (content, f) ↦
        let same : own ≡ main = ground (arith, e, f) in
        record {
          clean = clean;
          content = content;
          filed =
              content_at-entry env main.name content disk
                (subst (λ m. content_at env m.name disk ≡ some content) same f);
        }
  ]
]

-- What the loop over the names leaves in a table stood there before, or is one of the names.
restore_all-from :
    (names : List Text) (ssd : Ssd) (name : Text) (e : Entity)
    → known (restore_all ssd names) name ≡ some e
    → (known ssd name ≡ some e) ⊎ In name names
unfolding restore_all restore
restore_all-from [] ssd name e h = inl h
restore_all-from (n ∷ names) ssd name e h = elim (restore_all-from names (restore ssd n) name e h) [
  | inr later ↦ inr (inr later)
  | inl here ↦
      elim (merged-from {W = Unit {0}} ssd (record { name = n; version = pos 0 }) none tt name e
        here) [ inl old ↦ inl old | inr (same, _) ↦ inr (inl same) ]
]

known-other :
    (ssd : Ssd) (info : Entity) (name : Text)
    → equal info.name name ≡ false
    → known (replace ssd info) name ≡ known ssd name
unfolding replace
known-other ssd info name other = known-store ssd info name ∙ rw other refl

IsFiled-hosts :
    (disk disk' : Disk) (name : Text)
    → disk'.hosts ≡ disk.hosts
    → IsFiled disk name
    → IsFiled disk' name
IsFiled-hosts disk disk' name same f = record {
  clean = f.clean;
  content = f.content;
  filed = rw same f.filed;
}

module _ (json : Json) (su : Startup) (s : Running) (l : Local) (entries : Dict Item)
    (configured_before : configured su.env (make_hosts l.disk) ≡ true)
    (listed : (make_hosts l.disk).hosts ≡ some entries) (entries-IsMap : IsMap entries)
    (self-IsName : IsName s.self)
    (table_filed : (name : Text) (e : Entity)
      → known (read json su.table_denied l.files (new_ssd su.table_file)).0 name ≡ some e
      → IsFiled (make_hosts l.disk) name)
    (begun : (execute json su l).1 ≡ started s) where
  start-IsFiled :
      (name : Text) (e : Entity) → known s.ssd name ≡ some e → IsFiled (make_hosts l.disk) name
  unfolding Settles
  start-IsFiled name e h =
      let (_, _, (names, found, table)) = execute-Restored json su s l begun in
      let ((main, node, own, self), _) = execute-Settles json su s l configured_before begun in
      let loaded = (read json su.table_denied l.files (new_ssd su.table_file)).0 in
      elim (Bool-cases (equal s.self name)) [
        | inl same ↦
            subst (IsFiled (make_hosts l.disk)) (sym self ∙ (equal_iff s.self name).0 same) (
              read_node_config-IsFiled su.env (make_hosts l.disk) main node
                (subst IsName self self-IsName) own)
        | inr other ↦
            elim (restore_all-from names loaded name e (
              sym (
                known-other (restore_all loaded names) (record { name = s.self; version = s.tick })
                  name other)
              ∙ subst (λ t. known t name ≡ some e) table h)) [
                | inl old ↦ table_filed name e old
                | inr i ↦
                    host_names-IsFiled su.env (make_hosts l.disk) entries names name listed
                      entries-IsMap found i
              ]
      ]

  start-IsBacked : IsBacked (record { ssd = s.ssd; disk = (execute json su l).0.disk; due = [] })
  unfolding Settles
  start-IsBacked = record {
    known_filed = λ name e h.
        IsFiled-hosts (make_hosts l.disk) (execute json su l).0.disk name
          (execute-Settles json su s l configured_before begun).1 (start-IsFiled name e h);
    due_filed = λ name i. absurd i;
  }

  -- A node that starts on a configured directory whose hosts/ names each entry once, under a clean
  -- name, and whose table file knew only nodes with a host's file, serves every node that it knows, in
  -- whatever order its parts take their steps afterwards, whatever its peers send, and whatever calls
  -- fail: when no call fails for the discovery server, a request for a node that the table knows at a
  -- newer version than the asked one is answered with status 200, the node's name and version, and a
  -- file.
  pub started-served :
      {t : Shared} (name after : Text) (e : Entity)
      → Reach (record { ssd = s.ssd; disk = (execute json su l).0.disk; due = [] }) t
      → known t.ssd name ≡ some e
      → asked_version after <ℤ e.version
      → (content : Text) × (get_one calm t.ssd t.disk name after ≡ record {
        status = 200;
        x_name = e.name;
        x_version = format_int e.version;
        body = some content;
      })
  started-served name after e r k v = known-served name after e start-IsBacked r k v
