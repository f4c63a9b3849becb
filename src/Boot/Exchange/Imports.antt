-- ===== src/Boot/Exchange/Imports.antt =====
-- The loop of `exchange` of tincd/boot/client.go over the archive that the server sends.
use tinc_boot.Prelude.{
  ◌≡◌, ◌≢◌, ◌<◌, refl, sym, subst, ◌∙◌, ap, Bool, true, false, not, ◌&&◌, List, [], ◌∷◌, Option,
  none, some, arith, if◌then◌else◌, inl, inr, ◌⊎◌, In, map, All, Bool-cases,
}
use tinc_boot.Text.{Text, equal}
use tinc_boot.Text.Strings.{byte_len}
use tinc_boot.Dict.{Dict, lookup, insert, lookup-insert}
use tinc_boot.Names.{IsName}
use tinc_boot.Config.Types.{Main}
use tinc_boot.Daemon.Disk.{Disk, Env, calm, Item, file, directory}
use tinc_boot.Daemon.Hosts.{HostError, is_clean, add_host}
use tinc_boot.Daemon.Hosts.Stored.{Stored, linked, linked-IsWritable, IsItem-of_IsName}
use tinc_boot.Daemon.Hosts.Add.{
  entry, IsOpenAt, IsName-of_is_clean, added, add_host-whole, added-Stored, add_host-confined,
}
use tinc_boot.Boot.Exchange.{Exchange, import_host, give_up, announce, import_hosts}

-- A configuration directory in which any host's file can be written.
pub record Ready (disk : Disk) : Type 0 where
  pub entries : Dict Item
  pub is_there : disk.hosts ≡ some entries
  pub files : (name : Text) → lookup name entries ≢ some directory

-- A name of the archive that is clean is fit for a file and a line of tinc.conf.
abbrev pub IsFit : Text × Text → Type 0
IsFit host = is_clean host.0 ≡ true → (host.0 ≢ []) × (byte_len host.0 < 60000)

-- The names for which `Exchanged` is due, in the archive's order.
abbrev pub imported : List (Text × Text) → List Text
imported [] = []
imported ((name, content) ∷ archive) =
    let more = imported archive in if is_clean name then name ∷ more else more

-- The file under a name after an archive is laid over it: the last host of that name counts.
abbrev pub overlay : Text → List (Text × Text) → Option Item → Option Item
overlay other [] old = old
overlay other ((name, content) ∷ archive) old =
    overlay other archive (if is_clean name && equal name other then some (file content) else old)

-- The main configuration with the archive's names among its peers.
abbrev pub link_all : List (Text × Text) → Main → Main
link_all [] m = m
link_all ((name, content) ∷ archive) m =
    link_all archive (if is_clean name then linked name m else m)

insert-files :
    (name content : Text) (entries : Dict Item) (other : Text)
    → lookup other entries ≢ some directory
    → lookup other (insert name (file content) entries) ≢ some directory
insert-files name content entries other h e =
    ground (arith, lookup-insert name other (file content) entries)

pub added-Ready :
    (name content : Text) (m : Main) (disk : Disk) (r : Ready disk)
    → Ready (added name content m r.entries disk)
added-Ready name content m disk r = record {
  entries = insert name (file content) r.entries;
  is_there = refl;
  files = λ other. insert-files name content r.entries other (r.files other);
}

unfoldable pub open_at : (name : Text) (disk : Disk) → Ready disk → IsOpenAt name disk
open_at name disk r = record {
  entries = r.entries;
  is_there = r.is_there;
  no_directory = r.files name;
}

-- What an import of the archive should leave.
abbrev Imported : List (Text × Text) → Main → Disk → Exchange → Type 0
Imported archive m disk x =
    (x.error ≡ none)
    × (x.exchanged ≡ imported archive)
    × ((other : Text) → entry other x.disk ≡ overlay other archive (entry other disk))
    × Stored (link_all archive m) x.disk

import-skip :
    (name content : Text) (archive : List (Text × Text)) (disk : Disk)
    → is_clean name ≡ false
    → import_hosts calm ((name, content) ∷ archive) disk ≡ import_hosts calm archive disk
unfolding import_hosts
import-skip name content archive disk c = rw c

import-take :
    (name content : Text) (archive : List (Text × Text)) (disk disk' : Disk)
    → is_clean name ≡ true
    → add_host calm name content disk ≡ (disk', none)
    → import_hosts calm ((name, content) ∷ archive) disk
      ≡ announce name (import_hosts calm archive disk')
unfolding import_hosts
import-take name content archive disk disk' c a = rw c (rw (ap (λ p. p.1) a) (rw (ap (λ p. p.0) a)))

added-entry :
    (other name content : Text) (m : Main) (disk : Disk) (r : Ready disk)
    → entry other (added name content m r.entries disk)
      ≡ (if equal name other then some (file content) else entry other disk)
added-entry other name content m disk r =
    rw r.is_there (lookup-insert name other (file content) r.entries)

-- With no failing call, on a directory whose tinc.conf the program wrote and whose hosts/ has no
-- directories, the import of an archive whose clean names have 1 to 59999 bytes ends without an error;
-- `Exchanged` is called for
-- each clean name in the archive's order, the files of hosts/ are the old ones with the archive's
-- clean hosts laid over them, and tinc.conf has their names among its peers. Names that are not
-- clean leave no trace.
pub import_hosts_lem :
    (archive : List (Text × Text)) (m : Main) (disk : Disk)
    → All IsFit archive
    → Ready disk
    → Stored m disk
    → ((import_hosts calm archive disk).error ≡ none)
      × ((import_hosts calm archive disk).exchanged ≡ imported archive)
      × ((other : Text)
          → entry other (import_hosts calm archive disk).disk
            ≡ overlay other archive (entry other disk))
      × Stored (link_all archive m) (import_hosts calm archive disk).disk
unfolding import_hosts open_at
import_hosts_lem [] m disk f r s = (refl, refl, (λ other. refl), s)
import_hosts_lem ((name, content) ∷ archive) m disk f r s = elim (Bool-cases (is_clean name)) [
  | inl c ↦
      let (ne, short) = f.0 c in
      let clean = IsName-of_is_clean name c in
      let disk' = added name content m r.entries disk in
      let whole = add_host-whole name content m disk clean ne (open_at name disk r) s in
      let kept =
        added-Stored name content m r.entries disk
          (linked-IsWritable name m (IsItem-of_IsName name clean ne short) s.writable) s in
      let (quiet, names, files, stored) =
        import_hosts_lem archive (linked name m) disk' f.1 (added-Ready name content m disk r)
          kept in
      subst (Imported ((name, content) ∷ archive) m disk)
        (sym (import-take name content archive disk disk' c whole))
        (rw c (
          quiet,
          ap (name ∷◌) names,
          (λ other.
              files other ∙ ap (overlay other archive) (added-entry other name content m disk r)),
          stored,
        ))
  | inr c ↦
      subst (Imported ((name, content) ∷ archive) m disk)
        (sym (import-skip name content archive disk c))
        (rw c (import_hosts_lem archive m disk f.1 r s))
]

-- Whatever the archive holds and whatever fails, the import changes only entries of hosts/ whose
-- name has just the characters a-z and 0-9 and stands in the archive.
pub import_hosts-confined :
    (system : Env) (archive : List (Text × Text)) (disk : Disk) (other : Text)
    → (entry other (import_hosts system archive disk).disk ≡ entry other disk)
      ⊎ (IsName other × In other (map (λ h. h.0) archive))
unfolding import_hosts
import_hosts-confined system [] disk other = inl refl
import_hosts-confined system ((name, content) ∷ archive) disk other =
    chosen (is_clean name) (add_host system name content disk)
      (add_host-confined system name content disk other)
      (import_hosts-confined system archive disk other)
      (import_hosts-confined system archive (add_host system name content disk).0 other)
  where
    chosen :
        (clean : Bool) (w : Disk × Option HostError)
        → (entry other w.0 ≡ entry other disk) ⊎ ((other ≡ name) × IsName name)
        → (entry other (import_hosts system archive disk).disk ≡ entry other disk)
          ⊎ (IsName other × In other (map (λ h. h.0) archive))
        → (entry other (import_hosts system archive w.0).disk ≡ entry other w.0)
          ⊎ (IsName other × In other (map (λ h. h.0) archive))
        → (entry other
              (if not clean then import_hosts system archive disk else elim w.1 [
                | some e ↦ give_up (import_host e) w.0
                | none ↦ announce name (import_hosts system archive w.0)
              ]).disk
            ≡ entry other disk)
          ⊎ (IsName other × In other (name ∷ map (λ h. h.0) archive))
    chosen false w c s r = elim s [ inl e ↦ inl e | inr (n, i) ↦ inr (n, inr i) ]
    chosen true (d, some e) (inl same) s r = inl same
    chosen true (d, some e) (inr (eq, n)) s r = inr (subst IsName (sym eq) n, inl (sym eq))
    chosen true (d, none) (inr (eq, n)) s r = inr (subst IsName (sym eq) n, inl (sym eq))
    chosen true (d, none) (inl same) s (inl kept) = inl (kept ∙ same)
    chosen true (d, none) (inl same) s (inr (n, i)) = inr (n, inr i)
