-- ===== src/Daemon/Hosts/Listing.antt =====
-- `Hosts` of tincd/daemon/node.go: what it lists.
use tinc_boot.Prelude.{
  ◌≡◌, refl, sym, ◌∙◌, Bool, true, false, List, [], ◌∷◌, some, arith, if◌then◌else◌, In, inl, inr,
  Bool-cases, Option-cases, subst,
}
use tinc_boot.Text.{Text, equal, equal_iff}
use tinc_boot.Dict.{Dict, lookup}
use tinc_boot.Names.{IsName}
use tinc_boot.Daemon.Disk.{Item, file, directory, Disk, calm}
use tinc_boot.Daemon.Hosts.{ok, is_clean, hosts, contents_of, cons_host}
use tinc_boot.Daemon.Hosts.Add.{entry, is_clean_iff}

-- The files of a directory with a clean name.
clean_files : Dict Item → List (Text × Text)
clean_files [] = []
clean_files ((name, directory) ∷ rest) = clean_files rest
clean_files ((name, file content) ∷ rest) =
    let more = clean_files rest in if is_clean name then (name, content) ∷ more else more

contents_of-calm : (entries : Dict Item) → contents_of calm entries ≡ ok (clean_files entries)
unfolding contents_of clean_files cons_host
contents_of-calm [] = refl
contents_of-calm ((name, directory) ∷ rest) = contents_of-calm rest
contents_of-calm ((name, file content) ∷ rest) = elim (Bool-cases (is_clean name)) [
  | inl e ↦ rw e (rw (contents_of-calm rest))
  | inr e ↦ rw e (contents_of-calm rest)
]

clean_files-In :
    (entries : Dict Item) (name content : Text)
    → is_clean name ≡ true
    → lookup name entries ≡ some (file content)
    → In (name, content) (clean_files entries)
unfolding clean_files lookup
clean_files-In [] name content h l = cc
clean_files-In ((key, directory) ∷ rest) name content h l =
    clean_files-In rest name content h (ground arith)
clean_files-In ((key, file c) ∷ rest) name content h l = elim (Bool-cases (equal key name)) [
  | inl e ↦ rw (clean_key e) (inl (pair ((equal_iff key name).0 e) (ground arith)))
  | inr e ↦ kept (is_clean key) (clean_files-In rest name content h (ground arith))
]
  where
    clean_key : equal key name ≡ true → is_clean key ≡ true
    clean_key e = subst (λ n. is_clean n ≡ true) (sym ((equal_iff key name).0 e)) h

    pair : key ≡ name → c ≡ content → ◌≡◌ {A = Text × Text} (key, c) (name, content)
    pair e f = cc

    kept :
        (b : Bool)
        → In (name, content) (clean_files rest)
        → In (name, content) (if b then (key, c) ∷ clean_files rest else clean_files rest)
    kept true i = inr i
    kept false i = i

-- With no failing call, `Hosts` lists every file of hosts/ that has a clean name, with its content.
pub hosts_complete :
    (disk : Disk) (name content : Text)
    → IsName name
    → entry name disk ≡ some (file content)
    → (known : List (Text × Text)) × (hosts calm disk ≡ ok known) × In (name, content) known
unfolding hosts
hosts_complete disk name content h l = elim (Option-cases disk.hosts) [
  | inl e ↦ ground (arith, e)
  | inr (entries, e) ↦ (
    clean_files entries,
    rw e (contents_of-calm entries),
    clean_files-In entries name content (is_clean_iff name h) (sym (at e) ∙ l),
  )
]
  where
    at : {entries : Dict Item} → disk.hosts ≡ some entries → entry name disk ≡ lookup name entries
    at e = rw e
