-- ===== src/Daemon/Hosts/Filed.antt =====
-- The hosts that have a file, and how `AddHost` of tincd/daemon/node.go keeps them, whatever fails.
use tinc_boot.Prelude.{
  ◌≡◌, refl, sym, subst, ap, ◌∙◌, Bool, true, false, not, [], ◌∷◌, List, Option, none, some, In,
  ◌⊎◌, inl, inr, arith, if◌then◌else◌, Bool-cases, Option-cases,
}
use tinc_boot.Text.{Text, equal_iff, equal_refl}
use tinc_boot.Dict.{Dict, lookup, lookup-insert, IsMap}
use tinc_boot.Names.{IsName}
use tinc_boot.Daemon.Disk.{
  Item, file, directory, Disk, Env, Outcome, whole, not_opened, cut, cut_in_flush, written,
  write_entry, write_host, content_at, calm,
}
use tinc_boot.Daemon.Hosts.{
  save_host, is_clean, link_host, add_host, host, host_names, names_of, ok,
}
use tinc_boot.Daemon.Hosts.Add.{
  entry, is_clean_iff, IsName-of_is_clean, link_host-hosts, add_host-confined,
}

-- The name is clean and its entry of hosts/ is a file.
pub record IsFiled (disk : Disk) (name : Text) : Type 0 where
  pub clean : IsName name
  pub content : Text
  pub filed : entry name disk ≡ some (file content)

abbrev IsFile : Option Item → Type 0
IsFile o = (content : Text) × (o ≡ some (file content))

written-IsFile :
    (o : Outcome) (name content : Text) (entries : Dict Item)
    → IsFile (lookup name entries)
    → IsFile (lookup name (written o name content entries).0)
unfolding written
written-IsFile whole name content entries h =
    (content, lookup-insert name name (file content) entries ∙ rw equal_refl)
written-IsFile not_opened name content entries h = h
written-IsFile (cut part) name content entries h =
    (part, lookup-insert name name (file part) entries ∙ rw equal_refl)
written-IsFile (cut_in_flush part) name content entries h =
    (part, lookup-insert name name (file part) entries ∙ rw equal_refl)

write_entry-IsFile :
    (env : Env) (name content : Text) (entries : Dict Item)
    → IsFile (lookup name entries)
    → IsFile (lookup name (write_entry env name content entries).0)
unfolding write_entry
write_entry-IsFile env name content entries (old, h) =
    rw (h, write_entry) (written-IsFile env.write_host name content entries (old, h))

write_host-IsFile :
    (env : Env) (name content : Text) (disk : Disk)
    → IsFile (entry name disk)
    → IsFile (entry name (write_host env name content disk).0)
unfolding write_host
write_host-IsFile env [] content disk h = h
write_host-IsFile env (c ∷ name) content disk h = elim (Option-cases disk.hosts) [
  | inl e ↦ absurd (ground (arith, h.1))
  | inr (entries, e) ↦
      rw (e, write_host) (write_entry-IsFile env (c ∷ name) content entries (rw e at h))
]

written-whole :
    (o : Outcome) (name content : Text) (entries : Dict Item)
    → (written o name content entries).1 ≡ true
    → lookup name (written o name content entries).0 ≡ some (file content)
unfolding written
written-whole whole name content entries h =
    lookup-insert name name (file content) entries ∙ rw equal_refl
written-whole not_opened name content entries h = cc
written-whole (cut part) name content entries h = cc
written-whole (cut_in_flush part) name content entries h = cc

pub write_host-filed :
    (env : Env) (name content : Text) (disk : Disk)
    → (write_host env name content disk).1 ≡ true
    → entry name (write_host env name content disk).0 ≡ some (file content)
unfolding write_host write_entry
write_host-filed env [] content disk h = cc
write_host-filed env (c ∷ name) content disk h = split disk.hosts refl h
  where
    split :
        (o : Option (Dict Item))
        → disk.hosts ≡ o
        → (write_host env (c ∷ name) content disk).1 ≡ true
        → entry (c ∷ name) (write_host env (c ∷ name) content disk).0 ≡ some (file content)
    split none e k = absurd (ground arith)
    split (some entries) e k =
        ground (arith, written-whole env.write_host (c ∷ name) content entries)

-- What follows the writing of the file leaves hosts/ alone.
finished :
    (env : Env) (name other : Text) (w : Disk × Bool)
    → entry other (if not w.1 then (w.0, some save_host) else link_host env name w.0).0
      ≡ entry other w.0
finished env name other (d, true) =
    ap (λ hs. elim hs [ none ↦ none | some entries ↦ lookup other entries ])
      (link_host-hosts env name d)
finished env name other (d, false) = refl

add_host-entry :
    (env : Env) (name content : Text) (disk : Disk) (other : Text)
    → is_clean name ≡ true
    → entry other (add_host env name content disk).0
      ≡ entry other (write_host env name content disk).0
unfolding add_host
add_host-entry env name content disk other c =
    rw c (finished env name other (write_host env name content disk))

-- A file that is there stays there.
pub add_host-IsFiled :
    (env : Env) (name content : Text) (disk : Disk) (other : Text)
    → IsFiled disk other
    → IsFiled (add_host env name content disk).0 other
add_host-IsFiled env name content disk other f =
    elim (add_host-confined env name content disk other) [
      | inl same ↦ record { clean = f.clean; content = f.content; filed = same ∙ f.filed }
      | inr (own, clean) ↦
          let there = subst (λ n. entry n disk ≡ some (file f.content)) own f.filed in
          let (left, kept) = write_host-IsFile env name content disk (f.content, there) in
          subst (IsFiled (add_host env name content disk).0) (sym own) (record {
            clean = clean;
            content = left;
            filed = add_host-entry env name content disk name (is_clean_iff name clean) ∙ kept;
          })
    ]

accepted_write :
    (env : Env) (name : Text) (w : Disk × Bool)
    → (if not w.1 then (w.0, some save_host) else link_host env name w.0).1 ≡ none
    → w.1 ≡ true
accepted_write env name (d, true) h = refl
accepted_write env name (d, false) h = cc

-- Where `AddHost` returns no error, the name is clean and its file holds the content.
pub add_host-files :
    (env : Env) (name content : Text) (disk : Disk)
    → (add_host env name content disk).1 ≡ none
    → IsFiled (add_host env name content disk).0 name
unfolding add_host
add_host-files env name content disk h = elim (Bool-cases (is_clean name)) [
  | inr dirty ↦ absurd (ground arith)
  | inl clean ↦ record {
    clean = IsName-of_is_clean name clean;
    content = content;
    filed =
        unfold add_host in
        add_host-entry env name content disk name clean
        ∙ write_host-filed env name content disk
            (accepted_write env name (write_host env name content disk) (rw clean at h));
  }
]

-- A filed host is read where no call fails.
pub host-IsFiled :
    (disk : Disk) (name : Text) (f : IsFiled disk name) → host calm name disk ≡ ok f.content
unfolding host content_at
host-IsFiled disk name f = rw (is_clean_iff name f.clean) (ground (arith, f.filed))

-- The names that `HostNames` lists in a directory are filed.
names_of-IsFile :
    (entries : Dict Item) (name : Text)
    → IsMap entries
    → In name (names_of entries)
    → (is_clean name ≡ true) × IsFile (lookup name entries)
unfolding names_of lookup
names_of-IsFile [] name m i = absurd i
names_of-IsFile ((key, directory) ∷ rest) name m i =
    let (clean, (content, there)) = names_of-IsFile rest name m.1 i in
    (clean, (content, ground (arith, equal_iff key name)))
names_of-IsFile ((key, file c) ∷ rest) name m i = elim (Bool-cases (is_clean key)) [
  | inr dirty ↦
      let (clean, (content, there)) = names_of-IsFile rest name m.1 (rw dirty at i) in
      (clean, (content, ground (arith, equal_iff key name)))
  | inl own ↦ elim (first_or key (names_of rest) (rw own at i)) [
    | inl same ↦ (subst (λ n. is_clean n ≡ true) same own, (c, ground (arith, equal_iff key name)))
    | inr later ↦
        let (clean, (content, there)) = names_of-IsFile rest name m.1 later in
        (clean, (content, ground (arith, equal_iff key name)))
  ]
]
  where
    first_or : (key : Text) (more : List Text) → In name (key ∷ more) → (key ≡ name) ⊎ In name more
    first_or key more j = j

pub host_names-IsFiled :
    (env : Env) (disk : Disk) (entries : Dict Item) (names : List Text) (name : Text)
    → disk.hosts ≡ some entries
    → IsMap entries
    → host_names env disk ≡ ok names
    → In name names
    → IsFiled disk name
unfolding host_names
host_names-IsFiled env disk entries names name e m h i =
    let same : names_of entries ≡ names = ground arith in
    let (clean, file_there) = names_of-IsFile entries name m (subst (In name) (sym same) i) in
    record {
      clean = IsName-of_is_clean name clean;
      content = file_there.0;
      filed = rw e (file_there.1);
    }
