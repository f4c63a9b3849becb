-- ===== src/Daemon/Hosts/Add.antt =====
-- `AddHost` of tincd/daemon/node.go: what it writes, and what it leaves alone.
use tinc_boot.Prelude.{
  ◌<◌, ◌≡◌, ◌≢◌, refl, ap, ◌∙◌, sym, Bool, true, false, not, [], ◌∷◌, Option, none, some, arith,
  if◌then◌else◌, inl, inr, ◌⊎◌, Bool-cases, Option-cases,
}
use tinc_boot.Text.{Text, equal, equal_iff}
use tinc_boot.Text.Strings.{byte_len}
use tinc_boot.Dict.{Dict, lookup, insert, lookup-insert}
use tinc_boot.Names.{IsName, clean_test_iff}
use tinc_boot.Config.Types.{Main, main_fields}
use tinc_boot.Config.Marshal.{marshal}
use tinc_boot.Config.RoundTrip.{IsWritable}
use tinc_boot.Daemon.Disk.{
  Item, file, directory, Disk, Env, Outcome, whole, not_opened, cut, cut_in_flush, calm, read_main,
  save_main, write_host, write_entry, written,
}
use tinc_boot.Daemon.Hosts.{
  malformed_name, save_host, is_clean, is_listed, connect, link_host, add_host,
}
use tinc_boot.Daemon.Hosts.Stored.{
  Stored, read_main-Stored, IsItem-of_IsName, linked, linked-IsWritable,
}

-- The entry of hosts/ under a name.
abbrev pub entry : Text → Disk → Option Item
entry name disk = elim disk.hosts [ none ↦ none | some entries ↦ lookup name entries ]

pub is_clean_iff : (name : Text) → IsName name → is_clean name ≡ true
unfolding is_clean
is_clean_iff name h = (clean_test_iff name).1 h

pub IsName-of_is_clean : (name : Text) → is_clean name ≡ true → IsName name
unfolding is_clean
IsName-of_is_clean name h = (clean_test_iff name).0 h

-- A directory of hosts in which a file can be written under a name.
pub record IsOpenAt (name : Text) (disk : Disk) : Type 0 where
  pub entries : Dict Item
  pub is_there : disk.hosts ≡ some entries
  pub no_directory : lookup name entries ≢ some directory

write_entry-whole :
    (env : Env) (name content : Text) (entries : Dict Item)
    → env.write_host ≡ whole
    → lookup name entries ≢ some directory
    → write_entry env name content entries ≡ (insert name (file content) entries, true)
unfolding write_entry written
write_entry-whole env name content entries w nd = ground (arith, w)

pub write_host-whole :
    (env : Env) (name content : Text) (disk : Disk)
    → env.write_host ≡ whole
    → name ≢ []
    → (o : IsOpenAt name disk)
    → write_host env name content disk
      ≡ (record disk { hosts = some (insert name (file content) o.entries) }, true)
write_host-whole env [] content disk w ne o = absurd (ne refl)
write_host-whole env (c ∷ name) content disk w ne o =
    unfold write_host in
    rw o.is_there (rw (write_entry-whole env (c ∷ name) content o.entries w o.no_directory))

-- The disk that a complete `AddHost` leaves.
abbrev pub added : Text → Text → Main → Dict Item → Disk → Disk
added name content m entries disk = record {
  conf =
      if is_listed name m.connect_to
      then disk.conf
      else some (marshal (main_fields (linked name m)));
  hosts = some (insert name (file content) entries);
}

connect-whole :
    (env : Env) (name : Text) (m : Main) (disk : Disk)
    → env.write_conf ≡ whole
    → connect env name m disk ≡ (
      record disk {
        conf =
            if is_listed name m.connect_to
            then disk.conf
            else some (marshal (main_fields (linked name m)));
      },
      none,
    )
unfolding connect save_main
connect-whole env name m disk w = elim (Bool-cases (is_listed name m.connect_to)) [
  | inl e ↦ rw e
  | inr e ↦ rw e (rw w)
]

link_host-whole :
    (name : Text) (m : Main) (disk : Disk)
    → Stored m disk
    → link_host calm name disk ≡ (
      record disk {
        conf =
            if is_listed name m.connect_to
            then disk.conf
            else some (marshal (main_fields (linked name m)));
      },
      none,
    )
unfolding link_host
link_host-whole name m disk s =
    rw (read_main-Stored calm m disk refl s, link_host) (connect-whole calm name m disk refl)

pub add_host-whole :
    (name content : Text) (m : Main) (disk : Disk)
    → IsName name
    → name ≢ []
    → (o : IsOpenAt name disk) → Stored m disk
    → add_host calm name content disk ≡ (added name content m o.entries disk, none)
unfolding add_host
add_host-whole name content m disk n ne o s = rw (is_clean_iff name n) (
    rw (write_host-whole calm name content disk refl ne o) (
      link_host-whole name m (record disk { hosts = some (insert name (file content) o.entries) })
        (record { content = s.content; writable = s.writable })))

pub added-Stored :
    (name content : Text) (m : Main) (entries : Dict Item) (disk : Disk)
    → IsWritable (linked name m)
    → Stored m disk
    → Stored (linked name m) (added name content m entries disk)
added-Stored name content m entries disk w s = elim (Bool-cases (is_listed name m.connect_to)) [
  | inl e ↦ record { content = rw e s.content; writable = w }
  | inr e ↦ record { content = rw e; writable = w }
]

module _ (name content : Text) (m : Main) (disk : Disk) where
  -- With no failing call, on a directory whose tinc.conf the program wrote and whose hosts/ exists and
  -- has no directory of that name, `AddHost` of a clean name that is not empty and has fewer than
  -- 60000 bytes returns no error; the name's file then holds the content, every other entry of hosts/
  -- is as before, and tinc.conf holds, and is read as, the configuration that it held, with the name
  -- added at the end of its peers unless it is one of them.
  pub add_host_lem :
      IsName name
      → name ≢ []
      → byte_len name < 60000
      → IsOpenAt name disk
      → Stored m disk
      → ((add_host calm name content disk).1 ≡ none)
        × ((other : Text)
            → entry other (add_host calm name content disk).0
              ≡ (if equal name other then some (file content) else entry other disk))
        × Stored (linked name m) (add_host calm name content disk).0
        × (read_main calm (add_host calm name content disk).0 ≡ some (linked name m))
  add_host_lem n ne short o s =
      let kept =
        added-Stored name content m o.entries disk
          (linked-IsWritable name m (IsItem-of_IsName name n ne short) s.writable) s in
      rw (add_host-whole name content m disk n ne o s) (
        refl,
        (λ other. rw o.is_there (lookup-insert name other (file content) o.entries)),
        kept,
        read_main-Stored calm (linked name m) (added name content m o.entries disk) refl kept,
      )

-- Whatever fails, no step of `AddHost` changes another entry of hosts/.
written-other :
    (o : Outcome) (name content : Text) (entries : Dict Item) (other : Text)
    → equal name other ≡ false
    → lookup other (written o name content entries).0 ≡ lookup other entries
unfolding written
written-other whole name content entries other ne =
    lookup-insert name other (file content) entries ∙ rw ne
written-other not_opened name content entries other ne = refl
written-other (cut part) name content entries other ne =
    lookup-insert name other (file part) entries ∙ rw ne
written-other (cut_in_flush part) name content entries other ne =
    lookup-insert name other (file part) entries ∙ rw ne

write_entry-other :
    (env : Env) (name content : Text) (entries : Dict Item) (other : Text)
    → equal name other ≡ false
    → lookup other (write_entry env name content entries).0 ≡ lookup other entries
unfolding write_entry
write_entry-other env name content entries other ne =
    ground (arith, written-other env.write_host name content entries other ne)

write_host-other :
    (env : Env) (name content : Text) (disk : Disk) (other : Text)
    → equal name other ≡ false
    → entry other (write_host env name content disk).0 ≡ entry other disk
unfolding write_host
write_host-other env [] content disk other ne = refl
write_host-other env (c ∷ name) content disk other ne = elim (Option-cases disk.hosts) [
  | inl e ↦ rw (e, write_host) (rw e)
  | inr (entries, e) ↦
      rw (e, write_host) (write_entry-other env (c ∷ name) content entries other ne)
]

connect-hosts :
    (env : Env) (name : Text) (m : Main) (disk : Disk)
    → (connect env name m disk).0.hosts ≡ disk.hosts
unfolding connect save_main
connect-hosts env name m disk = ground arith

pub link_host-hosts :
    (env : Env) (name : Text) (disk : Disk) → (link_host env name disk).0.hosts ≡ disk.hosts
unfolding link_host
link_host-hosts env name disk = elim (Option-cases (read_main env disk)) [
  | inl e ↦ rw (e, link_host)
  | inr (m, e) ↦ rw (e, link_host) (connect-hosts env name m disk)
]

-- Whatever fails, the only entry of hosts/ that `AddHost` can change is the one of its own name, and it
-- changes that one only where the name has just the characters a-z and 0-9.
pub add_host-confined :
    (env : Env) (name content : Text) (disk : Disk) (other : Text)
    → (entry other (add_host env name content disk).0 ≡ entry other disk)
      ⊎ ((other ≡ name) × IsName name)
unfolding add_host
add_host-confined env name content disk other = elim (Bool-cases (is_clean name)) [
  | inl clean ↦ elim (Bool-cases (equal name other)) [
    | inl same ↦ inr (sym ((equal_iff name other).0 same), IsName-of_is_clean name clean)
    | inr ne ↦ inl (
        rw clean (
          reached (write_host env name content disk)
            (write_host-other env name content disk other ne)))
  ]
  | inr dirty ↦ inl (rw dirty)
]
  where
    reached :
        (w : Disk × Bool)
        → entry other w.0 ≡ entry other disk
        → entry other (if not w.1 then (w.0, some save_host) else link_host env name w.0).0
          ≡ entry other disk
    reached (d, true) h =
        ap (λ hs. elim hs [ none ↦ none | some entries ↦ lookup other entries ])
          (link_host-hosts env name d)
        ∙ h
    reached (d, false) h = h

-- A name with any other character is refused, and nothing is read or written.
pub add_host-malformed :
    (env : Env) (name content : Text) (disk : Disk)
    → ¬ IsName name
    → add_host env name content disk ≡ (disk, some malformed_name)
unfolding add_host
add_host-malformed env name content disk bad = elim (Bool-cases (is_clean name)) [
  | inl clean ↦ absurd (bad (IsName-of_is_clean name clean))
  | inr dirty ↦ rw dirty
]
