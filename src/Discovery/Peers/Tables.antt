-- ===== src/Discovery/Peers/Tables.antt =====
-- The entities of a table of tincd/discovery/ssd.go, as `Header` lists them, and their hosts.
use tinc_boot.Prelude.{
  ◌≡◌, sym, subst, ap, [], ◌∷◌, some, In, inl, inr, ◌⊎◌, arith, false, Bool-cases,
}
use tinc_boot.Text.{Text, equal, equal_iff, equal_refl}
use tinc_boot.Dict.{Dict, lookup, values, IsMap, lookup-insert}
use tinc_boot.Names.{IsName}
use tinc_boot.Config.Types.{Main}
use tinc_boot.Daemon.Disk.{Disk, calm, file, content_at}
use tinc_boot.Daemon.Hosts.{ok, host}
use tinc_boot.Daemon.Hosts.Add.{added, is_clean_iff}
use tinc_boot.Boot.Exchange.Imports.{Ready}
use tinc_boot.Discovery.Ssd.{Entity, Ssd, header, store}
use tinc_boot.Discovery.Ssd.Versions.{known, known-store}
use tinc_boot.Discovery.Ssd.Keyed.{IsKeyed}

In-values :
    {V : Type 0} (m : Dict V) (v : V)
    → IsMap m
    → In v (values m)
    → (k : Text) × (lookup k m ≡ some v)
unfolding values lookup
In-values [] v h i = absurd i
In-values ((k, w) ∷ m) v h (inl e) = (k, rw equal_refl (ap some e))
In-values ((k, w) ∷ m) v h (inr i) =
    let (j, l) = In-values m v h.1 i in (j, ground (arith, equal_iff k j))

lookup-In : {V : Type 0} (m : Dict V) (k : Text) (v : V) → lookup k m ≡ some v → In v (values m)
unfolding values lookup
lookup-In [] k v h = absurd (ground arith)
lookup-In ((j, w) ∷ m) k v h = elim (Bool-cases (equal j k)) [
  | inl e ↦ inl (ground arith)
  | inr e ↦ inr (lookup-In m k v (ground arith))
]

pub header-known : (s : Ssd) (e : Entity) → IsKeyed s → In e (header s) → known s e.name ≡ some e
unfolding header
header-known s e k i =
    let (name, l) = In-values s.entities e k.is_map i in
    subst (λ n. known s n ≡ some e) (sym (k.own_name name e l)) l

pub known-header : (s : Ssd) (name : Text) (e : Entity) → known s name ≡ some e → In e (header s)
unfolding header
known-header s name e h = lookup-In s.entities name e h

-- A merged entity stands in the table, and the others stood there before.
pub header-store :
    (s : Ssd) (e x : Entity)
    → IsKeyed (store s e)
    → In x (header (store s e))
    → (e ≡ x) ⊎ (In x (header s) × (equal e.name x.name ≡ false))
header-store s e x k i = elim (Bool-cases (equal e.name x.name)) [
  | inl same ↦ inl (ground (arith, header-known (store s e) x k i, known-store s e x.name))
  | inr other ↦ inr (
    known-header s x.name x
        (ground (arith, header-known (store s e) x k i, known-store s e x.name)),
    other,
  )
]

-- `Host` after `AddHost` of another host, and of the same.
pub host-added :
    (name other content : Text) (m : Main) (disk : Disk) (r : Ready disk)
    → equal name other ≡ false
    → host calm other (added name content m r.entries disk) ≡ host calm other disk
unfolding host content_at
host-added name other content m disk r h =
    rw (lookup-insert name other (file content) r.entries, host, content_at) (rw h (rw r.is_there))

pub host-added_self :
    (name content : Text) (m : Main) (disk : Disk) (r : Ready disk)
    → IsName name
    → host calm name (added name content m r.entries disk) ≡ ok content
unfolding host content_at
host-added_self name content m disk r n =
    rw (is_clean_iff name n, host) (rw lookup-insert (rw equal_refl))
