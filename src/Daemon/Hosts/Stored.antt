-- ===== src/Daemon/Hosts/Stored.antt =====
-- A configuration directory whose tinc.conf was written by the program.
use tinc_boot.Prelude.{
  ℕ, ◌<◌, ◌≡◌, ◌≢◌, refl, ap, sym, Bool, true, false, List, [], ◌∷◌, ◌++◌, some, arith,
  if◌then◌else◌, All, All-append, In, map, inl, inr, Bool-cases, ◌==◌,
}
use tinc_boot.Text.{Text, equal, equal_iff}
use tinc_boot.Text.Strings.{byte_len, is_space}
use tinc_boot.Text.Strings.Trim.{IsTrimmed-of_spaceless, HasNo}
use tinc_boot.Names.{IsName, is_enabled}
use tinc_boot.Config.Fields.{text}
use tinc_boot.Config.Marshal.{marshal}
use tinc_boot.Config.RoundTrip.{IsWritable, unmarshal-marshal}
use tinc_boot.Config.RoundTrip.Pieces.{IsItem}
use tinc_boot.Config.Types.{Main, main_fields, main_of, texts_of}
use tinc_boot.Daemon.Disk.{Disk, Env, read_main}
use tinc_boot.Daemon.Hosts.{is_listed}

pub texts_of-map : (xs : List Text) → texts_of (map text xs) ≡ xs
unfolding texts_of
texts_of-map [] = refl
texts_of-map (x ∷ xs) = ap (◌∷◌ x) (texts_of-map xs)

pub main_of-main_fields : (m : Main) → main_of (main_fields m) ≡ m
unfolding main_of main_fields
main_of-main_fields m = λ i. record {
  name = m.name;
  port = m.port;
  local_discovery = m.local_discovery;
  interface = m.interface;
  connect_to = texts_of-map m.connect_to i;
}

pub record Stored (m : Main) (disk : Disk) : Type 0 where
  pub content : disk.conf ≡ some (marshal (main_fields m))
  pub writable : IsWritable m

pub read_main-Stored :
    (env : Env) (m : Main) (disk : Disk)
    → env.read_conf ≡ false
    → Stored m disk
    → read_main env disk ≡ some m
unfolding read_main
read_main-Stored env m disk r s =
    rw r (rw s.content (rw (unmarshal-marshal m s.writable) (ap some (main_of-main_fields m))))

enabled-plain : (c : ℕ) → is_enabled c ≡ true → (is_space c ≡ false) × ((c == b'\n') ≡ false)
unfolding is_enabled is_space
enabled-plain c h = ground arith

-- A clean name that is not empty can stand in a `ConnectTo` line.
pub IsItem-of_IsName : (name : Text) → IsName name → name ≢ [] → byte_len name < 60000 → IsItem name
IsItem-of_IsName name h ne short = record {
  plain = record {
    trimmed = IsTrimmed-of_spaceless name (spaceless name h);
    one_line = feedless name h;
    short = short;
  };
  not_empty = ne;
}
  where
    spaceless : (s : Text) → IsName s → All (λ c. is_space c ≡ false) s
    spaceless [] k = tt
    spaceless (c ∷ s) k = ((enabled-plain c k.0).0, spaceless s k.1)

    feedless : (s : Text) → IsName s → HasNo b'\n' s
    feedless [] k = tt
    feedless (c ∷ s) k = ((enabled-plain c k.0).1, feedless s k.1)

-- The main configuration with a name among its peers.
abbrev pub linked : Text → Main → Main
linked name m = record m {
  connect_to = if is_listed name m.connect_to then m.connect_to else m.connect_to ++ name ∷ [];
}

pub linked-IsWritable :
    (name : Text) (m : Main) → IsItem name → IsWritable m → IsWritable (linked name m)
linked-IsWritable name m item w = record {
  name = w.name;
  port = w.port;
  interface = w.interface;
  connect_to = extended (is_listed name m.connect_to);
}
  where
    extended : (b : Bool) → All IsItem (if b then m.connect_to else m.connect_to ++ name ∷ [])
    extended true = w.connect_to
    extended false = All-append IsItem m.connect_to (name ∷ []) w.connect_to (item, tt)

-- `is_listed` decides membership.
pub is_listed→In : (name : Text) (xs : List Text) → is_listed name xs ≡ true → In name xs
unfolding is_listed
is_listed→In name [] h = cc
is_listed→In name (x ∷ xs) h = elim (Bool-cases (equal name x)) [
  | inl e ↦ inl (sym ((equal_iff name x).0 e))
  | inr e ↦ inr (is_listed→In name xs (ground arith))
]

pub In→is_listed : (name : Text) (xs : List Text) → In name xs → is_listed name xs ≡ true
unfolding is_listed
In→is_listed name [] i = absurd i
In→is_listed name (x ∷ xs) (inl e) = ground (arith, equal_iff name x)
In→is_listed name (x ∷ xs) (inr i) = ground (arith, In→is_listed name xs i)
