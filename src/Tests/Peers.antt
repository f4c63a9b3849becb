-- ===== src/Tests/Peers.antt =====
-- Two nodes that ask one another.
use tinc_boot.Prelude.{
  ◌≡◌, refl, subst, ap, Bool, true, false, [], ◌∷◌, ◌++◌, List, some, none, All, inl, inr, arith,
  suc, if◌then◌else◌, drop, length,
}
use tinc_boot.Prelude.Int.{pos, negsuc, ◌<ℤ◌}
use tinc_boot.Text.{Text, codes, equal, equal_iff, equal_refl}
use tinc_boot.Text.Strings.{before, byte_len}
use tinc_boot.Numbers.{Fits64}
use tinc_boot.Names.{IsName, is_enabled}
use tinc_boot.Config.Types.{main_fields}
use tinc_boot.Config.Marshal.{marshal}
use tinc_boot.Daemon.Disk.{file, directory, calm, content_at}
use tinc_boot.Daemon.Hosts.{host}
use tinc_boot.Daemon.Hosts.Add.{is_clean_iff}
use tinc_boot.Dict.{lookup, values}
use tinc_boot.Discovery.Ssd.{Entity, header}
use tinc_boot.Discovery.Ssd.Versions.{known, Grows}
use tinc_boot.Discovery.Ssd.Storage.{no_faults}
use tinc_boot.Discovery.Client.{Network, Visit, hosts_url, host_url}
use tinc_boot.Discovery.Client.CatchUp.{IsFitEntity}
use tinc_boot.Discovery.Server.{get_one, get_headers}
use tinc_boot.Discovery.Peers.{Peer, IsServable, IsOpen, Serves, Attends, learn}
use tinc_boot.Discovery.Peers.Agree.{learn-agrees, learn-IsOpen}
use tinc_boot.Tests.Inputs.{alice, bob, main, alice-IsName, bob-IsName, bob-short, main-IsWritable}
use tinc_boot.Tests.Tables.{json}

abbrev address : Text
address = codes "10.0.0.2:18655"

-- The routes of `NewServer`, on a URL at the address.
abbrev served_at : Peer → Network
served_at p url =
    if equal url (hosts_url address)
    then some (get_headers json p.ssd)
    else some (get_one calm p.ssd p.disk (before b'?' (drop 27 url)) (codes "-1"))

name-before : (s rest : Text) → IsName s → before b'?' (s ++ b'?' ∷ rest) ≡ s
unfolding before is_enabled
name-before [] rest h = refl
name-before (c ∷ s) rest h = ground (arith, name-before s rest h.1)

named : (name : Text) → equal (host_url address name) (hosts_url address) ≡ false
unfolding hosts_url host_url equal
named name = refl

asked : (name : Text) → drop 27 (host_url address name) ≡ name ++ codes "?after=-1"
unfolding host_url
asked name = refl

served_at-Serves : (p : Peer) → IsOpen p → Serves json p address (served_at p)
served_at-Serves p o = record {
  headers = rw equal_refl;
  one = λ e i.
      rw named (rw asked (rw (name-before e.name (codes "after=-1") (o.servable e i).fit.0)));
}

abbrev visit : Network → Visit
visit get = record { system = calm; faults = no_faults; tmp = codes "tmp"; get = get }

abbrev of_alice : Entity
of_alice = record { name = alice; version = pos 3 }

abbrev of_bob : Entity
of_bob = record { name = bob; version = pos 7 }

-- A node that knows one entity, whose file is its directory's only one.
abbrev knowing : Entity → Text → Peer
knowing e content = record {
  ssd = record { entities = (e.name, e) ∷ []; file = codes "clock" };
  disk = record {
    conf = some (marshal (main_fields main));
    hosts = some ((e.name, file content) ∷ []);
  };
}

abbrev first : Peer
first = knowing of_alice (codes "Port = 655")

abbrev second : Peer
second = knowing of_bob (codes "Port = 656")

-- A round for each entity of the peer.
abbrev rounds_at : Network → List Entity → List Visit
rounds_at get [] = []
rounds_at get (e ∷ es) = visit get ∷ rounds_at get es

rounds_at-steady :
    (get : Network) (es : List Entity)
    → All (λ v. (v.system ≡ calm) × (v.get ≡ get)) (rounds_at get es)
rounds_at-steady get [] = tt
rounds_at-steady get (e ∷ es) = ((refl, refl), rounds_at-steady get es)

length-rounds_at : (get : Network) (es : List Entity) → length (rounds_at get es) ≡ length es
length-rounds_at get [] = refl
length-rounds_at get (e ∷ es) = ap suc (length-rounds_at get es)

abbrev visits_at : Peer → List Visit
visits_at p = rounds_at (served_at p) (header p.ssd)

visits_at-Attends : (p : Peer) → Attends p (served_at p) (visits_at p)
visits_at-Attends p = record {
  steady = rounds_at-steady (served_at p) (header p.ssd);
  enough = omega (arith, length-rounds_at (served_at p) (header p.ssd));
}

no_directory :
    (b : Bool) (content : Text) → ¬ ((if b then some (file content) else none) ≡ some directory)
no_directory true content e = cc
no_directory false content e = cc

knowing-IsOpen :
    (e : Entity) (content : Text)
    → IsFitEntity e
    → negsuc 0 <ℤ e.version
    → Fits64 e.version
    → IsOpen (knowing e content)
unfolding lookup header values host content_at
knowing-IsOpen e content fit a f = record {
  keyed = record {
    is_map = (refl, tt);
    own_name = λ name x h. ground (arith, equal_iff e.name name);
  };
  servable = λ x i. elim i [
    | inl same ↦ subst (IsServable _) same (record {
      fit = fit;
      asked = a;
      fits = f;
      content = content;
      readable = rw (is_clean_iff e.name fit.0) (rw equal_refl);
    })
    | inr none_left ↦ absurd none_left
  ];
  kept = (
    main,
    record { content = refl; writable = main-IsWritable },
    record {
      entries = (e.name, file content) ∷ [];
      is_there = refl;
      files = λ name. no_directory (equal e.name name) content;
    },
  );
}

first-IsOpen : IsOpen first
unfolding byte_len
first-IsOpen =
    knowing-IsOpen of_alice (codes "Port = 655") (alice-IsName, (λ e. cc), omega arith)
      (omega arith) (omega arith)

second-IsOpen : IsOpen second
second-IsOpen =
    knowing-IsOpen of_bob (codes "Port = 656") (bob-IsName, (λ e. cc), bob-short) (omega arith)
      (omega arith)

abbrev second' : Peer
second' = learn json address (visits_at first) [] second

abbrev first' : Peer
first' = learn json address (visits_at second') [] first

second'-IsOpen : IsOpen second'
second'-IsOpen =
    learn-IsOpen json address (served_at first) first first-IsOpen
      (served_at-Serves first first-IsOpen) second (visits_at first) [] second-IsOpen
      (visits_at-Attends first)

learn-agrees_example :
    (known second'.ssd alice ≡ known first'.ssd alice)
    × Grows (known first.ssd alice) (known second'.ssd alice)
    × Grows (known second.ssd alice) (known second'.ssd alice)
    × IsOpen second'
    × IsOpen first'
learn-agrees_example =
    learn-agrees json address address (served_at first) (served_at second') first second
      (visits_at first) (visits_at second') [] [] alice first-IsOpen second-IsOpen
      (served_at-Serves first first-IsOpen) (visits_at-Attends first)
      (served_at-Serves second' second'-IsOpen) (visits_at-Attends second')
