-- ===== src/Tests/Files.antt =====
-- Configuration files, hosts and discovery at small inputs.
use tinc_boot.Prelude.{
  inr, inl, ◌++◌, All, ◌≡◌, ◌≢◌, ◌↔◌, ◌%◌, ◌^◌, refl, ap, true, false, List, [], ◌∷◌, none, some,
  arith, ◌⊎◌, In, if◌then◌else◌,
}
use tinc_boot.Prelude.Int.{ℤ, pos}
use tinc_boot.Text.{Text, codes, equal}
use tinc_boot.Names.{IsName, is_enabled, cut_disabled, lower_rune, clean_string}
use tinc_boot.Names.Cleaning.{IsPlain, clean_string_lem}
use tinc_boot.Dict.{lookup}
use tinc_boot.Config.Types.{main_fields, zero_main}
use tinc_boot.Config.Parser.{ok, unmarshal}
use tinc_boot.Config.Marshal.{marshal}
use tinc_boot.Config.RoundTrip.{unmarshal-marshal, unmarshal-port, port_line}
use tinc_boot.Daemon.Disk.{file, calm, read_main, content_at}
use tinc_boot.Daemon.Hosts.{Result, add_host, host, hosts, is_clean}
use tinc_boot.Daemon.Hosts.Stored.{Stored, linked}
use tinc_boot.Daemon.Hosts.Add.{entry, add_host_lem, add_host-confined}
use tinc_boot.Daemon.Hosts.Listing.{hosts_complete}
use tinc_boot.Discovery.Ssd.{Entity, Ssd, header, new_ssd}
use tinc_boot.Discovery.Ssd.Versions.{known}
use tinc_boot.Discovery.Client.{
  Network, Gathered, hosts_url, host_url, fetch_content, fetch_headers, gather, Requesters,
  Requester, cancel, watch, forget,
}
use tinc_boot.Discovery.Client.Rounds.{AtMostOne, gather-AtMostOne}
use tinc_boot.Discovery.Client.Watching.{IsLive, watch_lem, forget_lem}
use tinc_boot.Discovery.Server.{get_one, get_headers}
use tinc_boot.Discovery.Server.Serving.{get_one-found, fetch-served}
use tinc_boot.Tests.Inputs.{
  alice, bob, main, disk, alice-IsName, bob-IsName, bob-short, bob-IsOpenAt, disk-Stored,
  main-IsWritable,
}
use tinc_boot.Tests.Tables.{json}

unmarshal-marshal_example :
    unmarshal (marshal (main_fields main)) (main_fields zero_main) ≡ ok (main_fields main)
unmarshal-marshal_example = unmarshal-marshal main main-IsWritable

unmarshal-port_example :
    unmarshal (port_line 65536) (main_fields zero_main)
    ≡ ok (main_fields (record zero_main { port = 65536 % 2 ^ 16 }))
unmarshal-port_example = unmarshal-port 65536 (omega arith)

-- Bob with a capital letter.
abbrev capital_bob : Text
capital_bob = codes "Bob"

clean_string_example :
    (clean_string capital_bob ≡ clean_string bob)
    × All IsPlain (clean_string capital_bob)
    × ((equal (clean_string capital_bob) capital_bob ≡ true) ↔ All IsPlain capital_bob)
    × (clean_string (capital_bob ++ codes ".lan")
        ≡ clean_string capital_bob ++ clean_string (codes ".lan"))
clean_string_example =
    clean_string_lem capital_bob bob (codes ".lan")
      (inr (inl (omega arith, omega arith, refl)), (inl refl, (inl refl, tt)))

add_host_example :
    ((add_host calm bob (codes "x") disk).1 ≡ none)
    × ((other : Text)
        → entry other (add_host calm bob (codes "x") disk).0
          ≡ (if equal bob other then some (file (codes "x")) else entry other disk))
    × Stored (linked bob main) (add_host calm bob (codes "x") disk).0
    × (read_main calm (add_host calm bob (codes "x") disk).0 ≡ some (linked bob main))
add_host_example =
    add_host_lem bob (codes "x") main disk bob-IsName (λ e. cc) bob-short bob-IsOpenAt disk-Stored

add_host-confined_example :
    (entry alice (add_host calm bob (codes "x") disk).0 ≡ entry alice disk)
    ⊎ ((alice ≡ bob) × IsName bob)
add_host-confined_example = add_host-confined calm bob (codes "x") disk alice

dots-bad : ¬ IsName (codes "../x")
unfolding is_enabled
dots-bad h = ground arith

alice-file : entry alice disk ≡ some (file (codes "Port = 655"))
unfolding lookup equal
alice-file = refl

hosts_complete_example :
    (listed : List (Text × Text)) × (hosts calm disk ≡ Result.ok listed)
    × In (alice, codes "Port = 655") listed
hosts_complete_example = hosts_complete disk alice (codes "Port = 655") alice-IsName alice-file

abbrev entity : Entity
entity = record { name = alice; version = pos 3 }

abbrev table : Ssd
table = record { entities = (alice, entity) ∷ []; file = codes "clock" }

-- A peer that serves the table.
abbrev peer : Network
peer url =
    if equal url (hosts_url (codes "p"))
    then some (get_headers json table)
    else if equal url (host_url (codes "p") alice)
    then some (get_one calm table disk alice (codes "-1"))
    else none

alice-known : known table alice ≡ some entity
unfolding lookup equal
alice-known = refl

alice-host : host calm alice disk ≡ Result.ok (codes "Port = 655")
unfolding host content_at is_clean clean_string equal lookup cut_disabled is_enabled lower_rune
alice-host = refl

peer-hosts : peer (hosts_url (codes "p")) ≡ some (get_headers json table)
unfolding equal hosts_url
peer-hosts = refl

peer-host : peer (host_url (codes "p") alice) ≡ some (get_one calm table disk alice (codes "-1"))
unfolding equal hosts_url host_url
peer-host = refl

fetch-served_example :
    (fetch_headers json peer (codes "p") ≡ some (header table))
    × ((asked : ℤ)
        → fetch_content peer (codes "p") (record { name = alice; version = asked })
          ≡ some (codes "Port = 655", entity))
fetch-served_example =
    fetch-served json calm table disk peer (codes "p") entity (codes "Port = 655") peer-hosts
      peer-host alice-IsName (λ e. cc) alice-known (omega arith) (omega arith) alice-host

alice-served : (get_one calm table disk alice (codes "-1")).status ≡ 200
alice-served =
    ap (λ r. r.status)
      (get_one-found calm table disk entity (codes "Port = 655") alice-IsName alice-known
        (omega arith) alice-host)

abbrev start : Gathered
start = record { ssd = new_ssd (codes "clock"); disk = disk; changed = false }

gather-AtMostOne_example :
    AtMostOne calm start.ssd (gather calm peer (codes "p") (entity ∷ entity ∷ []) start)
gather-AtMostOne_example = gather-AtMostOne calm peer (codes "p") (entity ∷ entity ∷ []) start refl

none-IsLive : IsLive []
unfolding lookup IsLive
none-IsLive = λ address rq h. cc

abbrev watched : Requesters
watched = (watch alice []).0

forget_example :
    IsLive (forget alice watched).0
    × (lookup alice (forget alice watched).0 ≡ none)
    × ((other : Text)
        → other ≢ alice
        → lookup other (forget alice watched).0 ≡ lookup other watched)
    × ((rq : Requester)
        → lookup alice watched ≡ some rq
        → (forget alice watched).1 ≡ some (cancel rq))
forget_example = forget_lem alice watched (watch_lem alice [] none-IsLive).0
