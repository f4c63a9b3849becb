-- ===== src/Tests/Watching.antt =====
-- The monitor's service on a small configuration directory.
use mathlib.Core.List.{Mem}
use tinc_boot.Prelude.{◌≡◌, ◌≢◌, ◌⊎◌, refl, ap, true, false, ◌||◌, [], ◌∷◌, ◌++◌, none, some, drop}
use tinc_boot.Text.{Text, codes, equal}
use tinc_boot.Text.Strings.{contains, has_prefix}
use tinc_boot.Dict.{Dict, lookup}
use tinc_boot.Daemon.Disk.{Item, file, directory, calm}
use tinc_boot.Monitor.Nodes.{Node}
use tinc_boot.Monitor.Nodes.Distinct.{IsDistinct}
use tinc_boot.Monitor.Index.{Matches, connect_pattern, index_connect_to}
use tinc_boot.Monitor.Index.Links.{links, IsRegexp}
use tinc_boot.Monitor.Index.Runs.{is_public_host, before_index, after_index, index_connect_to_lem}
use tinc_boot.Monitor.Service.{
  Subnet, Request, Service, api_watch_node, api_forget_node, request_node, forced_reindex,
  create_and_run, watch, forget, here, next,
}
use tinc_boot.Monitor.Service.Pursuit.{has_request}
use tinc_boot.Monitor.Service.Runs.{create_and_run-Sound}
use tinc_boot.Monitor.Service.Indexing.{with_host, fetched-linked}
use tinc_boot.Tests.Inputs.{alice, bob, alice-IsName, bob-IsName}

unfoldable drop_last : Text → Text
drop_last [] = []
drop_last (c ∷ []) = []
drop_last (c ∷ d ∷ cs) = c ∷ drop_last (d ∷ cs)

-- A matcher that knows the one pattern.
unfoldable matches : Matches
unfolding drop_last
matches pattern text = some (links (drop_last (drop 23 pattern)) text)

drop_last-append : (name : Text) → drop_last (name ++ b'$' ∷ []) ≡ name
unfolding drop_last
drop_last-append [] = refl
drop_last-append (c ∷ []) = refl
drop_last-append (c ∷ d ∷ cs) = ap (c ∷◌) (drop_last-append (d ∷ cs))

matches-IsRegexp : IsRegexp matches
unfolding matches connect_pattern
matches-IsRegexp name text h = ap (λ n. some (links n text)) (drop_last-append name)

abbrev conf : Text
conf = codes "Name = alice"

abbrev bobs_file : Text
bobs_file = codes "Address = 1.2.3.4"

abbrev known_hosts : Dict Item
known_hosts = (alice, file (codes "Port = 655")) ∷ (bob, file bobs_file) ∷ []

index_connect_to_example :
    (text : Text) × (index_connect_to matches calm alice
        (before_index matches alice conf known_hosts)
      ≡ (after_index matches alice conf known_hosts text, none))
    × ((name : Text) → links name text ≡ (is_public_host alice name known_hosts || links name conf))
    × ((added : Text) × (text ≡ added ++ conf))
    × (index_connect_to matches calm alice (after_index matches alice conf known_hosts text)
        ≡ (after_index matches alice conf known_hosts text, none))
index_connect_to_example =
    index_connect_to_lem matches alice conf known_hosts matches-IsRegexp
      (alice-IsName, (bob-IsName, tt))

abbrev start_hosts : Dict Item
start_hosts = (alice, file (codes "Port = 655")) ∷ []

abbrev created : Service
created = create_and_run alice (record { conf = some conf; hosts = some start_hosts })

abbrev subnet : Subnet
subnet = record { subnet = codes "10.0.0.2/32"; node = bob }

abbrev watched : Service
watched = (api_watch_node (some subnet) created).0

abbrev forgotten : Service
forgotten = (api_forget_node (some (record { subnet = []; node = alice })) watched).0

create_and_run_example :
    IsDistinct forgotten.nodes
    × ((n : Node)
        → Mem n forgotten.nodes
        → ((n.fetched ≡ true)
            ⊎ ((forgotten.cancelled ≡ true) ⊎ (has_request n.name forgotten.requests ≡ true)))
          × (n.is_public ≡ true → n.fetched ≡ true))
create_and_run_example =
    create_and_run-Sound matches alice (record { conf = some conf; hosts = some start_hosts })
      forgotten
      (next (next here (watch (some subnet) refl))
        (forget (some (record { subnet = []; node = alice })) refl))

abbrev request : Request
request = record { name = bob; subnet = codes "10.0.0.2/32"; live = true }

created-disk : created.disk ≡ record { conf = some conf; hosts = some start_hosts }
unfolding create_and_run
created-disk = refl

bob-other : equal bob created.self ≡ false
unfolding create_and_run equal
bob-other = refl

bob-new : lookup bob start_hosts ≢ some directory
unfolding lookup equal
bob-new h = cc

bob-public : contains bobs_file (codes "Address") ≡ true
unfolding contains has_prefix
bob-public = refl

abbrev indexed : Service
indexed = forced_reindex matches calm (request_node calm (some bobs_file) [] request [] created)

fetched-linked_example :
    (text : Text) × (indexed.disk ≡ with_host bob bobs_file text start_hosts)
    × (links bob text ≡ true)
    × ((added : Text) × (text ≡ added ++ conf))
    × (indexed.requests ≡ [])
    × (indexed.reindex ≡ false)
fetched-linked_example =
    fetched-linked matches request [] [] bobs_file conf start_hosts created matches-IsRegexp
      created-disk (alice-IsName, tt) bob-IsName (λ e. cc) bob-other bob-new bob-public
