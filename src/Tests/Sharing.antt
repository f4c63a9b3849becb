-- ===== src/Tests/Sharing.antt =====
-- A node that the page of a monitor makes, and the monitor of one public node.
use tinc_boot.Prelude.{◌≡◌, ◌≢◌, refl, true, false, [], ◌∷◌, some, none, In, inl, arith}
use tinc_boot.Text.{Text, codes}
use tinc_boot.Dict.{lookup}
use tinc_boot.Names.{IsName}
use tinc_boot.Daemon.Disk.{file, calm, write_host, write_entry, written}
use tinc_boot.Daemon.Hosts.Add.{entry}
use tinc_boot.Generator.{ok, generate}
use tinc_boot.Monitor.Nodes.{Node, copy}
use tinc_boot.Monitor.Service.{Service, api_push_node_file}
use tinc_boot.Monitor.Service.Pages.{script_file, at_least_one_public, api_ui_add_node}
use tinc_boot.Monitor.Client.{Post, client_by_subnet, push_request, push_node_file}
use tinc_boot.Monitor.Client.Sharing.{
  IsDelivered, answer, api_push_node_file-clean, api_ui_add_node-shares,
}
use tinc_boot.Tests.Inputs.{alice, bob}
use tinc_boot.Tests.Addresses.{zeros, cfg, entries, made, keys, bob-made}

abbrev public_alice : Node
public_alice = record {
  name = alice;
  subnet = codes "10.0.0.1/32";
  fetched = true;
  is_public = true;
  stopped = false;
}

abbrev own : Service
own = record {
  self = codes "carol";
  disk = record { conf = none; hosts = some entries };
  nodes = public_alice ∷ [];
  requests = [];
  reindex = false;
  cancelled = false;
  events = [];
}

abbrev peer : Service
peer = record own { disk = record { conf = none; hosts = some [] }; nodes = [] }

abbrev no_content : Post
no_content = λ url kind content. some (record { status = 204; body = some [] })

peer-takes :
    (name content : Text)
    → IsName name
    → name ≢ []
    → (api_push_node_file calm name (some content) peer).1 ≡ 204
unfolding answer write_host write_entry written lookup
peer-takes [] content clean ne = absurd (ne refl)
peer-takes (c ∷ cs) content clean ne =
    rw (api_push_node_file-clean calm (c ∷ cs) (some content) peer clean ne) refl

no_content-IsDelivered : IsDelivered no_content (λ base_url. calm) (λ base_url. peer)
no_content-IsDelivered = record {
  answered = λ base_url name content response clean ne h.
      (some content, inl refl, ground (arith, peer-takes name content clean ne));
}

bob-answered :
    api_ui_add_node zeros keys
      (λ a. true)
      calm
      (some cfg)
      (λ a n. push_node_file no_content (client_by_subnet n.subnet) a.config.name a.host_public)
      own
    ≡ script_file made
unfolding api_ui_add_node at_least_one_public copy push_node_file push_request
bob-answered = rw (bob-made, api_ui_add_node) refl

api_ui_add_node-shares_example :
    (generate zeros keys (λ a. true) calm (some entries) cfg ≡ ok made)
    × (IsName bob × (bob ≢ []))
    × ((n : Node) × In n (public_alice ∷ [])
        × (n.is_public ≡ true)
        × (entry bob (api_push_node_file calm bob (some (codes "public")) peer).0.disk
            ≡ some (file (codes "public"))))
api_ui_add_node-shares_example =
    api_ui_add_node-shares no_content (λ base_url. calm) (λ base_url. peer) zeros keys (λ a. true)
      calm cfg own made no_content-IsDelivered bob-answered
