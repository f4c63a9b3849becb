-- ===== src/Discovery/Server.antt =====
-- tincd/discovery/server.go, and the addresses of tincd/discovery/discovery.go. A request is the
-- path under "/host/" and the value of `after`; a response is the client's `Reply`.
pub mod Serving
use tinc_boot.Prelude.{
  ℕ, ◌≡◌, Bool, true, false, not, ◌||◌, List, [], ◌∷◌, ◌++◌, Option, none, some, if◌then◌else◌,
  ◌==◌,
}
use tinc_boot.Prelude.Int.{ℤ, pos}
use tinc_boot.Text.{Text, codes}
use tinc_boot.Text.Strings.{before}
use tinc_boot.Names.{clean_string}
use tinc_boot.Numbers.{parse_int, format_int}
use tinc_boot.Daemon.Disk.{Disk, Env}
use tinc_boot.Daemon.Hosts.{HostError, Result, ok, err, host}
use tinc_boot.Discovery.Ssd.{Entity, Ssd, get_after}
use tinc_boot.Discovery.Ssd.Storage.{Json, marshal}
use tinc_boot.Discovery.Client.{Reply, Requester, Requesters, watch, forget}

-- `strings.Trim(s, "/ ")`
is_edge : ℕ → Bool
is_edge c = c == b'/' || c == b' '

trim_edges_left : Text → Text
unfolding is_edge
trim_edges_left [] = []
trim_edges_left (c ∷ cs) = let rest = trim_edges_left cs in if is_edge c then rest else c ∷ cs

trim_edges_onto : ℕ → Text → Text
unfolding is_edge
trim_edges_onto c [] = if is_edge c then [] else c ∷ []
trim_edges_onto c (d ∷ ds) = c ∷ d ∷ ds

trim_edges_right : Text → Text
unfolding trim_edges_onto
trim_edges_right [] = []
trim_edges_right (c ∷ cs) = trim_edges_onto c (trim_edges_right cs)

-- The name that `getOne` reads from the path.
unfoldable pub asked_name : Text → Text
unfolding trim_edges_left trim_edges_right
asked_name path = clean_string (trim_edges_right (trim_edges_left path))

-- The version that `getOne` reads from `after`: 0 where there is none.
unfoldable pub asked_version : Text → ℤ
asked_version after = elim (parse_int after) [ none ↦ pos 0 | some v ↦ v ]

-- A response without the node's headers; the text of an error is not modelled.
abbrev pub error_reply : ℕ → Reply
error_reply status = record { status = status; x_name = []; x_version = []; body = some [] }

-- `getOne`
unfoldable pub get_one : Env → Ssd → Disk → Text → Text → Reply
get_one system ssd disk path after = elim (get_after ssd (asked_name path) (asked_version after)) [
  | none ↦ error_reply 404
  | some info ↦ elim (host system (asked_name path) disk) [
    | err _ ↦ error_reply 500
    | ok content ↦ record {
      status = 200;
      x_name = info.name;
      x_version = format_int info.version;
      body = some content;
    }
  ]
]

-- `getHeaders`
unfoldable pub get_headers : Json → Ssd → Reply
unfolding marshal
get_headers json ssd = record {
  status = 200;
  x_name = [];
  x_version = [];
  body = some (marshal json ssd);
}

-- The address that `SubnetAdded` and `SubnetRemoved` make of a peer's subnet, with `Port`.
unfoldable pub peer_address : Text → Text
unfolding before
peer_address subnet = before b'/' subnet ++ codes ":18655"

-- `SubnetAdded`
unfoldable pub subnet_added : Text → Requesters → Requesters
subnet_added subnet rqs = (watch (peer_address subnet) rqs).0

-- `SubnetRemoved`
unfoldable pub subnet_removed : Text → Requesters → Requesters
subnet_removed subnet rqs = (forget (peer_address subnet) rqs).0
