-- ===== src/Discovery/Server/Serving.antt =====
-- `getOne` of tincd/discovery/server.go and what `fetchContent` of client.go makes of its answer.
use tinc_boot.Prelude.{ℕ, ◌≡◌, ◌≢◌, refl, ap, Bool, true, false, [], ◌∷◌, Option, none, some, arith}
use tinc_boot.Prelude.Int.{ℤ, negsuc, ◌<ℤ◌}
use tinc_boot.Text.{Text, codes, equal, equal_iff}
use tinc_boot.Names.{IsName, clean_string_of_IsName, is_enabled}
use tinc_boot.Numbers.{parse_int, format_int, Fits64, parse_int-format_int}
use tinc_boot.Daemon.Disk.{Disk, Env}
use tinc_boot.Daemon.Hosts.{Result, ok, err, host}
use tinc_boot.Discovery.Ssd.{Entity, Ssd, get_after, header}
use tinc_boot.Discovery.Ssd.Versions.{known}
use tinc_boot.Discovery.Ssd.Storage.{Json, marshal}
use tinc_boot.Discovery.Client.{
  Reply, Network, hosts_url, host_url, read_content, fetch_content, fetch_headers,
}
use tinc_boot.Discovery.Server.{
  is_edge, trim_edges_left, trim_edges_onto, trim_edges_right, asked_name, asked_version,
  error_reply, get_one, get_headers,
}

enabled-inner : (c : ℕ) → is_enabled c ≡ true → is_edge c ≡ false
unfolding is_enabled is_edge
enabled-inner c h = ground arith

trim_edges_left-name : (s : Text) → IsName s → trim_edges_left s ≡ s
unfolding trim_edges_left
trim_edges_left-name [] h = refl
trim_edges_left-name (c ∷ s) h = rw (enabled-inner c h.0)

trim_edges_right-name : (s : Text) → IsName s → trim_edges_right s ≡ s
unfolding trim_edges_right trim_edges_onto
trim_edges_right-name [] h = refl
trim_edges_right-name (c ∷ []) h = rw (enabled-inner c h.0)
trim_edges_right-name (c ∷ d ∷ s) h = ap (trim_edges_onto c) (trim_edges_right-name (d ∷ s) h.1)

pub asked_name-name : (s : Text) → IsName s → asked_name s ≡ s
unfolding asked_name
asked_name-name s h =
    rw (trim_edges_left-name s h) (rw (trim_edges_right-name s h) (clean_string_of_IsName s h))

-- "?after=-1"
every_version : asked_version (codes "-1") ≡ negsuc 0
unfolding asked_version parse_int
every_version = refl

get_after-known :
    (ssd : Ssd) (e : Entity)
    → known ssd e.name ≡ some e
    → negsuc 0 <ℤ e.version
    → get_after ssd e.name (negsuc 0) ≡ some e
unfolding get_after
get_after-known ssd e k h = rw (k, get_after) (ground arith)

pub get_one-found :
    (system : Env) (ssd : Ssd) (disk : Disk) (e : Entity) (content : Text)
    → IsName e.name
    → known ssd e.name ≡ some e
    → negsuc 0 <ℤ e.version
    → host system e.name disk ≡ ok content
    → get_one system ssd disk e.name (codes "-1") ≡ record {
      status = 200;
      x_name = e.name;
      x_version = format_int e.version;
      body = some content;
    }
unfolding get_one
get_one-found system ssd disk e content n k v h =
    rw (asked_name-name e.name n, get_one)
      (rw every_version (rw (get_after-known ssd e k v) (rw (asked_name-name e.name n) (rw h))))

read_content-found :
    (e : Entity) (content : Text)
    → e.name ≢ []
    → Fits64 e.version
    → read_content (record {
      status = 200;
      x_name = e.name;
      x_version = format_int e.version;
      body = some content;
    })
      ≡ some (content, e)
unfolding read_content
read_content-found e content ne f =
    rw (named (equal e.name []) (λ t. ne ((equal_iff e.name []).0 t)))
      (rw (parse_int-format_int e.version f))
  where
    named : (b : Bool) → ¬ (b ≡ true) → b ≡ false
    named b h = ground arith

-- A requester whose peer answers with `getHeaders` and `getOne` gets, as its list of nodes, the peer's
-- whole table, and for a node of a clean name whose version is not negative and fits 64 bits and whose
-- host file the peer can read, exactly the peer's entity and the content of that file.
pub fetch-served :
    (json : Json) (system : Env) (ssd : Ssd) (disk : Disk) (get : Network) (address : Text)
    (e : Entity) (content : Text)
    → get (hosts_url address) ≡ some (get_headers json ssd)
    → get (host_url address e.name) ≡ some (get_one system ssd disk e.name (codes "-1"))
    → IsName e.name
    → e.name ≢ []
    → known ssd e.name ≡ some e
    → negsuc 0 <ℤ e.version
    → Fits64 e.version
    → host system e.name disk ≡ ok content
    → (fetch_headers json get address ≡ some (header ssd))
      × ((asked : ℤ)
          → fetch_content get address (record { name = e.name; version = asked })
            ≡ some (content, e))
unfolding fetch_headers get_headers marshal fetch_content
fetch-served json system ssd disk get address e content served one n ne k v f h = (
  rw (served, fetch_headers) (json.decode-encode (header ssd)),
  λ asked.
      rw (one, fetch_content)
        (rw (get_one-found system ssd disk e content n k v h) (read_content-found e content ne f)),
)

get_after-newer :
    (ssd : Ssd) (name : Text) (v : ℤ) (e : Entity)
    → get_after ssd name v ≡ some e
    → (known ssd name ≡ some e) × (v <ℤ e.version)
unfolding get_after
get_after-newer ssd name v e h = ground arith

-- A reply of status 200 carries the content of the asked host's file and the name and version of an
-- entity of the table, which is newer than the version that the request names.
pub get_one-newer :
    (system : Env) (ssd : Ssd) (disk : Disk) (path after : Text)
    → (get_one system ssd disk path after).status ≡ 200
    → (e : Entity) × (content : Text) × (known ssd (asked_name path) ≡ some e)
      × (asked_version after <ℤ e.version)
      × (host system (asked_name path) disk ≡ ok content)
      × (get_one system ssd disk path after ≡ record {
        status = 200;
        x_name = e.name;
        x_version = format_int e.version;
        body = some content;
      })
unfolding get_one
get_one-newer system ssd disk path after h =
    found (get_after ssd (asked_name path) (asked_version after))
      (host system (asked_name path) disk) refl refl h
  where
    found :
        (o : Option Entity) (r : Result Text)
        → get_after ssd (asked_name path) (asked_version after) ≡ o
        → host system (asked_name path) disk ≡ r
        → (elim o as (λ _. Reply) [
          | none ↦ error_reply 404
          | some info ↦ elim r as (λ _. Reply) [
            | err _ ↦ error_reply 500
            | ok content ↦ record {
              status = 200;
              x_name = info.name;
              x_version = format_int info.version;
              body = some content;
            }
          ]
        ]).status
          ≡ 200
        → (e : Entity) × (content : Text) × (known ssd (asked_name path) ≡ some e)
          × (asked_version after <ℤ e.version)
          × (host system (asked_name path) disk ≡ ok content)
          × (get_one system ssd disk path after ≡ record {
            status = 200;
            x_name = e.name;
            x_version = format_int e.version;
            body = some content;
          })
    found none r p q k = ground arith
    found (some e) (err _) p q k = ground arith
    found (some e) (ok content) p q k =
        let (there, newer) = get_after-newer ssd (asked_name path) (asked_version after) e p in
        (e, content, there, newer, q, rw (p, get_one) (rw q))
