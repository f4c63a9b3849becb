-- ===== src/Monitor/Service/Indexing.antt =====
-- A fetched file of domain/monitor/service.go, from `requestNode` to tinc.conf, and `Forget` of
-- domain/monitor/client.go.
use tinc_boot.Prelude.{
  ◌≡◌, ◌≢◌, refl, ap, ◌∙◌, true, false, List, [], ◌∷◌, ◌++◌, none, some, arith, Option-cases, inl,
  inr, All,
}
use tinc_boot.Text.{Text, codes, equal, equal_iff, equal_refl}
use tinc_boot.Text.Strings.{contains}
use tinc_boot.Names.{IsName}
use tinc_boot.Dict.{Dict, lookup, insert, lookup-insert, insert-keys}
use tinc_boot.Daemon.Disk.{Disk, calm, Item, file, directory, write_host, written, write_entry}
use tinc_boot.Monitor.Nodes.{Node, index_of, try_remove}
use tinc_boot.Monitor.Index.{Matches}
use tinc_boot.Monitor.Index.Links.{links, IsRegexp}
use tinc_boot.Monitor.Index.Runs.{is_public_host, index_connect_to_lem}
use tinc_boot.Monitor.Service.{
  Request, Service, api_forget_node, forget_request, forget_removed, finish, after_fetch, round,
  try_fetch_host, request_node, ask_for_index, emit, scheduled_reindex, forced_reindex,
}

is_public_host-lookup :
    (self name content : Text) (entries : Dict Item)
    → lookup name entries ≡ some (file content)
    → equal name self ≡ false
    → contains content (codes "Address") ≡ true
    → is_public_host self name entries ≡ true
unfolding is_public_host lookup
is_public_host-lookup self name content [] h other a = absurd (ground arith)
is_public_host-lookup self name content ((n, directory) ∷ rest) h other a =
    ground (arith, equal_iff n name, is_public_host-lookup self name content rest)
is_public_host-lookup self name content ((n, file c) ∷ rest) h other a =
    ground (arith, equal_iff n name, is_public_host-lookup self name content rest)

-- The disk that a push or a fetch of a host's file leaves, where no call fails.
abbrev pub with_host : Text → Text → Text → Dict Item → Disk
with_host name content conf entries = record {
  conf = some conf;
  hosts = some (insert name (file content) entries);
}

write_host-whole :
    (name content conf : Text) (entries : Dict Item)
    → name ≢ []
    → lookup name entries ≢ some directory
    → write_host calm name content (record { conf = some conf; hosts = some entries })
      ≡ (with_host name content conf entries, true)
unfolding write_host write_entry written
write_host-whole [] content conf entries ne free = absurd (ne refl)
write_host-whole (c ∷ cs) content conf entries ne free =
    elim (Option-cases (lookup (c ∷ cs) entries)) [
      | inl e ↦ ground arith
      | inr (directory, e) ↦ absurd (free e)
      | inr (file old, e) ↦ ground arith
    ]

module _ (matches : Matches) (r : Request) (others rest : List Request) (content conf : Text)
    (entries : Dict Item) where
  fetched_service :
      (s : Service)
      → s.disk ≡ record { conf = some conf; hosts = some entries }
      → r.name ≢ []
      → lookup r.name entries ≢ some directory
      → request_node calm (some content) others r rest s
        ≡ record (finish r content (record s { disk = with_host r.name content conf entries })) {
          requests = others ++ rest;
        }
  unfolding request_node round try_fetch_host after_fetch
  fetched_service s at ne free =
      rw at (rw (write_host-whole r.name content conf entries ne free) refl)

  -- With a regular expression matcher that means what the pattern says, where tinc.conf and hosts/
  -- are there, no call fails and the names of hosts are clean: a goroutine that gets the file of
  -- its node, whose name is clean, not empty, not the service's own and not that of a directory,
  -- and whose file mentions an address, stores the file under that name, ends, and asks for an
  -- index; the forced index then leaves a tinc.conf that links the node and ends with the old text.
  pub fetched-linked :
      (s : Service)
      → IsRegexp matches
      → s.disk ≡ record { conf = some conf; hosts = some entries }
      → All (λ e. IsName e.0) entries
      → IsName r.name
      → r.name ≢ []
      → equal r.name s.self ≡ false
      → lookup r.name entries ≢ some directory
      → contains content (codes "Address") ≡ true
      → let s' = forced_reindex matches calm (request_node calm (some content) others r rest s) in
        (text : Text) × (s'.disk ≡ with_host r.name content text entries)
        × (links r.name text ≡ true)
        × ((added : Text) × (text ≡ added ++ conf))
        × (s'.requests ≡ others ++ rest)
        × (s'.reindex ≡ false)
  unfolding forced_reindex finish emit ask_for_index scheduled_reindex
  fetched-linked s regexp at names clean ne other free public =
      let (text, runs, exactly, kept, _) =
        index_connect_to_lem matches s.self conf (insert r.name (file content) entries) regexp
          (insert-keys IsName r.name (file content) entries clean names) in
      let stored =
        is_public_host-lookup s.self r.name content (insert r.name (file content) entries)
          (lookup-insert r.name r.name (file content) entries ∙ rw (equal_refl r.name) refl) other
          public in
      (
        text,
        rw (fetched_service s at ne free) (ap (λ p. p.0) runs),
        exactly r.name ∙ rw stored refl,
        kept,
        rw (fetched_service s at ne free) refl,
        rw (fetched_service s at ne free) refl,
      )

index_of-unnamed : (nodes : List Node) → All (λ n. n.name ≢ []) nodes → index_of [] nodes ≡ none
unfolding index_of
index_of-unnamed [] h = refl
index_of-unnamed (n ∷ nodes) h = ground (arith, index_of-unnamed nodes, equal_iff n.name [])

try_remove-unnamed :
    (nodes : List Node) → All (λ n. n.name ≢ []) nodes → try_remove [] nodes ≡ (nodes, none)
unfolding try_remove
try_remove-unnamed nodes h = rw (index_of-unnamed nodes h, try_remove) refl

-- The request that `Forget` of the client makes for an address is answered by 204 and changes nothing,
-- whatever the address, at a service whose nodes all have a name.
pub forget_request_lem :
    (address : Text) (s : Service)
    → All (λ n. n.name ≢ []) s.nodes
    → api_forget_node (some (forget_request address)) s ≡ (s, 204)
unfolding api_forget_node forget_request forget_removed
forget_request_lem address s h =
    ap (λ p. (forget_removed p.0 p.1 s, 204)) (try_remove-unnamed s.nodes h)
