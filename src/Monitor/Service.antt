-- ===== src/Monitor/Service.antt =====
-- `service` of domain/monitor/service.go and its handlers in domain/monitor/http_api.go. A handler is
-- one step, and so is one round of the loop of `requestNode`. The network's answers and the
-- decoding of a request's body are parameters; pages and the event stream are not modelled.
pub mod Pages
pub mod Pursuit
pub mod Steps
pub mod Runs
pub mod Indexing
use tinc_boot.Prelude.{
  ◌≡◌, Bool, true, false, not, ◌&&◌, ◌||◌, List, [], ◌∷◌, ◌++◌, Option, none, some, if◌then◌else◌,
  ℕ,
}
use tinc_boot.Text.{Text, codes, equal}
use tinc_boot.Text.Strings.{contains}
use tinc_boot.Names.{clean_string}
use tinc_boot.Daemon.Disk.{Disk, Env, content_at, write_host}
use tinc_boot.Monitor.Nodes.{Node, fresh, copy, try_add, try_remove, stop}
use tinc_boot.Monitor.Index.{Matches, index_connect_to}

-- types/monitor.go
pub record Subnet : Type 0 where
  pub subnet : Text
  pub node : Text

pub data Event : Type 0 where
  connected disconnected fetched : Node → Event

-- A goroutine in `requestNode`. Its node is in the array until it is forgotten, and is stopped then.
pub record Request : Type 0 where
  pub name : Text
  pub subnet : Text
  pub live : Bool

-- `service`: `reindex` is what the channel `reindexEvent` holds, `cancelled` tells of the global
-- context, and `events` is the log of what was emitted, the last one first.
pub record Service : Type 0 where
  pub self : Text
  pub disk : Disk
  pub nodes : List Node
  pub requests : List Request
  pub reindex : Bool
  pub cancelled : Bool
  pub events : List Event

-- `Events().X.emit`
unfoldable pub emit : Event → Service → Service
emit e ms = record ms { events = e ∷ ms.events }

-- `askForIndex`: where an event waits already, the new one is dropped.
unfoldable pub ask_for_index : Service → Service
ask_for_index ms = record ms { reindex = true }

-- `apiPushNodeFile`; a body that cannot be read is missing. The number is the status.
unfoldable pub api_push_node_file : Env → Text → Option Text → Service → Service × ℕ
api_push_node_file env param body ms =
    let host_name = clean_string param in
    if equal host_name [] then (ms, 400) else elim body [
      | none ↦ (ms, 400)
      | some content ↦
          let (disk, done) = write_host env host_name content ms.disk in
          (record ms { disk = disk }, if done then 204 else 500)
    ]

-- `apiServeHostFile`; a file that is not there, or cannot be read, is missing.
unfoldable pub api_serve_host_file : Env → Service → Option Text
api_serve_host_file env ms = content_at env ms.self ms.disk

-- `apiListNodes`
unfoldable pub api_list_nodes : Service → List Node
api_list_nodes ms = copy ms.nodes

-- `apiWatchNode` after `TryAdd`.
unfoldable pub watch_added : List Node → Option Node → Service → Service
unfolding emit
watch_added nodes none ms = record ms { nodes = nodes }
watch_added nodes (some node) ms =
    let r : Request = record { name = node.name; subnet = node.subnet; live = true } in
    record (emit (connected node) (record ms { nodes = nodes })) { requests = r ∷ ms.requests }

-- `apiWatchNode`; where `Bind` fails, it has answered 400.
unfoldable pub api_watch_node : Option Subnet → Service → Service × ℕ
unfolding watch_added
api_watch_node none ms = (ms, 400)
api_watch_node (some s) ms =
    let (nodes, added) = try_add s.node s.subnet ms.nodes in (watch_added nodes added ms, 204)

-- `node.Stop()`, as the goroutine of the node sees it.
unfoldable pub stop_request : Text → List Request → List Request
stop_request name [] = []
stop_request name (r ∷ rs) =
    (if equal r.name name then record r { live = false } else r) ∷ stop_request name rs

-- `apiForgetNode` after `TryRemove`.
unfoldable pub forget_removed : List Node → Option Node → Service → Service
unfolding emit
forget_removed nodes none ms = record ms { nodes = nodes }
forget_removed nodes (some node) ms =
    record (emit (disconnected node) (record ms { nodes = nodes })) {
      requests = stop_request node.name ms.requests;
    }

-- `apiForgetNode`
unfoldable pub api_forget_node : Option Subnet → Service → Service × ℕ
unfolding forget_removed
api_forget_node none ms = (ms, 400)
api_forget_node (some s) ms =
    let (nodes, removed) = try_remove s.node ms.nodes in (forget_removed nodes removed ms, 204)

-- What `Forget` of domain/monitor/client.go sends.
unfoldable pub forget_request : Text → Subnet
forget_request address = record { subnet = address; node = [] }

-- `apiGetNodeFile`; a file that is not there, or cannot be read, is missing.
unfoldable pub api_get_node_file : Env → Text → Service → Option Text
api_get_node_file env param ms = content_at env param ms.disk

-- The cancelling in `Stop`; the goroutines that it waits for end at their next round.
unfoldable pub cancel : Service → Service
cancel ms = record ms { cancelled = true }

-- `tryFetchHost`; a request that fails or is not answered by 200 has no response. The node's name is a
-- name in hosts/: the source joins it as a path, so one with a slash can lie elsewhere.
unfoldable pub try_fetch_host : Env → Option Text → Text → Disk → Disk × Option Text
try_fetch_host env none node disk = (disk, none)
try_fetch_host env (some content) node disk =
    let (disk', done) = write_host env node content disk in
    (disk', if done then some content else none)

-- `node.Fetched = true` and `node.Public = ...` at the node of that name.
unfoldable pub mark_fetched : Text → Bool → List Node → List Node
mark_fetched name is_public [] = []
mark_fetched name is_public (n ∷ nodes) =
    (if equal n.name name then record n { fetched = true; is_public = is_public } else n)
    ∷ mark_fetched name is_public nodes

-- The node that `Fetched` is emitted with.
abbrev pub fetched_node : Request → Bool → Node
fetched_node r is_public = record {
  name = r.name;
  subnet = r.subnet;
  fetched = true;
  is_public = is_public;
  stopped = not r.live;
}

-- What `requestNode` does with a host file that it fetched.
unfoldable pub finish : Request → Text → Service → Service
unfolding emit ask_for_index
finish r content ms =
    let is_public = contains content (codes "Address") in
    let nodes = if r.live then mark_fetched r.name is_public ms.nodes else ms.nodes in
    emit (fetched (fetched_node r is_public)) (ask_for_index (record ms { nodes = nodes }))

-- A round of `requestNode` after the call of `tryFetchHost`, and whether the loop goes on: the wait
-- after a failure ends it where the node's context is done.
unfoldable pub after_fetch : Request → Option Text → Service → Service × Bool
unfolding finish
after_fetch r none ms = (ms, r.live && not ms.cancelled)
after_fetch r (some content) ms = (finish r content ms, false)

-- One round of `requestNode`.
unfoldable pub round : Env → Option Text → Request → Service → Service × Bool
unfolding try_fetch_host after_fetch
round env response r ms =
    let (disk, result) = try_fetch_host env response r.name ms.disk in
    after_fetch r result (record ms { disk = disk })

-- A round of one of the goroutines.
unfoldable pub request_node :
    Env → Option Text → List Request → Request → List Request → Service → Service
unfolding round
request_node env response others r rest ms =
    let (after, again) = round env response r ms in
    record after { requests = if again then others ++ r ∷ rest else others ++ rest }

-- The case of the timer in `reindexLoop`, whose error is logged.
unfoldable pub scheduled_reindex : Matches → Env → Service → Service
scheduled_reindex matches env ms = record ms {
  disk = (index_connect_to matches env ms.self ms.disk).0;
}

-- The case of the channel in `reindexLoop`.
unfoldable pub forced_reindex : Matches → Env → Service → Service
unfolding scheduled_reindex
forced_reindex matches env ms =
    if ms.reindex then record (scheduled_reindex matches env ms) { reindex = false } else ms

-- `CreateAndRun`, up to the first event.
unfoldable pub create_and_run : Text → Disk → Service
unfolding ask_for_index
create_and_run self disk = ask_for_index (record {
  self = self;
  disk = disk;
  nodes = [];
  requests = [];
  reindex = false;
  cancelled = false;
  events = [];
})

-- What the service does, in any order.
pub data Step (matches : Matches) (s t : Service) : Type 0 where
  push :
      (env : Env) (param : Text) (body : Option Text)
      → t ≡ (api_push_node_file env param body s).0
      → Step matches s t
  watch : (subnet : Option Subnet) → t ≡ (api_watch_node subnet s).0 → Step matches s t
  forget : (subnet : Option Subnet) → t ≡ (api_forget_node subnet s).0 → Step matches s t
  kill : t ≡ cancel s → Step matches s t
  request :
      (env : Env) (response : Option Text) (others : List Request) (r : Request)
      (rest : List Request)
      → s.requests ≡ others ++ r ∷ rest
      → t ≡ request_node env response others r rest s
      → Step matches s t
  timer : (env : Env) → t ≡ scheduled_reindex matches env s → Step matches s t
  forced : (env : Env) → t ≡ forced_reindex matches env s → Step matches s t

pub data Reach (matches : Matches) (s : Service) : Service → Type 0 where
  here : Reach matches s s
  next : {t u : Service} → Reach matches s t → Step matches t u → Reach matches s u
