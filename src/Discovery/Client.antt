-- ===== src/Discovery/Client.antt =====
-- tincd/discovery/client.go: a requester per peer asks it for the nodes that it knows. The network
-- is a parameter: what a GET of a URL returns.
pub mod Rounds
pub mod Missing
pub mod CatchUp
pub mod Kept
pub mod Loop
pub mod Watching
use tinc_boot.Prelude.{
  ℕ, ◌≡◌, Bool, true, false, not, ◌||◌, List, [], ◌∷◌, ◌++◌, Option, none, some, if◌then◌else◌,
  ◌==◌,
}
use tinc_boot.Prelude.Int.{ℤ}
use tinc_boot.Text.{Text, codes, equal}
use tinc_boot.Dict.{Dict, lookup, insert, erase, keys}
use tinc_boot.Numbers.{parse_int}
use tinc_boot.Daemon.Disk.{Disk, Env}
use tinc_boot.Daemon.Hosts.{HostError, add_host}
use tinc_boot.Discovery.Ssd.{Entity, Ssd, can_be_merged, replace_if_newer}
use tinc_boot.Discovery.Ssd.Storage.{Json, Faults, SaveError, Files, save}

-- A response: the two headers are empty where they are missing, and a body that cannot be read is
-- missing.
pub record Reply : Type 0 where
  pub status : ℕ
  pub x_name : Text
  pub x_version : Text
  pub body : Option Text

-- What a GET of a URL returns; none where the request cannot be made or sent.
abbrev pub Network : Type 0
Network = Text → Option Reply

-- The URLs of `fetchHeaders` and `fetchContent`.
unfoldable pub hosts_url : Text → Text
hosts_url address = codes "http://" ++ address ++ codes "/hosts"

unfoldable pub host_url : Text → Text → Text
host_url address name = codes "http://" ++ address ++ codes "/host/" ++ name ++ codes "?after=-1"

-- `fetchContent` of a response.
unfoldable pub read_content : Reply → Option (Text × Entity)
read_content reply =
    if not (reply.status == 200)
    then none
    else if equal reply.x_name []
    then none
    else elim (parse_int reply.x_version) [
      | none ↦ none
      | some version ↦ elim reply.body [
        | none ↦ none
        | some content ↦ some (content, record { name = reply.x_name; version = version })
      ]
    ]

-- `fetchContent`
unfoldable pub fetch_content : Network → Text → Entity → Option (Text × Entity)
unfolding host_url
fetch_content get address entity = elim (get (host_url address entity.name)) [
  | none ↦ none
  | some reply ↦ read_content reply
]

-- `fetchHeaders`
unfoldable pub fetch_headers : Json → Network → Text → Option (List Entity)
unfolding hosts_url
fetch_headers json get address = elim (get (hosts_url address)) [
  | none ↦ none
  | some reply ↦
      if not (reply.status == 200)
      then none
      else elim reply.body [ none ↦ none | some content ↦ json.decode content ]
]

-- What a round works on.
pub record Gathered : Type 0 where
  pub ssd : Ssd
  pub disk : Disk
  pub changed : Bool

abbrev pub accepted : Option HostError → Bool
accepted none = true
accepted (some _) = false

-- The block that `gatherInfo` passes to `ReplaceIfNewer`.
unfoldable pub save_host : Env → Text → Text → Disk → Disk × Bool
save_host system name content disk =
    let (disk', failure) = add_host system name content disk in (disk', accepted failure)

-- `changed = changed || rq.ssd.ReplaceIfNewer(...)`: the call is made only if nothing has changed.
unfoldable pub merge_content : Env → Text → Entity → Gathered → Gathered
unfolding save_host
merge_content system content info st =
    if st.changed
    then st
    else let ((ssd', disk'), merged) =
        replace_if_newer st.ssd info (some (save_host system info.name content)) st.disk in
      record { ssd = ssd'; disk = disk'; changed = merged }

-- The loop of `gatherInfo`.
unfoldable pub gather : Env → Network → Text → List Entity → Gathered → Gathered
gather system get address [] st = st
gather system get address (entity ∷ entities) st =
    let skipped = gather system get address entities st in
    if not (can_be_merged st.ssd entity) then skipped else elim (fetch_content get address entity) [
      | none ↦ skipped
      | some (content, info) ↦
          gather system get address entities (merge_content system content info st)
    ]

-- Why a round fails.
pub data RoundError : Type 0 where
  fetch_failed : RoundError
  save_failed : SaveError → RoundError

-- What a round leaves: the table, the configuration, the files, and the error, if any.
pub record Round : Type 0 where
  pub ssd : Ssd
  pub disk : Disk
  pub files : Files
  pub error : Option RoundError

-- The end of `gatherInfo`: the table is saved if it changed.
unfoldable pub finish : Json → Faults → Text → Gathered → Files → Round
finish json faults tmp st files =
    if not st.changed
    then record { ssd = st.ssd; disk = st.disk; files = files; error = none }
    else let (files', failure) = save json faults tmp st.ssd files in
      record {
        ssd = st.ssd;
        disk = st.disk;
        files = files';
        error = elim failure [ none ↦ none | some e ↦ some (save_failed e) ];
      }

-- `gatherInfo`
unfoldable pub gather_info :
    Json → Env → Faults → Text → Network → Text → Ssd → Disk → Files → Round
gather_info json system faults tmp get address ssd disk files =
    elim (fetch_headers json get address) [
      | none ↦ record { ssd = ssd; disk = disk; files = files; error = some fetch_failed }
      | some entities ↦
          finish json faults tmp
            (gather system get address entities
              (record { ssd = ssd; disk = disk; changed = false }))
            files
    ]

-- What one round meets: the calls that fail, the temporary file's name, and the network.
pub record Visit : Type 0 where
  pub system : Env
  pub faults : Faults
  pub tmp : Text
  pub get : Network

-- `runLoop`: a round, whatever the one before returned, until the context is cancelled; the list has
-- the rounds until then.
unfoldable pub run_rounds : Json → Text → List Visit → Ssd → Disk → Files → Ssd × Disk × Files
run_rounds json address [] ssd disk files = (ssd, disk, files)
run_rounds json address (v ∷ visits) ssd disk files =
    let r = gather_info json v.system v.faults v.tmp v.get address ssd disk files in
    run_rounds json address visits r.ssd r.disk r.files

-- `requester`: its address, and whether its context is cancelled.
pub record Requester : Type 0 where
  pub address : Text
  pub cancelled : Bool

abbrev pub cancel : Requester → Requester
cancel rq = record rq { cancelled = true }

-- The requesters of a `Client`, by address. `Watch` makes the map if it is nil, so nil is the
-- empty map here.
abbrev pub Requesters : Type 0
Requesters = Dict Requester

-- `Watch`
unfoldable pub watch : Text → Requesters → Requesters × Bool
watch address rqs = elim (lookup address rqs) [
  | some _ ↦ (rqs, false)
  | none ↦ (insert address (record { address = address; cancelled = false }) rqs, true)
]

-- `Forget`; it waits for the requester that it returns to end.
unfoldable pub forget : Text → Requesters → Requesters × Option Requester
forget address rqs = elim (lookup address rqs) [
  | none ↦ (rqs, none)
  | some rq ↦ (erase address rqs, some (cancel rq))
]

-- The loops of `Close`.
unfoldable pub cancel_all : Requesters → List Requester
cancel_all [] = []
cancel_all ((address, rq) ∷ rqs) = cancel rq ∷ cancel_all rqs

-- `Close`
unfoldable pub close : Requesters → Requesters × List Requester
unfolding cancel_all
close rqs = ([], cancel_all rqs)
