-- ===== src/Boot/Exchange.antt =====
-- `Server.ServeHTTP` of tincd/boot/server.go and `Client.exchange` of tincd/boot/client.go. The
-- network is a parameter: what the request's body holds, and what a POST returns.
pub mod Joins
pub mod Imports
pub mod Running
pub mod Accepted
use tinc_boot.Prelude.{
  ℕ, zero, suc, ◌≡◌, Bool, true, false, not, List, [], ◌∷◌, Option, none, some, if◌then◌else◌, take,
  ◌==◌,
}
use tinc_boot.Text.{Text, equal}
use tinc_boot.Daemon.Disk.{Disk, Env, read_main}
use tinc_boot.Daemon.Hosts.{HostError, Result, ok, err, is_clean, host, hosts, add_host}
use tinc_boot.Boot.Token.{
  Bytes, Crypto, encrypt, decrypt, Envelope, Json, seal_envelope, open_envelope,
}

-- What the server answers: a status other than 200 with a message, 200 with a body, or nothing
-- because the handler panicked.
pub data Response : Type 0 where
  failed : ℕ → Response
  sealed : Bytes → Response
  aborted : Response

-- `maxPayload`
abbrev pub max_payload : ℕ
max_payload = 8192

-- What a request leaves: the configuration, the response, and the envelope that `Joined` is called
-- with, if it is.
pub record Served : Type 0 where
  pub disk : Disk
  pub response : Response
  pub joined : Option Envelope

-- The server's answer after the host is added.
unfoldable pub answer : Option Bytes → Envelope → Disk → Served
answer none env disk = record { disk = disk; response = aborted; joined = none }
answer (some box) env disk = record { disk = disk; response = sealed box; joined = some env }

abbrev pub refuse : ℕ → Disk → Served
refuse status disk = record { disk = disk; response = failed status; joined = none }

module _ (crypto : Crypto) (json : Json) (system : Env) (random : Option Bytes) where
  -- `ServeHTTP` from the listing of the hosts on.
  unfoldable pub reply : Text → Envelope → Disk → Served
  reply token env disk = elim (hosts system disk) [
    | err _ ↦ refuse 500 disk
    | ok known ↦ answer (encrypt crypto random token (json.encode_hosts known)) env disk
  ]

  -- `ServeHTTP` of an opened envelope.
  unfoldable pub admit : Text → Envelope → Disk → Served
  admit token env disk =
      if not (is_clean env.name)
      then refuse 422 disk
      else let (disk', failure) = add_host system env.name env.config disk in
        elim failure [ some _ ↦ refuse 500 disk' | none ↦ reply token env disk' ]

  -- `ServeHTTP`; a body that cannot be read is missing.
  unfoldable pub serve_http : Text → Option Bytes → Disk → Served
  serve_http token none disk = refuse 400 disk
  serve_http token (some body) disk =
      elim (open_envelope crypto json token (take max_payload body)) [
        | none ↦ refuse 401 disk
        | some env ↦ admit token env disk
      ]

-- Why an exchange stops.
pub data ExchangeError : Type 0 where
  read_main_config encrypt_envelope execute_request read_data decrypt_data decode_archive :
      ExchangeError
  read_self_hosts : HostError → ExchangeError
  unexpected_status : ℕ → ExchangeError
  import_host : HostError → ExchangeError

-- What a POST gives: an error, or a status and a body, which may fail to be read.
abbrev pub Post : Type 0
Post = Bytes → Option (ℕ × Option Bytes)

-- What an exchange leaves: the configuration, the names that `Exchanged` was called with, and the
-- error, if any.
pub record Exchange : Type 0 where
  pub disk : Disk
  pub exchanged : List Text
  pub error : Option ExchangeError

abbrev pub give_up : ExchangeError → Disk → Exchange
give_up e disk = record { disk = disk; exchanged = []; error = some e }

-- The call of `Exchanged` before the rest of the archive.
abbrev pub announce : Text → Exchange → Exchange
announce name rest = record rest { exchanged = name ∷ rest.exchanged }

-- The loop over the archive, in the order in which it visits the map. A name that is not clean is
-- passed over, and the first failure ends the loop.
unfoldable pub import_hosts : Env → List (Text × Text) → Disk → Exchange
import_hosts system [] disk = record { disk = disk; exchanged = []; error = none }
import_hosts system ((name, content) ∷ archive) disk =
    let (disk', failure) = add_host system name content disk in
    let skipped = import_hosts system archive disk in
    let rest = import_hosts system archive disk' in
    if not (is_clean name)
    then skipped
    else elim failure [ some e ↦ give_up (import_host e) disk' | none ↦ announce name rest ]

-- `readName`, with the name that the client keeps.
unfoldable pub read_name : Env → Text → Disk → Option Text
read_name system kept disk =
    if not (equal kept [])
    then some kept
    else elim (read_main system disk) [ none ↦ none | some main ↦ some main.name ]

module _ (crypto : Crypto) (json : Json) (system : Env) where
  -- `exchange` from the response's body on.
  unfoldable pub take_archive : Text → Option Bytes → Disk → Exchange
  take_archive token none disk = give_up read_data disk
  take_archive token (some box) disk = elim (decrypt crypto token box) [
    | none ↦ give_up decrypt_data disk
    | some plain ↦ elim (json.decode_hosts plain) [
      | none ↦ give_up decode_archive disk
      | some archive ↦ import_hosts system archive disk
    ]
  ]

  -- `exchange` from the POST on.
  unfoldable pub send : Post → Text → Bytes → Disk → Exchange
  send post token box disk = elim (post box) [
    | none ↦ give_up execute_request disk
    | some (status, body) ↦
        if not (status == 200)
        then give_up (unexpected_status status) disk
        else take_archive token body disk
  ]

  -- `exchange` with the client's own host file.
  unfoldable pub introduce : Post → Option Bytes → Text → Text → Text → Disk → Exchange
  introduce post random token name content disk =
      elim (seal_envelope crypto json random token (record { name = name; config = content })) [
        | none ↦ give_up encrypt_envelope disk
        | some box ↦ send post token box disk
      ]

  -- `exchange`; `kept` is the name that the client read before, if it did.
  unfoldable pub exchange : Post → Option Bytes → Text → Text → Disk → Exchange
  exchange post random token kept disk = elim (read_name system kept disk) [
    | none ↦ give_up read_main_config disk
    | some name ↦ elim (host system name disk) [
      | err e ↦ give_up (read_self_hosts e) disk
      | ok content ↦ introduce post random token name content disk
    ]
  ]

-- What one attempt to join meets. The context is cancelled, or not, while the client waits after it.
pub record Attempt : Type 0 where
  pub system : Env
  pub post : Post
  pub random : Option Bytes
  pub cancelled : Bool

-- The name that the client keeps after `readName`.
unfoldable pub kept_name : Env → Text → Disk → Text
kept_name system kept disk = elim (read_name system kept disk) [ none ↦ kept | some name ↦ name ]

-- `Run`: exchanges until one ends without an error or the context is cancelled; the flag says whether
-- `Complete` is called.
unfoldable pub run : Crypto → Json → Text → List Attempt → Text → Disk → Disk × Bool
run crypto json token [] kept disk = (disk, false)
run crypto json token (a ∷ attempts) kept disk =
    let x = exchange crypto json a.system a.post a.random token kept disk in
    let again = run crypto json token attempts (kept_name a.system kept disk) x.disk in
    elim x.error [ none ↦ (x.disk, true) | some _ ↦ if a.cancelled then (x.disk, false) else again ]
