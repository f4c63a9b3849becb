-- ===== src/Bootstrap/Handler.antt =====
-- The handler of cmd/tinc-boot/node/main.go. Its route gives it two path segments, so a name has no
-- slash; a name that the test admits is not `.` or `..` either, so it is the name of an entry of hosts/.
pub mod Keeps
use tinc_boot.Prelude.{
  ℕ, ◌≡◌, Bool, true, false, not, ◌&&◌, ◌||◌, List, [], ◌∷◌, Option, none, some, if◌then◌else◌,
  length, ◌==◌,
}
use tinc_boot.Text.{Text, equal}
use tinc_boot.Names.{is_enabled}
use tinc_boot.Dict.{Dict, lookup, insert}
use tinc_boot.Daemon.Disk.{Item, file, directory, Disk, Env, Outcome, written, content_at}
use tinc_boot.Boot.Token.{Bytes, nonce_size}
use tinc_boot.Bootstrap.Cipher.{Cipher}

-- `validNames.MatchString`: the pattern `[a-z0-9]+` is not anchored.
unfoldable pub valid_name : Text → Bool
valid_name [] = false
valid_name (c ∷ cs) = is_enabled c || valid_name cs

-- `WriteFile` at an entry of hosts/, which must be new.
unfoldable pub write_new : Env → Text → Text → Disk → Disk × Bool
unfolding written
write_new env name content disk = elim disk.hosts [
  | none ↦ (disk, false)
  | some entries ↦ elim (lookup name entries) [
    | some _ ↦ (disk, false)
    | none ↦
        let (entries', done) = written env.write_host name content entries in
        (record disk { hosts = some entries' }, done)
  ]
]

-- A status other than 200, or 200 with the header `X-Node` and a body.
pub data Reply : Type 0 where
  refused : ℕ → Reply
  accepted : Text → Bytes → Reply

module _ (cipher : Cipher) (env : Env) (self token : Text) where
  -- The handler from the reading of the node's own file on.
  unfoldable pub answer : Bytes → Disk → Disk × Reply
  answer nonce disk = elim (content_at env self disk) [
    | none ↦ (disk, refused 500)
    | some content ↦ (disk, accepted self (cipher.seal (cipher.sum256 token) nonce content self))
  ]

  -- The handler from `WriteFile` on.
  unfoldable pub store : Bytes → Text → Text → Disk → Disk × Reply
  unfolding write_new answer
  store nonce name content disk =
      let (disk', done) = write_new env name content disk in
      if done then answer nonce disk' else (disk', refused 400)

  -- The handler after the first test of the name; a body that cannot be read is missing.
  unfoldable pub open_body : Bytes → Text → Option Bytes → Disk → Disk × Reply
  unfolding store
  open_body nonce name none disk = (disk, refused 400)
  open_body nonce name (some box) disk = elim (cipher.unseal (cipher.sum256 token) nonce box name) [
    | none ↦ (disk, refused 403)
    | some content ↦
        if not (valid_name name) then (disk, refused 403) else store nonce name content disk
  ]

  -- The handler of `POST /:hexseed/:name`.
  unfoldable pub handle : Text → Text → Option Bytes → Disk → Disk × Reply
  unfolding open_body
  handle hexseed name body disk = elim (cipher.hex_decode hexseed) [
    | none ↦ (disk, refused 403)
    | some nonce ↦
        if not (length nonce == nonce_size)
        then (disk, refused 403)
        else if not (valid_name name)
        then (disk, refused 403)
        else open_body nonce name body disk
  ]
