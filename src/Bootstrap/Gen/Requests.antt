-- ===== src/Bootstrap/Gen/Requests.antt =====
-- `boot` and `requestBootnode` of cmd/tinc-boot/gen/main.go. The header `X-Node` is taken to have no
-- slash.
use tinc_boot.Prelude.{
  ℕ, zero, suc, Bool, true, false, not, List, [], ◌∷◌, ◌++◌, Option, none, some, if◌then◌else◌,
  ◌==◌,
}
use tinc_boot.Text.{Text, codes}
use tinc_boot.Text.Strings.{contains}
use tinc_boot.Daemon.Disk.{Disk, Env, content_at, write_host, write_file}
use tinc_boot.Boot.Token.{Bytes, nonce_size}
use tinc_boot.Generator.{Draws}
use tinc_boot.Bootstrap.Cipher.{Cipher}
use tinc_boot.Bootstrap.Gen.{Response, Post}

-- The random bytes of the nonce, from place `i` on.
unfoldable pub draw_bytes : Draws → ℕ → ℕ → Bytes
draw_bytes draws i zero = []
draw_bytes draws i (suc n) = draws i 255 ∷ draw_bytes draws (suc i) n

-- The URL of a request.
unfoldable pub request_url : Cipher → Bytes → Text → Text → Text
request_url cipher nonce name url =
    let full = if contains url (codes "://") then url else codes "http://" ++ url in
    full ++ b'/' ∷ cipher.hex_encode nonce ++ b'/' ∷ name

-- The end of `requestBootnode`: the boot node is put before the configuration.
unfoldable pub prepend_bootnode : Env → Text → Disk → Disk × Bool
prepend_bootnode env node disk = if env.read_conf then (disk, false) else elim disk.conf [
  | none ↦ (disk, false)
  | some conf ↦
      let (conf', done) =
        write_file env.write_conf (codes "ConnectTo = " ++ node ++ b'\n' ∷ conf) (some conf) in
      (record disk { conf = conf' }, done)
]

-- `requestBootnode` after the reply is opened.
unfoldable pub store_bootnode : Env → Text → Bytes → Disk → Disk × Bool
unfolding prepend_bootnode
store_bootnode env node plain disk =
    let (disk', done) = write_host env node plain disk in
    if done then prepend_bootnode env node disk' else (disk', false)

module _ (cipher : Cipher) (env : Env) (post : Post) (token name : Text) where
  -- `requestBootnode` after the request.
  unfoldable pub read_reply : Bytes → Option Response → Disk → Disk × Bool
  unfolding store_bootnode
  read_reply nonce none disk = (disk, false)
  read_reply nonce (some response) disk = elim response.body [
    | none ↦ (disk, false)
    | some box ↦
        if not (response.status == 200)
        then (disk, false)
        else elim (cipher.unseal (cipher.sum256 token) nonce box response.node) [
          | none ↦ (disk, false)
          | some plain ↦ store_bootnode env response.node plain disk
        ]
  ]

  -- `requestBootnode`; the flag is false for an error.
  unfoldable pub request_bootnode : Text → Bytes → Bytes → Disk → Disk × Bool
  unfolding read_reply
  request_bootnode url nonce payload disk =
      read_reply nonce (post (request_url cipher nonce name url) payload) disk

  -- The loop over the URLs, which the first success ends.
  unfoldable pub try_urls : List Text → Bytes → Bytes → Disk → Disk × Bool
  try_urls [] nonce payload disk = (disk, false)
  try_urls (url ∷ urls) nonce payload disk =
      let (disk', done) = request_bootnode url nonce payload disk in
      let rest = try_urls urls nonce payload disk' in if done then (disk', true) else rest

  -- `boot`
  unfoldable pub boot : Bool → List Text → Draws → Disk → Disk × Bool
  unfolding try_urls draw_bytes
  boot standalone urls draws disk =
      if standalone
      then (disk, true)
      else if not (cipher.new_x (cipher.sum256 token))
      then (disk, false)
      else elim (content_at env name disk) [
        | none ↦ (disk, false)
        | some content ↦
            let nonce = draw_bytes draws 5 nonce_size in
            try_urls urls nonce (cipher.seal (cipher.sum256 token) nonce content name) disk
      ]
