-- ===== src/Boot/Exchange/Joins.antt =====
-- `ServeHTTP` of tincd/boot/server.go: whom it lets in, what it writes, and what it answers.
use tinc_boot.Prelude.{
  ◌≡◌, ◌≢◌, ◌<◌, refl, sym, ◌∙◌, ap, true, List, [], Option, none, some, take, arith, length, inl,
  inr, In, Option-cases,
}
use tinc_boot.Text.{Text, equal_refl}
use tinc_boot.Text.Strings.{byte_len}
use tinc_boot.Names.{IsName}
use tinc_boot.Daemon.Disk.{Disk, Env, calm}
use tinc_boot.Daemon.Hosts.{ok, is_clean, hosts, add_host}
use tinc_boot.Daemon.Hosts.Stored.{Stored}
use tinc_boot.Daemon.Hosts.Add.{IsOpenAt, IsName-of_is_clean, is_clean_iff, add_host_lem}
use tinc_boot.Daemon.Hosts.Listing.{hosts_complete}
use tinc_boot.Config.Types.{Main}
use tinc_boot.Boot.Token.{Bytes, nonce_size, Crypto, IsAead, decrypt, Envelope, Json, open_envelope}
use tinc_boot.Boot.Token.Sealed.{box, encrypt-some, decrypt-box}
use tinc_boot.Boot.Exchange.{sealed, max_payload, answer, refuse, reply, admit, serve_http}

module _ (crypto : Crypto) (json : Json) (system : Env) (random : Option Bytes) where
  reply-sealed :
      (token : Text) (env : Envelope) (disk : Disk) (b : Bytes)
      → (reply crypto json system random token env disk).response ≡ sealed b
      → (reply crypto json system random token env disk).joined ≡ some env
  unfolding reply answer
  reply-sealed token env disk b h = ground arith

  reply-disk :
      (token : Text) (env : Envelope) (disk : Disk)
      → (reply crypto json system random token env disk).disk ≡ disk
  unfolding reply answer
  reply-disk token env disk = ground arith

  admit-sealed :
      (token : Text) (env : Envelope) (disk : Disk) (b : Bytes)
      → (admit crypto json system random token env disk).response ≡ sealed b
      → (is_clean env.name ≡ true)
        × ((add_host system env.name env.config disk).1 ≡ none)
        × ((admit crypto json system random token env disk).joined ≡ some env)
        × ((admit crypto json system random token env disk).disk
            ≡ (add_host system env.name env.config disk).0)
  unfolding admit
  admit-sealed token env disk b h =
      let d = (add_host system env.name env.config disk).0 in
      ground (arith, reply-sealed token env d b, reply-disk token env d)

  serve_http-open :
      (token : Text) (packed : Bytes) (disk : Disk) (env : Envelope)
      → open_envelope crypto json token (take max_payload packed) ≡ some env
      → serve_http crypto json system random token (some packed) disk
        ≡ admit crypto json system random token env disk
  unfolding serve_http
  serve_http-open token packed disk env e = rw (e, serve_http)

  serve_http-shut :
      (token : Text) (packed : Bytes) (disk : Disk)
      → open_envelope crypto json token (take max_payload packed) ≡ none
      → serve_http crypto json system random token (some packed) disk ≡ refuse 401 disk
  unfolding serve_http
  serve_http-shut token packed disk e = rw (e, serve_http)

  -- A response with status 200 goes only to a body that opens, under the token and within its first
  -- 8192 bytes, to an envelope with a clean name whose host was added; `Joined` is called with that
  -- envelope, and the configuration is what `AddHost` left.
  pub serve_http-sealed :
      (token : Text) (body : Option Bytes) (disk : Disk) (b : Bytes)
      → (serve_http crypto json system random token body disk).response ≡ sealed b
      → (env : Envelope) × (packed : Bytes) × (body ≡ some packed)
        × (open_envelope crypto json token (take max_payload packed) ≡ some env)
        × IsName env.name
        × ((add_host system env.name env.config disk).1 ≡ none)
        × ((serve_http crypto json system random token body disk).joined ≡ some env)
        × ((serve_http crypto json system random token body disk).disk
            ≡ (add_host system env.name env.config disk).0)
  unfolding serve_http
  serve_http-sealed token none disk b h = cc
  serve_http-sealed token (some packed) disk b h =
      elim (Option-cases (open_envelope crypto json token (take max_payload packed))) [
        | inl e ↦ ground (arith, serve_http-shut token packed disk e)
        | inr (env, e) ↦
            let same = serve_http-open token packed disk env e in
            let (clean, wrote, joins, left) =
              admit-sealed token env disk b (sym (ap (λ s. s.response) same) ∙ h) in
            (
              env,
              packed,
              refl,
              e,
              IsName-of_is_clean env.name clean,
              wrote,
              ap (λ s. s.joined) same ∙ joins,
              ap (λ s. s.disk) same ∙ left,
            )
      ]

module _ (crypto : Crypto) (aead : IsAead crypto) (json : Json) where
  reply-calm :
      (nonce : Bytes) (token : Text) (env : Envelope) (disk : Disk) (known : List (Text × Text))
      → hosts calm disk ≡ ok known
      → reply crypto json calm (some nonce) token env disk ≡ record {
        disk = disk;
        response = sealed (box crypto aead nonce token (json.encode_hosts known));
        joined = some env;
      }
  unfolding reply answer
  reply-calm nonce token env disk known e =
      rw (e, reply) (rw (encrypt-some crypto aead nonce token (json.encode_hosts known)))

  admit-calm :
      (random : Option Bytes) (token : Text) (env : Envelope) (disk : Disk)
      → is_clean env.name ≡ true
      → (add_host calm env.name env.config disk).1 ≡ none
      → admit crypto json calm random token env disk
        ≡ reply crypto json calm random token env (add_host calm env.name env.config disk).0
  unfolding admit
  admit-calm random token env disk c a = rw c (rw a)

  -- With no failing call, a nonce of 24 bytes and a configuration directory that `AddHost` can change,
  -- a body whose first 8192 bytes open under the token to an envelope with a clean name of 1 to 59999
  -- bytes is answered with status 200 and a box that decrypts to the encoding of a list of hosts, in
  -- which the one that joined is; the configuration is what `AddHost` leaves, and `Joined` is called
  -- with the envelope.
  pub serve_http-joins :
      (nonce : Bytes) (token : Text) (packed : Bytes) (env : Envelope) (m : Main) (disk : Disk)
      → length nonce ≡ nonce_size
      → open_envelope crypto json token (take max_payload packed) ≡ some env
      → IsName env.name
      → env.name ≢ []
      → byte_len env.name < 60000
      → IsOpenAt env.name disk
      → Stored m disk
      → (known : List (Text × Text)) × (sent : Bytes) × In (env.name, env.config) known
        × (decrypt crypto token sent ≡ some (json.encode_hosts known))
        × (serve_http crypto json calm (some nonce) token (some packed) disk ≡ record {
          disk = (add_host calm env.name env.config disk).0;
          response = sealed sent;
          joined = some env;
        })
  serve_http-joins nonce token packed env m disk h e n ne short o s =
      let (quiet, entries, _, _) = add_host_lem env.name env.config m disk n ne short o s in
      let disk' = (add_host calm env.name env.config disk).0 in
      let own = entries env.name ∙ rw (equal_refl env.name) in
      let (known, listed, member) = hosts_complete disk' env.name env.config n own in
      (
        known,
        box crypto aead nonce token (json.encode_hosts known),
        member,
        decrypt-box crypto aead nonce token (json.encode_hosts known) h,
        serve_http-open crypto json calm (some nonce) token packed disk env e
            ∙ admit-calm (some nonce) token env disk (is_clean_iff env.name n) quiet
            ∙ reply-calm nonce token env disk' known listed,
      )
