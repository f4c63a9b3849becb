-- ===== src/Tests/Joining.antt =====
-- Joining and discovery at small inputs.
use tinc_boot.Prelude.{
  ℕ, zero, suc, ◌≡◌, ◌≢◌, ◌<◌, refl, ap, Bool, true, false, List, [], ◌∷◌, ◌++◌, none, some, arith,
  In, All, length, take, drop, if◌then◌else◌,
}
use tinc_boot.Text.{Text, codes, equal}
use tinc_boot.Text.Strings.{byte_len}
use tinc_boot.Names.{IsName}
use tinc_boot.Dict.{lookup}
use tinc_boot.Daemon.Disk.{file, directory, calm}
use tinc_boot.Daemon.Hosts.{is_clean, add_host}
use tinc_boot.Daemon.Hosts.Add.{entry}
use tinc_boot.Daemon.Hosts.Stored.{Stored}
use tinc_boot.Boot.Token.{Bytes, Crypto, IsAead, encrypt, decrypt, Envelope, Json, open_envelope}
use tinc_boot.Boot.Token.Sealed.{decrypt-encrypt}
use tinc_boot.Boot.Exchange.{sealed, max_payload, serve_http, import_hosts}
use tinc_boot.Boot.Exchange.Joins.{serve_http-sealed, serve_http-joins}
use tinc_boot.Boot.Exchange.Imports.{Ready, imported, overlay, link_all, import_hosts_lem}
use tinc_boot.Tests.Inputs.{
  alice, bob, main, disk, bob-IsName, bob-short, bob-IsOpenAt, disk-Stored,
}

-- A cipher that changes nothing.
abbrev pub crypto : Crypto
crypto = record {
  sum256 = λ token. token;
  new_x = λ key. true;
  seal = λ key nonce plain. plain;
  unseal = λ key nonce box. some box;
}

crypto-IsAead : IsAead crypto
crypto-IsAead = record { accepts = λ token. refl; opens = λ key nonce plain h. refl }

abbrev pub flat : List (Text × Text) → Bytes
flat [] = []
flat ((name, content) ∷ hs) = name ++ content ++ flat hs

-- An envelope is its name's length, its name and its configuration.
abbrev pub json : Json
json = record {
  encode = λ env. length env.name ∷ env.name ++ env.config;
  decode =
      λ s. elim s [ [] ↦ none | n ∷ cs ↦ some (record { name = take n cs; config = drop n cs }) ];
  encode_hosts = flat;
  decode_hosts = λ s. none;
}

abbrev replicate : ℕ → Bytes
replicate zero = []
replicate (suc n) = 7 ∷ replicate n

abbrev pub nonce : Bytes
nonce = replicate 24

abbrev bobs : Envelope
bobs = record { name = bob; config = codes "Port = 655" }

abbrev packed : Bytes
packed = nonce ++ 3 ∷ bob ++ codes "Port = 655"

packed-opens : open_envelope crypto json (codes "token") (take max_payload packed) ≡ some bobs
unfolding open_envelope decrypt
packed-opens = refl

decrypt-encrypt_example :
    (box : Bytes) × (encrypt crypto (some nonce) (codes "token") (codes "hell") ≡ some box)
    × (decrypt crypto (codes "token") box ≡ some (codes "hell"))
decrypt-encrypt_example =
    decrypt-encrypt crypto crypto-IsAead nonce (codes "token") (codes "hell") refl

serve_http-joins_example :
    (known : List (Text × Text)) × (sent : Bytes) × In (bobs.name, bobs.config) known
    × (decrypt crypto (codes "token") sent ≡ some (json.encode_hosts known))
    × (serve_http crypto json calm (some nonce) (codes "token") (some packed) disk ≡ record {
      disk = (add_host calm bobs.name bobs.config disk).0;
      response = sealed sent;
      joined = some bobs;
    })
serve_http-joins_example =
    serve_http-joins crypto crypto-IsAead json nonce (codes "token") packed bobs main disk refl
      packed-opens bob-IsName (λ e. cc) bob-short bob-IsOpenAt disk-Stored

bob-joins :
    (known : List (Text × Text)) × (sent : Bytes) × In (bobs.name, bobs.config) known
    × (decrypt crypto (codes "token") sent ≡ some (json.encode_hosts known))
    × (serve_http crypto json calm (some nonce) (codes "token") (some packed) disk ≡ record {
      disk = (add_host calm bobs.name bobs.config disk).0;
      response = sealed sent;
      joined = some bobs;
    })
bob-joins =
    serve_http-joins crypto crypto-IsAead json nonce (codes "token") packed bobs main disk refl
      packed-opens bob-IsName (λ e. cc) bob-short bob-IsOpenAt disk-Stored

serve_http-sealed_example :
    (env : Envelope) × (body : Bytes) × (some packed ≡ some body)
    × (open_envelope crypto json (codes "token") (take max_payload body) ≡ some env)
    × IsName env.name
    × ((add_host calm env.name env.config disk).1 ≡ none)
    × ((serve_http crypto json calm (some nonce) (codes "token") (some packed) disk).joined
        ≡ some env)
    × ((serve_http crypto json calm (some nonce) (codes "token") (some packed) disk).disk
        ≡ (add_host calm env.name env.config disk).0)
serve_http-sealed_example =
    serve_http-sealed crypto json calm (some nonce) (codes "token") (some packed) disk bob-joins.1
      (ap (λ s. s.response) bob-joins.4)

abbrev archive : List (Text × Text)
archive = (codes "../etc", codes "x") ∷ (bob, codes "Port = 655") ∷ []

archive-fit :
    All (λ (h : Text × Text). is_clean h.0 ≡ true → (h.0 ≢ []) × (byte_len h.0 < 60000)) archive
unfolding byte_len
archive-fit = ((λ e. ((λ h. cc), omega arith)), ((λ e. ((λ h. cc), omega arith)), tt))

pub disk-Ready : Ready disk
unfolding lookup
disk-Ready = record {
  entries = (alice, file (codes "Port = 655")) ∷ [];
  is_there = refl;
  files = λ name. only (equal alice name);
}
  where
    only : (b : Bool) → ¬ ((if b then some (file (codes "Port = 655")) else none) ≡ some directory)
    only true e = cc
    only false e = cc

import_hosts_example :
    ((import_hosts calm archive disk).error ≡ none)
    × ((import_hosts calm archive disk).exchanged ≡ imported archive)
    × ((other : Text)
        → entry other (import_hosts calm archive disk).disk
          ≡ overlay other archive (entry other disk))
    × Stored (link_all archive main) (import_hosts calm archive disk).disk
import_hosts_example = import_hosts_lem archive main disk archive-fit disk-Ready disk-Stored
