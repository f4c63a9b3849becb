-- ===== src/Boot/Token.antt =====
-- tincd/boot/token.go and `Envelope` of tincd/boot/server.go. SHA-256, XChaCha20-Poly1305 and the
-- system's randomness are packages that the code calls, and encoding/json is the standard
-- library's: all are parameters here.
pub mod Sealed
use tinc_boot.Prelude.{
  ℕ, zero, suc, ◌≡◌, ◌≤◌, Bool, true, false, List, [], ◌∷◌, ◌++◌, Option, none, some, if◌then◌else◌,
  length, take, drop, ltb,
}
use tinc_boot.Text.{Text}

-- Bytes as numbers.
abbrev pub Bytes : Type 0
Bytes = List ℕ

-- `chacha20poly1305.NonceSizeX`
abbrev pub nonce_size : ℕ
nonce_size = 24

-- The calls that `Token` makes. `new_x` is false where `chacha20poly1305.NewX` refuses the key.
pub record Crypto : Type 0 where
  pub sum256 : Text → Bytes
  pub new_x : Bytes → Bool
  pub seal : Bytes → Bytes → Bytes → Bytes
  pub unseal : Bytes → Bytes → Bytes → Option Bytes

-- What the documentation of these packages promises: a digest of 32 bytes is a key, and opening
-- what was sealed under the same key and nonce gives the plain text.
pub record IsAead (crypto : Crypto) : Type 0 where
  pub accepts : (token : Text) → crypto.new_x (crypto.sum256 token) ≡ true
  pub opens :
      (key nonce plain : Bytes)
      → length nonce ≡ nonce_size
      → crypto.unseal key nonce (crypto.seal key nonce plain) ≡ some plain

module _ (crypto : Crypto) where
  -- `Encrypt`, with the nonce that the system's randomness gives; none where it panics. A source
  -- of randomness that fails is a missing nonce.
  unfoldable pub encrypt : Option Bytes → Text → Bytes → Option Bytes
  encrypt random token plain =
      let key = crypto.sum256 token in
      if crypto.new_x key
      then elim random [ none ↦ none | some nonce ↦ some (nonce ++ crypto.seal key nonce plain) ]
      else none

  -- `Decrypt`
  unfoldable pub decrypt : Text → Bytes → Option Bytes
  decrypt token box =
      let key = crypto.sum256 token in
      if crypto.new_x key
      then if ltb (length box) nonce_size
        then none
        else crypto.unseal key (take nonce_size box) (drop nonce_size box)
      else none

pub record Envelope : Type 0 where
  pub name : Text
  pub config : Text

-- The calls of encoding/json.
pub record Json : Type 0 where
  pub encode : Envelope → Bytes
  pub decode : Bytes → Option Envelope
  pub encode_hosts : List (Text × Text) → Bytes
  pub decode_hosts : Bytes → Option (List (Text × Text))

module _ (crypto : Crypto) (json : Json) where
  -- `Envelope.Seal`
  unfoldable pub seal_envelope : Option Bytes → Text → Envelope → Option Bytes
  seal_envelope random token env = encrypt crypto random token (json.encode env)

  -- `Envelope.Open`
  unfoldable pub open_envelope : Text → Bytes → Option Envelope
  open_envelope token box = elim (decrypt crypto token box) [
    | none ↦ none
    | some plain ↦ json.decode plain
  ]
