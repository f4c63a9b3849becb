-- ===== src/Bootstrap/Cipher.antt =====
-- The packages that cmd/tinc-boot/node/main.go and cmd/tinc-boot/gen/main.go call: SHA-256,
-- XChaCha20-Poly1305 with additional data, and encoding/hex. All are parameters.
use tinc_boot.Prelude.{◌≡◌, true, Bool, Option, some, length}
use tinc_boot.Text.{Text}
use tinc_boot.Boot.Token.{Bytes, nonce_size}

-- `seal key nonce plain additional` and `unseal key nonce box additional`; `new_x` is false where
-- `chacha20poly1305.NewX` refuses the key.
pub record Cipher : Type 0 where
  pub sum256 : Text → Bytes
  pub new_x : Bytes → Bool
  pub seal : Bytes → Bytes → Bytes → Bytes → Bytes
  pub unseal : Bytes → Bytes → Bytes → Bytes → Option Bytes
  pub hex_encode : Bytes → Text
  pub hex_decode : Text → Option Bytes

-- What the documentation promises: a digest is a key, opening what was sealed under the same key,
-- nonce and additional data gives the plain text, and decoding what was encoded gives the bytes.
pub record IsCipher (cipher : Cipher) : Type 0 where
  pub accepts : (token : Text) → cipher.new_x (cipher.sum256 token) ≡ true
  pub opens :
      (key nonce plain additional : Bytes)
      → length nonce ≡ nonce_size
      → cipher.unseal key nonce (cipher.seal key nonce plain additional) additional ≡ some plain
  pub decodes : (bytes : Bytes) → cipher.hex_decode (cipher.hex_encode bytes) ≡ some bytes
