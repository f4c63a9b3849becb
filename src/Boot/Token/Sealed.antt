-- ===== src/Boot/Token/Sealed.antt =====
-- `Encrypt` and `Decrypt` of tincd/boot/token.go, one after the other.
use tinc_boot.Prelude.{
  ℕ, ◌≡◌, ◌<◌, refl, sym, ap, false, [], ◌∷◌, ◌++◌, none, some, length, take, drop, ltb, arith,
  length-append,
}
use tinc_boot.Text.{Text}
use tinc_boot.Boot.Token.{Bytes, nonce_size, Crypto, IsAead, encrypt, decrypt}

pub take-append : (xs ys : Bytes) → take (length xs) (xs ++ ys) ≡ xs
take-append [] ys = refl
take-append (x ∷ xs) ys = ap (◌∷◌ x) (take-append xs ys)

drop-append : (xs ys : Bytes) → drop (length xs) (xs ++ ys) ≡ ys
drop-append [] ys = refl
drop-append (x ∷ xs) ys = drop-append xs ys

long_enough : (xs ys : Bytes) (n : ℕ) → length xs ≡ n → ltb (length (xs ++ ys)) n ≡ false
long_enough xs ys n h = ground (arith, length-append xs ys)

take_nonce : (xs ys : Bytes) (n : ℕ) → length xs ≡ n → take n (xs ++ ys) ≡ xs
take_nonce xs ys n h = rw (sym h) (take-append xs ys)

drop_nonce : (xs ys : Bytes) (n : ℕ) → length xs ≡ n → drop n (xs ++ ys) ≡ ys
drop_nonce xs ys n h = rw (sym h) (drop-append xs ys)

module _ (crypto : Crypto) (aead : IsAead crypto) where
  -- The box that `Encrypt` makes.
  abbrev pub box : Bytes → Text → Bytes → Bytes
  box nonce token plain = nonce ++ crypto.seal (crypto.sum256 token) nonce plain

  pub encrypt-some :
      (nonce : Bytes) (token : Text) (plain : Bytes)
      → encrypt crypto (some nonce) token plain ≡ some (box nonce token plain)
  unfolding encrypt
  encrypt-some nonce token plain = rw (aead.accepts token)

  pub decrypt-box :
      (nonce : Bytes) (token : Text) (plain : Bytes)
      → length nonce ≡ nonce_size
      → decrypt crypto token (box nonce token plain) ≡ some plain
  unfolding decrypt
  decrypt-box nonce token plain h =
      let sealed = crypto.seal (crypto.sum256 token) nonce plain in
      rw (aead.accepts token) (
        rw (long_enough nonce sealed nonce_size h) (
          rw (take_nonce nonce sealed nonce_size h) (
            rw (drop_nonce nonce sealed nonce_size h)
              (aead.opens (crypto.sum256 token) nonce plain h))))

  -- Over a cipher that opens what it sealed, `Encrypt` with a nonce of 24 bytes succeeds, and `Decrypt` of its result under the same token
  -- gives the data back.
  pub decrypt-encrypt :
      (nonce : Bytes) (token : Text) (plain : Bytes)
      → length nonce ≡ nonce_size
      → (sealed : Bytes) × (encrypt crypto (some nonce) token plain ≡ some sealed)
        × (decrypt crypto token sealed ≡ some plain)
  decrypt-encrypt nonce token plain h =
      (box nonce token plain, encrypt-some nonce token plain, decrypt-box nonce token plain h)

-- A box shorter than a nonce is refused, whatever the cipher does.
pub decrypt-short :
    (crypto : Crypto) (token : Text) (packed : Bytes)
    → length packed < nonce_size
    → decrypt crypto token packed ≡ none
unfolding decrypt
decrypt-short crypto token packed h = ground arith
