-- ===== src/Bootstrap/Handler/Keeps.antt =====
-- What a request to the boot node of cmd/tinc-boot/node/main.go leaves of its files.
use tinc_boot.Prelude.{
  ◌≡◌, ◌⊎◌, refl, sym, subst, true, Option, none, some, length, ◌==◌, arith, Option-cases,
  Bool-cases, inl, inr,
}
use tinc_boot.Text.{Text, equal_iff}
use tinc_boot.Dict.{Dict, lookup, insert, lookup-insert}
use tinc_boot.Daemon.Disk.{
  Item, file, Disk, Env, Outcome, whole, not_opened, cut, cut_in_flush, written,
}
use tinc_boot.Boot.Token.{Bytes, nonce_size}
use tinc_boot.Bootstrap.Cipher.{Cipher}
use tinc_boot.Bootstrap.Handler.{valid_name, write_new, answer, store, open_body, handle}

-- Nothing that was there is changed: tinc.conf is the same, and each entry of hosts/ is.
pub record Keeps (old new : Disk) : Type 0 where
  pub conf : new.conf ≡ old.conf
  pub absent : old.hosts ≡ none → new.hosts ≡ none
  pub entries :
      (entries : Dict Item)
      → old.hosts ≡ some entries
      → (entries' : Dict Item) × (new.hosts ≡ some entries')
        × ((name : Text) (item : Item)
            → lookup name entries ≡ some item
            → lookup name entries' ≡ some item)

Keeps-refl : (d : Disk) → Keeps d d
Keeps-refl d = record { conf = refl; absent = λ h. h; entries = λ es h. (es, h, λ name item k. k) }

inserted :
    (name other content : Text) (entries : Dict Item) (item : Item)
    → lookup name entries ≡ none
    → lookup other entries ≡ some item
    → lookup other (insert name (file content) entries) ≡ some item
inserted name other content entries item new k =
    ground (arith, lookup-insert name other (file content) entries, equal_iff name other)

written-Keeps :
    (o : Outcome) (name content : Text) (entries : Dict Item)
    → lookup name entries ≡ none
    → (other : Text) (item : Item) → lookup other entries ≡ some item
    → lookup other (written o name content entries).0 ≡ some item
unfolding written
written-Keeps whole name content entries h other item k =
    inserted name other content entries item h k
written-Keeps not_opened name content entries h other item k = k
written-Keeps (cut part) name content entries h other item k =
    inserted name other part entries item h k
written-Keeps (cut_in_flush part) name content entries h other item k =
    inserted name other part entries item h k

write_new-Keeps :
    (env : Env) (name content : Text) (disk : Disk) → Keeps disk (write_new env name content disk).0
unfolding write_new
write_new-Keeps env name content disk = record {
  conf = ground arith;
  absent = λ h. ground arith;
  entries = λ es h. elim (Option-cases (lookup name es)) [
    | inl e ↦ (
      (written env.write_host name content es).0,
      ground arith,
      λ other item k. written-Keeps env.write_host name content es e other item k,
    )
    | inr (old, e) ↦ (es, ground arith, λ other item k. k)
  ];
}

module _ (cipher : Cipher) (env : Env) (self token : Text) where
  answer-disk : (nonce : Bytes) (disk : Disk) → (answer cipher env self token nonce disk).0 ≡ disk
  unfolding answer
  answer-disk nonce disk = ground arith

  store-disk :
      (nonce : Bytes) (name content : Text) (disk : Disk)
      → (store cipher env self token nonce name content disk).0
        ≡ (write_new env name content disk).0
  unfolding store
  store-disk nonce name content disk =
      ground (arith, answer-disk nonce (write_new env name content disk).0)

  -- A handled request leaves what it found, or what the storing of one new file leaves.
  abbrev Left : Text → Disk → Disk → Type 0
  Left name old new =
      (new ≡ old)
      ⊎ ((content : Text) × (valid_name name ≡ true) × (new ≡ (write_new env name content old).0))

  open_body-Left :
      (nonce : Bytes) (name : Text) (body : Option Bytes) (disk : Disk)
      → valid_name name ≡ true
      → Left name disk (open_body cipher env self token nonce name body disk).0
  unfolding open_body
  open_body-Left nonce name none disk v = inl refl
  open_body-Left nonce name (some box) disk v =
      elim (Option-cases (cipher.unseal (cipher.sum256 token) nonce box name)) [
        | inl e ↦ inl (ground arith)
        | inr (content, e) ↦ inr (content, v, ground (arith, store-disk nonce name content disk))
      ]

  handle-Left :
      (hexseed name : Text) (body : Option Bytes) (disk : Disk)
      → Left name disk (handle cipher env self token hexseed name body disk).0
  unfolding handle
  handle-Left hexseed name body disk = elim (Option-cases (cipher.hex_decode hexseed)) [
    | inl e ↦ inl (ground arith)
    | inr (nonce, e) ↦ elim (Bool-cases (valid_name name)) [
      | inr v ↦ inl (ground arith)
      | inl v ↦ elim (Bool-cases (length nonce == nonce_size)) [
        | inr n ↦ inl (ground arith)
        | inl n ↦ elim (open_body-Left nonce name body disk v) [
          | inl same ↦ inl (ground arith)
          | inr (content, w, new) ↦ inr (content, w, ground arith)
        ]
      ]
    ]
  ]

  -- No request to the boot node changes its tinc.conf or a file that is in hosts/ already, whatever the
  -- request, the cipher, and the calls that fail.
  pub handle-Keeps :
      (hexseed name : Text) (body : Option Bytes) (disk : Disk)
      → Keeps disk (handle cipher env self token hexseed name body disk).0
  handle-Keeps hexseed name body disk = elim (handle-Left hexseed name body disk) [
    | inl same ↦ subst (λ d. Keeps disk d) (sym same) (Keeps-refl disk)
    | inr (content, _, new) ↦
        subst (λ d. Keeps disk d) (sym new) (write_new-Keeps env name content disk)
  ]
