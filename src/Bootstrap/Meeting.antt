-- ===== src/Bootstrap/Meeting.antt =====
-- `boot` of cmd/tinc-boot/gen/main.go against the handler of cmd/tinc-boot/node/main.go.
use tinc_boot.Prelude.{
  ℕ, zero, suc, ◌≡◌, ◌≢◌, refl, ap, ◌∙◌, true, false, List, [], ◌∷◌, ◌++◌, Option, none, some,
  length, arith, Option-cases, inl, inr,
}
use tinc_boot.Text.{Text, codes, equal_iff}
use tinc_boot.Names.{IsName}
use tinc_boot.Dict.{Dict, lookup, insert, lookup-insert}
use tinc_boot.Daemon.Disk.{
  Item, file, directory, Disk, calm, content_at, write_host, write_file, write_entry, written,
}
use tinc_boot.Boot.Token.{Bytes, nonce_size}
use tinc_boot.Generator.{Draws}
use tinc_boot.Bootstrap.Cipher.{Cipher, IsCipher}
use tinc_boot.Bootstrap.Handler.{
  valid_name, write_new, Reply, refused, accepted, answer, store, open_body, handle,
}
use tinc_boot.Bootstrap.Gen.{Response, Post}
use tinc_boot.Bootstrap.Gen.Requests.{
  draw_bytes, request_url, prepend_bootnode, store_bootnode, read_reply, request_bootnode, try_urls,
  boot,
}

-- What a client sees of a reply.
abbrev pub response_of : Reply → Response
response_of (refused status) = record { status = status; node = []; body = some [] }
response_of (accepted node box) = record { status = 200; node = node; body = some box }

draw_bytes-length : (draws : Draws) (i n : ℕ) → length (draw_bytes draws i n) ≡ n
unfolding draw_bytes
draw_bytes-length draws i zero = refl
draw_bytes-length draws i (suc n) = ap suc (draw_bytes-length draws (suc i) n)

valid_name-of_IsName : (name : Text) → IsName name → name ≢ [] → valid_name name ≡ true
unfolding valid_name
valid_name-of_IsName [] h ne = absurd (ne refl)
valid_name-of_IsName (c ∷ cs) h ne = ground arith

-- A configuration directory with both parts.
abbrev pub disk_of : Text → Dict Item → Disk
disk_of conf entries = record { conf = some conf; hosts = some entries }

content_at-file :
    (name content : Text) (conf : Option Text) (entries : Dict Item)
    → lookup name entries ≡ some (file content)
    → content_at calm name (record { conf = conf; hosts = some entries }) ≡ some content
unfolding content_at
content_at-file name content conf entries h = ground arith

write_new-new :
    (name content : Text) (conf : Option Text) (entries : Dict Item)
    → lookup name entries ≡ none
    → write_new calm name content (record { conf = conf; hosts = some entries })
      ≡ (record { conf = conf; hosts = some (insert name (file content) entries) }, true)
unfolding write_new written
write_new-new name content conf entries h = ground arith

still_known :
    (name self own : Text) (item : Item) (entries : Dict Item)
    → lookup name entries ≡ none
    → lookup self entries ≡ some item
    → lookup self (insert name (file own) entries) ≡ some item
still_known name self own item entries new known =
    ground (arith, lookup-insert name self (file own) entries, equal_iff name self)

module _ (cipher : Cipher) (lawful : IsCipher cipher) (token name self own theirs : Text) where
  abbrev reply_box : Bytes → Bytes
  reply_box nonce = cipher.seal (cipher.sum256 token) nonce theirs self

  store-new :
      (nonce : Bytes) (conf : Option Text) (entries : Dict Item)
      → lookup name entries ≡ none
      → lookup self entries ≡ some (file theirs)
      → store cipher calm self token nonce name own (record { conf = conf; hosts = some entries })
        ≡ (
          record { conf = conf; hosts = some (insert name (file own) entries) },
          accepted self (reply_box nonce),
        )
  unfolding store answer
  store-new nonce conf entries new known =
      let after : Dict Item = insert name (file own) entries in
      ground (
        arith,
        write_new-new name own conf entries new,
        content_at-file self theirs conf after
            (still_known name self own (file theirs) entries new known),
      )

  -- The boot node's side: a sealed request of a new name is stored and answered.
  handle-new :
      (nonce : Bytes) (conf : Option Text) (entries : Dict Item)
      → length nonce ≡ nonce_size
      → IsName name
      → name ≢ []
      → lookup name entries ≡ none
      → lookup self entries ≡ some (file theirs)
      → handle cipher calm self token
          (cipher.hex_encode nonce)
          name
          (some (cipher.seal (cipher.sum256 token) nonce own name))
          (record { conf = conf; hosts = some entries })
        ≡ (
          record { conf = conf; hosts = some (insert name (file own) entries) },
          accepted self (reply_box nonce),
        )
  unfolding handle open_body
  handle-new nonce conf entries len clean ne new known = ground (
    arith,
    lawful.decodes nonce,
    lawful.opens (cipher.sum256 token) nonce own name len,
    valid_name-of_IsName name clean ne,
    store-new nonce conf entries new known,
  )

  abbrev linked_to : Text → Text
  linked_to conf = codes "ConnectTo = " ++ self ++ b'\n' ∷ conf

  write_peer :
      (conf : Text) (entries : Dict Item)
      → self ≢ []
      → lookup self entries ≢ some directory
      → write_host calm self theirs (disk_of conf entries)
        ≡ (disk_of conf (insert self (file theirs) entries), true)
  unfolding write_host write_entry written
  write_peer conf entries ne free = named self ne free
    where
      named :
          (s : Text)
          → s ≢ []
          → lookup s entries ≢ some directory
          → write_host calm s theirs (disk_of conf entries)
            ≡ (disk_of conf (insert s (file theirs) entries), true)
      named [] n f = absurd (n refl)
      named (c ∷ cs) n f = elim (Option-cases (lookup (c ∷ cs) entries)) [
        | inl e ↦ ground arith
        | inr (directory, e) ↦ absurd (f e)
        | inr (file old, e) ↦ ground arith
      ]

  store_bootnode-new :
      (conf : Text) (entries : Dict Item)
      → self ≢ []
      → lookup self entries ≢ some directory
      → store_bootnode calm self theirs (disk_of conf entries)
        ≡ (disk_of (linked_to conf) (insert self (file theirs) entries), true)
  unfolding store_bootnode prepend_bootnode write_file
  store_bootnode-new conf entries ne free = ground (arith, write_peer conf entries ne free)

  module _ (post : Post) where
    -- The new node's side: the answer is stored and linked.
    read_reply-accepted :
        (nonce : Bytes) (conf : Text) (entries : Dict Item)
        → length nonce ≡ nonce_size
        → self ≢ []
        → lookup self entries ≢ some directory
        → read_reply cipher calm post token name nonce
            (some (response_of (accepted self (reply_box nonce))))
            (disk_of conf entries)
          ≡ (disk_of (linked_to conf) (insert self (file theirs) entries), true)
    unfolding read_reply
    read_reply-accepted nonce conf entries len ne free = ground (
      arith,
      lawful.opens (cipher.sum256 token) nonce theirs self len,
      store_bootnode-new conf entries ne free,
    )

    -- A new node whose name is clean and not empty and whose own file is there, and whose first URL
    -- leads to a boot node under the same token that has a file under its own name and none under
    -- the new one, ends `boot` with success, where no call on the files fails, the boot node's name
    -- is not empty and not that of a directory of the new node, both have a hosts/, the new node
    -- has a tinc.conf, and the cipher opens what it sealed: the boot node has stored the new node's
    -- file, the new node has stored the boot node's, and its tinc.conf has got one line before the
    -- old text, which links the boot node.
    pub boot-handle :
        (draws : Draws) (url : Text) (urls : List Text) (conf : Text)
        (entries boot_entries : Dict Item) (boot_conf : Option Text)
        → IsName name
        → name ≢ []
        → self ≢ []
        → lookup name entries ≡ some (file own)
        → lookup self entries ≢ some directory
        → lookup name boot_entries ≡ none
        → lookup self boot_entries ≡ some (file theirs)
        → ((nonce : Bytes) (payload : Bytes)
            → post (request_url cipher nonce name url) payload
              ≡ some (
                  response_of
                    (handle cipher calm self token
                      (cipher.hex_encode nonce)
                      name
                      (some payload)
                      (record { conf = boot_conf; hosts = some boot_entries })).1))
        → let nonce = draw_bytes draws 5 nonce_size in
          (boot cipher calm post token name false (url ∷ urls) draws (disk_of conf entries)
            ≡ (disk_of (linked_to conf) (insert self (file theirs) entries), true))
          × ((handle cipher calm self token
                (cipher.hex_encode nonce)
                name
                (some (cipher.seal (cipher.sum256 token) nonce own name))
                (record { conf = boot_conf; hosts = some boot_entries })).0
              ≡ record { conf = boot_conf; hosts = some (insert name (file own) boot_entries) })
    unfolding boot try_urls request_bootnode
    boot-handle draws url urls conf entries boot_entries boot_conf clean ne named has free new known
          reaches =
        let nonce = draw_bytes draws 5 nonce_size in
        let len = draw_bytes-length draws 5 nonce_size in
        let served = handle-new nonce boot_conf boot_entries len clean ne new known in
        let sealed = cipher.seal (cipher.sum256 token) nonce own name in
        let arrives = reaches nonce sealed ∙ ap (λ p. some (response_of p.1)) served in
        (
          ground (
            arith,
            lawful.accepts token,
            content_at-file name own (some conf) entries has,
            arrives,
            read_reply-accepted nonce conf entries len named free,
          ),
          ap (λ p. p.0) served,
        )
