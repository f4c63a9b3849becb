-- ===== src/Boot/Exchange/Running.antt =====
-- The attempts of `Run` and `exchange` of tincd/boot/client.go.
use tinc_boot.Prelude.{
  ◌≡◌, refl, ◌∙◌, Bool, true, false, List, [], ◌∷◌, Option, none, some, if◌then◌else◌, inl, inr,
  ◌⊎◌, Option-cases, Bool-cases, ◌==◌,
}
use tinc_boot.Text.{Text}
use tinc_boot.Names.{IsName}
use tinc_boot.Daemon.Disk.{Disk, Env}
use tinc_boot.Daemon.Hosts.{Result, ok, err, host}
use tinc_boot.Daemon.Hosts.Add.{entry}
use tinc_boot.Boot.Token.{Bytes, Crypto, Json, decrypt, seal_envelope}
use tinc_boot.Boot.Exchange.{
  Exchange, ExchangeError, Post, Attempt, read_name, kept_name, take_archive, send, introduce,
  exchange, run, give_up, encrypt_envelope, read_self_hosts,
}
use tinc_boot.Boot.Exchange.Imports.{import_hosts-confined}

-- An entry of hosts/ is as it was, or its name is clean.
abbrev pub IsConfined : Text → Disk → Disk → Type 0
IsConfined other before after = (entry other after ≡ entry other before) ⊎ IsName other

module _ (crypto : Crypto) (json : Json) (system : Env) (disk : Disk) (other : Text) where
  take_archive-IsConfined :
      (token : Text) (body : Option Bytes)
      → IsConfined other disk (take_archive crypto json system token body disk).disk
  unfolding take_archive
  take_archive-IsConfined token none = inl refl
  take_archive-IsConfined token (some box) = elim (Option-cases (decrypt crypto token box)) [
    | inl e ↦ rw (e, take_archive) (inl refl)
    | inr (plain, e) ↦
        rw (e, take_archive)
          (elim (Option-cases (json.decode_hosts plain)) [
            | inl d ↦ rw d (inl refl)
            | inr (archive, d) ↦ rw d (elim (import_hosts-confined system archive disk other) [
              | inl same ↦ inl same
              | inr (n, _) ↦ inr n
            ])
          ])
  ]

  send-IsConfined :
      (post : Post) (token : Text) (box : Bytes)
      → IsConfined other disk (send crypto json system post token box disk).disk
  unfolding send
  send-IsConfined post token box = elim (Option-cases (post box)) [
    | inl e ↦ rw (e, send) (inl refl)
    | inr ((status, body), e) ↦
        rw (e, send)
          (elim (Bool-cases (status == 200)) [
            | inl s ↦ rw s (take_archive-IsConfined token body)
            | inr s ↦ rw s (inl refl)
          ])
  ]

  exchange-IsConfined :
      (post : Post) (random : Option Bytes) (token kept : Text)
      → IsConfined other disk (exchange crypto json system post random token kept disk).disk
  unfolding exchange introduce
  exchange-IsConfined post random token kept = elim (Option-cases (read_name system kept disk)) [
    | inl e ↦ rw (e, exchange) (inl refl)
    | inr (name, e) ↦ rw (e, exchange) (told name (host system name disk))
  ]
    where
      sent :
          (sealed : Option Bytes)
          → IsConfined other disk
              (elim sealed as (λ _. Exchange) [
                | none ↦ give_up encrypt_envelope disk
                | some box ↦ send crypto json system post token box disk
              ]).disk
      sent none = inl refl
      sent (some box) = send-IsConfined post token box

      told :
          (name : Text) (r : Result Text)
          → IsConfined other disk
              (elim r as (λ _. Exchange) [
                | err e ↦ give_up (read_self_hosts e) disk
                | ok content ↦ introduce crypto json system post random token name content disk
              ]).disk
      told name (err e) = inl refl
      told name (ok content) =
          sent (seal_envelope crypto json random token (record { name = name; config = content }))

IsConfined-trans :
    (other : Text) (a b c : Disk)
    → IsConfined other a b
    → IsConfined other b c
    → IsConfined other a c
IsConfined-trans other a b c (inl p) (inl q) = inl (q ∙ p)
IsConfined-trans other a b c (inl p) (inr n) = inr n
IsConfined-trans other a b c (inr n) q = inr n

-- Whatever the server sends, whatever fails, and however often the client tries again, joining changes
-- among the entries of hosts/ only those whose name has just the characters a-z and 0-9.
pub run-confined :
    (crypto : Crypto) (json : Json) (token : Text) (attempts : List Attempt) (kept : Text)
    (disk : Disk) (other : Text)
    → (entry other (run crypto json token attempts kept disk).0 ≡ entry other disk) ⊎ IsName other
unfolding run
run-confined crypto json token [] kept disk other = inl refl
run-confined crypto json token (a ∷ attempts) kept disk other =
    let x = exchange crypto json a.system a.post a.random token kept disk in
    let once = exchange-IsConfined crypto json a.system disk other a.post a.random token kept in
    let again =
      run-confined crypto json token attempts (kept_name a.system kept disk) x.disk other in
    let later = run crypto json token attempts (kept_name a.system kept disk) x.disk in
    ended x.disk later x.error a.cancelled once
      (IsConfined-trans other disk x.disk later.0 once again)
  where
    ended :
        (now : Disk) (later : Disk × Bool) (error : Option ExchangeError) (cancelled : Bool)
        → IsConfined other disk now
        → IsConfined other disk later.0
        → IsConfined other disk
            (elim error as (λ _. Disk × Bool) [
              | none ↦ (now, true)
              | some _ ↦ if cancelled then (now, false) else later
            ]).0
    ended now later none cancelled p q = p
    ended now later (some _) true p q = p
    ended now later (some _) false p q = q
