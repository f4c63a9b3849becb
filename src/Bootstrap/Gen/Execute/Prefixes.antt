-- ===== src/Bootstrap/Gen/Execute/Prefixes.antt =====
-- The prefixes that cmd/tinc-boot/gen/main.go accepts.
use tinc_boot.Prelude.{
  ℕ, ◌-◌, ◌<◌, ◌≤◌, ◌≡◌, ◌⊎◌, ap, subst, true, false, List, [], ◌∷◌, ◌++◌, none, some, length, ltb,
  All, All-append, In, arith, Option-cases, Bool-cases, inl, inr, length-append,
}
use tinc_boot.Text.{Text}
use tinc_boot.Text.Strings.{split}
use tinc_boot.Text.Strings.Trim.{split-All}
use tinc_boot.Numbers.{is_digit, parse_uint, parse_uint-All, parse_uint_bits}
use tinc_boot.Daemon.Disk.{Env}
use tinc_boot.Generator.{Draws, segments, draw_segments}
use tinc_boot.Generator.Addresses.{IsIntn, segments-bytes, draw_segments-bytes}
use tinc_boot.Bootstrap.Cipher.{Cipher}
use tinc_boot.Bootstrap.Gen.{Cmd, Machine, Folder}
use tinc_boot.Bootstrap.Gen.Files.{generate_ip}
use tinc_boot.Bootstrap.Gen.Execute.{
  Failure, missing_arguments, given_name, settle_address, settle, proceed, execute, arguments,
  hostname, binary_path, bad_prefix,
}

part-digits :
    (part : Text) (n : ℕ) → parse_uint_bits 8 part ≡ some n → All (λ c. is_digit c ≡ true) part
unfolding parse_uint_bits
part-digits part n h = elim (Option-cases (parse_uint part)) [
  | inl e ↦ absurd (ground arith)
  | inr (m, e) ↦ parse_uint-All part m e
]

segments-digits :
    (parts : List Text) (given : List ℕ)
    → segments parts ≡ some given
    → All (λ part. All (λ c. is_digit c ≡ true) part) parts
unfolding segments
segments-digits [] given h = tt
segments-digits (part ∷ parts) given h = elim (Option-cases (parse_uint_bits 8 part)) [
  | inl e ↦ absurd (ground arith)
  | inr (n, e) ↦ elim (Option-cases (segments parts)) [
    | inl k ↦ absurd (ground arith)
    | inr (more, k) ↦ (part-digits part n e, segments-digits parts more k)
  ]
]

-- A prefix from which `gen` makes an address is of digits and dots; the address has four bytes.
pub generate_ip-digits :
    (draws : Draws) (prefix : Text) (ip : List ℕ)
    → IsIntn draws
    → generate_ip draws prefix ≡ some ip
    → All (λ c. (is_digit c ≡ true) ⊎ (c ≡ b'.')) prefix × (length ip ≡ 4) × All (λ n. n < 256) ip
unfolding generate_ip
generate_ip-digits draws prefix ip intn h = elim (Option-cases (segments (split b'.' prefix))) [
  | inl e ↦ absurd (ground arith)
  | inr (given, e) ↦ elim (Bool-cases (ltb 4 (length (split b'.' prefix)))) [
    | inl long ↦ absurd (ground arith)
    | inr short ↦
        let (len, bytes) = segments-bytes (split b'.' prefix) given e in
        let rest =
          draw_segments draws (length (split b'.' prefix)) (4 - length (split b'.' prefix)) in
        let (drawn, drawn_bytes) =
          draw_segments-bytes draws (length (split b'.' prefix)) (4 - length (split b'.' prefix))
            intn in
        let same : given ++ rest ≡ ip = ground arith in
        (
          split-All b'.' (λ c. is_digit c ≡ true) prefix
              (segments-digits (split b'.' prefix) given e),
          subst (λ l. length l ≡ 4) same
              (omega (
                arith,
                length-append given rest,
                len,
                drawn,
                fits (length (split b'.' prefix)) short,
              )),
          subst (λ l. All (λ n. n < 256) l) same
              (All-append (λ n. n < 256) given rest bytes drawn_bytes),
        )
  ]
]
  where
    fits : (n : ℕ) → ltb 4 n ≡ false → n ≤ 4
    fits n k = ground arith

In-All : (P : ℕ → Type 0) (c : ℕ) (s : Text) → In c s → All P s → P c
In-All P c [] i h = absurd i
In-All P c (d ∷ s) (inl e) h = subst P e h.0
In-All P c (d ∷ s) (inr i) h = In-All P c s i h.1

slash : (is_digit b'/' ≡ true) ⊎ (◌≡◌ {A = ℕ} b'/' b'.') → ⊥
unfolding is_digit
slash (inl e) = ground arith
slash (inr e) = ground arith

generate_ip-slash :
    (draws : Draws) (prefix : Text)
    → IsIntn draws
    → In b'/' prefix
    → generate_ip draws prefix ≡ none
generate_ip-slash draws prefix intn i = elim (Option-cases (generate_ip draws prefix)) [
  | inl e ↦ e
  | inr (ip, e) ↦ absurd (
      slash (
        In-All (λ c. (is_digit c ≡ true) ⊎ (c ≡ b'.')) b'/' prefix i
          (generate_ip-digits draws prefix ip intn e).0))
]

module _ (machine : Machine) (env : Env) (cipher : Cipher) (cmd : Cmd) where
  settle_address-slash :
      (name binary : Text)
      → generate_ip machine.draws cmd.prefix ≡ none
      → settle_address machine env cipher cmd name binary ≡ (none, some bad_prefix)
  unfolding settle_address
  settle_address-slash name binary h = ground arith

  settle-slash :
      generate_ip machine.draws cmd.prefix ≡ none
      → (f : Failure) × (settle machine env cipher cmd ≡ (none, some f))
  unfolding settle
  settle-slash h = elim (Bool-cases (missing_arguments machine env cipher cmd)) [
    | inl e ↦ (arguments, ground arith)
    | inr e ↦ elim (Option-cases (given_name machine env cipher cmd)) [
      | inl n ↦ (hostname, ground arith)
      | inr (name, n) ↦ elim (Option-cases machine.binary) [
        | inl b ↦ (binary_path, ground arith)
        | inr (binary, b) ↦ (bad_prefix, ground (arith, settle_address-slash name binary h))
      ]
    ]
  ]

  -- With random numbers in their range, `gen` fails, and leaves every file as it is, whatever else
  -- is given, where the prefix has a slash, as in the notation `172.16.0.0/12` of its default.
  pub execute-slash :
      (folder : Folder)
      → IsIntn machine.draws
      → In b'/' cmd.prefix
      → (f : Failure) × (execute machine env cipher cmd folder ≡ (folder, some f))
  unfolding execute proceed
  execute-slash folder intn i =
      let (f, e) = settle-slash (generate_ip-slash machine.draws cmd.prefix intn i) in
      (f, ap (λ r. proceed machine env cipher cmd r folder) e)
