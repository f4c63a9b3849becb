-- ===== src/Generator/Promises.antt =====
-- What `Generate` of domain/generator/assemble.go promises of its result.
use tinc_boot.Prelude.{
  ℕ, zero, suc, ◌+◌, ◌<◌, ◌≤◌, ◌≡◌, ◌≢◌, ◌↔◌, refl, sym, ap, ◌∙◌, subst, Bool, true, false, List,
  [], ◌++◌, Option, none, some, length, All, In, if◌then◌else◌, inl, inr, arith, Option-cases,
}
use tinc_boot.Prelude.Int.{ℤ, pos, negsuc}
use tinc_boot.Text.{Text, codes, equal, equal_iff}
use tinc_boot.Names.{IsName, clean_string-IsName}
use tinc_boot.Dict.{Dict}
use tinc_boot.Daemon.Disk.{Item, Env}
use tinc_boot.Generator.{
  Draws, name_undefined, disabled_symbols, Outcome, ok, err, generate_ip, public_nodes,
  find_all_public_nodes, Config, Assembly, or_default, or_number, with_defaults, segments,
  prefix_parts, with_port, assemble, generate,
}
use tinc_boot.Generator.Addresses.{IsIntn, generate_ip_lem}
use tinc_boot.Generator.Publics.{
  IsPublicIn, ok_of, public_nodes-IsPublicIn, IsPublicIn-public_nodes,
}

-- A port that is given is kept, and another is drawn from 1024 to 65534.
pub record IsPort (given chosen : ℤ) : Type 0 where
  kept : given ≢ pos 0 → chosen ≡ given
  drawn : given ≡ pos 0 → (n : ℕ) × (chosen ≡ pos n) × (1024 ≤ n) × (n ≤ 65534)

with_port-IsPort :
    (draws : Draws) (cfg : Config) → IsIntn draws → IsPort cfg.port (with_port draws cfg).port
unfolding with_port IsIntn
with_port-IsPort draws cfg intn = record {
  kept = λ h. given cfg.port h;
  drawn = λ h.
      (1024 + draws 4 64511, rw h, omega arith, below (draws 4 64511) (intn 4 64511 (omega arith)));
}
  where
    given : (port : ℤ) → port ≢ pos 0 → or_number port (1024 + draws 4 64511) ≡ port
    given (pos zero) h = absurd (h refl)
    given (pos (suc n)) h = refl
    given (negsuc n) h = refl

    below : (d : ℕ) → d < 64511 → 1024 + d ≤ 65534
    below d h = omega arith

-- The steps of a `Generate` that succeeds.
record Made (draws : Draws) (env : Env) (dir : Option (Dict Item)) (cfg : Config) (a : Assembly)
    : Type 0 where
  named : (with_defaults cfg).name ≢ []
  config : a.config ≡ with_port draws (with_defaults cfg)
  address : generate_ip draws (with_defaults cfg).prefix ≡ ok a.address
  nodes : find_all_public_nodes env dir ≡ ok a.connect_to

module _ (draws : Draws) (generate_key : ℤ → Option (Text × Text)) (renders : Assembly → Bool)
    (env : Env) (dir : Option (Dict Item)) (cfg : Config) (a : Assembly) where
  assemble-fields :
      (c : Config) (ip : List ℕ) (nodes : List (Text × Text))
      → assemble generate_key renders c ip nodes ≡ ok a
      → (a.config ≡ c) × (a.address ≡ ip) × (a.connect_to ≡ nodes)
  unfolding assemble
  assemble-fields c ip nodes h = elim (Option-cases (generate_key c.key_bits)) [
    | inl e ↦ absurd (ground arith)
    | inr ((public, private), e) ↦ (ground arith, ground arith, ground arith)
  ]

  generate-Made : generate draws generate_key renders env dir cfg ≡ ok a → Made draws env dir cfg a
  unfolding generate
  generate-Made h = elim (ok_of (generate_ip draws (with_defaults cfg).prefix)) [
    | inl (f, e) ↦ absurd (ground arith)
    | inr (ip, e) ↦ elim (ok_of (find_all_public_nodes env dir)) [
      | inl (f, k) ↦ absurd (ground arith)
      | inr (nodes, k) ↦
          let (named, built) =
            reached (equal cfg.name []) (equal (with_defaults cfg).name [])
              (generate_ip draws (with_defaults cfg).prefix) (find_all_public_nodes env dir) ip
              nodes e k h in
          let (config, address, listed) =
            assemble-fields (with_port draws (with_defaults cfg)) ip nodes built in
          record {
            named = λ x.
                named_not (equal (with_defaults cfg).name []) named
                  ((equal_iff (with_defaults cfg).name []).1 x);
            config = config;
            address = e ∙ ap ok (sym address);
            nodes = k ∙ ap ok (sym listed);
          }
    ]
  ]
    where
      named_not : (b : Bool) → b ≡ false → ¬ (b ≡ true)
      named_not b h k = ground arith

      reached :
          (x y : Bool) (i : Outcome (List ℕ)) (j : Outcome (List (Text × Text))) (ip : List ℕ)
          (nodes : List (Text × Text))
          → i ≡ ok ip
          → j ≡ ok nodes
          → (if x
              then err name_undefined
              else if y
              then err disabled_symbols
              else elim i as (λ _. Outcome Assembly) [
                | err e ↦ err e
                | ok ip ↦ elim j as (λ _. Outcome Assembly) [
                  | err e ↦ err e
                  | ok nodes ↦
                      assemble generate_key renders (with_port draws (with_defaults cfg)) ip nodes
                ]
              ])
            ≡ ok a
          → (y ≡ false)
            × (assemble generate_key renders (with_port draws (with_defaults cfg)) ip nodes ≡ ok a)
      reached true y i j ip nodes e k r = absurd (ground arith)
      reached false true i j ip nodes e k r = absurd (ground arith)
      reached false false i j ip nodes e k r = (refl, ground arith)

find_all-public_nodes :
    (env : Env) (dir : Option (Dict Item)) (nodes : List (Text × Text))
    → find_all_public_nodes env dir ≡ ok nodes
    → (entries : Dict Item) × (dir ≡ some entries) × (public_nodes env entries ≡ ok nodes)
unfolding find_all_public_nodes
find_all-public_nodes env none nodes h = absurd (ground arith)
find_all-public_nodes env (some entries) nodes h = (entries, refl, ground arith)

with_defaults-names :
    (cfg : Config) → IsName (with_defaults cfg).name × IsName (with_defaults cfg).network
unfolding with_defaults
with_defaults-names cfg =
    (clean_string-IsName cfg.name, clean_string-IsName (or_default cfg.network (codes "dnet")))

with_defaults-port : (cfg : Config) → (with_defaults cfg).port ≡ cfg.port
unfolding with_defaults
with_defaults-port cfg = refl

with_port-names :
    (draws : Draws) (cfg : Config)
    → ((with_port draws cfg).name ≡ cfg.name) × ((with_port draws cfg).network ≡ cfg.network)
unfolding with_port
with_port-names draws cfg = (refl, refl)

-- A `Generate` that succeeds has chosen a clean name that is not empty.
pub generate-named :
    (draws : Draws) (generate_key : ℤ → Option (Text × Text)) (renders : Assembly → Bool)
    (env : Env) (dir : Option (Dict Item)) (cfg : Config) (a : Assembly)
    → generate draws generate_key renders env dir cfg ≡ ok a
    → IsName a.config.name × (a.config.name ≢ [])
generate-named draws generate_key renders env dir cfg a h =
    let m = generate-Made draws generate_key renders env dir cfg a h in
    let c = with_defaults cfg in
    let (name, network) = with_port-names draws c in
    (rw m.config (rw name (with_defaults-names cfg).0), rw m.config (rw name m.named))

-- Where `rand.Intn(n)` is less than `n`, a `Generate` that succeeds has chosen a clean name that is not
-- empty and a clean name of the network; the given port, or one from 1024 to 65534 where none was given;
-- an address of four bytes that begins with the segments of the prefix (`172.16` by default); and as the
-- nodes to connect to exactly the files of the directory of hosts that mention an address.
pub generate_lem :
    (draws : Draws) (generate_key : ℤ → Option (Text × Text)) (renders : Assembly → Bool)
    (env : Env) (dir : Option (Dict Item)) (cfg : Config) (a : Assembly)
    → IsIntn draws
    → generate draws generate_key renders env dir cfg ≡ ok a
    → (IsName a.config.name × (a.config.name ≢ []) × IsName a.config.network)
      × IsPort cfg.port a.config.port
      × ((length a.address ≡ 4) × All (λ s. s < 256) a.address)
      × ((given : List ℕ) × (rest : List ℕ) × (segments (prefix_parts (with_defaults cfg).prefix)
            ≡ some given)
          × (a.address ≡ given ++ rest))
      × ((entries : Dict Item) × (dir ≡ some entries)
          × ((name content : Text)
              → In (name, content) a.connect_to ↔ IsPublicIn entries (name, content)))
generate_lem draws generate_key renders env dir cfg a intn h =
    let m = generate-Made draws generate_key renders env dir cfg a h in
    let c = with_defaults cfg in
    let clean_network = (with_defaults-names cfg).1 in
    let (clean, named) = generate-named draws generate_key renders env dir cfg a h in
    let (name, network) = with_port-names draws c in
    let (four, bytes, given, rest, parsed, laid) =
      generate_ip_lem draws c.prefix a.address intn m.address in
    let (entries, there, listed) = find_all-public_nodes env dir a.connect_to m.nodes in
    (
      (clean, named, rw m.config (rw network clean_network)),
      rw m.config (
          subst (λ p. IsPort p (with_port draws c).port) (with_defaults-port cfg)
            (with_port-IsPort draws c intn)),
      (four, bytes),
      (given, rest, parsed, laid),
      (
        entries,
        there,
        λ name content. (
          public_nodes-IsPublicIn env entries a.connect_to (name, content) listed,
          λ p. IsPublicIn-public_nodes env entries a.connect_to name content listed p.0 p.1,
        ),
      ),
    )
