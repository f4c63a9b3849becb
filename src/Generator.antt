-- ===== src/Generator.antt =====
-- domain/generator/assemble.go: the configuration of a new node. Random numbers, the keys and the
-- rendering of the script are parameters.
pub mod Addresses
pub mod Publics
pub mod Promises
use tinc_boot.Prelude.{
  ℕ, zero, suc, ◌+◌, ◌-◌, ◌≡◌, Bool, true, false, not, List, [], ◌∷◌, ◌++◌, Option, none, some,
  if◌then◌else◌, ◌==◌, ltb, length,
}
use tinc_boot.Prelude.Int.{ℤ, pos}
use tinc_boot.Text.{Text, codes, equal}
use tinc_boot.Text.Strings.{split, contains}
use tinc_boot.Names.{clean_string}
use tinc_boot.Numbers.{parse_uint_bits}
use tinc_boot.Dict.{Dict}
use tinc_boot.Daemon.Disk.{Item, file, directory, Env}

-- `rand.Intn(n)`: the draws are told apart by a number.
abbrev pub Draws : Type 0
Draws = ℕ → ℕ → ℕ

pub data Failure : Type 0 where
  name_undefined disabled_symbols prefix_too_long invalid_prefix read_hosts generate_keys
        render_script :
      Failure

pub data Outcome {ℓ} (A : Type ℓ) : Type ℓ where
  ok : A → Outcome A
  err : Failure → Outcome A

-- No part is left of an empty prefix.
abbrev pub no_blank : List Text → List Text
no_blank ([] ∷ []) = []
no_blank parts = parts

-- `parts` of `generateIP`
unfoldable pub prefix_parts : Text → List Text
unfolding split
prefix_parts prefix = no_blank (split b'.' prefix)

-- The loop over the parts.
unfoldable pub segments : List Text → Option (List ℕ)
segments [] = some []
segments (part ∷ parts) =
    let rest = segments parts in
    elim (parse_uint_bits 8 part) [
      | none ↦ none
      | some segment ↦ elim rest [ none ↦ none | some more ↦ some (segment ∷ more) ]
    ]

-- The loop that draws the missing segments, `n` of them from place `i` on.
unfoldable pub draw_segments : Draws → ℕ → ℕ → List ℕ
draw_segments draws i zero = []
draw_segments draws i (suc n) =
    (if ltb i 3 then draws i 254 else 1 + draws i 253) ∷ draw_segments draws (suc i) n

-- `generateIP`
unfoldable pub generate_ip : Draws → Text → Outcome (List ℕ)
generate_ip draws prefix =
    let parts = prefix_parts prefix in
    if ltb 4 (length (split b'.' prefix)) then err prefix_too_long else elim (segments parts) [
      | none ↦ err invalid_prefix
      | some given ↦ ok (given ++ draw_segments draws (length parts) (4 - length parts))
    ]

-- The loop of `findAllPublicNodes`.
unfoldable pub public_nodes : Env → Dict Item → Outcome (List (Text × Text))
public_nodes env [] = ok []
public_nodes env ((name, directory) ∷ rest) = public_nodes env rest
public_nodes env ((name, file content) ∷ rest) =
    let more = public_nodes env rest in
    if env.read_host name then err read_hosts else elim more [
      | err e ↦ err e
      | ok nodes ↦
          if contains content (codes "Address") then ok ((name, content) ∷ nodes) else ok nodes
    ]

-- `findAllPublicNodes`
unfoldable pub find_all_public_nodes : Env → Option (Dict Item) → Outcome (List (Text × Text))
find_all_public_nodes env dir =
    if env.read_dir
    then err read_hosts
    else elim dir [ none ↦ err read_hosts | some entries ↦ public_nodes env entries ]

-- `Config`; in the three numbers 0 stands for the default.
pub record Config : Type 0 where
  pub platform : Text
  pub network : Text
  pub name : Text
  pub prefix : Text
  pub mask : ℤ
  pub port : ℤ
  pub key_bits : ℤ
  pub public : List Text

-- The part of `scripts.AssemblyParam` that `Generate` chooses, with the keys.
pub record Assembly : Type 0 where
  pub config : Config
  pub address : List ℕ
  pub connect_to : List (Text × Text)
  pub host_public : Text
  pub host_private : Text

abbrev pub or_default : Text → Text → Text
or_default given default = if equal given [] then default else given

abbrev pub is_zero_int : ℤ → Bool
is_zero_int (pos zero) = true
is_zero_int _ = false

abbrev pub or_number : ℤ → ℕ → ℤ
or_number given default = if is_zero_int given then pos default else given

-- The defaults of `Generate` but the port, and the cleaning of the names.
unfoldable pub with_defaults : Config → Config
with_defaults cfg = record {
  platform = or_default cfg.platform (codes "amd64");
  network = clean_string (or_default cfg.network (codes "dnet"));
  name = clean_string cfg.name;
  prefix = or_default cfg.prefix (codes "172.16");
  mask = or_number cfg.mask 16;
  port = cfg.port;
  key_bits = or_number cfg.key_bits 4096;
  public = cfg.public;
}

-- `minimalPort + rand.Intn(65535-minimalPort)` where no port is given.
unfoldable pub with_port : Draws → Config → Config
with_port draws cfg = record cfg { port = or_number cfg.port (1024 + draws 4 (65535 - 1024)) }

-- `Generate` from the keys on.
unfoldable pub assemble :
    (ℤ → Option (Text × Text))
    → (Assembly → Bool)
    → Config
    → List ℕ
    → List (Text × Text)
    → Outcome Assembly
assemble generate_key renders cfg ip nodes = elim (generate_key cfg.key_bits) [
  | none ↦ err generate_keys
  | some (public, private) ↦
      let a : Assembly = record {
        config = cfg;
        address = ip;
        connect_to = nodes;
        host_public = public;
        host_private = private;
      } in
      if renders a then ok a else err render_script
]

-- `Generate`
unfoldable pub generate :
    Draws
    → (ℤ → Option (Text × Text))
    → (Assembly → Bool)
    → Env
    → Option (Dict Item)
    → Config
    → Outcome Assembly
generate draws generate_key renders env dir cfg =
    if equal cfg.name []
    then err name_undefined
    else if equal (with_defaults cfg).name []
    then err disabled_symbols
    else elim (generate_ip draws (with_defaults cfg).prefix) [
      | err e ↦ err e
      | ok ip ↦ elim (find_all_public_nodes env dir) [
        | err e ↦ err e
        | ok nodes ↦ assemble generate_key renders (with_port draws (with_defaults cfg)) ip nodes
      ]
    ]
