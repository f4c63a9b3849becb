-- ===== src/Tests/Addresses.antt =====
-- A generated configuration at small inputs.
use tinc_boot.Prelude.{
  ℕ, ◌<◌, ◌≡◌, ◌≢◌, ◌↔◌, refl, true, List, [], ◌∷◌, ◌++◌, Option, some, length, All, In,
}
use tinc_boot.Prelude.Int.{ℤ, pos}
use tinc_boot.Text.{Text, codes, equal}
use tinc_boot.Text.Strings.{split, contains, has_prefix}
use tinc_boot.Dict.{Dict}
use tinc_boot.Names.{IsName, clean_string, cut_disabled, is_enabled, lower_rune}
use tinc_boot.Numbers.{parse_uint_bits}
use tinc_boot.Daemon.Disk.{Item, file, calm}
use tinc_boot.Generator.{
  Draws, ok, prefix_parts, segments, draw_segments, generate_ip, Config, Assembly, with_defaults,
  with_port, assemble, public_nodes, find_all_public_nodes, generate,
}
use tinc_boot.Generator.Addresses.{IsIntn}
use tinc_boot.Generator.Promises.{IsPort, generate_lem}
use tinc_boot.Generator.Publics.{IsPublicIn}
use tinc_boot.Tests.Inputs.{alice, bob}

abbrev pub zeros : Draws
zeros = λ i n. 0

zeros-IsIntn : IsIntn zeros
unfolding IsIntn
zeros-IsIntn = λ i n h. h

-- A name alone is given.
abbrev pub cfg : Config
cfg = record {
  platform = [];
  network = [];
  name = bob;
  prefix = [];
  mask = pos 0;
  port = pos 0;
  key_bits = pos 0;
  public = [];
}

abbrev pub entries : Dict Item
entries =
    (alice, file (codes "Address = 1.2.3.4")) ∷ (codes "carol", file (codes "Port = 655")) ∷ []

abbrev pub made : Assembly
made = record {
  config = record {
    platform = codes "amd64";
    network = codes "dnet";
    name = bob;
    prefix = codes "172.16";
    mask = pos 16;
    port = pos 1024;
    key_bits = pos 4096;
    public = [];
  };
  address = 172 ∷ 16 ∷ 0 ∷ 1 ∷ [];
  connect_to = (alice, codes "Address = 1.2.3.4") ∷ [];
  host_public = codes "public";
  host_private = codes "private";
}

abbrev pub keys : ℤ → Option (Text × Text)
keys = λ bits. some (codes "public", codes "private")

pub bob-made : generate zeros keys (λ a. true) calm (some entries) cfg ≡ ok made
unfolding generate with_defaults with_port assemble find_all_public_nodes public_nodes generate_ip
    prefix_parts segments draw_segments split parse_uint_bits clean_string equal contains has_prefix
    cut_disabled is_enabled lower_rune
bob-made = refl

generate_example :
    (IsName bob × (bob ≢ []) × IsName (codes "dnet"))
    × IsPort (pos 0) (pos 1024)
    × ((length made.address ≡ 4) × All (λ s. s < 256) made.address)
    × ((given : List ℕ) × (rest : List ℕ) × (segments (prefix_parts (with_defaults cfg).prefix)
          ≡ some given)
        × (made.address ≡ given ++ rest))
    × ((there : Dict Item) × (some entries ≡ some there)
        × ((name content : Text)
            → In (name, content) made.connect_to ↔ IsPublicIn there (name, content)))
generate_example =
    generate_lem zeros keys (λ a. true) calm (some entries) cfg made zeros-IsIntn bob-made
