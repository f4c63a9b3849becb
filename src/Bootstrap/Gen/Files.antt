-- ===== src/Bootstrap/Gen/Files.antt =====
-- `generateIP` of cmd/tinc-boot/gen/main.go, and the templates of scripts/scripts.go.
use tinc_boot.Prelude.{
  ℕ, ◌-◌, List, [], ◌∷◌, ◌++◌, Option, none, some, if◌then◌else◌, length, ltb, map,
}
use tinc_boot.Prelude.Int.{ℤ}
use tinc_boot.Text.{Text, codes}
use tinc_boot.Text.Strings.{split, join}
use tinc_boot.Numbers.{format_uint, format_int}
use tinc_boot.Generator.{Draws, segments, draw_segments}

-- `generateIP`; `none` for a prefix that is refused.
unfoldable pub generate_ip : Draws → Text → Option (List ℕ)
generate_ip draws prefix =
    let parts = split b'.' prefix in
    if ltb 4 (length parts) then none else elim (segments parts) [
      | none ↦ none
      | some given ↦ some (given ++ draw_segments draws (length parts) (4 - length parts))
    ]

-- `ip.String()` for four bytes.
unfoldable pub show_ip : List ℕ → Text
show_ip ip = join (codes ".") (map format_uint ip)

-- A text from its lines.
unfoldable pub unlines : List Text → Text
unlines [] = []
unlines (line ∷ rest) = line ++ b'\n' ∷ unlines rest

abbrev shebang : Text
shebang = codes "#!/usr/bin/env bash"

-- `TincUp`
unfoldable pub tinc_up : Text → ℤ → Text → Text
unfolding unlines
tinc_up addr mask bin = unlines (
    shebang
    ∷ (codes "ip addr add " ++ addr ++ b'/' ∷ format_int mask ++ codes " dev $INTERFACE")
    ∷ codes "ip link set dev $INTERFACE up"
    ∷ (bin ++ codes " monitor &")
    ∷ [])

-- `TincDown`
unfoldable pub tinc_down : Text → ℤ → Text → Text
unfolding unlines
tinc_down addr mask bin = unlines (
    shebang
    ∷ (bin ++ codes " kill")
    ∷ (codes "ip addr del " ++ addr ++ b'/' ∷ format_int mask ++ codes " dev $INTERFACE")
    ∷ codes "ip link set dev $INTERFACE down"
    ∷ [])

-- `SubnetUp`
unfoldable pub subnet_up : Text → Text
unfolding unlines
subnet_up bin = unlines (shebang ∷ (bin ++ codes " watch") ∷ [])

-- `SubnetDown`
unfoldable pub subnet_down : Text → Text
unfolding unlines
subnet_down bin = unlines (shebang ∷ (bin ++ codes " forget") ∷ [])

-- The loop over `ConnectTo` in `TincConf`.
unfoldable pub connect_lines : List Text → List Text
connect_lines [] = [] ∷ []
connect_lines (name ∷ names) = [] ∷ (codes "ConnectTo = " ++ name) ∷ connect_lines names

-- `TincConf`
unfoldable pub tinc_conf : Text → Text → ℕ → List Text → Text
unfolding unlines connect_lines
tinc_conf name net port connect_to = unlines (
    []
    ∷ (codes "Name = " ++ name)
    ∷ codes "LocalDiscovery = yes"
    ∷ (codes "Interface = " ++ net)
    ∷ (codes "Port = " ++ format_uint port)
    ∷ connect_lines connect_to)

-- The loop over `Public` in `Host`, and the port after it.
unfoldable pub public_lines : List Text → ℕ → List Text
public_lines [] port = (codes "Port = " ++ format_uint port) ∷ []
public_lines (address ∷ rest) port = (codes "Address = " ++ address) ∷ public_lines rest port

-- `Host`
unfoldable pub host_file : Text → List Text → ℕ → Text
unfolding unlines public_lines
host_file address public port =
    unlines ([] ∷ (codes "Subnet = " ++ address ++ codes "/32") ∷ public_lines public port)
