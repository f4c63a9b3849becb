-- ===== src/Config/RoundTrip/HostFile.antt =====
-- The template of a host's file in scripts/scripts.go, read by tincd/config/parser.go.
use tinc_boot.Prelude.{
  ℕ, ◌<◌, ◌^◌, ◌≡◌, sym, subst, List, [], ◌∷◌, ◌++◌, arith, All, append_assoc, append-nil,
}
use tinc_boot.Text.{Text, codes}
use tinc_boot.Numbers.{format_uint}
use tinc_boot.Config.Parser.{ok, unmarshal}
use tinc_boot.Config.Parser.Lines.{Reads}
use tinc_boot.Config.Types.{Node, zero_node, node_fields}
use tinc_boot.Config.RoundTrip.{key_port}
use tinc_boot.Config.RoundTrip.Nodes.{
  set_subnet, set_address, set_node_port, key_subnet, key_address,
}
use tinc_boot.Config.RoundTrip.Pieces.{IsItem, written_Reads, uint_line_Reads}
use tinc_boot.Bootstrap.Gen.Files.{unlines, public_lines, host_file}
use tinc_boot.Config.RoundTrip.Templates.{blank_then, line_then, end_Reads, read_all}

public_lines-Reads :
    (n : Node) (port : ℕ) (addresses old : List Text)
    → port < 2 ^ 16
    → All IsItem addresses
    → Reads
        (node_fields (record n { address = old }))
        (unlines (public_lines addresses port))
        (node_fields (record n { address = old ++ addresses; port = port }))
unfolding public_lines
public_lines-Reads n port [] old p h =
    subst
      (λ l.
        Reads (node_fields (record n { address = old })) (unlines (line_port ∷ []))
          (node_fields (record n { address = l; port = port })))
      (sym (append-nil old))
      (line_then (codes "Port") (format_uint port) [] _
        (node_fields (record n { address = old; port = port })) _
        (uint_line_Reads (codes "Port") key_port _ _ port (omega arith)
          (λ at. set_node_port (record n { address = old }) at port p))
        (end_Reads _))
  where
    line_port : Text
    line_port = codes "Port = " ++ format_uint port
public_lines-Reads n port (a ∷ rest) old p h =
    line_then (codes "Address") a (public_lines rest port) _
      (node_fields (record n { address = old ++ a ∷ [] })) _
      (written_Reads (codes "Address") a key_address _ _ (λ at. set_address n at old a) h.0.plain
        h.0.not_empty)
      (subst
        (λ l.
          Reads (node_fields (record n { address = old ++ a ∷ [] }))
            (unlines (public_lines rest port))
            (node_fields (record n { address = l; port = port })))
        (append_assoc old (a ∷ []) rest) (public_lines-Reads n port rest (old ++ a ∷ []) p h.1))

host_file-Reads :
    (address : Text) (public : List Text) (port : ℕ)
    → IsItem (address ++ codes "/32")
    → All IsItem public
    → port < 2 ^ 16
    → Reads (node_fields zero_node) (host_file address public port) (
        node_fields
          (record zero_node { subnet = address ++ codes "/32"; address = public; port = port }))
unfolding host_file
host_file-Reads address public port subnet items p =
    let n1 = record zero_node { subnet = address ++ codes "/32" } in
    blank_then
      ((codes "Subnet" ++ (codes " = " ++ (address ++ codes "/32"))) ∷ public_lines public port) _ _
      (line_then (codes "Subnet") (address ++ codes "/32") (public_lines public port)
        (node_fields zero_node) (node_fields n1) _
        (written_Reads (codes "Subnet") (address ++ codes "/32") key_subnet _ _
          (λ at. set_subnet zero_node at (address ++ codes "/32")) subnet.plain subnet.not_empty)
        (public_lines-Reads n1 port public [] p items))

-- The file of a host that `gen` writes is read as a node with the address as its subnet, the public
-- addresses and the port, where the port has 16 bits, and the subnet and the addresses have no space
-- at either end, no line feed, and some but fewer than 60000 bytes.
pub unmarshal-host_file :
    (address : Text) (public : List Text) (port : ℕ)
    → IsItem (address ++ codes "/32")
    → All IsItem public
    → port < 2 ^ 16
    → unmarshal (host_file address public port) (node_fields zero_node)
      ≡ ok (
          node_fields
            (record zero_node { subnet = address ++ codes "/32"; address = public; port = port }))
unmarshal-host_file address public port subnet items p =
    read_all (host_file address public port) _ _
      (host_file-Reads address public port subnet items p)
