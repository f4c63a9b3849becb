-- ===== src/Config/RoundTrip/Nodes.antt =====
-- `Marshal` followed by `Unmarshal` at a `Node` of tincd/config/types.go.
use mathlib.Core.List.{map-append}
use tinc_boot.Prelude.{
  ℕ, ◌<◌, ◌^◌, ◌≡◌, refl, ap, ◌∙◌, sym, subst, List, [], ◌∷◌, ◌++◌, arith, All, map, append-nil,
}
use tinc_boot.Text.{Text, codes, equal}
use tinc_boot.Text.Strings.{is_space, byte_len}
use tinc_boot.Numbers.{format_uint, parse_uint-format_uint}
use tinc_boot.Config.Fields.{uint, text, inspect_field, find_field}
use tinc_boot.Config.Parser.{ok, parse_named, parse_at, parse_value, unmarshal}
use tinc_boot.Config.Parser.Lines.{Reads, Reads-nil, Reads-append, key_bytes, from_line}
use tinc_boot.Config.Marshal.{
  is_zero, marshal, marshal_plain, marshal_value, marshal_nonzero, marshal_items, marshal_blobs,
  has_blob,
}
use tinc_boot.Config.Marshal.Zero.{marshal_of_no_blob}
use tinc_boot.Config.Types.{Node, zero_node, node_fields}
use tinc_boot.Config.RoundTrip.{field_name, key_port, parse_port}
use tinc_boot.Config.RoundTrip.Pieces.{
  IsPlain, IsItem, IsFieldName, plain, text_Reads, uint_Reads, items_Reads,
}

-- The contents of a `Node` without a key that can be written.
pub record IsWritableNode (n : Node) : Type 0 where
  pub subnet : IsPlain n.subnet
  pub address : All IsItem n.address
  pub port : n.port < 2 ^ 16
  pub no_key : n.public_key ≡ []

pub set_subnet :
    (n : Node) (at : ℕ) (v : Text)
    → parse_named at (codes "Subnet") v (node_fields n) ≡ ok (node_fields (record n { subnet = v }))
unfolding parse_named find_field parse_at parse_value node_fields
set_subnet n at v = refl

pub set_address :
    (n : Node) (at : ℕ) (xs : List Text) (v : Text)
    → parse_named at (codes "Address") v (node_fields (record n { address = xs }))
      ≡ ok (node_fields (record n { address = xs ++ v ∷ [] }))
unfolding parse_named find_field parse_at parse_value node_fields
set_address n at xs v = rw map-append

pub set_node_port :
    (n : Node) (at p : ℕ)
    → p < 2 ^ 16
    → parse_named at (codes "Port") (format_uint p) (node_fields n)
      ≡ ok (node_fields (record n { port = p }))
unfolding parse_named find_field parse_at node_fields
set_node_port n at p h =
    rw
      (
        parse_port (format_uint p) n.port p (parse_uint-format_uint p (omega arith)),
        parse_at,
        parse_named,
      )
      (ap (λ k. ok (node_fields (record n { port = k }))) (omega arith))

pub key_subnet : IsFieldName (codes "Subnet")
unfolding key_bytes is_space byte_len
key_subnet = field_name (codes "Subnet") (λ e. cc) refl (omega arith)

pub key_address : IsFieldName (codes "Address")
unfolding key_bytes is_space byte_len
key_address = field_name (codes "Address") (λ e. cc) refl (omega arith)

unfoldable pub pieces : Node → Text
pieces n =
    marshal_nonzero (plain (codes "Subnet")) (text n.subnet)
    ++ (marshal_items (plain (codes "Address")) (map text n.address)
        ++ (marshal_nonzero (plain (codes "Port")) (uint 16 n.port) ++ []))

no_text : (k s : Text) → s ≡ [] → marshal_nonzero (plain k) (text s) ≡ []
unfolding marshal_nonzero is_zero equal
no_text k s h = rw h

pub marshal_node : (n : Node) → n.public_key ≡ [] → marshal (node_fields n) ≡ pieces n
unfolding node_fields has_blob marshal_blobs marshal_plain marshal_value inspect_field pieces
marshal_node n h =
    marshal_of_no_blob (node_fields n) refl refl
    ∙ rw (no_text (codes "RSA PUBLIC KEY") n.public_key h)

pub pieces-Reads :
    (n : Node) → IsWritableNode n → Reads (node_fields zero_node) (pieces n) (node_fields n)
unfolding pieces
pieces-Reads n w =
    let n1 = record zero_node { subnet = n.subnet } in
    let n2 = record n1 { address = n.address } in
    let n3 = record n2 { port = n.port } in
    Reads-append _ _
      (text_Reads (codes "Subnet") n.subnet key_subnet (node_fields zero_node) (node_fields n1)
        (λ at. set_subnet zero_node at n.subnet) w.subnet
        (λ e. ap (λ v. node_fields (record zero_node { subnet = v })) (sym e)))
      (Reads-append _ _
        (items_Reads (codes "Address") key_address (λ xs. node_fields (record n1 { address = xs }))
          (set_address n1) n.address [] w.address)
        (Reads-append _ _
          (uint_Reads (codes "Port") key_port (node_fields n2) (node_fields n3) 16 n.port w.port
            (λ at. set_node_port n2 at n.port w.port)
            (λ e. ap (λ v. node_fields (record n2 { port = v })) (sym e)))
          (subst (λ k. Reads (node_fields (record n { public_key = k })) [] (node_fields n))
            w.no_key (Reads-nil (node_fields n)))))

-- What `Marshal` writes for a `Node` without a key is read by `Unmarshal`, into an empty `Node`, as
-- the same `Node`, provided that its port has 16 bits, its texts have no space at either end, no line
-- feed and fewer than 60000 bytes, and its addresses are moreover not empty.
pub unmarshal-marshal_node :
    (n : Node)
    → IsWritableNode n
    → unmarshal (marshal (node_fields n)) (node_fields zero_node) ≡ ok (node_fields n)
unfolding unmarshal
unmarshal-marshal_node n w =
    ap (λ s. from_line 0 s (node_fields zero_node))
      (marshal_node n w.no_key ∙ sym (append-nil (pieces n)))
    ∙ (pieces-Reads n w).runs 0 []
