-- ===== src/Config/RoundTrip.antt =====
-- `Marshal` followed by `Unmarshal` at a `Main` of tincd/config/types.go.
pub mod Pieces
pub mod Nodes
pub mod Templates
pub mod HostFile
pub mod Keys
use mathlib.Core.List.{map-append}
use tinc_boot.Prelude.{
  ℕ, ◌<◌, ◌^◌, ◌≡◌, ◌≢◌, refl, ap, ◌∙◌, sym, Bool, true, false, List, [], ◌∷◌, ◌++◌, arith, All,
  map, append-nil, Bool-cases, inl, inr, ◌%◌, ◌&&◌, some,
}
use tinc_boot.Text.{Text, codes}
use tinc_boot.Text.Strings.{is_space, byte_len}
use tinc_boot.Numbers.{format_uint, parse_uint, parse_uint-format_uint}
use tinc_boot.Config.Fields.{
  uint, boolean, text, Value, scalar, slice, Field, inspect_field, find_field,
}
use tinc_boot.Config.Parser.{
  ok, parse_named, parse_at, parse_value, parse_scalar, unmarshal, unmarshal_lines,
}
use tinc_boot.Config.Parser.Lines.{
  Reads, Reads-nil, Reads-append, IsKey-of_key_bytes, key_bytes, from_line,
}
use tinc_boot.Config.Marshal.{
  marshal, marshal_plain, marshal_value, marshal_nonzero, marshal_items, marshal_blobs, has_blob,
}
use tinc_boot.Config.Marshal.Zero.{marshal_of_no_blob}
use tinc_boot.Config.Types.{Main, zero_main, main_fields}
use Pieces.{
  IsPlain, IsItem, IsFieldName, plain, text_Reads, uint_Reads, uint_line_Reads, bool_Reads,
  items_Reads,
}

-- The contents of a `Main` that can be written: texts that fit on a line, a 16-bit port, and names
-- of peers that are not empty.
pub record IsWritable (m : Main) : Type 0 where
  pub name : IsPlain m.name
  pub port : m.port < 2 ^ 16
  pub interface : IsPlain m.interface
  pub connect_to : All IsItem m.connect_to

set_name :
    (m : Main) (at : ℕ) (v : Text)
    → parse_named at (codes "Name") v (main_fields m) ≡ ok (main_fields (record m { name = v }))
unfolding parse_named find_field parse_at parse_value main_fields
set_name m at v = refl

set_interface :
    (m : Main) (at : ℕ) (v : Text)
    → parse_named at (codes "Interface") v (main_fields m)
      ≡ ok (main_fields (record m { interface = v }))
unfolding parse_named find_field parse_at parse_value main_fields
set_interface m at v = refl

set_local_discovery :
    (m : Main) (at : ℕ)
    → parse_named at (codes "LocalDiscovery") (codes "yes") (main_fields m)
      ≡ ok (main_fields (record m { local_discovery = true }))
unfolding parse_named find_field parse_at parse_value main_fields
set_local_discovery m at = refl

set_connect_to :
    (m : Main) (at : ℕ) (xs : List Text) (v : Text)
    → parse_named at (codes "ConnectTo") v (main_fields (record m { connect_to = xs }))
      ≡ ok (main_fields (record m { connect_to = xs ++ v ∷ [] }))
unfolding parse_named find_field parse_at parse_value main_fields
set_connect_to m at xs v = rw map-append

-- `parseValue` reads 64 bits, and `SetUint` keeps those that the field has.
pub parse_port :
    (s : Text) (old n : ℕ)
    → parse_uint s ≡ some n
    → parse_value s (scalar (uint 16 old)) ≡ some (scalar (uint 16 (n % 2 ^ 16)))
unfolding parse_value
parse_port s old n e = ground arith

pub set_port_mod :
    (m : Main) (at n : ℕ)
    → n < 2 ^ 64
    → parse_named at (codes "Port") (format_uint n) (main_fields m)
      ≡ ok (main_fields (record m { port = n % 2 ^ 16 }))
unfolding parse_named find_field parse_at main_fields
set_port_mod m at n h =
    rw (parse_port (format_uint n) m.port n (parse_uint-format_uint n h), parse_at, parse_named)

set_port :
    (m : Main) (at n : ℕ)
    → n < 2 ^ 16
    → parse_named at (codes "Port") (format_uint n) (main_fields m)
      ≡ ok (main_fields (record m { port = n }))
set_port m at n h =
    set_port_mod m at n (omega arith)
    ∙ ap (λ k. ok (main_fields (record m { port = k }))) (omega arith)

pub field_name : (k : Text) → k ≢ [] → key_bytes k ≡ true → byte_len k < 1000 → IsFieldName k
field_name k ne h short = record { key = IsKey-of_key_bytes k ne h; short = short }

key_name : IsFieldName (codes "Name")
unfolding key_bytes is_space byte_len
key_name = field_name (codes "Name") (λ e. cc) refl (omega arith)

pub key_port : IsFieldName (codes "Port")
unfolding key_bytes is_space byte_len
key_port = field_name (codes "Port") (λ e. cc) refl (omega arith)

key_local_discovery : IsFieldName (codes "LocalDiscovery")
unfolding key_bytes is_space byte_len
key_local_discovery = field_name (codes "LocalDiscovery") (λ e. cc) refl (omega arith)

key_interface : IsFieldName (codes "Interface")
unfolding key_bytes is_space byte_len
key_interface = field_name (codes "Interface") (λ e. cc) refl (omega arith)

key_connect_to : IsFieldName (codes "ConnectTo")
unfolding key_bytes is_space byte_len
key_connect_to = field_name (codes "ConnectTo") (λ e. cc) refl (omega arith)

pieces : Main → Text
pieces m =
    marshal_nonzero (plain (codes "Name")) (text m.name)
    ++ (marshal_nonzero (plain (codes "Port")) (uint 16 m.port)
        ++ (marshal_nonzero (plain (codes "LocalDiscovery")) (boolean m.local_discovery)
            ++ (marshal_nonzero (plain (codes "Interface")) (text m.interface)
                ++ (marshal_items (plain (codes "ConnectTo")) (map text m.connect_to) ++ []))))

marshal_main : (m : Main) → marshal (main_fields m) ≡ pieces m
unfolding main_fields has_blob marshal_blobs marshal_plain marshal_value inspect_field pieces
marshal_main m = marshal_of_no_blob (main_fields m) refl refl

module _ (m : Main) (w : IsWritable m) where
  pieces-Reads : Reads (main_fields zero_main) (pieces m) (main_fields m)
  unfolding pieces
  pieces-Reads =
      let m1 = record zero_main { name = m.name } in
      let m2 = record m1 { port = m.port } in
      let m3 = record m2 { local_discovery = m.local_discovery } in
      let m4 = record m3 { interface = m.interface } in
      Reads-append _ _
        (text_Reads (codes "Name") m.name key_name (main_fields zero_main) (main_fields m1)
          (λ at. set_name zero_main at m.name) w.name
          (λ e. ap (λ v. main_fields (record zero_main { name = v })) (sym e)))
        (Reads-append _ _
          (uint_Reads (codes "Port") key_port (main_fields m1) (main_fields m2) 16 m.port w.port
            (λ at. set_port m1 at m.port w.port)
            (λ e. ap (λ v. main_fields (record m1 { port = v })) (sym e)))
          (Reads-append _ _
            (bool_Reads (codes "LocalDiscovery") key_local_discovery (main_fields m2)
              (main_fields m3) m.local_discovery
              (λ e at.
                set_local_discovery m2 at
                ∙ ap (λ b. ok (main_fields (record m2 { local_discovery = b }))) (sym e))
              (λ e. ap (λ v. main_fields (record m2 { local_discovery = v })) (sym e)))
            (Reads-append _ _
              (text_Reads (codes "Interface") m.interface key_interface (main_fields m3)
                (main_fields m4) (λ at. set_interface m3 at m.interface) w.interface
                (λ e. ap (λ v. main_fields (record m3 { interface = v })) (sym e)))
              (Reads-append _ _
                (items_Reads (codes "ConnectTo") key_connect_to
                  (λ xs. main_fields (record m4 { connect_to = xs })) (set_connect_to m4)
                  m.connect_to [] w.connect_to)
                (Reads-nil (main_fields m))))))

unmarshal-pieces :
    (m : Main) → IsWritable m → unmarshal (pieces m) (main_fields zero_main) ≡ ok (main_fields m)
unfolding unmarshal
unmarshal-pieces m w =
    ap (λ s. from_line 0 s (main_fields zero_main)) (sym (append-nil (pieces m)))
    ∙ (pieces-Reads m w).runs 0 []

-- What `Marshal` writes for a `Main` is read by `Unmarshal`, into an empty `Main`, as the same `Main`,
-- provided that its port has 16 bits, its texts have no space at either end, no line feed and fewer
-- than 60000 bytes, and the names of its peers are moreover not empty.
pub unmarshal-marshal :
    (m : Main)
    → IsWritable m
    → unmarshal (marshal (main_fields m)) (main_fields zero_main) ≡ ok (main_fields m)
unmarshal-marshal m w =
    ap (λ s. unmarshal s (main_fields zero_main)) (marshal_main m) ∙ unmarshal-pieces m w

abbrev pub port_line : ℕ → Text
port_line n = codes "Port" ++ (codes " = " ++ (format_uint n ++ b'\n' ∷ []))

-- A port of up to 64 bits is accepted, and its lower 16 bits are kept: a configuration file that names
-- port `n < 2 ^ 64` alone is read, without an error, as a `Main` with port `n % 2 ^ 16`.
pub unmarshal-port :
    (n : ℕ)
    → n < 2 ^ 64
    → unmarshal (port_line n) (main_fields zero_main)
      ≡ ok (main_fields (record zero_main { port = n % 2 ^ 16 }))
unfolding unmarshal
unmarshal-port n h =
    ap (λ s. from_line 0 s (main_fields zero_main)) (sym (append-nil (port_line n)))
    ∙ (uint_line_Reads (codes "Port") key_port (main_fields zero_main)
          (main_fields (record zero_main { port = n % 2 ^ 16 })) n h
          (λ at. set_port_mod zero_main at n h)).runs
        0 []
