-- ===== src/Config/Types.antt =====
-- tincd/config/types.go: the structures `Main` and `Node`, and the fields that reflection shows.
use tinc_boot.Prelude.{ℕ, Bool, false, List, [], ◌∷◌, none, some, map}
use tinc_boot.Text.{Text, codes}
use tinc_boot.Config.Fields.{Scalar, uint, boolean, text, Value, scalar, slice, Field}

pub record Main : Type 0 where
  pub name : Text
  pub port : ℕ
  pub local_discovery : Bool
  pub interface : Text
  pub connect_to : List Text

pub record Node : Type 0 where
  pub subnet : Text
  pub address : List Text
  pub port : ℕ
  pub public_key : Text

abbrev pub field : Text → Value → Field
field name value = record { name = name; tag = none; value = value }

unfoldable pub main_fields : Main → List Field
main_fields m =
    field (codes "Name") (scalar (text m.name))
    ∷ field (codes "Port") (scalar (uint 16 m.port))
    ∷ field (codes "LocalDiscovery") (scalar (boolean m.local_discovery))
    ∷ field (codes "Interface") (scalar (text m.interface))
    ∷ field (codes "ConnectTo") (slice (text []) (map text m.connect_to))
    ∷ []

unfoldable pub node_fields : Node → List Field
node_fields n =
    field (codes "Subnet") (scalar (text n.subnet))
    ∷ field (codes "Address") (slice (text []) (map text n.address))
    ∷ field (codes "Port") (scalar (uint 16 n.port))
    ∷ record {
      name = codes "PublicKey";
      tag = some (codes "RSA PUBLIC KEY");
      value = scalar (text n.public_key);
    }
    ∷ []

-- `var main Main` and `var node Node`
abbrev pub zero_main : Main
zero_main = record { name = []; port = 0; local_discovery = false; interface = []; connect_to = [] }

abbrev pub zero_node : Node
zero_node = record { subnet = []; address = []; port = 0; public_key = [] }

text_of : Value → Text
text_of (scalar (text s)) = s
text_of _ = []

unfoldable pub texts_of : List Scalar → List Text
texts_of [] = []
texts_of (text s ∷ xs) = s ∷ texts_of xs
texts_of (x ∷ xs) = texts_of xs

uint_of : Value → ℕ
uint_of (scalar (uint bits n)) = n
uint_of _ = 0

bool_of : Value → Bool
bool_of (scalar (boolean b)) = b
bool_of _ = false

list_of : Value → List Text
list_of (slice z xs) = texts_of xs
list_of _ = []

-- The structure whose fields these are.
unfoldable pub main_of : List Field → Main
unfolding text_of uint_of bool_of list_of texts_of
main_of (a ∷ b ∷ c ∷ d ∷ e ∷ []) = record {
  name = text_of a.value;
  port = uint_of b.value;
  local_discovery = bool_of c.value;
  interface = text_of d.value;
  connect_to = list_of e.value;
}
main_of _ = zero_main

unfoldable pub node_of : List Field → Node
unfolding text_of uint_of list_of texts_of
node_of (a ∷ b ∷ c ∷ d ∷ []) = record {
  subnet = text_of a.value;
  address = list_of b.value;
  port = uint_of c.value;
  public_key = text_of d.value;
}
node_of _ = zero_node
