-- ===== src/Commands.antt =====
-- What the program asks of the system it runs on: the commands of tincd/daemon/network_linux.go and of
-- `automaticFirewall` of cmd/tinc-boot/run/main_linux.go, the addresses of an interface (cmd/tools.go,
-- `getAllRoutableIPs`), and random names (tincd/daemon/utils/rands.go).
use tinc_boot.Prelude.{
  ℕ, zero, suc, Bool, not, ◌&&◌, List, [], ◌∷◌, ◌++◌, Option, none, some, length, if◌then◌else◌,
  get_or,
}
use tinc_boot.Text.{Text, codes}
use tinc_boot.Numbers.{format_uint}
use tinc_boot.Generator.{Draws}

-- A program with its arguments.
abbrev pub Command : Type 0
Command = List Text

-- `setAddress`, `enableInterface`, `setRouting` and `removeRouting`
unfoldable pub set_address : Text → Text → Command
set_address interface ip =
    codes "ip" ∷ codes "addr" ∷ codes "add" ∷ (ip ++ codes "/32") ∷ codes "dev" ∷ interface ∷ []

unfoldable pub enable_interface : Text → Command
enable_interface interface =
    codes "ip" ∷ codes "link" ∷ codes "set" ∷ codes "dev" ∷ interface ∷ codes "up" ∷ []

unfoldable pub set_routing : Text → Text → Command
set_routing interface subnet =
    codes "ip" ∷ codes "route" ∷ codes "add" ∷ subnet ∷ codes "dev" ∷ interface ∷ []

unfoldable pub remove_routing : Text → Text → Command
remove_routing interface subnet =
    codes "ip" ∷ codes "route" ∷ codes "del" ∷ subnet ∷ codes "dev" ∷ interface ∷ []

-- `automaticFirewall`, on `Configured`: the ports of tinc, of the greeting service and of the discovery.
-- A command that fails is logged, and the next one is run.
unfoldable pub automatic_firewall : ℕ → ℕ → Text → List Command
automatic_firewall tinc_port boot_port interface =
    (codes "ufw" ∷ codes "allow" ∷ format_uint tinc_port ∷ [])
    ∷ (codes "ufw"
        ∷ codes "allow"
        ∷ codes "from"
        ∷ codes "any"
        ∷ codes "to"
        ∷ codes "any"
        ∷ codes "port"
        ∷ format_uint boot_port
        ∷ codes "proto"
        ∷ codes "tcp"
        ∷ [])
    ∷ (codes "ufw"
        ∷ codes "allow"
        ∷ codes "in"
        ∷ codes "on"
        ∷ interface
        ∷ codes "to"
        ∷ codes "any"
        ∷ codes "port"
        ∷ codes "18655"
        ∷ codes "proto"
        ∷ codes "tcp"
        ∷ [])
    ∷ []

-- An address of an interface, as package net tells of it.
pub record Address : Type 0 where
  pub is_net : Bool
  pub is_loopback : Bool
  pub is_global_unicast : Bool
  pub text : Text

-- The loop of `BindingByName`.
unfoldable pub first_binding : ℕ → List Address → Option Text
first_binding port [] = none
first_binding port (address ∷ rest) =
    let later = first_binding port rest in
    if address.is_net && address.is_global_unicast
    then some (address.text ++ b':' ∷ format_uint port)
    else later

-- `BindingByName`, of the interface's addresses where it has them; `none` is its error.
unfoldable pub binding_by_name : Option (List Address) → ℕ → Option Text
unfolding first_binding
binding_by_name addresses port = elim addresses [ none ↦ none | some l ↦ first_binding port l ]

-- `getAllRoutableIPs`, of all addresses.
unfoldable pub all_routable_ips : List Address → List Text
all_routable_ips [] = []
all_routable_ips (address ∷ rest) =
    let more = all_routable_ips rest in
    if address.is_net && (not address.is_loopback && address.is_global_unicast)
    then address.text ∷ more
    else more

-- `RandStringRunesCustom`: the draws from place `i` on.
unfoldable pub rand_string_runes_custom : Draws → ℕ → ℕ → Text → Text
rand_string_runes_custom draws i zero alphabet = []
rand_string_runes_custom draws i (suc n) alphabet =
    get_or alphabet (draws i (length alphabet)) 0
    ∷ rand_string_runes_custom draws (suc i) n alphabet
