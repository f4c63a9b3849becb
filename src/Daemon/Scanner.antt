-- ===== src/Daemon/Scanner.antt =====
-- `scanner` and `setupNetwork` of tincd/daemon/node.go: what the daemon makes of tinc's output. The
-- calls of `ip` are part of what a line brings about; only whether the interface was set up matters
-- for what follows.
pub mod Alternation
use tinc_boot.Prelude.{
  ◌≡◌, Bool, true, false, not, ◌&&◌, List, [], ◌∷◌, ◌++◌, Option, none, some, if◌then◌else◌,
}
use tinc_boot.Text.{Text}
use tinc_boot.Dict.{Dict, lookup, insert, erase}
use tinc_boot.Daemon.Output.{
  SubnetAdded, SubnetRemoved, is_subnet_added, is_subnet_removed, is_ready,
}

-- What a line brings about, in order: a call that sets or removes a route, an event, or the status
-- "running".
pub data Action : Type 0 where
  set_routing : Text → Action
  remove_routing : Text → Action
  subnet_added : SubnetAdded → Action
  subnet_removed : SubnetRemoved → Action
  ready : Action
  configured : Action
  running : Action

-- Which calls of `setupNetwork` succeed.
pub record Links : Type 0 where
  pub set_address : Bool
  pub enable_interface : Bool

-- `setupNetwork`
unfoldable pub setup_network : Links → Bool
setup_network links = if not links.set_address then false else links.enable_interface

abbrev pub Routes : Type 0
Routes = Dict Bool

-- `routes[subnet]`
unfoldable pub is_routed : Routes → Text → Bool
is_routed routes subnet = elim (lookup subnet routes) [ none ↦ false | some b ↦ b ]

-- The three branches of the loop.
unfoldable pub on_added : SubnetAdded → Routes → Routes × List Action
on_added event routes =
    if not (is_routed routes event.peer_subnet)
    then (
      insert event.peer_subnet true routes,
      set_routing event.peer_subnet ∷ subnet_added event ∷ [],
    )
    else (routes, [])

unfoldable pub on_removed : SubnetRemoved → Routes → Routes × List Action
on_removed event routes =
    if is_routed routes event.peer_subnet
    then (
      erase event.peer_subnet routes,
      remove_routing event.peer_subnet ∷ subnet_removed event ∷ [],
    )
    else (routes, [])

unfoldable pub on_ready : Links → List Action
on_ready links = ready ∷ (if setup_network links then configured ∷ running ∷ [] else running ∷ [])

-- The body of the loop.
unfoldable pub scan_line : Links → Text → Routes → Routes × List Action
scan_line links line routes = elim (is_subnet_added line) [
  | some event ↦ on_added event routes
  | none ↦ elim (is_subnet_removed line) [
    | some event ↦ on_removed event routes
    | none ↦ if is_ready line then (routes, on_ready links) else (routes, [])
  ]
]

-- `scanner`, on the lines of the output.
unfoldable pub scanner : Links → List Text → Routes → Routes × List Action
scanner links [] routes = (routes, [])
scanner links (line ∷ lines) routes =
    let (routes', now) = scan_line links line routes in
    let (routes'', later) = scanner links lines routes' in (routes'', now ++ later)
