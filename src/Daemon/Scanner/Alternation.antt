-- ===== src/Daemon/Scanner/Alternation.antt =====
-- The events of one subnet in a run of `scanner` of tincd/daemon/node.go.
use tinc_boot.Prelude.{
  ◌≡◌, refl, ap, ◌∙◌, Bool, true, false, List, [], ◌∷◌, ◌++◌, Option, none, some, arith,
  if◌then◌else◌, inl, inr, Bool-cases, Option-cases,
}
use tinc_boot.Text.{Text, equal, equal_iff}
use tinc_boot.Dict.{lookup-insert, lookup-erase}
use tinc_boot.Daemon.Output.{
  SubnetAdded, SubnetRemoved, is_subnet_added, is_subnet_removed, is_ready,
}
use tinc_boot.Daemon.Scanner.{
  Action, subnet_added, subnet_removed, ready, configured, running, Links, setup_network, Routes,
  is_routed, on_added, on_removed, on_ready, scan_line, scanner,
}

abbrev pub step_up : Bool → Option Bool
step_up false = some true
step_up true = none

abbrev pub step_down : Bool → Option Bool
step_down true = some false
step_down false = none

-- Whether a subnet is up after an action, given whether it was before; none where it is added while
-- up or removed while down.
abbrev pub after : Text → Bool → Action → Option Bool
after subnet up (subnet_added e) = if equal e.peer_subnet subnet then step_up up else some up
after subnet up (subnet_removed e) = if equal e.peer_subnet subnet then step_down up else some up
after subnet up _ = some up

-- The same after a sequence of actions.
abbrev pub follow : Text → List Action → Option Bool → Option Bool
follow subnet actions none = none
follow subnet [] (some up) = some up
follow subnet (a ∷ actions) (some up) = follow subnet actions (after subnet up a)

follow-append :
    (subnet : Text) (xs ys : List Action) (o : Option Bool)
    → follow subnet (xs ++ ys) o ≡ follow subnet ys (follow subnet xs o)
follow-append subnet [] [] none = refl
follow-append subnet [] (y ∷ ys) none = refl
follow-append subnet [] [] (some up) = refl
follow-append subnet [] (y ∷ ys) (some up) = refl
follow-append subnet (x ∷ xs) [] none = refl
follow-append subnet (x ∷ xs) (y ∷ ys) none = refl
follow-append subnet (x ∷ xs) ys (some up) = follow-append subnet xs ys (after subnet up x)

on_added-follow :
    (subnet : Text) (e : SubnetAdded) (routes : Routes)
    → follow subnet (on_added e routes).1 (some (is_routed routes subnet))
      ≡ some (is_routed (on_added e routes).0 subnet)
unfolding on_added is_routed
on_added-follow subnet e routes =
    ground (arith, lookup-insert e.peer_subnet subnet true routes, equal_iff e.peer_subnet subnet)

on_removed-follow :
    (subnet : Text) (e : SubnetRemoved) (routes : Routes)
    → follow subnet (on_removed e routes).1 (some (is_routed routes subnet))
      ≡ some (is_routed (on_removed e routes).0 subnet)
unfolding on_removed is_routed
on_removed-follow subnet e routes =
    ground (arith, lookup-erase e.peer_subnet subnet routes, equal_iff e.peer_subnet subnet)

on_ready-follow :
    (subnet : Text) (links : Links) (up : Bool) → follow subnet (on_ready links) (some up) ≡ some up
unfolding on_ready
on_ready-follow subnet links up = split (setup_network links)
  where
    split :
        (b : Bool)
        → follow subnet (ready ∷ (if b then configured ∷ running ∷ [] else running ∷ [])) (some up)
          ≡ some up
    split true = refl
    split false = refl

scan_line-follow :
    (links : Links) (line : Text) (routes : Routes) (subnet : Text)
    → follow subnet (scan_line links line routes).1 (some (is_routed routes subnet))
      ≡ some (is_routed (scan_line links line routes).0 subnet)
unfolding scan_line
scan_line-follow links line routes subnet = elim (Option-cases (is_subnet_added line)) [
  | inr (e, h) ↦ rw (h, scan_line) (on_added-follow subnet e routes)
  | inl h ↦
      rw (h, scan_line)
        (elim (Option-cases (is_subnet_removed line)) [
          | inr (e, k) ↦ rw k (on_removed-follow subnet e routes)
          | inl k ↦ rw k (elim (Bool-cases (is_ready line)) [
            | inl r ↦ rw r (on_ready-follow subnet links (is_routed routes subnet))
            | inr r ↦ rw r
          ])
        ])
]

-- Over any output of tinc, the events `SubnetAdded` and `SubnetRemoved` of each subnet alternate,
-- beginning with `SubnetAdded` where the subnet has no route, and the table of routes holds exactly
-- the subnets whose last event is `SubnetAdded` (or that had a route and no event).
pub scanner-follow :
    (links : Links) (lines : List Text) (routes : Routes) (subnet : Text)
    → follow subnet (scanner links lines routes).1 (some (is_routed routes subnet))
      ≡ some (is_routed (scanner links lines routes).0 subnet)
unfolding scanner
scanner-follow links [] routes subnet = refl
scanner-follow links (line ∷ lines) routes subnet =
    let (routes', now) = scan_line links line routes in
    follow-append subnet now (scanner links lines routes').1 (some (is_routed routes subnet))
    ∙ ap (follow subnet (scanner links lines routes').1) (scan_line-follow links line routes subnet)
    ∙ scanner-follow links lines routes' subnet
