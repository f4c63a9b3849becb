-- ===== src/Daemon/Output.antt =====
-- tincd/daemon/output_parser.go: the events that a line of tincd's output announces. The three
-- regular expressions are lists of pieces, matched as package regexp does: at the leftmost place,
-- each repetition as long as it can be.
use tinc_boot.Prelude.{
  ℕ, Bool, true, false, not, ◌&&◌, ◌||◌, List, [], ◌∷◌, ◌++◌, Option, none, some, if◌then◌else◌,
  ◌==◌, leb,
}
use tinc_boot.Text.{Text, codes, equal}
use tinc_boot.Numbers.{is_digit}

-- A piece of a pattern: one character, or one or more of a class, kept as a group or not.
pub data Piece : Type 0 where
  one : ℕ → Piece
  several : (ℕ → Bool) → Piece
  group : (ℕ → Bool) → Piece

-- `\s`, `\w` and `[^...]`
unfoldable pub is_blank : ℕ → Bool
is_blank c = c == 9 || c == 10 || c == 12 || c == 13 || c == 32

unfoldable pub is_word : ℕ → Bool
unfolding is_digit
is_word c = is_digit c || leb b'A' c && leb c b'Z' || leb b'a' c && leb c b'z' || c == b'_'

unfoldable pub is_dark : ℕ → Bool
unfolding is_blank
is_dark c = not (is_blank c)

unfoldable pub is_not : ℕ → ℕ → Bool
is_not d c = not (c == d)

abbrev pub or_else : Option (List Text) → Option (List Text) → Option (List Text)
or_else none b = b
or_else (some a) b = some a

abbrev pub add_group : Bool → Text → Option (List Text) → Option (List Text)
add_group kept taken none = none
add_group kept taken (some gs) = if kept then some (taken ∷ gs) else some gs

-- The end of a run, which may not be empty.
abbrev pub end_run : Bool → Text → Option (List Text) → Option (List Text)
end_run kept [] rest = none
end_run kept (c ∷ cs) rest = add_group kept (c ∷ cs) rest

-- One or more characters of a class, then the rest of the pattern; the longest run is tried first.
-- `taken` is what the run has so far.
unfoldable pub repeat :
    (ℕ → Bool) → Bool → (Text → Option (List Text)) → Text → Text → Option (List Text)
repeat class kept rest taken [] = end_run kept taken (rest [])
repeat class kept rest taken (c ∷ cs) =
    let longer = repeat class kept rest (taken ++ c ∷ []) cs in
    let here = end_run kept taken (rest (c ∷ cs)) in if class c then or_else longer here else here

-- The groups of a match that starts here.
unfoldable pub match_here : List Piece → Text → Option (List Text)
unfolding repeat
match_here [] s = some []
match_here (one d ∷ ps) [] = none
match_here (one d ∷ ps) (c ∷ cs) = let rest = match_here ps cs in if c == d then rest else none
match_here (several class ∷ ps) s = repeat class false (match_here ps) [] s
match_here (group class ∷ ps) s = repeat class true (match_here ps) [] s

-- The groups of the leftmost match.
unfoldable pub find_match : List Piece → Text → Option (List Text)
unfolding match_here
find_match ps [] = match_here ps []
find_match ps (c ∷ cs) = or_else (match_here ps (c ∷ cs)) (find_match ps cs)

abbrev pub literal : Text → List Piece → List Piece
literal [] ps = ps
literal (c ∷ cs) ps = one c ∷ literal cs ps

-- `addSubnetPattern`
unfoldable pub add_subnet_pattern : List Piece
unfolding is_blank is_dark is_not is_digit is_word
add_subnet_pattern = literal (codes "ADD_SUBNET") (
    several is_blank
    ∷ literal (codes "from") (
        several is_blank
        ∷ group is_dark
        ∷ several is_blank
        ∷ one b'('
        ∷ group is_dark
        ∷ several is_blank
        ∷ literal (codes "port") (
            several is_blank
            ∷ group is_digit
            ∷ one b')'
            ∷ one b':'
            ∷ several is_blank
            ∷ several is_digit
            ∷ several is_blank
            ∷ several is_word
            ∷ several is_blank
            ∷ group is_dark
            ∷ several is_blank
            ∷ group (is_not b'#')
            ∷ [])))

-- `delSubnetPattern`
unfoldable pub del_subnet_pattern : List Piece
unfolding is_blank is_dark is_not is_digit is_word
del_subnet_pattern = literal (codes "DEL_SUBNET") (
    several is_blank
    ∷ several (is_not b':')
    ∷ one b':'
    ∷ several is_blank
    ∷ several is_digit
    ∷ several is_blank
    ∷ several is_word
    ∷ several is_blank
    ∷ group is_dark
    ∷ several is_blank
    ∷ group (is_not b'#')
    ∷ [])

-- `EventSubnetAdded`, with the fields of `Advertising` and `Peer`.
pub record SubnetAdded : Type 0 where
  pub advertising_node : Text
  pub advertising_host : Text
  pub advertising_port : Text
  pub peer_node : Text
  pub peer_subnet : Text

-- `EventSubnetRemoved`
pub record SubnetRemoved : Type 0 where
  pub peer_node : Text
  pub peer_subnet : Text

-- `IsSubnetAdded`
unfoldable pub is_subnet_added : Text → Option SubnetAdded
unfolding find_match add_subnet_pattern
is_subnet_added line = elim (find_match add_subnet_pattern line) [
  | some (node ∷ host ∷ port ∷ peer ∷ subnet ∷ []) ↦ some (record {
    advertising_node = node;
    advertising_host = host;
    advertising_port = port;
    peer_node = peer;
    peer_subnet = subnet;
  })
  | _ ↦ none
]

-- `IsSubnetRemoved`
unfoldable pub is_subnet_removed : Text → Option SubnetRemoved
unfolding find_match del_subnet_pattern
is_subnet_removed line = elim (find_match del_subnet_pattern line) [
  | some (peer ∷ subnet ∷ []) ↦ some (record { peer_node = peer; peer_subnet = subnet })
  | _ ↦ none
]

-- `IsReady`
unfoldable pub is_ready : Text → Bool
unfolding equal
is_ready line = equal line (codes "Ready")
