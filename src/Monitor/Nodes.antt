-- ===== src/Monitor/Nodes.antt =====
-- `Node` and `NodeArray` of domain/monitor/types.go. The array holds pointers; its names are
-- distinct, so a name stands for the pointer. Each method holds the lock for its whole body.
pub mod Laws
pub mod Distinct
use tinc_boot.Prelude.{
  ℕ, zero, suc, ◌-◌, Bool, true, false, List, [], ◌∷◌, ◌++◌, Option, none, some, if◌then◌else◌,
  length, take, get_or, set,
}
use tinc_boot.Text.{Text, equal}

pub record Node : Type 0 where
  pub name : Text
  pub subnet : Text
  pub fetched : Bool
  pub is_public : Bool
  -- whether the node's context is cancelled
  pub stopped : Bool

-- `Node.Stop`
unfoldable pub stop : Node → Node
stop n = record n { stopped = true }

-- `NodeArray.Copy`
unfoldable pub copy : List Node → List Node
copy nodes = nodes

abbrev pub fresh : Text → Text → Node
fresh name subnet = record {
  name = name;
  subnet = subnet;
  fetched = false;
  is_public = false;
  stopped = false;
}

-- The loops that look for a name: the index of its first node.
unfoldable pub index_of : Text → List Node → Option (ℕ × Node)
index_of name [] = none
index_of name (nd ∷ nodes) =
    if equal nd.name name
    then some (0, nd)
    else elim (index_of name nodes) [ none ↦ none | some (i, found) ↦ some (suc i, found) ]

-- `TryAdd`
unfoldable pub try_add : Text → Text → List Node → List Node × Option Node
try_add name subnet nodes = elim (index_of name nodes) [
  | some _ ↦ (nodes, none)
  | none ↦ (nodes ++ fresh name subnet ∷ [], some (fresh name subnet))
]

-- `na.nodes[i], na.nodes[last] = na.nodes[last], na.nodes[i]` and `na.nodes[:last]`, where `nd` is
-- the node at `i`.
unfoldable pub swap_out : ℕ → Node → List Node → List Node
swap_out i nd nodes =
    let last = length nodes - 1 in take last (set (set nodes i (get_or nodes last nd)) last nd)

-- `TryRemove`
unfoldable pub try_remove : Text → List Node → List Node × Option Node
try_remove name nodes = elim (index_of name nodes) [
  | none ↦ (nodes, none)
  | some (i, nd) ↦ (swap_out i nd nodes, some nd)
]
