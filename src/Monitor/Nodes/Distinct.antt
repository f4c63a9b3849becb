-- ===== src/Monitor/Nodes/Distinct.antt =====
-- The names in the array of nodes of domain/monitor/types.go.
use mathlib.Core.List.{
  Perm, Mem, not-mem-nil, mem-cons_self, mem-cons_of_mem, forall_mem-cons, perm_append_singleton,
  Pairwise, Pairwise-cons,
}
use mathlib.Core.List.Perm
use tinc_boot.Prelude.{
  ◌≡◌, ◌≢◌, refl, sym, subst, List, [], ◌∷◌, none, arith, All, Option-cases, inl, inr,
}
use tinc_boot.Text.{Text, equal_iff}
use tinc_boot.Monitor.Nodes.{Node, fresh, index_of, try_add, try_remove}
use tinc_boot.Monitor.Nodes.Laws.{index_of-none, try_remove_lem}

-- Two nodes have different names.
abbrev pub IsApart : Node → Node → Type 0
IsApart a b = a.name ≢ b.name

unfoldable pub IsDistinct : List Node → Type 0
IsDistinct nodes = Pairwise IsApart nodes

pub nil-IsDistinct : IsDistinct []
unfolding IsDistinct
nil-IsDistinct = Pairwise.nil

≢_prop : (a b : Text) → IsProp (a ≢ b)
≢_prop a b = hlevel

All→mem :
    (name : Text) (nodes : List Node)
    → All (λ n. n.name ≢ name) nodes
    → (n : Node) → Mem n nodes
    → name ≢ n.name
All→mem name [] h = λ n m. absurd (not-mem-nil m)
All→mem name (x ∷ nodes) h =
    (forall_mem-cons (λ n. ≢_prop name n.name)).1 ((λ e. h.0 (sym e)), All→mem name nodes h.1)

cons-IsDistinct :
    (name : Text) (subnet : Text) (nodes : List Node)
    → All (λ n. n.name ≢ name) nodes
    → IsDistinct nodes
    → IsDistinct (fresh name subnet ∷ nodes)
unfolding IsDistinct
cons-IsDistinct name subnet nodes h d = Pairwise-cons.1 (All→mem name nodes h, d)

pub Perm-IsDistinct : {xs ys : List Node} → Perm xs ys → IsDistinct xs → IsDistinct ys
unfolding IsDistinct
Perm-IsDistinct = Perm.pairwise (λ a b. ≢_prop a.name b.name) (λ a b h e. h (sym e))

-- `TryAdd` keeps distinct names distinct.
pub try_add-IsDistinct :
    (name subnet : Text) (nodes : List Node)
    → IsDistinct nodes
    → IsDistinct (try_add name subnet nodes).0
unfolding try_add
try_add-IsDistinct name subnet nodes d = elim (Option-cases (index_of name nodes)) [
  | inl e ↦
      rw (e, try_add)
        (Perm-IsDistinct (Perm.symm (perm_append_singleton (fresh name subnet) nodes))
          (cons-IsDistinct name subnet nodes (index_of-none name nodes e) d))
  | inr (_, e) ↦ rw (e, try_add) d
]

mem→index_of :
    (name : Text) (nodes : List Node)
    → ((n : Node) → Mem n nodes → name ≢ n.name)
    → index_of name nodes ≡ none
unfolding index_of
mem→index_of name [] h = refl
mem→index_of name (x ∷ nodes) h = ground (
  arith,
  equal_iff x.name name,
  h x mem-cons_self,
  mem→index_of name nodes (λ n m. h n (mem-cons_of_mem x m)),
)

none→gone :
    (name : Text) (nodes rest : List Node)
    → All (λ n. n.name ≢ name) nodes
    → rest ≡ nodes
    → IsDistinct nodes
    → IsDistinct rest × (index_of name rest ≡ none)
none→gone name nodes rest h e d =
    subst (λ r. IsDistinct r × (index_of name r ≡ none)) (sym e)
      (d, mem→index_of name nodes (All→mem name nodes h))

some→gone :
    (name : Text) (nodes rest : List Node) (nd : Node)
    → nd.name ≡ name
    → Perm (nd ∷ rest) nodes
    → IsDistinct nodes
    → IsDistinct rest × (index_of name rest ≡ none)
unfolding IsDistinct
some→gone name nodes rest nd e p d =
    let (apart, d') = Pairwise-cons.0 (Perm-IsDistinct (Perm.symm p) d) in
    (d', mem→index_of name rest (λ n m. subst (λ t. t ≢ n.name) e (apart n m)))

-- `TryRemove` keeps distinct names distinct, and afterwards the name is gone.
pub try_remove-IsDistinct :
    (name : Text) (nodes : List Node)
    → IsDistinct nodes
    → IsDistinct (try_remove name nodes).0 × (index_of name (try_remove name nodes).0 ≡ none)
try_remove-IsDistinct name nodes d = elim (Option-cases (try_remove name nodes).1) [
  | inl e ↦ let (h, same) = (try_remove_lem name nodes).1 e in none→gone name nodes _ h same d
  | inr (nd, e) ↦
      let (named, p) = (try_remove_lem name nodes).0 nd e in some→gone name nodes _ nd named p d
]
