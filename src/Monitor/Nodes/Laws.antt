-- ===== src/Monitor/Nodes/Laws.antt =====
-- `TryRemove` of domain/monitor/types.go: the array of nodes as a set of names.
use mathlib.Core.List.{Perm}
use mathlib.Core.List.Perm
use tinc_boot.Prelude.{
  ℕ, zero, suc, ◌-◌, ◌<◌, ◌≡◌, ◌≢◌, refl, ap, subst, List, [], ◌∷◌, none, some, length, take,
  get_or, set, arith, All, Option-cases, inl, inr,
}
use tinc_boot.Text.{Text, equal_iff}
use tinc_boot.Monitor.Nodes.{Node, index_of, swap_out, try_remove}

-- The place of a name, and the node that stands there.
index_of-get :
    (name : Text) (nodes : List Node) (i : ℕ) (nd : Node)
    → index_of name nodes ≡ some (i, nd)
    → (i < length nodes) × (get_or nodes i nd ≡ nd) × (nd.name ≡ name)
unfolding index_of
index_of-get name [] i nd h = cc
index_of-get name (x ∷ nodes) zero nd h = ground (arith, equal_iff x.name name)
index_of-get name (x ∷ nodes) (suc i) nd h = ground (arith, index_of-get name nodes i nd)

pub index_of-none :
    (name : Text) (nodes : List Node) → index_of name nodes ≡ none → All (λ n. n.name ≢ name) nodes
unfolding index_of
index_of-none name [] h = tt
index_of-none name (x ∷ nodes) h =
    ((λ e. ground (arith, equal_iff x.name name)), index_of-none name nodes (ground arith))

take_to_last :
    (x d : Node) (rest : List Node)
    → Perm (get_or (x ∷ rest) (length rest) d ∷ take (length rest) (x ∷ rest)) (x ∷ rest)
take_to_last x d [] = Perm.refl (x ∷ [])
take_to_last x d (y ∷ rest) = Perm.trans (Perm.swap _ _ _) (Perm.cons x (take_to_last y d rest))

take-set : (n : ℕ) (xs : List Node) (v : Node) → take n (set xs n v) ≡ take n xs
take-set zero xs v = refl
take-set (suc n) [] v = refl
take-set (suc n) (x ∷ xs) v = ap (◌∷◌ x) (take-set n xs v)

-- `swap_out` with its last index given.
abbrev swap_at : ℕ → ℕ → Node → List Node → List Node
swap_at last i nd nodes = take last (set (set nodes i (get_or nodes last nd)) last nd)

swap_at-perm :
    (x : Node) (rest : List Node) (i : ℕ) (nd : Node)
    → i < length (x ∷ rest)
    → get_or (x ∷ rest) i nd ≡ nd
    → Perm (nd ∷ swap_at (length rest) i nd (x ∷ rest)) (x ∷ rest)
swap_at-perm x [] zero nd h e = subst (λ n. Perm (n ∷ []) (x ∷ [])) e (Perm.refl (x ∷ []))
swap_at-perm x (y ∷ rest) zero nd h e = rw (take-set (length rest) (y ∷ rest) nd) (
    subst
      (λ n.
        Perm (n ∷ get_or (y ∷ rest) (length rest) nd ∷ take (length rest) (y ∷ rest))
          (x ∷ y ∷ rest))
      e (Perm.cons x (take_to_last y nd rest)))
swap_at-perm x [] (suc i) nd h e = absurd (omega arith)
swap_at-perm x (y ∷ rest) (suc i) nd h e =
    Perm.trans (Perm.swap _ _ _) (Perm.cons x (swap_at-perm y rest i nd (omega arith) e))

swap_out-perm :
    (nodes : List Node) (i : ℕ) (nd : Node)
    → i < length nodes
    → get_or nodes i nd ≡ nd
    → Perm (nd ∷ swap_out i nd nodes) nodes
unfolding swap_out
swap_out-perm [] i nd h e = absurd (omega arith)
swap_out-perm (x ∷ rest) i nd h e =
    subst (λ last. Perm (nd ∷ swap_at last i nd (x ∷ rest)) (x ∷ rest)) (pred_suc (length rest))
      (swap_at-perm x rest i nd h e)
  where
    pred_suc : (n : ℕ) → n ≡ suc n - 1
    pred_suc n = omega arith

-- `TryRemove` returns a node of that name and keeps all the others, in some order; without such a
-- node it changes nothing.
pub try_remove_lem :
    (name : Text) (nodes : List Node)
    → ((nd : Node)
        → (try_remove name nodes).1 ≡ some nd
        → (nd.name ≡ name) × Perm (nd ∷ (try_remove name nodes).0) nodes)
      × ((try_remove name nodes).1 ≡ none
          → All (λ n. n.name ≢ name) nodes × ((try_remove name nodes).0 ≡ nodes))
unfolding try_remove
try_remove_lem name nodes = elim (Option-cases (index_of name nodes)) [
  | inl e ↦ rw (e, try_remove) ((λ nd h. cc), λ _. (index_of-none name nodes e, refl))
  | inr ((i, found), e) ↦
      let (bound, get, named) = index_of-get name nodes i found e in
      rw (e, try_remove)
        (
          (λ nd h.
              subst (λ n. (n.name ≡ name) × Perm (n ∷ swap_out i found nodes) nodes) (some_inj h)
                (named, swap_out-perm nodes i found bound get)),
          λ h. cc,
        )
]
  where
    some_inj : {a b : Node} → some a ≡ some b → a ≡ b
    some_inj h = cc
