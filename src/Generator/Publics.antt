-- ===== src/Generator/Publics.antt =====
-- The public nodes that `findAllPublicNodes` of domain/generator/assemble.go finds.
use tinc_boot.Prelude.{
  ◌≡◌, ◌⊎◌, refl, sym, ap, subst, Bool, true, false, List, [], ◌∷◌, In, if◌then◌else◌, inl, inr,
  arith,
}
use tinc_boot.Text.{Text, codes}
use tinc_boot.Text.Strings.{contains}
use tinc_boot.Dict.{Dict}
use tinc_boot.Daemon.Disk.{Item, file, directory, Env}
use tinc_boot.Generator.{Failure, Outcome, ok, err, public_nodes}

-- The public nodes of a directory are its files that mention an address.
abbrev pub IsPublicIn : Dict Item → Text × Text → Type 0
IsPublicIn entries (name, content) =
    In (name, file content) entries × (contains content (codes "Address") ≡ true)

pub ok_of : {A : Type 0} (o : Outcome A) → ((f : Failure) × (o ≡ err f)) ⊎ ((a : A) × (o ≡ ok a))
ok_of (ok a) = inr (a, refl)
ok_of (err f) = inl (f, refl)

public_nodes-file :
    (env : Env) (name content : Text) (rest : Dict Item) (nodes : List (Text × Text))
    → public_nodes env ((name, file content) ∷ rest) ≡ ok nodes
    → (more : List (Text × Text)) × (public_nodes env rest ≡ ok more)
      × (nodes ≡ (if contains content (codes "Address") then (name, content) ∷ more else more))
unfolding public_nodes
public_nodes-file env name content rest nodes h = elim (ok_of (public_nodes env rest)) [
  | inl (f, e) ↦ absurd (ground arith)
  | inr (more, e) ↦ (more, e, ground arith)
]

In-if :
    (b : Bool) (node new : Text × Text) (more : List (Text × Text))
    → In node (if b then new ∷ more else more)
    → ((b ≡ true) × (new ≡ node)) ⊎ In node more
In-if true node new more (inl e) = inl (refl, e)
In-if true node new more (inr i) = inr i
In-if false node new more i = inr i

pub public_nodes-IsPublicIn :
    (env : Env) (entries : Dict Item) (nodes : List (Text × Text)) (node : Text × Text)
    → public_nodes env entries ≡ ok nodes
    → In node nodes
    → IsPublicIn entries node
unfolding public_nodes
public_nodes-IsPublicIn env [] nodes node h i = absurd (subst (In node) (no_nodes h) i)
  where
    no_nodes : ◌≡◌ {A = Outcome (List (Text × Text))} (ok []) (ok nodes) → nodes ≡ []
    no_nodes e = cc
public_nodes-IsPublicIn env ((n, directory) ∷ rest) nodes (name, content) h i =
    let (there, found) = public_nodes-IsPublicIn env rest nodes (name, content) h i in
    (inr there, found)
public_nodes-IsPublicIn env ((n, file c) ∷ rest) nodes (name, content) h i =
    let (more, e, same) = public_nodes-file env n c rest nodes h in
    elim (In-if (contains c (codes "Address")) (name, content) (n, c) more
      (subst (In (name, content)) same i)) [
        | inl (found, new) ↦ (
          inl (ap (λ (x : Text × Text). (x.0, file x.1)) new),
          subst (λ (x : Text × Text). contains x.1 (codes "Address") ≡ true) new found,
        )
        | inr old ↦
            let (there, found) = public_nodes-IsPublicIn env rest more (name, content) e old in
            (inr there, found)
      ]

pub IsPublicIn-public_nodes :
    (env : Env) (entries : Dict Item) (nodes : List (Text × Text)) (name content : Text)
    → public_nodes env entries ≡ ok nodes
    → In (name, file content) entries
    → contains content (codes "Address") ≡ true
    → In (name, content) nodes
unfolding public_nodes
IsPublicIn-public_nodes env [] nodes name content h i found = absurd i
IsPublicIn-public_nodes env ((n, directory) ∷ rest) nodes name content h (inl e) found = absurd (cc)
IsPublicIn-public_nodes env ((n, directory) ∷ rest) nodes name content h (inr i) found =
    IsPublicIn-public_nodes env rest nodes name content h i found
IsPublicIn-public_nodes env ((n, file c) ∷ rest) nodes name content h i found =
    let (more, e, same) = public_nodes-file env n c rest nodes h in
    subst (In (name, content)) (sym same) (elim i [
      | inl own ↦
          own_listed (contains c (codes "Address")) more (same_file own) (
            subst (λ (x : Text). contains x (codes "Address") ≡ true) (sym (same_content own))
              found)
      | inr later ↦
          kept (contains c (codes "Address")) more
            (IsPublicIn-public_nodes env rest more name content e later found)
    ])
  where
    same_file :
        ◌≡◌ {A = Text × Item} (n, file c) (name, file content)
        → ◌≡◌ {A = Text × Text} (n, c) (name, content)
    same_file e = cc

    same_content : ◌≡◌ {A = Text × Item} (n, file c) (name, file content) → c ≡ content
    same_content e = cc

    own_listed :
        (b : Bool) (more : List (Text × Text))
        → ◌≡◌ {A = Text × Text} (n, c) (name, content)
        → b ≡ true
        → In (name, content) (if b then (n, c) ∷ more else more)
    own_listed true more e t = inl e
    own_listed false more e t = cc

    kept :
        (b : Bool) (more : List (Text × Text))
        → In (name, content) more
        → In (name, content) (if b then (n, c) ∷ more else more)
    kept true more j = inr j
    kept false more j = j
