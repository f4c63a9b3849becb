-- ===== src/Discovery/Ssd/Converge.antt =====
-- Sequences of merges into the table of tincd/discovery/ssd.go.
use tinc_boot.Prelude.{
  ◌≡◌, sym, subst, ap, ◌∙◌, ◌⊎◌, inl, inr, Option-cases, Bool-cases, Bool, true, false, Option,
  none, some, List, [], ◌∷◌, arith, if◌then◌else◌, In,
}
use tinc_boot.Prelude.Int.{ℤ, ◌≤ℤ◌, eq_of_parts}
use tinc_boot.Text.{Text, equal_iff, equal_refl}
use tinc_boot.Discovery.Ssd.{Entity, Ssd, can_be_merged, run_block, replace_if_newer}
use tinc_boot.Discovery.Ssd.Versions.{
  known, set_known, AtLeast, Grows, Grows-refl, Grows-trans, replace_if_newer-Grows,
  replace_if_newer_lem,
}
use tinc_boot.Discovery.Ssd.Keyed.{IsKeyed}

-- `ReplaceIfNewer(entity, nil)`, as the run command and the greeting service call it.
pub merge : Ssd → Entity → Ssd
merge ssd entity = (replace_if_newer {W = Unit {0}} ssd entity none tt).0.0

pub same_entity :
    (e f : Entity) → e.name ≡ f.name → e.version ≤ℤ f.version → f.version ≤ℤ e.version → e ≡ f
same_entity e f n h k =
    λ i. record { name = n i; version = eq_of_parts e.version f.version (omega arith) i }

AtLeast-Grows : (v : ℤ) (a b : Option Entity) → AtLeast v a → Grows a b → AtLeast v b
AtLeast-Grows v none b h g = absurd h
AtLeast-Grows v (some e) none h g = absurd g
AtLeast-Grows v (some e) (some f) h g = omega arith

pub merge_all : Ssd → List Entity → Ssd
merge_all ssd [] = ssd
merge_all ssd (e ∷ es) = merge_all (merge ssd e) es

known-merge :
    (ssd : Ssd) (entity : Entity) (name : Text)
    → known (merge ssd entity) name
      ≡ set_known (can_be_merged ssd entity) entity name (known ssd name)
unfolding merge run_block
known-merge ssd entity name =
    let (merged, _, after) = replace_if_newer_lem {W = Unit {0}} ssd entity none tt in
    after name
    ∙ ap (λ b. set_known b entity name (known ssd name))
        (merged ∙ if_true (can_be_merged ssd entity))
  where
    if_true : (b : Bool) → (if b then true else false) ≡ b
    if_true b = ground arith

merge-Grows :
    (ssd : Ssd) (entity : Entity) (name : Text)
    → Grows (known ssd name) (known (merge ssd entity) name)
unfolding merge
merge-Grows ssd entity name = replace_if_newer-Grows ssd entity none tt name

-- The table refuses an entity only for one that is at least as new.
pub refused-AtLeast :
    (ssd : Ssd) (entity : Entity)
    → can_be_merged ssd entity ≡ false
    → AtLeast entity.version (known ssd entity.name)
unfolding can_be_merged
refused-AtLeast ssd entity h = elim (Option-cases (known ssd entity.name)) [
  | inl e ↦ absurd (ground arith)
  | inr (old, e) ↦ rw e (ground arith)
]

-- After its merge an entity's version is reached under its name.
merge-AtLeast :
    (ssd : Ssd) (entity : Entity) → AtLeast entity.version (known (merge ssd entity) entity.name)
merge-AtLeast ssd entity = rw known-merge (elim (Bool-cases (can_be_merged ssd entity)) [
  | inl m ↦ rw m (rw equal_refl (omega arith))
  | inr m ↦ rw m (refused-AtLeast ssd entity m)
])

merge-from :
    (ssd : Ssd) (entity : Entity) (name : Text) (e : Entity)
    → known (merge ssd entity) name ≡ some e
    → (known ssd name ≡ some e) ⊎ ((entity ≡ e) × (entity.name ≡ name))
merge-from ssd entity name e h =
    ground (arith, known-merge ssd entity name, equal_iff entity.name name)

merge_all-Grows :
    (es : List Entity) (ssd : Ssd) (name : Text)
    → Grows (known ssd name) (known (merge_all ssd es) name)
unfolding merge_all
merge_all-Grows [] ssd name = Grows-refl (known ssd name)
merge_all-Grows (x ∷ es) ssd name =
    Grows-trans (known ssd name) (known (merge ssd x) name)
      (known (merge_all (merge ssd x) es) name) (merge-Grows ssd x name)
      (merge_all-Grows es (merge ssd x) name)

-- Every announced entity is reached, in its version or a later one.
merge_all-AtLeast :
    (es : List Entity) (ssd : Ssd) (e : Entity)
    → In e es
    → AtLeast e.version (known (merge_all ssd es) e.name)
unfolding merge_all
merge_all-AtLeast [] ssd e i = absurd i
merge_all-AtLeast (x ∷ es) ssd e (inl p) =
    AtLeast-Grows e.version (known (merge ssd x) e.name) (known (merge_all (merge ssd x) es) e.name)
      (subst (λ y. AtLeast y.version (known (merge ssd x) y.name)) p (merge-AtLeast ssd x))
      (merge_all-Grows es (merge ssd x) e.name)
merge_all-AtLeast (x ∷ es) ssd e (inr i) = merge_all-AtLeast es (merge ssd x) e i

-- What the table holds in the end it held before, or was announced.
merge_all-from :
    (es : List Entity) (ssd : Ssd) (name : Text) (e : Entity)
    → known (merge_all ssd es) name ≡ some e
    → (known ssd name ≡ some e) ⊎ (In e es × (e.name ≡ name))
unfolding merge_all
merge_all-from [] ssd name e h = inl h
merge_all-from (x ∷ es) ssd name e h = elim (merge_all-from es (merge ssd x) name e h) [
  | inr (i, n) ↦ inr (inr i, n)
  | inl before ↦ elim (merge-from ssd x name e before) [
    | inl old ↦ inl old
    | inr (p, n) ↦ inr (inl p, ap (λ (y : Entity). y.name) (sym p) ∙ n)
  ]
]

abbrev pub SameMembers : List Entity → List Entity → Type 0
SameMembers es fs = ((e : Entity) → In e es → In e fs) × ((e : Entity) → In e fs → In e es)

-- The entry that one order of merges leaves is reached by any other order of the same entities.
module _ (ssd : Ssd) (k : IsKeyed ssd) (name : Text) where
  merge_all-name :
      (es : List Entity) (e : Entity) → known (merge_all ssd es) name ≡ some e → e.name ≡ name
  merge_all-name es e h = elim (merge_all-from es ssd name e h) [
    | inl old ↦ k.own_name name e old
    | inr (i, n) ↦ n
  ]

  reached :
      (es fs : List Entity) (e : Entity)
      → ((x : Entity) → In x es → In x fs)
      → known (merge_all ssd es) name ≡ some e
      → AtLeast e.version (known (merge_all ssd fs) name)
  reached es fs e sub h = elim (merge_all-from es ssd name e h) [
    | inl old ↦
        subst (λ o. Grows o (known (merge_all ssd fs) name)) old (merge_all-Grows fs ssd name)
    | inr (i, n) ↦
        subst (λ m. AtLeast e.version (known (merge_all ssd fs) m)) n
          (merge_all-AtLeast fs ssd e (sub e i))
  ]

  -- From a table whose entries stand under their own names, merging two sequences of announcements with
  -- the same members, in any order and with any repetition, leaves the same entry under every name.
  pub merge_all-converges :
      (es fs : List Entity)
      → SameMembers es fs
      → known (merge_all ssd es) name ≡ known (merge_all ssd fs) name
  merge_all-converges es fs (sub, sup) = elim (Option-cases (known (merge_all ssd es) name)) [
    | inl none_es ↦ elim (Option-cases (known (merge_all ssd fs) name)) [
      | inl none_fs ↦ none_es ∙ sym none_fs
      | inr (f, some_f) ↦ absurd (rw none_es at (reached fs es f sup some_f))
    ]
    | inr (e, some_e) ↦ elim (Option-cases (known (merge_all ssd fs) name)) [
      | inl none_fs ↦ absurd (rw none_fs at (reached es fs e sub some_e))
      | inr (f, some_f) ↦
          some_e
          ∙ ap some (
              same_entity e f (merge_all-name es e some_e ∙ sym (merge_all-name fs f some_f))
                (rw some_f at (reached es fs e sub some_e))
                (rw some_e at (reached fs es f sup some_f)))
          ∙ sym some_f
    ]
  ]
