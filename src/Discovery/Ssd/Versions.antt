-- ===== src/Discovery/Ssd/Versions.antt =====
-- Versions in the table of tincd/discovery/ssd.go, and what a merge does to them.
use tinc_boot.Prelude.{
  ◌≡◌, refl, sym, subst, ◌∙◌, inl, inr, Option-cases, Bool-cases, Bool, true, false, Option, none,
  some, arith, if◌then◌else◌,
}
use tinc_boot.Prelude.Int.{ℤ, ◌≤ℤ◌}
use tinc_boot.Text.{Text, equal, equal_iff}
use tinc_boot.Dict.{lookup, lookup-insert}
use tinc_boot.Discovery.Ssd.{
  Entity, Ssd, is_newer, can_be_merged, store, run_block, replace_if_newer,
}

-- What the table knows of a name.
abbrev pub known : Ssd → Text → Option Entity
known ssd name = lookup name ssd.entities

abbrev pub set_known : Bool → Entity → Text → Option Entity → Option Entity
set_known merged entity name old =
    if merged then (if equal entity.name name then some entity else old) else old

pub known-store :
    (ssd : Ssd) (entity : Entity) (name : Text)
    → known (store ssd entity) name
      ≡ (if equal entity.name name then some entity else known ssd name)
unfolding store
known-store ssd entity name = lookup-insert entity.name name entity ssd.entities

module _ {W : Type 0} (ssd : Ssd) (entity : Entity) (block : Option (W → W × Bool)) (w : W) where
  -- `ReplaceIfNewer` reports a merge exactly when the table does not know the name at that version
  -- or a later one and the block accepts; the block runs only in the first case. A reported merge
  -- writes this entity under its name, and nothing else of the table changes in any case.
  pub replace_if_newer_lem :
      ((replace_if_newer ssd entity block w).1
        ≡ (if can_be_merged ssd entity then (run_block block w).1 else false))
      × ((replace_if_newer ssd entity block w).0.1
          ≡ (if can_be_merged ssd entity then (run_block block w).0 else w))
      × ((name : Text)
          → known (replace_if_newer ssd entity block w).0.0 name
            ≡ set_known (replace_if_newer ssd entity block w).1 entity name (known ssd name))
  unfolding replace_if_newer can_be_merged
  replace_if_newer_lem =
      (ground arith, ground arith, λ name. ground (arith, known-store ssd entity name))

-- The version of an entry is no older than `v`; a missing entry is older than any.
abbrev pub AtLeast : ℤ → Option Entity → Type 0
AtLeast v none = ⊥
AtLeast v (some e) = v ≤ℤ e.version

-- Whatever is known stays known, at the same version or a later one.
abbrev pub Grows : Option Entity → Option Entity → Type 0
Grows none new = Unit
Grows (some e) new = AtLeast e.version new

AtLeast-trans : (v w : ℤ) (o : Option Entity) → v ≤ℤ w → AtLeast w o → AtLeast v o
AtLeast-trans v w none h a = a
AtLeast-trans v w (some e) h a = omega arith

pub Grows-refl : (o : Option Entity) → Grows o o
Grows-refl none = tt
Grows-refl (some e) = omega arith

pub Grows-trans : (a b c : Option Entity) → Grows a b → Grows b c → Grows a c
Grows-trans none b c h k = tt
Grows-trans (some e) none c h k = absurd h
Grows-trans (some e) (some f) c h k = AtLeast-trans e.version f.version c h k

-- Where the table admits an entity, that entity is newer than what stands under its name.
pub can_be_merged-Grows :
    (ssd : Ssd) (entity : Entity)
    → can_be_merged ssd entity ≡ true
    → Grows (known ssd entity.name) (some entity)
unfolding can_be_merged is_newer
can_be_merged-Grows ssd entity h = elim (Option-cases (known ssd entity.name)) [
  | inl e ↦ rw e tt
  | inr (old, e) ↦ rw e (ground arith)
]

set_known-Grows :
    (merged : Bool) (entity : Entity) (name : Text) (old : Option Entity)
    → (merged ≡ true → entity.name ≡ name → Grows old (some entity))
    → Grows old (set_known merged entity name old)
set_known-Grows false entity name old h = Grows-refl old
set_known-Grows true entity name old h = elim (Bool-cases (equal entity.name name)) [
  | inl e ↦ rw e (h refl ((equal_iff entity.name name).0 e))
  | inr e ↦ rw e (Grows-refl old)
]

module _ {W : Type 0} where
  -- A merge never takes a version back and never forgets a name, whatever the block does.
  pub replace_if_newer-Grows :
      (ssd : Ssd) (entity : Entity) (block : Option (W → W × Bool)) (w : W) (name : Text)
      → Grows (known ssd name) (known (replace_if_newer ssd entity block w).0.0 name)
  replace_if_newer-Grows ssd entity block w name =
      let (merged, _, after) = replace_if_newer_lem ssd entity block w in
      rw (after name) (
        set_known-Grows _ entity name (known ssd name) (λ m e.
          subst (λ n. Grows (known ssd n) (some entity)) e
            (can_be_merged-Grows ssd entity (admitted _ _ (sym merged ∙ m)))))
    where
      admitted : (a b : Bool) → (if a then b else false) ≡ true → a ≡ true
      admitted a b h = ground arith
