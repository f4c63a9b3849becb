-- ===== src/Discovery/Ssd/Keyed.antt =====
-- Tables whose entries stand under their own names, and what one entry more does to a table.
use tinc_boot.Prelude.{◌≡◌, subst, inl, inr, Bool-cases, Bool, Option, some, arith}
use tinc_boot.Text.{Text, equal, equal_iff}
use tinc_boot.Dict.{IsMap, insert-IsMap, lookup-insert}
use tinc_boot.Discovery.Ssd.{Entity, Ssd, is_newer, run_block, store, replace_if_newer}
use tinc_boot.Discovery.Ssd.Versions.{known, known-store, Grows, Grows-refl}

-- The table is a map, and each entry stands under its own name.
pub record IsKeyed (s : Ssd) : Type 0 where
  pub is_map : IsMap s.entities
  pub own_name : (name : Text) (e : Entity) → known s name ≡ some e → e.name ≡ name

pub store-Grows :
    (s : Ssd) (entity : Entity) (name : Text)
    → Grows (known s entity.name) (some entity)
    → Grows (known s name) (known (store s entity) name)
store-Grows s entity name h = rw known-store (elim (Bool-cases (equal entity.name name)) [
  | inl e ↦ rw e (subst (λ n. Grows (known s n) (some entity)) ((equal_iff entity.name name).0 e) h)
  | inr e ↦ rw e (Grows-refl (known s name))
])

pub store-IsKeyed : (s : Ssd) (entity : Entity) → IsKeyed s → IsKeyed (store s entity)
unfolding store
store-IsKeyed s entity k = record {
  is_map = insert-IsMap entity.name entity s.entities k.is_map;
  own_name = λ name e h. ground (
    arith,
    lookup-insert entity.name name entity s.entities,
    equal_iff entity.name name,
    k.own_name name e,
  );
}

pub replace_if_newer-IsKeyed :
    {W : Type 0} (s : Ssd) (entity : Entity) (block : Option (W → W × Bool)) (w : W)
    → IsKeyed s
    → IsKeyed (replace_if_newer s entity block w).0.0
unfolding replace_if_newer
replace_if_newer-IsKeyed s entity block w k =
    elim (Bool-cases (is_newer s entity.name entity.version)) [
      | inl e ↦ rw e (elim (Bool-cases (run_block block w).1) [
        | inl a ↦ rw a (store-IsKeyed s entity k)
        | inr a ↦ rw a k
      ])
      | inr e ↦ rw e k
    ]
