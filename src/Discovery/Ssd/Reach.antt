-- ===== src/Discovery/Ssd/Reach.antt =====
-- The discovery table of tincd/discovery/ssd.go over any sequence of its operations.
use tinc_boot.Prelude.{◌≡◌, refl, subst, ◌∙◌, Bool, false, List, [], ◌∷◌, Option, some, All}
use tinc_boot.Prelude.Int.{ℤ}
use tinc_boot.Text.{Text, equal, equal_refl}
use tinc_boot.Discovery.Ssd.{Entity, Ssd, replace_if_newer, replace}
use tinc_boot.Discovery.Ssd.Versions.{
  known, known-store, Grows, Grows-refl, Grows-trans, replace_if_newer-Grows,
}
use tinc_boot.Discovery.Ssd.Storage.{Json, Files, read}

-- A call that changes the table: `ReplaceIfNewer`, `Replace` or `Read`. `W` is what the blocks of merges
-- work on.
pub data Operation (W : Type 0) : Type 0 where
  merges : Entity → Option (W → W × Bool) → W → Operation W
  replaces : Entity → Operation W
  reads : Json → Bool → Files → Operation W

unfoldable pub operate : {W : Type 0} → Operation W → Ssd → Ssd
operate (merges entity block w) ssd = (replace_if_newer ssd entity block w).0.0
operate (replaces entity) ssd = replace ssd entity
operate (reads json denied files) ssd = (read json denied files ssd).0

unfoldable pub operate_all : {W : Type 0} → List (Operation W) → Ssd → Ssd
unfolding operate
operate_all [] ssd = ssd
operate_all (operation ∷ rest) ssd = operate_all rest (operate operation ssd)

-- A merge, or the `Replace` of an entity with another name.
abbrev pub Spares : {W : Type 0} → Text → Operation W → Type 0
Spares name (merges entity block w) = Unit {0}
Spares name (replaces entity) = equal entity.name name ≡ false
Spares name (reads json denied files) = ⊥

operate-Grows :
    {W : Type 0} (operation : Operation W) (s : Ssd) (name : Text)
    → Spares name operation
    → Grows (known s name) (known (operate operation s) name)
unfolding operate replace
operate-Grows (merges entity block w) s name h = replace_if_newer-Grows s entity block w name
operate-Grows (replaces entity) s name h =
    rw (known-store s entity name, h) (Grows-refl (known s name))
operate-Grows (reads json denied files) s name h = absurd h

operate_all-spared :
    {W : Type 0} (operations : List (Operation W)) (s : Ssd) (name : Text)
    → All (Spares name) operations
    → Grows (known s name) (known (operate_all operations s) name)
unfolding operate_all
operate_all-spared [] s name h = Grows-refl (known s name)
operate_all-spared (operation ∷ rest) s name h =
    Grows-trans (known s name) (known (operate operation s) name)
      (known (operate_all rest (operate operation s)) name) (operate-Grows operation s name h.0)
      (operate_all-spared rest (operate operation s) name h.1)

known-replace : (s : Ssd) (entity : Entity) → known (replace s entity) entity.name ≡ some entity
unfolding replace
known-replace s entity = known-store s entity entity.name ∙ rw (equal_refl entity.name) refl

-- "version (must always grow)": over any sequence of merges, taken or refused, and of `Replace` for
-- other names, a name that is known stays known and its version never decreases; and after a `Replace`,
-- whatever stood there before, its entity or a later version stands under its name.
pub operate_all-Grows :
    {W : Type 0} (operations : List (Operation W)) (s : Ssd) (name : Text) (version : ℤ)
    → All (Spares name) operations
    → Grows (known s name) (known (operate_all operations s) name)
      × Grows (some (record { name = name; version = version })) (
          known
            (operate_all operations (replace s (record { name = name; version = version })))
            name)
operate_all-Grows operations s name version h =
    let own : Entity = record { name = name; version = version } in
    (
      operate_all-spared operations s name h,
      subst (λ o. Grows o (known (operate_all operations (replace s own)) name))
          (known-replace s own) (operate_all-spared operations (replace s own) name h),
    )
