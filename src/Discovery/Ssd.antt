-- ===== src/Discovery/Ssd.antt =====
-- tincd/discovery/ssd.go: the table of known nodes and their versions. Each method holds the lock
-- for its whole body, so a method is one step here. A nil map reads as an empty one and is made
-- before the first write, so both are the empty table.
pub mod Versions
pub mod Storage
pub mod Converge
pub mod Keyed
pub mod Reach
use tinc_boot.Prelude.{
  ◌≡◌, Bool, true, false, not, Option, none, some, List, [], ◌∷◌, if◌then◌else◌,
}
use tinc_boot.Prelude.Int.{ℤ, ltb_ℤ, leb_ℤ}
use tinc_boot.Text.{Text}
use tinc_boot.Dict.{Dict, lookup, insert, values}

pub record Entity : Type 0 where
  pub name : Text
  pub version : ℤ

pub record Ssd : Type 0 where
  pub entities : Dict Entity
  pub file : Text

-- `NewSSD`
unfoldable pub new_ssd : Text → Ssd
new_ssd filename = record { entities = []; file = filename }

-- `unsafeIsNewer`
unfoldable pub is_newer : Ssd → Text → ℤ → Bool
is_newer ssd name desired = elim (lookup name ssd.entities) [
  | none ↦ true
  | some old ↦ ltb_ℤ old.version desired
]

-- `CanBeMerged`
unfoldable pub can_be_merged : Ssd → Entity → Bool
unfolding is_newer
can_be_merged ssd entity = is_newer ssd entity.name entity.version

-- `ssd.entities[entity.Name] = entity`
unfoldable pub store : Ssd → Entity → Ssd
store ssd entity = record ssd { entities = insert entity.name entity ssd.entities }

module _ {W : Type 0} where
  -- `block != nil && !block()`, over the state `W` that the block changes; the flag is false when
  -- the block refuses.
  unfoldable pub run_block : Option (W → W × Bool) → W → W × Bool
  run_block none w = (w, true)
  run_block (some block) w = block w

  -- `ReplaceIfNewer`
  unfoldable pub replace_if_newer : Ssd → Entity → Option (W → W × Bool) → W → (Ssd × W) × Bool
  unfolding is_newer run_block store
  replace_if_newer ssd entity block w =
      if not (is_newer ssd entity.name entity.version)
      then ((ssd, w), false)
      else let (w', accepted) = run_block block w in
        if not accepted then ((ssd, w'), false) else ((store ssd entity, w'), true)

-- `Replace`
unfoldable pub replace : Ssd → Entity → Ssd
unfolding store
replace ssd entity = store ssd entity

-- `GetAfter`; the entity that the code returns beside `false` is not read.
unfoldable pub get_after : Ssd → Text → ℤ → Option Entity
get_after ssd name version = elim (lookup name ssd.entities) [
  | none ↦ none
  | some old ↦ if leb_ℤ old.version version then none else some old
]

-- `Header`, in the order of the names; Go's order of a map differs from call to call.
unfoldable pub header : Ssd → List Entity
unfolding values
header ssd = values ssd.entities
