-- ===== src/Discovery/Client/Missing.antt =====
-- How much of a peer's table the table of tincd/discovery/ssd.go lacks.
use tinc_boot.Prelude.{
  ℕ, suc, ◌<◌, ◌≤◌, ◌≡◌, sym, subst, true, false, List, [], ◌∷◌, arith, if◌then◌else◌, inl, inr,
  length, All, In,
}
use tinc_boot.Text.{equal_iff}
use tinc_boot.Discovery.Ssd.{Entity, Ssd, is_newer, can_be_merged, store}
use tinc_boot.Discovery.Ssd.Versions.{known-store}

-- How many of the peer's entities the table would take.
unfoldable pub missing : Ssd → List Entity → ℕ
missing ssd [] = 0
missing ssd (e ∷ es) = let rest = missing ssd es in if can_be_merged ssd e then suc rest else rest

store-merged :
    (ssd : Ssd) (e x : Entity)
    → can_be_merged ssd e ≡ true
    → can_be_merged (store ssd e) x ≡ true
    → can_be_merged ssd x ≡ true
unfolding can_be_merged is_newer
store-merged ssd e x h k = ground (arith, known-store ssd e x.name, equal_iff e.name x.name)

store-own : (ssd : Ssd) (e : Entity) → can_be_merged (store ssd e) e ≡ false
unfolding can_be_merged is_newer
store-own ssd e = ground (arith, known-store ssd e e.name, equal_iff e.name e.name)

missing-store :
    (ssd : Ssd) (e : Entity) (es : List Entity)
    → can_be_merged ssd e ≡ true
    → missing (store ssd e) es ≤ missing ssd es
unfolding missing
missing-store ssd e [] h = omega arith
missing-store ssd e (x ∷ es) h = ground (arith, missing-store ssd e es, store-merged ssd e x)

pub missing-stored :
    (ssd : Ssd) (e : Entity) (es : List Entity)
    → can_be_merged ssd e ≡ true
    → In e es
    → missing (store ssd e) es < missing ssd es
unfolding missing
missing-stored ssd e [] h i = absurd i
missing-stored ssd e (x ∷ es) h (inl same) =
    subst (λ y. missing (store ssd e) (y ∷ es) < missing ssd (y ∷ es)) (sym same)
      (ground (arith, missing-store ssd e es, store-own ssd e))
missing-stored ssd e (x ∷ es) h (inr i) =
    ground (arith, missing-stored ssd e es h i, store-merged ssd e x)

pub missing-none :
    (ssd : Ssd) (es : List Entity) → missing ssd es ≡ 0 → All (λ e. can_be_merged ssd e ≡ false) es
unfolding missing
missing-none ssd [] h = tt
missing-none ssd (e ∷ es) h = (ground arith, missing-none ssd es (ground arith))

pub missing-length : (ssd : Ssd) (es : List Entity) → missing ssd es ≤ length es
unfolding missing
missing-length ssd [] = omega arith
missing-length ssd (e ∷ es) = ground (arith, missing-length ssd es)
