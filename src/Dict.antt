-- ===== src/Dict.antt =====
-- Maps with text keys, as association lists. They stand for Go's maps, whose order of iteration the
-- program does not rely on, and for a directory's entries, which `ioutil.ReadDir` lists by name.
use tinc_boot.Prelude.{
  ◌≡◌, inl, inr, refl, Option, none, some, List, [], ◌∷◌, map, arith, if◌then◌else◌, Bool-cases,
  All,
}
use tinc_boot.Text.{Text, equal, equal_iff, less}

abbrev pub Dict {ℓ} : Type ℓ → Type ℓ
Dict V = List (Text × V)

module _ {ℓ} {V : Type ℓ} where
  -- `v, ok := m[k]`
  unfoldable pub lookup : Text → Dict V → Option V
  lookup k [] = none
  lookup k ((j, v) ∷ m) = if equal j k then some v else lookup k m

  -- `delete(m, k)`
  unfoldable pub erase : Text → Dict V → Dict V
  erase k [] = []
  erase k ((j, v) ∷ m) = let rest = erase k m in if equal j k then rest else (j, v) ∷ rest

  -- A new key takes its place by name.
  place : Text → V → Dict V → Dict V
  place k v [] = (k, v) ∷ []
  place k v ((j, w) ∷ m) =
      let rest = place k v m in if less k j then (k, v) ∷ (j, w) ∷ m else (j, w) ∷ rest

  -- `m[k] = v`
  unfoldable pub insert : Text → V → Dict V → Dict V
  unfolding place erase
  insert k v m = place k v (erase k m)

  pub lookup-erase :
      (k j : Text) (m : Dict V) → lookup j (erase k m) ≡ (if equal k j then none else lookup j m)
  unfolding lookup erase
  lookup-erase k j [] = ground arith
  lookup-erase k j ((i, v) ∷ m) =
      ground (arith, lookup-erase k j m, equal_iff i k, equal_iff i j, equal_iff k j)

  lookup-erase_self : (k : Text) (m : Dict V) → lookup k (erase k m) ≡ none
  lookup-erase_self k m = ground (arith, lookup-erase k k m, equal_iff k k)

  lookup-place :
      (k j : Text) (v : V) (m : Dict V)
      → lookup k m ≡ none
      → lookup j (place k v m) ≡ (if equal k j then some v else lookup j m)
  unfolding lookup place
  lookup-place k j v [] h = refl
  lookup-place k j v ((i, w) ∷ m) h =
      ground (arith, equal_iff k j, equal_iff i k, equal_iff i j, lookup-place k j v m)

  pub lookup-insert :
      (k j : Text) (v : V) (m : Dict V)
      → lookup j (insert k v m) ≡ (if equal k j then some v else lookup j m)
  unfolding insert
  lookup-insert k j v m =
      ground (arith, lookup-place k j v (erase k m) (lookup-erase_self k m), lookup-erase k j m)

  unfoldable pub keys : Dict V → List Text
  keys m = map (λ e. e.0) m

  unfoldable pub values : Dict V → List V
  values m = map (λ e. e.1) m

  -- No key stands twice, as in any Go map and any directory.
  abbrev pub IsMap : Dict V → Type ℓ
  IsMap [] = Unit
  IsMap ((j, v) ∷ m) = (lookup j m ≡ none) × IsMap m

  pub erase-IsMap : (k : Text) (m : Dict V) → IsMap m → IsMap (erase k m)
  unfolding erase
  erase-IsMap k [] h = tt
  erase-IsMap k ((j, w) ∷ m) h = elim (Bool-cases (equal j k)) [
    | inl e ↦ rw e (erase-IsMap k m h.1)
    | inr e ↦ rw e (ground (arith, lookup-erase k j m), erase-IsMap k m h.1)
  ]

  place-IsMap : (k : Text) (v : V) (m : Dict V) → lookup k m ≡ none → IsMap m → IsMap (place k v m)
  unfolding place lookup
  place-IsMap k v [] e h = (refl, tt)
  place-IsMap k v ((j, w) ∷ m) e h = elim (Bool-cases (less k j)) [
    | inl l ↦ rw l (e, h)
    | inr l ↦ rw l (
      ground (arith, lookup-place k j v m, equal_iff j k, equal_iff k j),
      place-IsMap k v m (ground arith) h.1,
    )
  ]

  pub insert-IsMap : (k : Text) (v : V) (m : Dict V) → IsMap m → IsMap (insert k v m)
  unfolding insert
  insert-IsMap k v m h = place-IsMap k v (erase k m) (lookup-erase_self k m) (erase-IsMap k m h)

  erase-keys :
      (P : Text → Type 0) (k : Text) (m : Dict V)
      → All (λ e. P e.0) m
      → All (λ e. P e.0) (erase k m)
  unfolding erase
  erase-keys P k [] h = tt
  erase-keys P k ((j, v) ∷ m) h = elim (Bool-cases (equal j k)) [
    | inl e ↦ rw e (erase-keys P k m h.1)
    | inr e ↦ rw e (h.0, erase-keys P k m h.1)
  ]

  place-keys :
      (P : Text → Type 0) (k : Text) (v : V) (m : Dict V)
      → P k
      → All (λ e. P e.0) m
      → All (λ e. P e.0) (place k v m)
  unfolding place
  place-keys P k v [] p h = (p, tt)
  place-keys P k v ((j, w) ∷ m) p h = elim (Bool-cases (less k j)) [
    | inl l ↦ rw l (p, h)
    | inr l ↦ rw l (h.0, place-keys P k v m p h.1)
  ]

  pub insert-keys :
      (P : Text → Type 0) (k : Text) (v : V) (m : Dict V)
      → P k
      → All (λ e. P e.0) m
      → All (λ e. P e.0) (insert k v m)
  unfolding insert
  insert-keys P k v m p h = place-keys P k v (erase k m) p (erase-keys P k m h)
