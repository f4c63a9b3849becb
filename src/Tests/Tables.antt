-- ===== src/Tests/Tables.antt =====
-- The discovery table and the node array at small inputs.
use tinc_boot.Prelude.{
  ℕ, zero, suc, ap, if◌then◌else◌, ◌≡◌, refl, false, List, [], ◌∷◌, none, some, inl, inr, In,
}
use tinc_boot.Prelude.Int.{ℤ, pos, negsuc}
use tinc_boot.Text.{Text, codes, equal}
use tinc_boot.Dict.{lookup}
use tinc_boot.Discovery.Ssd.{Entity, Ssd, new_ssd, replace}
use tinc_boot.Discovery.Ssd.Versions.{known, Grows}
use tinc_boot.Discovery.Ssd.Keyed.{IsKeyed, store-IsKeyed}
use tinc_boot.Discovery.Ssd.Reach.{Operation, merges, replaces, operate_all, operate_all-Grows}
use tinc_boot.Discovery.Ssd.Converge.{merge_all, merge_all-converges}
use tinc_boot.Discovery.Ssd.Storage.{
  Json, marshal, no_faults, SaveError, save_file, save, read, save_file-atomic, read-save,
}
use tinc_boot.Monitor.Nodes.{Node, try_add}
use tinc_boot.Monitor.Nodes.Distinct.{IsDistinct, nil-IsDistinct, try_add-IsDistinct}
use tinc_boot.Tests.Inputs.{alice, bob}

abbrev version : Text → ℕ → Entity
version name v = record { name = name; version = pos v }

abbrev empty : Ssd
empty = new_ssd (codes "clock")

empty-IsKeyed : IsKeyed empty
unfolding new_ssd lookup
empty-IsKeyed = record { is_map = tt; own_name = λ name e h. cc }

abbrev table : Ssd
table = replace empty (version alice 3)

table-IsKeyed : IsKeyed table
unfolding replace
table-IsKeyed = store-IsKeyed empty (version alice 3) empty-IsKeyed

converges :
    known (merge_all table (version bob 1 ∷ version alice 5 ∷ [])) alice
    ≡ known (merge_all table (version alice 5 ∷ version bob 1 ∷ version bob 1 ∷ [])) alice
converges =
    merge_all-converges table table-IsKeyed alice (version bob 1 ∷ version alice 5 ∷ [])
      (version alice 5 ∷ version bob 1 ∷ version bob 1 ∷ []) (there, back)
  where
    there :
        (e : Entity)
        → In e (version bob 1 ∷ version alice 5 ∷ [])
        → In e (version alice 5 ∷ version bob 1 ∷ version bob 1 ∷ [])
    there e (inl h) = inr (inl h)
    there e (inr (inl h)) = inl h
    there e (inr (inr h)) = absurd h

    back :
        (e : Entity)
        → In e (version alice 5 ∷ version bob 1 ∷ version bob 1 ∷ [])
        → In e (version bob 1 ∷ version alice 5 ∷ [])
    back e (inl h) = inr (inl h)
    back e (inr (inl h)) = inl h
    back e (inr (inr (inl h))) = inl h
    back e (inr (inr (inr h))) = absurd h

-- Alice is merged again, bob is replaced by an older version, and an old alice is refused.
abbrev operations : List (Operation (Unit {0}))
operations =
    merges (version alice 7) none tt
    ∷ replaces (version bob 1)
    ∷ merges (version alice 2) none tt
    ∷ []

bob-other : equal bob alice ≡ false
unfolding equal
bob-other = refl

operate_all-Grows_example :
    Grows (known table alice) (known (operate_all operations table) alice)
    × Grows
        (some (version alice 4))
        (known (operate_all operations (replace table (version alice 4))) alice)
operate_all-Grows_example =
    operate_all-Grows operations table alice (pos 4) (tt, (bob-other, (tt, tt)))

abbrev pub shift : Text → Text → Text
shift [] rest = rest
shift (c ∷ cs) rest = suc c ∷ shift cs rest

-- An encoding of tables: a zero before each entity, and its parts as their successors.
abbrev pub encode : List Entity → Text
encode [] = []
encode (e ∷ es) = elim e.version [
  | pos n ↦ 0 ∷ 1 ∷ suc n ∷ shift e.name (encode es)
  | negsuc n ↦ 0 ∷ 2 ∷ suc n ∷ shift e.name (encode es)
]

abbrev pub entity_of : Text → List Entity → List Entity
entity_of (zero ∷ n ∷ name) es = record { name = name; version = pos n } ∷ es
entity_of (suc _ ∷ n ∷ name) es = record { name = name; version = negsuc n } ∷ es
entity_of _ es = es

-- The parts read since the last zero, from the right, and the entities after it.
abbrev pub decode_parts : Text → Text × List Entity
decode_parts [] = ([], [])
decode_parts (zero ∷ s) = ([], entity_of (decode_parts s).0 (decode_parts s).1)
decode_parts (suc c ∷ s) = (c ∷ (decode_parts s).0, (decode_parts s).1)

decode_parts-shift :
    (cs rest : Text) (es : List Entity)
    → decode_parts rest ≡ ([], es)
    → decode_parts (shift cs rest) ≡ (cs, es)
decode_parts-shift [] rest es h = h
decode_parts-shift (c ∷ cs) rest es h = rw (decode_parts-shift cs rest es h)

pub decode_parts-encode : (es : List Entity) → decode_parts (encode es) ≡ ([], es)
decode_parts-encode [] = refl
decode_parts-encode (e ∷ es) =
    whole e.version e.name (decode_parts-shift e.name (encode es) es (decode_parts-encode es))
  where
    whole :
        (v : ℤ) (name : Text)
        → decode_parts (shift name (encode es)) ≡ (name, es)
        → decode_parts (encode (record { name = name; version = v } ∷ es))
          ≡ ([], record { name = name; version = v } ∷ es)
    whole (pos n) name h = rw h
    whole (negsuc n) name h = rw h

abbrev pub json : Json
json = record {
  encode = encode;
  decode = λ s. some (decode_parts s).1;
  decode-encode = λ es. ap (λ p. some p.1) (decode_parts-encode es);
}

save_file-atomic_example :
    ((save_file json no_faults (codes "tmp") (codes "clock") table []).1 ≡ none
      → (j : Text)
      → lookup j (save_file json no_faults (codes "tmp") (codes "clock") table []).0
        ≡ (if equal (codes "clock") j then some (marshal json table) else lookup j []))
    × ((e : SaveError)
        → (save_file json no_faults (codes "tmp") (codes "clock") table []).1 ≡ some e
        → no_faults.remove ≡ false
        → (j : Text)
        → lookup j (save_file json no_faults (codes "tmp") (codes "clock") table []).0
          ≡ lookup j [])
unfolding lookup
save_file-atomic_example =
    save_file-atomic json no_faults (codes "tmp") (codes "clock") table [] refl

read-save_example :
    ((read json false (save json no_faults (codes "tmp") table []).0 (new_ssd table.file)).1 ≡ none)
    × (known
          (read json false (save json no_faults (codes "tmp") table []).0 (new_ssd table.file)).0
          alice
        ≡ known table alice)
unfolding lookup
read-save_example = read-save json table (codes "tmp") [] alice table-IsKeyed refl

abbrev one_node : List Node
one_node = (try_add alice (codes "10.0.0.1/32") []).0

abbrev nodes : List Node
nodes = (try_add bob (codes "10.0.0.2/32") one_node).0

nodes-IsDistinct : IsDistinct nodes
nodes-IsDistinct =
    try_add-IsDistinct bob (codes "10.0.0.2/32") one_node
      (try_add-IsDistinct alice (codes "10.0.0.1/32") [] nil-IsDistinct)
