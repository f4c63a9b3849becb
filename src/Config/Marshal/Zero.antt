-- ===== src/Config/Marshal/Zero.antt =====
-- A structure that is all zero, in tincd/config/marshal.go.
use tinc_boot.Prelude.{
  ◌≡◌, refl, ◌∙◌, Bool, true, false, ◌&&◌, List, [], ◌∷◌, ◌++◌, sym, append-nil, ◌||◌, arith,
  if◌then◌else◌,
}
use mathlib.Core.Path.{ap₂}
use tinc_boot.Text.{Text}
use tinc_boot.Config.Fields.{Value, scalar, slice, Field, FieldInfo, inspect_field}
use tinc_boot.Config.Marshal.{
  is_zero_value, marshal_value, marshal_plain, marshal_blobs, has_blob, all_zero, marshal,
}

marshal_value-zero :
    (info : FieldInfo) (v : Value) → is_zero_value v ≡ true → marshal_value info v ≡ []
unfolding is_zero_value marshal_value
marshal_value-zero info (scalar s) h = rw h
marshal_value-zero info (slice z []) h = refl
marshal_value-zero info (slice z (x ∷ xs)) h = cc

skipped : (b : Bool) (t : Text) → t ≡ [] → (if b then [] else t) ≡ []
skipped true t h = refl
skipped false t h = h

and_parts : (a b : Bool) → (a && b) ≡ true → (a ≡ true) × (b ≡ true)
and_parts a b h = ground arith

all_zero-marshal_plain : (fields : List Field) → all_zero fields ≡ true → marshal_plain fields ≡ []
unfolding all_zero
all_zero-marshal_plain [] h = unfold marshal_plain in refl
all_zero-marshal_plain (f ∷ fs) h =
    let (z, zs) = and_parts (is_zero_value f.value) (all_zero fs) h in
    plain_cons f fs
    ∙ ap₂ ◌++◌
        (skipped ((inspect_field f).ignore || (inspect_field f).blob)
          (marshal_value (inspect_field f) f.value)
          (marshal_value-zero (inspect_field f) f.value z))
        (all_zero-marshal_plain fs zs)
  where
    plain_cons :
        (g : Field) (gs : List Field)
        → marshal_plain (g ∷ gs)
          ≡ (if (inspect_field g).ignore || (inspect_field g).blob
              then []
              else marshal_value (inspect_field g) g.value)
            ++ marshal_plain gs
    plain_cons g gs = unfold marshal_plain in refl

if_same : (b : Bool) (t : Text) → (b ≡ true → t ≡ []) → (if b then [] else t) ≡ t
if_same true t h = sym (h refl)
if_same false t h = refl

opened :
    (fields : List Field)
    → has_blob fields ≡ false
    → marshal_blobs fields ≡ []
    → marshal fields ≡ (if all_zero fields then [] else marshal_plain fields)
unfolding marshal
opened fields nb bs = rw nb (rw bs (rw append-nil))

-- A structure without blobs is written as the lines of its fields, also where it is all zero.
pub marshal_of_no_blob :
    (fields : List Field)
    → has_blob fields ≡ false
    → marshal_blobs fields ≡ []
    → marshal fields ≡ marshal_plain fields
marshal_of_no_blob fields nb bs =
    opened fields nb bs
    ∙ if_same (all_zero fields) (marshal_plain fields) (all_zero-marshal_plain fields)
