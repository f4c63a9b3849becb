-- ===== src/Config/Marshal.antt =====
-- tincd/config/marshal.go: `Marshal`.
pub mod Zero
use tinc_boot.Prelude.{
  ℕ, zero, suc, ◌≡◌, Bool, true, false, not, ◌&&◌, ◌||◌, List, [], ◌∷◌, ◌++◌, Option, none, some,
  ◌==◌, if◌then◌else◌,
}
use tinc_boot.Text.{Text, codes, equal}
use tinc_boot.Numbers.{format_uint}
use tinc_boot.Config.Fields.{
  Scalar, uint, boolean, text, bytes, Value, scalar, slice, Field, FieldInfo, inspect_field,
}

-- `value.IsZero()`
unfoldable pub is_zero : Scalar → Bool
is_zero (uint bits n) = n == 0
is_zero (boolean b) = not b
is_zero (text s) = equal s []
is_zero (bytes s) = equal s []

is_empty : List Scalar → Bool
is_empty [] = true
is_empty (x ∷ xs) = false

unfoldable pub is_zero_value : Value → Bool
unfolding is_empty is_zero
is_zero_value (scalar s) = is_zero s
is_zero_value (slice z xs) = is_empty xs

-- `info.Name + " = "`, which a blob does without.
abbrev pub prefix : FieldInfo → Text → Text
prefix info rest = if info.blob then rest else info.name ++ (codes " = " ++ rest)

-- `marshalType` at a value that is no slice of values and not zero.
unfoldable pub marshal_scalar : FieldInfo → Scalar → Text
marshal_scalar info (uint bits n) = prefix info (format_uint n ++ b'\n' ∷ [])
marshal_scalar info (boolean b) =
    info.name ++ (codes " = " ++ ((if b then codes "yes" else codes "no") ++ b'\n' ∷ []))
marshal_scalar info (text s) = prefix info (s ++ b'\n' ∷ [])
marshal_scalar info (bytes s) = prefix info (s ++ b'\n' ∷ [])

-- A zero value is skipped.
unfoldable pub marshal_nonzero : FieldInfo → Scalar → Text
unfolding is_zero marshal_scalar
marshal_nonzero info s = if is_zero s then [] else marshal_scalar info s

unfoldable pub marshal_items : FieldInfo → List Scalar → Text
unfolding marshal_nonzero
marshal_items info [] = []
marshal_items info (x ∷ xs) = marshal_nonzero info x ++ marshal_items info xs

-- `marshalType` at a field.
unfoldable pub marshal_value : FieldInfo → Value → Text
unfolding marshal_items marshal_nonzero
marshal_value info (scalar s) = marshal_nonzero info s
marshal_value info (slice z xs) = marshal_items info xs

-- The first loop over the fields leaves the blobs out.
unfoldable pub marshal_plain : List Field → Text
marshal_plain [] = []
marshal_plain (field ∷ fields) =
    let info = inspect_field field in
    (if info.ignore || info.blob then [] else marshal_value info field.value)
    ++ marshal_plain fields

-- The second loop writes them.
unfoldable pub marshal_blobs : List Field → Text
marshal_blobs [] = []
marshal_blobs (field ∷ fields) =
    let info = inspect_field field in
    (if not info.ignore && info.blob then marshal_value info field.value else [])
    ++ marshal_blobs fields

unfoldable pub has_blob : List Field → Bool
has_blob [] = false
has_blob (field ∷ fields) =
    let info = inspect_field field in (not info.ignore && info.blob) || has_blob fields

unfoldable pub all_zero : List Field → Bool
all_zero [] = true
all_zero (field ∷ fields) = is_zero_value field.value && all_zero fields

-- `Marshal` of a structure: nothing for one that is all zero.
unfoldable pub marshal : List Field → Text
marshal fields =
    if all_zero fields
    then []
    else marshal_plain fields
      ++ ((if has_blob fields then b'\n' ∷ [] else []) ++ marshal_blobs fields)
