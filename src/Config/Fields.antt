-- ===== src/Config/Fields.antt =====
-- What the `reflect` package shows of a structure: its fields with their names, tags and values.
-- Values are of the kinds that the program's structures use: unsigned numbers, booleans, strings,
-- byte slices, and slices of these.
use tinc_boot.Prelude.{
  ℕ, suc, Bool, true, false, ◌&&◌, ◌||◌, List, [], ◌∷◌, Option, none, some, leb, if◌then◌else◌,
}
use tinc_boot.Text.{Text, codes, equal}
use tinc_boot.Text.Strings.{trim_space, split, equal_fold}

pub data Scalar : Type 0 where
  -- an unsigned number of so many bits
  uint : ℕ → ℕ → Scalar
  boolean : Bool → Scalar
  text : Text → Scalar
  bytes : Text → Scalar

-- A slice carries the zero value of its elements, which is its element type.
pub data Value : Type 0 where
  scalar : Scalar → Value
  slice : Scalar → List Scalar → Value

pub record Field : Type 0 where
  pub name : Text
  -- the value of the tag `tinc`, where the field has that tag
  pub tag : Option Text
  pub value : Value

-- `fieldInfo`
pub record FieldInfo : Type 0 where
  pub name : Text
  pub ignore : Bool
  pub blob : Bool

-- `ast.IsExported` of an ASCII name.
unfoldable pub is_exported : Text → Bool
is_exported [] = false
is_exported (c ∷ cs) = leb b'A' c && leb c b'Z'

has_option : Text → List Text → Bool
has_option opt [] = false
has_option opt (o ∷ os) = equal (trim_space o) opt || has_option opt os

-- The head of `strings.Split(tags, ",")` is the name; the others are options.
tag_info : Text → List Text → FieldInfo
tag_info name [] = record { name = name; ignore = false; blob = false }
tag_info name (alt ∷ opts) =
    let alt_name = trim_space alt in
    let blob = has_option (codes "blob") opts in
    if equal alt_name (codes "-")
    then record { name = name; ignore = true; blob = blob }
    else if equal alt_name []
    then record { name = name; ignore = false; blob = blob }
    else record { name = alt_name; ignore = false; blob = blob }

-- `inspectField`
unfoldable pub inspect_field : Field → FieldInfo
unfolding is_exported tag_info has_option trim_space split equal
inspect_field field =
    if is_exported field.name
    then elim field.tag [
      | none ↦ record { name = field.name; ignore = false; blob = false }
      | some tags ↦ tag_info field.name (split b',' tags)
    ]
    else record { name = field.name; ignore = true; blob = false }

-- The loop of `findFieldByNameOrTag`: at field `i`, with the last field found by its Go name.
find_from : ℕ → Option ℕ → Text → List Field → Option ℕ
find_from i f name [] = f
find_from i f name (field ∷ fields) =
    let info = inspect_field field in
    let by_name = if equal_fold field.name name then some i else f in
    let skip = find_from (suc i) f name fields in
    let rest = find_from (suc i) by_name name fields in
    if info.ignore then skip else if equal info.name name then some i else rest

-- `findFieldByNameOrTag`: the place of the field.
unfoldable pub find_field : List Field → Text → Option ℕ
unfolding find_from inspect_field equal_fold equal
find_field fields name = find_from 0 none name fields
