-- ===== src/Config/Parser.antt =====
-- tincd/config/parser.go: `Unmarshal`.
pub mod Lines
pub mod Total
use tinc_boot.Prelude.{
  ℕ, zero, suc, ◌+◌, ◌%◌, ◌^◌, ◌≡◌, Bool, true, false, ◌&&◌, ◌||◌, List, [], ◌∷◌, ◌++◌, Option,
  none, some, ◌==◌, length, if◌then◌else◌,
}
use tinc_boot.Text.{Text, codes, equal}
use tinc_boot.Text.Strings.{trim_space, has_prefix, split_once, before, join, scan_lines}
use tinc_boot.Numbers.{parse_uint}
use tinc_boot.Config.Fields.{
  Scalar, uint, boolean, text, bytes, Value, scalar, slice, Field, find_field,
}

abbrev pub blob_begin : Text
blob_begin = codes "-----BEGIN "

abbrev pub blob_end : Text
blob_end = codes "-----END"

pub data Reason : Type 0 where
  no_separator : Reason
  bad_value : Reason
  out_of_fuel : Reason

-- An error carries the number of its line.
pub data Parsed : Type 0 where
  ok : List Field → Parsed
  err : ℕ → Reason → Parsed

-- `parseValue` at a number, a boolean, a string or a byte slice. `SetUint` keeps the bits that fit.
unfoldable pub parse_scalar : Text → Scalar → Option Scalar
unfolding equal
parse_scalar value (uint bits _) = elim (parse_uint value) [
  | none ↦ none
  | some v ↦ some (uint bits (v % 2 ^ bits))
]
parse_scalar value (boolean _) =
    some
      (boolean (equal value (codes "yes") || equal value (codes "true") || equal value (codes "1")))
parse_scalar value (text _) = some (text value)
parse_scalar value (bytes _) = some (bytes value)

-- `parseValue`: a slice gets one more element.
unfoldable pub parse_value : Text → Value → Option Value
unfolding parse_scalar
parse_value value (scalar s) = elim (parse_scalar value s) [
  | none ↦ none
  | some v ↦ some (scalar v)
]
parse_value value (slice z xs) = elim (parse_scalar value z) [
  | none ↦ none
  | some v ↦ some (slice z (xs ++ v ∷ []))
]

-- `parseValue(value, field)` for the field at a place.
unfoldable pub parse_at : ℕ → Text → List Field → Option (List Field)
parse_at i value [] = some []
parse_at zero value (field ∷ fields) = elim (parse_value value field.value) [
  | none ↦ none
  | some v ↦ some (record field { value = v } ∷ fields)
]
parse_at (suc i) value (field ∷ fields) = elim (parse_at i value fields) [
  | none ↦ none
  | some rest ↦ some (field ∷ rest)
]

-- A field that is not there is skipped.
unfoldable pub parse_named : ℕ → Text → Text → List Field → Parsed
parse_named at key value fields = elim (find_field fields key) [
  | none ↦ ok fields
  | some i ↦ elim (parse_at i value fields) [ none ↦ err at bad_value | some next ↦ ok next ]
]

unfoldable pub is_comment : Text → Bool
is_comment [] = true
is_comment (c ∷ cs) = c == b'#'

-- `parseLine`
unfoldable pub parse_line : ℕ → Text → List Field → Parsed
parse_line at raw fields =
    let line = trim_space raw in
    if is_comment line then ok fields else elim (split_once b'=' line) [
      | none ↦ err at no_separator
      | some (k, v) ↦ parse_named at (trim_space k) (trim_space v) fields
    ]

-- The loop of `parseBlob`: the lines up to the end mark, and those behind it.
unfoldable pub blob_lines : List Text → List Text × List Text
unfolding has_prefix
blob_lines [] = ([], [])
blob_lines (line ∷ rest) =
    let (inside, after) = blob_lines rest in
    if has_prefix line blob_end then (line ∷ [], rest) else (line ∷ inside, after)

-- `line[len(blobBegin):]`
pub drop_begin : Text → Text → Text
drop_begin [] l = l
drop_begin (p ∷ ps) [] = []
drop_begin (p ∷ ps) (c ∷ cs) = drop_begin ps cs

-- The name of a blob: what stands up to the first dash.
unfoldable pub blob_name : Text → Text
unfolding before drop_begin
blob_name line = before b'-' (drop_begin blob_begin line)

abbrev pub bind : Parsed → (List Field → Parsed) → Parsed
bind (ok fields) f = f fields
bind (err at why) f = err at why

-- The loop of `UnmarshalStream` at line `idx`, on the lines that the scanner still yields. The fuel
-- counts the rounds.
unfoldable pub unmarshal_lines : ℕ → ℕ → List Text → List Field → Parsed
unmarshal_lines fuel idx [] fields = ok fields
unmarshal_lines zero idx (line ∷ rest) fields = err idx out_of_fuel
unmarshal_lines (suc fuel) idx (line ∷ rest) fields =
    if has_prefix line blob_begin
    then (let (inside, after) = blob_lines rest in
        let at = idx + length inside in
        bind (parse_named (at + 1) (blob_name line) (join (codes "\n") (line ∷ inside)) fields)
          (λ next. unmarshal_lines fuel (at + 1) after next))
    else bind (parse_line (idx + 1) line fields) (λ next. unmarshal_lines fuel (idx + 1) rest next)

-- `Unmarshal`
unfoldable pub unmarshal : Text → List Field → Parsed
unfolding unmarshal_lines scan_lines parse_line parse_named parse_at parse_value find_field
    is_comment split_once trim_space blob_lines blob_name has_prefix join
unmarshal source fields =
    let found = scan_lines source in unmarshal_lines (length found) 0 found fields
