-- ===== src/Config/Parser/Total.antt =====
-- The end of the loop of tincd/config/parser.go, and its fuel.
use tinc_boot.Prelude.{
  ℕ, zero, suc, ◌+◌, ◌≤◌, List, [], ◌∷◌, Option, none, some, arith, length, inl, inr, Bool-cases,
}
use tinc_boot.Text.{Text}
use tinc_boot.Text.Strings.{trim_space, has_prefix, split_once, scan_lines}
use tinc_boot.Config.Fields.{Field}
use tinc_boot.Config.Parser.{
  no_separator, out_of_fuel, Parsed, ok, err, parse_named, is_comment, parse_line, blob_lines,
  blob_begin, blob_name, bind, unmarshal_lines, unmarshal,
}

-- Neither a result nor an error of the source.
abbrev pub RunsOut : Parsed → Type 0
RunsOut (ok fields) = ⊥
RunsOut (err at out_of_fuel) = Unit
RunsOut (err at _) = ⊥

parse_named-ends :
    (at : ℕ) (key value : Text) (fields : List Field) → ¬ RunsOut (parse_named at key value fields)
unfolding parse_named
parse_named-ends at key value fields = ground arith

parse_line-ends : (at : ℕ) (raw : Text) (fields : List Field) → ¬ RunsOut (parse_line at raw fields)
unfolding parse_line
parse_line-ends at raw fields = elim (Bool-cases (is_comment (trim_space raw))) [
  | inl e ↦ rw e (λ r. r)
  | inr e ↦ rw e (separated (split_once b'=' (trim_space raw)))
]
  where
    separated :
        (o : Option (Text × Text))
        → ¬ RunsOut (elim o [
          | none ↦ err at no_separator
          | some (k, v) ↦ parse_named at (trim_space k) (trim_space v) fields
        ])
    separated none r = r
    separated (some (k, v)) r = parse_named-ends at (trim_space k) (trim_space v) fields r

length-blob_lines : (ls : List Text) → length (blob_lines ls).1 ≤ length ls
unfolding blob_lines
length-blob_lines [] = omega arith
length-blob_lines (l ∷ ls) = ground (arith, length-blob_lines ls)

bind-ends :
    (m : Parsed) (f : List Field → Parsed)
    → ¬ RunsOut m
    → ((fields : List Field) → ¬ RunsOut (f fields))
    → ¬ RunsOut (bind m f)
bind-ends (ok fields) f hm hf = hf fields
bind-ends (err at why) f hm hf = hm

unmarshal_lines-ends :
    (fuel idx : ℕ) (ls : List Text) (fields : List Field)
    → length ls ≤ fuel
    → ¬ RunsOut (unmarshal_lines fuel idx ls fields)
unfolding unmarshal_lines
unmarshal_lines-ends fuel idx [] fields h = λ r. r
unmarshal_lines-ends zero idx (l ∷ ls) fields h = absurd (omega arith)
unmarshal_lines-ends (suc fuel) idx (l ∷ ls) fields h =
    elim (Bool-cases (has_prefix l blob_begin)) [
      | inl e ↦ rw e (
          bind-ends (parse_named (idx + length (blob_lines ls).0 + 1) (blob_name l) _ fields) _
            (parse_named-ends _ _ _ fields)
            (λ next.
              unmarshal_lines-ends fuel (idx + length (blob_lines ls).0 + 1) (blob_lines ls).1 next
                (omega (arith, length-blob_lines ls))))
      | inr e ↦ rw e (
          bind-ends (parse_line (idx + 1) l fields) _ (parse_line-ends (idx + 1) l fields)
            (λ next. unmarshal_lines-ends fuel (idx + 1) ls next (omega arith)))
    ]

-- On every text and every structure `Unmarshal` ends within its fuel: it returns the structure or one of
-- its own errors.
pub unmarshal-ends : (source : Text) (fields : List Field) → ¬ RunsOut (unmarshal source fields)
unfolding unmarshal
unmarshal-ends source fields =
    unmarshal_lines-ends (length (scan_lines source)) 0 (scan_lines source) fields (omega arith)
