-- ===== src/Config/RoundTrip/Pieces.antt =====
-- The pieces of output that `Marshal` writes for one field, and how `Unmarshal` of tincd/config reads them.
use tinc_boot.Prelude.{
  ℕ, ◌<◌, ◌^◌, ◌≡◌, ◌≢◌, refl, subst, sym, Bool, true, false, List, [], ◌∷◌, ◌++◌, arith, ◌==◌, All,
  map, append-nil, append_assoc, Bool-cases, inl, inr,
}
use tinc_boot.Text.{Text, codes, equal, equal_iff}
use tinc_boot.Text.Strings.{is_space, trim_left, trim_right, trim_onto, byte_len, max_scan_token}
use tinc_boot.Text.Strings.Trim.{IsTrimmed, IsTrimmed-of_spaceless, HasNo, byte_len-append}
use tinc_boot.Numbers.{is_digit, format_uint, IsDigits, format_uint-IsDigits, byte_len-format_uint}
use tinc_boot.Config.Fields.{uint, boolean, text, Field, FieldInfo}
use tinc_boot.Config.Parser.{ok, parse_named}
use tinc_boot.Config.Parser.Lines.{Reads, Reads-nil, Reads-append, IsKey, line_of, line_of-Reads}
use tinc_boot.Config.Marshal.{is_zero, marshal_scalar, marshal_nonzero, marshal_items}

-- A text on one line, with no space on either side, that leaves room for its key in the scanner's
-- buffer.
pub record IsPlain (v : Text) : Type 0 where
  pub trimmed : IsTrimmed v
  pub one_line : HasNo b'\n' v
  pub short : byte_len v < 60000

pub record IsItem (v : Text) : Type 0 where
  pub plain : IsPlain v
  pub not_empty : v ≢ []

-- An untagged field's name.
abbrev pub plain : Text → FieldInfo
plain k = record { name = k; ignore = false; blob = false }

pub record IsFieldName (k : Text) : Type 0 where
  pub key : IsKey k
  pub short : byte_len k < 1000

digit-space : (c : ℕ) → is_digit c ≡ true → is_space c ≡ false
unfolding is_digit is_space
digit-space c h = ground arith

digit-feed : (c : ℕ) → is_digit c ≡ true → (c == b'\n') ≡ false
unfolding is_digit
digit-feed c h = ground arith

line_short : (k v : Text) → IsFieldName k → IsPlain v → byte_len (line_of k v) < max_scan_token
unfolding byte_len
line_short k v n p = omega (arith, byte_len-append k (codes " = " ++ v), p.short, n.short)

digits_plain : (s : Text) → IsDigits s → byte_len s < 60000 → IsPlain s
digits_plain s d short = record {
  trimmed = IsTrimmed-of_spaceless s (no_space s d.1);
  one_line = no_feed s d.1;
  short = short;
}
  where
    no_space : (t : Text) → All (λ c. is_digit c ≡ true) t → All (λ c. is_space c ≡ false) t
    no_space [] h = tt
    no_space (c ∷ t) h = (digit-space c h.0, no_space t h.1)

    no_feed : (t : Text) → All (λ c. is_digit c ≡ true) t → HasNo b'\n' t
    no_feed [] h = tt
    no_feed (c ∷ t) h = (digit-feed c h.0, no_feed t h.1)

module _ (k v : Text) (n : IsFieldName k) (fields next : List Field)
    (sets : (at : ℕ) → parse_named at k v fields ≡ ok next) where
  pub written_Reads :
      IsPlain v → v ≢ [] → Reads fields (k ++ (codes " = " ++ (v ++ b'\n' ∷ []))) next
  written_Reads p h =
      subst (λ s. Reads fields s next) (append_assoc k (codes " = " ++ v) (b'\n' ∷ []))
        (line_of-Reads k v n.key
          (record { trimmed = p.trimmed; one_line = p.one_line; not_empty = h }) fields next sets
          (line_short k v n p))

  pub text_Reads :
      IsPlain v → (v ≡ [] → fields ≡ next) → Reads fields (marshal_nonzero (plain k) (text v)) next
  unfolding marshal_nonzero is_zero marshal_scalar
  text_Reads p same = elim (Bool-cases (equal v [])) [
    | inl e ↦ rw e (subst (λ f. Reads fields [] f) (same ((equal_iff v []).0 e)) (Reads-nil fields))
    | inr e ↦ rw e (written_Reads p (λ q. ground (arith, equal_iff v [])))
  ]

module _ (k : Text) (m : IsFieldName k) (fields next : List Field) where
  -- A number is written unless it is 0.
  pub uint_Reads :
      (bits n : ℕ)
      → n < 2 ^ 16
      → ((at : ℕ) → parse_named at k (format_uint n) fields ≡ ok next)
      → (n ≡ 0 → fields ≡ next)
      → Reads fields (marshal_nonzero (plain k) (uint bits n)) next
  unfolding marshal_nonzero is_zero marshal_scalar
  uint_Reads bits n h sets same = elim (Bool-cases (n == 0)) [
    | inl e ↦ rw e (subst (λ f. Reads fields [] f) (same (ground arith)) (Reads-nil fields))
    | inr e ↦ rw e (
        written_Reads k (format_uint n) m fields next sets
          (digits_plain (format_uint n) (format_uint-IsDigits n)
            (omega (arith, byte_len-format_uint n (omega arith))))
          (format_uint-IsDigits n).0)
  ]

  -- A line that names a number.
  pub uint_line_Reads :
      (n : ℕ)
      → n < 2 ^ 64
      → ((at : ℕ) → parse_named at k (format_uint n) fields ≡ ok next)
      → Reads fields (k ++ (codes " = " ++ (format_uint n ++ b'\n' ∷ []))) next
  uint_line_Reads n h sets =
      written_Reads k (format_uint n) m fields next sets
        (digits_plain (format_uint n) (format_uint-IsDigits n)
          (omega (arith, byte_len-format_uint n h)))
        (format_uint-IsDigits n).0

  -- A boolean is written where it holds.
  pub bool_Reads :
      (b : Bool)
      → (b ≡ true → (at : ℕ) → parse_named at k (codes "yes") fields ≡ ok next)
      → (b ≡ false → fields ≡ next)
      → Reads fields (marshal_nonzero (plain k) (boolean b)) next
  unfolding marshal_nonzero is_zero marshal_scalar
  bool_Reads false sets same = subst (λ f. Reads fields [] f) (same refl) (Reads-nil fields)
  bool_Reads true sets same =
      written_Reads k (codes "yes") m fields next (sets refl) yes_plain (λ e. cc)
    where
      yes_plain : IsPlain (codes "yes")
      yes_plain =
          unfold is_space byte_len trim_left trim_right trim_onto in
          record {
            trimmed = record { left = refl; right = refl };
            one_line = (refl, (refl, (refl, tt)));
            short = omega arith;
          }

-- The elements of a slice are written one to a line, and appended one by one.
module _ (k : Text) (n : IsFieldName k) (slot : List Text → List Field)
    (sets : (at : ℕ) (xs : List Text) (v : Text)
      → parse_named at k v (slot xs) ≡ ok (slot (xs ++ v ∷ []))) where
  pub items_Reads :
      (ys xs : List Text)
      → All IsItem ys
      → Reads (slot xs) (marshal_items (plain k) (map text ys)) (slot (xs ++ ys))
  unfolding marshal_items
  items_Reads [] xs h =
      subst (λ l. Reads (slot xs) [] (slot l)) (sym (append-nil xs)) (Reads-nil (slot xs))
  items_Reads (y ∷ ys) xs h =
      Reads-append (marshal_nonzero (plain k) (text y)) (marshal_items (plain k) (map text ys))
        (text_Reads k y n (slot xs) (slot (xs ++ y ∷ [])) (λ at. sets at xs y) h.0.plain
          (λ e. absurd (h.0.not_empty e)))
        (subst (λ l. Reads (slot (xs ++ y ∷ [])) (marshal_items (plain k) (map text ys)) (slot l))
          (append_assoc xs (y ∷ []) ys) (items_Reads ys (xs ++ y ∷ []) h.1))
