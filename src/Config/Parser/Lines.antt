-- ===== src/Config/Parser/Lines.antt =====
-- How the parser reads the lines that `Marshal` writes.
use tinc_boot.Prelude.{
  ℕ, suc, ◌+◌, ◌<◌, ◌≡◌, ◌≢◌, refl, ap, ◌∙◌, sym, Bool, true, false, List, [], ◌∷◌, ◌++◌, some,
  arith, ◌==◌, not, ◌||◌, ◌&&◌, All, All-append, length, append_assoc,
}
use tinc_boot.Text.{Text, codes}
use tinc_boot.Text.Strings.{
  is_space, trim_left, trim_onto, trim_right, trim_space, split_once, has_prefix, byte_len,
  max_scan_token, scan_lines,
}
use tinc_boot.Text.Strings.Trim.{
  IsTrimmed, HasNo, trim_right-append, scan_lines-append, split_once-append,
}
use tinc_boot.Config.Fields.{Field}
use tinc_boot.Config.Parser.{
  Parsed, ok, parse_named, parse_line, is_comment, blob_begin, unmarshal_lines,
}

-- The parse of a text that starts at line `idx`.
abbrev pub from_line : ℕ → Text → List Field → Parsed
from_line idx s fields = unmarshal_lines (length (scan_lines s)) idx (scan_lines s) fields

-- Whatever follows the text `s`, the parser reads `s` without an error, and it turns `fields` into
-- `next`.
pub record Reads (fields : List Field) (s : Text) (next : List Field) : Type 0 where
  pub count : ℕ
  pub runs : (idx : ℕ) (t : Text) → from_line idx (s ++ t) fields ≡ from_line (idx + count) t next

pub Reads-nil : (fields : List Field) → Reads fields [] fields
Reads-nil fields = record {
  count = 0;
  runs = λ idx t. ap (λ i. from_line i t fields) (omega arith);
}

pub Reads-append :
    {a b c : List Field} (s t : Text) → Reads a s b → Reads b t c → Reads a (s ++ t) c
Reads-append {c = c} s t r q = record {
  count = r.count + q.count;
  runs = λ idx u.
      rw append_assoc
        (r.runs idx (t ++ u) ∙ q.runs (idx + r.count) u ∙ ap (λ i. from_line i u c) (omega arith));
}

-- A name that can stand before `=`.
abbrev pub IsKeyByte : ℕ → Type 0
IsKeyByte c =
    (is_space c ≡ false)
    × ((c == b'=') ≡ false)
    × ((c == b'#') ≡ false)
    × ((c == b'-') ≡ false)
    × ((c == b'\n') ≡ false)

pub record IsKey (k : Text) : Type 0 where
  pub all : All IsKeyByte k
  pub some_byte : k ≢ []

unfoldable pub key_bytes : Text → Bool
key_bytes [] = true
key_bytes (c ∷ k) =
    not (is_space c || c == b'=' || c == b'#' || c == b'-' || c == b'\n') && key_bytes k

All-of_key_bytes : (k : Text) → key_bytes k ≡ true → All IsKeyByte k
unfolding key_bytes
All-of_key_bytes [] e = tt
All-of_key_bytes (c ∷ k) e = (ground arith, All-of_key_bytes k (ground arith))

pub IsKey-of_key_bytes : (k : Text) → k ≢ [] → key_bytes k ≡ true → IsKey k
IsKey-of_key_bytes k ne h = record { all = All-of_key_bytes k h; some_byte = ne }

-- A value that fits on a line: it is not empty, has no line feed and no space on either side.
pub record IsLineValue (v : Text) : Type 0 where
  pub trimmed : IsTrimmed v
  pub one_line : HasNo b'\n' v
  pub not_empty : v ≢ []

abbrev pub line_of : Text → Text → Text
line_of k v = k ++ (codes " = " ++ v)

trim_left_of_key : (k : Text) (r : Text) → IsKey k → trim_left (k ++ r) ≡ k ++ r
unfolding trim_left
trim_left_of_key [] r key = absurd (key.some_byte refl)
trim_left_of_key (c ∷ k) r key = rw key.all.0.0

trim_right_of_key : (k : Text) → All IsKeyByte k → trim_right (k ++ b' ' ∷ []) ≡ k
unfolding trim_right trim_onto
trim_right_of_key [] h = unfold is_space in refl
trim_right_of_key (c ∷ []) h = unfold is_space in ground arith
trim_right_of_key (c ∷ d ∷ k) h = rw (trim_right_of_key (d ∷ k) h.1)

key-HasNo : (k : Text) → All IsKeyByte k → HasNo b'=' (k ++ b' ' ∷ []) × HasNo b'\n' k
key-HasNo [] h = ((refl, tt), tt)
key-HasNo (c ∷ k) h = let (eq, nl) = key-HasNo k h.1 in ((h.0.1, eq), (h.0.4, nl))

is_comment_of_key : (k r : Text) → IsKey k → is_comment (k ++ r) ≡ false
unfolding is_comment
is_comment_of_key [] r key = absurd (key.some_byte refl)
is_comment_of_key (c ∷ k) r key = key.all.0.2

has_prefix_of_key : (k r : Text) → IsKey k → has_prefix (k ++ r) blob_begin ≡ false
unfolding has_prefix
has_prefix_of_key [] r key = absurd (key.some_byte refl)
has_prefix_of_key (c ∷ k) r key = rw key.all.0.3

module _ (k v : Text) (key : IsKey k) (value : IsLineValue v) where
  line_of-right : trim_right (line_of k v) ≡ line_of k v
  line_of-right =
      ap trim_right (sym (append_assoc k (codes " = ") v))
      ∙ trim_right-append (k ++ codes " = ") v value.not_empty value.trimmed.right
      ∙ append_assoc k (codes " = ") v

  line_of-split : split_once b'=' (line_of k v) ≡ some (k ++ b' ' ∷ [], b' ' ∷ v)
  line_of-split =
      ap (split_once b'=') (sym (append_assoc k (b' ' ∷ []) (b'=' ∷ b' ' ∷ v)))
      ∙ split_once-append b'=' (k ++ b' ' ∷ []) (b' ' ∷ v) (key-HasNo k key.all).0

  line_of-key : trim_space (k ++ b' ' ∷ []) ≡ k
  line_of-key =
      unfold trim_space in
      ap trim_right (trim_left_of_key k (b' ' ∷ []) key) ∙ trim_right_of_key k key.all

  line_of-value : trim_space (b' ' ∷ v) ≡ v
  line_of-value = unfold trim_space in ap trim_right value.trimmed.left ∙ value.trimmed.right

  line_of-trimmed : trim_space (line_of k v) ≡ line_of k v
  line_of-trimmed = unfold trim_space in ap trim_right (trim_left_of_key k _ key) ∙ line_of-right

  parse_line-line_of :
      (at : ℕ) (fields : List Field)
      → parse_line at (line_of k v) fields ≡ parse_named at k v fields
  unfolding parse_line
  parse_line-line_of at fields = rw line_of-trimmed (
      rw (is_comment_of_key k (codes " = " ++ v) key)
        (rw line_of-split (rw (line_of-key, line_of-value))))

  line_of-one_line : HasNo b'\n' (line_of k v)
  line_of-one_line =
      All-append (λ d. (d == b'\n') ≡ false) k (codes " = " ++ v) (key-HasNo k key.all).1
        (refl, (refl, (refl, value.one_line)))

  scan_lines-line_of :
      (t : Text)
      → byte_len (line_of k v) < max_scan_token
      → scan_lines ((line_of k v ++ b'\n' ∷ []) ++ t) ≡ line_of k v ∷ scan_lines t
  scan_lines-line_of t fits =
      ap scan_lines (append_assoc (line_of k v) (b'\n' ∷ []) t)
      ∙ scan_lines-append (line_of k v) t line_of-one_line line_of-right fits

  unmarshal_lines-line_of :
      (n idx : ℕ) (rest : List Text) (fields next : List Field)
      → parse_named (idx + 1) k v fields ≡ ok next
      → unmarshal_lines (suc n) idx (line_of k v ∷ rest) fields
        ≡ unmarshal_lines n (idx + 1) rest next
  unfolding unmarshal_lines
  unmarshal_lines-line_of n idx rest fields next sets =
      rw (has_prefix_of_key k (codes " = " ++ v) key) (rw parse_line-line_of (rw sets))

  -- The line that `Marshal` writes for a named value sets the field of that name.
  pub line_of-Reads :
      (fields next : List Field)
      → ((at : ℕ) → parse_named at k v fields ≡ ok next)
      → byte_len (line_of k v) < max_scan_token
      → Reads fields (line_of k v ++ b'\n' ∷ []) next
  line_of-Reads fields next sets fits = record {
    count = 1;
    runs = λ idx t.
        ap (λ ls. unmarshal_lines (length ls) idx ls fields) (scan_lines-line_of t fits)
        ∙ unmarshal_lines-line_of (length (scan_lines t)) idx (scan_lines t) fields next
            (sets (idx + 1));
  }
