-- ===== src/Text/Strings.antt =====
-- The functions of Go's `strings`, `bytes` and `bufio` that the program calls.
pub mod Trim
use tinc_boot.Prelude.{
  ℕ, zero, suc, ◌+◌, ◌≡◌, ◌≢◌, refl, Bool, true, false, not, ◌&&◌, ◌||◌, List, [], ◌∷◌, ◌++◌,
  Option, none, some, arith, ltb, leb, ◌==◌, if◌then◌else◌, map,
}
use tinc_boot.Text.{Text, equal}

-- `unicode.IsSpace`
unfoldable pub is_space : ℕ → Bool
is_space c =
    (leb 9 c && leb c 13)
    || c == 32
    || c == 0x85
    || c == 0xa0
    || c == 0x1680
    || (leb 0x2000 c && leb c 0x200a)
    || c == 0x2028
    || c == 0x2029
    || c == 0x202f
    || c == 0x205f
    || c == 0x3000

unfoldable pub trim_left : Text → Text
trim_left [] = []
trim_left (c ∷ cs) = let rest = trim_left cs in if is_space c then rest else c ∷ cs

unfoldable pub trim_onto : ℕ → Text → Text
trim_onto c [] = if is_space c then [] else c ∷ []
trim_onto c (d ∷ ds) = c ∷ d ∷ ds

unfoldable pub trim_right : Text → Text
unfolding trim_onto
trim_right [] = []
trim_right (c ∷ cs) = trim_onto c (trim_right cs)

-- `strings.TrimSpace`
unfoldable pub trim_space : Text → Text
unfolding trim_left trim_right is_space
trim_space s = trim_right (trim_left s)

-- `strings.HasPrefix(s, prefix)`
unfoldable pub has_prefix : Text → Text → Bool
has_prefix s [] = true
has_prefix [] (p ∷ ps) = false
has_prefix (c ∷ cs) (p ∷ ps) = c == p && has_prefix cs ps

-- `strings.Contains(s, part)`
unfoldable pub contains : Text → Text → Bool
unfolding has_prefix
contains [] part = has_prefix [] part
contains (c ∷ cs) part = has_prefix (c ∷ cs) part || contains cs part

-- `strings.SplitN(s, sep, 2)` at a separator of one byte: what stands on either side of the first
-- one, or nothing where there is none.
unfoldable pub split_once : ℕ → Text → Option (Text × Text)
split_once sep [] = none
split_once sep (c ∷ cs) =
    if c == sep
    then some ([], cs)
    else elim (split_once sep cs) [ none ↦ none | some (a, b) ↦ some (c ∷ a, b) ]

-- `strings.Split(s, sep)[0]`, also `s[:strings.Index(s, sep)]` where the separator occurs.
unfoldable pub before : ℕ → Text → Text
before sep [] = []
before sep (c ∷ cs) = let rest = before sep cs in if c == sep then [] else c ∷ rest

cons_head : ℕ → List Text → List Text
cons_head c [] = (c ∷ []) ∷ []
cons_head c (l ∷ ls) = (c ∷ l) ∷ ls

-- `strings.Split(s, sep)` at a separator of one byte.
unfoldable pub split : ℕ → Text → List Text
unfolding cons_head
split sep [] = [] ∷ []
split sep (c ∷ cs) = let rest = split sep cs in if c == sep then [] ∷ rest else cons_head c rest

-- `strings.Join(parts, sep)`
unfoldable pub join : Text → List Text → Text
join sep [] = []
join sep (l ∷ []) = l
join sep (l ∷ k ∷ ls) = l ++ (sep ++ join sep (k ∷ ls))

-- Bytes of a code point in UTF-8, and of a text: `len(s)`.
unfoldable pub rune_len : ℕ → ℕ
rune_len c = if ltb c 0x80 then 1 else if ltb c 0x800 then 2 else if ltb c 0x10000 then 3 else 4

unfoldable pub byte_len : Text → ℕ
unfolding rune_len
byte_len [] = 0
byte_len (c ∷ cs) = rune_len c + byte_len cs

-- The lines of a text, each without its line feed; a last line may lack one.
unfoldable pub lines : Text → List Text
unfolding cons_head
lines [] = []
lines (c ∷ cs) = let rest = lines cs in if c == b'\n' then [] ∷ rest else cons_head c rest

-- The carriage return at the end of a line.
unfoldable pub drop_cr : Text → Text
drop_cr [] = []
drop_cr (c ∷ []) = if c == 13 then [] else c ∷ []
drop_cr (c ∷ d ∷ r) = c ∷ drop_cr (d ∷ r)

-- `bufio.MaxScanTokenSize`
abbrev pub max_scan_token : ℕ
max_scan_token = 65536

-- The lines up to the first one that does not fit the scanner's buffer.
fitting : List Text → List Text
fitting [] = []
fitting (l ∷ ls) =
    let rest = fitting ls in if ltb (byte_len l) max_scan_token then drop_cr l ∷ rest else []

-- What a `bufio.Scanner` yields on a text: it stops for good at a line that is too long.
unfoldable pub scan_lines : Text → List Text
unfolding lines fitting drop_cr byte_len
scan_lines s = fitting (lines s)

-- `unicode.SimpleFold` classes, as far as an ASCII text can tell: outside ASCII only the long s and
-- the Kelvin sign fold with an ASCII letter.
unfoldable pub fold_rune : ℕ → ℕ
fold_rune c =
    if leb b'A' c && leb c b'Z'
    then c + 32
    else if c == 0x17f
    then b's'
    else if c == 0x212a
    then b'k'
    else c

-- `strings.EqualFold(s, t)` for an ASCII `s`.
unfoldable pub equal_fold : Text → Text → Bool
unfolding fold_rune equal
equal_fold s t = equal (map fold_rune s) (map fold_rune t)
