-- ===== src/Names.antt =====
-- types/utils.go: node names.
pub mod Cleaning
use tinc_boot.Prelude.{
  ℕ, ◌+◌, ◌≡◌, ◌↔◌, refl, Bool, true, ◌&&◌, ◌||◌, [], ◌∷◌, map, arith, leb, ◌==◌, if◌then◌else◌,
  All, subst,
}
use tinc_boot.Text.{Text, equal, equal_iff}

-- `unicode.ToLower`, as far as `[a-z0-9]` can tell: outside ASCII only U+0130 and the Kelvin sign
-- have an ASCII letter as their lower case, and any other code point stays outside ASCII.
unfoldable pub lower_rune : ℕ → ℕ
lower_rune c =
    if leb b'A' c && leb c b'Z'
    then c + 32
    else if c == 0x130
    then b'i'
    else if c == 0x212a
    then b'k'
    else c

-- The class `[a-z0-9]`, the complement of the class in `filterPattern`.
unfoldable pub is_enabled : ℕ → Bool
is_enabled c = (leb b'a' c && leb c b'z') || (leb b'0' c && leb c b'9')

-- `disabledSymbols.ReplaceAllString(str, "")`: the runs of other symbols are cut out.
unfoldable pub cut_disabled : Text → Text
cut_disabled [] = []
cut_disabled (c ∷ cs) = let rest = cut_disabled cs in if is_enabled c then c ∷ rest else rest

-- `CleanString`
unfoldable pub clean_string : Text → Text
clean_string s = cut_disabled (map lower_rune s)

-- A node name that the program accepts.
abbrev pub IsName : Text → Type 0
IsName s = All (λ c. is_enabled c ≡ true) s

cut_disabled-IsName : (s : Text) → IsName (cut_disabled s)
unfolding cut_disabled
cut_disabled-IsName [] = tt
cut_disabled-IsName (c ∷ cs) = ground (arith, cut_disabled-IsName cs)

pub clean_string-IsName : (s : Text) → IsName (clean_string s)
unfolding clean_string
clean_string-IsName s = cut_disabled-IsName (map lower_rune s)

lower_rune-is_enabled : (c : ℕ) → is_enabled c ≡ true → lower_rune c ≡ c
unfolding lower_rune is_enabled
lower_rune-is_enabled c h = ground arith

pub clean_string_of_IsName : (s : Text) → IsName s → clean_string s ≡ s
unfolding clean_string cut_disabled
clean_string_of_IsName [] h = refl
clean_string_of_IsName (c ∷ cs) h =
    ground (arith, lower_rune-is_enabled c, clean_string_of_IsName cs)

-- The test `CleanString(name) == name`, by which names are admitted, holds exactly for the texts of the
-- characters that `CleanString` keeps.
pub clean_test_iff : (s : Text) → (equal (clean_string s) s ≡ true) ↔ IsName s
clean_test_iff s = (
  λ h. subst IsName ((equal_iff (clean_string s) s).0 h) (clean_string-IsName s),
  λ h. (equal_iff (clean_string s) s).1 (clean_string_of_IsName s h),
)

-- Cleaning twice is cleaning once.
pub clean_string_idem : (s : Text) → clean_string (clean_string s) ≡ clean_string s
clean_string_idem s = clean_string_of_IsName (clean_string s) (clean_string-IsName s)
