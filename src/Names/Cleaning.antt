-- ===== src/Names/Cleaning.antt =====
-- What `CleanString` of types/utils.go keeps, in code points.
use tinc_boot.Prelude.{
  ℕ, ◌+◌, ◌≤◌, ◌≡◌, ◌↔◌, ◌⊎◌, inl, inr, refl, sym, true, ◌∷◌, [], ◌++◌, All, arith, Bool-cases, ap,
}
use tinc_boot.Text.{Text, equal}
use tinc_boot.Names.{
  lower_rune, is_enabled, cut_disabled, clean_string, IsName, clean_string-IsName, clean_test_iff,
}

-- A small letter or a digit of ASCII.
abbrev pub IsPlain : ℕ → Type 0
IsPlain c = ((97 ≤ c) × (c ≤ 122)) ⊎ ((48 ≤ c) × (c ≤ 57))

-- A capital of ASCII and its small letter.
abbrev pub IsCapitalOf : ℕ → ℕ → Type 0
IsCapitalOf c d = (65 ≤ c) × (c ≤ 90) × (d ≡ c + 32)

-- Two texts that are the same but for the case of ASCII letters.
abbrev pub IsRecased : Text → Text → Type 0
IsRecased [] [] = Unit {0}
IsRecased [] (d ∷ t) = ⊥
IsRecased (c ∷ s) [] = ⊥
IsRecased (c ∷ s) (d ∷ t) = ((c ≡ d) ⊎ (IsCapitalOf c d ⊎ IsCapitalOf d c)) × IsRecased s t

enabled-IsPlain : (c : ℕ) → is_enabled c ≡ true → IsPlain c
unfolding is_enabled
enabled-IsPlain c h = ground arith

IsPlain-enabled : (c : ℕ) → IsPlain c → is_enabled c ≡ true
unfolding is_enabled
IsPlain-enabled c h = ground arith

plain_of_IsName : (s : Text) → IsName s → All IsPlain s
plain_of_IsName [] h = tt
plain_of_IsName (c ∷ s) h = (enabled-IsPlain c h.0, plain_of_IsName s h.1)

IsName-of_plain : (s : Text) → All IsPlain s → IsName s
IsName-of_plain [] h = tt
IsName-of_plain (c ∷ s) h = (IsPlain-enabled c h.0, IsName-of_plain s h.1)

lower_rune-capital : (c d : ℕ) → IsCapitalOf c d → lower_rune c ≡ lower_rune d
unfolding lower_rune
lower_rune-capital c d h = ground arith

clean_string-next :
    (c d : ℕ) (s t : Text)
    → lower_rune c ≡ lower_rune d
    → clean_string s ≡ clean_string t
    → clean_string (c ∷ s) ≡ clean_string (d ∷ t)
unfolding clean_string cut_disabled
clean_string-next c d s t e h = ground (arith, e, h)

clean_string-recased : (s t : Text) → IsRecased s t → clean_string s ≡ clean_string t
clean_string-recased [] [] h = refl
clean_string-recased [] (d ∷ t) h = absurd h
clean_string-recased (c ∷ s) [] h = absurd h
clean_string-recased (c ∷ s) (d ∷ t) (inl e, h) =
    clean_string-next c d s t (ap lower_rune e) (clean_string-recased s t h)
clean_string-recased (c ∷ s) (d ∷ t) (inr (inl e), h) =
    clean_string-next c d s t (lower_rune-capital c d e) (clean_string-recased s t h)
clean_string-recased (c ∷ s) (d ∷ t) (inr (inr e), h) =
    clean_string-next c d s t (sym (lower_rune-capital d c e)) (clean_string-recased s t h)

clean_string-append : (s t : Text) → clean_string (s ++ t) ≡ clean_string s ++ clean_string t
unfolding clean_string cut_disabled
clean_string-append [] t = refl
clean_string-append (c ∷ s) t = elim (Bool-cases (is_enabled (lower_rune c))) [
  | inl e ↦ rw e (ap (lower_rune c ∷◌) (clean_string-append s t))
  | inr e ↦ rw e (clean_string-append s t)
]

-- Where two texts are the same but for the case of ASCII letters: they have the same cleaned text, which
-- has only the code points of a-z and 0-9; the test `CleanString(name) == name`, by which names are
-- admitted, holds exactly for the texts of those; and a text with another behind it is cleaned piece by
-- piece.
pub clean_string_lem :
    (s t other : Text)
    → IsRecased s t
    → (clean_string s ≡ clean_string t)
      × All IsPlain (clean_string s)
      × ((equal (clean_string s) s ≡ true) ↔ All IsPlain s)
      × (clean_string (s ++ other) ≡ clean_string s ++ clean_string other)
clean_string_lem s t other h = (
  clean_string-recased s t h,
  plain_of_IsName (clean_string s) (clean_string-IsName s),
  (
    λ same. plain_of_IsName s ((clean_test_iff s).0 same),
    λ plain. (clean_test_iff s).1 (IsName-of_plain s plain),
  ),
  clean_string-append s other,
)
