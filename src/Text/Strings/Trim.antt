-- ===== src/Text/Strings/Trim.antt =====
-- Trimmed texts and the lines of a text.
use tinc_boot.Prelude.{
  ℕ, ◌+◌, ◌<◌, ◌≡◌, ◌≢◌, refl, ap, false, [], ◌∷◌, ◌++◌, arith, ◌==◌, All, some, lt→ltb, ==_iff,
  ◌⊎◌, inl, inr, Bool-cases, subst, List, true,
}
use tinc_boot.Text.{Text}
use tinc_boot.Text.Strings.{
  is_space, trim_left, trim_onto, trim_right, trim_space, split_once, cons_head, lines, drop_cr,
  split, before, byte_len, max_scan_token, fitting, scan_lines,
}

-- No space on either side.
pub record IsTrimmed (v : Text) : Type 0 where
  pub left : trim_left v ≡ v
  pub right : trim_right v ≡ v

abbrev pub HasNo : ℕ → Text → Type 0
HasNo c s = All (λ d. (d == c) ≡ false) s

pub trim_space_of_IsTrimmed : (v : Text) → IsTrimmed v → trim_space v ≡ v
unfolding trim_space
trim_space_of_IsTrimmed v t = rw t.left t.right

append-cons : (p v : Text) → v ≢ [] → p ++ v ≢ []
append-cons [] v h = h
append-cons (c ∷ p) v h = λ e. cc

trim_onto_of_ne : (c : ℕ) (s : Text) → s ≢ [] → trim_onto c s ≡ c ∷ s
unfolding trim_onto
trim_onto_of_ne c [] h = absurd (h refl)
trim_onto_of_ne c (d ∷ s) h = refl

pub trim_right-append : (p v : Text) → v ≢ [] → trim_right v ≡ v → trim_right (p ++ v) ≡ p ++ v
unfolding trim_right
trim_right-append [] v h t = t
trim_right-append (c ∷ p) v h t =
    rw (trim_right-append p v h t) (trim_onto_of_ne c (p ++ v) (append-cons p v h))

-- A trimmed line has no carriage return to drop.
pub drop_cr_of_trimmed : (v : Text) → trim_right v ≡ v → drop_cr v ≡ v
unfolding drop_cr trim_right trim_onto
drop_cr_of_trimmed [] h = refl
drop_cr_of_trimmed (c ∷ []) h = unfold is_space in ground arith
drop_cr_of_trimmed (c ∷ d ∷ r) h =
    ap (◌∷◌ c) (drop_cr_of_trimmed (d ∷ r) (tail_trimmed (trim_right (d ∷ r)) h))
  where
    tail_trimmed : (s : Text) → trim_onto c s ≡ c ∷ d ∷ r → s ≡ d ∷ r
    tail_trimmed [] e = ground arith
    tail_trimmed (x ∷ xs) e = cc

pub lines-append : (l rest : Text) → HasNo b'\n' l → lines (l ++ b'\n' ∷ rest) ≡ l ∷ lines rest
unfolding lines cons_head
lines-append [] rest h = refl
lines-append (c ∷ l) rest h = rw (h.0, lines-append l rest h.1)

pub byte_len-append : (p v : Text) → byte_len (p ++ v) ≡ byte_len p + byte_len v
unfolding byte_len
byte_len-append [] v = omega arith
byte_len-append (c ∷ p) v = omega (arith, byte_len-append p v)

-- The scanner yields a line that is trimmed on the right and fits its buffer as it stands.
pub scan_lines-append :
    (l rest : Text)
    → HasNo b'\n' l
    → trim_right l ≡ l
    → byte_len l < max_scan_token
    → scan_lines (l ++ b'\n' ∷ rest) ≡ l ∷ scan_lines rest
unfolding scan_lines fitting
scan_lines-append l rest n t f =
    rw (lines-append l rest n) (rw (drop_cr_of_trimmed l t, lt→ltb (byte_len l) max_scan_token f))

pub split_once-append :
    (sep : ℕ) (k v : Text) → HasNo sep k → split_once sep (k ++ sep ∷ v) ≡ some (k, v)
unfolding split_once
split_once-append sep [] v h = ground arith
split_once-append sep (c ∷ k) v h = rw (h.0, split_once-append sep k v h.1)

trim_right_of_spaceless : (s : Text) → All (λ c. is_space c ≡ false) s → trim_right s ≡ s
unfolding trim_right trim_onto
trim_right_of_spaceless [] h = refl
trim_right_of_spaceless (c ∷ []) h = rw h.0
trim_right_of_spaceless (c ∷ d ∷ s) h = rw (trim_right_of_spaceless (d ∷ s) h.1)

-- A text without spaces is trimmed.
pub IsTrimmed-of_spaceless : (s : Text) → All (λ c. is_space c ≡ false) s → IsTrimmed s
unfolding trim_left
IsTrimmed-of_spaceless [] h = record { left = refl; right = trim_right_of_spaceless [] h }
IsTrimmed-of_spaceless (c ∷ s) h = record {
  left = rw h.0;
  right = trim_right_of_spaceless (c ∷ s) h;
}

pub split-line :
    (sep : ℕ) (line rest : Text)
    → HasNo sep line
    → split sep (line ++ sep ∷ rest) ≡ line ∷ split sep rest
unfolding split cons_head
split-line sep [] rest h = ground (arith, ==_iff sep sep)
split-line sep (c ∷ cs) rest h = rw (h.0) (rw (split-line sep cs rest h.1) refl)

-- What holds of each part holds of each byte that is not a separator.
pub split-All :
    (sep : ℕ) (P : ℕ → Type 0) (s : Text)
    → All (λ part. All P part) (split sep s)
    → All (λ c. P c ⊎ (c ≡ sep)) s
unfolding split cons_head
split-All sep P [] h = tt
split-All sep P (c ∷ cs) h = elim (Bool-cases (c == sep)) [
  | inl e ↦ (inr ((==_iff c sep).0 e), split-All sep P cs (rest_at e h))
  | inr e ↦
      let (first, rest) = onto (split sep cs) (parts_at e h) in (inl first, split-All sep P cs rest)
]
  where
    rest_at :
        (c == sep) ≡ true
        → All (λ part. All P part) (split sep (c ∷ cs))
        → All (λ part. All P part) (split sep cs)
    rest_at e k = (subst (λ l. All (λ part. All P part) l) {y = [] ∷ split sep cs} (rw e refl) k).1

    parts_at :
        (c == sep) ≡ false
        → All (λ part. All P part) (split sep (c ∷ cs))
        → All (λ part. All P part) (cons_head c (split sep cs))
    parts_at e k = subst (λ l. All (λ part. All P part) l) (rw e refl) k

    onto :
        (parts : List Text)
        → All (λ part. All P part) (cons_head c parts)
        → P c × All (λ part. All P part) parts
    onto [] k = (k.0.0, tt)
    onto (p ∷ ps) k = (k.0.0, (k.0.1, k.1))

pub before-append : (sep : ℕ) (s rest : Text) → HasNo sep s → before sep (s ++ sep ∷ rest) ≡ s
unfolding before
before-append sep [] rest h = ground arith
before-append sep (c ∷ s) rest h = rw h.0 (ap (c ∷◌) (before-append sep s rest h.1))
