-- ===== src/Numbers.antt =====
-- strconv, as the program calls it: numbers in base 10.
use mathlib.Core.WellFounded.{Acc, WellFounded}
use mathlib.Core.Logic.{dite, dif_pos, dif_neg}
use native.Mathlib.Decide.{dec_lt}
use native.Mathlib.Bridge.{le_prop}
use native.Mathlib.Nat.{le_trans, pow-suc}
use tinc_boot.Prelude.{
  ℕ, zero, suc, ◌+◌, ◌-◌, ◌*◌, ◌/◌, ◌%◌, ◌^◌, ◌<◌, ◌≤◌, ◌≡◌, refl, ap, ◌∙◌, Bool, true, false,
  Bool-cases, sym, inl, inr, ◌&&◌, [], ◌∷◌, ◌++◌, Option, none, some, arith, All, All-append, ◌≢◌,
  ltb, leb, ◌==◌, if◌then◌else◌,
}
use tinc_boot.Prelude.Int.{ℤ, pos, negsuc}
use tinc_boot.Text.{Text}
use tinc_boot.Text.Strings.{rune_len, byte_len}
use tinc_boot.Text.Strings.Trim.{byte_len-append}

unfoldable pub is_digit : ℕ → Bool
is_digit c = leb b'0' c && leb c b'9'

-- The digits after those whose value is `n`; a value of 2^64 or more is out of range.
digits_onto : ℕ → Text → Option ℕ
digits_onto n [] = some n
digits_onto n (c ∷ cs) =
    if is_digit c && ltb (n * 10 + (c - b'0')) (2 ^ 64)
    then digits_onto (n * 10 + (c - b'0')) cs
    else none

-- `strconv.ParseUint(s, 10, 64)`
unfoldable pub parse_uint : Text → Option ℕ
unfolding digits_onto is_digit
parse_uint [] = none
parse_uint (c ∷ cs) = digits_onto 0 (c ∷ cs)

-- `strconv.ParseUint(s, 10, bits)`
unfoldable pub parse_uint_bits : ℕ → Text → Option ℕ
unfolding parse_uint
parse_uint_bits bits s = elim (parse_uint s) [
  | none ↦ none
  | some n ↦ if ltb n (2 ^ bits) then some n else none
]

int_of : Bool → Option ℕ → Option ℤ
int_of minus none = none
int_of minus (some zero) = some (pos 0)
int_of minus (some (suc n)) =
    if minus
    then (if ltb n (2 ^ 63) then some (negsuc n) else none)
    else if ltb (suc n) (2 ^ 63)
    then some (pos (suc n))
    else none

-- `strconv.ParseInt(s, 10, 64)`
unfoldable pub parse_int : Text → Option ℤ
unfolding int_of parse_uint
parse_int [] = none
parse_int (c ∷ cs) =
    if c == b'-'
    then int_of Bool.true (parse_uint cs)
    else if c == b'+'
    then int_of Bool.false (parse_uint cs)
    else int_of Bool.false (parse_uint (c ∷ cs))

Acc-below : (k n : ℕ) → n < k → Acc ◌<◌ n
Acc-below zero n h = elim h [ ]
Acc-below (suc k) n h = Acc.intro n (λ m hm. Acc-below k m (omega arith))

lt_wf : WellFounded ◌<◌
unfolding Acc-below
lt_wf = record { apply = λ n. Acc-below (suc n) n (omega arith) }

div_smaller : (n : ℕ) → ¬ (n < 10) → n / 10 < n
div_smaller n h = omega arith

format_acc : (n : ℕ) → Acc ◌<◌ n → Text
format_acc n (Acc.intro _ smaller) =
    dite (dec_lt n 10) (λ _. (n + b'0') ∷ [])
      (λ h. format_acc (n / 10) (smaller (n / 10) (div_smaller n h)) ++ ((n % 10) + b'0') ∷ [])

-- `strconv.FormatUint(n, 10)`
unfoldable pub format_uint : ℕ → Text
unfolding format_acc lt_wf dec_lt div_smaller
format_uint n = format_acc n (lt_wf.apply n)

-- `strconv.FormatInt(z, 10)`
unfoldable pub format_int : ℤ → Text
unfolding format_uint
format_int (pos n) = format_uint n
format_int (negsuc n) = b'-' ∷ format_uint (suc n)

digits_onto-append :
    (n m : ℕ) (xs ys : Text)
    → digits_onto n xs ≡ some m
    → digits_onto n (xs ++ ys) ≡ digits_onto m ys
unfolding digits_onto
digits_onto-append n m [] ys h = ground arith
digits_onto-append n m (c ∷ xs) ys h =
    ground (arith, digits_onto-append (n * 10 + (c - b'0')) m xs ys)

digits_onto-digit :
    (n d : ℕ) → d < 10 → n * 10 + d < 2 ^ 64 → digits_onto n ((d + b'0') ∷ []) ≡ some (n * 10 + d)
unfolding digits_onto is_digit
digits_onto-digit n d h l = ground arith

append_digit :
    (n : ℕ) (t : Text)
    → digits_onto 0 t ≡ some (n / 10)
    → n < 2 ^ 64
    → digits_onto 0 (t ++ ((n % 10) + b'0') ∷ []) ≡ some n
append_digit n t e h =
    digits_onto-append 0 (n / 10) t ((n % 10 + b'0') ∷ []) e
    ∙ digits_onto-digit (n / 10) (n % 10) (omega arith) (omega arith)
    ∙ ap some (omega arith)

digits_onto-format_acc :
    (n : ℕ) (w : Acc ◌<◌ n) → n < 2 ^ 64 → digits_onto 0 (format_acc n w) ≡ some n
unfolding format_acc
digits_onto-format_acc n (Acc.intro _ smaller) h = elim (dec_lt n 10) [
  | yes p ↦ rw (dif_pos _ le_prop p) (digits_onto-digit 0 n p (omega arith) ∙ ap some (omega arith))
  | no p ↦ rw (dif_neg _ p) (
      append_digit n _
        (digits_onto-format_acc (n / 10) (smaller (n / 10) (div_smaller n p)) (omega arith)) h)
]

abbrev pub IsDigits : Text → Type 0
IsDigits s = (s ≢ []) × All (λ c. is_digit c ≡ true) s

digit-is_digit : (d : ℕ) → d < 10 → is_digit (d + b'0') ≡ true
unfolding is_digit
digit-is_digit d h = ground arith

append-ne-nil : (xs : Text) (c : ℕ) → xs ++ c ∷ [] ≢ []
append-ne-nil [] c e = cc
append-ne-nil (x ∷ xs) c e = cc

append_digit-IsDigits : (n : ℕ) (t : Text) → IsDigits t → IsDigits (t ++ ((n % 10) + b'0') ∷ [])
append_digit-IsDigits n t h = (
  append-ne-nil t (n % 10 + b'0'),
  All-append (λ c. is_digit c ≡ true) t ((n % 10 + b'0') ∷ []) h.1
      (digit-is_digit (n % 10) (omega arith), tt),
)

format_acc-IsDigits : (n : ℕ) (w : Acc ◌<◌ n) → IsDigits (format_acc n w)
unfolding format_acc
format_acc-IsDigits n (Acc.intro _ smaller) = elim (dec_lt n 10) [
  | yes p ↦ rw (dif_pos _ le_prop p) ((λ e. cc), (digit-is_digit n p, tt))
  | no p ↦ rw (dif_neg _ p) (
      append_digit-IsDigits n _ (format_acc-IsDigits (n / 10) (smaller (n / 10) (div_smaller n p))))
]

-- A formatted number is a non-empty run of digits.
pub format_uint-IsDigits : (n : ℕ) → IsDigits (format_uint n)
unfolding format_uint
format_uint-IsDigits n = format_acc-IsDigits n (lt_wf.apply n)

digit_len : (d : ℕ) → d < 10 → rune_len (d + b'0') ≡ 1
unfolding rune_len
digit_len d h = ground arith

append_digit-byte_len :
    (k n : ℕ) (t : Text) → byte_len t ≤ k → byte_len (t ++ ((n % 10) + b'0') ∷ []) ≤ k + 1
unfolding byte_len
append_digit-byte_len k n t h =
    omega (arith, byte_len-append t ((n % 10 + b'0') ∷ []), digit_len (n % 10) (omega arith))

format_acc-byte_len :
    (k n : ℕ) (w : Acc ◌<◌ n) → n < 10 ^ k * 10 → byte_len (format_acc n w) ≤ k + 1
unfolding format_acc
format_acc-byte_len zero n (Acc.intro _ smaller) h = elim (dec_lt n 10) [
  | yes p ↦ rw (dif_pos _ le_prop p) (unfold byte_len in omega (arith, digit_len n p))
  | no p ↦ absurd (p (omega arith))
]
format_acc-byte_len (suc k) n (Acc.intro _ smaller) h = elim (dec_lt n 10) [
  | yes p ↦ rw (dif_pos _ le_prop p) (unfold byte_len in omega (arith, digit_len n p))
  | no p ↦ rw (dif_neg _ p) (
      le_trans
        (append_digit-byte_len (k + 1) n _ (
          format_acc-byte_len k (n / 10) (smaller (n / 10) (div_smaller n p))
            (omega (arith, pow-suc 10 k))))
        (omega arith))
]

-- A number below 10 ^ 20, such as any of 64 bits, has at most 20 digits.
pub byte_len-format_uint : (n : ℕ) → n < 2 ^ 64 → byte_len (format_uint n) ≤ 20
unfolding format_uint
byte_len-format_uint n h = format_acc-byte_len 19 n (lt_wf.apply n) (omega arith)

parse_uint_of_digits_onto :
    (s : Text) (n : ℕ) → s ≢ [] → digits_onto 0 s ≡ some n → parse_uint s ≡ some n
unfolding parse_uint
parse_uint_of_digits_onto [] n ne h = absurd (ne refl)
parse_uint_of_digits_onto (c ∷ cs) n ne h = h

-- What is printed for a number is read back as that number.
pub parse_uint-format_uint : (n : ℕ) → n < 2 ^ 64 → parse_uint (format_uint n) ≡ some n
parse_uint-format_uint n h =
    parse_uint_of_digits_onto (format_uint n) n (format_uint-IsDigits n).0
      (unfold format_uint in digits_onto-format_acc n (lt_wf.apply n) h)

abbrev pub Fits64 : ℤ → Type 0
Fits64 (pos n) = n < 2 ^ 63
Fits64 (negsuc n) = n < 2 ^ 63

int_of-nonneg : (n : ℕ) → n < 2 ^ 63 → int_of Bool.false (some n) ≡ some (pos n)
unfolding int_of
int_of-nonneg zero h = refl
int_of-nonneg (suc n) h = ground arith

parse_int_of_digit : (s : Text) → IsDigits s → parse_int s ≡ int_of Bool.false (parse_uint s)
unfolding parse_int is_digit
parse_int_of_digit [] h = absurd (h.0 refl)
parse_int_of_digit (c ∷ cs) h = ground arith

parse_minus : (s : Text) → parse_int (b'-' ∷ s) ≡ int_of Bool.true (parse_uint s)
unfolding parse_int
parse_minus s = refl

int_of-minus : (n : ℕ) → n < 2 ^ 63 → int_of Bool.true (some (suc n)) ≡ some (negsuc n)
unfolding int_of
int_of-minus n h = ground arith

-- A version survives the trip through an HTTP header or the clock file.
pub parse_int-format_int : (z : ℤ) → Fits64 z → parse_int (format_int z) ≡ some z
unfolding format_int
parse_int-format_int (pos n) h =
    parse_int_of_digit (format_uint n) (format_uint-IsDigits n)
    ∙ rw (parse_uint-format_uint n (omega arith)) (int_of-nonneg n h)
parse_int-format_int (negsuc n) h =
    parse_minus (format_uint (suc n))
    ∙ rw (parse_uint-format_uint (suc n) (omega arith)) (int_of-minus n h)

int_of-Fits64 : (minus : Bool) (o : Option ℕ) (z : ℤ) → int_of minus o ≡ some z → Fits64 z
unfolding int_of
int_of-Fits64 minus none z h = absurd (ground arith)
int_of-Fits64 minus (some zero) (pos n) h = ground arith
int_of-Fits64 minus (some zero) (negsuc n) h = ground arith
int_of-Fits64 true (some (suc m)) (pos n) h = ground arith
int_of-Fits64 true (some (suc m)) (negsuc n) h = ground arith
int_of-Fits64 false (some (suc m)) (pos n) h = ground arith
int_of-Fits64 false (some (suc m)) (negsuc n) h = ground arith

pub parse_int-Fits64 : (s : Text) (z : ℤ) → parse_int s ≡ some z → Fits64 z
unfolding parse_int
parse_int-Fits64 [] z h = absurd (ground arith)
parse_int-Fits64 (c ∷ cs) z h = elim (Bool-cases (c == b'-')) [
  | inl e ↦ int_of-Fits64 Bool.true (parse_uint cs) z (sym (rw e refl) ∙ h)
  | inr e ↦ elim (Bool-cases (c == b'+')) [
    | inl p ↦ int_of-Fits64 Bool.false (parse_uint cs) z (sym (rw e (rw p refl)) ∙ h)
    | inr q ↦ int_of-Fits64 Bool.false (parse_uint (c ∷ cs)) z (sym (rw e (rw q refl)) ∙ h)
  ]
]

digits_onto-All :
    (n : ℕ) (s : Text) (m : ℕ) → digits_onto n s ≡ some m → All (λ c. is_digit c ≡ true) s
unfolding digits_onto
digits_onto-All n [] m h = tt
digits_onto-All n (c ∷ cs) m h =
    elim (Bool-cases (is_digit c && ltb (n * 10 + (c - b'0')) (2 ^ 64))) [
      | inl e ↦ (first e, digits_onto-All (n * 10 + (c - b'0')) cs m (sym (rw e refl) ∙ h))
      | inr e ↦ absurd (ground arith)
    ]
  where
    first : (is_digit c && ltb (n * 10 + (c - b'0')) (2 ^ 64)) ≡ true → is_digit c ≡ true
    first e = ground arith

pub parse_uint-All : (s : Text) (m : ℕ) → parse_uint s ≡ some m → All (λ c. is_digit c ≡ true) s
unfolding parse_uint
parse_uint-All [] m h = tt
parse_uint-All (c ∷ cs) m h = digits_onto-All 0 (c ∷ cs) m h
