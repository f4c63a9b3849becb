-- ===== src/Bootstrap/Gen/Execute/Addresses.antt =====
-- The text of the address that cmd/tinc-boot/gen/main.go draws.
use tinc_boot.Prelude.{
  ℕ, ◌+◌, ◌*◌, ◌<◌, ◌≤◌, ◌≡◌, ◌≢◌, refl, true, false, List, [], ◌∷◌, ◌++◌, length, All, All-append,
  ◌⊎◌, inl, inr, arith, ◌==◌,
}
use tinc_boot.Text.{Text, codes}
use tinc_boot.Text.Strings.{byte_len, rune_len, is_space, join}
use tinc_boot.Text.Strings.Trim.{HasNo, IsTrimmed, IsTrimmed-of_spaceless, byte_len-append}
use tinc_boot.Numbers.{is_digit, format_uint, format_uint-IsDigits, byte_len-format_uint}
use tinc_boot.Config.RoundTrip.Pieces.{IsItem}
use tinc_boot.Bootstrap.Gen.Files.{show_ip}

-- A digit or a dot.
abbrev pub IsAddressChar : ℕ → Type 0
IsAddressChar c = (is_digit c ≡ true) ⊎ (c ≡ b'.')

digits-IsAddress : (s : Text) → All (λ c. is_digit c ≡ true) s → All IsAddressChar s
digits-IsAddress [] h = tt
digits-IsAddress (c ∷ s) h = (inl h.0, digits-IsAddress s h.1)

-- The text of some bytes.
join-IsAddress : (ip : List ℕ) → All IsAddressChar (show_ip ip)
unfolding show_ip join
join-IsAddress [] = tt
join-IsAddress (n ∷ []) = digits-IsAddress (format_uint n) (format_uint-IsDigits n).1
join-IsAddress (n ∷ m ∷ ip) =
    All-append IsAddressChar (format_uint n) (codes "." ++ show_ip (m ∷ ip))
      (digits-IsAddress (format_uint n) (format_uint-IsDigits n).1)
      (inr refl, join-IsAddress (m ∷ ip))

dot_len : (s : Text) → byte_len (codes "." ++ s) ≡ byte_len s + 1
unfolding byte_len rune_len
dot_len s = omega arith

join-byte_len : (ip : List ℕ) → All (λ n. n < 256) ip → byte_len (show_ip ip) ≤ length ip * 21
unfolding show_ip join
join-byte_len [] h = unfold byte_len in omega arith
join-byte_len (n ∷ []) h = omega (arith, byte_len-format_uint n (omega arith))
join-byte_len (n ∷ m ∷ ip) h = omega (
  arith,
  byte_len-append (format_uint n) (codes "." ++ show_ip (m ∷ ip)),
  dot_len (show_ip (m ∷ ip)),
  byte_len-format_uint n (omega arith),
  join-byte_len (m ∷ ip) h.1,
)

join-ne-nil : (n : ℕ) (ip : List ℕ) → show_ip (n ∷ ip) ≢ []
unfolding show_ip join
join-ne-nil n [] = (format_uint-IsDigits n).0
join-ne-nil n (m ∷ ip) = λ e. (format_uint-IsDigits n).0 (head_nil (format_uint n) _ e)
  where
    head_nil : (s t : Text) → s ++ t ≡ [] → s ≡ []
    head_nil [] t e = refl
    head_nil (c ∷ s) t e = cc

address-plain :
    (c : ℕ)
    → IsAddressChar c
    → (is_space c ≡ false) × ((c == b'\n') ≡ false) × ((c == b'/') ≡ false)
unfolding is_space is_digit
address-plain c h = ground arith

All-map : {P Q : ℕ → Type 0} (f : (c : ℕ) → P c → Q c) (s : Text) → All P s → All Q s
All-map f [] h = tt
All-map f (c ∷ s) h = (f c h.0, All-map f s h.1)

-- An address of four bytes has no slash, and nothing to trim.
pub show_ip-HasNo : (ip : List ℕ) → HasNo b'/' (show_ip ip)
show_ip-HasNo ip = All-map (λ c h. (address-plain c h).2) (show_ip ip) (join-IsAddress ip)

pub show_ip-IsTrimmed : (ip : List ℕ) → IsTrimmed (show_ip ip)
show_ip-IsTrimmed ip =
    IsTrimmed-of_spaceless (show_ip ip)
      (All-map (λ c h. (address-plain c h).0) (show_ip ip) (join-IsAddress ip))

mask_spaceless : All (λ c. is_space c ≡ false) (codes "/32")
unfolding is_space
mask_spaceless = (refl, (refl, (refl, tt)))

-- As a subnet it can stand in a host's file.
pub subnet-IsItem :
    (ip : List ℕ) → length ip ≡ 4 → All (λ n. n < 256) ip → IsItem (show_ip ip ++ codes "/32")
unfolding byte_len rune_len
subnet-IsItem ip four h = record {
  plain = record {
    trimmed = IsTrimmed-of_spaceless (show_ip ip ++ codes "/32") (
        All-append (λ c. is_space c ≡ false) (show_ip ip) (codes "/32")
          (All-map (λ c k. (address-plain c k).0) (show_ip ip) (join-IsAddress ip)) mask_spaceless);
    one_line =
        All-append (λ c. (c == b'\n') ≡ false) (show_ip ip) (codes "/32")
          (All-map (λ c k. (address-plain c k).1) (show_ip ip) (join-IsAddress ip))
          (refl, (refl, (refl, tt)));
    short = omega (arith, byte_len-append (show_ip ip) (codes "/32"), join-byte_len ip h, four);
  };
  not_empty = append-ne (show_ip ip);
}
  where
    append-ne : (s : Text) → s ++ codes "/32" ≢ []
    append-ne [] e = cc
    append-ne (c ∷ s) e = cc

pub show_ip-ne-nil : (ip : List ℕ) → length ip ≡ 4 → show_ip ip ≢ []
show_ip-ne-nil [] four = absurd (omega (arith, four))
show_ip-ne-nil (n ∷ ip) four = join-ne-nil n ip
