-- ===== src/Generator/Addresses.antt =====
-- `generateIP` of domain/generator/assemble.go.
use tinc_boot.Prelude.{
  ℕ, zero, suc, ◌+◌, ◌-◌, ◌<◌, ◌≤◌, ◌≡◌, refl, ap, ◌∙◌, subst, Bool, true, false, List, [], ◌∷◌,
  ◌++◌, Option, none, some, if◌then◌else◌, ltb, length, length-append, arith, All, All-append,
}
use tinc_boot.Text.{Text}
use tinc_boot.Text.Strings.{split}
use tinc_boot.Numbers.{parse_uint_bits}
use tinc_boot.Generator.{
  Draws, Outcome, ok, err, no_blank, prefix_parts, segments, draw_segments, generate_ip,
  prefix_too_long, invalid_prefix,
}

-- `rand.Intn(n)` is less than `n`.
unfoldable pub IsIntn : Draws → Type 0
IsIntn draws = (i n : ℕ) → 0 < n → draws i n < n

parse_byte : (part : Text) (n : ℕ) → parse_uint_bits 8 part ≡ some n → n < 256
unfolding parse_uint_bits
parse_byte part n h = ground arith

-- The parts of a prefix are bytes, one for each.
pub segments-bytes :
    (parts : List Text) (given : List ℕ)
    → segments parts ≡ some given
    → (length given ≡ length parts) × All (λ n. n < 256) given
unfolding segments
segments-bytes [] [] h = (refl, tt)
segments-bytes [] (n ∷ given) h = absurd (ground arith)
segments-bytes (part ∷ parts) given h =
    whole (parse_uint_bits 8 part) (segments parts) refl (λ more e. segments-bytes parts more e) h
  where
    whole :
        (a : Option ℕ) (r : Option (List ℕ))
        → parse_uint_bits 8 part ≡ a
        → ((more : List ℕ) → r ≡ some more → (length more ≡ length parts) × All (λ n. n < 256) more)
        → (elim a as (λ _. Option (List ℕ)) [
          | none ↦ none
          | some segment ↦ elim r as (λ _. Option (List ℕ)) [
            | none ↦ none
            | some more ↦ some (segment ∷ more)
          ]
        ])
          ≡ some given
        → (length given ≡ length (part ∷ parts)) × All (λ n. n < 256) given
    whole none r e rest k = absurd (ground arith)
    whole (some n) none e rest k = absurd (ground arith)
    whole (some n) (some more) e rest k =
        let (len, bytes) = rest more refl in
        subst (λ g. (length g ≡ length (part ∷ parts)) × All (λ n. n < 256) g) (inj k)
          (ap suc len, (parse_byte part n e, bytes))
      where
        inj : some (n ∷ more) ≡ some given → n ∷ more ≡ given
        inj k = cc

pub draw_segments-bytes :
    (draws : Draws) (i n : ℕ)
    → IsIntn draws
    → (length (draw_segments draws i n) ≡ n) × All (λ s. s < 256) (draw_segments draws i n)
unfolding draw_segments IsIntn
draw_segments-bytes draws i zero h = (refl, tt)
draw_segments-bytes draws i (suc n) h =
    let (len, bytes) = draw_segments-bytes draws (suc i) n h in
    (ap suc len, (ground (arith, h i 254, h i 253), bytes))

prefix_parts-length : (prefix : Text) → length (prefix_parts prefix) ≤ length (split b'.' prefix)
unfolding prefix_parts
prefix_parts-length prefix = shorter (split b'.' prefix)
  where
    shorter : (parts : List Text) → length (no_blank parts) ≤ length parts
    shorter [] = omega arith
    shorter ([] ∷ []) = omega arith
    shorter ((c ∷ cs) ∷ []) = omega arith
    shorter ([] ∷ other ∷ parts) = omega arith
    shorter ((c ∷ cs) ∷ other ∷ parts) = omega arith

-- Where `rand.Intn(n)` is less than `n`: an address that `generateIP` returns has four segments, each
-- a byte, and begins with the segments that the prefix names.
pub generate_ip_lem :
    (draws : Draws) (prefix : Text) (ip : List ℕ)
    → IsIntn draws
    → generate_ip draws prefix ≡ ok ip
    → (length ip ≡ 4)
      × All (λ s. s < 256) ip
      × (given : List ℕ) × (rest : List ℕ) × (segments (prefix_parts prefix) ≡ some given)
      × (ip ≡ given ++ rest)
unfolding generate_ip
generate_ip_lem draws prefix ip intn h =
    whole (ltb 4 (length (split b'.' prefix))) (segments (prefix_parts prefix)) refl refl h
  where
    n : ℕ
    n = length (prefix_parts prefix)

    short : ltb 4 (length (split b'.' prefix)) ≡ false → n ≤ 4
    short e = ground (arith, prefix_parts-length prefix)

    four : (a b : ℕ) → a ≡ n → b ≡ 4 - n → n ≤ 4 → a + b ≡ 4
    four a b p q r = omega arith

    whole :
        (long : Bool) (s : Option (List ℕ))
        → ltb 4 (length (split b'.' prefix)) ≡ long
        → segments (prefix_parts prefix) ≡ s
        → (if long then err prefix_too_long else elim s as (λ _. Outcome (List ℕ)) [
          | none ↦ err invalid_prefix
          | some given ↦ ok (given ++ draw_segments draws n (4 - n))
        ])
          ≡ ok ip
        → (length ip ≡ 4)
          × All (λ s. s < 256) ip
          × (given : List ℕ) × (rest : List ℕ) × (segments (prefix_parts prefix) ≡ some given)
          × (ip ≡ given ++ rest)
    whole true s p q k = absurd (ground arith)
    whole false none p q k = absurd (ground arith)
    whole false (some given) p q k =
        let (len, bytes) = segments-bytes (prefix_parts prefix) given q in
        let (drawn, drawn_bytes) = draw_segments-bytes draws n (4 - n) intn in
        subst
          (λ a.
            (length a ≡ 4)
            × All (λ s. s < 256) a
            × (g : List ℕ) × (r : List ℕ) × (segments (prefix_parts prefix) ≡ some g)
            × (a ≡ g ++ r))
          (inj k)
          (
            length-append given _ ∙ four _ _ len drawn (short p),
            All-append (λ s. s < 256) given _ bytes drawn_bytes,
            given,
            draw_segments draws n (4 - n),
            q,
            refl,
          )
      where
        inj :
            ok (given ++ draw_segments draws n (4 - n)) ≡ ok ip
            → given ++ draw_segments draws n (4 - n) ≡ ip
        inj k = cc
