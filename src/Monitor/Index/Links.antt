-- ===== src/Monitor/Index/Links.antt =====
-- The `ConnectTo` lines that domain/monitor/service.go adds to tinc.conf.
use tinc_boot.Prelude.{
  ℕ, ◌≡◌, refl, ap, Bool, true, false, ◌&&◌, ◌||◌, List, [], ◌∷◌, ◌++◌, some, if◌then◌else◌, ◌==◌,
  drop, All-append, arith,
}
use tinc_boot.Text.{Text, codes, equal}
use tinc_boot.Text.Strings.{split, has_prefix}
use tinc_boot.Text.Strings.Trim.{HasNo, split-line}
use tinc_boot.Names.{IsName, is_enabled}
use tinc_boot.Monitor.Index.{Matches, connect_pattern, prepend_link}

-- The spaces of a text's start, cut.
unfoldable skip_spaces : Text → Text
skip_spaces [] = []
skip_spaces (c ∷ cs) = let rest = skip_spaces cs in if c == 32 then rest else c ∷ cs

unfoldable value_is : Text → Text → Bool
unfolding skip_spaces
value_is name [] = false
value_is name (c ∷ cs) = c == b'=' && equal (skip_spaces cs) name

-- Whether a line links a name: `ConnectTo`, any spaces, `=`, any spaces, and the name.
unfoldable pub is_link : Text → Text → Bool
unfolding value_is skip_spaces
is_link name line = has_prefix line (codes "ConnectTo") && value_is name (skip_spaces (drop 9 line))

unfoldable any_link : Text → List Text → Bool
unfolding is_link
any_link name [] = false
any_link name (line ∷ lines) = is_link name line || any_link name lines

-- Whether one of a text's lines links a name.
unfoldable pub links : Text → Text → Bool
unfolding any_link split
links name text = any_link name (split b'\n' text)

-- What the pattern of `indexConnectTo` means to `regexp.MatchString`, for a name without symbols.
abbrev pub IsRegexp : Matches → Type 0
IsRegexp matches =
    (name text : Text) → IsName name → matches (connect_pattern name) text ≡ some (links name text)

enabled : (c : ℕ) → is_enabled c ≡ true → ((c == 32) ≡ false) × ((c == b'\n') ≡ false)
unfolding is_enabled
enabled c h = ground arith

feedless : (name : Text) → IsName name → HasNo b'\n' name
feedless [] h = tt
feedless (c ∷ cs) h = ((enabled c h.0).1, feedless cs h.1)

skip_spaces-name : (name : Text) → IsName name → skip_spaces name ≡ name
unfolding skip_spaces
skip_spaces-name [] h = refl
skip_spaces-name (c ∷ cs) h = rw ((enabled c h.0).0) refl

is_link-prepended :
    (name p : Text) → IsName p → is_link name (codes "ConnectTo = " ++ p) ≡ equal p name
unfolding is_link value_is skip_spaces has_prefix
is_link-prepended name p h = rw (skip_spaces-name p h) refl

pub links-prepend_link :
    (name p text : Text)
    → IsName p
    → links name (prepend_link p text) ≡ (equal p name || links name text)
unfolding links prepend_link any_link
links-prepend_link name p text h =
    rw
      (split-line b'\n' (codes "ConnectTo = " ++ p) text (
        All-append (λ c. (c == b'\n') ≡ false) (codes "ConnectTo = ") p
          (
            refl,
            (
              refl,
              (refl, (refl, (refl, (refl, (refl, (refl, (refl, (refl, (refl, (refl, tt)))))))))),
            ),
          )
          (feedless p h)))
      (ap (λ b. b || links name text) (is_link-prepended name p h))
