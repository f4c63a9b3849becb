-- ===== src/Monitor/Index/Runs.antt =====
-- What a run of `indexConnectTo` of domain/monitor/service.go leaves.
use tinc_boot.Prelude.{
  ◌≡◌, refl, ap, ◌∙◌, sym, subst, Bool, true, false, not, ◌&&◌, ◌||◌, List, [], ◌∷◌, ◌++◌, none,
  some, if◌then◌else◌, All, arith, Bool-cases, inl, inr, append_assoc,
}
use tinc_boot.Text.{Text, codes, equal, equal_iff, equal_refl}
use tinc_boot.Text.Strings.{contains}
use tinc_boot.Names.{IsName}
use tinc_boot.Dict.{Dict}
use tinc_boot.Daemon.Disk.{Disk, calm, Item, file, directory, write_file}
use tinc_boot.Monitor.Index.{
  Matches, public_names, prepend_link, link_missing, index_conf, index_connect_to,
}
use tinc_boot.Monitor.Index.Links.{links, IsRegexp, links-prepend_link}

abbrev pub any_equal : Text → List Text → Bool
any_equal name [] = false
any_equal name (p ∷ ps) = equal p name || any_equal name ps

-- Whether a host other than the node itself has a file that mentions an address.
unfoldable pub is_public_host : Text → Text → Dict Item → Bool
is_public_host self name [] = false
is_public_host self name ((n, directory) ∷ rest) = is_public_host self name rest
is_public_host self name ((n, file content) ∷ rest) =
    (equal n name && (not (equal n self) && contains content (codes "Address")))
    || is_public_host self name rest

-- What the loop over `names` makes of `text`.
record Linked (names : List Text) (text text' : Text) : Type 0 where
  links_exactly : (name : Text) → links name text' ≡ (any_equal name names || links name text)
  -- what the loop put before the old text
  added : Text
  keeps : text' ≡ added ++ text

linked_already :
    (p name text : Text) (others : Bool)
    → links p text ≡ true
    → (others || links name text) ≡ ((equal p name || others) || links name text)
linked_already p name text others h = elim (Bool-cases (equal p name)) [
  | inl e ↦
      let same : links name text ≡ true =
        subst (λ n. links n text ≡ true) ((equal_iff p name).0 e) h in
      rw e (rw same (ground arith))
  | inr e ↦ rw e refl
]

linked_now :
    (p name text : Text) (others : Bool)
    → IsName p
    → (others || links name (prepend_link p text)) ≡ ((equal p name || others) || links name text)
linked_now p name text others h = ground (arith, links-prepend_link name p text h)

prepend_link-append : (p text : Text) → prepend_link p text ≡ prepend_link p [] ++ text
unfolding prepend_link
prepend_link-append p text =
    ap (λ t. codes "ConnectTo = " ++ t) (sym (append_assoc p (b'\n' ∷ []) text))

link_missing-step :
    (matches : Matches) (p : Text) (names : List Text) (text : Text) (b : Bool)
    → IsRegexp matches
    → IsName p
    → links p text ≡ b
    → link_missing matches (p ∷ names) text
      ≡ link_missing matches names (if b then text else prepend_link p text)
unfolding link_missing
link_missing-step matches p names text b r h e = ground (arith, r p text h)

link_missing-Linked :
    (matches : Matches) (names : List Text) (text : Text)
    → IsRegexp matches
    → All IsName names
    → (text' : Text) × (link_missing matches names text ≡ some text') × Linked names text text'
link_missing-Linked matches [] text r h = (
  text,
  unfold link_missing in refl,
  record { links_exactly = λ name. refl; added = []; keeps = refl },
)
link_missing-Linked matches (p ∷ names) text r h = elim (Bool-cases (links p text)) [
  | inl e ↦
      let (text', runs, l) = link_missing-Linked matches names text r h.1 in
      (
        text',
        link_missing-step matches p names text true r h.0 e ∙ runs,
        record {
          links_exactly =
              λ name. l.links_exactly name ∙ linked_already p name text (any_equal name names) e;
          added = l.added;
          keeps = l.keeps;
        },
      )
  | inr e ↦
      let (text', runs, l) = link_missing-Linked matches names (prepend_link p text) r h.1 in
      (
        text',
        link_missing-step matches p names text false r h.0 e ∙ runs,
        record {
          links_exactly =
              λ name. l.links_exactly name ∙ linked_now p name text (any_equal name names) h.0;
          added = l.added ++ prepend_link p [];
          keeps =
              l.keeps
              ∙ ap (λ t. l.added ++ t) (prepend_link-append p text)
              ∙ sym (append_assoc l.added (prepend_link p []) text);
        },
      )
]

link_missing-linked :
    (matches : Matches) (names : List Text) (text : Text)
    → IsRegexp matches
    → All IsName names
    → All (λ p. links p text ≡ true) names
    → link_missing matches names text ≡ some text
link_missing-linked matches [] text r h k = unfold link_missing in refl
link_missing-linked matches (p ∷ names) text r h k =
    link_missing-step matches p names text true r h.0 k.0
    ∙ link_missing-linked matches names text r h.1 k.1

public_names_lem :
    (self : Text) (entries : Dict Item)
    → All (λ e. IsName e.0) entries
    → (names : List Text) × (public_names calm self entries ≡ some names)
      × All IsName names
      × ((name : Text) → any_equal name names ≡ is_public_host self name entries)
unfolding public_names is_public_host
public_names_lem self [] h = ([], refl, tt, λ name. refl)
public_names_lem self ((n, directory) ∷ rest) h = public_names_lem self rest h.1
public_names_lem self ((n, file content) ∷ rest) h =
    let (names, runs, clean, same) = public_names_lem self rest h.1 in
    elim (Bool-cases (equal n self)) [
      | inl e ↦ (names, rw e runs, clean, λ name. ground (arith, same name))
      | inr e ↦ elim (Bool-cases (contains content (codes "Address"))) [
        | inl a ↦
            (n ∷ names, rw e (rw runs (rw a refl)), (h.0, clean), λ name. ground (arith, same name))
        | inr a ↦ (names, rw e (rw runs (rw a refl)), clean, λ name. ground (arith, same name))
      ]
    ]

linked-All :
    (names : List Text) (text : Text)
    → ((name : Text) → any_equal name names ≡ true → links name text ≡ true)
    → All (λ p. links p text ≡ true) names
linked-All [] text h = tt
linked-All (p ∷ names) text h =
    (h p (rw (equal_refl p) refl), linked-All names text (λ name e. h name (ground (arith))))

module _ (matches : Matches) (self content : Text) (entries : Dict Item) where
  abbrev pub before_index : Disk
  before_index = record { conf = some content; hosts = some entries }

  abbrev pub after_index : Text → Disk
  after_index text = record { conf = some text; hosts = some entries }

  -- With a regular expression matcher that means what the pattern says, names of hosts without symbols
  -- and no failing call, `indexConnectTo` rewrites tinc.conf so that a name is linked by a `ConnectTo`
  -- line exactly when it was before or when another host of that name has a file that mentions an
  -- address. The lines come before the old text, which is kept, and a second run changes nothing.
  pub index_connect_to_lem :
      IsRegexp matches
      → All (λ e. IsName e.0) entries
      → (text : Text) × (index_connect_to matches calm self before_index ≡ (after_index text, none))
        × ((name : Text)
            → links name text ≡ (is_public_host self name entries || links name content))
        × ((added : Text) × (text ≡ added ++ content))
        × (index_connect_to matches calm self (after_index text) ≡ (after_index text, none))
  unfolding index_connect_to index_conf write_file
  index_connect_to_lem r h =
      let (names, listed, clean, same) = public_names_lem self entries h in
      let (text, runs, l) = link_missing-Linked matches names content r clean in
      let again =
        link_missing-linked matches names text r clean
          (linked-All names text (λ name e. l.links_exactly name ∙ rw e refl)) in
      (
        text,
        ground (arith),
        λ name. l.links_exactly name ∙ ap (λ b. b || links name content) (same name),
        (l.added, l.keeps),
        ground (arith),
      )
