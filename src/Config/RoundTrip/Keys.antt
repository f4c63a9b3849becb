-- ===== src/Config/RoundTrip/Keys.antt =====
-- A `Node` of tincd/config/types.go with the key that tincd appends to its file.
use tinc_boot.Prelude.{ℕ, ◌+◌, ◌<◌, ◌≡◌, refl, ap, ◌∙◌, false, List, [], ◌∷◌, ◌++◌, All, length}
use tinc_boot.Text.{Text, codes}
use tinc_boot.Text.Strings.{
  has_prefix, trim_right, byte_len, join, before, max_scan_token, scan_lines,
}
use tinc_boot.Text.Strings.Trim.{HasNo, scan_lines-append}
use tinc_boot.Config.Fields.{find_field}
use tinc_boot.Config.Parser.{
  ok, parse_named, parse_at, parse_value, unmarshal, unmarshal_lines, blob_lines, blob_name,
  blob_end,
}
use tinc_boot.Config.Parser.Lines.{from_line}
use tinc_boot.Config.Marshal.{marshal}
use tinc_boot.Config.Types.{Node, zero_node, node_fields}
use tinc_boot.Config.RoundTrip.Nodes.{IsWritableNode, marshal_node, pieces-Reads}

-- A line between the first and the last of a PEM block.
pub record IsPemLine (l : Text) : Type 0 where
  pub one_line : HasNo b'\n' l
  pub trimmed : trim_right l ≡ l
  pub short : byte_len l < max_scan_token
  pub inner : has_prefix l blob_end ≡ false

abbrev pub pem_begin : Text
pem_begin = codes "-----BEGIN RSA PUBLIC KEY-----"

abbrev pub pem_end : Text
pem_end = codes "-----END RSA PUBLIC KEY-----"

-- Lines, each with its line feed.
abbrev pub unlines : List Text → Text
unlines [] = []
unlines (l ∷ ls) = l ++ b'\n' ∷ unlines ls

abbrev pub closed : List Text → List Text
closed ls = ls ++ pem_end ∷ []

-- The block with these lines, as a file has it and as the parser keeps it.
abbrev pub pem_block : List Text → Text
pem_block ls = unlines (pem_begin ∷ closed ls)

abbrev pub pem_text : List Text → Text
pem_text ls = join (codes "\n") (pem_begin ∷ closed ls)

scan_lines-pem_end : scan_lines (unlines (pem_end ∷ [])) ≡ pem_end ∷ []
unfolding scan_lines
scan_lines-pem_end = refl

scan_lines-closed :
    (ls : List Text) → All IsPemLine ls → scan_lines (unlines (closed ls)) ≡ closed ls
scan_lines-closed [] h = scan_lines-pem_end
scan_lines-closed (l ∷ ls) h =
    scan_lines-append l (unlines (closed ls)) h.0.one_line h.0.trimmed h.0.short
    ∙ ap (◌∷◌ l) (scan_lines-closed ls h.1)

scan_lines-pem_begin :
    (rest : Text) → scan_lines (pem_begin ++ b'\n' ∷ rest) ≡ pem_begin ∷ scan_lines rest
unfolding scan_lines
scan_lines-pem_begin rest = refl

blob_lines-closed : (ls : List Text) → All IsPemLine ls → blob_lines (closed ls) ≡ (closed ls, [])
unfolding blob_lines has_prefix
blob_lines-closed [] h = refl
blob_lines-closed (l ∷ ls) h = rw h.0.inner (rw (blob_lines-closed ls h.1))

set_key :
    (n : Node) (at : ℕ) (v : Text)
    → parse_named at (blob_name pem_begin) v (node_fields n)
      ≡ ok (node_fields (record n { public_key = v }))
unfolding parse_named find_field parse_at parse_value node_fields blob_name before
set_key n at v = refl

pem_block-read :
    (n : Node) (idx : ℕ) (ls : List Text)
    → All IsPemLine ls
    → from_line idx (pem_block ls) (node_fields n)
      ≡ ok (node_fields (record n { public_key = pem_text ls }))
unfolding unmarshal_lines has_prefix
pem_block-read n idx ls h =
    ap (λ found. unmarshal_lines (length found) idx found (node_fields n))
      (scan_lines-pem_begin (unlines (closed ls)) ∙ ap (◌∷◌ pem_begin) (scan_lines-closed ls h))
    ∙ rw (blob_lines-closed ls h) (rw (set_key n (idx + length (closed ls) + 1) (pem_text ls)))

-- A host file that begins with what `Marshal` writes for a `Node` without a key and goes on with an RSA
-- public key in PEM, as tincd appends it, is read as that `Node` with the whole block as its key; the
-- lines of the block are shorter than 64 KiB and have no space or carriage return at their end.
pub unmarshal-keyed :
    (n : Node) (ls : List Text)
    → IsWritableNode n
    → All IsPemLine ls
    → unmarshal (marshal (node_fields n) ++ pem_block ls) (node_fields zero_node)
      ≡ ok (node_fields (record n { public_key = pem_text ls }))
unfolding unmarshal
unmarshal-keyed n ls w h =
    ap (λ s. from_line 0 (s ++ pem_block ls) (node_fields zero_node)) (marshal_node n w.no_key)
    ∙ (pieces-Reads n w).runs 0 (pem_block ls)
    ∙ pem_block-read n _ ls h
