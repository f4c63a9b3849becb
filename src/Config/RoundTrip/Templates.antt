-- ===== src/Config/RoundTrip/Templates.antt =====
-- The files that the templates of scripts/scripts.go make, read by tincd/config/parser.go.
use tinc_boot.Prelude.{
  ℕ, ◌+◌, ◌<◌, ◌^◌, ◌≡◌, refl, ap, ◌∙◌, sym, subst, true, List, [], ◌∷◌, ◌++◌, arith, All,
  append_assoc, append-nil, length,
}
use tinc_boot.Text.{Text, codes}
use tinc_boot.Text.Strings.{byte_len, scan_lines, trim_left, trim_right, trim_space, has_prefix}
use tinc_boot.Text.Strings.Trim.{scan_lines-append}
use tinc_boot.Numbers.{format_uint}
use tinc_boot.Config.Fields.{Field}
use tinc_boot.Config.Parser.{ok, parse_named, parse_line, is_comment, unmarshal, unmarshal_lines}
use tinc_boot.Config.Parser.Lines.{Reads, Reads-nil, Reads-append, from_line}
use tinc_boot.Config.Marshal.{is_zero, marshal_nonzero, marshal_scalar}
use tinc_boot.Config.Types.{Main, zero_main, main_fields}
use tinc_boot.Config.RoundTrip.{
  set_name, set_interface, set_local_discovery, set_connect_to, set_port, key_name, key_port,
  key_local_discovery, key_interface, key_connect_to,
}
use tinc_boot.Config.RoundTrip.Pieces.{IsItem, written_Reads, uint_line_Reads, bool_Reads}
use tinc_boot.Bootstrap.Gen.Files.{unlines, connect_lines, tinc_conf}

blank_runs :
    (n idx : ℕ) (rest : List Text) (fields : List Field)
    → unmarshal_lines (n + 1) idx ([] ∷ rest) fields ≡ unmarshal_lines n (idx + 1) rest fields
unfolding unmarshal_lines parse_line has_prefix is_comment trim_space trim_left trim_right
blank_runs n idx rest fields = ground arith

scan_blank : (t : Text) → scan_lines (b'\n' ∷ t) ≡ [] ∷ scan_lines t
scan_blank t =
    scan_lines-append [] t tt (unfold trim_right in refl) (unfold byte_len in omega arith)

-- A blank line is skipped.
pub blank_Reads : (fields : List Field) → Reads fields (b'\n' ∷ []) fields
blank_Reads fields = record {
  count = 1;
  runs = λ idx t.
      ap (λ ls. unmarshal_lines (length ls) idx ls fields) (scan_blank t)
      ∙ ap (λ k. unmarshal_lines k idx ([] ∷ scan_lines t) fields) (omega arith)
      ∙ blank_runs (length (scan_lines t)) idx (scan_lines t) fields;
}

pub end_Reads : (fields : List Field) → Reads fields (unlines []) fields
unfolding unlines
end_Reads fields = Reads-nil fields

pub blank_then :
    (lines : List Text) (fields next : List Field)
    → Reads fields (unlines lines) next
    → Reads fields (unlines ([] ∷ lines)) next
unfolding unlines
blank_then lines fields next r = Reads-append (b'\n' ∷ []) (unlines lines) (blank_Reads fields) r

-- A line that names a value, and the lines after it.
pub line_then :
    (k v : Text) (lines : List Text) (fields middle next : List Field)
    → Reads fields (k ++ (codes " = " ++ (v ++ b'\n' ∷ []))) middle
    → Reads middle (unlines lines) next
    → Reads fields (unlines ((k ++ (codes " = " ++ v)) ∷ lines)) next
unfolding unlines
line_then k v lines fields middle next first rest =
    subst (λ s. Reads fields s next) (sym (bracketed k v (unlines lines)))
      (Reads-append _ _ first rest)
  where
    bracketed :
        (k v rest : Text)
        → (k ++ (codes " = " ++ v)) ++ b'\n' ∷ rest
          ≡ (k ++ (codes " = " ++ (v ++ b'\n' ∷ []))) ++ rest
    bracketed k v rest =
        append_assoc k (codes " = " ++ v) (b'\n' ∷ rest)
        ∙ ap (λ t. k ++ (codes " = " ++ t)) (sym (append_assoc v (b'\n' ∷ []) rest))
        ∙ sym (append_assoc k (codes " = " ++ (v ++ b'\n' ∷ [])) rest)

yes_Reads :
    (fields next : List Field)
    → ((at : ℕ) → parse_named at (codes "LocalDiscovery") (codes "yes") fields ≡ ok next)
    → Reads fields (codes "LocalDiscovery" ++ (codes " = " ++ (codes "yes" ++ b'\n' ∷ []))) next
unfolding marshal_nonzero is_zero marshal_scalar
yes_Reads fields next sets =
    bool_Reads (codes "LocalDiscovery") key_local_discovery fields next true (λ e. sets) (λ e. cc)

connect_lines-Reads :
    (m : Main) (names old : List Text)
    → All IsItem names
    → Reads
        (main_fields (record m { connect_to = old }))
        (unlines (connect_lines names))
        (main_fields (record m { connect_to = old ++ names }))
unfolding connect_lines
connect_lines-Reads m [] old h =
    subst
      (λ l.
        Reads (main_fields (record m { connect_to = old })) (unlines ([] ∷ []))
          (main_fields (record m { connect_to = l })))
      (sym (append-nil old))
      (blank_then [] _ _ (end_Reads (main_fields (record m { connect_to = old }))))
connect_lines-Reads m (name ∷ names) old h = blank_then _ _ _ (
    line_then (codes "ConnectTo") name (connect_lines names) _
      (main_fields (record m { connect_to = old ++ name ∷ [] })) _
      (written_Reads (codes "ConnectTo") name key_connect_to _ _
        (λ at. set_connect_to m at old name) h.0.plain h.0.not_empty)
      (subst
        (λ l.
          Reads (main_fields (record m { connect_to = old ++ name ∷ [] }))
            (unlines (connect_lines names)) (main_fields (record m { connect_to = l })))
        (append_assoc old (name ∷ []) names) (connect_lines-Reads m names (old ++ name ∷ []) h.1)))

pub read_all :
    (s : Text) (fields next : List Field) → Reads fields s next → unmarshal s fields ≡ ok next
unfolding unmarshal
read_all s fields next r = ap (λ t. from_line 0 t fields) (sym (append-nil s)) ∙ r.runs 0 []

abbrev main_of_flags : Text → Text → ℕ → List Text → Main
main_of_flags name net port connect_to = record {
  name = name;
  port = port;
  local_discovery = true;
  interface = net;
  connect_to = connect_to;
}

tinc_conf-Reads :
    (name net : Text) (port : ℕ) (connect_to : List Text)
    → IsItem name
    → IsItem net
    → All IsItem connect_to
    → port < 2 ^ 16
    → Reads
        (main_fields zero_main)
        (tinc_conf name net port connect_to)
        (main_fields (main_of_flags name net port connect_to))
unfolding tinc_conf
tinc_conf-Reads name net port connect_to n i items p =
    let m1 = record zero_main { name = name } in
    let m2 = record m1 { local_discovery = true } in
    let m3 = record m2 { interface = net } in
    let m4 = record m3 { port = port } in
    let l4 = (codes "Port" ++ (codes " = " ++ format_uint port)) ∷ connect_lines connect_to in
    let l3 = (codes "Interface" ++ (codes " = " ++ net)) ∷ l4 in
    let l2 = (codes "LocalDiscovery" ++ (codes " = " ++ codes "yes")) ∷ l3 in
    blank_then ((codes "Name" ++ (codes " = " ++ name)) ∷ l2) _ _ (
      line_then (codes "Name") name l2 (main_fields zero_main) (main_fields m1) _
        (written_Reads (codes "Name") name key_name _ _ (λ at. set_name zero_main at name) n.plain
          n.not_empty)
        (line_then (codes "LocalDiscovery") (codes "yes") l3 _ (main_fields m2) _
          (yes_Reads (main_fields m1) (main_fields m2) (λ at. set_local_discovery m1 at))
          (line_then (codes "Interface") net l4 _ (main_fields m3) _
            (written_Reads (codes "Interface") net key_interface _ _ (λ at. set_interface m2 at net)
              i.plain i.not_empty)
            (line_then (codes "Port") (format_uint port) (connect_lines connect_to) _
              (main_fields m4) _
              (uint_line_Reads (codes "Port") key_port _ _ port (omega arith)
                (λ at. set_port m3 at port p))
              (connect_lines-Reads m4 connect_to [] items)))))

-- The tinc.conf that `gen` writes is read as a `Main` with the name, the port, the interface and the
-- peers that it was made from, and local discovery, where the port has 16 bits, and the name, the
-- interface and the peers have no space at either end, no line feed, and some but fewer than 60000
-- bytes.
pub unmarshal-tinc_conf :
    (name net : Text) (port : ℕ) (connect_to : List Text)
    → IsItem name
    → IsItem net
    → All IsItem connect_to
    → port < 2 ^ 16
    → unmarshal (tinc_conf name net port connect_to) (main_fields zero_main)
      ≡ ok (
          main_fields (record {
            name = name;
            port = port;
            local_discovery = true;
            interface = net;
            connect_to = connect_to;
          }))
unmarshal-tinc_conf name net port connect_to n i items p =
    read_all (tinc_conf name net port connect_to) _ _
      (tinc_conf-Reads name net port connect_to n i items p)
