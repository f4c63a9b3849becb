-- ===== src/Discovery/Ssd/Storage.antt =====
-- The table's file: `Marshal`, `Unmarshal`, `SaveFile`, `ReadFile`, `Save`, `Read` and `Filename` of
-- tincd/discovery/ssd.go. Files are a map from paths to contents, and each call of the operating
-- system may fail as the given faults say.
use tinc_boot.Prelude.{
  ◌≡◌, refl, ◌∙◌, Option-cases, inl, inr, Bool, false, Option, none, some, List, [], ◌∷◌, arith,
  if◌then◌else◌,
}
use tinc_boot.Text.{Text, equal, equal_iff, equal_refl}
use tinc_boot.Dict.{Dict, lookup, insert, erase, IsMap, values, lookup-insert, lookup-erase}
use tinc_boot.Discovery.Ssd.{Entity, Ssd, new_ssd, header}
use tinc_boot.Discovery.Ssd.Versions.{known}
use tinc_boot.Discovery.Ssd.Keyed.{IsKeyed}

-- encoding/json at `[]Entity`: what is encoded is decoded to itself.
pub record Json : Type 0 where
  pub encode : List Entity → Text
  pub decode : Text → Option (List Entity)
  pub decode-encode : (es : List Entity) → decode (encode es) ≡ some es

pub record Faults : Type 0 where
  pub create : Bool
  -- a failed write leaves this much in the file
  pub write : Option Text
  pub sync : Bool
  pub close : Bool
  pub rename : Bool
  pub remove : Bool

abbrev pub no_faults : Faults
no_faults = record {
  create = false;
  write = none;
  sync = false;
  close = false;
  rename = false;
  remove = false;
}

pub data SaveError : Type 0 where
  create_temp marshal_entities sync_changes close_temp swap_temp : SaveError

pub data ReadError : Type 0 where
  open_file decode_file : ReadError

abbrev pub Files : Type 0
Files = Dict Text

-- The loop of `Unmarshal`: `data[v.Name] = v`, a later entry over an earlier one.
unfoldable pub fill : Dict Entity → List Entity → Dict Entity
fill data_map [] = data_map
fill data_map (v ∷ items) = fill (insert v.name v data_map) items

module _ (json : Json) where
  -- `Marshal`
  unfoldable pub marshal : Ssd → Text
  unfolding header
  marshal ssd = json.encode (header ssd)

  -- `Unmarshal`; `none` is the decoder's error.
  unfoldable pub unmarshal : Text → Ssd → Option Ssd
  unfolding fill
  unmarshal content ssd = elim (json.decode content) [
    | none ↦ none
    | some items ↦ some (record ssd { entities = fill [] items })
  ]

  -- `_ = os.Remove(f.Name())`
  unfoldable pub remove_temp : Faults → Text → Files → Files
  remove_temp faults tmp fs = if faults.remove then fs else erase tmp fs

  -- `SaveFile`, with the name that `os.CreateTemp` chooses for the temporary file.
  unfoldable pub save_file : Faults → Text → Text → Ssd → Files → Files × Option SaveError
  unfolding marshal remove_temp
  save_file faults tmp filename ssd fs =
      if faults.create then (fs, some create_temp) else elim faults.write [
        | some part ↦ (remove_temp faults tmp (insert tmp part fs), some marshal_entities)
        | none ↦
            let written = insert tmp (marshal ssd) fs in
            if faults.sync
            then (remove_temp faults tmp written, some sync_changes)
            else if faults.close
            then (remove_temp faults tmp written, some close_temp)
            else if faults.rename
            then (remove_temp faults tmp written, some swap_temp)
            else (insert filename (marshal ssd) (erase tmp written), none)
      ]

  -- `ReadFile`: a missing file is no error and changes nothing. `denied` is any other failure to
  -- open it.
  unfoldable pub read_file : Bool → Text → Files → Ssd → Ssd × Option ReadError
  unfolding unmarshal
  read_file denied filename fs ssd = elim (lookup filename fs) [
    | none ↦ (ssd, none)
    | some content ↦ if denied then (ssd, some open_file) else elim (unmarshal content ssd) [
      | none ↦ (ssd, some decode_file)
      | some loaded ↦ (loaded, none)
    ]
  ]

  -- `Save` and `Read`: the same on the table's own file.
  unfoldable pub save : Faults → Text → Ssd → Files → Files × Option SaveError
  unfolding save_file
  save faults tmp ssd fs = save_file faults tmp ssd.file ssd fs

  unfoldable pub read : Bool → Files → Ssd → Ssd × Option ReadError
  unfolding read_file
  read denied fs ssd = read_file denied ssd.file fs ssd

  temp_erased :
      (tmp j : Text) (c : Text) (fs : Files)
      → lookup tmp fs ≡ none
      → lookup j (erase tmp (insert tmp c fs)) ≡ lookup j fs
  temp_erased tmp j c fs h =
      ground
        (arith, lookup-erase tmp j (insert tmp c fs), lookup-insert tmp j c fs, equal_iff tmp j)

  module _ (faults : Faults) (tmp filename : Text) (ssd : Ssd) (fs : Files)
      (fresh : lookup tmp fs ≡ none) where
    -- `SaveFile` is all or nothing, where no file has the temporary file's name. When it returns no error the file holds the whole table and no
    -- other file has changed, the temporary file included. When it returns an error, no file has
    -- changed, the table's own file included, if the clean-up of the temporary file succeeds.
    pub save_file-atomic :
        ((save_file faults tmp filename ssd fs).1 ≡ none
          → (j : Text)
          → lookup j (save_file faults tmp filename ssd fs).0
            ≡ (if equal filename j then some (marshal ssd) else lookup j fs))
        × ((e : SaveError)
            → (save_file faults tmp filename ssd fs).1 ≡ some e
            → faults.remove ≡ false
            → (j : Text) → lookup j (save_file faults tmp filename ssd fs).0 ≡ lookup j fs)
    unfolding save_file
    save_file-atomic = (
      λ h j. ground (
        arith,
        temp_erased tmp j (marshal ssd) fs fresh,
        lookup-insert filename j (marshal ssd) (erase tmp (insert tmp (marshal ssd) fs)),
      ),
      λ e h r j. elim (Option-cases faults.write) [
        | inl w ↦ ground (arith, temp_erased tmp j (marshal ssd) fs fresh)
        | inr (part, w) ↦ ground (arith, temp_erased tmp j part fs fresh)
      ],
    )

-- The entries of a map, written one by one over another, win over it.
lookup-fill :
    (m acc : Dict Entity) (name : Text)
    → IsMap m
    → ((n : Text) (e : Entity) → lookup n m ≡ some e → e.name ≡ n)
    → lookup name (fill acc (values m))
      ≡ (elim (lookup name m) [ none ↦ lookup name acc | some e ↦ some e ])
unfolding fill values lookup
lookup-fill [] acc name h k = refl
lookup-fill ((j, v) ∷ m) acc name h k =
    let own : v.name ≡ j = k j v (ground (arith, equal_iff j j)) in
    let later =
      lookup-fill m (insert v.name v acc) name h.1
        (λ n e p. k n e (ground (arith, equal_iff j n))) in
    ground
      (arith, own, later, lookup-insert v.name name v acc, equal_iff j name, equal_iff v.name name)

module _ (json : Json) where
  unmarshal-marshal :
      (ssd blank : Ssd)
      → unmarshal json (marshal json ssd) blank
        ≡ some (record blank { entities = fill [] (header ssd) })
  unfolding unmarshal marshal
  unmarshal-marshal ssd blank = rw (json.decode-encode (header ssd), unmarshal)

  read_file-stored :
      (filename : Text) (fs : Files) (ssd blank : Ssd)
      → lookup filename fs ≡ some (marshal json ssd)
      → read_file json false filename fs blank
        ≡ (record blank { entities = fill [] (header ssd) }, none)
  unfolding read_file
  read_file-stored filename fs ssd blank h =
      rw (h, read_file) (rw (unmarshal-marshal ssd blank, read_file))

  read-stored :
      (fs : Files) (ssd : Ssd)
      → lookup ssd.file fs ≡ some (marshal json ssd)
      → read json false fs (new_ssd ssd.file)
        ≡ (record { entities = fill [] (header ssd); file = ssd.file }, none)
  unfolding read new_ssd
  read-stored fs ssd h = read_file-stored ssd.file fs ssd (new_ssd ssd.file) h

  save-stored :
      (ssd : Ssd) (tmp : Text) (fs : Files)
      → lookup tmp fs ≡ none
      → lookup ssd.file (save json no_faults tmp ssd fs).0 ≡ some (marshal json ssd)
  unfolding save save_file
  save-stored ssd tmp fs fresh =
      (save_file-atomic json no_faults tmp ssd.file ssd fs fresh).0 refl ssd.file ∙ rw equal_refl

  known-fill :
      (ssd : Ssd) (name : Text) → IsKeyed ssd → lookup name (fill [] (header ssd)) ≡ known ssd name
  unfolding header lookup
  known-fill ssd name k = ground (arith, lookup-fill ssd.entities [] name k.is_map k.own_name)

  -- A table whose entities are filed under their own names, once each, and that was saved with no
  -- failing call while no file had the temporary file's name, is read back by a new table without an
  -- error: every name has the entry that it had.
  pub read-save :
      (ssd : Ssd) (tmp : Text) (fs : Files) (name : Text)
      → IsKeyed ssd
      → lookup tmp fs ≡ none
      → ((read json false (save json no_faults tmp ssd fs).0 (new_ssd ssd.file)).1 ≡ none)
        × (known (read json false (save json no_faults tmp ssd fs).0 (new_ssd ssd.file)).0 name
            ≡ known ssd name)
  read-save ssd tmp fs name k fresh =
      rw (read-stored (save json no_faults tmp ssd fs).0 ssd (save-stored ssd tmp fs fresh))
        (refl, known-fill ssd name k)
