-- ===== src/Discovery/Client/CatchUp.antt =====
-- Rounds of a requester of tincd/discovery/client.go at a peer that keeps answering.
use tinc_boot.Prelude.{
  ◌<◌, ◌≤◌, ◌≡◌, ◌≢◌, refl, ap, sym, subst, ◌∙◌, true, false, List, [], ◌∷◌, some, arith, ◌⊎◌, inl,
  inr, Bool-cases, length, All, In,
}
use tinc_boot.Text.{Text}
use tinc_boot.Text.Strings.{byte_len}
use tinc_boot.Names.{IsName}
use tinc_boot.Config.Types.{Main}
use tinc_boot.Daemon.Disk.{Disk, calm}
use tinc_boot.Daemon.Hosts.Stored.{Stored, linked, linked-IsWritable, IsItem-of_IsName}
use tinc_boot.Daemon.Hosts.Add.{added, add_host-whole, added-Stored}
use tinc_boot.Boot.Exchange.Imports.{Ready, added-Ready, open_at}
use tinc_boot.Discovery.Ssd.{Entity, Ssd, can_be_merged, store}
use tinc_boot.Discovery.Ssd.Storage.{Json, Files, Faults}
use tinc_boot.Discovery.Client.{
  Network, Gathered, Visit, finish, merge_content, gather, gather_info, fetch_content,
  fetch_headers, run_rounds,
}
use tinc_boot.Discovery.Client.Rounds.{tried, merge_content-tried, gather-changed}
use tinc_boot.Discovery.Client.Missing.{missing, missing-stored, missing-none, missing-length}

-- A configuration directory that the program wrote, in which any host's file can be written.
abbrev pub IsKept : Disk → Type 0
IsKept disk = (m : Main) × Stored m disk × Ready disk

-- An entity whose name fits a file and a line of tinc.conf.
abbrev pub IsFitEntity : Entity → Type 0
IsFitEntity e = IsName e.name × (e.name ≢ []) × (byte_len e.name < 60000)

-- What a round does to a table that lacks something: one of the peer's entities is merged, and its
-- file is added to the configuration.
pub record Advance (content : Entity → Text) (ssd : Ssd) (disk : Disk) (es : List Entity)
    (after : Ssd) (disk' : Disk) : Type 0 where
  pub entity : Entity
  pub listed : In entity es
  pub newer : can_be_merged ssd entity ≡ true
  pub stored : after ≡ store ssd entity
  pub main : Main
  pub ready : Ready disk
  pub laid : disk' ≡ added entity.name (content entity) main ready.entries disk
  pub kept : IsKept disk'

abbrev pub start : Ssd → Disk → Gathered
start ssd disk = record { ssd = ssd; disk = disk; changed = false }

module _ (get : Network) (address : Text) (content : Entity → Text) where
  abbrev pub Answers : List Entity → Type 0
  Answers es = All (λ e. fetch_content get address e ≡ some (content e, e)) es

  gather-skip :
      (e : Entity) (es : List Entity) (st : Gathered)
      → can_be_merged st.ssd e ≡ false
      → gather calm get address (e ∷ es) st ≡ gather calm get address es st
  unfolding gather
  gather-skip e es st h = rw h refl

  merge-whole :
      (e : Entity) (ssd : Ssd) (disk : Disk) (m : Main) (r : Ready disk)
      → can_be_merged ssd e ≡ true
      → IsFitEntity e
      → Stored m disk
      → merge_content calm (content e) e (start ssd disk) ≡ record {
        ssd = store ssd e;
        disk = added e.name (content e) m r.entries disk;
        changed = true;
      }
  unfolding tried open_at
  merge-whole e ssd disk m r h (clean, ne, short) s =
      merge_content-tried calm (content e) e (start ssd disk) refl
      ∙ rw h (rw (add_host-whole e.name (content e) m disk clean ne (open_at e.name disk r) s) refl)

  gather-take :
      (e : Entity) (es : List Entity) (ssd : Ssd) (disk : Disk) (m : Main) (r : Ready disk)
      → can_be_merged ssd e ≡ true
      → fetch_content get address e ≡ some (content e, e)
      → IsFitEntity e
      → Stored m disk
      → gather calm get address (e ∷ es) (start ssd disk) ≡ record {
        ssd = store ssd e;
        disk = added e.name (content e) m r.entries disk;
        changed = true;
      }
  unfolding gather
  gather-take e es ssd disk m r h f fit s =
      rw h
        (rw f (rw (merge-whole e ssd disk m r h fit s) (gather-changed calm get address es _ refl)))

  added-IsKept :
      (e : Entity) (disk : Disk) (m : Main) (r : Ready disk)
      → IsFitEntity e
      → Stored m disk
      → IsKept (added e.name (content e) m r.entries disk)
  added-IsKept e disk m r (clean, ne, short) s = (
    linked e.name m,
    added-Stored e.name (content e) m r.entries disk
        (linked-IsWritable e.name m (IsItem-of_IsName e.name clean ne short) s.writable) s,
    added-Ready e.name (content e) m disk r,
  )

  pub gather-advances :
      (es : List Entity) (ssd : Ssd) (disk : Disk)
      → Answers es
      → All IsFitEntity es
      → IsKept disk
      → (missing ssd es ≡ 0) × (gather calm get address es (start ssd disk) ≡ start ssd disk)
        ⊎ Advance content ssd disk es
            (gather calm get address es (start ssd disk)).ssd
            (gather calm get address es (start ssd disk)).disk
  unfolding missing gather
  gather-advances [] ssd disk a f k = inl (refl, refl)
  gather-advances (e ∷ es) ssd disk a f (m, s, r) = elim (Bool-cases (can_be_merged ssd e)) [
    | inl h ↦
        let taken = gather-take e es ssd disk m r h a.0 f.0 s in
        inr (record {
          entity = e;
          listed = inl refl;
          newer = h;
          stored = ap (λ g. g.ssd) taken;
          main = m;
          ready = r;
          laid = ap (λ g. g.disk) taken;
          kept =
              subst (λ d. IsKept d) (sym (ap (λ g. g.disk) taken)) (added-IsKept e disk m r f.0 s);
        })
    | inr h ↦
        let skipped = gather-skip e es (start ssd disk) h in
        elim (gather-advances es ssd disk a.1 f.1 (m, s, r)) [
          | inl (none_left, same) ↦ inl (ground arith, skipped ∙ same)
          | inr v ↦ inr (record {
            entity = v.entity;
            listed = inr v.listed;
            newer = v.newer;
            stored = ap (λ g. g.ssd) skipped ∙ v.stored;
            main = v.main;
            ready = v.ready;
            laid = ap (λ g. g.disk) skipped ∙ v.laid;
            kept = subst (λ d. IsKept d) (sym (ap (λ g. g.disk) skipped)) v.kept;
          })
        ]
  ]

  module _ (json : Json) (es : List Entity) where
    abbrev pub IsSteady : Visit → Type 0
    IsSteady v = (v.system ≡ calm) × (v.get ≡ get)

    finish-state :
        (faults : Faults) (tmp : Text) (st : Gathered) (files : Files)
        → ((finish json faults tmp st files).ssd ≡ st.ssd)
          × ((finish json faults tmp st files).disk ≡ st.disk)
    unfolding finish
    finish-state faults tmp st files = (ground arith, ground arith)

    pub round-whole :
        (v : Visit) (ssd : Ssd) (disk : Disk) (files : Files)
        → fetch_headers json get address ≡ some es
        → IsSteady v
        → ((gather_info json v.system v.faults v.tmp v.get address ssd disk files).ssd
            ≡ (gather calm get address es (start ssd disk)).ssd)
          × ((gather_info json v.system v.faults v.tmp v.get address ssd disk files).disk
              ≡ (gather calm get address es (start ssd disk)).disk)
    unfolding gather_info
    round-whole v ssd disk files h (s, g) = rw s (
        rw g (
          rw (h, gather_info)
            (finish-state v.faults v.tmp (gather calm get address es (start ssd disk)) files)))

    rounds-missing :
        (visits : List Visit) (ssd : Ssd) (disk : Disk) (files : Files)
        → fetch_headers json get address ≡ some es
        → Answers es
        → All IsFitEntity es
        → IsKept disk
        → All IsSteady visits
        → missing ssd es ≤ length visits
        → missing (run_rounds json address visits ssd disk files).0 es ≡ 0
    unfolding run_rounds
    rounds-missing [] ssd disk files g a f k s h = omega arith
    rounds-missing (v ∷ visits) ssd disk files g a f k s h =
        let (table, config) = round-whole v ssd disk files g s.0 in
        let r = gather_info json v.system v.faults v.tmp v.get address ssd disk files in
        elim (gather-advances es ssd disk a f k) [
          | inl (full, same) ↦
              rounds-missing visits r.ssd r.disk r.files g a f
                (subst (λ d. IsKept d) (sym (config ∙ ap (λ x. x.disk) same)) k) s.1
                (subst (λ t. missing t es ≤ length visits) (sym (table ∙ ap (λ x. x.ssd) same))
                  (omega (arith, full)))
          | inr w ↦
              rounds-missing visits r.ssd r.disk r.files g a f
                (subst (λ d. IsKept d) (sym config) w.kept) s.1
                (subst (λ t. missing t es ≤ length visits) (sym (table ∙ w.stored))
                  (omega (arith, missing-stored ssd w.entity es w.newer w.listed)))
        ]

    -- Where no call of the operating system on the configuration fails, on a directory that the program
    -- wrote, and a peer answers every round with the same list of entities and with the entity and a
    -- file for each, whose names are clean, not empty and shorter than 60000 bytes: after as many rounds
    -- as the list is long, the table takes nothing more of it, whatever the savings of the table meet.
    pub run_rounds-catch_up :
        (visits : List Visit) (ssd : Ssd) (disk : Disk) (files : Files)
        → fetch_headers json get address ≡ some es
        → Answers es
        → All IsFitEntity es
        → IsKept disk
        → All IsSteady visits
        → length es ≤ length visits
        → All (λ e. can_be_merged (run_rounds json address visits ssd disk files).0 e ≡ false) es
    run_rounds-catch_up visits ssd disk files g a f k s h =
        missing-none (run_rounds json address visits ssd disk files).0 es
          (rounds-missing visits ssd disk files g a f k s (omega (arith, missing-length ssd es)))
