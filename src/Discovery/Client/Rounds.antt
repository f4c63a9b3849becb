-- ===== src/Discovery/Client/Rounds.antt =====
-- One round, `gatherInfo` of tincd/discovery/client.go.
use tinc_boot.Prelude.{
  ◌≡◌, refl, subst, ◌∙◌, Bool, true, false, not, List, [], ◌∷◌, Option, none, some, arith,
  if◌then◌else◌, ◌⊎◌, inl, inr, Option-cases,
}
use tinc_boot.Text.{Text}
use tinc_boot.Daemon.Disk.{Disk, Env}
use tinc_boot.Daemon.Hosts.{HostError, add_host}
use tinc_boot.Discovery.Ssd.{
  Entity, Ssd, is_newer, can_be_merged, store, run_block, replace_if_newer,
}
use tinc_boot.Discovery.Client.{
  Network, Gathered, accepted, save_host, merge_content, gather, fetch_content,
}

-- The entity that a round merged: it was newer than what the table had, and the table has it because
-- `AddHost` of its content just succeeded.
pub record Merged (system : Env) (ssd : Ssd) (after : Gathered) : Type 0 where
  pub entity : Entity
  pub content : Text
  pub before : Disk
  pub written : add_host system entity.name content before ≡ (after.disk, none)
  pub newer : can_be_merged ssd entity ≡ true
  pub stored : after.ssd ≡ store ssd entity

merge_content-changed :
    (system : Env) (content : Text) (info : Entity) (st : Gathered)
    → st.changed ≡ true
    → merge_content system content info st ≡ st
unfolding merge_content
merge_content-changed system content info st h = rw h

-- After a merge nothing more of the round does anything.
pub gather-changed :
    (system : Env) (get : Network) (address : Text) (entities : List Entity) (st : Gathered)
    → st.changed ≡ true
    → gather system get address entities st ≡ st
unfolding gather
gather-changed system get address [] st h = refl
gather-changed system get address (entity ∷ entities) st h =
    let skipped = gather-changed system get address entities st h in
    elim (Option-cases (fetch_content get address entity)) [
      | inl e ↦ rw (e, gather) (either _ _ (can_be_merged st.ssd entity) skipped skipped)
      | inr ((content, info), e) ↦
          rw (e, gather)
            (either _ _ (can_be_merged st.ssd entity) skipped
              (rw (merge_content-changed system content info st h) skipped))
    ]
  where
    either : (a b : Gathered) (c : Bool) → a ≡ st → b ≡ st → (if not c then a else b) ≡ st
    either a b c p q = ground arith

-- What a call of `ReplaceIfNewer` comes to, by its test and the result of `AddHost`.
unfoldable pub tried : Bool → Disk × Option HostError → Entity → Gathered → Gathered
tried false w info st = record { ssd = st.ssd; disk = st.disk; changed = false }
tried true (disk, none) info st = record { ssd = store st.ssd info; disk = disk; changed = true }
tried true (disk, some _) info st = record { ssd = st.ssd; disk = disk; changed = false }

abbrev gathered : (Ssd × Disk) × Bool → Gathered
gathered ((ssd, disk), changed) = record { ssd = ssd; disk = disk; changed = changed }

pub merge_content-tried :
    (system : Env) (content : Text) (info : Entity) (st : Gathered)
    → st.changed ≡ false
    → merge_content system content info st
      ≡ tried (can_be_merged st.ssd info) (add_host system info.name content st.disk) info st
unfolding merge_content replace_if_newer save_host run_block can_be_merged tried
merge_content-tried system content info st h =
    unset st.changed _ _ h
    ∙ same (is_newer st.ssd info.name info.version) (add_host system info.name content st.disk)
  where
    unset : (c : Bool) (a b : Gathered) → c ≡ false → (if c then a else b) ≡ b
    unset c a b e = rw e

    same :
        (newer : Bool) (w : Disk × Option HostError)
        → gathered (
            if not newer
            then ((st.ssd, st.disk), false)
            else if not (accepted w.1)
            then ((st.ssd, w.0), false)
            else ((store st.ssd info, w.0), true))
          ≡ tried newer w info st
    same false w = refl
    same true (d, none) = refl
    same true (d, some e) = refl

tried_lem :
    (system : Env) (content : Text) (info : Entity) (st : Gathered)
    → ((newer : Bool) (w : Disk × Option HostError)
        → can_be_merged st.ssd info ≡ newer
        → add_host system info.name content st.disk ≡ w
        → (((tried newer w info st).changed ≡ false) × ((tried newer w info st).ssd ≡ st.ssd))
          ⊎ (((tried newer w info st).changed ≡ true)
              × Merged system st.ssd (tried newer w info st)))
unfolding tried
tried_lem system content info st false w n e = inl (refl, refl)
tried_lem system content info st true (d, some _) n e = inl (refl, refl)
tried_lem system content info st true (d, none) n e = inr (
  refl,
  record {
    entity = info;
    content = content;
    before = st.disk;
    written = e;
    newer = n;
    stored = refl;
  },
)

merge_content_lem :
    (system : Env) (content : Text) (info : Entity) (st : Gathered)
    → st.changed ≡ false
    → (((merge_content system content info st).changed ≡ false)
        × ((merge_content system content info st).ssd ≡ st.ssd))
      ⊎ (((merge_content system content info st).changed ≡ true)
          × Merged system st.ssd (merge_content system content info st))
merge_content_lem system content info st h = rw (merge_content-tried system content info st h) (
    tried_lem system content info st (can_be_merged st.ssd info)
      (add_host system info.name content st.disk) refl refl)

-- What a round may do to the table: nothing, or one merge.
abbrev pub AtMostOne : Env → Ssd → Gathered → Type 0
AtMostOne system ssd after =
    ((after.changed ≡ false) × (after.ssd ≡ ssd))
    ⊎ ((after.changed ≡ true) × Merged system ssd after)

-- The loop of `gatherInfo`, started with `changed` unset, whatever the peer answers and whatever fails, either leaves the table as
-- it was, or merges exactly one entity: one newer than what the table had under its name, stored
-- after `AddHost` of its content returned no error, and no later entity of the round changes the
-- table or the configuration again.
pub gather-AtMostOne :
    (system : Env) (get : Network) (address : Text) (entities : List Entity) (st : Gathered)
    → st.changed ≡ false
    → AtMostOne system st.ssd (gather system get address entities st)
unfolding gather
gather-AtMostOne system get address [] st h = inl (h, refl)
gather-AtMostOne system get address (entity ∷ entities) st h =
    let skipped = gather-AtMostOne system get address entities st h in
    elim (Option-cases (fetch_content get address entity)) [
      | inl e ↦ rw (e, gather) (either (can_be_merged st.ssd entity) _ _ skipped skipped)
      | inr ((content, info), e) ↦
          rw (e, gather)
            (either (can_be_merged st.ssd entity) _ _ skipped (
              merged content info (gather-AtMostOne system get address entities)
                (merge_content_lem system content info st h)))
    ]
  where
    either :
        (c : Bool) (a b : Gathered)
        → AtMostOne system st.ssd a
        → AtMostOne system st.ssd b
        → AtMostOne system st.ssd (if not c then a else b)
    either true a b p q = q
    either false a b p q = p

    merged :
        (content : Text) (info : Entity)
        → ((st' : Gathered)
            → st'.changed ≡ false
            → AtMostOne system st'.ssd (gather system get address entities st'))
        → AtMostOne system st.ssd (merge_content system content info st)
        → AtMostOne system st.ssd
            (gather system get address entities (merge_content system content info st))
    merged content info rest (inl (off, same)) =
        subst
          (λ s.
            AtMostOne system s
              (gather system get address entities (merge_content system content info st)))
          same (rest (merge_content system content info st) off)
    merged content info rest (inr (on, m)) =
        rw (gather-changed system get address entities (merge_content system content info st) on)
          (inr (on, m))
