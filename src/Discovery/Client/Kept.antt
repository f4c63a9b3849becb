-- ===== src/Discovery/Client/Kept.antt =====
-- What the rounds of `runLoop` of tincd/discovery/client.go keep at a peer that keeps answering.
use tinc_boot.Prelude.{◌≡◌, sym, subst, ◌∙◌, ap, true, some, List, [], ◌∷◌, inl, inr, In, All}
use tinc_boot.Text.{Text}
use tinc_boot.Config.Types.{Main}
use tinc_boot.Daemon.Disk.{Disk, calm}
use tinc_boot.Daemon.Hosts.Add.{added}
use tinc_boot.Boot.Exchange.Imports.{Ready}
use tinc_boot.Discovery.Ssd.{Entity, Ssd, can_be_merged, store}
use tinc_boot.Discovery.Ssd.Storage.{Json, Files}
use tinc_boot.Discovery.Client.{Network, Visit, gather, gather_info, fetch_headers, run_rounds}
use tinc_boot.Discovery.Client.CatchUp.{
  IsKept, IsFitEntity, Advance, start, Answers, IsSteady, gather-advances, round-whole,
}

module _ (get : Network) (address : Text) (content : Entity → Text) (json : Json) (es : List Entity)
    (P : Ssd → Disk → Type 0) where
  -- `P` is kept where an entity of the peer is merged and its file is added.
  abbrev pub Keeps : Type 0
  Keeps =
      (ssd : Ssd) (disk : Disk) (e : Entity) (m : Main) (r : Ready disk)
      → In e es
      → can_be_merged ssd e ≡ true
      → P ssd disk
      → P (store ssd e) (added e.name (content e) m r.entries disk)

  Advance-keeps :
      (ssd : Ssd) (disk : Disk) (after : Ssd) (disk' : Disk)
      → Keeps
      → P ssd disk
      → Advance content ssd disk es after disk'
      → P after disk'
  Advance-keeps ssd disk after disk' keep p v =
      subst (λ t. P t disk') (sym v.stored)
        (subst (λ d. P (store ssd v.entity) d) (sym v.laid)
          (keep ssd disk v.entity v.main v.ready v.listed v.newer p))

  pub run_rounds-keeps :
      (visits : List Visit) (ssd : Ssd) (disk : Disk) (files : Files)
      → Keeps
      → fetch_headers json get address ≡ some es
      → Answers get address content es
      → All IsFitEntity es
      → All (IsSteady get address content json es) visits
      → IsKept disk
      → P ssd disk
      → IsKept (run_rounds json address visits ssd disk files).1
        × P
            (run_rounds json address visits ssd disk files).0
            (run_rounds json address visits ssd disk files).1
  unfolding run_rounds
  run_rounds-keeps [] ssd disk files keep g a f s k p = (k, p)
  run_rounds-keeps (v ∷ visits) ssd disk files keep g a f s k p =
      let (table, config) = round-whole get address content json es v ssd disk files g s.0 in
      let r = gather_info json v.system v.faults v.tmp v.get address ssd disk files in
      elim (gather-advances get address content es ssd disk a f k) [
        | inl (full, same) ↦
            let to_table = sym (table ∙ ap (λ x. x.ssd) same) in
            let to_disk = sym (config ∙ ap (λ x. x.disk) same) in
            run_rounds-keeps visits r.ssd r.disk r.files keep g a f s.1
              (subst (λ d. IsKept d) to_disk k)
              (subst (λ t. P t r.disk) to_table (subst (λ d. P ssd d) to_disk p))
        | inr w ↦
            run_rounds-keeps visits r.ssd r.disk r.files keep g a f s.1
              (subst (λ d. IsKept d) (sym config) w.kept)
              (subst (λ t. P t r.disk) (sym table)
                (subst (λ d. P (gather calm get address es (start ssd disk)).ssd d) (sym config)
                  (Advance-keeps ssd disk _ _ keep p w)))
      ]
