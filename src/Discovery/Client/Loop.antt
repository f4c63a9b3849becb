-- ===== src/Discovery/Client/Loop.antt =====
-- The rounds of `runLoop` of tincd/discovery/client.go.
use tinc_boot.Prelude.{◌≡◌, refl, sym, subst, false, List, [], ◌∷◌, inl, inr, Option-cases, arith}
use tinc_boot.Text.{Text}
use tinc_boot.Daemon.Disk.{Disk, Env}
use tinc_boot.Discovery.Ssd.{Ssd}
use tinc_boot.Discovery.Ssd.Versions.{known, Grows, Grows-refl, Grows-trans, can_be_merged-Grows}
use tinc_boot.Discovery.Ssd.Keyed.{store-Grows}
use tinc_boot.Discovery.Ssd.Storage.{Json, Faults, Files}
use tinc_boot.Discovery.Client.{
  Gathered, gather, fetch_headers, finish, gather_info, Visit, run_rounds,
}
use tinc_boot.Discovery.Client.Rounds.{AtMostOne, gather-AtMostOne}

AtMostOne-Grows :
    (system : Env) (ssd : Ssd) (st : Gathered) (name : Text)
    → AtMostOne system ssd st
    → Grows (known ssd name) (known st.ssd name)
AtMostOne-Grows system ssd st name (inl (off, same)) =
    subst (λ s. Grows (known ssd name) (known s name)) (sym same) (Grows-refl (known ssd name))
AtMostOne-Grows system ssd st name (inr (on, m)) =
    subst (λ s. Grows (known ssd name) (known s name)) (sym m.stored)
      (store-Grows ssd m.entity name (can_be_merged-Grows ssd m.entity m.newer))

finish-ssd :
    (json : Json) (faults : Faults) (tmp : Text) (st : Gathered) (files : Files)
    → (finish json faults tmp st files).ssd ≡ st.ssd
unfolding finish
finish-ssd json faults tmp st files = ground arith

gather_info-Grows :
    (json : Json) (v : Visit) (address : Text) (ssd : Ssd) (disk : Disk) (files : Files)
    (name : Text)
    → Grows
        (known ssd name)
        (known (gather_info json v.system v.faults v.tmp v.get address ssd disk files).ssd name)
unfolding gather_info
gather_info-Grows json v address ssd disk files name =
    elim (Option-cases (fetch_headers json v.get address)) [
      | inl e ↦ rw (e, gather_info) (Grows-refl (known ssd name))
      | inr (entities, e) ↦
          rw (e, gather_info)
            (let st =
                gather v.system v.get address entities
                  (record { ssd = ssd; disk = disk; changed = false }) in
              subst (λ s. Grows (known ssd name) (known s name))
                (sym (finish-ssd json v.faults v.tmp st files))
                (AtMostOne-Grows v.system ssd st name (
                  gather-AtMostOne v.system v.get address entities
                    (record { ssd = ssd; disk = disk; changed = false }) refl)))
    ]

-- Over any number of rounds, whatever the peer answers and whatever fails, a name that is known stays
-- known, and its version never decreases.
pub run_rounds-Grows :
    (json : Json) (address : Text) (visits : List Visit) (ssd : Ssd) (disk : Disk) (files : Files)
    (name : Text)
    → Grows (known ssd name) (known (run_rounds json address visits ssd disk files).0 name)
unfolding run_rounds
run_rounds-Grows json address [] ssd disk files name = Grows-refl (known ssd name)
run_rounds-Grows json address (v ∷ visits) ssd disk files name =
    let r = gather_info json v.system v.faults v.tmp v.get address ssd disk files in
    Grows-trans (known ssd name) (known r.ssd name) _
      (gather_info-Grows json v address ssd disk files name)
      (run_rounds-Grows json address visits r.ssd r.disk r.files name)
