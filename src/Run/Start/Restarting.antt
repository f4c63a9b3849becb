-- ===== src/Run/Start/Restarting.antt =====
-- Two starts of cmd/tinc-boot/run/main_linux.go, one after the other, and the nodes that know the first.
use tinc_boot.Prelude.{
  ◌+◌, ◌≡◌, ◌≢◌, ◌-◌, ◌^◌, refl, ap, ◌∙◌, sym, subst, true, false, none, some, arith, List, [], ◌∷◌,
  lt→ltb,
}
use tinc_boot.Prelude.Int.{ℤ, pos, ◌<ℤ◌, pos_part, neg_part}
use tinc_boot.Text.{Text, equal, equal_refl}
use tinc_boot.Discovery.Ssd.{Entity, Ssd, new_ssd, replace, can_be_merged, is_newer}
use tinc_boot.Discovery.Ssd.Versions.{
  known, known-store, Grows, Grows-refl, Grows-trans, replace_if_newer-Grows,
}
use tinc_boot.Discovery.Ssd.Storage.{Json, read}
use tinc_boot.Run.Clock.{ticked, next_tick, increment}
use tinc_boot.Run.Clock.Ticks.{Kept, next_tick-Kept, next_tick-increment, increment-grows}
use tinc_boot.Run.Start.{
  Local, Startup, started, Running, restore, restore_all, make_hosts, execute,
}
use tinc_boot.Run.Start.Announcing.{Restored, count_and_read-Restored}

restore_all-Grows :
    (ssd : Ssd) (names : List Text) (name : Text)
    → Grows (known ssd name) (known (restore_all ssd names) name)
unfolding restore_all restore
restore_all-Grows ssd [] name = Grows-refl (known ssd name)
restore_all-Grows ssd (n ∷ names) name =
    Grows-trans (known ssd name) (known (restore ssd n) name)
      (known (restore_all (restore ssd n) names) name) (replace_if_newer-Grows ssd _ none tt name)
      (restore_all-Grows (restore ssd n) names name)

known-replace : (ssd : Ssd) (entity : Entity) → known (replace ssd entity) entity.name ≡ some entity
unfolding replace
known-replace ssd entity = known-store ssd entity entity.name ∙ rw (equal_refl entity.name) refl

module _ (json : Json) (su : Startup) (s : Running) (l : Local) where
  pub execute-Restored :
      (execute json su l).1 ≡ started s
      → (next_tick su.clock_denied su.clock_write l.clock
          ≡ ((execute json su l).0.clock, ticked s.tick))
        × ((read json su.table_denied l.files (new_ssd su.table_file)).1 ≡ none)
        × Restored json su s
            (make_hosts l.disk)
            s.tick
            (read json su.table_denied l.files (new_ssd su.table_file)).0
  unfolding execute
  execute-Restored h =
      ground (arith, count_and_read-Restored json su s (record l { disk = make_hosts l.disk }))

  known-replaced :
      (names : List Text) (ssd : Ssd) (name : Text)
      → s.ssd ≡ replace (restore_all ssd names) (record { name = s.self; version = s.tick })
      → equal s.self name ≡ false
      → Grows (known ssd name) (known s.ssd name)
  unfolding replace
  known-replaced names ssd name e other = rw e (
      rw (known-store (restore_all ssd names) (record { name = s.self; version = s.tick }) name)
        (rw other (restore_all-Grows ssd names name)))

  -- A start that succeeds has counted the clock and read its table; it runs under the tick that the
  -- clock gave, its own entry stands at that tick, and every other node that the table file knew is
  -- known at the version of the file or a later one.
  pub execute_lem :
      (execute json su l).1 ≡ started s
      → (next_tick su.clock_denied su.clock_write l.clock
          ≡ ((execute json su l).0.clock, ticked s.tick))
        × ((read json su.table_denied l.files (new_ssd su.table_file)).1 ≡ none)
        × (known s.ssd s.self ≡ some (record { name = s.self; version = s.tick }))
        × ((name : Text)
            → equal s.self name ≡ false
            → Grows
                (known (read json su.table_denied l.files (new_ssd su.table_file)).0 name)
                (known s.ssd name))
  execute_lem h =
      let (clock, loaded, (names, _, e)) = execute-Restored h in
      (
        clock,
        loaded,
        rw e (known-replace _ (record { name = s.self; version = s.tick })),
        λ name. known-replaced names _ name e,
      )

merged-known :
    (peer : Ssd) (name : Text) (v w : ℤ)
    → known peer name ≡ some (record { name = name; version = v })
    → v <ℤ w
    → can_be_merged peer (record { name = name; version = w }) ≡ true
unfolding can_be_merged is_newer
merged-known peer name v w h lt =
    ground (arith, lt→ltb (pos_part v + neg_part w) (pos_part w + neg_part v))

-- Where a start succeeds at a tick that is not the greatest int64, and a later start, under the
-- same name and on the clock that the first one left, succeeds too, the later tick is the next one
-- and is greater, and a table that knows the node at the first tick takes its entry at the second.
pub restart_lem :
    (json : Json) (su su' : Startup) (s s' : Running) (l l' : Local) (peer : Ssd)
    → (execute json su l).1 ≡ started s
    → (execute json su' l').1 ≡ started s'
    → l'.clock ≡ (execute json su l).0.clock
    → s'.self ≡ s.self
    → known peer s.self ≡ some (record { name = s.self; version = s.tick })
    → s.tick ≢ pos (2 ^ 63 - 1)
    → (s'.tick ≡ increment s.tick)
      × (s.tick <ℤ s'.tick)
      × (can_be_merged peer (record { name = s'.self; version = s'.tick }) ≡ true)
restart_lem json su su' s s' l l' peer h h' kept named knows small =
    let (clock, _, _, _) = execute_lem json su s l h in
    let (clock', _, _, _) = execute_lem json su' s' l' h' in
    let (text, fits) = subst Kept clock (next_tick-Kept su.clock_denied su.clock_write l.clock) in
    let next =
      next_tick-increment su'.clock_denied su'.clock_write s.tick s'.tick _ fits
        (ap (next_tick su'.clock_denied su'.clock_write) (sym (kept ∙ text)) ∙ clock') in
    let grows = increment-grows s.tick small in
    (next, rw next grows, rw named (merged-known peer s.self s.tick s'.tick knows (rw next grows)))
