-- ===== src/Discovery/Client/Watching.antt =====
-- The requesters of a client, over calls of `Watch` and `Forget`.
use tinc_boot.Prelude.{◌≡◌, ◌≢◌, ◌↔◌, refl, true, false, none, some, arith, inl, inr, Option-cases}
use tinc_boot.Text.{Text, equal_iff, equal_refl}
use tinc_boot.Dict.{lookup, lookup-insert, lookup-erase}
use tinc_boot.Discovery.Client.{Requester, Requesters, cancel, watch, forget}

-- Each requester stands under its own address and runs.
unfoldable pub IsLive : Requesters → Type 0
IsLive rqs =
    (address : Text) (rq : Requester)
    → lookup address rqs ≡ some rq
    → (rq.address ≡ address) × (rq.cancelled ≡ false)

-- `Watch` keeps requesters live, each under its own address, and afterwards the address is watched; it returns true exactly
-- when it was not, and leaves the other addresses alone.
pub watch_lem :
    (address : Text) (rqs : Requesters)
    → IsLive rqs
    → IsLive (watch address rqs).0
      × (lookup address (watch address rqs).0 ≢ none)
      × (((watch address rqs).1 ≡ true) ↔ (lookup address rqs ≡ none))
      × ((other : Text) → other ≢ address → lookup other (watch address rqs).0 ≡ lookup other rqs)
unfolding watch IsLive
watch_lem address rqs live = elim (Option-cases (lookup address rqs)) [
  | inr (rq, e) ↦ rw (e, watch) (live, (λ h. cc), ((λ h. cc), (λ h. cc)), λ other ne. refl)
  | inl e ↦
      rw (e, watch)
        (
          (λ other rq h. ground (
            arith,
            lookup-insert address other (record { address = address; cancelled = false }) rqs,
            equal_iff address other,
            live other rq,
          )),
          (λ h. ground (
            arith,
            lookup-insert address address (record { address = address; cancelled = false }) rqs,
            equal_refl address,
          )),
          ((λ h. refl), (λ h. refl)),
          λ other ne. ground (
            arith,
            lookup-insert address other (record { address = address; cancelled = false }) rqs,
            equal_iff address other,
          ),
        )
]

-- Where each requester stands under its own address and runs: `Forget` of a watched address returns its requester, cancelled; of any address it keeps the
-- requesters live, the address is watched no more, and the others are left alone.
pub forget_lem :
    (address : Text) (rqs : Requesters)
    → IsLive rqs
    → IsLive (forget address rqs).0
      × (lookup address (forget address rqs).0 ≡ none)
      × ((other : Text) → other ≢ address → lookup other (forget address rqs).0 ≡ lookup other rqs)
      × ((rq : Requester)
          → lookup address rqs ≡ some rq
          → (forget address rqs).1 ≡ some (cancel rq))
unfolding forget IsLive
forget_lem address rqs live = elim (Option-cases (lookup address rqs)) [
  | inl e ↦ rw (e, forget) (live, e, (λ other ne. refl), λ rq h. cc)
  | inr (rq, e) ↦
      rw (e, forget)
        (
          (λ other r h. ground (arith, lookup-erase address other rqs, live other r)),
          ground (arith, lookup-erase address address rqs, equal_refl address),
          (λ other ne. ground (arith, lookup-erase address other rqs, equal_iff address other)),
          λ r h. ground arith,
        )
]
