-- ===== src/Monitor/Service/Runs.antt =====
-- Whole runs of the service of domain/monitor/service.go.
use mathlib.Core.List.{Mem}
use tinc_boot.Prelude.{
  ◌≡◌, ◌⊎◌, Bool, true, false, List, [], Option, none, some, arith, Bool-cases, inl, inr,
}
use tinc_boot.Text.{Text, equal}
use tinc_boot.Names.{clean_string}
use tinc_boot.Daemon.Disk.{Disk, Env}
use tinc_boot.Monitor.Nodes.{Node}
use tinc_boot.Monitor.Nodes.Distinct.{IsDistinct, nil-IsDistinct}
use tinc_boot.Monitor.Index.{Matches}
use tinc_boot.Monitor.Service.{
  Request, Service, api_push_node_file, cancel, ask_for_index, scheduled_reindex, forced_reindex,
  create_and_run, Step, push, watch, forget, kill, request, timer, forced, Reach, here, next,
}
use tinc_boot.Monitor.Service.Pursuit.{
  has_request, is_pursued, IsPursued, nil-IsPursued, weaken, Sound,
}
use tinc_boot.Monitor.Service.Steps.{watch-Sound, forget-Sound, request-Sound}

cancelled-pursued :
    (rs : List Request) (n : Node) (c : Bool)
    → is_pursued c rs n ≡ true
    → is_pursued true rs n ≡ true
unfolding is_pursued
cancelled-pursued rs n c h = ground arith

push-Sound :
    (env : Env) (param : Text) (body : Option Text) (s : Service)
    → Sound s
    → Sound (api_push_node_file env param body s).0
unfolding api_push_node_file
push-Sound env param none s h = elim (Bool-cases (equal (clean_string param) [])) [
  | inl e ↦ rw e h
  | inr e ↦ rw e h
]
push-Sound env param (some content) s h = elim (Bool-cases (equal (clean_string param) [])) [
  | inl e ↦ rw e h
  | inr e ↦ rw e (record { distinct = h.distinct; pursued = h.pursued })
]

kill-Sound : (s : Service) → Sound s → Sound (cancel s)
unfolding cancel
kill-Sound s h = record {
  distinct = h.distinct;
  pursued =
      weaken s.cancelled true s.requests s.requests s.nodes
        (λ n _. cancelled-pursued s.requests n s.cancelled) h.pursued;
}

timer-Sound :
    (matches : Matches) (env : Env) (s : Service)
    → Sound s
    → Sound (scheduled_reindex matches env s)
unfolding scheduled_reindex
timer-Sound matches env s h = record { distinct = h.distinct; pursued = h.pursued }

forced-Sound :
    (matches : Matches) (env : Env) (s : Service) → Sound s → Sound (forced_reindex matches env s)
unfolding forced_reindex
forced-Sound matches env s h = elim (Bool-cases s.reindex) [
  | inl e ↦ rw e (record { distinct = h.distinct; pursued = h.pursued })
  | inr e ↦ simp e h
]

Step-Sound : {matches : Matches} {s t : Service} → Step matches s t → Sound s → Sound t
Step-Sound {s = s} (push env param body e) h = rw e (push-Sound env param body s h)
Step-Sound {s = s} (watch n e) h = rw e (watch-Sound n s h)
Step-Sound {s = s} (forget n e) h = rw e (forget-Sound n s h)
Step-Sound {s = s} (kill e) h = rw e (kill-Sound s h)
Step-Sound {s = s} (request env response others r rest q e) h =
    rw e (request-Sound others r rest env response s q h)
Step-Sound {matches} {s} (timer env e) h = rw e (timer-Sound matches env s h)
Step-Sound {matches} {s} (forced env e) h = rw e (forced-Sound matches env s h)

Reach-Sound : {matches : Matches} {s t : Service} → Reach matches s t → Sound s → Sound t
Reach-Sound here h = h
Reach-Sound (next r x) h = Step-Sound x (Reach-Sound r h)

created-Sound : (self : Text) (disk : Disk) → Sound (create_and_run self disk)
unfolding create_and_run ask_for_index
created-Sound self disk = record { distinct = nil-IsDistinct; pursued = nil-IsPursued false [] }

pursued-told :
    (c : Bool) (rs : List Request) (n : Node)
    → is_pursued c rs n ≡ true
    → ((n.fetched ≡ true) ⊎ ((c ≡ true) ⊎ (has_request n.name rs ≡ true)))
      × (n.is_public ≡ true → n.fetched ≡ true)
unfolding is_pursued
pursued-told c rs n k = (
  elim (Bool-cases n.fetched) [
    | inl f ↦ inl f
    | inr f ↦ elim (Bool-cases c) [ inl d ↦ inr (inl d) | inr d ↦ inr (inr (ground arith)) ]
  ],
  λ p. ground arith,
)

-- Whatever a service has done since `CreateAndRun`, the names of its array are distinct, and every node
-- of the array is fetched, or has a goroutine that fetches its file, or the service was told to stop;
-- only a fetched node is public.
pub create_and_run-Sound :
    (matches : Matches) (self : Text) (disk : Disk) (s : Service)
    → Reach matches (create_and_run self disk) s
    → IsDistinct s.nodes
      × ((n : Node)
          → Mem n s.nodes
          → ((n.fetched ≡ true) ⊎ ((s.cancelled ≡ true) ⊎ (has_request n.name s.requests ≡ true)))
            × (n.is_public ≡ true → n.fetched ≡ true))
create_and_run-Sound matches self disk s r =
    let h = Reach-Sound r (created-Sound self disk) in
    (h.distinct, λ n m. pursued-told s.cancelled s.requests n (unfold IsPursued in (h.pursued n m)))
