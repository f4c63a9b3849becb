-- ===== src/Monitor/Service/Steps.antt =====
-- Each step of the service of domain/monitor/service.go, and the nodes that it watches.
use mathlib.Core.List.{Perm, perm_append_singleton, Pairwise-cons}
use mathlib.Core.List.Perm
use tinc_boot.Prelude.{
  ◌≡◌, ◌≢◌, refl, sym, Bool, true, not, ◌&&◌, List, ◌∷◌, ◌++◌, Option, none, some, arith,
  Option-cases, Bool-cases, inl, inr, if◌then◌else◌,
}
use tinc_boot.Text.{Text, codes, equal_refl}
use tinc_boot.Text.Strings.{contains}
use tinc_boot.Daemon.Disk.{Env}
use tinc_boot.Monitor.Nodes.{Node, fresh, index_of, try_add, try_remove}
use tinc_boot.Monitor.Nodes.Laws.{try_remove_lem}
use tinc_boot.Monitor.Nodes.Distinct.{
  IsDistinct, try_add-IsDistinct, try_remove-IsDistinct, Perm-IsDistinct,
}
use tinc_boot.Monitor.Service.{
  Subnet, Request, Service, watch_added, api_watch_node, stop_request, forget_removed,
  api_forget_node, emit, after_fetch, finish, try_fetch_host, round, request_node, ask_for_index,
}
use tinc_boot.Monitor.Service.Pursuit.{
  has_request, is_pursued, IsPursued, cons-IsPursued, Perm-IsPursued, weaken, more_requests,
  cons_iff, has_request-stop_request, mark_fetched-IsDistinct, mark_fetched-IsPursued,
  ended-pursued, Sound,
}

watch-pursued :
    (c : Bool) (rs : List Request) (name subnet : Text)
    → is_pursued c (record { name = name; subnet = subnet; live = true } ∷ rs) (fresh name subnet)
      ≡ true
unfolding is_pursued has_request
watch-pursued c rs name subnet = ground (arith, equal_refl name)

watch_added-Sound :
    (nodes : List Node) (added : Option Node) (s : Service)
    → IsDistinct nodes
    → (added ≡ none → IsPursued s.cancelled s.requests nodes)
    → ((n : Node)
        → added ≡ some n
        → IsPursued s.cancelled
            (record { name = n.name; subnet = n.subnet; live = true } ∷ s.requests)
            nodes)
    → Sound (watch_added nodes added s)
unfolding watch_added emit
watch_added-Sound nodes none s d h k = record { distinct = d; pursued = h refl }
watch_added-Sound nodes (some n) s d h k = record { distinct = d; pursued = k n refl }

try_add-none :
    (c : Bool) (rs : List Request) (name subnet : Text) (nodes : List Node)
    → (try_add name subnet nodes).1 ≡ none
    → IsPursued c rs nodes
    → IsPursued c rs (try_add name subnet nodes).0
unfolding try_add
try_add-none c rs name subnet nodes h k = elim (Option-cases (index_of name nodes)) [
  | inl e ↦ absurd (ground arith)
  | inr (found, e) ↦ rw (e, try_add) k
]

try_add-some :
    (c : Bool) (rs : List Request) (name subnet : Text) (nodes : List Node) (n : Node)
    → (try_add name subnet nodes).1 ≡ some n
    → IsPursued c rs nodes
    → IsPursued c
        (record { name = n.name; subnet = n.subnet; live = true } ∷ rs)
        (try_add name subnet nodes).0
unfolding try_add
try_add-some c rs name subnet nodes n h k = elim (Option-cases (index_of name nodes)) [
  | inl e ↦
      let new : n ≡ fresh name subnet = ground arith in
      rw (e, try_add)
        (rw new (
          Perm-IsPursued c _ (perm_append_singleton (fresh name subnet) nodes) (
            cons-IsPursued c _ (fresh name subnet) nodes (watch-pursued c rs name subnet)
              (weaken c c rs _ nodes (λ m _. more_requests c _ rs m) k))))
  | inr (found, e) ↦ absurd (ground arith)
]

pub watch-Sound :
    (subnet : Option Subnet) (s : Service) → Sound s → Sound (api_watch_node subnet s).0
unfolding api_watch_node
watch-Sound none s h = h
watch-Sound (some n) s h =
    watch_added-Sound (try_add n.node n.subnet s.nodes).0 (try_add n.node n.subnet s.nodes).1 s
      (try_add-IsDistinct n.node n.subnet s.nodes h.distinct)
      (λ e. try_add-none s.cancelled s.requests n.node n.subnet s.nodes e h.pursued)
      (λ m e. try_add-some s.cancelled s.requests n.node n.subnet s.nodes m e h.pursued)

pursued_at :
    (c : Bool) (rs qs : List Request) (n : Node)
    → has_request n.name qs ≡ has_request n.name rs
    → is_pursued c rs n ≡ true
    → is_pursued c qs n ≡ true
unfolding is_pursued
pursued_at c rs qs n e h = ground arith

-- The nodes that stay have other names than the one whose goroutine is stopped.
stopped-IsPursued :
    (c : Bool) (rs : List Request) (nd : Node) (rest : List Node)
    → IsDistinct (nd ∷ rest)
    → IsPursued c rs (nd ∷ rest)
    → IsPursued c (stop_request nd.name rs) rest
unfolding IsDistinct
stopped-IsPursued c rs nd rest d h =
    weaken c c rs (stop_request nd.name rs) rest (λ n m. other n ((Pairwise-cons.0 d).0 n m))
      (cons_iff c rs nd rest h).1
  where
    other :
        (n : Node)
        → nd.name ≢ n.name
        → is_pursued c rs n ≡ true
        → is_pursued c (stop_request nd.name rs) n ≡ true
    other n e k =
        pursued_at c rs (stop_request nd.name rs) n (has_request-stop_request n.name nd.name rs e) k

forget_removed-Sound :
    (nodes : List Node) (removed : Option Node) (s : Service)
    → IsDistinct nodes
    → (removed ≡ none → nodes ≡ s.nodes)
    → ((n : Node) → removed ≡ some n → Perm (n ∷ nodes) s.nodes)
    → Sound s
    → Sound (forget_removed nodes removed s)
unfolding forget_removed emit
forget_removed-Sound nodes none s d h k sound = record {
  distinct = d;
  pursued = rw (h refl) sound.pursued;
}
forget_removed-Sound nodes (some n) s d h k sound =
    let p = k n refl in
    record {
      distinct = d;
      pursued =
          stopped-IsPursued s.cancelled s.requests n nodes
            (Perm-IsDistinct (Perm.symm p) sound.distinct)
            (Perm-IsPursued s.cancelled s.requests p sound.pursued);
    }

pub forget-Sound :
    (subnet : Option Subnet) (s : Service) → Sound s → Sound (api_forget_node subnet s).0
unfolding api_forget_node
forget-Sound none s h = h
forget-Sound (some n) s h =
    let (kept, same) = try_remove_lem n.node s.nodes in
    forget_removed-Sound (try_remove n.node s.nodes).0 (try_remove n.node s.nodes).1 s
      (try_remove-IsDistinct n.node s.nodes h.distinct).0 (λ e. (same e).1) (λ m e. (kept m e).1) h

module _ (others : List Request) (r : Request) (rest : List Request) where
  finish-Sound :
      (content : Text) (s : Service)
      → s.requests ≡ others ++ r ∷ rest
      → Sound s
      → Sound (record (finish r content s) { requests = others ++ rest })
  unfolding finish emit ask_for_index
  finish-Sound content s e h = elim (Bool-cases r.live) [
    | inl live ↦ record {
      distinct =
          rw live (
            mark_fetched-IsDistinct r.name (contains content (codes "Address")) s.nodes h.distinct);
      pursued = rw live (
          mark_fetched-IsPursued s.cancelled others r rest (contains content (codes "Address"))
            s.nodes (rw (sym e) h.pursued));
    }
    | inr gone ↦ record {
      distinct = rw gone h.distinct;
      pursued = rw gone (
          weaken s.cancelled s.cancelled (others ++ r ∷ rest) (others ++ rest) s.nodes
            (λ n _. ended-pursued s.cancelled others r rest n (rw gone refl))
            (rw (sym e) h.pursued));
    }
  ]

  after_fetch-Sound :
      (result : Option Text) (s : Service)
      → s.requests ≡ others ++ r ∷ rest
      → Sound s
      → Sound (
          let (after, again) = after_fetch r result s in
          record after { requests = if again then others ++ r ∷ rest else others ++ rest })
  unfolding after_fetch
  after_fetch-Sound (some content) s e h = finish-Sound content s e h
  after_fetch-Sound none s e h = elim (Bool-cases (r.live && not s.cancelled)) [
    | inl again ↦ rw again (record { distinct = h.distinct; pursued = rw (sym e) h.pursued })
    | inr ended ↦ rw ended (record {
      distinct = h.distinct;
      pursued =
          weaken s.cancelled s.cancelled (others ++ r ∷ rest) (others ++ rest) s.nodes
            (λ n _. ended-pursued s.cancelled others r rest n ended) (rw (sym e) h.pursued);
    })
  ]

  pub request-Sound :
      (env : Env) (response : Option Text) (s : Service)
      → s.requests ≡ others ++ r ∷ rest
      → Sound s
      → Sound (request_node env response others r rest s)
  unfolding request_node round
  request-Sound env response s e h =
      let (disk, result) = try_fetch_host env response r.name s.disk in
      after_fetch-Sound result (record s { disk = disk }) e
        (record { distinct = h.distinct; pursued = h.pursued })
