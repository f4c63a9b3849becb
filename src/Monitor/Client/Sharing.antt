-- ===== src/Monitor/Client/Sharing.antt =====
-- The main page of domain/monitor/http_api.go that makes a node, and the services of the nodes that it
-- tells of it.
use tinc_boot.Prelude.{
  ◌≡◌, ◌≢◌, refl, sym, ap, ◌∙◌, Bool, true, List, [], ◌∷◌, ◌++◌, Option, none, some, In, ◌⊎◌, inl,
  inr, arith, ◌&&◌, Bool-cases, Option-cases, ℕ, if◌then◌else◌,
}
use tinc_boot.Prelude.Int.{ℤ}
use tinc_boot.Text.{Text, codes, equal}
use tinc_boot.Names.{IsName, clean_string_of_IsName}
use tinc_boot.Daemon.Disk.{Env, file, write_host}
use tinc_boot.Daemon.Hosts.Add.{entry}
use tinc_boot.Daemon.Hosts.Filed.{write_host-filed}
use tinc_boot.Generator.{Outcome, Draws, Assembly, Config, generate}
use tinc_boot.Generator.Promises.{generate-named}
use tinc_boot.Monitor.Nodes.{Node, copy}
use tinc_boot.Monitor.Service.{Service, api_push_node_file}
use tinc_boot.Monitor.Service.Pages.{script_file, at_least_one_public, api_ui_add_node}
use tinc_boot.Monitor.Client.{
  Response, Post, client_by_subnet, push_request, push_node_file, host_file_path,
}

-- The host file of a node, posted to the address of a service, reaches the handler of that service under
-- the node's name, with the body that was sent or with one that cannot be read.
pub record IsDelivered (post : Post) (system : Text → Env) (peers : Text → Service) : Type 0 where
  pub answered :
      (base_url name content : Text) (response : Response)
      → IsName name
      → name ≢ []
      → post (base_url ++ host_file_path name) (codes "text/plain") content ≡ some response
      → (body : Option Text) × ((body ≡ some content) ⊎ (body ≡ none))
        × (response.status ≡ (api_push_node_file (system base_url) name body (peers base_url)).1)

-- The handler's answer to a clean name that is not empty.
unfoldable pub answer : Env → Text → Option Text → Service → Service × ℕ
answer env name body peer = elim body [
  | none ↦ (peer, 400)
  | some content ↦ (
    record peer { disk = (write_host env name content peer.disk).0 },
    if (write_host env name content peer.disk).1 then 204 else 500,
  )
]

pub api_push_node_file-clean :
    (env : Env) (name : Text) (body : Option Text) (peer : Service)
    → IsName name
    → name ≢ []
    → api_push_node_file env name body peer ≡ answer env name body peer
unfolding api_push_node_file answer equal
api_push_node_file-clean env [] body peer clean ne = absurd (ne refl)
api_push_node_file-clean env (c ∷ cs) none peer clean ne =
    rw (clean_string_of_IsName (c ∷ cs) clean) refl
api_push_node_file-clean env (c ∷ cs) (some content) peer clean ne =
    rw (clean_string_of_IsName (c ∷ cs) clean) refl

answer-filed :
    (env : Env) (name content : Text) (body : Option Text) (peer : Service)
    → (body ≡ some content) ⊎ (body ≡ none)
    → (answer env name body peer).1 ≡ 204
    → entry name (answer env name (some content) peer).0.disk ≡ some (file content)
unfolding answer
answer-filed env name content none peer b h = absurd (ground arith)
answer-filed env name content (some other) peer (inr unread) h = absurd (ground arith)
answer-filed env name content (some other) peer (inl same) h =
    write_host-filed env name content peer.disk (ground (arith, same))

api_push_node_file-filed :
    (env : Env) (name content : Text) (body : Option Text) (peer : Service)
    → IsName name
    → name ≢ []
    → (body ≡ some content) ⊎ (body ≡ none)
    → (api_push_node_file env name body peer).1 ≡ 204
    → entry name (api_push_node_file env name (some content) peer).0.disk ≡ some (file content)
api_push_node_file-filed env name content body peer clean ne b h =
    rw (api_push_node_file-clean env name (some content) peer clean ne) (
      answer-filed env name content body peer b
        (sym (ap (λ p. p.1) (api_push_node_file-clean env name body peer clean ne)) ∙ h))

at_least_one_public-some :
    (pushed : Node → Bool) (nodes : List Node)
    → at_least_one_public pushed nodes ≡ true
    → (n : Node) × In n nodes × (n.is_public ≡ true) × (pushed n ≡ true)
unfolding at_least_one_public
at_least_one_public-some pushed [] h = cc
at_least_one_public-some pushed (n ∷ nodes) h = elim (Bool-cases (pushed n && n.is_public)) [
  | inl own ↦ (n, inl refl, ground arith, ground arith)
  | inr not_own ↦
      let (other, i, is_public, done) = at_least_one_public-some pushed nodes (ground arith) in
      (other, inr i, is_public, done)
]

module _ (post : Post) (system : Text → Env) (peers : Text → Service) where
  push_node_file-filed :
      (base_url name content : Text)
      → IsDelivered post system peers
      → IsName name
      → name ≢ []
      → push_node_file post base_url name content ≡ true
      → entry name
          (api_push_node_file (system base_url) name (some content) (peers base_url)).0.disk
        ≡ some (file content)
  unfolding push_node_file push_request
  push_node_file-filed base_url name content d clean ne h =
      elim (Option-cases (post (base_url ++ host_file_path name) (codes "text/plain") content)) [
        | inl e ↦ absurd (ground (arith, e))
        | inr (response, e) ↦
            let (body, b, status) = d.answered base_url name content response clean ne e in
            api_push_node_file-filed (system base_url) name content body (peers base_url) clean ne b
              (sym status ∙ ground (arith, e))
      ]

  -- Where a posted host file reaches the handler of the service that it is posted to, a script that the
  -- page answers is one that `Generate` made, for a clean name that is not empty; and there is a public
  -- node among the service's nodes whose own service keeps, after the push, the generated public key
  -- under that name.
  pub api_ui_add_node-shares :
      (draws : Draws) (generate_key : ℤ → Option (Text × Text)) (renders : Assembly → Bool)
      (env : Env) (params : Config) (ms : Service) (a : Assembly)
      → IsDelivered post system peers
      → api_ui_add_node draws generate_key renders env
          (some params)
          (λ made n.
            push_node_file post (client_by_subnet n.subnet) made.config.name made.host_public)
          ms
        ≡ script_file a
      → (generate draws generate_key renders env ms.disk.hosts params ≡ Outcome.ok a)
        × (IsName a.config.name × (a.config.name ≢ []))
        × ((n : Node) × In n ms.nodes
            × (n.is_public ≡ true)
            × (entry a.config.name
                  (api_push_node_file
                    (system (client_by_subnet n.subnet))
                    a.config.name
                    (some a.host_public)
                    (peers (client_by_subnet n.subnet))).0.disk
                ≡ some (file a.host_public)))
  unfolding api_ui_add_node copy
  api_ui_add_node-shares draws generate_key renders env params ms a d h =
      let made : generate draws generate_key renders env ms.disk.hosts params ≡ Outcome.ok a =
        ground arith in
      let shared : at_least_one_public
            (λ n. push_node_file post (client_by_subnet n.subnet) a.config.name a.host_public)
            ms.nodes
          ≡ true =
        ground (arith, made) in
      let (clean, named) =
        generate-named draws generate_key renders env ms.disk.hosts params a made in
      let (n, i, is_public, done) = at_least_one_public-some _ ms.nodes shared in
      (
        made,
        (clean, named),
        (
          n,
          i,
          is_public,
          push_node_file-filed (client_by_subnet n.subnet) a.config.name a.host_public d clean named
              done,
        ),
      )
