-- ===== src/Monitor/Client.antt =====
-- `httpAPI` of domain/monitor/client.go: the client of another node's service. The network and
-- encoding/json are parameters. A node's client has the address of its subnet.
pub mod Sharing
use tinc_boot.Prelude.{
  ◌==◌, Bool, true, false, List, [], ◌∷◌, ◌++◌, Option, none, some, if◌then◌else◌, ℕ,
}
use tinc_boot.Text.{Text, codes}
use tinc_boot.Text.Strings.{before}
use tinc_boot.Monitor.Nodes.{Node}
use tinc_boot.Monitor.Service.{Subnet, forget_request}

-- A response; a body that cannot be read is missing.
pub record Response : Type 0 where
  pub status : ℕ
  pub body : Option Text

-- `http.Get` of an address, and `http.Post` of an address, a content type and a body, or none for an
-- error.
abbrev pub Get : Type 0
Get = Text → Option Response

abbrev pub Post : Type 0
Post = Text → Text → Text → Option Response

-- `ClientBySubnet`, as the address that the client holds.
unfoldable pub client_by_subnet : Text → Text
client_by_subnet subnet = codes "http://" ++ before b'/' subnet ++ codes ":1655"

-- `requestString`; `none` is its error.
unfoldable pub request_string : Get → Text → Text → Option Text
request_string get base_url path = elim (get (base_url ++ path)) [
  | none ↦ none
  | some response ↦ elim response.body [
    | none ↦ none
    | some content ↦ if response.status == 200 then some content else none
  ]
]

-- `pushRequest`; the flag is false for an error.
unfoldable pub push_request : Post → Text → Text → Text → Text → Bool
push_request post base_url path content content_type =
    elim (post (base_url ++ path) content_type content) [
      | none ↦ false
      | some response ↦ elim response.body [ none ↦ false | some reply ↦ response.status == 204 ]
    ]

-- `GetHostFile`
unfoldable pub get_host_file : Get → Text → Option Text
unfolding request_string
get_host_file get base_url = request_string get base_url (codes "/")

-- `Watch`; `encode` is `json.Marshal`.
unfoldable pub watch : (Subnet → Option Text) → Post → Text → Subnet → Bool
unfolding push_request
watch encode post base_url subnet = elim (encode subnet) [
  | none ↦ false
  | some content ↦
      push_request post base_url (codes "/rpc/watch") content (codes "application/json")
]

-- `Forget`
unfoldable pub forget : (Subnet → Option Text) → Post → Text → Text → Bool
unfolding push_request
forget encode post base_url subnet_addr = elim (encode (forget_request subnet_addr)) [
  | none ↦ false
  | some content ↦
      push_request post base_url (codes "/rpc/forget") content (codes "application/json")
]

-- `Kill`
unfoldable pub kill : Post → Text → Bool
unfolding push_request
kill post base_url = push_request post base_url (codes "/rpc/kill") [] (codes "text/plain")

-- `Nodes`; `decode` is `json.Unmarshal`.
unfoldable pub nodes : (Text → Option (List Node)) → Get → Text → Option (List Node)
unfolding request_string
nodes decode get base_url = elim (request_string get base_url (codes "/rpc/nodes")) [
  | none ↦ none
  | some res ↦ decode res
]

-- The path of a node's host file.
abbrev pub host_file_path : Text → Text
host_file_path node = codes "/rpc/node/" ++ node ++ codes "/hostfile"

-- `GetNodeFile`
unfoldable pub get_node_file : Get → Text → Text → Option Text
unfolding request_string
get_node_file get base_url node = request_string get base_url (host_file_path node)

-- `PushNodeFile`
unfoldable pub push_node_file : Post → Text → Text → Text → Bool
unfolding push_request
push_node_file post base_url node content =
    push_request post base_url (host_file_path node) content (codes "text/plain")
