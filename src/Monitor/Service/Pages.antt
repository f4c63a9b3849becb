-- ===== src/Monitor/Service/Pages.antt =====
-- `apiUiAddNode` and `renderMainPage` of domain/monitor/http_api.go, without the pages' text.
use tinc_boot.Prelude.{Bool, false, ◌&&◌, ◌||◌, List, [], ◌∷◌, Option, none, some, if◌then◌else◌}
use tinc_boot.Prelude.Int.{ℤ}
use tinc_boot.Text.{Text}
use tinc_boot.Daemon.Disk.{Env}
use tinc_boot.Generator.{Draws, Failure, Outcome, Assembly, Config, generate}
use tinc_boot.Monitor.Nodes.{Node, copy}
use tinc_boot.Monitor.Service.{Service}

-- What `apiUiAddNode` answers: the error of `Bind`, the main page with an error or with the warning, or
-- the script.
pub data UiReply : Type 0 where
  bad_form undistributed : UiReply
  failed_page : Failure → UiReply
  script_file : Assembly → UiReply

-- The loop of `apiUiAddNode`; `pushed` tells whether a node's client takes the file.
unfoldable pub at_least_one_public : (Node → Bool) → List Node → Bool
at_least_one_public pushed [] = false
at_least_one_public pushed (n ∷ nodes) =
    (pushed n && n.is_public) || at_least_one_public pushed nodes

-- `apiUiAddNode`; the parameters are those of the form over the default of the network.
unfoldable pub api_ui_add_node :
    Draws
    → (ℤ → Option (Text × Text))
    → (Assembly → Bool)
    → Env
    → Option Config
    → (Assembly → Node → Bool)
    → Service
    → UiReply
unfolding at_least_one_public
api_ui_add_node draws generate_key renders env none pushed ms = bad_form
api_ui_add_node draws generate_key renders env (some params) pushed ms =
    elim (generate draws generate_key renders env ms.disk.hosts params) [
      | Outcome.err e ↦ failed_page e
      | Outcome.ok assembly ↦
          if at_least_one_public (pushed assembly) (copy ms.nodes)
          then script_file assembly
          else undistributed
    ]

-- `hasPublic` of `renderMainPage`.
unfoldable pub has_public : List Node → Bool
has_public [] = false
has_public (n ∷ nodes) = n.is_public || has_public nodes
