-- ===== src/Server/Objects.antt =====
-- The objects of the server (mcpcompat/server/session.go, and the maps of MCPServer in server.go).
use toolhive_core.Base.{ℕ, Bool, false, List, [], Option, none, String, if◌then◌else◌, ◌==◌}
use toolhive_core.Server.Sdk.{Sdk}

-- `struct{}{}`.
pub data Present : Type 0 where
  present : Present

-- `f` with another value at an address.
abbrev pub set_at {ℓ} : {A : Type ℓ} → ℕ → A → (ℕ → A) → ℕ → A
set_at a v f b = if a == b then v else f b

module _ (sdk : Sdk) where
  -- `notif_close` is done or not, `closes` counts the closings of the channel, and `hooks_fired` the
  -- calls of the `OnRegisterSession` hooks.
  pub record ClientSession : Type 0 where
    pub id : String
    pub initialized : Bool
    pub registered : Bool
    pub notif_close : Bool
    pub closes : ℕ
    pub hooks_fired : ℕ
    pub go_session : Option ℕ
    pub bound_server : Option ℕ
    pub tools : List (String × sdk.Item)
    pub resources : List (String × sdk.Item)
    pub resource_templates : List (String × sdk.Item)
    pub prompts : List (String × sdk.Item)
    pub sdk_tool_names : List String

  abbrev pub fresh_session : String → ClientSession
  fresh_session id = record {
    id = id;
    initialized = false;
    registered = false;
    notif_close = false;
    closes = 0;
    hooks_fired = 0;
    go_session = none;
    bound_server = none;
    tools = [];
    resources = [];
    resource_templates = [];
    prompts = [];
    sdk_tool_names = [];
  }

  -- The heap of sessions, with the next free address, and that of the SDK's servers.
  pub record McpServer : Type 0 where
    pub heap : ℕ → ClientSession
    pub next : ℕ
    pub servers : ℕ → sdk.Server
    pub sessions : List (String × ℕ)
    pub local_sessions : List (String × Present)

  unfoldable pub new_mcp_server : (ℕ → sdk.Server) → McpServer
  new_mcp_server servers = record {
    heap = λ a. fresh_session "";
    next = 0;
    servers = servers;
    sessions = [];
    local_sessions = [];
  }

  abbrev pub set_session : ℕ → ClientSession → McpServer → McpServer
  set_session a c s = record s { heap = set_at a c s.heap }
