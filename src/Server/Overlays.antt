-- ===== src/Server/Overlays.antt =====
-- The overlays of a session and how they come to the SDK's server (mcpcompat/server/session.go).
use toolhive_core.Base.{
  ℕ, Bool, true, false, List, [], ◌∷◌, none, some, String, if◌then◌else◌, length, ltb,
}
use toolhive_core.Server.Sdk.{gone, Sdk}
use toolhive_core.Server.Objects.{set_at, McpServer, set_session}

module _ (sdk : Sdk) where
  -- Whether the tool was added, and the SDK's server.
  unfoldable pub add_session_tool : sdk.GoItem → sdk.Server → Bool × sdk.Server
  add_session_tool tool srv = elim (sdk.add_tool tool srv) [
    | none ↦ (false, srv)
    | some after ↦ (true, after)
  ]

  abbrev pub named_if : String → Bool → List String → List String
  named_if name true names = name ∷ names
  named_if name false names = names

  -- The loop over the overlay, with the names that were added.
  unfoldable pub add_session_tools :
      List (String × sdk.Item) → sdk.Server → List String × sdk.Server
  add_session_tools [] srv = ([], srv)
  add_session_tools ((name, item) ∷ rest) srv = elim (sdk.to_go_tool item) [
    | none ↦ add_session_tools rest srv
    | some tool ↦
        let (added, srv1) = add_session_tool tool srv in
        let (names, srv2) = add_session_tools rest srv1 in (named_if name added names, srv2)
  ]

  abbrev pub removed_from : List String → sdk.Server → sdk.Server
  removed_from names srv = if ltb 0 (length names) then sdk.remove_tools names srv else srv

  unfoldable pub sync_session_tools : ℕ → ℕ → McpServer sdk → McpServer sdk
  sync_session_tools srv a s =
      let (new_names, srv1) = add_session_tools (s.heap a).tools (s.servers srv) in
      record s {
        heap = set_at a (record (s.heap a) { sdk_tool_names = new_names }) s.heap;
        servers =
            set_at srv (removed_from (gone new_names (s.heap a).sdk_tool_names) srv1) s.servers;
      }

  -- The three overlays that are only added to.
  add_session_resources : List (String × sdk.Item) → sdk.Server → sdk.Server
  add_session_resources [] srv = srv
  add_session_resources ((name, item) ∷ rest) srv = elim (sdk.to_go_resource item) [
    | none ↦ add_session_resources rest srv
    | some r ↦ add_session_resources rest (sdk.add_resource r srv)
  ]

  unfoldable pub add_session_resource_template : sdk.GoItem → sdk.Server → Bool × sdk.Server
  add_session_resource_template t srv = elim (sdk.add_template t srv) [
    | none ↦ (false, srv)
    | some after ↦ (true, after)
  ]

  add_session_templates : List (String × sdk.Item) → sdk.Server → sdk.Server
  add_session_templates [] srv = srv
  add_session_templates ((name, item) ∷ rest) srv = elim (sdk.to_go_template item) [
    | none ↦ add_session_templates rest srv
    | some t ↦ add_session_templates rest (add_session_resource_template t srv).1
  ]

  add_session_prompts : List (String × sdk.Item) → sdk.Server → sdk.Server
  add_session_prompts [] srv = srv
  add_session_prompts ((name, item) ∷ rest) srv = elim (sdk.to_go_prompt item) [
    | none ↦ add_session_prompts rest srv
    | some p ↦ add_session_prompts rest (sdk.add_prompt p srv)
  ]

  unfoldable pub sync_session_resources : ℕ → ℕ → McpServer sdk → McpServer sdk
  unfolding add_session_resources
  sync_session_resources srv a s = record s {
    servers = set_at srv (add_session_resources (s.heap a).resources (s.servers srv)) s.servers;
  }

  unfoldable pub sync_session_resource_templates : ℕ → ℕ → McpServer sdk → McpServer sdk
  unfolding add_session_templates
  sync_session_resource_templates srv a s = record s {
    servers =
        set_at srv (add_session_templates (s.heap a).resource_templates (s.servers srv)) s.servers;
  }

  unfoldable pub sync_session_prompts : ℕ → ℕ → McpServer sdk → McpServer sdk
  unfolding add_session_prompts
  sync_session_prompts srv a s = record s {
    servers = set_at srv (add_session_prompts (s.heap a).prompts (s.servers srv)) s.servers;
  }

  -- `if srv := c.boundServer.Load(); srv != nil`.
  abbrev pub if_bound : (ℕ → ℕ → McpServer sdk → McpServer sdk) → ℕ → McpServer sdk → McpServer sdk
  if_bound sync a s = elim (s.heap a).bound_server [ none ↦ s | some srv ↦ sync srv a s ]

  unfoldable pub set_session_tools : ℕ → List (String × sdk.Item) → McpServer sdk → McpServer sdk
  set_session_tools a items s =
      if_bound sync_session_tools a (set_session sdk a (record (s.heap a) { tools = items }) s)

  unfoldable pub set_session_resources :
      ℕ → List (String × sdk.Item) → McpServer sdk → McpServer sdk
  set_session_resources a items s =
      if_bound sync_session_resources a
        (set_session sdk a (record (s.heap a) { resources = items }) s)

  unfoldable pub set_session_resource_templates :
      ℕ → List (String × sdk.Item) → McpServer sdk → McpServer sdk
  set_session_resource_templates a items s =
      if_bound sync_session_resource_templates a
        (set_session sdk a (record (s.heap a) { resource_templates = items }) s)

  unfoldable pub set_session_prompts : ℕ → List (String × sdk.Item) → McpServer sdk → McpServer sdk
  set_session_prompts a items s =
      if_bound sync_session_prompts a (set_session sdk a (record (s.heap a) { prompts = items }) s)

  -- What a hook sets on a session.
  pub data Overlay : Type 0 where
    tools_overlay resources_overlay templates_overlay prompts_overlay :
        List (String × sdk.Item) → Overlay

  unfoldable pub set_overlay : ℕ → Overlay → McpServer sdk → McpServer sdk
  set_overlay a (tools_overlay items) s = set_session_tools a items s
  set_overlay a (resources_overlay items) s = set_session_resources a items s
  set_overlay a (templates_overlay items) s = set_session_resource_templates a items s
  set_overlay a (prompts_overlay items) s = set_session_prompts a items s

  unfoldable pub set_overlays : ℕ → List Overlay → McpServer sdk → McpServer sdk
  set_overlays a [] s = s
  set_overlays a (o ∷ os) s = set_overlays a os (set_overlay a o s)

  abbrev pub sync_all : ℕ → ℕ → McpServer sdk → McpServer sdk
  sync_all srv a s = sync_session_prompts srv a (
      sync_session_resource_templates srv a
        (sync_session_resources srv a (sync_session_tools srv a s)))
