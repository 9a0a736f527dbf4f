-- ===== src/Server/Sessions.antt =====
-- The registry of sessions (mcpcompat/server/session.go). A session is an object of a heap; the maps
-- `sessions` and `localSessions` of the server hold addresses and ids. The methods take no lock, so
-- each of their operations on a map or a field, and each section under a session's own mutex, is an
-- event, between which those of other requests may come; a method is also an event as a whole, for
-- one that runs alone.
-- The handlers' wrappers, logging and the goroutine that drains a channel are not modelled; a session's
-- `owner` is the one server.
pub mod Sound
pub mod Leads
pub mod Steps
pub mod History
pub mod Tools
mod Tests
use toolhive_core.Base.{
  ℕ, zero, suc, ◌≡◌, ◌≢◌, ◌⊎◌, ◌<◌, Bool, true, false, not, List, [], ◌∷◌, Option, none, some,
  String, str_eq, if◌then◌else◌, ◌==◌, length, keep, ltb,
}
use toolhive_core.Base.Dict.{lookup, insert, delete}
use toolhive_core.Server.Sdk.{GoSession, has_name, gone, Sdk}
use toolhive_core.Server.Objects.{
  Present, present, set_at, ClientSession, fresh_session, McpServer, new_mcp_server, set_session,
}
use toolhive_core.Server.Overlays.{
  add_session_tool, named_if, add_session_tools, removed_from, sync_session_tools,
  add_session_resource_template, sync_session_resources, sync_session_resource_templates,
  sync_session_prompts, if_bound, set_session_tools, set_session_resources,
  set_session_resource_templates, set_session_prompts, Overlay, set_overlay, set_overlays, sync_all,
  tools_overlay, resources_overlay, templates_overlay, prompts_overlay,
}

module _ (sdk : Sdk) where
  unfoldable pub new_client_session : String → McpServer sdk → ℕ × McpServer sdk
  new_client_session id s =
      (s.next, record s { heap = set_at s.next (fresh_session sdk id) s.heap; next = suc s.next })

  -- `LoadOrStore`, of a session made for it.
  unfoldable pub load_or_store : String → McpServer sdk → ℕ × McpServer sdk
  load_or_store id s =
      let (a, s1) = new_client_session id s in
      elim (lookup id s.sessions) [
        | some b ↦ (b, s1)
        | none ↦ (a, record s1 { sessions = insert id a s1.sessions })
      ]

  unfoldable pub session_for : String → McpServer sdk → ℕ × McpServer sdk
  session_for id s = elim (lookup id s.sessions) [ some a ↦ (a, s) | none ↦ load_or_store id s ]

  -- `goSession.Store`.
  unfoldable pub attach : ℕ → ℕ → McpServer sdk → McpServer sdk
  attach a ss s = set_session sdk a (record (s.heap a) { go_session = some ss }) s

  -- `boundServer.Store`.
  unfoldable pub bind : ℕ → ℕ → McpServer sdk → McpServer sdk
  bind a srv s = set_session sdk a (record (s.heap a) { bound_server = some srv }) s

  -- `Initialize`.
  unfoldable pub initialize : ℕ → McpServer sdk → McpServer sdk
  initialize a s = set_session sdk a (record (s.heap a) { initialized = true }) s

  -- `localSessions.Store`.
  unfoldable pub mark_local : String → McpServer sdk → McpServer sdk
  mark_local id s = record s { local_sessions = insert id present s.local_sessions }

  -- The session of a context, and the server.
  unfoldable pub context_with_session :
      Option ℕ → Option GoSession → McpServer sdk → Option ℕ × McpServer sdk
  unfolding attach
  context_with_session ctx none s = (ctx, s)
  context_with_session ctx (some ss) s =
      if str_eq ss.session_id ""
      then (ctx, s)
      else let (a, s1) = session_for ss.session_id s in (some a, attach a ss.address s1)

  -- `owner`, `boundServer` and the SDK's session, of one that no other request has yet.
  abbrev pub bound : ℕ → ℕ → ClientSession sdk → ClientSession sdk
  bound ss srv c = record c { go_session = some ss; bound_server = some srv }

  unfoldable pub bind_ephemeral_session : GoSession → ℕ → McpServer sdk → ℕ × McpServer sdk
  bind_ephemeral_session ss srv s =
      let (a, s1) = new_client_session "" s in
      (a, set_session sdk a (record (bound ss.address srv (s1.heap a)) { initialized = true }) s1)

  -- `notifClose.Do`, also the clean-up of an ephemeral session.
  abbrev pub closed : ClientSession sdk → ClientSession sdk
  closed c = if c.notif_close then c else record c { notif_close = true; closes = suc c.closes }

  unfoldable pub close_channel : ℕ → McpServer sdk → McpServer sdk
  close_channel a s = set_session sdk a (closed (s.heap a)) s

  -- The session once the swap of `registered` has succeeded, with the call of its hooks counted.
  abbrev pub first_registered : ClientSession sdk → ClientSession sdk
  first_registered c = record c {
    registered = true;
    initialized = true;
    hooks_fired = suc c.hooks_fired;
  }

  -- `registered.CompareAndSwap(false, true)` and the hooks that are due after it.
  unfoldable pub swap_registered : ℕ → McpServer sdk → McpServer sdk
  swap_registered a s =
      if (s.heap a).registered then s else set_session sdk a (first_registered (s.heap a)) s

  -- After the swap of `registered`, whose old value is the first argument. The hooks set what they set
  -- on the session they are given.
  unfoldable pub register_once :
      Bool → (ClientSession sdk → List (Overlay sdk)) → ℕ → ℕ → McpServer sdk → McpServer sdk
  register_once true hooks srv a s = s
  register_once false hooks srv a s =
      let c = first_registered (s.heap a) in
      sync_all sdk srv a (set_overlays sdk a (hooks c) (set_session sdk a c s))

  unfoldable pub register_and_sync :
      (ClientSession sdk → List (Overlay sdk))
      → Option GoSession
      → ℕ
      → McpServer sdk
      → McpServer sdk
  unfolding attach bind mark_local
  register_and_sync hooks none srv s = s
  register_and_sync hooks (some ss) srv s =
      if str_eq ss.session_id ""
      then s
      else let (a, s1) = session_for ss.session_id s in
        let s2 = mark_local ss.session_id (bind a srv (attach a ss.address s1)) in
        register_once (s2.heap a).registered hooks srv a s2

  unfoldable pub bind_rehydrated_session : String → GoSession → ℕ → McpServer sdk → McpServer sdk
  unfolding attach bind initialize
  bind_rehydrated_session id ss srv s =
      let (a, s1) = session_for id s in initialize a (bind a srv (attach a ss.address s1))

  unfoldable pub is_local_session : String → McpServer sdk → Bool
  is_local_session id s = elim (lookup id s.local_sessions) [ none ↦ false | some x ↦ true ]

  unfoldable pub close_found : Option ℕ → McpServer sdk → McpServer sdk
  unfolding close_channel
  close_found none s = s
  close_found (some a) s = close_channel a s

  -- `sessions.LoadAndDelete`, beside what it loads.
  unfoldable pub unlist : String → McpServer sdk → McpServer sdk
  unlist id s = record s { sessions = delete id s.sessions }

  -- `localSessions.Delete`.
  unfoldable pub unmark_local : String → McpServer sdk → McpServer sdk
  unmark_local id s = record s { local_sessions = delete id s.local_sessions }

  unfoldable pub forget_session : String → McpServer sdk → McpServer sdk
  unfolding close_found unlist unmark_local
  forget_session id s =
      if str_eq id "" then s else close_found (lookup id s.sessions) (unmark_local id (unlist id s))

  -- The section of `SetSessionTools` and of its like that stores the overlay, before it is reconciled.
  unfoldable pub put_overlay : ℕ → Overlay sdk → McpServer sdk → McpServer sdk
  put_overlay a (tools_overlay items) s = set_session sdk a (record (s.heap a) { tools = items }) s
  put_overlay a (resources_overlay items) s =
      set_session sdk a (record (s.heap a) { resources = items }) s
  put_overlay a (templates_overlay items) s =
      set_session sdk a (record (s.heap a) { resource_templates = items }) s
  put_overlay a (prompts_overlay items) s =
      set_session sdk a (record (s.heap a) { prompts = items }) s

  -- What happens to the registry: atomic operations, of which `stores` is a `LoadOrStore` by a request
  -- whose load found nothing, and whole methods.
  pub data Event : Type 0 where
    attaches binds : ℕ → ℕ → Event
    initializes swaps : ℕ → Event
    marks unlists unmarks : String → Event
    syncs_tools syncs_resources syncs_templates syncs_prompts : ℕ → ℕ → Event
    requests : Option ℕ → Option GoSession → Event
    stores : String → Event
    ephemeral : GoSession → ℕ → Event
    closes_channel : ℕ → Event
    registers : Option GoSession → ℕ → Event
    rehydrates : String → GoSession → ℕ → Event
    forgets : String → Event
    puts sets : ℕ → Overlay sdk → Event

  unfoldable pub step :
      (ClientSession sdk → List (Overlay sdk)) → Event → McpServer sdk → McpServer sdk
  step hooks (attaches a ss) s = attach a ss s
  step hooks (binds a srv) s = bind a srv s
  step hooks (initializes a) s = initialize a s
  step hooks (swaps a) s = swap_registered a s
  step hooks (marks id) s = mark_local id s
  step hooks (unlists id) s = unlist id s
  step hooks (unmarks id) s = unmark_local id s
  step hooks (syncs_tools srv a) s = sync_session_tools sdk srv a s
  step hooks (syncs_resources srv a) s = sync_session_resources sdk srv a s
  step hooks (syncs_templates srv a) s = sync_session_resource_templates sdk srv a s
  step hooks (syncs_prompts srv a) s = sync_session_prompts sdk srv a s
  step hooks (requests ctx ss) s = (context_with_session ctx ss s).1
  step hooks (stores id) s = (load_or_store id s).1
  step hooks (ephemeral ss srv) s = (bind_ephemeral_session ss srv s).1
  step hooks (closes_channel a) s = close_channel a s
  step hooks (registers ss srv) s = register_and_sync hooks ss srv s
  step hooks (rehydrates id ss srv) s = bind_rehydrated_session id ss srv s
  step hooks (forgets id) s = forget_session id s
  step hooks (puts a o) s = put_overlay a o s
  step hooks (sets a o) s = set_overlay sdk a o s

  unfoldable pub run_events :
      (ClientSession sdk → List (Overlay sdk)) → List Event → McpServer sdk → McpServer sdk
  run_events hooks [] s = s
  run_events hooks (e ∷ es) s = run_events hooks es (step hooks e s)

  -- No id finds the session at the address.
  abbrev pub IsHidden : ℕ → McpServer sdk → Type 0
  IsHidden a s = (id : String) → lookup id s.sessions ≢ some a

  -- What the callers see to: ids that are stored or rehydrated are not empty (`contextWithSession` and
  -- `ServeHTTP` test them), and a channel is closed of an ephemeral session or of one that was taken
  -- out of the map, which no id finds.
  abbrev pub IsAllowed : Event → McpServer sdk → Type 0
  IsAllowed (stores id) s = str_eq id "" ≡ false
  IsAllowed (rehydrates id ss srv) s = str_eq id "" ≡ false
  IsAllowed (closes_channel a) s = (str_eq (s.heap a).id "" ≡ true) ⊎ IsHidden a s
  IsAllowed _ s = Unit

  abbrev pub IsRun : (ClientSession sdk → List (Overlay sdk)) → List Event → McpServer sdk → Type 0
  IsRun hooks [] s = Unit
  IsRun hooks (e ∷ es) s = IsAllowed e s × IsRun hooks es (step hooks e s)
