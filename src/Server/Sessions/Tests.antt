-- ===== src/Server/Sessions/Tests.antt =====
-- Runs of the registry with a small SDK.
use toolhive_core.Base.{◌≡◌, ◌≢◌, refl, inl, true, false, List, [], ◌∷◌, none, some, String}
use toolhive_core.Base.Dict.{lookup, insert, delete}
use toolhive_core.Server.Sdk.{GoSession}
use toolhive_core.Server.Small.{small_sdk}
use toolhive_core.Server.Objects.{ClientSession, McpServer, new_mcp_server}
use toolhive_core.Server.Overlays.{
  add_session_tool, add_session_tools, sync_session_tools, sync_session_resources,
  sync_session_resource_templates, sync_session_prompts, set_session_tools, Overlay, tools_overlay,
  set_overlay, set_overlays,
}
use toolhive_core.Server.Sessions.{
  new_client_session, load_or_store, session_for, context_with_session, bind_ephemeral_session,
  close_channel, close_found, register_once, register_and_sync, bind_rehydrated_session,
  forget_session, Event, requests, stores, ephemeral, closes_channel, registers, rehydrates,
  forgets, step, run_events, is_local_session, attaches, binds, marks, unlists, unmarks, swaps,
  sets, syncs_tools, attach, bind, initialize, mark_local, unlist, unmark_local, swap_registered,
  IsHidden,
}
use toolhive_core.Server.Sessions.Sound.{IsSound, load_or_store-IsSound}
use toolhive_core.Server.Sessions.History.{
  run_events-IsSound, run_events-IsHidden, bind_ephemeral_session-IsPrivate, new_mcp_server-IsSound,
}
use toolhive_core.Server.Sessions.Tools.{Reconciles, set_session_tools-Reconciles}

abbrev go_session_a : GoSession
go_session_a = record { session_id = "a"; address = 7 }

abbrev go_session_none : GoSession
go_session_none = record { session_id = ""; address = 8 }

-- Each session's hooks give it a tool that is accepted and one that is not.
abbrev hooks : ClientSession small_sdk → List (Overlay small_sdk)
hooks c = tools_overlay (("search", ("search", true)) ∷ ("bad", ("bad", false)) ∷ []) ∷ []

abbrev new_server : McpServer small_sdk
new_server = new_mcp_server small_sdk (λ srv. "echo" ∷ [])

abbrev events : List (Event small_sdk)
events =
    stores "a"
    ∷ registers (some go_session_a) 0
    ∷ registers (some go_session_a) 0
    ∷ ephemeral go_session_none 1
    ∷ requests none (some go_session_none)
    ∷ closes_channel 1
    ∷ rehydrates "b" go_session_a 2
    ∷ forgets "a"
    ∷ []

abbrev after_events : McpServer small_sdk
after_events = run_events small_sdk hooks events new_server

-- The hooks ran once, the server has the good tool, the name is forgotten and its channel closed.
runs_test :
    ((after_events.heap 0).hooks_fired ≡ 1)
    × ((after_events.heap 0).closes ≡ 1)
    × (after_events.servers 0 ≡ "search" ∷ "search" ∷ "echo" ∷ [])
    × (lookup "a" after_events.sessions ≡ none)
    × (lookup "b" after_events.sessions ≡ some 2)
    × (is_local_session small_sdk "a" after_events ≡ false)
unfolding run_events step load_or_store new_client_session register_and_sync session_for
    register_once set_overlays set_overlay set_session_tools sync_session_tools
    sync_session_resources sync_session_resource_templates sync_session_prompts add_session_tools
    add_session_tool bind_ephemeral_session context_with_session close_channel close_found
    bind_rehydrated_session forget_session new_mcp_server lookup insert delete is_local_session
    attach bind initialize mark_local unlist unmark_local
runs_test = (refl, refl, refl, refl, refl, refl)

run_events-IsSound_example : IsSound after_events
unfolding run_events step load_or_store new_client_session register_and_sync session_for
    register_once set_overlays set_overlay set_session_tools sync_session_tools
    sync_session_resources sync_session_resource_templates sync_session_prompts add_session_tools
    add_session_tool bind_ephemeral_session context_with_session close_channel close_found
    bind_rehydrated_session forget_session new_mcp_server lookup insert delete is_local_session
    attach bind initialize mark_local unlist unmark_local
run_events-IsSound_example =
    run_events-IsSound hooks events (λ srv. "echo" ∷ [])
      (refl, (tt, (tt, (tt, (tt, (inl refl, (refl, (tt, tt))))))))

-- A registration of `a` under which another request forgets it, each operation by operation: the id
-- is local in the end, and no session is registered under it.
abbrev interleaved : List (Event small_sdk)
interleaved =
    stores "a"
    ∷ attaches 0 7
    ∷ unlists "a"
    ∷ binds 0 0
    ∷ unmarks "a"
    ∷ marks "a"
    ∷ swaps 0
    ∷ sets 0 (tools_overlay [])
    ∷ syncs_tools 0 0
    ∷ []

left_local_test :
    (is_local_session small_sdk "a" (run_events small_sdk hooks interleaved new_server) ≡ true)
    × (lookup "a" (run_events small_sdk hooks interleaved new_server).sessions ≡ none)
unfolding run_events step load_or_store new_client_session attach bind mark_local unlist
    unmark_local swap_registered set_overlay set_session_tools sync_session_tools add_session_tools
    new_mcp_server lookup insert delete is_local_session
left_local_test = (refl, refl)

-- The registry with the session of `a` at the address 0.
abbrev with_a : McpServer small_sdk
with_a = (load_or_store small_sdk "a" new_server).1

with_a-IsSound : IsSound with_a
with_a-IsSound =
    (load_or_store-IsSound "a" new_server refl (new_mcp_server-IsSound (λ srv. "echo" ∷ []))).0

found_a : lookup "a" with_a.sessions ≡ some 0
unfolding load_or_store new_client_session new_mcp_server lookup insert
found_a = refl

run_events-IsHidden_example :
    IsHidden small_sdk 0
      (run_events small_sdk hooks (stores "a" ∷ unmarks "a" ∷ []) (unlist small_sdk "a" with_a))
run_events-IsHidden_example =
    run_events-IsHidden hooks "a" 0 (stores "a" ∷ unmarks "a" ∷ []) with_a with_a-IsSound found_a
      (refl, (tt, tt))

bind_ephemeral_session-IsPrivate_example :
    ((bind_ephemeral_session small_sdk go_session_none 3 new_server).1.sessions
      ≡ new_server.sessions)
    × ((id : String)
        → lookup id
            (run_events small_sdk hooks
              (stores "a" ∷ forgets "a" ∷ [])
              (bind_ephemeral_session small_sdk go_session_none 3 new_server).1).sessions
          ≢ some (bind_ephemeral_session small_sdk go_session_none 3 new_server).0)
bind_ephemeral_session-IsPrivate_example =
    bind_ephemeral_session-IsPrivate hooks go_session_none 3 (stores "a" ∷ forgets "a" ∷ [])
      new_server (new_mcp_server-IsSound (λ srv. "echo" ∷ [])) (refl, (tt, tt))

-- A session bound to the server 3, to which it had added `old`.
abbrev bound_server : McpServer small_sdk
bound_server = record {
  heap = λ a. record {
    id = "a";
    initialized = true;
    registered = true;
    notif_close = false;
    closes = 0;
    hooks_fired = 1;
    go_session = some 7;
    bound_server = some 3;
    tools = [];
    resources = [];
    resource_templates = [];
    prompts = [];
    sdk_tool_names = "old" ∷ [];
  };
  next = 1;
  servers = λ srv. "old" ∷ "echo" ∷ [];
  sessions = ("a", 0) ∷ [];
  local_sessions = [];
}

set_session_tools-Reconciles_example :
    Reconciles small_sdk 3
      (("search", ("search", true)) ∷ ("bad", ("bad", false)) ∷ [])
      ("old" ∷ [])
      bound_server
      (set_session_tools small_sdk 0
        (("search", ("search", true)) ∷ ("bad", ("bad", false)) ∷ [])
        bound_server)
set_session_tools-Reconciles_example =
    set_session_tools-Reconciles small_sdk 3 0
      (("search", ("search", true)) ∷ ("bad", ("bad", false)) ∷ []) bound_server refl
      (refl, (refl, tt))

reconciled_test :
    (set_session_tools small_sdk 0
        (("search", ("search", true)) ∷ ("bad", ("bad", false)) ∷ [])
        bound_server).servers
      3
    ≡ "search" ∷ "echo" ∷ []
unfolding set_session_tools sync_session_tools add_session_tools add_session_tool
reconciled_test = refl
