-- ===== src/Server/Sessions/History.antt =====
-- What holds after every history of the registry.
use toolhive_core.Base.{
  ℕ, ◌≡◌, ◌≢◌, refl, sym, ap, ◌∙◌, inl, inr, arith, eq_iff, true, List, [], ◌∷◌, some, String,
}
use toolhive_core.Base.Dict.{lookup}
use toolhive_core.Server.Sdk.{GoSession, Sdk}
use toolhive_core.Server.Objects.{set_at, ClientSession, fresh_session, McpServer, new_mcp_server}
use toolhive_core.Server.Overlays.{Overlay}
use toolhive_core.Server.Sessions.{
  new_client_session, bound, bind_ephemeral_session, Event, requests, stores, ephemeral,
  closes_channel, registers, rehydrates, forgets, sets, attaches, binds, initializes, swaps, marks,
  unlists, unmarks, syncs_tools, syncs_resources, syncs_templates, syncs_prompts, unlist, puts,
  IsHidden, step, run_events, IsAllowed, IsRun,
}
use toolhive_core.Server.Sessions.Sound.{IsSound, set_at_same}
use toolhive_core.Server.Sessions.Leads.{
  Leads, stays, chain, swap_registered-Leads, unlist-Leads, sync_session_tools-Leads,
  sync_session_resources-Leads, sync_session_resource_templates-Leads, sync_session_prompts-Leads,
  load_or_store-Leads, set_overlay-Leads,
}
use toolhive_core.Server.Sessions.Steps.{
  attach-Leads, bind-Leads, initialize-Leads, mark_local-Leads, unmark_local-Leads,
  put_overlay-Leads, context_with_session-Leads, bind_ephemeral_session-Leads,
  bind_rehydrated_session-Leads, register_and_sync-Leads, close_channel-Leads, unlist-IsHidden,
  forget_session-Leads,
}

module _ {sdk : Sdk} where
  step-Leads :
      (hooks : ClientSession sdk → List (Overlay sdk)) (e : Event sdk) (s : McpServer sdk)
      → IsAllowed sdk e s
      → Leads s (step sdk hooks e s)
  unfolding step
  step-Leads hooks (attaches a ss) s ok = attach-Leads a ss s
  step-Leads hooks (binds a srv) s ok = bind-Leads a srv s
  step-Leads hooks (initializes a) s ok = initialize-Leads a s
  step-Leads hooks (swaps a) s ok = swap_registered-Leads a s
  step-Leads hooks (marks id) s ok = mark_local-Leads id s
  step-Leads hooks (unlists id) s ok = unlist-Leads id s
  step-Leads hooks (unmarks id) s ok = unmark_local-Leads id s
  step-Leads hooks (syncs_tools srv a) s ok = sync_session_tools-Leads srv a s
  step-Leads hooks (syncs_resources srv a) s ok = sync_session_resources-Leads srv a s
  step-Leads hooks (syncs_templates srv a) s ok = sync_session_resource_templates-Leads srv a s
  step-Leads hooks (syncs_prompts srv a) s ok = sync_session_prompts-Leads srv a s
  step-Leads hooks (requests ctx ss) s ok = context_with_session-Leads ctx ss s
  step-Leads hooks (stores id) s ok = load_or_store-Leads id s ok
  step-Leads hooks (ephemeral ss srv) s ok = bind_ephemeral_session-Leads ss srv s
  step-Leads hooks (closes_channel a) s (inr hidden) = close_channel-Leads a s (λ h. hidden)
  step-Leads hooks (closes_channel a) s (inl ok) = close_channel-Leads a s (λ h id e.
      let (lt, named, unclosed) = h.listed id a e in
      let gone = h.unnamed in
      let empty : id ≡ "" = sym named ∙ (eq_iff (s.heap a).id "").0 ok in
      let here : lookup "" s.sessions ≡ some a = rw empty at e in
      absurd (ground (arith, here, gone)))
  step-Leads hooks (registers ss srv) s ok = register_and_sync-Leads hooks ss srv s
  step-Leads hooks (rehydrates id ss srv) s ok = bind_rehydrated_session-Leads id ss srv s ok
  step-Leads hooks (forgets id) s ok = forget_session-Leads id s
  step-Leads hooks (puts a o) s ok = put_overlay-Leads a o s
  step-Leads hooks (sets a o) s ok = set_overlay-Leads a o s

  pub run_events-Leads :
      (hooks : ClientSession sdk → List (Overlay sdk)) (es : List (Event sdk)) (s : McpServer sdk)
      → IsRun sdk hooks es s
      → Leads s (run_events sdk hooks es s)
  unfolding run_events
  run_events-Leads hooks [] s ok = stays s
  run_events-Leads hooks (e ∷ es) s (ok, more) =
      chain s (step sdk hooks e s) _ (step-Leads hooks e s ok) (run_events-Leads hooks es _ more)

  pub new_mcp_server-IsSound : (servers : ℕ → sdk.Server) → IsSound (new_mcp_server sdk servers)
  unfolding new_mcp_server lookup
  new_mcp_server-IsSound servers = record {
    unnamed = refl;
    listed = λ id a e. absurd (ground (arith, e));
    once = λ a. (refl, refl);
  }

  -- In every history of a new server, in which the atomic operations of its requests come in any
  -- order, whatever its hooks set, no empty id is stored or rehydrated, and only an ephemeral session
  -- or one that no id finds is closed: no session is registered under the empty id; a session that is
  -- found under an id has that id and an open channel; and a channel is closed and the hooks of a
  -- session are called once at most.
  pub run_events-IsSound :
      (hooks : ClientSession sdk → List (Overlay sdk)) (es : List (Event sdk))
      (servers : ℕ → sdk.Server)
      → IsRun sdk hooks es (new_mcp_server sdk servers)
      → IsSound (run_events sdk hooks es (new_mcp_server sdk servers))
  run_events-IsSound hooks es servers ok =
      (run_events-Leads hooks es (new_mcp_server sdk servers) ok (new_mcp_server-IsSound servers)).0

  -- In a sound registry, a session that is taken out of the map is found under no id, then and after
  -- any further history of such operations: it is never registered again, and may be closed later.
  pub run_events-IsHidden :
      (hooks : ClientSession sdk → List (Overlay sdk)) (id : String) (a : ℕ) (es : List (Event sdk))
      (s : McpServer sdk)
      → IsSound s
      → lookup id s.sessions ≡ some a
      → IsRun sdk hooks es (unlist sdk id s)
      → IsHidden sdk a (run_events sdk hooks es (unlist sdk id s))
  unfolding unlist
  run_events-IsHidden hooks id a es s h e ok =
      let (lt, named, unclosed) = h.listed id a e in
      let (i, kept) = unlist-Leads id s h in
      let (j, (more, same, hides)) = run_events-Leads hooks es (unlist sdk id s) ok i in
      hides a lt (unlist-IsHidden id a s h e)

  -- An ephemeral session that is bound in a sound registry is the session of no id, then and after any
  -- further history, and no id is registered by binding it.
  pub bind_ephemeral_session-IsPrivate :
      (hooks : ClientSession sdk → List (Overlay sdk)) (ss : GoSession) (srv : ℕ)
      (es : List (Event sdk)) (s : McpServer sdk)
      → IsSound s
      → IsRun sdk hooks es (bind_ephemeral_session sdk ss srv s).1
      → ((bind_ephemeral_session sdk ss srv s).1.sessions ≡ s.sessions)
        × ((id : String)
            → lookup id (run_events sdk hooks es (bind_ephemeral_session sdk ss srv s).1).sessions
              ≢ some (bind_ephemeral_session sdk ss srv s).0)
  unfolding bind_ephemeral_session new_client_session
  bind_ephemeral_session-IsPrivate hooks ss srv es s h ok = (refl, λ id e. hidden id e)
    where
      c : ClientSession sdk
      c = record (bound sdk ss.address srv (set_at s.next (fresh_session sdk "") s.heap s.next)) {
        initialized = true;
      }

      s1 : McpServer sdk
      s1 = (bind_ephemeral_session sdk ss srv s).1

      empty : (s1.heap s.next).id ≡ ""
      empty =
          ap (λ x. x.id) (set_at_same s.next c (set_at s.next (fresh_session sdk "") s.heap))
          ∙ ap (λ x. x.id) (set_at_same s.next (fresh_session sdk "") s.heap)

      hidden : (id : String) → lookup id (run_events sdk hooks es s1).sessions ≢ some s.next
      hidden id e =
          let (i, kept) = bind_ephemeral_session-Leads ss srv s h in
          let (j, (lt, same, hides)) = run_events-Leads hooks es s1 ok i in
          let named = (j.listed id s.next e).1 in
          let blank : id ≡ "" = sym named ∙ same s.next (omega arith) ∙ empty in
          let here : lookup "" (run_events sdk hooks es s1).sessions ≡ some s.next =
            rw blank at e in
          absurd (ground (arith, here, j.unnamed))
