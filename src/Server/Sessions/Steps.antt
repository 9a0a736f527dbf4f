-- ===== src/Server/Sessions/Steps.antt =====
-- Each operation and each method keeps the registry sound and the ids of its sessions.
use toolhive_core.Base.{
  ℕ, ◌≡◌, ◌≢◌, ◌⊎◌, refl, sym, ap, ◌∙◌, inl, inr, arith, Bool-cases, eq_iff, true, false, List,
  Option, none, some, String, str_eq, if◌then◌else◌,
}
use toolhive_core.Base.Dict.{lookup, lookup-delete}
use toolhive_core.Server.Sdk.{GoSession, Sdk}
use toolhive_core.Server.Objects.{ClientSession, McpServer}
use toolhive_core.Server.Overlays.{
  Overlay, tools_overlay, resources_overlay, templates_overlay, prompts_overlay,
}
use toolhive_core.Server.Sessions.{
  new_client_session, session_for, closed, close_channel, context_with_session,
  bind_ephemeral_session, register_once, register_and_sync, bind_rehydrated_session, close_found,
  forget_session, attach, bind, initialize, mark_local, unlist, unmark_local, put_overlay, IsHidden,
}
use toolhive_core.Server.Sessions.Sound.{IsSound, set_at-cases, close_channel-IsSound}
use toolhive_core.Server.Sessions.Leads.{
  Leads, stays, chain, set_session-Leads, local_sessions-Leads, unlist-Leads, register_once-Leads,
  new_client_session-Leads, session_for-Leads,
}

module _ {sdk : Sdk} where
  pub attach-Leads : (a ss : ℕ) (s : McpServer sdk) → Leads s (attach sdk a ss s)
  unfolding attach
  attach-Leads a ss s = set_session-Leads a _ s refl refl (λ o. o)

  pub bind-Leads : (a srv : ℕ) (s : McpServer sdk) → Leads s (bind sdk a srv s)
  unfolding bind
  bind-Leads a srv s = set_session-Leads a _ s refl refl (λ o. o)

  pub initialize-Leads : (a : ℕ) (s : McpServer sdk) → Leads s (initialize sdk a s)
  unfolding initialize
  initialize-Leads a s = set_session-Leads a _ s refl refl (λ o. o)

  pub mark_local-Leads : (id : String) (s : McpServer sdk) → Leads s (mark_local sdk id s)
  unfolding mark_local
  mark_local-Leads id s = local_sessions-Leads _ s

  pub unmark_local-Leads : (id : String) (s : McpServer sdk) → Leads s (unmark_local sdk id s)
  unfolding unmark_local
  unmark_local-Leads id s = local_sessions-Leads _ s

  pub put_overlay-Leads :
      (a : ℕ) (o : Overlay sdk) (s : McpServer sdk) → Leads s (put_overlay sdk a o s)
  unfolding put_overlay
  put_overlay-Leads a (tools_overlay items) s = set_session-Leads a _ s refl refl (λ o. o)
  put_overlay-Leads a (resources_overlay items) s = set_session-Leads a _ s refl refl (λ o. o)
  put_overlay-Leads a (templates_overlay items) s = set_session-Leads a _ s refl refl (λ o. o)
  put_overlay-Leads a (prompts_overlay items) s = set_session-Leads a _ s refl refl (λ o. o)

  pub context_with_session-Leads :
      (ctx : Option ℕ) (ss : Option GoSession) (s : McpServer sdk)
      → Leads s (context_with_session sdk ctx ss s).1
  unfolding context_with_session
  context_with_session-Leads ctx none s = stays s
  context_with_session-Leads ctx (some ss) s = elim (Bool-cases (str_eq ss.session_id "")) [
    | inl e ↦ rw (context_with_session, e) (stays s)
    | inr e ↦
        rw (context_with_session, e)
          (chain s (session_for sdk ss.session_id s).1 _ (session_for-Leads ss.session_id s e)
            (attach-Leads (session_for sdk ss.session_id s).0 ss.address _))
  ]

  pub bind_ephemeral_session-Leads :
      (ss : GoSession) (srv : ℕ) (s : McpServer sdk)
      → Leads s (bind_ephemeral_session sdk ss srv s).1
  unfolding bind_ephemeral_session
  bind_ephemeral_session-Leads ss srv s =
      chain s (new_client_session sdk "" s).1 _ (new_client_session-Leads "" s)
        (set_session-Leads (new_client_session sdk "" s).0 _ _ refl refl (λ o. o))

  pub bind_rehydrated_session-Leads :
      (id : String) (ss : GoSession) (srv : ℕ) (s : McpServer sdk)
      → str_eq id "" ≡ false
      → Leads s (bind_rehydrated_session sdk id ss srv s)
  unfolding bind_rehydrated_session
  bind_rehydrated_session-Leads id ss srv s ne =
      chain s (session_for sdk id s).1 _ (session_for-Leads id s ne) (
        chain _ (attach sdk a ss.address s1) _ (attach-Leads a ss.address s1) (
          chain _ (bind sdk a srv (attach sdk a ss.address s1)) _ (bind-Leads a srv _)
            (initialize-Leads a _)))
    where
      a : ℕ
      a = (session_for sdk id s).0

      s1 : McpServer sdk
      s1 = (session_for sdk id s).1

  pub register_and_sync-Leads :
      (hooks : ClientSession sdk → List (Overlay sdk)) (ss : Option GoSession) (srv : ℕ)
      (s : McpServer sdk)
      → Leads s (register_and_sync sdk hooks ss srv s)
  unfolding register_and_sync
  register_and_sync-Leads hooks none srv s = stays s
  register_and_sync-Leads hooks (some ss) srv s = elim (Bool-cases (str_eq ss.session_id "")) [
    | inl e ↦ rw (register_and_sync, e) (stays s)
    | inr e ↦ rw (register_and_sync, e) (named e)
  ]
    where
      a : ℕ
      a = (session_for sdk ss.session_id s).0

      s1 : McpServer sdk
      s1 = (session_for sdk ss.session_id s).1

      s2 : McpServer sdk
      s2 = mark_local sdk ss.session_id (bind sdk a srv (attach sdk a ss.address s1))

      named :
          str_eq ss.session_id "" ≡ false
          → Leads s (register_once sdk (s2.heap a).registered hooks srv a s2)
      named e = chain s s1 _ (session_for-Leads ss.session_id s e) (
          chain s1 (attach sdk a ss.address s1) _ (attach-Leads a ss.address s1) (
            chain _ (bind sdk a srv (attach sdk a ss.address s1)) _ (bind-Leads a srv _) (
              chain _ s2 _ (mark_local-Leads ss.session_id _)
                (register_once-Leads (s2.heap a).registered hooks srv a s2 refl))))

  pub close_channel-Leads :
      (a : ℕ) (s : McpServer sdk) → (IsSound s → IsHidden sdk a s) → Leads s (close_channel sdk a s)
  unfolding close_channel
  close_channel-Leads a s hidden h = (
    close_channel-IsSound a s (hidden h) h,
    (
      omega arith,
      λ b lt.
          set_at-cases (λ x. x.id ≡ (s.heap b).id) a b (closed sdk (s.heap a)) s.heap
            (λ p. of_closed b p (Bool-cases (s.heap a).notif_close)) refl,
      λ b lt f. f,
    ),
  )
    where
      of_closed :
          (b : ℕ)
          → a ≡ b
          → ((s.heap a).notif_close ≡ true) ⊎ ((s.heap a).notif_close ≡ false)
          → (closed sdk (s.heap a)).id ≡ (s.heap b).id
      of_closed b p (inl e) = rw (closed, e) (ap (λ x. (s.heap x).id) p)
      of_closed b p (inr e) = rw (closed, e) (ap (λ x. (s.heap x).id) p)

  -- Only its own id finds a session.
  pub unlist-IsHidden :
      (id : String) (a : ℕ) (s : McpServer sdk)
      → IsSound s
      → lookup id s.sessions ≡ some a
      → IsHidden sdk a (unlist sdk id s)
  unfolding unlist
  unlist-IsHidden id a s h e key f =
      hidden key (Bool-cases (str_eq id key)) (sym (lookup-delete id key s.sessions) ∙ f)
    where
      hidden :
          (key : String)
          → (str_eq id key ≡ true) ⊎ (str_eq id key ≡ false)
          → (if str_eq id key then none else lookup key s.sessions) ≢ some a
      hidden key (inl same) f = ground (arith, same, f)
      hidden key (inr other) f =
          let named = (h.listed id a e).1 in
          let again = (h.listed key a (rw other at f)).1 in
          absurd (ground (arith, other, (eq_iff id key).1 (sym named ∙ again)))

  pub forget_session-Leads : (id : String) (s : McpServer sdk) → Leads s (forget_session sdk id s)
  unfolding forget_session
  forget_session-Leads id s h = elim (Bool-cases (str_eq id "")) [
    | inl e ↦ rw (forget_session, e) (stays s h)
    | inr e ↦
        rw (forget_session, e)
          (chain s (unlist sdk id s) _ (unlist-Leads id s)
            (chain _ s1 _ (unmark_local-Leads id _) (found (lookup id s.sessions) refl)) h)
  ]
    where
      s1 : McpServer sdk
      s1 = unmark_local sdk id (unlist sdk id s)

      found : (o : Option ℕ) → lookup id s.sessions ≡ o → Leads s1 (close_found sdk o s1)
      found none e = stays s1
      found (some a) e = close_channel-Leads a s1 (λ i. unlist-IsHidden id a s h e)
