-- ===== src/Server/Http/Dropped.antt =====
-- What is left of a session that is dropped.
use toolhive_core.Base.{
  ℕ, ◌≡◌, refl, ap, ◌∙◌, false, Option, none, some, String, str_eq, if◌then◌else◌, Bool-cases, inl,
  inr,
}
use toolhive_core.Base.Dict.{lookup, lookup-delete}
use toolhive_core.Server.Sdk.{GoSession, Sdk}
use toolhive_core.Server.Objects.{McpServer}
use toolhive_core.Server.Sessions.{close_found, close_channel, forget_session}
use toolhive_core.Server.Http.{Backend, State, close_session, delete_rehydrated}

module _ {sdk : Sdk} {backend : Backend sdk} where
  close_session_rehydrated :
      (o : Option GoSession) (s : State backend)
      → (close_session backend o s).rehydrated ≡ s.rehydrated
  unfolding close_session
  close_session_rehydrated none s = refl
  close_session_rehydrated (some ss) s = refl

  close_session_mcp :
      (o : Option GoSession) (s : State backend) → (close_session backend o s).mcp ≡ s.mcp
  unfolding close_session
  close_session_mcp none s = refl
  close_session_mcp (some ss) s = refl

  pub delete_rehydrated_mcp :
      (sid : String) (s : State backend) → (delete_rehydrated backend sid s).mcp ≡ s.mcp
  unfolding delete_rehydrated
  delete_rehydrated_mcp sid s = elim (Bool-cases (str_eq sid "")) [
    | inl e ↦ rw (delete_rehydrated, e) refl
    | inr e ↦ rw (delete_rehydrated, e) (close_session_mcp (lookup sid s.rehydrated) _)
  ]

  pub lookup-delete_rehydrated :
      (sid key : String) (s : State backend)
      → str_eq sid "" ≡ false
      → lookup key (delete_rehydrated backend sid s).rehydrated
        ≡ (if str_eq sid key then none else lookup key s.rehydrated)
  unfolding delete_rehydrated
  lookup-delete_rehydrated sid key s n =
      rw (delete_rehydrated, n)
        (ap (lookup key) (close_session_rehydrated (lookup sid s.rehydrated) _)
          ∙ lookup-delete sid key s.rehydrated)

module _ {sdk : Sdk} where
  close_found_local :
      (o : Option ℕ) (s : McpServer sdk) → (close_found sdk o s).local_sessions ≡ s.local_sessions
  unfolding close_found close_channel
  close_found_local none s = refl
  close_found_local (some a) s = refl

  pub lookup-forget_session :
      (sid key : String) (s : McpServer sdk)
      → str_eq sid "" ≡ false
      → lookup key (forget_session sdk sid s).local_sessions
        ≡ (if str_eq sid key then none else lookup key s.local_sessions)
  unfolding forget_session
  lookup-forget_session sid key s n =
      rw (forget_session, n)
        (ap (lookup key) (close_found_local (lookup sid s.sessions) _)
          ∙ lookup-delete sid key s.local_sessions)
