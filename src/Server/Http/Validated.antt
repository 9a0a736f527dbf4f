-- ===== src/Server/Http/Validated.antt =====
-- No session is served that the manager does not vouch for.
use toolhive_core.Base.{
  ◌≡◌, refl, ap, ◌∙◌, inl, inr, arith, Bool-cases, Option-cases, Bool, true, false, not, ◌||◌,
  Option, none, some, String, str_eq, if◌then◌else◌, eq_iff,
}
use mathlib.Core.Bool.{false≢true}
use toolhive_core.Base.Dict.{lookup}
use toolhive_core.Server.Sdk.{Sdk}
use toolhive_core.Server.Sessions.{is_local_session, forget_session}
use toolhive_core.Server.Http.Dropped.{
  delete_rehydrated_mcp, lookup-delete_rehydrated, lookup-forget_session,
}
use toolhive_core.Server.Http.{
  Request, Validation, Backend, StreamableHttpServer, State, Answer, refused, denial, handled,
  served_by, gate_denial, denied, write_denial, get_rehydrated, delete_rehydrated,
  validated_rehydrated, serve_rehydrated, validated_local, serve_local, admitted, serve_http,
}

abbrev pub is_held {ℓ} : {A : Type ℓ} → Option A → Bool
is_held none = false
is_held (some a) = true

module _ {sdk : Sdk} {backend : Backend sdk} where
  -- Whether a request reached a session or the SDK.
  abbrev pub is_forwarded : Answer backend → Bool
  is_forwarded (refused status message) = false
  is_forwarded (denial status id code message) = false
  is_forwarded (handled rewrites) = true
  is_forwarded (served_by ss) = true

  validated_local-forwarded :
      (sid : String) (v : Validation) (s : State backend)
      → is_forwarded (validated_local backend sid v s).0 ≡ true
      → (v.is_terminated ≡ false) × (v.failed ≡ false)
  unfolding validated_local
  validated_local-forwarded sid v s h = ground arith

  validated_rehydrated-forwarded :
      (sid : String) (v : Validation) (s : State backend)
      → is_forwarded (validated_rehydrated backend sid v s).0 ≡ true
      → (v.is_terminated ≡ false) × (v.failed ≡ false)
  unfolding validated_rehydrated
  validated_rehydrated-forwarded sid v s h = ground arith

  -- A server with a manager that keeps sessions forwards a request that names a session, unless it
  -- deletes the session, only if the gate does not deny it and the manager, asked for this very
  -- request, says that the session is not terminated, without an error.
  pub serve_http-validate :
      (config : StreamableHttpServer backend) (r : Request) (s : State backend)
      → config.has_manager ≡ true
      → config.stateless ≡ false
      → str_eq r.method "DELETE" ≡ false
      → str_eq r.session_id "" ≡ false
      → is_forwarded (serve_http backend config r s).0 ≡ true
      → (gate_denial backend config r ≡ none)
        × ((backend.validate r.session_id s.store).0.is_terminated ≡ false)
        × ((backend.validate r.session_id s.store).0.failed ≡ false)
  unfolding serve_http denied admitted serve_rehydrated serve_local write_denial
  serve_http-validate config r s m st d n h = elim (Bool-cases config.build_error) [
    | inl e ↦ absurd (false≢true (rw e at h))
    | inr e ↦ elim (Option-cases (gate_denial backend config r)) [
      | inr (why, g) ↦ absurd (false≢true (rw (e, denied, g) at h))
      | inl g ↦ let (t, f) = asked (rw (e, denied, g, admitted, st, d, n, m) at h) in (g, t, f)
    ]
  ]
    where
      asked :
          is_forwarded
              (if not (is_local_session sdk r.session_id s.mcp)
                then serve_rehydrated backend r.session_id s
                else serve_local backend r.session_id s).0
            ≡ true
          → ((backend.validate r.session_id s.store).0.is_terminated ≡ false)
            × ((backend.validate r.session_id s.store).0.failed ≡ false)
      asked f = elim (Bool-cases (is_local_session sdk r.session_id s.mcp)) [
        | inl e ↦ validated_local-forwarded r.session_id _ _ (rw (e, serve_local) at f)
        | inr e ↦ validated_rehydrated-forwarded r.session_id _ _ (rw (e, serve_rehydrated) at f)
      ]

  -- A request that is neither denied nor a deletion comes to one of the two validations.
  pub serve_http_asks :
      (config : StreamableHttpServer backend) (r : Request) (s : State backend)
      → config.build_error ≡ false
      → gate_denial backend config r ≡ none
      → config.has_manager ≡ true
      → config.stateless ≡ false
      → str_eq r.method "DELETE" ≡ false
      → str_eq r.session_id "" ≡ false
      → serve_http backend config r s ≡ (
          if not (is_local_session sdk r.session_id s.mcp)
          then serve_rehydrated backend r.session_id s
          else serve_local backend r.session_id s)
  unfolding serve_http denied admitted
  serve_http_asks config r s b g m st d n = rw (b, denied, g, admitted, st, d, n, m) refl

  -- A session that the manager says is terminated.
  validated_rehydrated_gone :
      (sid : String) (v : Validation) (s : State backend)
      → v.is_terminated ≡ true
      → validated_rehydrated backend sid v s
        ≡ (refused 404 "Session terminated", delete_rehydrated backend sid s)
  unfolding validated_rehydrated
  validated_rehydrated_gone sid v s t = rw t refl

  validated_local_gone :
      (sid : String) (v : Validation) (s : State backend)
      → v.is_terminated ≡ true
      → validated_local backend sid v s ≡ (
        refused 404 "Session terminated",
        delete_rehydrated backend sid (record s { mcp = forget_session sdk sid s.mcp }),
      )
  unfolding validated_local
  validated_local_gone sid v s t = rw t refl

  -- What is left of a session.
  abbrev pub IsDropped : String → State backend → Type 0
  IsDropped sid s = (lookup sid s.mcp.local_sessions ≡ none) × (lookup sid s.rehydrated ≡ none)

  -- On a server with a manager, a request that is not denied and names a session, unless it deletes the
  -- session, is refused with 404 if the manager says that the session is terminated; the session is
  -- then neither local nor held as one made on another replica.
  pub serve_http-IsDropped :
      (config : StreamableHttpServer backend) (r : Request) (s : State backend)
      → config.build_error ≡ false
      → gate_denial backend config r ≡ none
      → config.has_manager ≡ true
      → config.stateless ≡ false
      → str_eq r.method "DELETE" ≡ false
      → str_eq r.session_id "" ≡ false
      → (backend.validate r.session_id s.store).0.is_terminated ≡ true
      → ((serve_http backend config r s).0 ≡ refused 404 "Session terminated")
        × IsDropped r.session_id (serve_http backend config r s).1
  unfolding serve_rehydrated serve_local is_local_session
  serve_http-IsDropped config r s b g m st d n t =
      elim (Option-cases (lookup sid s.mcp.local_sessions)) [
        | inl e ↦
            rw
              (
                serve_http_asks config r s b g m st d n,
                is_local_session,
                e,
                validated_rehydrated_gone sid v s1 t,
              )
              (
                refl,
                (
                  ap (λ x. lookup sid x.local_sessions) (delete_rehydrated_mcp sid s1) ∙ e,
                  lookup-delete_rehydrated sid sid s1 n ∙ same (lookup sid s.rehydrated),
                ),
              )
        | inr (x, e) ↦
            rw
              (
                serve_http_asks config r s b g m st d n,
                is_local_session,
                e,
                validated_local_gone sid v s1 t,
              )
              (
                refl,
                (
                  ap (λ x. lookup sid x.local_sessions) (delete_rehydrated_mcp sid s2)
                      ∙ lookup-forget_session sid sid s.mcp n
                      ∙ same (lookup sid s.mcp.local_sessions),
                  lookup-delete_rehydrated sid sid s2 n ∙ same (lookup sid s.rehydrated),
                ),
              )
      ]
    where
      sid : String
      sid = r.session_id

      v : Validation
      v = (backend.validate sid s.store).0

      s1 : State backend
      s1 = record s { store = (backend.validate sid s.store).1 }

      s2 : State backend
      s2 = record s1 { mcp = forget_session sdk sid s.mcp }

      same : {A : Type 0} (o : Option A) → (if str_eq sid sid then none else o) ≡ none
      same o = rw ((eq_iff sid sid).1 refl) refl

  -- On a server with a manager, a request that is not denied and names a session, unless it deletes the
  -- session, changes nothing but the manager's store if the manager fails without saying that the session
  -- is terminated. It is refused with 503 if the session is local or held as one made on another replica,
  -- and with 404 if not.
  pub serve_http_transient :
      (config : StreamableHttpServer backend) (r : Request) (s : State backend)
      → config.build_error ≡ false
      → gate_denial backend config r ≡ none
      → config.has_manager ≡ true
      → config.stateless ≡ false
      → str_eq r.method "DELETE" ≡ false
      → str_eq r.session_id "" ≡ false
      → (backend.validate r.session_id s.store).0.is_terminated ≡ false
      → (backend.validate r.session_id s.store).0.failed ≡ true
      → serve_http backend config r s ≡ (
        if is_local_session sdk r.session_id s.mcp
              || is_held (get_rehydrated backend r.session_id s)
            then refused 503 "session validation unavailable"
            else refused 404 "Invalid session ID",
        record s { store = (backend.validate r.session_id s.store).1 },
      )
  unfolding serve_rehydrated serve_local validated_local validated_rehydrated get_rehydrated
  serve_http_transient config r s b g m st d n t f =
      serve_http_asks config r s b g m st d n
      ∙ elim (Bool-cases (is_local_session sdk r.session_id s.mcp)) [
        | inl e ↦ rw (e, validated_local, t, f) refl
        | inr e ↦ elim (Option-cases (lookup r.session_id s.rehydrated)) [
          | inl none_held ↦ rw (e, validated_rehydrated, t, f, none_held) refl
          | inr (ss, held) ↦ rw (e, validated_rehydrated, t, f, held) refl
        ]
      ]
