-- ===== src/Server/Sessions/Leads.antt =====
-- Steps of the methods keep the registry sound and the ids of its sessions.
use toolhive_core.Base.{
  ℕ, suc, ◌⊎◌, ◌≢◌, sym, Bool-cases, none, some, if◌then◌else◌, ◌≡◌, ◌<◌, ◌≤◌, refl, ap, ◌∙◌, inl,
  inr, arith, Option-cases, Bool, true, false, List, [], ◌∷◌, String, str_eq,
}
use toolhive_core.Base.Dict.{lookup, lookup-insert, lookup-delete}
use toolhive_core.Server.Sdk.{Sdk}
use toolhive_core.Server.Objects.{Present, ClientSession, fresh_session, McpServer, set_session}
use toolhive_core.Server.Overlays.{
  sync_session_tools, sync_session_resources, sync_session_resource_templates, sync_session_prompts,
  if_bound, set_session_tools, set_session_resources, set_session_resource_templates,
  set_session_prompts, Overlay, tools_overlay, resources_overlay, templates_overlay,
  prompts_overlay, set_overlay, set_overlays, sync_all,
}
use toolhive_core.Server.Sessions.{
  new_client_session, load_or_store, session_for, first_registered, swap_registered, register_once,
  unlist, IsHidden,
}
use toolhive_core.Server.Sessions.Sound.{
  IsOnce, IsSound, set_at-cases, set_session-IsSound, servers-IsSound, local_sessions-IsSound,
  unlist-IsSound, new_client_session-IsSound, load_or_store-IsSound,
}

module _ {sdk : Sdk} where
  -- The sessions that there were have the ids that they had, and those that no id found are still
  -- found by none.
  abbrev pub IsKept : McpServer sdk → McpServer sdk → Type 0
  IsKept s t =
      (s.next ≤ t.next)
      × ((a : ℕ) → a < s.next → (t.heap a).id ≡ (s.heap a).id)
      × ((a : ℕ) → a < s.next → IsHidden sdk a s → IsHidden sdk a t)

  -- From a sound registry to a sound one.
  abbrev pub Leads : McpServer sdk → McpServer sdk → Type 0
  Leads s t = IsSound s → IsSound t × IsKept s t

  pub stays : (s : McpServer sdk) → Leads s s
  stays s h = (h, (omega arith, λ a lt. refl, λ a lt f. f))

  pub chain : (s t u : McpServer sdk) → Leads s t → Leads t u → Leads s u
  chain s t u f g h =
      let (i, (lt, same, hides)) = f h in
      let (j, (lu, again, keeps)) = g i in
      (
        j,
        (
          omega (arith, lt, lu),
          λ a l. again a (omega (arith, l, lt)) ∙ same a l,
          λ a l hidden. keeps a (omega (arith, l, lt)) (hides a l hidden),
        ),
      )

  pub set_session-Leads :
      (a : ℕ) (c : ClientSession sdk) (s : McpServer sdk)
      → c.id ≡ (s.heap a).id
      → c.notif_close ≡ (s.heap a).notif_close
      → (IsOnce (s.heap a) → IsOnce c)
      → Leads s (set_session sdk a c s)
  set_session-Leads a c s same_id same_close o h = (
    set_session-IsSound a c s same_id same_close (o (h.once a)) h,
    (
      omega arith,
      λ b lt. set_at-cases (λ x. x.id ≡ (s.heap b).id) a b c s.heap (λ p. cc) refl,
      λ b lt f. f,
    ),
  )

  servers-Leads :
      (servers : ℕ → sdk.Server) (s : McpServer sdk) → Leads s (record s { servers = servers })
  servers-Leads servers s h =
      (servers-IsSound servers s h, (omega arith, λ a lt. refl, λ a lt f. f))

  pub local_sessions-Leads :
      (ids : List (String × Present)) (s : McpServer sdk)
      → Leads s (record s { local_sessions = ids })
  local_sessions-Leads ids s h =
      (local_sessions-IsSound ids s h, (omega arith, λ a lt. refl, λ a lt f. f))

  pub sync_session_tools-Leads :
      (srv a : ℕ) (s : McpServer sdk) → Leads s (sync_session_tools sdk srv a s)
  unfolding sync_session_tools
  sync_session_tools-Leads srv a s =
      chain s _ _ (set_session-Leads a _ s refl refl (λ o. o)) (servers-Leads _ _)

  pub sync_session_resources-Leads :
      (srv a : ℕ) (s : McpServer sdk) → Leads s (sync_session_resources sdk srv a s)
  unfolding sync_session_resources
  sync_session_resources-Leads srv a s = servers-Leads _ s

  pub sync_session_resource_templates-Leads :
      (srv a : ℕ) (s : McpServer sdk) → Leads s (sync_session_resource_templates sdk srv a s)
  unfolding sync_session_resource_templates
  sync_session_resource_templates-Leads srv a s = servers-Leads _ s

  pub sync_session_prompts-Leads :
      (srv a : ℕ) (s : McpServer sdk) → Leads s (sync_session_prompts sdk srv a s)
  unfolding sync_session_prompts
  sync_session_prompts-Leads srv a s = servers-Leads _ s

  if_bound-Leads :
      (sync : ℕ → ℕ → McpServer sdk → McpServer sdk) (a : ℕ) (s : McpServer sdk)
      → ((srv : ℕ) → Leads s (sync srv a s))
      → Leads s (if_bound sdk sync a s)
  if_bound-Leads sync a s f = elim (Option-cases (s.heap a).bound_server) [
    | inl e ↦ rw (if_bound, e) (stays s)
    | inr (srv, e) ↦ rw (if_bound, e) (f srv)
  ]

  pub set_overlay-Leads :
      (a : ℕ) (o : Overlay sdk) (s : McpServer sdk) → Leads s (set_overlay sdk a o s)
  unfolding set_overlay set_session_tools set_session_resources set_session_resource_templates
      set_session_prompts
  set_overlay-Leads a (tools_overlay items) s =
      chain s _ _ (set_session-Leads a (record (s.heap a) { tools = items }) s refl refl (λ o. o))
        (if_bound-Leads (sync_session_tools sdk) a _ (λ srv. sync_session_tools-Leads srv a _))
  set_overlay-Leads a (resources_overlay items) s =
      chain s _ _
        (set_session-Leads a (record (s.heap a) { resources = items }) s refl refl (λ o. o))
        (if_bound-Leads (sync_session_resources sdk) a _
          (λ srv. sync_session_resources-Leads srv a _))
  set_overlay-Leads a (templates_overlay items) s =
      chain s _ _
        (set_session-Leads a (record (s.heap a) { resource_templates = items }) s refl refl
          (λ o. o))
        (if_bound-Leads (sync_session_resource_templates sdk) a _
          (λ srv. sync_session_resource_templates-Leads srv a _))
  set_overlay-Leads a (prompts_overlay items) s =
      chain s _ _ (set_session-Leads a (record (s.heap a) { prompts = items }) s refl refl (λ o. o))
        (if_bound-Leads (sync_session_prompts sdk) a _ (λ srv. sync_session_prompts-Leads srv a _))

  set_overlays-Leads :
      (a : ℕ) (os : List (Overlay sdk)) (s : McpServer sdk) → Leads s (set_overlays sdk a os s)
  unfolding set_overlays
  set_overlays-Leads a [] s = stays s
  set_overlays-Leads a (o ∷ os) s =
      chain s _ _ (set_overlay-Leads a o s) (set_overlays-Leads a os _)

  pub sync_all-Leads : (srv a : ℕ) (s : McpServer sdk) → Leads s (sync_all sdk srv a s)
  sync_all-Leads srv a s =
      chain s (sync_session_tools sdk srv a s) _ (sync_session_tools-Leads srv a s) (
        chain _ (sync_session_resources sdk srv a (sync_session_tools sdk srv a s)) _
          (sync_session_resources-Leads srv a _)
          (chain _
            (sync_session_resource_templates sdk srv a
              (sync_session_resources sdk srv a (sync_session_tools sdk srv a s)))
            _ (sync_session_resource_templates-Leads srv a _) (sync_session_prompts-Leads srv a _)))

  pub register_once-Leads :
      (registered : Bool) (hooks : ClientSession sdk → List (Overlay sdk)) (srv a : ℕ)
      (s : McpServer sdk)
      → (s.heap a).registered ≡ registered
      → Leads s (register_once sdk registered hooks srv a s)
  unfolding register_once
  register_once-Leads true hooks srv a s was = stays s
  register_once-Leads false hooks srv a s was =
      let c = first_registered sdk (s.heap a) in
      chain s (set_session sdk a c s) _
        (set_session-Leads a c s refl refl (λ (n, f). (n, ap suc (rw was at f))))
        (chain _ (set_overlays sdk a (hooks c) (set_session sdk a c s)) _
          (set_overlays-Leads a (hooks c) _) (sync_all-Leads srv a _))

  pub swap_registered-Leads : (a : ℕ) (s : McpServer sdk) → Leads s (swap_registered sdk a s)
  unfolding swap_registered
  swap_registered-Leads a s = elim (Bool-cases (s.heap a).registered) [
    | inl e ↦ rw (swap_registered, e) (stays s)
    | inr e ↦
        rw (swap_registered, e)
          (set_session-Leads a (first_registered sdk (s.heap a)) s refl refl
            (λ (n, f). (n, ap suc (rw e at f))))
  ]

  pub new_client_session-Leads :
      (id : String) (s : McpServer sdk) → Leads s (new_client_session sdk id s).1
  unfolding new_client_session
  new_client_session-Leads id s h = (
    new_client_session-IsSound id s h,
    (
      omega arith,
      λ b lt.
          set_at-cases (λ x. x.id ≡ (s.heap b).id) s.next b (fresh_session sdk id) s.heap
            (λ p. absurd (omega (arith, lt, p))) refl,
      λ b lt f. f,
    ),
  )

  pub load_or_store-Leads :
      (id : String) (s : McpServer sdk) → str_eq id "" ≡ false → Leads s (load_or_store sdk id s).1
  unfolding load_or_store new_client_session
  load_or_store-Leads id s ne h =
      let (lt, same, hides) = (new_client_session-Leads id s h).1 in
      (
        (load_or_store-IsSound id s ne h).0,
        elim (Option-cases (lookup id s.sessions)) [
          | inl e ↦
              rw (load_or_store, e)
                (
                  lt,
                  same,
                  λ b l f key g.
                      other b l f key (Bool-cases (str_eq id key))
                        (sym (lookup-insert id key s.next s.sessions) ∙ g),
                )
          | inr (a, e) ↦ rw (load_or_store, e) (lt, same, hides)
        ],
      )
    where
      other :
          (b : ℕ)
          → b < s.next
          → IsHidden sdk b s
          → (key : String) → (str_eq id key ≡ true) ⊎ (str_eq id key ≡ false)
          → (if str_eq id key then some s.next else lookup key s.sessions) ≢ some b
      other b l f key (inl e) g =
          let new : some s.next ≡ some b = rw e at g in absurd (ground arith)
      other b l f key (inr e) g = f key (rw e at g)

  pub unlist-Leads : (id : String) (s : McpServer sdk) → Leads s (unlist sdk id s)
  unfolding unlist
  unlist-Leads id s h = (
    unlist-IsSound id s h,
    (
      omega arith,
      λ b lt. refl,
      λ b lt f key g.
          other b f key (Bool-cases (str_eq id key)) (sym (lookup-delete id key s.sessions) ∙ g),
    ),
  )
    where
      other :
          (b : ℕ)
          → IsHidden sdk b s
          → (key : String) → (str_eq id key ≡ true) ⊎ (str_eq id key ≡ false)
          → (if str_eq id key then none else lookup key s.sessions) ≢ some b
      other b f key (inl e) g = let new : none ≡ some b = rw e at g in absurd (ground arith)
      other b f key (inr e) g = f key (rw e at g)

  pub session_for-Leads :
      (id : String) (s : McpServer sdk) → str_eq id "" ≡ false → Leads s (session_for sdk id s).1
  unfolding session_for
  session_for-Leads id s ne h = elim (Option-cases (lookup id s.sessions)) [
    | inl e ↦ rw (session_for, e) (load_or_store-Leads id s ne h)
    | inr (a, e) ↦ rw (session_for, e) (stays s h)
  ]
