-- ===== src/Server/Sessions/Tools.antt =====
-- The tools of an overlay and those of the SDK's server.
use toolhive_core.Base.{
  ℕ, ◌≡◌, refl, sym, ap, ◌∙◌, inl, inr, arith, Bool-cases, Option-cases, Bool, true, false, not,
  ◌&&◌, ◌||◌, List, [], ◌∷◌, none, some, String, str_eq, ltb, suc, length,
}
use mathlib.Core.Path.{subst}
use toolhive_core.Server.Sdk.{has_name, gone, has_name-gone, Sdk}
use toolhive_core.Server.Objects.{set_at, ClientSession, McpServer, set_session}
use toolhive_core.Server.Overlays.{
  add_session_tool, named_if, add_session_tools, removed_from, sync_session_tools, if_bound,
  set_session_tools,
}

module _ (sdk : Sdk) where
  abbrev pub IsKeyed : List (String × sdk.Item) → Type 0
  IsKeyed [] = Unit
  IsKeyed ((name, item) ∷ rest) = (sdk.item_name item ≡ name) × IsKeyed rest

  abbrev pub converts : sdk.Item → Bool
  converts item = elim (sdk.to_go_tool item) [ none ↦ false | some tool ↦ sdk.is_accepted tool ]

  -- The names of the items that can be added.
  abbrev pub accepted_names : List (String × sdk.Item) → List String
  accepted_names [] = []
  accepted_names ((name, item) ∷ rest) = named_if sdk name (converts item) (accepted_names rest)

  -- What the loop is to do.
  abbrev Added : List (String × sdk.Item) → sdk.Server → List String × sdk.Server → Type 0
  Added items srv (names, after) =
      (names ≡ accepted_names items)
      × ((name : String)
          → sdk.has_tool name after
            ≡ (has_name name (accepted_names items) || sdk.has_tool name srv))

  accepted_first :
      (key : String) (item : sdk.Item) (rest : List (String × sdk.Item)) (tool : sdk.GoItem)
      → sdk.to_go_tool item ≡ some tool
      → sdk.is_accepted tool ≡ true
      → accepted_names ((key, item) ∷ rest) ≡ key ∷ accepted_names rest
  accepted_first key item rest tool e accepted = rw (accepted_names, converts, e, accepted) refl

  added_first :
      (key : String) (item : sdk.Item) (rest : List (String × sdk.Item)) (tool : sdk.GoItem)
      (srv after : sdk.Server)
      → sdk.to_go_tool item ≡ some tool
      → sdk.add_tool tool srv ≡ some after
      → add_session_tools sdk ((key, item) ∷ rest) srv
        ≡ (key ∷ (add_session_tools sdk rest after).0, (add_session_tools sdk rest after).1)
  unfolding add_session_tools add_session_tool
  added_first key item rest tool srv after e added =
      rw (add_session_tools, e, add_session_tool, added) refl

  add_session_tools-Added :
      (items : List (String × sdk.Item)) (srv : sdk.Server)
      → IsKeyed items
      → Added items srv (add_session_tools sdk items srv)
  unfolding add_session_tools add_session_tool
  add_session_tools-Added [] srv k = (refl, λ name. refl)
  add_session_tools-Added ((key, item) ∷ rest) srv (named, k) =
      elim (Option-cases (sdk.to_go_tool item)) [
        | inl e ↦
            rw (add_session_tools, accepted_names, converts, e) (add_session_tools-Added rest srv k)
        | inr (tool, e) ↦ elim (Bool-cases (sdk.is_accepted tool)) [
          | inr refused ↦
              rw
                (
                  add_session_tools,
                  accepted_names,
                  converts,
                  e,
                  refused,
                  add_session_tool,
                  sdk.add_tool_refused tool srv refused,
                )
                (add_session_tools-Added rest srv k)
          | inl accepted ↦
              let (after, added) = sdk.add_tool_accepted tool srv accepted in
              let (names, has) = add_session_tools-Added rest after k in
              let put : (name : String)
                  → sdk.has_tool name after ≡ (str_eq key name || sdk.has_tool name srv) =
                λ name.
                  sdk.has-add_tool name tool srv after added
                  ∙ ap (λ k. str_eq k name || sdk.has_tool name srv)
                      (sdk.go_name-to_go_tool item tool e ∙ named) in
              subst (Added ((key, item) ∷ rest) srv)
                (sym (added_first key item rest tool srv after e added))
                (
                  ap (λ ns. key ∷ ns) names ∙ sym (accepted_first key item rest tool e accepted),
                  λ name.
                      has name
                      ∙ rw (accepted_first key item rest tool e accepted)
                          (ground (arith, put name)),
                )
        ]
      ]

  has_tool-removed_from :
      (name : String) (names : List String) (srv : sdk.Server)
      → sdk.has_tool name (removed_from sdk names srv)
        ≡ (not (has_name name names) && sdk.has_tool name srv)
  has_tool-removed_from name [] srv = refl
  has_tool-removed_from name (n ∷ names) srv =
      let positive : ltb 0 (suc (length names)) ≡ true = ground arith in
      rw positive (sdk.has-remove_tools name (n ∷ names) srv)

  set_at_servers : (a : ℕ) (v : sdk.Server) (servers : ℕ → sdk.Server) → set_at a v servers a ≡ v
  set_at_servers a v servers = ground arith

  -- What a server has after its session's tools are reconciled.
  abbrev pub Reconciles :
      ℕ → List (String × sdk.Item) → List String → McpServer sdk → McpServer sdk → Type 0
  Reconciles srv items old s t =
      (name : String)
      → sdk.has_tool name (t.servers srv) ≡ (
          has_name name (accepted_names items)
          || (not (has_name name old) && sdk.has_tool name (s.servers srv)))

  sync_session_tools-Reconciles :
      (srv a : ℕ) (s : McpServer sdk)
      → IsKeyed (s.heap a).tools
      → Reconciles srv (s.heap a).tools (s.heap a).sdk_tool_names s (sync_session_tools sdk srv a s)
  unfolding sync_session_tools
  sync_session_tools-Reconciles srv a s k name =
      let (names, has) = add_session_tools-Added (s.heap a).tools (s.servers srv) k in
      let new = (add_session_tools sdk (s.heap a).tools (s.servers srv)).0 in
      let srv1 = (add_session_tools sdk (s.heap a).tools (s.servers srv)).1 in
      let old = (s.heap a).sdk_tool_names in
      let left = has_tool-removed_from name (gone new old) srv1 in
      let away = has_name-gone name new old in
      let same : has_name name new ≡ has_name name (accepted_names (s.heap a).tools) =
        ap (has_name name) names in
      ap (sdk.has_tool name) (set_at_servers srv (removed_from sdk (gone new old) srv1) s.servers)
      ∙ left
      ∙ ground (arith, away, same, has name)

  -- A bound session's new overlay, with items under their own names, is reconciled with the server: the
  -- server then has the tools of the overlay that can be added and, of the tools that it had, those
  -- that the session had not added itself.
  pub set_session_tools-Reconciles :
      (srv a : ℕ) (items : List (String × sdk.Item)) (s : McpServer sdk)
      → (s.heap a).bound_server ≡ some srv
      → IsKeyed items
      → Reconciles srv items (s.heap a).sdk_tool_names s (set_session_tools sdk a items s)
  unfolding set_session_tools
  set_session_tools-Reconciles srv a items s bound k name =
      ap (λ t. sdk.has_tool name (t.servers srv)) synced
      ∙ sync_session_tools-Reconciles srv a s1 (subst IsKeyed (sym (ap (λ x. x.tools) here)) k) name
      ∙ ap
          (λ x.
            has_name name (accepted_names x.tools)
            || (not (has_name name x.sdk_tool_names) && sdk.has_tool name (s.servers srv)))
          here
    where
      c : ClientSession sdk
      c = record (s.heap a) { tools = items }

      s1 : McpServer sdk
      s1 = set_session sdk a c s

      here : s1.heap a ≡ c
      here = ground arith

      bound_here : (s1.heap a).bound_server ≡ some srv
      bound_here = ap (λ x. x.bound_server) here ∙ bound

      synced : if_bound sdk (sync_session_tools sdk) a s1 ≡ sync_session_tools sdk srv a s1
      synced = ap (λ o. elim o [ none ↦ s1 | some at ↦ sync_session_tools sdk at a s1 ]) bound_here
