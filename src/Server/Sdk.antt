-- ===== src/Server/Sdk.antt =====
-- What the server relies on of the SDK for MCP, and what it counts of it: a server of the SDK holds
-- features, and a session of the SDK has an id, which is empty where requests are stateless.
use toolhive_core.Base.{
  ℕ, ◌≡◌, Bool, not, ◌&&◌, List, [], ◌∷◌, ◌||◌, any, keep, ap, refl, eq_iff, arith, Bool-cases, inl,
  inr, Option, none, some, true, false, String, str_eq,
}

-- A session of the SDK, and the address of it.
pub record GoSession : Type 0 where
  pub session_id : String
  pub address : ℕ

abbrev pub has_name : String → List String → Bool
has_name name names = any (λ n. str_eq n name) names

-- The names that are not among the new ones.
abbrev pub gone : List String → List String → List String
gone new_names = keep (λ name. not (has_name name new_names))

pub has_name-gone :
    (name : String) (new old : List String)
    → has_name name (gone new old) ≡ (has_name name old && not (has_name name new))
has_name-gone name new [] = refl
has_name-gone name new (n ∷ old) =
    let ih = has_name-gone name new old in
    let same : str_eq n name ≡ true → has_name n new ≡ has_name name new =
      λ q. ap (λ k. has_name k new) ((eq_iff n name).0 q) in
    elim (Bool-cases (has_name n new)) [
      | inl e ↦ rw e (ground (arith, ih, e, same))
      | inr e ↦ rw e (ground (arith, ih, e, same))
    ]

-- Servers of the SDK, and the items of a session's overlay with their handlers. A conversion fails
-- with `none`, and so does an addition that panics, before the server is changed. A tool that is added
-- replaces that of its name, and a removal leaves the other tools. Whether it panics is a matter of the
-- tool's schema alone (`is_accepted`).
pub record Sdk : Type 1 where
  pub Server : Type 0
  pub Item : Type 0
  pub GoItem : Type 0
  pub item_name : Item → String
  pub go_name : GoItem → String
  pub to_go_tool : Item → Option GoItem
  pub to_go_resource : Item → Option GoItem
  pub to_go_template : Item → Option GoItem
  pub to_go_prompt : Item → Option GoItem
  pub add_tool : GoItem → Server → Option Server
  pub add_resource : GoItem → Server → Server
  pub add_template : GoItem → Server → Option Server
  pub add_prompt : GoItem → Server → Server
  pub is_accepted : GoItem → Bool
  pub remove_tools : List String → Server → Server
  pub has_tool : String → Server → Bool
  pub go_name-to_go_tool :
      (item : Item) (tool : GoItem) → to_go_tool item ≡ some tool → go_name tool ≡ item_name item
  pub has-add_tool :
      (name : String) (tool : GoItem) (srv after : Server)
      → add_tool tool srv ≡ some after
      → has_tool name after ≡ (str_eq (go_name tool) name || has_tool name srv)
  pub add_tool_accepted :
      (tool : GoItem) (srv : Server)
      → is_accepted tool ≡ true
      → (after : Server) × (add_tool tool srv ≡ some after)
  pub add_tool_refused :
      (tool : GoItem) (srv : Server) → is_accepted tool ≡ false → add_tool tool srv ≡ none
  pub has-remove_tools :
      (name : String) (names : List String) (srv : Server)
      → has_tool name (remove_tools names srv) ≡ (not (has_name name names) && has_tool name srv)
