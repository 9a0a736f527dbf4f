-- ===== src/Server/Small.antt =====
-- A small SDK for runs: a server is the list of its tools' names.
use toolhive_core.Base.{
  ◌≡◌, refl, arith, Bool, true, false, not, ◌&&◌, ◌||◌, List, ◌∷◌, Option, none, some, String,
  str_eq, if◌then◌else◌,
}
use toolhive_core.Server.Sdk.{has_name, gone, has_name-gone, Sdk}

-- A tool and whether its schema is an object's.
abbrev pub small_add : String × Bool → List String → Option (List String)
small_add tool srv = if tool.1 then some (tool.0 ∷ srv) else none

pub small_add_has :
    (name : String) (tool : String × Bool) (srv after : List String)
    → small_add tool srv ≡ some after
    → has_name name after ≡ (str_eq tool.0 name || has_name name srv)
small_add_has name (tool, true) srv after e = ground (arith, e)
small_add_has name (tool, false) srv after e = absurd (ground (arith, e))

pub small_add_accepted :
    (tool : String × Bool) (srv : List String)
    → tool.1 ≡ true
    → (after : List String) × (small_add tool srv ≡ some after)
small_add_accepted tool srv e = (tool.0 ∷ srv, rw e refl)

pub small_remove_has :
    (name : String) (names srv : List String)
    → has_name name (gone names srv) ≡ (not (has_name name names) && has_name name srv)
small_remove_has name names srv = ground (arith, has_name-gone name names srv)

pub small_name : (item tool : String × Bool) → some item ≡ some tool → tool.0 ≡ item.0
small_name item tool e = ground (arith, e)

abbrev pub small_sdk : Sdk
small_sdk = record {
  Server = List String;
  Item = String × Bool;
  GoItem = String × Bool;
  item_name = λ i. i.0;
  go_name = λ i. i.0;
  to_go_tool = λ i. some i;
  to_go_resource = λ i. some i;
  to_go_template = λ i. some i;
  to_go_prompt = λ i. some i;
  add_tool = small_add;
  add_resource = λ i srv. srv;
  add_template = λ i srv. some srv;
  add_prompt = λ i srv. srv;
  is_accepted = λ i. i.1;
  remove_tools = λ names srv. gone names srv;
  has_tool = has_name;
  go_name-to_go_tool = λ item tool e. small_name item tool e;
  has-add_tool = small_add_has;
  add_tool_accepted = small_add_accepted;
  add_tool_refused = λ tool srv e. rw e refl;
  has-remove_tools = small_remove_has;
}
