-- ===== src/Server/Messages/Tests.antt =====
-- Runs of messages that are parsed already.
use toolhive_core.Base.{ℕ, ◌≡◌, ◌↔◌, refl, true, false, [], ◌∷◌, Option, none, some, String, ok}
use toolhive_core.Base.Dict.{lookup}
use toolhive_core.Server.Messages.{
  BaseMessage, Protocol, ServerTool, Registered, called, success_response, error_response,
  invalid_params, unknown_tool, method_not_found, unknown_method, build_capabilities, respond,
  call_tool, handle_tool_call, dispatch, handle_base, handle_message,
}
use toolhive_core.Server.Messages.Answered.{
  IsAnswered, handle_message-IsAnswered, handle_tool_call_iff,
}

-- A message with the name that its request has.
abbrev protocol : Protocol
protocol = record {
  Raw = BaseMessage ℕ ℕ × String;
  RequestId = ℕ;
  Value = ℕ;
  Tool = ℕ;
  Resource = ℕ;
  Template = ℕ;
  Prompt = ℕ;
  Request = String;
  Contents = ℕ;
  ToolResult = String;
  ReadResult = ℕ;
  PromptResult = ℕ;
  parse_base = λ m. some m.0;
  parse_tool_call = λ m. ok (m.1, "arguments");
  parse_read = λ m. ok (m.1, "arguments");
  parse_get_prompt = λ m. ok (m.1, "arguments");
  empty_read = 0;
  read_of_contents = λ c. c;
}

abbrev echo : ServerTool protocol
echo = record { tool = 1; handler = λ req. ok req }

abbrev registered : Registered protocol
registered = record {
  name = "server";
  version = "1";
  tools = ("echo", echo) ∷ [];
  resources = [];
  resource_templates = [];
  prompts = [];
  tools_declared = true;
  tool_list_changed = false;
  resource_list_changed = false;
  resource_subscribe = false;
  prompt_list_changed = false;
  logging = false;
}

abbrev base : String → Option ℕ → Option ℕ → BaseMessage ℕ ℕ
base method id result = record { jsonrpc = "2.0"; method = method; id = id; result = result }

called_test :
    handle_message protocol (base "tools/call" (some 5) none, "echo") registered
    ≡ some (success_response (some 5) (called "arguments"))
unfolding handle_message handle_base dispatch handle_tool_call call_tool respond lookup
called_test = refl

unknown_test :
    handle_message protocol (base "tools/call" (some 5) none, "other") registered
    ≡ some (error_response (some 5) invalid_params (unknown_tool "other"))
unfolding handle_message handle_base dispatch handle_tool_call call_tool lookup
unknown_test = refl

notification_test : handle_message protocol (base "tools/call" none none, "echo") registered ≡ none
unfolding handle_message handle_base
notification_test = refl

-- An error that answers a request of the server has an id and no result, and no method.
error_answer_test :
    handle_message protocol (base "" (some 5) none, "") registered
    ≡ some (error_response (some 5) method_not_found (unknown_method ""))
unfolding handle_message handle_base dispatch
error_answer_test = refl

-- The option was used, without tools.
declared_test :
    build_capabilities protocol (record registered { tools = [] })
    ≡ record { tools = none; resources = none; prompts = none; logging = false }
unfolding build_capabilities
declared_test = refl

handle_message-IsAnswered_example :
    IsAnswered {p = protocol}
      (base "tools/call" (some 5) none)
      (handle_message protocol (base "tools/call" (some 5) none, "echo") registered)
handle_message-IsAnswered_example =
    handle_message-IsAnswered {p = protocol} (base "tools/call" (some 5) none)
      (base "tools/call" (some 5) none, "echo") registered refl

handle_tool_call_iff_example :
    (handle_tool_call protocol 5 (base "tools/call" (some 5) none, "echo") registered
      ≡ success_response (some 5) (called "arguments"))
    ↔ ((name : String) × (req : String) × (st : ServerTool protocol) × (protocol.parse_tool_call
            (base "tools/call" (some 5) none, "echo")
          ≡ ok (name, req))
        × (lookup name registered.tools ≡ some st)
        × (st.handler req ≡ ok "arguments"))
handle_tool_call_iff_example =
    handle_tool_call_iff {p = protocol} 5 (base "tools/call" (some 5) none, "echo") registered
      "arguments"
