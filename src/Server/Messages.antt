-- ===== src/Server/Messages.antt =====
-- Messages handled one at a time (mcpcompat/server/request_handler.go). JSON, the handlers and the
-- encoding of results are parameters; the texts of errors are constructors.
pub mod Answered
mod Tests
use toolhive_core.Base.{
  ℕ, ◌≡◌, Bool, true, false, not, ◌&&◌, ◌||◌, List, [], ◌∷◌, map, Option, none, some, String,
  str_eq, if◌then◌else◌, ◌+◌, length, ltb, Except, ok, err,
}
use toolhive_core.Base.Int.{ℤ, negsuc}
use toolhive_core.Base.Dict.{lookup}

-- The fields that every message may have; `id` and `result` are nil where they are absent or null.
pub record BaseMessage (RequestId : Type 0) (Value : Type 0) : Type 0 where
  pub jsonrpc : String
  pub method : String
  pub id : Option RequestId
  pub result : Option Value

-- The types of the protocol and their parsers: a message, and the requests that name a tool, a resource
-- or a prompt, with the text of the error. A handler's context is part of its request here.
pub record Protocol : Type 1 where
  pub Raw : Type 0
  pub RequestId : Type 0
  pub Value : Type 0
  pub Tool : Type 0
  pub Resource : Type 0
  pub Template : Type 0
  pub Prompt : Type 0
  pub Request : Type 0
  pub Contents : Type 0
  pub ToolResult : Type 0
  pub ReadResult : Type 0
  pub PromptResult : Type 0
  pub parse_base : Raw → Option (BaseMessage RequestId Value)
  pub parse_tool_call : Raw → Except String (String × Request)
  pub parse_read : Raw → Except String (String × Request)
  pub parse_get_prompt : Raw → Except String (String × Request)
  pub empty_read : ReadResult
  pub read_of_contents : Contents → ReadResult

abbrev pub jsonrpc_version : String
jsonrpc_version = "2.0"

abbrev pub latest_protocol_version : String
latest_protocol_version = "2025-11-25"

abbrev pub parse_error : ℤ
parse_error = negsuc 32699

abbrev pub invalid_request : ℤ
invalid_request = negsuc 32599

abbrev pub method_not_found : ℤ
method_not_found = negsuc 32600

abbrev pub invalid_params : ℤ
invalid_params = negsuc 32601

abbrev pub internal_error : ℤ
internal_error = negsuc 32602

abbrev pub resource_not_found : ℤ
resource_not_found = negsuc 32001

-- A capability is there or not, with its flags: that its list may change and, of resources, that they
-- may be subscribed to.
pub record ServerCapabilities : Type 0 where
  pub tools : Option Bool
  pub resources : Option (Bool × Bool)
  pub prompts : Option Bool
  pub logging : Bool

-- The texts of errors.
pub data Problem : Type 0 where
  failed_to_parse invalid_version : Problem
  unknown_method unknown_tool unknown_resource unknown_prompt : String → Problem
  error_text : String → Problem

module _ (p : Protocol) where
  pub record ServerTool : Type 0 where
    pub tool : p.Tool
    pub handler : p.Request → Except String p.ToolResult

  -- `result_handler` is nil for a resource that has contents alone, and may return nil.
  pub record ServerResource : Type 0 where
    pub resource : p.Resource
    pub handler : p.Request → Except String p.Contents
    pub result_handler : Option (p.Request → Except String (Option p.ReadResult))

  pub record ServerPrompt : Type 0 where
    pub prompt : p.Prompt
    pub handler : p.Request → Except String p.PromptResult

  -- What is registered with a server, and its flags.
  pub record Registered : Type 0 where
    pub name : String
    pub version : String
    pub tools : List (String × ServerTool)
    pub resources : List (String × ServerResource)
    pub resource_templates : List (String × p.Template)
    pub prompts : List (String × ServerPrompt)
    pub tools_declared : Bool
    pub tool_list_changed : Bool
    pub resource_list_changed : Bool
    pub resource_subscribe : Bool
    pub prompt_list_changed : Bool
    pub logging : Bool

  pub data Result : Type 0 where
    initialized : String → String → String → ServerCapabilities → Result
    empty : Result
    tools_listed : List p.Tool → Result
    resources_listed : List p.Resource → Result
    templates_listed : List p.Template → Result
    prompts_listed : List p.Prompt → Result
    called : p.ToolResult → Result
    read : p.ReadResult → Result
    prompted : p.PromptResult → Result

  pub data JsonrpcMessage : Type 0 where
    success_response : Option p.RequestId → Result → JsonrpcMessage
    error_response : Option p.RequestId → ℤ → Problem → JsonrpcMessage

  unfoldable pub build_capabilities : Registered → ServerCapabilities
  build_capabilities s =
      let n_resources = length s.resources + length s.resource_templates in
      record {
        tools =
            if ltb 0 (length s.tools) || s.tool_list_changed
            then some s.tool_list_changed
            else none;
        resources =
            if ltb 0 n_resources || s.resource_list_changed || s.resource_subscribe
            then some (s.resource_list_changed, s.resource_subscribe)
            else none;
        prompts =
            if ltb 0 (length s.prompts) || s.prompt_list_changed
            then some s.prompt_list_changed
            else none;
        logging = s.logging;
      }

  unfoldable pub handle_initialize : Registered → Result
  handle_initialize s = initialized latest_protocol_version s.name s.version (build_capabilities s)

  unfoldable pub handle_list_tools : Registered → Result
  handle_list_tools s = tools_listed (map (λ e. e.1.tool) s.tools)

  unfoldable pub handle_list_resources : Registered → Result
  handle_list_resources s = resources_listed (map (λ e. e.1.resource) s.resources)

  unfoldable pub handle_list_resource_templates : Registered → Result
  handle_list_resource_templates s = templates_listed (map (λ e. e.1) s.resource_templates)

  unfoldable pub handle_list_prompts : Registered → Result
  handle_list_prompts s = prompts_listed (map (λ e. e.1.prompt) s.prompts)

  -- A handler's value or its error.
  unfoldable pub respond {ℓ} :
      {A : Type ℓ} → p.RequestId → (A → Result) → Except String A → JsonrpcMessage
  respond id f (ok a) = success_response (some id) (f a)
  respond id f (err text) = error_response (some id) internal_error (error_text text)

  unfoldable pub call_tool : p.RequestId → String × p.Request → Registered → JsonrpcMessage
  unfolding respond
  call_tool id (name, req) s = elim (lookup name s.tools) [
    | none ↦ error_response (some id) invalid_params (unknown_tool name)
    | some st ↦ respond id called (st.handler req)
  ]

  unfoldable pub handle_tool_call : p.RequestId → p.Raw → Registered → JsonrpcMessage
  unfolding call_tool
  handle_tool_call id message s = elim (p.parse_tool_call message) [
    | err text ↦ error_response (some id) invalid_request (error_text text)
    | ok req ↦ call_tool id req s
  ]

  abbrev pub or_empty : Option p.ReadResult → p.ReadResult
  or_empty none = p.empty_read
  or_empty (some r) = r

  unfoldable pub read_from : p.RequestId → p.Request → ServerResource → JsonrpcMessage
  unfolding respond
  read_from id req sr = elim sr.result_handler [
    | some handler ↦ respond id (λ r. read (or_empty r)) (handler req)
    | none ↦ respond id (λ c. read (p.read_of_contents c)) (sr.handler req)
  ]

  unfoldable pub read_resource : p.RequestId → String × p.Request → Registered → JsonrpcMessage
  unfolding read_from
  read_resource id (uri, req) s = elim (lookup uri s.resources) [
    | none ↦ error_response (some id) resource_not_found (unknown_resource uri)
    | some sr ↦ read_from id req sr
  ]

  unfoldable pub handle_read_resource : p.RequestId → p.Raw → Registered → JsonrpcMessage
  unfolding read_resource
  handle_read_resource id message s = elim (p.parse_read message) [
    | err text ↦ error_response (some id) invalid_request (error_text text)
    | ok req ↦ read_resource id req s
  ]

  unfoldable pub get_prompt : p.RequestId → String × p.Request → Registered → JsonrpcMessage
  unfolding respond
  get_prompt id (name, req) s = elim (lookup name s.prompts) [
    | none ↦ error_response (some id) invalid_params (unknown_prompt name)
    | some sp ↦ respond id prompted (sp.handler req)
  ]

  unfoldable pub handle_get_prompt : p.RequestId → p.Raw → Registered → JsonrpcMessage
  unfolding get_prompt
  handle_get_prompt id message s = elim (p.parse_get_prompt message) [
    | err text ↦ error_response (some id) invalid_request (error_text text)
    | ok req ↦ get_prompt id req s
  ]

  unfoldable pub dispatch : String → p.RequestId → p.Raw → Registered → JsonrpcMessage
  dispatch method id message s =
      if str_eq method "initialize"
      then success_response (some id) (handle_initialize s)
      else if str_eq method "ping"
      then success_response (some id) empty
      else if str_eq method "tools/list"
      then success_response (some id) (handle_list_tools s)
      else if str_eq method "tools/call"
      then handle_tool_call id message s
      else if str_eq method "resources/list"
      then success_response (some id) (handle_list_resources s)
      else if str_eq method "resources/templates/list"
      then success_response (some id) (handle_list_resource_templates s)
      else if str_eq method "resources/read"
      then handle_read_resource id message s
      else if str_eq method "prompts/list"
      then success_response (some id) (handle_list_prompts s)
      else if str_eq method "prompts/get"
      then handle_get_prompt id message s
      else error_response (some id) method_not_found (unknown_method method)

  -- A request has an id and no result.
  unfoldable pub handle_base :
      BaseMessage p.RequestId p.Value → p.Raw → Registered → Option JsonrpcMessage
  handle_base b message s =
      if not (str_eq b.jsonrpc jsonrpc_version)
      then some (error_response b.id invalid_request invalid_version)
      else elim b.id [
        | none ↦ none
        | some id ↦ elim b.result [ some r ↦ none | none ↦ some (dispatch b.method id message s) ]
      ]

  unfoldable pub handle_message : p.Raw → Registered → Option JsonrpcMessage
  handle_message message s = elim (p.parse_base message) [
    | none ↦ some (error_response none parse_error failed_to_parse)
    | some b ↦ handle_base b message s
  ]
