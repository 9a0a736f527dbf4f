-- ===== src/Server/Messages/Answered.antt =====
-- Which messages are answered, and what a call of a tool is answered.
use toolhive_core.Base.{
  ◌≡◌, ◌≢◌, ◌↔◌, ◌⊎◌, refl, sym, ap, ◌∙◌, inl, inr, arith, eq_iff, Bool-cases, Option-cases, Bool,
  true, false, Option, none, some, String, str_eq, if◌then◌else◌, Except, ok, err,
}
use mathlib.Core.Bool.{false≢true}
use toolhive_core.Base.Dict.{lookup}
use toolhive_core.Server.Messages.{
  BaseMessage, Protocol, invalid_params, invalid_request, resource_not_found, unknown_tool,
  unknown_resource, unknown_prompt, error_text, jsonrpc_version, ServerTool, ServerResource,
  ServerPrompt, Registered, Result, called, prompted, JsonrpcMessage, success_response,
  error_response, respond, call_tool, handle_tool_call, read_from, read_resource,
  handle_read_resource, get_prompt, handle_get_prompt, dispatch, handle_base, handle_message,
}

module _ {p : Protocol} where
  abbrev pub response_id : JsonrpcMessage p → Option p.RequestId
  response_id (success_response id result) = id
  response_id (error_response id code problem) = id

  respond_id :
      {A : Type 0} (id : p.RequestId) (f : A → Result p) (r : Except String A)
      → response_id (respond p id f r) ≡ some id
  unfolding respond
  respond_id id f (ok a) = refl
  respond_id id f (err text) = refl

  handle_tool_call_id :
      (id : p.RequestId) (message : p.Raw) (s : Registered p)
      → response_id (handle_tool_call p id message s) ≡ some id
  unfolding handle_tool_call call_tool
  handle_tool_call_id id message s = of_parsed (p.parse_tool_call message)
    where
      of_tool :
          (req : p.Request) (name : String) (o : Option (ServerTool p))
          → response_id (elim o [
            | none ↦ error_response (some id) invalid_params (unknown_tool name)
            | some st ↦ respond p id called (st.handler req)
          ])
            ≡ some id
      of_tool req name none = refl
      of_tool req name (some st) = respond_id id called (st.handler req)

      of_parsed :
          (q : Except String (String × p.Request))
          → response_id (elim q [
            | err text ↦ error_response (some id) invalid_request (error_text text)
            | ok req ↦ call_tool p id req s
          ])
            ≡ some id
      of_parsed (err text) = refl
      of_parsed (ok (name, req)) = of_tool req name (lookup name s.tools)

  handle_read_resource_id :
      (id : p.RequestId) (message : p.Raw) (s : Registered p)
      → response_id (handle_read_resource p id message s) ≡ some id
  unfolding handle_read_resource read_resource read_from
  handle_read_resource_id id message s = of_parsed (p.parse_read message)
    where
      of_handler :
          (req : p.Request) (sr : ServerResource p) → response_id (read_from p id req sr) ≡ some id
      of_handler req sr = elim (Option-cases sr.result_handler) [
        | inl e ↦ rw (read_from, e) (respond_id id _ (sr.handler req))
        | inr (h, e) ↦ rw (read_from, e) (respond_id id _ (h req))
      ]

      of_resource :
          (req : p.Request) (uri : String) (o : Option (ServerResource p))
          → response_id (elim o [
            | none ↦ error_response (some id) resource_not_found (unknown_resource uri)
            | some sr ↦ read_from p id req sr
          ])
            ≡ some id
      of_resource req uri none = refl
      of_resource req uri (some sr) = of_handler req sr

      of_parsed :
          (q : Except String (String × p.Request))
          → response_id (elim q [
            | err text ↦ error_response (some id) invalid_request (error_text text)
            | ok req ↦ read_resource p id req s
          ])
            ≡ some id
      of_parsed (err text) = refl
      of_parsed (ok (uri, req)) = of_resource req uri (lookup uri s.resources)

  handle_get_prompt_id :
      (id : p.RequestId) (message : p.Raw) (s : Registered p)
      → response_id (handle_get_prompt p id message s) ≡ some id
  unfolding handle_get_prompt get_prompt
  handle_get_prompt_id id message s = of_parsed (p.parse_get_prompt message)
    where
      of_prompt :
          (req : p.Request) (name : String) (o : Option (ServerPrompt p))
          → response_id (elim o [
            | none ↦ error_response (some id) invalid_params (unknown_prompt name)
            | some sp ↦ respond p id prompted (sp.handler req)
          ])
            ≡ some id
      of_prompt req name none = refl
      of_prompt req name (some sp) = respond_id id prompted (sp.handler req)

      of_parsed :
          (q : Except String (String × p.Request))
          → response_id (elim q [
            | err text ↦ error_response (some id) invalid_request (error_text text)
            | ok req ↦ get_prompt p id req s
          ])
            ≡ some id
      of_parsed (err text) = refl
      of_parsed (ok (name, req)) = of_prompt req name (lookup name s.prompts)

  -- A branch of the switch.
  branch_id :
      (b : Bool) (x y : JsonrpcMessage p) (id : Option p.RequestId)
      → response_id x ≡ id
      → response_id y ≡ id
      → response_id (if b then x else y) ≡ id
  branch_id true x y id e f = e
  branch_id false x y id e f = f

  dispatch_id :
      (method : String) (id : p.RequestId) (message : p.Raw) (s : Registered p)
      → response_id (dispatch p method id message s) ≡ some id
  unfolding dispatch
  dispatch_id method id message s = branch_id (str_eq method "initialize") _ _ (some id) refl (
      branch_id (str_eq method "ping") _ _ (some id) refl (
        branch_id (str_eq method "tools/list") _ _ (some id) refl (
          branch_id (str_eq method "tools/call") _ _ (some id) (handle_tool_call_id id message s) (
            branch_id (str_eq method "resources/list") _ _ (some id) refl (
              branch_id (str_eq method "resources/templates/list") _ _ (some id) refl (
                branch_id (str_eq method "resources/read") _ _ (some id)
                  (handle_read_resource_id id message s)
                  (branch_id (str_eq method "prompts/list") _ _ (some id) refl (
                    branch_id (str_eq method "prompts/get") _ _ (some id)
                      (handle_get_prompt_id id message s) refl))))))))

  -- Whether a message asks for an answer, and what its id is.
  abbrev pub IsAnswered : BaseMessage p.RequestId p.Value → Option (JsonrpcMessage p) → Type 0
  IsAnswered b none = (b.jsonrpc ≡ jsonrpc_version) × ((b.id ≡ none) ⊎ (b.result ≢ none))
  IsAnswered b (some r) =
      (response_id r ≡ b.id) × ((b.jsonrpc ≢ jsonrpc_version) ⊎ ((b.id ≢ none) × (b.result ≡ none)))

  -- The version is right, and the id and the result are these.
  requested :
      (b : BaseMessage p.RequestId p.Value) (message : p.Raw) (s : Registered p)
      (i : Option p.RequestId) (r : Option p.Value)
      → b.jsonrpc ≡ jsonrpc_version
      → b.id ≡ i
      → b.result ≡ r
      → IsAnswered b (elim i [
        | none ↦ none
        | some id ↦ elim r [ some x ↦ none | none ↦ some (dispatch p b.method id message s) ]
      ])
  requested b message s none r v e f = (v, inl e)
  requested b message s (some id) (some x) v e f = (v, inr (λ n. cc))
  requested b message s (some id) none v e f =
      (dispatch_id b.method id message s ∙ sym e, inr ((λ n. cc), f))

  handle_base-IsAnswered :
      (b : BaseMessage p.RequestId p.Value) (message : p.Raw) (s : Registered p)
      → IsAnswered b (handle_base p b message s)
  unfolding handle_base
  handle_base-IsAnswered b message s = elim (Bool-cases (str_eq b.jsonrpc jsonrpc_version)) [
    | inl e ↦
        rw (handle_base, e)
          (requested b message s b.id b.result ((eq_iff b.jsonrpc jsonrpc_version).0 e) refl refl)
    | inr e ↦
        rw (handle_base, e)
          (refl, inl (λ q. false≢true (sym e ∙ (eq_iff b.jsonrpc jsonrpc_version).1 q)))
  ]

  -- Of a message that is parsed: there is no answer exactly if the version is right and the message has
  -- no id or has a result, and an answer has the id of the message.
  pub handle_message-IsAnswered :
      (b : BaseMessage p.RequestId p.Value) (message : p.Raw) (s : Registered p)
      → p.parse_base message ≡ some b
      → IsAnswered b (handle_message p message s)
  unfolding handle_message
  handle_message-IsAnswered b message s e =
      rw (handle_message, e) (handle_base-IsAnswered b message s)

  -- The result of a call, if that is what the answer has.
  abbrev tool_result : JsonrpcMessage p → Option p.ToolResult
  tool_result (success_response id (called r)) = some r
  tool_result _ = none

  abbrev IsCall : p.Raw → Registered p → p.ToolResult → Type 0
  IsCall message s result =
      (name : String) × (req : p.Request) × (st : ServerTool p) × (p.parse_tool_call message
        ≡ ok (name, req))
      × (lookup name s.tools ≡ some st)
      × (st.handler req ≡ ok result)

  registered_call :
      (id : p.RequestId) (name : String) (req : p.Request) (s : Registered p)
      (result : p.ToolResult)
      → tool_result (call_tool p id (name, req) s) ≡ some result
      → (st : ServerTool p) × (lookup name s.tools ≡ some st) × (st.handler req ≡ ok result)
  unfolding call_tool respond
  registered_call id name req s result e = elim (Option-cases (lookup name s.tools)) [
    | inl g ↦ absurd (ground (arith, rw (call_tool, g) at e))
    | inr (st, g) ↦ (st, g, handled_call (st.handler req) (rw (call_tool, g) at e))
  ]
    where
      handled_call :
          (q : Except String p.ToolResult)
          → tool_result (respond p id called q) ≡ some result
          → q ≡ ok result
      handled_call (ok a) f = cc
      handled_call (err text) f = absurd (ground (arith, f))

  parsed-IsCall :
      (id : p.RequestId) (message : p.Raw) (s : Registered p) (result : p.ToolResult)
      (q : Except String (String × p.Request))
      → p.parse_tool_call message ≡ q
      → tool_result (elim q [
        | err text ↦ error_response (some id) invalid_request (error_text text)
        | ok req ↦ call_tool p id req s
      ])
        ≡ some result
      → IsCall message s result
  parsed-IsCall id message s result (err text) e f = absurd (ground (arith, f))
  parsed-IsCall id message s result (ok (name, req)) e f =
      let (st, found, handled) = registered_call id name req s result f in
      (name, req, st, e, found, handled)

  -- A call of a tool is answered with a result exactly if the call is parsed, the tool is registered
  -- under the name that it has and the handler of that tool, on the request, returns that result.
  pub handle_tool_call_iff :
      (id : p.RequestId) (message : p.Raw) (s : Registered p) (result : p.ToolResult)
      → (handle_tool_call p id message s ≡ success_response (some id) (called result)) ↔ (
          (name : String) × (req : p.Request) × (st : ServerTool p) × (p.parse_tool_call message
            ≡ ok (name, req))
          × (lookup name s.tools ≡ some st)
          × (st.handler req ≡ ok result))
  unfolding handle_tool_call call_tool respond
  handle_tool_call_iff id message s result = (
    λ e. parsed-IsCall id message s result (p.parse_tool_call message) refl (ap tool_result e),
    λ (name, req, st, parsed, found, handled).
        rw (handle_tool_call, parsed, call_tool, found, respond, handled) refl,
  )
