-- ===== src/Server/Http/Tests.antt =====
-- Runs of requests with a small SDK and a store of validations.
use toolhive_core.Base.{
  ◌≡◌, refl, true, false, ◌||◌, List, [], ◌∷◌, Option, none, some, String, str_eq, if◌then◌else◌,
  Bytes, bytes_eq, codes,
}
use toolhive_core.Base.Int.{pos}
use toolhive_core.Base.Dict.{lookup, insert, delete}
use toolhive_core.Server.Sdk.{GoSession}
use toolhive_core.Server.Small.{small_sdk}
use toolhive_core.Server.Objects.{ClientSession, new_mcp_server}
use toolhive_core.Server.Overlays.{
  Overlay, set_overlays, sync_session_tools, sync_session_resources,
  sync_session_resource_templates, sync_session_prompts, add_session_tools,
}
use toolhive_core.Server.Sessions.{
  new_client_session, load_or_store, session_for, bind_rehydrated_session, register_and_sync,
  register_once, is_local_session,
}
use toolhive_core.Server.Http.{
  Request, Validation, Backend, StreamableHttpServer, State, refused, denial, served_by,
  gate_denial, denied, write_denial, extract_request_id, get_rehydrated, delete_rehydrated,
  rehydrate, validated_rehydrated, serve_rehydrated, validated_local, serve_local, admitted,
  serve_http,
}
use toolhive_core.Server.Http.Validated.{
  serve_http-validate, serve_http-IsDropped, IsDropped, serve_http_transient, is_held,
}

abbrev vouched : Validation
vouched = record { is_terminated = false; failed = false }

abbrev terminated : Validation
terminated = record { is_terminated = true; failed = false }

abbrev failed : Validation
failed = record { is_terminated = false; failed = true }

abbrev validation_or : Option Validation → Validation
validation_or none = failed
validation_or (some v) = v

-- The store has the answers for the ids that it knows.
abbrev backend : Backend small_sdk
backend = record {
  Store = List (String × Validation);
  RequestId = Bytes;
  validate = λ sid store. (validation_or (lookup sid store), store);
  terminate = λ sid store. insert sid terminated store;
  message_id = λ raw. some raw;
  request_id = λ raw. some raw;
  connect = λ sid m. some (record { session_id = sid; address = 9 }, 4);
}

abbrev no_gate : StreamableHttpServer backend
no_gate = record {
  build_error = false;
  heartbeat = pos 0;
  has_manager = true;
  stateless = false;
  call_gate = none;
}

abbrev new_state : List (String × Validation) → State backend
new_state store = record {
  mcp = new_mcp_server small_sdk (λ srv. []);
  rehydrated = [];
  closed_sessions = [];
  store = store;
}

abbrev post : String → Request
post sid = record { method = "POST"; session_id = sid; body = some (some (codes "{}")) }

abbrev local_session : GoSession
local_session = record { session_id = "here"; address = 3 }

abbrev no_hooks : ClientSession small_sdk → List (Overlay small_sdk)
no_hooks c = []

abbrev known : List (String × Validation)
known = ("there", vouched) ∷ ("here", vouched) ∷ []

-- Another replica's session is served, held, and not marked local.
served_test :
    (serve_http backend no_gate (post "there") (new_state known)).0
    ≡ served_by (record { session_id = "there"; address = 9 })
unfolding serve_http denied admitted is_local_session serve_rehydrated validated_rehydrated
    get_rehydrated rehydrate bind_rehydrated_session session_for load_or_store new_client_session
    new_mcp_server lookup insert
served_test = refl

serve_http-validate_example :
    (gate_denial backend no_gate (post "there") ≡ none)
    × ((backend.validate "there" known).0.is_terminated ≡ false)
    × ((backend.validate "there" known).0.failed ≡ false)
unfolding serve_http denied admitted is_local_session serve_rehydrated validated_rehydrated
    get_rehydrated rehydrate bind_rehydrated_session session_for load_or_store new_client_session
    new_mcp_server lookup insert
serve_http-validate_example =
    serve_http-validate no_gate (post "there") (new_state known) refl refl refl refl refl

abbrev ended : List (String × Validation)
ended = ("there", terminated) ∷ []

serve_http-IsDropped_example :
    ((serve_http backend no_gate (post "there") (new_state ended)).0
      ≡ refused 404 "Session terminated")
    × IsDropped "there" (serve_http backend no_gate (post "there") (new_state ended)).1
unfolding lookup
serve_http-IsDropped_example =
    serve_http-IsDropped no_gate (post "there") (new_state ended) refl refl refl refl refl refl refl

-- The session is local when the store fails.
abbrev with_local : State backend
with_local = record (new_state []) {
  mcp = register_and_sync small_sdk no_hooks (some local_session) 0 (new_state []).mcp;
}

serve_http_transient_example : serve_http backend no_gate (post "here") with_local ≡ (
  if is_local_session small_sdk "here" with_local.mcp
        || is_held (get_rehydrated backend "here" with_local)
      then refused 503 "session validation unavailable"
      else refused 404 "Invalid session ID",
  record with_local { store = (backend.validate "here" with_local.store).1 },
)
unfolding lookup
serve_http_transient_example =
    serve_http_transient no_gate (post "here") with_local refl refl refl refl refl refl refl refl

transient_test :
    (serve_http backend no_gate (post "here") with_local).0
    ≡ refused 503 "session validation unavailable"
unfolding serve_http denied admitted is_local_session serve_local validated_local register_and_sync
    session_for load_or_store new_client_session register_once set_overlays sync_session_tools
    sync_session_resources sync_session_resource_templates sync_session_prompts add_session_tools
    new_mcp_server lookup insert
transient_test = refl

-- A gate that denies each call of one session, before the session is looked at.
abbrev gate : StreamableHttpServer backend
gate = record no_gate {
  call_gate = some (λ r.
      if str_eq r.session_id "there"
      then some (record { code = pos 1; message = "no"; http_status = 0 })
      else none);
}

denied_test :
    serve_http backend gate (post "there") (new_state ended)
    ≡ (denial 403 (some (codes "{}")) (pos 1) "no", new_state ended)
unfolding serve_http denied write_denial extract_request_id bytes_eq
denied_test = refl

-- The session of another replica that the store has ended stays in the registry.
abbrev ended_there : State backend
ended_there = (serve_http backend no_gate (post "there") (new_state known)).1

leak_test :
    lookup "there"
      (serve_http backend no_gate
        (post "there")
        (record ended_there { store = ended })).1.mcp.sessions
    ≡ some 0
unfolding serve_http denied admitted is_local_session serve_rehydrated validated_rehydrated
    get_rehydrated delete_rehydrated rehydrate bind_rehydrated_session session_for load_or_store
    new_client_session new_mcp_server lookup insert delete
leak_test = refl
