-- ===== src/Server/Http.antt =====
-- Requests over HTTP (mcpcompat/server/transports.go, callgate.go): which requests are denied or
-- refused, and which go to the SDK's handler or to a session that was made on another replica. The
-- handler's own answer is not modelled, and a request is followed as if it ran alone: what other
-- requests do to the registry meanwhile is in the histories of Server.Sessions. The context of a request, its headers' media types and logging are left out.
pub mod Dropped
pub mod Validated
mod Tests
use toolhive_core.Base.{
  ℕ, zero, ◌≡◌, Bool, true, false, not, ◌&&◌, ◌||◌, List, [], ◌∷◌, Option, none, some, String,
  str_eq, if◌then◌else◌, ◌==◌, Bytes, bytes_eq,
}
use toolhive_core.Base.Int.{ℤ, pos, ltb_ℤ}
use toolhive_core.Base.Dict.{lookup, insert, delete}
use toolhive_core.Server.Sdk.{GoSession, Sdk}
use toolhive_core.Server.Objects.{McpServer, ClientSession}
use toolhive_core.Server.Overlays.{Overlay}
use toolhive_core.Server.Sessions.{
  is_local_session, forget_session, bind_rehydrated_session, Event, step,
}

-- A request's method, its `Mcp-Session-Id` header and its body: `none` where there is none, and `none`
-- within where it cannot be read.
pub record Request : Type 0 where
  pub method : String
  pub session_id : String
  pub body : Option (Option Bytes)

pub record Denial : Type 0 where
  pub code : ℤ
  pub message : String
  pub http_status : ℕ

-- `isTerminated`, and whether there is an error.
pub record Validation : Type 0 where
  pub is_terminated : Bool
  pub failed : Bool

-- The manager of session ids and its store, the id of a message and of a request by the JSON parser
-- (an id that is absent is empty), and a session that is connected to a new server, with `none` for an
-- error.
pub record Backend (sdk : Sdk) : Type 1 where
  pub Store : Type 0
  pub RequestId : Type 0
  pub validate : String → Store → Validation × Store
  pub terminate : String → Store → Store
  pub message_id : Bytes → Option Bytes
  pub request_id : Bytes → Option RequestId
  pub connect : String → McpServer sdk → Option (GoSession × ℕ)

module _ {sdk : Sdk} (backend : Backend sdk) where
  -- The options of a server. `build_error` is set where no server can be built.
  pub record StreamableHttpServer : Type 0 where
    pub build_error : Bool
    pub heartbeat : ℤ
    pub has_manager : Bool
    pub stateless : Bool
    pub call_gate : Option (Request → Option Denial)

  -- The state: the registry, the sessions made on another replica, the addresses of those that were
  -- closed, and the manager's store.
  pub record State : Type 0 where
    pub mcp : McpServer sdk
    pub rehydrated : List (String × GoSession)
    pub closed_sessions : List ℕ
    pub store : backend.Store

  -- How a request is answered: by an error, by a denial with the id of the request or null, by the SDK's
  -- handler, whose 204 becomes 200 or not, or by a session made on another replica.
  pub data Answer : Type 0 where
    refused : ℕ → String → Answer
    denial : ℕ → Option backend.RequestId → ℤ → String → Answer
    handled : Bool → Answer
    served_by : GoSession → Answer

  id_of_raw : Option Bytes → Option backend.RequestId
  id_of_raw none = none
  id_of_raw (some raw) = if bytes_eq raw [] then none else backend.request_id raw

  unfoldable pub extract_request_id : Request → Option backend.RequestId
  unfolding id_of_raw
  extract_request_id r = elim r.body [
    | none ↦ none
    | some read ↦ elim read [
      | none ↦ none
      | some raw ↦ if bytes_eq raw [] then none else id_of_raw (backend.message_id raw)
    ]
  ]

  unfoldable pub write_denial : Request → Denial → Answer
  write_denial r d =
      denial (if d.http_status == 0 then 403 else d.http_status) (extract_request_id r) d.code
        d.message

  -- The gate's denial.
  abbrev pub gate_denial : StreamableHttpServer → Request → Option Denial
  gate_denial config r = elim config.call_gate [
    | none ↦ none
    | some gate ↦ if not (str_eq r.method "POST") then none else gate r
  ]

  unfoldable pub denied : StreamableHttpServer → Request → Option Answer
  denied config r = elim (gate_denial config r) [ none ↦ none | some d ↦ some (write_denial r d) ]

  -- Whether the answer is written through a `KeepAliveWriter` (KeepAlive), which changes no routing.
  unfoldable pub wrap_keep_alive : StreamableHttpServer → Request → Bool
  wrap_keep_alive config r =
      not (not (str_eq r.method "GET") || not (ltb_ℤ (pos 0) config.heartbeat) || config.stateless)

  unfoldable pub get_rehydrated : String → State → Option GoSession
  get_rehydrated sid s = lookup sid s.rehydrated

  close_session : Option GoSession → State → State
  close_session none s = s
  close_session (some ss) s = record s { closed_sessions = ss.address ∷ s.closed_sessions }

  unfoldable pub delete_rehydrated : String → State → State
  unfolding close_session
  delete_rehydrated sid s =
      if str_eq sid ""
      then s
      else close_session (lookup sid s.rehydrated)
          (record s { rehydrated = delete sid s.rehydrated })

  connected : String → Option (GoSession × ℕ) → State → Option GoSession × State
  connected sid none s = (none, s)
  connected sid (some (ss, srv)) s = (
    some ss,
    record s {
      mcp = bind_rehydrated_session sdk sid ss srv s.mcp;
      rehydrated = insert sid ss s.rehydrated;
    },
  )

  unfoldable pub rehydrate : String → State → Option GoSession × State
  unfolding connected
  rehydrate sid s = elim (lookup sid s.rehydrated) [
    | some ss ↦ (some ss, s)
    | none ↦ connected sid (backend.connect sid s.mcp) s
  ]

  served : Option GoSession × State → Answer × State
  served (none, s) = (refused 500 "failed to rehydrate session", s)
  served (some ss, s) = (served_by ss, s)

  -- What `serveRehydrated` does once the manager has answered: a terminated session is refused alike with
  -- and without an error.
  unfoldable pub validated_rehydrated : String → Validation → State → Answer × State
  unfolding served
  validated_rehydrated sid v s =
      if v.is_terminated
      then (refused 404 "Session terminated", delete_rehydrated sid s)
      else if v.failed
      then elim (get_rehydrated sid s) [
        | some ss ↦ (refused 503 "session validation unavailable", s)
        | none ↦ (refused 404 "Invalid session ID", s)
      ]
      else elim (get_rehydrated sid s) [
        | some ss ↦ (served_by ss, s)
        | none ↦ served (rehydrate sid s)
      ]

  unfoldable pub serve_rehydrated : String → State → Answer × State
  serve_rehydrated sid s =
      let (v, store) = backend.validate sid s.store in
      validated_rehydrated sid v (record s { store = store })

  -- A local session, once the manager has answered.
  unfoldable pub validated_local : String → Validation → State → Answer × State
  validated_local sid v s =
      if v.is_terminated
      then (
        refused 404 "Session terminated",
        delete_rehydrated sid (record s { mcp = forget_session sdk sid s.mcp }),
      )
      else if v.failed
      then (refused 503 "session validation unavailable", s)
      else (handled false, s)

  unfoldable pub serve_local : String → State → Answer × State
  serve_local sid s =
      let (v, store) = backend.validate sid s.store in
      validated_local sid v (record s { store = store })

  unfoldable pub serve_delete : StreamableHttpServer → String → State → Answer × State
  serve_delete config sid s =
      let s1 = delete_rehydrated sid s in
      (
        handled true,
        record s1 {
          mcp = forget_session sdk sid s1.mcp;
          store =
              if config.has_manager && not (str_eq sid "")
              then backend.terminate sid s1.store
              else s1.store;
        },
      )

  -- A request that the gate lets pass.
  unfoldable pub admitted : StreamableHttpServer → Request → State → Answer × State
  admitted config r s =
      let sid = r.session_id in
      if config.stateless
      then (handled false, s)
      else if str_eq r.method "DELETE"
      then serve_delete config sid s
      else if str_eq sid "" || not config.has_manager
      then (handled false, s)
      else if not (is_local_session sdk sid s.mcp)
      then serve_rehydrated sid s
      else serve_local sid s

  unfoldable pub serve_http : StreamableHttpServer → Request → State → Answer × State
  serve_http config r s =
      if config.build_error
      then (refused 500 "building server", s)
      else elim (denied config r) [ some answer ↦ (answer, s) | none ↦ admitted config r s ]
