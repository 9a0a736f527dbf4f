-- ===== src/KeepAlive.antt =====
-- The keep-alive of an event stream (mcpcompat/server/keepalive.go). Every method but `Header` holds
-- the writer's mutex throughout, and so does `writeComment`; an interleaving of the handler with the
-- ticker's goroutine is a list of events, each of which is one critical section or one step outside.
-- Time is not modelled: a tick may come at any point.
pub mod Transparent
pub mod Sound
pub mod Stopped
mod Tests
use toolhive_core.Base.{
  ℕ, zero, suc, ◌≡◌, Bool, true, false, not, ◌&&◌, ◌||◌, List, [], ◌∷◌, Option, none, some, String,
  str_eq, if◌then◌else◌, ◌==◌, Bytes,
}
use toolhive_core.Base.Int.{ℤ, pos, ltb_ℤ}

-- A call on the underlying writer, of the handler or of a tick.
pub data Call : Type 0 where
  header : ℕ → Call
  body : Bytes → Call
  flushed : Call
  comment : Call
  comment_flushed : Call

pub data Ticker : Type 0 where
  not_started running exited : Ticker

-- `calls` has the latest call first, `content_type` is that header of the underlying writer, and
-- `starts` counts the goroutines. The channel `stop` is closed or not.
pub record KeepAliveWriter : Type 0 where
  pub interval : ℤ
  pub content_type : String
  pub calls : List Call
  pub wrote_header : Bool
  pub streaming : Bool
  pub stopped : Bool
  pub stop_closed : Bool
  pub ticker : Ticker
  pub starts : ℕ

unfoldable pub new_keep_alive_writer : ℤ → KeepAliveWriter
new_keep_alive_writer interval = record {
  interval = interval;
  content_type = "";
  calls = [];
  wrote_header = false;
  streaming = false;
  stopped = false;
  stop_closed = false;
  ticker = not_started;
  starts = 0;
}

abbrev pub is_running : Ticker → Bool
is_running running = true
is_running _ = false

abbrev pub status_ok : ℕ
status_ok = 200

-- The media type of a header's value comes from Go's `mime` package.
module _ (parse_media_type : String → Option String) where
  start_if_event_stream : Option String → KeepAliveWriter → KeepAliveWriter
  start_if_event_stream none k = k
  start_if_event_stream (some media_type) k =
      if not (str_eq media_type "text/event-stream")
      then k
      else record k { streaming = true; ticker = running; starts = suc k.starts }

  unfoldable pub maybe_start_locked : ℕ → KeepAliveWriter → KeepAliveWriter
  unfolding start_if_event_stream
  maybe_start_locked status k =
      if k.streaming || k.stopped || not (ltb_ℤ (pos 0) k.interval) || not (status == status_ok)
      then k
      else start_if_event_stream (parse_media_type k.content_type) k

  unfoldable pub write_header : ℕ → KeepAliveWriter → KeepAliveWriter
  write_header code k =
      maybe_start_locked code (record k { calls = header code ∷ k.calls; wrote_header = true })

  -- A write before any header.
  implicit_header : KeepAliveWriter → KeepAliveWriter
  implicit_header k =
      if k.wrote_header then k else maybe_start_locked status_ok (record k { wrote_header = true })

  -- What it returns is what the underlying writer does.
  unfoldable pub write : Bytes → KeepAliveWriter → KeepAliveWriter
  unfolding implicit_header
  write b k = let k1 = implicit_header k in record k1 { calls = body b ∷ k1.calls }

  unfoldable pub flush : KeepAliveWriter → KeepAliveWriter
  flush k = record k { calls = flushed ∷ k.calls }

  -- `stopKeepAlive` closes the channel once and then, in a critical section, sets `stopped`.
  unfoldable pub close_stop : KeepAliveWriter → KeepAliveWriter
  close_stop k = record k { stop_closed = true }

  unfoldable pub set_stopped : KeepAliveWriter → KeepAliveWriter
  set_stopped k = if k.stop_closed then record k { stopped = true } else k

  unfoldable pub stop_keep_alive : KeepAliveWriter → KeepAliveWriter
  unfolding close_stop set_stopped
  stop_keep_alive k = set_stopped (close_stop k)

  -- The argument says whether the underlying write succeeds.
  unfoldable pub write_comment : Bool → KeepAliveWriter → Bool × KeepAliveWriter
  write_comment written k =
      if k.stopped
      then (false, k)
      else if not written
      then (false, record k { calls = comment ∷ k.calls })
      else (true, record k { calls = comment_flushed ∷ comment ∷ k.calls })

  -- The goroutine goes on or returns.
  after_comment : Bool × KeepAliveWriter → KeepAliveWriter
  after_comment (true, k) = k
  after_comment (false, k) = record k { ticker = exited }

  -- The two branches of the `select` of `run`, each where its channel is ready.
  unfoldable pub run_tick : Bool → KeepAliveWriter → KeepAliveWriter
  unfolding after_comment
  run_tick written k = if is_running k.ticker then after_comment (write_comment written k) else k

  unfoldable pub run_stop : KeepAliveWriter → KeepAliveWriter
  run_stop k = if is_running k.ticker && k.stop_closed then record k { ticker = exited } else k

  -- What the handler and the goroutine do.
  pub data Event : Type 0 where
    sets_content_type : String → Event
    writes_header : ℕ → Event
    writes : Bytes → Event
    flushes closes_stop sets_stopped sees_stop : Event
    ticks : Bool → Event

  unfoldable pub step : Event → KeepAliveWriter → KeepAliveWriter
  step (sets_content_type t) k = record k { content_type = t }
  step (writes_header code) k = write_header code k
  step (writes b) k = write b k
  step flushes k = flush k
  step closes_stop k = close_stop k
  step sets_stopped k = set_stopped k
  step sees_stop k = run_stop k
  step (ticks written) k = run_tick written k

  unfoldable pub run_events : List Event → KeepAliveWriter → KeepAliveWriter
  run_events [] k = k
  run_events (e ∷ es) k = run_events es (step e k)
