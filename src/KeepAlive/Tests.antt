-- ===== src/KeepAlive/Tests.antt =====
-- An event stream with one comment, stopped while a tick waits for the mutex.
use toolhive_core.Base.{◌≡◌, refl, true, false, List, [], ◌∷◌, Option, some, String}
use toolhive_core.Base.Int.{pos}
use toolhive_core.KeepAlive.{
  header, body, comment, comment_flushed, KeepAliveWriter, new_keep_alive_writer, is_running,
  maybe_start_locked, write_header, write, close_stop, set_stopped, write_comment, run_tick, Event,
  sets_content_type, writes_header, writes, flushes, closes_stop, sets_stopped, ticks, step,
  run_events,
}
use toolhive_core.KeepAlive.Transparent.{own, bare, own-run_events}
use toolhive_core.KeepAlive.Sound.{IsSound, new_keep_alive_writer-IsSound}
use toolhive_core.KeepAlive.Stopped.{IsQuiet, run_events-IsQuiet, run_events_exits}

abbrev parse : String → Option String
parse t = some t

abbrev opening : List (Event parse)
opening =
    sets_content_type "text/event-stream"
    ∷ writes_header 200
    ∷ ticks true
    ∷ writes (1 ∷ [])
    ∷ closes_stop
    ∷ sets_stopped
    ∷ []

abbrev late : List (Event parse)
late = ticks true ∷ flushes ∷ ticks true ∷ []

start : KeepAliveWriter
start = new_keep_alive_writer (pos 30)

stopped : KeepAliveWriter
stopped = run_events parse opening start

calls_test : stopped.calls ≡ body (1 ∷ []) ∷ comment_flushed ∷ comment ∷ header 200 ∷ []
unfolding stopped start run_events new_keep_alive_writer step write_header write close_stop
    set_stopped maybe_start_locked run_tick write_comment
calls_test = refl

was_stopped : stopped.stopped ≡ true
unfolding stopped start run_events new_keep_alive_writer step write_header write close_stop
    set_stopped maybe_start_locked run_tick write_comment
was_stopped = refl

own-run_events_example :
    own (run_events parse late stopped).calls ≡ bare parse late (own stopped.calls)
own-run_events_example = own-run_events parse late stopped

new_keep_alive_writer-IsSound_example :
    IsSound (run_events parse opening (new_keep_alive_writer (pos 30)))
new_keep_alive_writer-IsSound_example = new_keep_alive_writer-IsSound parse (pos 30) opening

stopped-IsSound : IsSound stopped
unfolding stopped start
stopped-IsSound = new_keep_alive_writer-IsSound parse (pos 30) opening

run_events-IsQuiet_example : IsQuiet stopped (run_events parse late stopped)
run_events-IsQuiet_example = run_events-IsQuiet parse late stopped stopped-IsSound was_stopped

run_events_exits_example : is_running (run_events parse late stopped).ticker ≡ false
run_events_exits_example = run_events_exits parse late stopped stopped-IsSound was_stopped refl
