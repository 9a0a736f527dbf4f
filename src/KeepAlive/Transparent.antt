-- ===== src/KeepAlive/Transparent.antt =====
-- The keep-alive does not change what the handler writes.
use toolhive_core.Base.{
  ℕ, ◌≡◌, refl, ◌∙◌, Bool, true, not, ◌||◌, List, [], ◌∷◌, Option, none, some, String,
  if◌then◌else◌, ◌==◌, arith, ap,
}
use toolhive_core.Base.Int.{pos, ltb_ℤ}
use toolhive_core.KeepAlive.{
  Call, header, body, flushed, comment, comment_flushed, KeepAliveWriter, status_ok,
  start_if_event_stream, maybe_start_locked, write_header, implicit_header, write, flush,
  close_stop, set_stopped, write_comment, after_comment, run_tick, run_stop, Event,
  sets_content_type, writes_header, writes, flushes, closes_stop, sets_stopped, sees_stop, ticks,
  step, run_events,
}

-- The calls of the handler.
abbrev pub own : List Call → List Call
own [] = []
own (header code ∷ cs) = header code ∷ own cs
own (body b ∷ cs) = body b ∷ own cs
own (flushed ∷ cs) = flushed ∷ own cs
own (comment ∷ cs) = own cs
own (comment_flushed ∷ cs) = own cs

module _ (parse : String → Option String) where
  -- A writer with no keep-alive: each call of the handler is a call on it.
  abbrev pub bare_step : Event parse → List Call → List Call
  bare_step (writes_header code) cs = header code ∷ cs
  bare_step (writes b) cs = body b ∷ cs
  bare_step flushes cs = flushed ∷ cs
  bare_step (sets_content_type t) cs = cs
  bare_step closes_stop cs = cs
  bare_step sets_stopped cs = cs
  bare_step sees_stop cs = cs
  bare_step (ticks written) cs = cs

  abbrev pub bare : List (Event parse) → List Call → List Call
  bare [] cs = cs
  bare (e ∷ es) cs = bare es (bare_step e cs)

  maybe_start-calls :
      (status : ℕ) (k : KeepAliveWriter) → (maybe_start_locked parse status k).calls ≡ k.calls
  unfolding maybe_start_locked start_if_event_stream
  maybe_start-calls status k = of_type (parse k.content_type)
    where
      of_type :
          (t : Option String)
          → (if k.streaming
                || k.stopped
                || not (ltb_ℤ (pos 0) k.interval)
                || not (status == status_ok)
              then k
              else start_if_event_stream parse t k).calls
            ≡ k.calls
      of_type none = ground arith
      of_type (some t) = ground arith

  implicit_header-calls : (k : KeepAliveWriter) → (implicit_header parse k).calls ≡ k.calls
  unfolding implicit_header
  implicit_header-calls k =
      ground (arith, maybe_start-calls status_ok (record k { wrote_header = true }))

  own-run_tick :
      (written : Bool) (k : KeepAliveWriter) → own (run_tick parse written k).calls ≡ own k.calls
  unfolding run_tick after_comment write_comment
  own-run_tick written k = ground arith

  own-step :
      (e : Event parse) (k : KeepAliveWriter)
      → own (step parse e k).calls ≡ bare_step e (own k.calls)
  unfolding step write_header write flush close_stop set_stopped run_stop
  own-step (sets_content_type t) k = refl
  own-step (writes_header code) k = ap own (maybe_start-calls code _)
  own-step (writes b) k = ap (λ cs. body b ∷ own cs) (implicit_header-calls k)
  own-step flushes k = refl
  own-step closes_stop k = refl
  own-step sets_stopped k = ground arith
  own-step sees_stop k = ground arith
  own-step (ticks written) k = own-run_tick written k

  -- Whatever the interleaving, the calls on the underlying writer less the keep-alive's are those of
  -- the handler on a writer with no keep-alive, in their order.
  pub own-run_events :
      (es : List (Event parse)) (k : KeepAliveWriter)
      → own (run_events parse es k).calls ≡ bare es (own k.calls)
  unfolding run_events
  own-run_events [] k = refl
  own-run_events (e ∷ es) k = own-run_events es (step parse e k) ∙ ap (bare es) (own-step e k)
