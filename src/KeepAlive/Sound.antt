-- ===== src/KeepAlive/Sound.antt =====
-- What holds of the writer at every point of every interleaving.
use toolhive_core.Base.{
  ℕ, suc, ◌≡◌, ◌≢◌, ◌⊎◌, refl, ◌∙◌, ap, Bool, true, false, not, ◌&&◌, ◌||◌, List, [], ◌∷◌, Option,
  none, some, String, str_eq, if◌then◌else◌, ◌==◌, arith, Bool-cases, inl, inr,
}
use toolhive_core.Base.Int.{ℤ, pos, ltb_ℤ}
use toolhive_core.KeepAlive.{
  Call, header, body, flushed, comment, comment_flushed, Ticker, not_started, running, exited,
  KeepAliveWriter, new_keep_alive_writer, is_running, status_ok, start_if_event_stream,
  maybe_start_locked, write_header, implicit_header, write, flush, close_stop, set_stopped,
  write_comment, after_comment, run_tick, run_stop, Event, sets_content_type, writes_header, writes,
  flushes, closes_stop, sets_stopped, sees_stop, ticks, step, run_events,
}

-- The number of comments on the wire.
abbrev pub comments : List Call → ℕ
comments [] = 0
comments (header code ∷ cs) = comments cs
comments (body b ∷ cs) = comments cs
comments (flushed ∷ cs) = comments cs
comments (comment ∷ cs) = suc (comments cs)
comments (comment_flushed ∷ cs) = comments cs

-- Before the stream there is no goroutine and no comment; from then on there is one goroutine.
abbrev pub IsStarted : Bool → KeepAliveWriter → Type 0
IsStarted false k = (k.ticker ≡ not_started) × (k.starts ≡ 0) × (comments k.calls ≡ 0)
IsStarted true k =
    (k.ticker ≢ not_started)
    × (k.starts ≡ 1)
    × (k.wrote_header ≡ true)
    × (ltb_ℤ (pos 0) k.interval ≡ true)

-- A goroutine whose writer was stopped has a closed channel to see.
abbrev pub IsClosed : Bool → Bool → Type 0
IsClosed false closed = Unit
IsClosed true closed = closed ≡ true

abbrev pub IsSound : KeepAliveWriter → Type 0
IsSound k = IsStarted k.streaming k × IsClosed k.stopped k.stop_closed

module _ (parse : String → Option String) where
  maybe_start-IsSound :
      (status : ℕ) (k : KeepAliveWriter)
      → k.wrote_header ≡ true
      → IsSound k
      → IsSound (maybe_start_locked parse status k)
  unfolding maybe_start_locked start_if_event_stream
  maybe_start-IsSound status k w h =
      of_test
        (Bool-cases
          (k.streaming || k.stopped || not (ltb_ℤ (pos 0) k.interval) || not (status == status_ok)))
        (parse k.content_type)
    where
      started : k.streaming ≡ false → IsStarted k.streaming k → k.starts ≡ 0
      started e s = let (t, n, c) = rw e at s in n

      of_test :
          ((k.streaming || k.stopped || not (ltb_ℤ (pos 0) k.interval) || not (status == status_ok))
              ≡ true)
            ⊎ ((k.streaming
                  || k.stopped
                  || not (ltb_ℤ (pos 0) k.interval)
                  || not (status == status_ok))
                ≡ false)
          → (t : Option String)
          → IsSound (
              if k.streaming
                || k.stopped
                || not (ltb_ℤ (pos 0) k.interval)
                || not (status == status_ok)
              then k
              else start_if_event_stream parse t k)
      of_test (inl e) t = rw e h
      of_test (inr e) none = rw e h
      of_test (inr e) (some t) = elim (Bool-cases (str_eq t "text/event-stream")) [
        | inl is_stream ↦
            rw (e, is_stream) ((λ x. cc, ap suc (started (ground arith) h.0), w, ground arith), h.1)
        | inr other ↦ rw (e, other) h
      ]

  -- A call of the handler is no comment.
  called-IsSound :
      (cs : List Call) (k : KeepAliveWriter)
      → comments cs ≡ comments k.calls
      → IsSound k
      → IsSound (record k { calls = cs })
  called-IsSound cs k same (s, c) = (of_started k.streaming s, c)
    where
      of_started : (b : Bool) → IsStarted b k → IsStarted b (record k { calls = cs })
      of_started false (t, n, z) = (t, n, same ∙ z)
      of_started true s = s

  wrote-IsSound : (k : KeepAliveWriter) → IsSound k → IsSound (record k { wrote_header = true })
  wrote-IsSound k (s, c) = (of_started k.streaming s, c)
    where
      of_started : (b : Bool) → IsStarted b k → IsStarted b (record k { wrote_header = true })
      of_started false s = s
      of_started true (t, n, w, i) = (t, n, refl, i)

  implicit_header-IsSound : (k : KeepAliveWriter) → IsSound k → IsSound (implicit_header parse k)
  unfolding implicit_header
  implicit_header-IsSound k h = elim (Bool-cases k.wrote_header) [
    | inl e ↦ simp e h
    | inr e ↦
        simp e (
          maybe_start-IsSound status_ok (record k { wrote_header = true }) refl (wrote-IsSound k h))
  ]

  stopped-IsSound :
      (s c : Bool) (k : KeepAliveWriter)
      → (s ≡ true → c ≡ true)
      → IsSound k
      → IsSound (record k { stopped = s; stop_closed = c })
  stopped-IsSound s c k closed (started, _) = (of_started k.streaming started, of_stopped s closed)
    where
      of_started :
          (b : Bool) → IsStarted b k → IsStarted b (record k { stopped = s; stop_closed = c })
      of_started false s = s
      of_started true s = s

      of_stopped : (s : Bool) → (s ≡ true → c ≡ true) → IsClosed s c
      of_stopped false closed = tt
      of_stopped true closed = closed refl

  -- The goroutine stays where it is or returns, and it may have written.
  ticked-IsSound :
      (t : Ticker) (cs : List Call) (k : KeepAliveWriter)
      → k.ticker ≡ running
      → t ≢ not_started
      → IsSound k
      → IsSound (record k { ticker = t; calls = cs })
  ticked-IsSound t cs k was ne (s, c) = (of_started k.streaming s, c)
    where
      of_started : (b : Bool) → IsStarted b k → IsStarted b (record k { ticker = t; calls = cs })
      of_started false (n, m, z) = cc
      of_started true (n, m, w, i) = (ne, m, w, i)

  run_tick-IsSound :
      (written : Bool) (k : KeepAliveWriter) → IsSound k → IsSound (run_tick parse written k)
  unfolding run_tick write_comment after_comment
  run_tick-IsSound written k h = of_ticker k.ticker refl
    where
      of_written :
          (stopped written : Bool)
          → k.ticker ≡ running
          → IsSound (
              after_comment parse (
                if stopped
                then (false, k)
                else if not written
                then (false, record k { calls = comment ∷ k.calls })
                else (true, record k { calls = comment_flushed ∷ comment ∷ k.calls })))
      of_written true written was = ticked-IsSound exited k.calls k was (λ x. cc) h
      of_written false false was = ticked-IsSound exited (comment ∷ k.calls) k was (λ x. cc) h
      of_written false true was =
          ticked-IsSound k.ticker (comment_flushed ∷ comment ∷ k.calls) k was (λ x. cc) h

      of_ticker :
          (t : Ticker)
          → k.ticker ≡ t
          → IsSound
              (if is_running t then after_comment parse (write_comment parse written k) else k)
      of_ticker not_started e = h
      of_ticker running e = of_written k.stopped written e
      of_ticker exited e = h

  run_stop-IsSound : (k : KeepAliveWriter) → IsSound k → IsSound (run_stop parse k)
  unfolding run_stop
  run_stop-IsSound k h = of_ticker k.ticker refl k.stop_closed
    where
      of_ticker :
          (t : Ticker)
          → k.ticker ≡ t
          → (closed : Bool)
          → IsSound (if is_running t && closed then record k { ticker = exited } else k)
      of_ticker not_started e c = h
      of_ticker exited e c = h
      of_ticker running e true = (ticked-IsSound exited k.calls k e (λ x. cc) h)
      of_ticker running e false = h

  set_stopped-IsSound : (k : KeepAliveWriter) → IsSound k → IsSound (set_stopped parse k)
  unfolding set_stopped
  set_stopped-IsSound k h = of_closed k.stop_closed refl
    where
      of_closed :
          (closed : Bool)
          → k.stop_closed ≡ closed
          → IsSound (if closed then record k { stopped = true } else k)
      of_closed true e = stopped-IsSound true k.stop_closed k (λ x. e) h
      of_closed false e = h

  step-IsSound : (e : Event parse) (k : KeepAliveWriter) → IsSound k → IsSound (step parse e k)
  unfolding step write_header write flush close_stop
  step-IsSound (sets_content_type t) k (s, c) = (of_started k.streaming s, c)
    where
      of_started : (b : Bool) → IsStarted b k → IsStarted b (record k { content_type = t })
      of_started false s = s
      of_started true s = s
  step-IsSound (writes_header code) k h =
      maybe_start-IsSound code _ refl
        (wrote-IsSound _ (called-IsSound (header code ∷ k.calls) k refl h))
  step-IsSound (writes b) k h =
      called-IsSound _ (implicit_header parse k) refl (implicit_header-IsSound k h)
  step-IsSound flushes k h = called-IsSound (flushed ∷ k.calls) k refl h
  step-IsSound closes_stop k h = stopped-IsSound k.stopped true k (λ x. refl) h
  step-IsSound sets_stopped k h = set_stopped-IsSound k h
  step-IsSound sees_stop k h = run_stop-IsSound k h
  step-IsSound (ticks written) k h = run_tick-IsSound written k h

  pub run_events-IsSound :
      (es : List (Event parse)) (k : KeepAliveWriter) → IsSound k → IsSound (run_events parse es k)
  unfolding run_events
  run_events-IsSound [] k h = h
  run_events-IsSound (e ∷ es) k h = run_events-IsSound es (step parse e k) (step-IsSound e k h)

  -- In every interleaving from a new writer, there is no goroutine and no comment before the stream is
  -- established, and from then on exactly one goroutine was started, a header was written and the
  -- interval is positive; once the keep-alive is stopped its channel is closed.
  pub new_keep_alive_writer-IsSound :
      (interval : ℤ) (es : List (Event parse))
      → IsSound (run_events parse es (new_keep_alive_writer interval))
  unfolding new_keep_alive_writer
  new_keep_alive_writer-IsSound interval es = run_events-IsSound es _ ((refl, refl, refl), tt)
