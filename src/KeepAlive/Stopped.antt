-- ===== src/KeepAlive/Stopped.antt =====
-- What follows once `stopKeepAlive` has returned.
use toolhive_core.Base.{
  ℕ, ◌≡◌, ◌⊎◌, refl, ◌∙◌, ap, Bool, true, false, ◌||◌, List, [], ◌∷◌, Option, String, arith,
  Bool-cases, inl, inr,
}
use toolhive_core.KeepAlive.{
  header, Ticker, KeepAliveWriter, is_running, status_ok, maybe_start_locked, write_header,
  implicit_header, write, flush, close_stop, set_stopped, write_comment, after_comment, run_tick,
  run_stop, Event, sets_content_type, writes_header, writes, flushes, closes_stop, sets_stopped,
  sees_stop, ticks, step, run_events,
}
use toolhive_core.KeepAlive.Sound.{comments, IsSound, IsClosed}

-- A tick of the goroutine, or its look at the closed channel.
abbrev pub is_turn : {parse : String → Option String} → Event parse → Bool
is_turn sees_stop = true
is_turn (ticks written) = true
is_turn (sets_content_type t) = false
is_turn (writes_header code) = false
is_turn (writes b) = false
is_turn flushes = false
is_turn closes_stop = false
is_turn sets_stopped = false

abbrev pub has_turn : {parse : String → Option String} → List (Event parse) → Bool
has_turn [] = false
has_turn (e ∷ es) = is_turn e || has_turn es

-- Nothing of the keep-alive was written between two points, and the goroutine was not started anew.
abbrev pub IsQuiet : KeepAliveWriter → KeepAliveWriter → Type 0
IsQuiet k later =
    (comments later.calls ≡ comments k.calls) × (later.starts ≡ k.starts) × (later.stopped ≡ true)

module _ (parse : String → Option String) where
  never_starts :
      (status : ℕ) (k : KeepAliveWriter) → k.stopped ≡ true → maybe_start_locked parse status k ≡ k
  unfolding maybe_start_locked
  never_starts status k h = ground arith

  implicit_header-stopped :
      (k : KeepAliveWriter)
      → k.stopped ≡ true
      → (implicit_header parse k ≡ k) ⊎ (implicit_header parse k ≡ record k { wrote_header = true })
  unfolding implicit_header
  implicit_header-stopped k h = elim (Bool-cases k.wrote_header) [
    | inl e ↦ inl (simp e refl)
    | inr e ↦ inr (simp e (never_starts status_ok (record k { wrote_header = true }) h))
  ]

  -- The goroutine's state after an event: as it was, unless it was its turn.
  abbrev HasMoved : Bool → Ticker → Ticker → Type 0
  HasMoved turn was is =
      (turn ≡ false → is ≡ was)
      × (is_running was ≡ false → is ≡ was)
      × (turn ≡ true → is_running is ≡ false)

  step_stopped :
      (e : Event parse) (k : KeepAliveWriter)
      → k.stopped ≡ true
      → k.stop_closed ≡ true
      → IsQuiet k (step parse e k)
        × ((step parse e k).stop_closed ≡ true)
        × HasMoved (is_turn e) k.ticker (step parse e k).ticker
  unfolding step write_header write flush close_stop set_stopped run_tick run_stop write_comment
      after_comment
  step_stopped (sets_content_type t) k h c = ground arith
  step_stopped (writes_header code) k h c =
      let same =
        never_starts code (record k { calls = header code ∷ k.calls; wrote_header = true }) h in
      rw same (ground arith)
  step_stopped (writes b) k h c = elim (implicit_header-stopped k h) [
    | inl same ↦ rw same (ground arith)
    | inr same ↦ rw same (ground arith)
  ]
  step_stopped flushes k h c = ground arith
  step_stopped closes_stop k h c = ground arith
  step_stopped sets_stopped k h c = ground arith
  step_stopped sees_stop k h c = ground arith
  step_stopped (ticks written) k h c = ground arith

  closed_of_IsSound : (k : KeepAliveWriter) → IsSound k → k.stopped ≡ true → k.stop_closed ≡ true
  closed_of_IsSound k (s, c) h = of_stopped k.stopped h c
    where
      of_stopped : (b : Bool) → b ≡ true → IsClosed b k.stop_closed → k.stop_closed ≡ true
      of_stopped true e c = c
      of_stopped false e c = cc

  IsQuiet-from :
      (es : List (Event parse)) (k : KeepAliveWriter)
      → k.stopped ≡ true
      → k.stop_closed ≡ true
      → IsQuiet k (run_events parse es k)
  unfolding run_events
  IsQuiet-from [] k h c = (refl, refl, h)
  IsQuiet-from (e ∷ es) k h c =
      let ((n, m, s), d, _) = step_stopped e k h c in
      let (n', m', s') = IsQuiet-from es (step parse e k) s d in (n' ∙ n, m' ∙ m, s')

  exits_from :
      (es : List (Event parse)) (k : KeepAliveWriter)
      → k.stopped ≡ true
      → k.stop_closed ≡ true
      → (is_running k.ticker ≡ false) ⊎ (has_turn es ≡ true)
      → is_running (run_events parse es k).ticker ≡ false
  unfolding run_events
  exits_from [] k h c (inl done) = done
  exits_from [] k h c (inr turn) = cc
  exits_from (e ∷ es) k h c t =
      let ((n, m, s), d, (idle, gone, turned)) = step_stopped e k h c in
      exits_from es (step parse e k) s d (after t (Bool-cases (is_turn e)) idle gone turned)
    where
      after :
          (is_running k.ticker ≡ false) ⊎ (has_turn (e ∷ es) ≡ true)
          → (is_turn e ≡ true) ⊎ (is_turn e ≡ false)
          → (is_turn e ≡ false → (step parse e k).ticker ≡ k.ticker)
          → (is_running k.ticker ≡ false → (step parse e k).ticker ≡ k.ticker)
          → (is_turn e ≡ true → is_running (step parse e k).ticker ≡ false)
          → (is_running (step parse e k).ticker ≡ false) ⊎ (has_turn es ≡ true)
      after t (inl turn) idle gone turned = inl (turned turn)
      after (inl done) (inr other) idle gone turned = inl (ap is_running (gone done) ∙ done)
      after (inr turn) (inr other) idle gone turned = inr (rw other at turn)

  -- After `stopKeepAlive`, no interleaving writes another comment or starts a goroutine.
  pub run_events-IsQuiet :
      (es : List (Event parse)) (k : KeepAliveWriter)
      → IsSound k
      → k.stopped ≡ true
      → IsQuiet k (run_events parse es k)
  run_events-IsQuiet es k sound h = IsQuiet-from es k h (closed_of_IsSound k sound h)

  -- After `stopKeepAlive`, the goroutine has returned as soon as it had one turn, be it a tick or a look
  -- at the closed channel, and it never runs again.
  pub run_events_exits :
      (es : List (Event parse)) (k : KeepAliveWriter)
      → IsSound k
      → k.stopped ≡ true
      → has_turn es ≡ true
      → is_running (run_events parse es k).ticker ≡ false
  run_events_exits es k sound h turn = exits_from es k h (closed_of_IsSound k sound h) (inr turn)
