-- ===== src/Stream/Lifecycle/Control/Terminal.antt =====
-- What cancellation and reset promise.
use voxtral_cpp.Prelude.{ℕ, ◌≤◌, ◌≡◌, refl, true, false, [], ◌∷◌, ◌++◌, arith, if-cases, length}
use voxtral_cpp.Stream.State.{
  Status, State, EventType, Event, event_of, Pipeline, Stream, clear_error,
}
use voxtral_cpp.Stream.Events.Order.{mandatory, push_event-Pushed}
use voxtral_cpp.Stream.Lifecycle.Create.{with_guard}
use voxtral_cpp.Stream.Lifecycle.Feed.{feed_allowed}
use voxtral_cpp.Stream.Lifecycle.Finish.{flushing}
use voxtral_cpp.Stream.Lifecycle.Control.{
  emit_cancelled, cancel_now, cancel_in, cancel, reset, reset_body,
}

abbrev pub cancelled_event : ℕ → Event
cancelled_event t = record (event_of EventType.cancelled) { t_audio = t }

module _ {p : Pipeline} where
  -- What a cancellation of `s` gives.
  abbrev pub Cancelled : Stream p → Status × Stream p → Type 0
  Cancelled s (st, t) =
      (st ≡ Status.ok)
      × (t.lifecycle.state ≡ State.cancelled)
      × (t.lifecycle.cancelled_emitted ≡ true)
      × (mandatory t.events.queue
          ≡ mandatory s.events.queue ++ cancelled_event s.lifecycle.total_samples_received ∷ [])

  emit_cancelled-queue :
      (s : Stream p)
      → s.lifecycle.cancelled_emitted ≡ false
      → length s.events.queue ≤ s.events.max_events
      → (mandatory (emit_cancelled s).events.queue
          ≡ mandatory s.events.queue ++ cancelled_event s.lifecycle.total_samples_received ∷ [])
        × ((emit_cancelled s).lifecycle.cancelled_emitted ≡ true)
  unfolding emit_cancelled
  emit_cancelled-queue s n fits =
      let ev = cancelled_event s.lifecycle.total_samples_received in
      let h = push_event-Pushed (flushing s) ev in
      let order = h.order in let refused = h.refused in ground (arith, n, fits, order, refused)

  cancel_now-Cancelled :
      (s : Stream p)
      → s.lifecycle.cancelled_emitted ≡ false
      → length s.events.queue ≤ s.events.max_events
      → Cancelled s (cancel_now s)
  unfolding cancel_now clear_error
  cancel_now-Cancelled s n fits =
      let s1 = record s { lifecycle = record (s.lifecycle) { cancel_requested = true } } in
      let e = emit_cancelled-queue s1 n fits in (refl, refl, e.1, e.0)

  cancel_in-Cancelled :
      (k : State) (s : Stream p)
      → feed_allowed k ≡ true
      → s.lifecycle.cancelled_emitted ≡ false
      → length s.events.queue ≤ s.events.max_events
      → Cancelled s (cancel_in k s)
  unfolding cancel_in
  cancel_in-Cancelled State.created s a n fits = cancel_now-Cancelled s n fits
  cancel_in-Cancelled State.running s a n fits = cancel_now-Cancelled s n fits
  cancel_in-Cancelled State.finishing s a n fits = absurd (ground (arith, a))
  cancel_in-Cancelled State.completed s a n fits = absurd (ground (arith, a))
  cancel_in-Cancelled State.cancelled s a n fits = absurd (ground (arith, a))
  cancel_in-Cancelled State.failed s a n fits = absurd (ground (arith, a))

  -- cancel() on a created or running stream with no operation in flight and no cancellation
  -- reported yet, whose queue is within the ordinary bound, full or not: it returns `ok`, the
  -- stream is cancelled, and one CANCELLED event stands behind all queued events that are not
  -- partial texts.
  pub cancel-Cancelled :
      (s : Stream p)
      → s.lifecycle.in_operation ≡ false
      → feed_allowed s.lifecycle.state ≡ true
      → s.lifecycle.cancelled_emitted ≡ false
      → length s.events.queue ≤ s.events.max_events
      → Cancelled s (cancel s)
  unfolding cancel
  cancel-Cancelled s free a n fits =
      if-cases (Cancelled s) s.lifecycle.in_operation (λ t. absurd (ground (arith, t, free)))
        (λ _. cancel_in-Cancelled s.lifecycle.state (with_guard s true) a n fits)

  -- What reset() forgets: everything but the ownership, the parameters, what was brought up, the
  -- prompt, the decoder's mode, the capacity of the queue, whether the graphs are warm, and
  -- whether outputs are hashed.
  abbrev pub Related : Stream p → Stream p → Type 0
  Related s t =
      (t.has_ctx ≡ s.has_ctx)
      × (t.owns_context ≡ s.owns_context)
      × (t.params ≡ s.params)
      × (t.frontend.has_mel_fe ≡ s.frontend.has_mel_fe)
      × (t.frontend.has_enc ≡ s.frontend.has_enc)
      × (t.decoder.incremental ≡ s.decoder.incremental)
      × (t.decoder.prompt_ids ≡ s.decoder.prompt_ids)
      × (t.events.max_events ≡ s.events.max_events)
      × (t.lifecycle.warmup_complete ≡ s.lifecycle.warmup_complete)
      × (t.diagnostics.capture_output_sha ≡ s.diagnostics.capture_output_sha)

  -- Two streams with no operation in flight that agree on what reset() keeps, and whose devices are
  -- the same after the reset, are the same stream after reset(): nothing of what they were fed or
  -- of how they ended is left.
  pub reset_forgets :
      (s t : Stream p)
      → s.lifecycle.in_operation ≡ false
      → t.lifecycle.in_operation ≡ false
      → Related s t
      → (reset t).1.device ≡ (reset s).1.device
      → reset t ≡ reset s
  unfolding reset reset_body clear_error
  reset_forgets s t a b r d = ground (arith, a, b, r, d)
