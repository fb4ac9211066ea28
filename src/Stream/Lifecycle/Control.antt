-- ===== src/Stream/Lifecycle/Control.antt =====
-- src/voxtral-stream.cpp: reset, cancellation, warmup, the event capacity and the feed status.
pub mod Sound
pub mod Terminal
use voxtral_cpp.Prelude.{
  ℕ, Bool, true, false, not, ◌&&◌, ◌||◌, Option, none, some, List, [], ◌∷◌, if◌then◌else◌, ltb,
  ◌==◌,
}
use voxtral_cpp.Stream.State.{
  Status, State, EventType, Message, Lifecycle, DecoderState, EventState, Event, event_of, Params,
  Pipeline, Stream, FrontendState, Diagnostics, set_error, clear_error, max_events_default,
}
use voxtral_cpp.Stream.Events.{push_event}
use voxtral_cpp.Stream.Frontend.{ensure_frontend, ensure_encoder}
use voxtral_cpp.Stream.Lifecycle.Create.{
  Environment, allocate_stream_state, guarded, no_pending, is_ok,
}
use voxtral_cpp.Stream.Lifecycle.Finish.{with_state, flushing}

-- `voxtral_stream_feed_status`
pub data FeedStatus : Type 0 where
  ok would_block queue_full cancelled failed : FeedStatus

abbrev pub is_created : State → Bool
is_created State.created = true
is_created _ = false

abbrev pub when : Bool → {A : Type 0} → (A → A) → A → A
when true f x = f x
when false f x = x

abbrev pub reset_lifecycle : Lifecycle → Lifecycle
reset_lifecycle l = record l {
  total_samples_received = 0;
  total_samples_consumed = 0;
  feed_calls = 0;
  inference_runs = 0;
  cancel_requested = false;
  cancelled_emitted = false;
  state = State.created;
}

abbrev pub reset_decoder : DecoderState → DecoderState
reset_decoder d = record d {
  adapter_groups_committed = 0;
  adapter_commit_calls = 0;
  decoder_prefill_done = false;
  decoder_prev_token = 0;
  decoder_position = 0;
  decoder_steps = 0;
  decoder_tokens_emitted = 0;
  tokens_before_finish = 0;
  decoder_eos = false;
  token_sequence = 0;
  partial_revision = 0;
  partial_text = [];
  partial_stable_bytes = 0;
  token_id_d2h_bytes = 0;
  pending = no_pending;
  tokens = [];
  transcript = [];
}

abbrev pub reset_events : EventState → EventState
reset_events q = record q {
  decoder_backpressured = false;
  finalizing_flush = false;
  aggressive_partial_coalescing = false;
  queue = [];
  events_overflowed = false;
  events_emitted = 0;
  token_events = 0;
  partial_events = 0;
  partial_events_coalesced = 0;
  event_queue_high_watermark = 0;
  event_queue_overflow_attempts = 0;
  events_dropped = 0;
  public_poll_sequence = 0;
}

module _ {p : Pipeline} where
  abbrev pub reset_device : Stream p → p.Device
  reset_device s =
      when s.has_ctx p.decoder_reset
        (when s.frontend.has_enc p.enc_reset (when s.frontend.has_mel_fe p.mel_reset s.device))

  abbrev pub reset_frontend : FrontendState p → FrontendState p
  reset_frontend f = record f {
    pcm = [];
    enc_pushed_frames = 0;
    left_pad_injected = false;
    full_pcm_buffered_at_finish = false;
  }

  abbrev pub reset_diagnostics : Diagnostics p → Diagnostics p
  reset_diagnostics d = record d {
    pcm_sha = p.sha_init;
    encoder_output_sha = p.sha_init;
    adapter_output_sha = p.sha_init;
    encoder_sha_rows = 0;
    adapter_sha_rows = 0;
    output_sha_d2h_bytes = 0;
  }

  unfoldable pub reset_body : Stream p → Status × Stream p
  reset_body s = (
    Status.ok,
    clear_error (record s {
      device = reset_device s;
      lifecycle = reset_lifecycle s.lifecycle;
      frontend = reset_frontend s.frontend;
      decoder = reset_decoder s.decoder;
      events = reset_events s.events;
      diagnostics = reset_diagnostics s.diagnostics;
    }),
  )

  -- `voxtral_stream_reset_internal`
  unfoldable pub reset : Stream p → Status × Stream p
  reset s = guarded s reset_body

  -- `voxtral_stream_create_from_context_internal`, with a context that has a model
  unfoldable pub create_from_context : Environment → p.Device → Params → Option (Stream p)
  unfolding reset
  create_from_context env device params = elim (allocate_stream_state env device params) [
    | none ↦ none
    | some s ↦
        let (st, s1) = reset (record s { has_ctx = true; owns_context = false }) in
        if is_ok st then some s1 else none
  ]

  pub emit_cancelled : Stream p → Stream p
  emit_cancelled s =
      if s.lifecycle.cancelled_emitted
      then s
      else (let (_, s1) = push_event (flushing s) (record (event_of EventType.cancelled) {
        t_audio = s.lifecycle.total_samples_received;
      }) in
          record s1 { lifecycle = record (s1.lifecycle) { cancelled_emitted = true } })

  pub cancel_now : Stream p → Status × Stream p
  cancel_now s =
      let s1 = record s { lifecycle = record (s.lifecycle) { cancel_requested = true } } in
      (Status.ok, clear_error (with_state (emit_cancelled s1) State.cancelled))

  abbrev refuse_cancel : Stream p → Message → Status × Stream p
  refuse_cancel s msg = (Status.invalid_state, set_error s Status.invalid_state msg)

  -- The `switch` on the state.
  pub cancel_in : State → Stream p → Status × Stream p
  unfolding cancel_now
  cancel_in State.created s = cancel_now s
  cancel_in State.running s = cancel_now s
  cancel_in State.finishing s = refuse_cancel s (Message.text "cannot cancel during finish")
  cancel_in State.completed s = refuse_cancel s (Message.text "cannot cancel a completed stream")
  cancel_in State.cancelled s = (Status.ok, s)
  cancel_in State.failed s = (Status.ok, s)

  abbrev pub cancel_body : Stream p → Status × Stream p
  cancel_body s = cancel_in s.lifecycle.state s

  -- `voxtral_stream_cancel_internal`
  pub cancel : Stream p → Status × Stream p
  cancel s = guarded s cancel_body

  -- The encoder is not there, or its creation failed.
  pub warmup_failed : Stream p → Status × Stream p
  warmup_failed s =
      let s1 =
        if is_ok s.lifecycle.last_status
        then set_error s Status.backend_error
            (Message.text "failed to initialize production warmup state")
        else s in
      (s1.lifecycle.last_status, s1)

  pub warmup_graphs : Stream p → Status × Stream p
  warmup_graphs s =
      let (warm, device) = p.enc_warmup s.device in
      let s1 = record s { device = device } in
      if not warm
      then (
        Status.backend_error,
        set_error s1 Status.backend_error (Message.text "production graph warmup failed"),
      )
      else (
        Status.ok,
        clear_error (record s1 {
          frontend = record (s1.frontend) { enc_pushed_frames = 0 };
          lifecycle = record (s1.lifecycle) { warmup_complete = true };
        }),
      )

  -- The two `ensure` calls, the second only behind the first.
  pub warmup_start : Stream p → Status × Stream p
  warmup_start s =
      let (front, s1) = ensure_frontend s in
      if not front
      then warmup_failed s1
      else let (there, s2) = ensure_encoder s1 in
        if not there || not s2.frontend.has_enc then warmup_failed s2 else warmup_graphs s2

  pub warmup_body : Stream p → Status × Stream p
  warmup_body s =
      if s.lifecycle.warmup_complete
      then (Status.ok, s)
      else if not (is_created s.lifecycle.state)
          || not (s.lifecycle.total_samples_received == 0)
          || not s.has_ctx
          || not s.decoder.incremental
      then (
        Status.invalid_state,
        set_error s Status.invalid_state
            (Message.text "warmup requires a fresh production incremental stream"),
      )
      else warmup_start s

  -- `voxtral_stream_warmup_internal`
  pub warmup : Stream p → Status × Stream p
  warmup s = guarded s warmup_body

  -- `voxtral_stream_set_event_capacity_internal`
  pub set_event_capacity : Stream p → ℕ → Bool × Stream p
  set_event_capacity s n = elim s.events.queue [
    | _ ∷ _ ↦ (false, s)
    | [] ↦
        if n == 0 || ltb max_events_default n || not (is_created s.lifecycle.state)
        then (false, s)
        else (true, record s { events = record (s.events) { max_events = n } })
  ]

  -- `voxtral_stream_last_feed_status`
  unfoldable pub last_feed_status : Stream p → FeedStatus
  last_feed_status s = elim s.lifecycle.last_status [
    | Status.ok ↦ FeedStatus.ok
    | Status.limit_exceeded ↦
        if s.events.decoder_backpressured then FeedStatus.queue_full else FeedStatus.failed
    | Status.busy ↦ FeedStatus.would_block
    | Status.cancelled ↦ FeedStatus.cancelled
    | _ ↦ FeedStatus.failed
  ]
