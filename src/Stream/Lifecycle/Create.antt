-- ===== src/Stream/Lifecycle/Create.antt =====
-- src/voxtral-stream.cpp: the parameter check, the creation of a stream and the reentrancy guard.
use voxtral_cpp.Prelude.{
  ℕ, Bool, true, false, not, ◌||◌, Option, none, some, [], if◌then◌else◌, ◌==◌,
}
use voxtral_cpp.Stream.State.{
  Status, State, Message, Params, Lifecycle, PendingToken, DecoderState, EventState, Pipeline,
  FrontendState, Stream, set_error, max_events_default,
}

-- VOXTRAL_SAMPLE_RATE
abbrev pub sample_rate : ℕ
sample_rate = 16000

unfoldable pub params_check : Params → Status
params_check params =
    if not (params.sample_rate == sample_rate) || not (params.channels == 1)
    then Status.unsupported_audio_format
    else if params.max_total_samples == 0
    then Status.invalid_argument
    else Status.ok

abbrev pub no_pending : PendingToken
no_pending = record { valid = false; token = 0; position = 0; special = false }

abbrev pub initial_lifecycle : Lifecycle
initial_lifecycle = record {
  state = State.created;
  last_status = Status.ok;
  last_error = Message.empty;
  in_operation = false;
  cancel_requested = false;
  cancelled_emitted = false;
  warmup_complete = false;
  total_samples_received = 0;
  total_samples_consumed = 0;
  feed_calls = 0;
  inference_runs = 0;
}

abbrev pub initial_decoder : Bool → DecoderState
initial_decoder incremental = record {
  incremental = incremental;
  prompt_ids = [];
  adapter_groups_committed = 0;
  adapter_commit_calls = 0;
  decoder_prefill_done = false;
  decoder_prev_token = 0;
  decoder_position = 0;
  decoder_steps = 0;
  decoder_tokens_emitted = 0;
  tokens_before_finish = 0;
  decoder_eos = false;
  token_sequence = 0;
  partial_revision = 0;
  partial_text = [];
  partial_stable_bytes = 0;
  pending = no_pending;
  tokens = [];
  transcript = [];
  token_id_d2h_bytes = 0;
}

abbrev pub initial_events : EventState
initial_events = record {
  queue = [];
  max_events = max_events_default;
  events_overflowed = false;
  events_emitted = 0;
  token_events = 0;
  partial_events = 0;
  partial_events_coalesced = 0;
  event_queue_high_watermark = 0;
  event_queue_overflow_attempts = 0;
  events_dropped = 0;
  public_poll_sequence = 0;
  decoder_backpressured = false;
  finalizing_flush = false;
  aggressive_partial_coalescing = false;
}

-- The two environment variables: whether the reference decoder and the output hashing are asked
-- for.
pub record Environment : Type 0 where
  pub reference_decoder : Bool
  pub capture_output_sha : Bool

abbrev pub is_ok : Status → Bool
is_ok Status.ok = true
is_ok _ = false

module _ {p : Pipeline} where
  abbrev pub initial_frontend : FrontendState p
  initial_frontend = record {
    pcm = [];
    has_mel_fe = false;
    left_pad_injected = false;
    full_pcm_buffered_at_finish = false;
    has_enc = false;
    enc_pushed_frames = 0;
  }

  -- A stream without a context; the device is what a context would bring.
  abbrev pub fresh_stream : Environment → p.Device → Params → Stream p
  fresh_stream env device params = record {
    device = device;
    has_ctx = false;
    owns_context = false;
    params = params;
    lifecycle = initial_lifecycle;
    frontend = initial_frontend;
    decoder = initial_decoder (not env.reference_decoder);
    events = initial_events;
    diagnostics = record {
      pcm_sha = p.sha_init;
      capture_output_sha = env.capture_output_sha;
      encoder_output_sha = p.sha_init;
      adapter_output_sha = p.sha_init;
      encoder_sha_rows = 0;
      adapter_sha_rows = 0;
      output_sha_d2h_bytes = 0;
    };
  }

  unfoldable pub allocate_stream_state : Environment → p.Device → Params → Option (Stream p)
  unfolding params_check
  allocate_stream_state env device params =
      if is_ok (params_check params) then some (fresh_stream env device params) else none

  -- `model` is whether the model is not null, `context` whether the factory made a context.
  unfoldable pub with_context : Stream p → Bool → Bool → Stream p
  unfolding set_error
  with_context s model context =
      if not model
      then s
      else if context
      then record s { has_ctx = true; owns_context = true }
      else set_error (record s { lifecycle = record (s.lifecycle) { state = State.failed } })
          Status.backend_error
          (Message.text "failed to create per-stream execution context from model")

  unfoldable pub create : Environment → p.Device → Params → Bool → Bool → Option (Stream p)
  unfolding allocate_stream_state with_context
  create env device params model context = elim (allocate_stream_state env device params) [
    | none ↦ none
    | some s ↦ some (with_context s model context)
  ]

  abbrev pub with_guard : Stream p → Bool → Stream p
  with_guard s engaged = record s { lifecycle = record (s.lifecycle) { in_operation = engaged } }

  -- `op_guard`: a second operation on the stream is refused, and nothing changes.
  abbrev pub guarded : Stream p → (Stream p → Status × Stream p) → Status × Stream p
  guarded s body =
      if s.lifecycle.in_operation
      then (Status.busy, s)
      else (let (st, s') = body (with_guard s true) in (st, with_guard s' false))
