-- ===== src/Stream/State.antt =====
-- src/voxtral-stream.h and src/voxtral-stream-internal.h: the enumerations, the stream object with
-- the state of its subsystems, and what the stream calls below it.
use Prim.Native.String.{String}
use voxtral_cpp.Prelude.{ℕ, ◌-◌, ◌*◌, ◌^◌, Bool, false, Option, List, []}

pub data Status : Type 0 where
  ok invalid_argument invalid_state unsupported_audio_format cancelled : Status
  backend_error out_of_memory limit_exceeded busy internal_error : Status

pub data State : Type 0 where
  created running finishing completed cancelled failed : State

pub data EventType : Type 0 where
  token partial_text final_text error completed cancelled : EventType

-- `last_error`, with the parts that the source prints into it.
pub data Message : Type 0 where
  empty : Message
  text : String → Message
  feed_not_allowed : State → Message
  event_queue_full : ℕ → EventType → Message
  inference_threw : Message → Message

-- VOXTRAL_N_LEFT_PAD_TOKENS and its neighbours, include/voxtral.h
abbrev pub n_left_pad_tokens : ℕ
n_left_pad_tokens = 32

abbrev pub n_delay_tokens : ℕ
n_delay_tokens = 6

abbrev pub n_right_pad_tokens : ℕ
n_right_pad_tokens = 17

abbrev pub raw_audio_length_per_tok : ℕ
raw_audio_length_per_tok = 1280

abbrev pub downsample_factor : ℕ
downsample_factor = 4

abbrev pub token_bos : ℕ
token_bos = 1

abbrev pub token_eos : ℕ
token_eos = 2

abbrev pub token_streaming_pad : ℕ
token_streaming_pad = 32

abbrev pub max_feed_samples : ℕ
max_feed_samples = 64 * 1024 * 1024

abbrev pub max_events_default : ℕ
max_events_default = 4096

abbrev pub terminal_event_headroom : ℕ
terminal_event_headroom = 64

abbrev pub stream_left_pad : ℕ
stream_left_pad = n_left_pad_tokens * raw_audio_length_per_tok

abbrev pub uint64_max : ℕ
uint64_max = 2 ^ 64 - 1

abbrev pub int64_max : ℕ
int64_max = 2 ^ 63 - 1

-- `voxtral_stream_event_internal`. Texts are bytes; `message` is the text of an error event.
-- `t_audio` is the position in samples that `t_audio_ms` is computed from. The emission time is
-- left out.
pub record Event : Type 0 where
  pub kind : EventType
  pub token : ℕ
  pub text : List ℕ
  pub message : Message
  pub t_audio : ℕ
  pub error_code : Status
  pub sequence : ℕ
  pub decoder_position : ℕ
  pub audio_end_sample : ℕ
  pub special : Bool
  pub revision : ℕ
  pub stable_prefix_bytes : ℕ

-- A default-constructed event, of the given type.
abbrev pub event_of : EventType → Event
event_of k = record {
  kind = k;
  token = 0;
  text = [];
  message = Message.empty;
  t_audio = 0;
  error_code = Status.ok;
  sequence = 0;
  decoder_position = 0;
  audio_end_sample = 0;
  special = false;
  revision = 0;
  stable_prefix_bytes = 0;
}

-- `voxtral_stream_params_internal`. `max_tokens` is 0 where the source has a number `<= 0`, which
-- means "no limit" there.
pub record Params : Type 0 where
  pub sample_rate : ℕ
  pub channels : ℕ
  pub max_tokens : ℕ
  pub max_total_samples : ℕ
  pub retain_mel_history : Bool

pub record Lifecycle : Type 0 where
  pub state : State
  pub last_status : Status
  pub last_error : Message
  pub in_operation : Bool
  pub cancel_requested : Bool
  pub cancelled_emitted : Bool
  pub warmup_complete : Bool
  pub total_samples_received : ℕ
  pub total_samples_consumed : ℕ
  pub feed_calls : ℕ
  pub inference_runs : ℕ

pub record PendingToken : Type 0 where
  pub valid : Bool
  pub token : ℕ
  pub position : ℕ
  pub special : Bool

pub record DecoderState : Type 0 where
  pub incremental : Bool
  pub prompt_ids : List ℕ
  pub adapter_groups_committed : ℕ
  pub adapter_commit_calls : ℕ
  pub decoder_prefill_done : Bool
  pub decoder_prev_token : ℕ
  pub decoder_position : ℕ
  pub decoder_steps : ℕ
  pub decoder_tokens_emitted : ℕ
  pub tokens_before_finish : ℕ
  pub decoder_eos : Bool
  pub token_sequence : ℕ
  pub partial_revision : ℕ
  pub partial_text : List ℕ
  pub partial_stable_bytes : ℕ
  pub pending : PendingToken
  pub tokens : List ℕ
  pub transcript : List ℕ
  -- `telemetry.token_id_d2h_bytes`
  pub token_id_d2h_bytes : ℕ

pub record EventState : Type 0 where
  pub queue : List Event
  pub max_events : ℕ
  pub events_overflowed : Bool
  pub events_emitted : ℕ
  pub token_events : ℕ
  pub partial_events : ℕ
  pub partial_events_coalesced : ℕ
  pub event_queue_high_watermark : ℕ
  pub event_queue_overflow_attempts : ℕ
  pub events_dropped : ℕ
  pub public_poll_sequence : ℕ
  pub decoder_backpressured : Bool
  pub finalizing_flush : Bool
  pub aggressive_partial_coalescing : Bool

-- What the stream calls below it: the Mel frontend, the encoder stream and the context with its
-- device rings, as one device state, and the immutable model. Each call that changes the device
-- returns the changed device, also where it fails.
pub record Pipeline : Type 1 where
  pub Device : Type 0
  pub Sample : Type 0
  pub Sha : Type 0
  -- the conversion of a signed 16-bit sample, given by its bits, and `std::isfinite`
  pub sample_of_s16 : ℕ → Sample
  pub is_finite : Sample → Bool
  -- `voxtral_token_piece_internal`
  pub token_piece : ℕ → List ℕ
  pub sha_init : Sha
  pub sha_update : Sha → List Sample → Sha
  -- `voxtral_ctx_hann_window` and `voxtral_ctx_mel_filters` are not null
  pub has_mel_tables : Device → Bool
  -- `voxtral_mel_frontend_*`; the create call is given `retain_mel_history`
  pub mel_create : Device → Bool → Bool × Device
  pub mel_reset : Device → Device
  pub mel_feed : Device → List Sample → Bool × Device
  pub mel_feed_silence : Device → ℕ → Device
  pub mel_finish : Device → Device
  pub mel_frame_count : Device → ℕ
  pub mel_frames_base : Device → ℕ
  pub mel_has_frame : Device → ℕ → Bool
  pub mel_discard_before : Device → ℕ → Device
  -- `voxtral_encoder_stream_*`
  pub enc_create : Device → Bool × Device
  pub enc_uses_kv : Device → Bool
  pub enc_reset : Device → Device
  pub enc_warmup : Device → Bool × Device
  pub enc_push_mel : Device → ℕ → ℕ → Bool × Device
  pub enc_push_mel_final : Device → ℕ → ℕ → Bool × Device
  pub enc_finish : Device → Bool × Device
  pub enc_output_frames : Device → ℕ
  -- `voxtral_ctx_*`
  pub set_enc_out_ring_active : Device → Device
  pub enc_out_ring_frames : Device → ℕ
  pub read_enc_out_ring : Device → ℕ → ℕ → Option (List Sample)
  pub aemb_ring_frames : Device → ℕ
  pub read_aemb_ring : Device → ℕ → ℕ → Option (List Sample)
  pub adapter_commit : Device → ℕ → ℕ → Bool × Device
  pub decoder_begin : Device → Device
  pub decoder_prefill : Device → List ℕ → Bool × Device
  pub decoder_step : Device → ℕ → ℕ → Option ℕ × Device
  pub decoder_reset : Device → Device
  -- the finish-only reference paths: the text and the tokens
  pub transcribe_encoder_output : Device → ℕ → Option (List ℕ × List ℕ) × Device
  pub transcribe_mel : Device → ℕ → Option (List ℕ × List ℕ) × Device

pub record FrontendState (p : Pipeline) : Type 0 where
  -- kept by streams without a context only
  pub pcm : List p.Sample
  pub has_mel_fe : Bool
  pub left_pad_injected : Bool
  pub full_pcm_buffered_at_finish : Bool
  pub has_enc : Bool
  pub enc_pushed_frames : ℕ

pub record Diagnostics (p : Pipeline) : Type 0 where
  pub pcm_sha : p.Sha
  pub capture_output_sha : Bool
  pub encoder_output_sha : p.Sha
  pub adapter_output_sha : p.Sha
  pub encoder_sha_rows : ℕ
  pub adapter_sha_rows : ℕ
  pub output_sha_d2h_bytes : ℕ

-- `voxtral_stream`. `has_ctx` and the two `has_` fields of the frontend say which pointers are
-- not null.
pub record Stream (p : Pipeline) : Type 0 where
  pub device : p.Device
  pub has_ctx : Bool
  pub owns_context : Bool
  pub params : Params
  pub lifecycle : Lifecycle
  pub frontend : FrontendState p
  pub decoder : DecoderState
  pub events : EventState
  pub diagnostics : Diagnostics p

-- How a block of statements ends: control goes on after it, or the function returns.
pub data Flow {ℓ} (A : Type ℓ) : Type ℓ where
  go : A → Flow A
  ret : Status → A → Flow A

infixl 5 ◌>>=◌
abbrev pub ◌>>=◌ {ℓ} : {A : Type ℓ} → Flow A → (A → Flow A) → Flow A
go a >>= f = f a
ret st a >>= f = ret st a

-- What the caller sees of a function that ends in `return ok`.
abbrev pub returned {ℓ} : {A : Type ℓ} → Flow A → Status × A
returned (go a) = (Status.ok, a)
returned (ret st a) = (st, a)

module _ {p : Pipeline} where
  unfoldable pub set_error : Stream p → Status → Message → Stream p
  set_error s status msg = record s {
    lifecycle = record (s.lifecycle) { last_status = status; last_error = msg };
  }

  unfoldable pub clear_error : Stream p → Stream p
  clear_error s = record s {
    lifecycle = record (s.lifecycle) { last_status = Status.ok; last_error = Message.empty };
  }
