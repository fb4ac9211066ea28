-- ===== src/Tests.antt =====
-- The theorems at concrete inputs: a pipeline whose device counts samples, small rings and queues.
mod Mel
mod Api
mod Server
mod Eligibility
use voxtral_cpp.Prelude.{
  ℕ, ◌+◌, ◌/◌, ◌≡◌, refl, inr, true, false, none, some, [], ◌∷◌, List, arith, ◌≤◌, ◌<◌, length,
}
use voxtral_cpp.Stream.State.{State, EventType, event_of, Params, Pipeline, Stream, uint64_max}
use voxtral_cpp.Stream.Events.{push_event_coalesced, emit_token_event}
use voxtral_cpp.Stream.Events.Order.{Pushed}
use voxtral_cpp.Stream.Events.Placed.{Placed, push_event_coalesced-Placed}
use voxtral_cpp.Stream.Events.Sequence.{InSequence, emit_token_event-InSequence}
use voxtral_cpp.Stream.Events.Frame.{Kept}
use voxtral_cpp.Stream.Decoder.{pump_incremental}
use voxtral_cpp.Stream.Decoder.Frame.{pump_incremental-Kept}
use voxtral_cpp.Stream.Decoder.Sound.{IsSound}
use voxtral_cpp.Stream.Decoder.Pump.{Outcome, pump_incremental-Outcome}
use voxtral_cpp.Stream.Lifecycle.Create.{
  Environment, params_check, fresh_stream, allocate_stream_state, with_context, create,
}
use voxtral_cpp.Stream.Lifecycle.Finish.{check_finish, finish_checked, finish_body, finish}
use voxtral_cpp.Stream.Lifecycle.Finish.Well.{IsWell}
use voxtral_cpp.Stream.Lifecycle.Finish.Ends.{Ended, finish-Ends, finish_idempotent}
use voxtral_cpp.Stream.Lifecycle.Feed.Slices.{IsSound-SameBooks}
use voxtral_cpp.Stream.Lifecycle.Runs.{Call, run_all, fresh_stream-IsSound, created-IsWell}
use voxtral_cpp.KvCache.Decoder.{
  KvRing, KvPlan, IsKvRing, Planned, decoder_kv_plan, decoder_kv_plan-Planned, kv_plan,
}
use voxtral_cpp.KvCache.Encoder.{EncKvPlan, EncPlanned, enc_kv_plan, enc_kv_plan-EncPlanned}
use voxtral_cpp.Server.GpuLease.{GpuMode}
use voxtral_cpp.Server.GpuLease.Exclusive.{Action, System, IsExclusive, run, run-IsExclusive}
use voxtral_cpp.Server.PcmQueue.{new_queue}
use voxtral_cpp.Server.PcmQueue.Fifo.{Session, IsFifo, act_all, act_all-IsFifo}
use voxtral_cpp.Server.PcmQueue.Fifo
use voxtral_cpp.Stream.Lifecycle.Feed.{feed_common}
use voxtral_cpp.Stream.Lifecycle.Feed.Admission.{Accounted, feed_common-Accounted}
use voxtral_cpp.Stream.Lifecycle.Control.{reset, reset_body, cancel}
use voxtral_cpp.Stream.Lifecycle.Control.Terminal.{Cancelled, cancel-Cancelled, reset_forgets}
use voxtral_cpp.Server.Outbound.{OutboundKind, Outbox}
use voxtral_cpp.Server.Outbound.Bounds.{IsOutbox, act_all-IsOutbox}
use voxtral_cpp.Server.Outbound.Bounds
use voxtral_cpp.Server.WavReader.{
  AudioParseResult, read_u16le, read_u32le, read_fmt, samples_from, parse_pcm16_wav,
}
use voxtral_cpp.Server.WavReader.Bounds.{Parsed, parse_pcm16_wav-Parsed}

-- 160 samples a Mel frame, 320 an encoder frame, and a token of one byte at each position.
abbrev pub counting : Pipeline
counting = record {
  Device = ℕ;
  Sample = ℕ;
  Sha = ℕ;
  sample_of_s16 = λ n. n;
  is_finite = λ _. true;
  token_piece = λ t. t ∷ [];
  sha_init = 0;
  sha_update = λ h xs. h;
  has_mel_tables = λ _. true;
  mel_create = λ d _. (true, d);
  mel_reset = λ _. 0;
  mel_feed = λ d xs. (true, d + length xs);
  mel_feed_silence = λ d n. d + n;
  mel_finish = λ d. d;
  mel_frame_count = λ d. d / 160;
  mel_frames_base = λ _. 0;
  mel_has_frame = λ _ _. true;
  mel_discard_before = λ d _. d;
  enc_create = λ d. (true, d);
  enc_uses_kv = λ _. true;
  enc_reset = λ d. d;
  enc_warmup = λ d. (true, d);
  enc_push_mel = λ d _ _. (true, d);
  enc_push_mel_final = λ d _ _. (true, d);
  enc_finish = λ d. (true, d);
  enc_output_frames = λ d. d / 320;
  set_enc_out_ring_active = λ d. d;
  enc_out_ring_frames = λ _. 512;
  read_enc_out_ring = λ _ _ _. some [];
  aemb_ring_frames = λ _. 512;
  read_aemb_ring = λ _ _ _. some [];
  adapter_commit = λ d _ _. (true, d);
  decoder_begin = λ d. d;
  decoder_prefill = λ d _. (true, d);
  decoder_step = λ d _ position. (some (100 + position), d);
  decoder_reset = λ d. d;
  transcribe_encoder_output = λ d _. (some ([], []), d);
  transcribe_mel = λ d _. (some ([], []), d);
}

abbrev production : Environment
production = record { reference_decoder = false; capture_output_sha = false }

abbrev mono : Params
mono = record {
  sample_rate = 16000;
  channels = 1;
  max_tokens = 0;
  max_total_samples = uint64_max;
  retain_mel_history = false;
}

abbrev fresh : Stream counting
fresh = fresh_stream production 0 mono

abbrev owned : Stream counting
owned = record fresh { has_ctx = true; owns_context = true }

-- A stream with enough audio in its encoder for the prompt and a token.
abbrev listening : Stream counting
listening = record owned { device = 52480; frontend = record (owned.frontend) { has_enc = true } }

listening-IsSound : IsSound listening
listening-IsSound =
    IsSound-SameBooks fresh listening (refl, refl, refl) (fresh_stream-IsSound production 0 mono)

created-IsWell_example : IsWell (
    run_all
      (Call.warm ∷ Call.f32 (some (1 ∷ 2 ∷ 3 ∷ [])) 3 ∷ Call.poll ∷ Call.end ∷ Call.restart ∷ [])
      owned)
unfolding create allocate_stream_state with_context params_check
created-IsWell_example =
    created-IsWell counting production 0 mono true true owned refl
      (Call.warm ∷ Call.f32 (some (1 ∷ 2 ∷ 3 ∷ [])) 3 ∷ Call.poll ∷ Call.end ∷ Call.restart ∷ [])

pump_incremental-Outcome_example :
    IsSound (pump_incremental listening).1 × Outcome (pump_incremental listening)
pump_incremental-Outcome_example = pump_incremental-Outcome listening listening-IsSound refl

pump_incremental-Kept_example : Kept listening (pump_incremental listening).1
pump_incremental-Kept_example = pump_incremental-Kept listening

push_event_coalesced-Placed_example :
    Pushed owned
      (event_of EventType.partial_text)
      (push_event_coalesced owned (event_of EventType.partial_text))
    × Placed owned
        (event_of EventType.partial_text)
        (push_event_coalesced owned (event_of EventType.partial_text))
push_event_coalesced-Placed_example =
    push_event_coalesced-Placed owned (event_of EventType.partial_text)

emit_token_event-InSequence_example :
    let s' = (emit_token_event owned 100 38 false).1 in
    InSequence s'.decoder.token_sequence s'.events.queue
emit_token_event-InSequence_example = emit_token_event-InSequence owned 100 38 false (0, tt, refl)

finish-Ends_example : Ended State.created (finish owned).0 (finish owned).1.lifecycle.state
finish-Ends_example = finish-Ends owned refl refl

-- A cancelled stream may be finished.
abbrev stopped : Stream counting
stopped = record owned { lifecycle = record (owned.lifecycle) { state = State.cancelled } }

finish_idempotent_example : finish (finish stopped).1 ≡ finish stopped
unfolding finish finish_body finish_checked check_finish
finish_idempotent_example = finish_idempotent stopped refl

-- Eight slots, all used, the newest in slot 1.
abbrev small_ring : KvRing
small_ring = record { capacity = 8; used = 8; oldest = 2; next = 10; wraps = 1; evictions = 2 }

small_ring-IsKvRing : IsKvRing small_ring
small_ring-IsKvRing = record {
  positive = omega arith;
  room = omega arith;
  span = refl;
  evicted = refl;
}

decoder_kv_plan-Planned_example :
    (plan : KvPlan) × (decoder_kv_plan small_ring 10 7 ≡ some plan) × Planned small_ring 7 plan
decoder_kv_plan-Planned_example =
    decoder_kv_plan-Planned small_ring 7 small_ring-IsKvRing (omega arith) (omega arith)

enc_kv_plan-EncPlanned_example :
    (plan : EncKvPlan) × (enc_kv_plan 10 3 8 5 ≡ some plan) × EncPlanned 10 3 8 5 plan
enc_kv_plan-EncPlanned_example =
    enc_kv_plan-EncPlanned 10 3 8 5 (omega arith) (omega arith) (omega arith)

abbrev idle : System
idle = record { manager = record { mode = GpuMode.free; active = none; reasons = [] }; leases = [] }

run-IsExclusive_example : IsExclusive (
    run idle (
      Action.acquire GpuMode.batch
      ∷ Action.acquire GpuMode.realtime
      ∷ Action.shut_down
      ∷ Action.drop 1
      ∷ []))
run-IsExclusive_example =
    run-IsExclusive
      (Action.acquire GpuMode.batch
        ∷ Action.acquire GpuMode.realtime
        ∷ Action.shut_down
        ∷ Action.drop 1
        ∷ [])
      idle (record { fit = tt; count = refl })

abbrev connected : Session
connected = record { queue = new_queue 4; accepted = []; delivered = [] }

act_all-IsFifo_example :
    IsFifo
      (act_all connected (Fifo.Action.push (1 ∷ 2 ∷ 3 ∷ 4 ∷ 5 ∷ []) ∷ Fifo.Action.take_one ∷ []))
act_all-IsFifo_example =
    act_all-IsFifo (Fifo.Action.push (1 ∷ 2 ∷ 3 ∷ 4 ∷ 5 ∷ []) ∷ Fifo.Action.take_one ∷ []) connected
      (record { valid = record { counted = refl; bounded = omega arith }; order = inr refl })

feed_common-Accounted_example :
    Accounted owned.lifecycle 2 uint64_max (feed_common owned (some (1 ∷ 2 ∷ [])) 2 some)
feed_common-Accounted_example = feed_common-Accounted owned (some (1 ∷ 2 ∷ [])) 2 some

-- A queue of one slot that is full.
abbrev crowded : Stream counting
crowded = record owned {
  events = record (owned.events) { max_events = 1; queue = event_of EventType.token ∷ [] };
}

cancel-Cancelled_example : Cancelled crowded (cancel crowded)
cancel-Cancelled_example = cancel-Cancelled crowded refl refl refl (omega arith)

-- A stream with audio, and one that was cancelled.
abbrev listening_without_encoder : Stream counting
listening_without_encoder = record owned { device = 52480 }

abbrev heard : Stream counting
heard = record owned {
  device = 52480;
  lifecycle = record (owned.lifecycle) { state = State.cancelled; total_samples_received = 3 };
}

reset_forgets_example : reset heard ≡ reset listening_without_encoder
unfolding reset reset_body
reset_forgets_example =
    reset_forgets listening_without_encoder heard refl refl
      (refl, refl, refl, refl, refl, refl, refl, refl, refl, refl) refl

abbrev quiet : Outbox
quiet = record {
  outbound = [];
  active_write_payload = none;
  outbound_bytes = 0;
  outbound_closed = false;
  write_in_progress = false;
  close_after_drain = false;
  closed = false;
}

act_all-IsOutbox_example : IsOutbox (
    Bounds.act_all quiet (
      Bounds.Action.from_io (record { payload = 1 ∷ []; kind = OutboundKind.partial })
      ∷ Bounds.Action.write
      ∷ Bounds.Action.finish
      ∷ []))
act_all-IsOutbox_example =
    act_all-IsOutbox
      (Bounds.Action.from_io (record { payload = 1 ∷ []; kind = OutboundKind.partial })
        ∷ Bounds.Action.write
        ∷ Bounds.Action.finish
        ∷ [])
      quiet (record { counted = refl; writing = refl; small = omega arith; few = omega arith })

-- A file with a format chunk and one sample.
abbrev small_wav : List ℕ
small_wav =
    82 ∷ 73 ∷ 70 ∷ 70 ∷ 38 ∷ 0 ∷ 0 ∷ 0 ∷ 87 ∷ 65 ∷ 86 ∷ 69 ∷ 102 ∷ 109 ∷ 116 ∷ 32 ∷ 16 ∷ 0 ∷ 0 ∷ 0
    ∷ 1 ∷ 0 ∷ 1 ∷ 0 ∷ 128 ∷ 62 ∷ 0 ∷ 0 ∷ 0 ∷ 125 ∷ 0 ∷ 0 ∷ 2 ∷ 0 ∷ 16 ∷ 0 ∷ 100 ∷ 97 ∷ 116 ∷ 97 ∷ 2
    ∷ 0 ∷ 0 ∷ 0 ∷ 1 ∷ 2 ∷ []

parse_pcm16_wav-Parsed_example : Parsed small_wav (parse_pcm16_wav small_wav)
parse_pcm16_wav-Parsed_example = parse_pcm16_wav-Parsed small_wav

small_wav_test : parse_pcm16_wav small_wav ≡ AudioParseResult.audio (513 ∷ [])
unfolding parse_pcm16_wav read_u32le read_u16le read_fmt samples_from
small_wav_test = refl
