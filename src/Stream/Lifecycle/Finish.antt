-- ===== src/Stream/Lifecycle/Finish.antt =====
-- src/voxtral-stream.cpp: the end of a stream. The test seam `finishing_hook` and the assembly of
-- the even-trimmed Mel for introspection are left out.
pub mod Well
pub mod Sound
pub mod Ends
use voxtral_cpp.Prelude.{
  ℕ, ◌+◌, ◌-◌, ◌*◌, ◌%◌, Bool, true, false, not, ◌&&◌, ◌||◌, Option, none, some, List, [],
  if◌then◌else◌, ◌==◌,
}
use voxtral_cpp.Stream.State.{
  Status, State, Message, Pipeline, Stream, Flow, go, ret, ◌>>=◌, set_error, clear_error,
  raw_audio_length_per_tok, n_right_pad_tokens,
}
use voxtral_cpp.Stream.Events.{emit_final_and_completed, emit_error}
use voxtral_cpp.Stream.Decoder.{pump_incremental}
use voxtral_cpp.Stream.Frontend.{ensure_left_pad, ensure_encoder, drain_mel_to_encoder}
use voxtral_cpp.Stream.Lifecycle.Create.{guarded}

-- The zero samples behind the audio: up to a multiple of a token, and the right pad.
pub right_pad : ℕ → ℕ
right_pad n =
    (raw_audio_length_per_tok - n % raw_audio_length_per_tok) % raw_audio_length_per_tok
    + n_right_pad_tokens * raw_audio_length_per_tok

-- How the `try` block ends: an exception, or the text and the tokens of a path that returns them,
-- `none` where it reports failure.
pub data Inference {ℓ} (A : Type ℓ) : Type ℓ where
  threw : Message → A → Inference A
  ran : Option (List ℕ × List ℕ) → A → Inference A

module _ {p : Pipeline} where
  abbrev pub with_state : Stream p → State → Stream p
  with_state s st = record s { lifecycle = record (s.lifecycle) { state = st } }

  abbrev pub flushing : Stream p → Stream p
  flushing s = record s { events = record (s.events) { finalizing_flush = true } }

  -- The `switch` on the state.
  unfoldable pub check_finish : State → Stream p → Flow (Stream p)
  check_finish State.created s = go s
  check_finish State.running s = go s
  check_finish State.finishing s = ret Status.busy s
  check_finish State.completed s = ret Status.ok s
  check_finish State.cancelled s = ret Status.ok s
  check_finish State.failed s =
      ret Status.invalid_state
        (set_error s Status.invalid_state (Message.text "finish not allowed after failure"))

  pub after_backlog : Status × Stream p → Flow (Stream p)
  after_backlog (Status.ok, s) = go s
  after_backlog (Status.limit_exceeded, s) = ret Status.limit_exceeded s
  after_backlog (st, s) =
      ret st (with_state (emit_error (flushing s) st s.lifecycle.last_error) State.failed)

  -- A decoder stalled by an earlier feed goes on first, under the ordinary bound.
  pub drain_backlog : Stream p → Flow (Stream p)
  unfolding after_backlog
  drain_backlog s =
      if s.decoder.incremental && s.events.decoder_backpressured
      then after_backlog (pump_incremental s)
      else go s

  abbrev pub begin_finishing : Stream p → Stream p
  begin_finishing s = flushing (with_state s State.finishing)

  pub complete : Stream p → Status × Stream p
  complete s = (Status.ok, clear_error (with_state (emit_final_and_completed s) State.completed))

  pub finish_empty : Stream p → Status × Stream p
  unfolding complete
  finish_empty s = complete (record s {
    decoder = record (s.decoder) { transcript = []; tokens = [] };
    lifecycle = record (s.lifecycle) { total_samples_consumed = 0 };
  })

  pub fail : Stream p → Message → Status × Stream p
  fail s msg =
      let s1 = set_error s Status.backend_error msg in
      (
        Status.backend_error,
        with_state (emit_error s1 Status.backend_error s1.lifecycle.last_error) State.failed,
      )

  abbrev pub count_run : Inference (Stream p) → Inference (Stream p)
  count_run (threw msg s) = threw msg s
  count_run (ran out s) = ran out (record s {
    lifecycle = record (s.lifecycle) { inference_runs = s.lifecycle.inference_runs + 1 };
  })

  pub after_tail : Status × Stream p → Inference (Stream p)
  after_tail (Status.ok, s) = ran (some ([], [])) s
  after_tail (st, s) = threw s.lifecycle.last_error s

  -- The decoder's turn behind the encoder.
  pub decode_tail : Stream p → Inference (Stream p)
  decode_tail s =
      if s.decoder.incremental
      then after_tail (
          pump_incremental (record s {
            decoder = record (s.decoder) {
              tokens_before_finish = s.decoder.decoder_tokens_emitted;
            };
          }))
      else let (out, device) = p.transcribe_encoder_output s.device s.params.max_tokens in
        ran out (record s { device = device })

  -- The rest once the last frames are in the encoder.
  pub after_final_drain : Flow (Stream p) → Inference (Stream p)
  after_final_drain (ret st s) = threw s.lifecycle.last_error s
  after_final_drain (go s) =
      let (finished, device) = p.enc_finish s.device in
      let s1 = record s { device = device } in
      if finished
      then decode_tail s1
      else threw (Message.text "incremental encoder finish failed") s1

  pub run_pipeline : Stream p → Inference (Stream p)
  run_pipeline s =
      if s.frontend.has_enc
      then after_final_drain (drain_mel_to_encoder s true)
      else let (out, device) = p.transcribe_mel s.device s.params.max_tokens in
        ran out (record s { device = device })

  -- The right pad and the end of the Mel.
  pub pad_tail : Stream p → Stream p
  pad_tail s = record s {
    device =
        p.mel_finish (p.mel_feed_silence s.device (right_pad s.lifecycle.total_samples_received));
    frontend = record (s.frontend) { full_pcm_buffered_at_finish = false };
  }

  pub infer : Stream p → Inference (Stream p)
  infer s =
      let (there, s1) = ensure_encoder (pad_tail (ensure_left_pad s)) in
      if there then count_run (run_pipeline s1) else threw s1.lifecycle.last_error s1

  -- The transcript: of the incremental decoder, or the one that the path returned.
  abbrev pub store_result : Stream p → List ℕ × List ℕ → Stream p
  store_result s (text, tokens) = record s {
    decoder =
        if s.decoder.incremental
        then record (s.decoder) { transcript = s.decoder.partial_text }
        else record (s.decoder) { transcript = text; tokens = tokens };
    lifecycle = record (s.lifecycle) {
      total_samples_consumed = s.lifecycle.total_samples_received;
    };
  }

  pub conclude : Inference (Stream p) → Status × Stream p
  unfolding fail complete
  conclude (threw msg s) = fail s (Message.inference_threw msg)
  conclude (ran none s) = fail s (Message.text "incremental Mel inference reported failure")
  conclude (ran (some out) s) = complete (store_result s out)

  pub finish_audio : Stream p → Status × Stream p
  unfolding finish_empty fail conclude
  finish_audio s =
      if s.lifecycle.total_samples_received == 0
      then finish_empty s
      else if not s.has_ctx || not s.frontend.has_mel_fe
      then fail s (Message.text "no execution context / Mel frontend: cannot transcribe audio")
      else conclude (infer s)

  unfoldable pub finish_checked : Flow (Stream p) → Status × Stream p
  finish_checked (ret st s) = (st, s)
  finish_checked (go s) = finish_audio (begin_finishing s)

  unfoldable pub finish_body : Stream p → Status × Stream p
  finish_body s = finish_checked (check_finish s.lifecycle.state s >>= drain_backlog)

  -- `voxtral_stream_finish_internal`
  unfoldable pub finish : Stream p → Status × Stream p
  finish s = guarded s finish_body
