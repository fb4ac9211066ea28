-- ===== src/Stream/Lifecycle/Feed.antt =====
-- src/voxtral-stream.cpp: feeding audio. A call's samples are given as a list, `none` for a null
-- pointer, beside their count. Allocations succeed, but for the frontend and the encoder.
pub mod Slices
pub mod Sound
pub mod Place
pub mod Refusal
pub mod Admission
use voxtral_cpp.Prelude.{
  ℕ, zero, suc, ◌+◌, ◌-◌, ◌*◌, ◌/◌, Bool, true, false, not, ◌&&◌, ◌||◌, Option, none, some, List,
  [], ◌∷◌, ◌++◌, map, if◌then◌else◌, ltb, leb, ◌==◌, length, take, drop,
}
use voxtral_cpp.Stream.State.{
  Status, State, Message, Pipeline, Stream, Flow, go, ret, ◌>>=◌, returned, set_error, clear_error,
  raw_audio_length_per_tok, n_right_pad_tokens, max_feed_samples, uint64_max, int64_max,
}
use voxtral_cpp.Stream.Decoder.{pump_incremental}
use voxtral_cpp.Stream.Frontend.{
  ensure_frontend, ensure_left_pad, ensure_encoder, drain_mel_to_encoder,
}
use voxtral_cpp.Stream.Lifecycle.Create.{guarded}

abbrev pub audio_drain_slice : ℕ
audio_drain_slice = 16000

abbrev pub feed_allowed : State → Bool
feed_allowed State.created = true
feed_allowed State.running = true
feed_allowed _ = false

-- The first audio makes a stream run.
abbrev pub fed_state : State → State
fed_state State.created = State.running
fed_state st = st

-- The number of token events that a feed of so many samples may bring.
abbrev pub estimated_token_events : ℕ → ℕ
estimated_token_events count =
    (count + raw_audio_length_per_tok - 1) / raw_audio_length_per_tok + n_right_pad_tokens + 2

abbrev pub every : {A : Type 0} → (A → Bool) → List A → Bool
every f [] = true
every f (x ∷ xs) = f x && every f xs

module _ {p : Pipeline} where
  abbrev refuse : Stream p → Status → Message → Flow (Stream p)
  refuse s st msg = ret st (set_error s st msg)

  abbrev pub count_feed : Stream p → Stream p
  count_feed s = record s {
    lifecycle = record (s.lifecycle) { feed_calls = s.lifecycle.feed_calls + 1 };
  }

  pub check_state : Stream p → Flow (Stream p)
  check_state s =
      if feed_allowed s.lifecycle.state
      then go s
      else refuse s Status.invalid_state (Message.feed_not_allowed s.lifecycle.state)

  pub after_resume : Status × Stream p → Flow (Stream p)
  after_resume (Status.ok, s) = go s
  after_resume (Status.limit_exceeded, s) = ret Status.limit_exceeded (count_feed s)
  after_resume (st, s) = ret st s

  -- A decoder stalled by an earlier feed goes on first.
  pub resume_feed : Stream p → Flow (Stream p)
  resume_feed s =
      if s.decoder.incremental && s.events.decoder_backpressured
      then after_resume (pump_incremental s)
      else go s

  pub check_arguments : Bool → ℕ → Stream p → Flow (Stream p)
  check_arguments null count s =
      let received = s.lifecycle.total_samples_received in
      if null && not (count == 0)
      then refuse s Status.invalid_argument (Message.text "null samples with non-zero count")
      else if count == 0
      then ret Status.ok (count_feed (clear_error s))
      else if ltb max_feed_samples count
      then refuse s Status.invalid_argument (Message.text "feed exceeds per-call sample limit")
      else if ltb (uint64_max - received) count
      then refuse s Status.invalid_argument
          (Message.text "feed would overflow cumulative sample counter")
      else if ltb int64_max (received + count)
      then refuse s Status.invalid_argument
          (Message.text "stream sample position exceeds internal counter range")
      else if ltb s.params.max_total_samples (received + count)
      then refuse s Status.limit_exceeded
          (Message.text "stream duration exceeds max_total_samples admission limit")
      else go s

  abbrev pub with_partial_mode : Stream p → Bool → Stream p
  with_partial_mode s mode = record s {
    events = record (s.events) { aggressive_partial_coalescing = mode };
  }

  -- Whether partial texts have to make room for the tokens of this feed.
  pub partial_mode : Stream p → ℕ → Bool
  partial_mode s count =
      let queued = length s.events.queue in
      let tokens = estimated_token_events count in
      ltb s.events.max_events (queued + 2 * tokens) && leb (queued + tokens + 1) s.events.max_events

  -- The decoder's turn behind a slice; the flag says that the event queue filled up.
  pub after_pump : Status × Stream p → Flow (Bool × Stream p)
  after_pump (Status.ok, s) = go (false, s)
  after_pump (Status.limit_exceeded, s) = go (true, s)
  after_pump (st, s) = ret st (false, s)

  pub pump_slice : Bool → Stream p → Flow (Bool × Stream p)
  pump_slice backpressured s =
      if s.decoder.incremental && not backpressured
      then after_pump (pump_incremental s)
      else go (backpressured, s)

  pub after_drain : Bool → Flow (Stream p) → Flow (Bool × Stream p)
  after_drain backpressured (go s) = pump_slice backpressured s
  after_drain backpressured (ret st s) = ret Status.backend_error (backpressured, s)

  pub feed_slice : List p.Sample → Bool × Stream p → Flow (Bool × Stream p)
  feed_slice slice (backpressured, s) =
      let (fed, device) = p.mel_feed s.device slice in
      let s1 = record s { device = device } in
      if not fed
      then ret Status.backend_error (
        backpressured,
        set_error s1 Status.backend_error (Message.text "incremental Mel frontend rejected feed"),
      )
      else after_drain backpressured (drain_mel_to_encoder s1 false)

  -- The `for` loop, on as many rounds as there are samples.
  pub feed_slices : ℕ → List p.Sample → Bool × Stream p → Flow (Bool × Stream p)
  feed_slices zero samples r = go r
  feed_slices (suc f) [] r = go r
  feed_slices (suc f) (x ∷ xs) r = feed_slice (take audio_drain_slice (x ∷ xs)) r >>= λ r1.
      feed_slices f (drop audio_drain_slice (x ∷ xs)) r1

  -- The samples go to the Mel frontend, or, without a context, to the full buffer.
  pub consume : List p.Sample → Stream p → Flow (Bool × Stream p)
  consume samples s =
      if s.frontend.has_mel_fe
      then (let (there, s1) = ensure_encoder (ensure_left_pad s) in
          if there
          then feed_slices (length samples) samples (false, s1)
          else ret s1.lifecycle.last_status (false, s1))
      else go
          (false, record s { frontend = record (s.frontend) { pcm = s.frontend.pcm ++ samples } })

  -- What the audio leaves behind: the counters, the state, and the status.
  pub account : ℕ → Flow (Bool × Stream p) → Status × Stream p
  account admitted (ret st (_, s)) = (st, s)
  account admitted (go (backpressured, s)) =
      let s1 = record s {
        lifecycle = record (s.lifecycle) {
          total_samples_received = admitted;
          feed_calls = s.lifecycle.feed_calls + 1;
          state = fed_state s.lifecycle.state;
        };
      } in
      if backpressured then (Status.limit_exceeded, s1) else (Status.ok, clear_error s1)

  pub hash_pcm : Stream p → List p.Sample → Stream p
  hash_pcm s samples = record s {
    diagnostics = record (s.diagnostics) { pcm_sha = p.sha_update s.diagnostics.pcm_sha samples };
  }

  -- The samples once they are converted; `none` stands for a sample that is not finite.
  pub accept_converted : ℕ → Option (List p.Sample) → Stream p → Status × Stream p
  unfolding account consume hash_pcm
  accept_converted admitted none s = (
    Status.invalid_argument,
    set_error s Status.invalid_argument (Message.text "float32 feed contains a non-finite sample"),
  )
  accept_converted admitted (some samples) s =
      account admitted (consume samples (hash_pcm s samples))

  -- The rest once the arguments passed.
  pub accept : Option (List p.Sample) → ℕ → Stream p → Status × Stream p
  accept converted count s =
      let (there, s1) = ensure_frontend s in
      if not there
      then (Status.out_of_memory, s1)
      else accept_converted (s.lifecycle.total_samples_received + count) converted s1

  -- The partial mode holds for this feed only.
  pub accept_in_mode : Option (List p.Sample) → ℕ → Stream p → Status × Stream p
  accept_in_mode converted count s =
      let (st, s1) = accept converted count (with_partial_mode s (partial_mode s count)) in
      (st, with_partial_mode s1 s.events.aggressive_partial_coalescing)

  pub feed_checked : Option (List p.Sample) → ℕ → Flow (Stream p) → Status × Stream p
  unfolding accept_in_mode
  feed_checked converted count (ret st s) = (st, s)
  feed_checked converted count (go s) = accept_in_mode converted count s

  pub feed_body : Bool → ℕ → Option (List p.Sample) → Stream p → Status × Stream p
  feed_body null count converted s =
      feed_checked converted count (check_state s >>= resume_feed >>= check_arguments null count)

  pub feed_common :
      {A : Type 0}
      → Stream p
      → Option (List A)
      → ℕ
      → (List A → Option (List p.Sample))
      → Status × Stream p
  feed_common s none count convert = guarded s (feed_body true count (some []))
  feed_common s (some xs) count convert = guarded s (feed_body false count (convert xs))

  -- `voxtral_stream_feed_pcm16_internal`
  abbrev pub feed_pcm16 : Stream p → Option (List ℕ) → ℕ → Status × Stream p
  feed_pcm16 s samples count = feed_common s samples count (λ xs. some (map p.sample_of_s16 xs))

  -- `voxtral_stream_feed_f32_internal`
  abbrev pub feed_f32 : Stream p → Option (List p.Sample) → ℕ → Status × Stream p
  feed_f32 s samples count =
      feed_common s samples count (λ xs. if every p.is_finite xs then some xs else none)
