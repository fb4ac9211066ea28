-- ===== src/Stream/Frontend.antt =====
-- src/voxtral-stream-frontend.cpp: bringing up the Mel frontend and the encoder, the left pad, and
-- the drain of stable Mel frames into the encoder; and from src/voxtral-stream-diagnostics.cpp the
-- hashing of new encoder rows.
pub mod Frame
use voxtral_cpp.Prelude.{
  ℕ, zero, suc, ◌+◌, ◌-◌, ◌*◌, ◌^◌, min, Bool, true, false, not, ◌&&◌, ◌||◌, none, some,
  if◌then◌else◌, ltb, leb, ◌==◌,
}
use voxtral_cpp.Stream.State.{
  Status, Message, Pipeline, Stream, Flow, go, ret, ◌>>=◌, set_error, stream_left_pad,
}

-- VOXTRAL_ENC_DIM
abbrev pub enc_dim : ℕ
enc_dim = 1280

abbrev pub mel_drain_slice : ℕ
mel_drain_slice = 8

abbrev pub int32_max : ℕ
int32_max = 2 ^ 31 - 1

module _ {p : Pipeline} where
  -- False on a failed allocation only.
  pub ensure_frontend : Stream p → Bool × Stream p
  ensure_frontend s =
      if s.frontend.has_mel_fe || not s.has_ctx || not (p.has_mel_tables s.device)
      then (true, s)
      else let (created, device) = p.mel_create s.device s.params.retain_mel_history in
        if created
        then (
          true,
          record s { device = device; frontend = record (s.frontend) { has_mel_fe = true } },
        )
        else (
          false,
          set_error (record s { device = device }) Status.out_of_memory
              (Message.text "failed to create incremental Mel frontend"),
        )

  pub ensure_left_pad : Stream p → Stream p
  ensure_left_pad s =
      if s.frontend.has_mel_fe && not s.frontend.left_pad_injected
      then record s {
        device = p.mel_feed_silence s.device stream_left_pad;
        frontend = record (s.frontend) { left_pad_injected = true };
      }
      else s

  -- The encoder is there: the reference encoder turns the incremental decoder off.
  pub couple_decoder : Stream p → Stream p
  couple_decoder s =
      let incremental = s.decoder.incremental && p.enc_uses_kv s.device in
      record s {
        frontend = record (s.frontend) { has_enc = true };
        decoder = record (s.decoder) { incremental = incremental };
        device = if incremental then p.set_enc_out_ring_active s.device else s.device;
      }

  pub ensure_encoder : Stream p → Bool × Stream p
  ensure_encoder s =
      if s.frontend.has_enc || not s.frontend.has_mel_fe || not s.has_ctx
      then (true, s)
      else let (created, device) = p.enc_create s.device in
        if created then (true, couple_decoder (record s { device = device })) else (
          false,
          set_error (record s { device = device }) Status.out_of_memory
              (Message.text "failed to create incremental encoder"),
        )

  pub capture_new_encoder_output_sha : Stream p → Bool × Stream p
  capture_new_encoder_output_sha s =
      let available = p.enc_output_frames s.device in
      let rows = s.diagnostics.encoder_sha_rows in
      let count = available - rows in
      if not (
          s.diagnostics.capture_output_sha && s.decoder.incremental && s.frontend.has_enc
          && s.has_ctx)
        || leb available rows
      then (true, s)
      else if ltb (p.enc_out_ring_frames s.device) count || ltb int32_max count
      then (
        false,
        set_error s Status.backend_error
            (Message.text "encoder SHA capture fell behind bounded output ring"),
      )
      else elim (p.read_enc_out_ring s.device rows count) [
        | none ↦ (
          false,
          set_error s Status.backend_error (Message.text "encoder SHA diagnostic readback failed"),
        )
        | some read ↦ (
          true,
          record s {
            diagnostics = record (s.diagnostics) {
              encoder_output_sha = p.sha_update s.diagnostics.encoder_output_sha read;
              output_sha_d2h_bytes = s.diagnostics.output_sha_d2h_bytes + count * enc_dim * 4;
              encoder_sha_rows = available;
            };
          },
        )
      ]

  abbrev encoder_failure : Stream p → Message → Flow (Stream p)
  encoder_failure s msg = ret Status.backend_error (set_error s Status.backend_error msg)

  -- The encoder took the frames up to `base`.
  abbrev pub pushed : Stream p → ℕ → Stream p
  pushed s base = record s { frontend = record (s.frontend) { enc_pushed_frames = base } }

  abbrev pub discarded : Stream p → ℕ → Stream p
  discarded s base = record s { device = p.mel_discard_before s.device base }

  -- The rest of the frames in one push, at the end of the stream.
  pub drain_final : Stream p → ℕ → ℕ → Flow (Stream p)
  drain_final s base total =
      if not (p.mel_has_frame s.device base) || ltb int32_max (total - base)
      then encoder_failure s (Message.text "incremental encoder rejected terminal Mel frames")
      else let (taken, device) = p.enc_push_mel_final s.device base (total - base) in
        let s1 = record s { device = device } in
        if not taken
        then encoder_failure s1 (Message.text "incremental encoder rejected terminal Mel frames")
        else let (captured, s2) =
            capture_new_encoder_output_sha (discarded (pushed s1 total) total) in
          if captured then go s2 else ret Status.backend_error s2

  -- One slice of at most eight frames.
  pub drain_slice : ℕ → Stream p → Flow (Stream p)
  drain_slice total s =
      let base = s.frontend.enc_pushed_frames in
      let n = min mel_drain_slice (total - base) in
      if not (p.mel_has_frame s.device base)
      then encoder_failure s (Message.text "incremental Mel frame is outside retained window")
      else let (taken, device) = p.enc_push_mel s.device base n in
        let s1 = record s { device = device } in
        if not taken
        then encoder_failure s1 (Message.text "incremental encoder rejected Mel frames")
        else let (captured, s2) = capture_new_encoder_output_sha s1 in
          if captured
          then go (discarded (pushed s2 (base + n)) (base + n))
          else ret Status.backend_error s2

  -- The `while` loop with the given number of rounds; `internal_error` says that they did not
  -- suffice.
  pub drain_loop : ℕ → ℕ → Stream p → Flow (Stream p)
  drain_loop zero total s = elim (ltb s.frontend.enc_pushed_frames total) [
    | true ↦ ret Status.internal_error s
    | false ↦ go s
  ]
  drain_loop (suc f) total s = elim (ltb s.frontend.enc_pushed_frames total) [
    | true ↦ drain_slice total s >>= λ s1. drain_loop f total s1
    | false ↦ go s
  ]

  -- `go` stands for true and `ret backend_error` for false. Each slice takes a frame, so the rounds
  -- up to the frame count suffice.
  pub drain_mel_to_encoder : Stream p → Bool → Flow (Stream p)
  unfolding drain_final
  drain_mel_to_encoder s final =
      let total = p.mel_frame_count s.device in
      let base = s.frontend.enc_pushed_frames in
      if not (s.frontend.has_enc && s.frontend.has_mel_fe) || leb total base
      then go s
      else if ltb base (p.mel_frames_base s.device)
      then encoder_failure s
          (Message.text "incremental Mel history base advanced past encoder cursor")
      else if final
      then drain_final s base total
      else drain_loop (total - base) total s
