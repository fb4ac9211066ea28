-- ===== src/Stream/Frontend/Frame.antt =====
-- The frontend changes the device, its own state, the diagnostics, the last error, and whether the
-- decoder is incremental.
use voxtral_cpp.Prelude.{
  ℕ, zero, suc, ◌≡◌, refl, ◌∙◌, inl, inr, Bool, false, arith, Bool-cases, ltb, ◌-◌, min,
}
use voxtral_cpp.Stream.State.{
  Status, Pipeline, Stream, DecoderState, Flow, go, ret, ◌>>=◌, set_error,
}
use voxtral_cpp.Stream.Events.Frame.{core}
use voxtral_cpp.Stream.Decoder.Frame.{result}
use voxtral_cpp.Stream.Frontend.{
  ensure_frontend, ensure_left_pad, couple_decoder, ensure_encoder, capture_new_encoder_output_sha,
  drain_final, drain_slice, drain_loop, drain_mel_to_encoder, pushed, discarded, mel_drain_slice,
}

-- The decoder without the flag.
abbrev pub books_of : DecoderState → DecoderState
books_of d = record d { incremental = false }

pub record Untouched {p : Pipeline} (s s' : Stream p) : Type 0 where
  pub has_ctx : s'.has_ctx ≡ s.has_ctx
  pub params : s'.params ≡ s.params
  pub lifecycle : core s'.lifecycle ≡ core s.lifecycle
  pub decoder : books_of s'.decoder ≡ books_of s.decoder
  pub events : s'.events ≡ s.events

module _ {p : Pipeline} where
  pub Untouched-refl : (s : Stream p) → Untouched s s
  Untouched-refl s = record {
    has_ctx = refl;
    params = refl;
    lifecycle = refl;
    decoder = refl;
    events = refl;
  }

  pub Untouched-trans : {s t u : Stream p} → Untouched s t → Untouched t u → Untouched s u
  Untouched-trans a b = record {
    has_ctx = b.has_ctx ∙ a.has_ctx;
    params = b.params ∙ a.params;
    lifecycle = b.lifecycle ∙ a.lifecycle;
    decoder = b.decoder ∙ a.decoder;
    events = b.events ∙ a.events;
  }

  pub ensure_frontend-Untouched : (s : Stream p) → Untouched s (ensure_frontend s).1
  unfolding ensure_frontend set_error
  ensure_frontend-Untouched s = ground arith

  pub ensure_left_pad-Untouched : (s : Stream p) → Untouched s (ensure_left_pad s)
  unfolding ensure_left_pad
  ensure_left_pad-Untouched s = ground arith

  pub ensure_encoder-Untouched : (s : Stream p) → Untouched s (ensure_encoder s).1
  unfolding ensure_encoder couple_decoder set_error
  ensure_encoder-Untouched s = ground arith

  -- A failed creation leaves its status.
  pub ensure_encoder-failed :
      (s : Stream p)
      → (ensure_encoder s).0 ≡ false
      → (ensure_encoder s).1.lifecycle.last_status ≡ Status.out_of_memory
  unfolding ensure_encoder set_error
  ensure_encoder-failed s n = ground (arith, n)

  capture-Untouched : (s : Stream p) → Untouched s (capture_new_encoder_output_sha s).1
  unfolding capture_new_encoder_output_sha set_error
  capture-Untouched s = ground arith

  drain_final-Untouched :
      (s : Stream p) (base total : ℕ) → Untouched s (result (drain_final s base total))
  unfolding drain_final set_error
  drain_final-Untouched s base total =
      let r = p.enc_push_mel_final s.device base (total - base) in
      ground (arith, capture-Untouched (discarded (pushed (record s { device = r.1 }) total) total))

  drain_slice-Untouched : (total : ℕ) (s : Stream p) → Untouched s (result (drain_slice total s))
  unfolding drain_slice set_error
  drain_slice-Untouched total s =
      let base = s.frontend.enc_pushed_frames in
      let r = p.enc_push_mel s.device base (min mel_drain_slice (total - base)) in
      ground (arith, capture-Untouched (record s { device = r.1 }))

  pub bind-Untouched :
      (s : Stream p) (m : Flow (Stream p)) (f : Stream p → Flow (Stream p))
      → Untouched s (result m)
      → ((t : Stream p) → Untouched t (result (f t)))
      → Untouched s (result (m >>= f))
  bind-Untouched s (go t) f h k = Untouched-trans h (k t)
  bind-Untouched s (ret st t) f h k = h

  drain_loop-Untouched : (f total : ℕ) (s : Stream p) → Untouched s (result (drain_loop f total s))
  unfolding drain_loop
  drain_loop-Untouched zero total s = elim (Bool-cases (ltb s.frontend.enc_pushed_frames total)) [
    | inl e ↦ rw (e, drain_loop) (Untouched-refl s)
    | inr e ↦ rw (e, drain_loop) (Untouched-refl s)
  ]
  drain_loop-Untouched (suc f) total s =
      elim (Bool-cases (ltb s.frontend.enc_pushed_frames total)) [
        | inl e ↦
            rw (e, drain_loop)
              (bind-Untouched s (drain_slice total s) (drain_loop f total)
                (drain_slice-Untouched total s) (drain_loop-Untouched f total))
        | inr e ↦ rw (e, drain_loop) (Untouched-refl s)
      ]

  pub drain_mel_to_encoder-Untouched :
      (s : Stream p) (final : Bool) → Untouched s (result (drain_mel_to_encoder s final))
  unfolding drain_mel_to_encoder set_error
  drain_mel_to_encoder-Untouched s final =
      let total = p.mel_frame_count s.device in
      let base = s.frontend.enc_pushed_frames in
      ground
        (arith, drain_final-Untouched s base total, drain_loop-Untouched (total - base) total s)
