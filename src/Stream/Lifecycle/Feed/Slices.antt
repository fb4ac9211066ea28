-- ===== src/Stream/Lifecycle/Feed/Slices.antt =====
-- Feeding slices of audio keeps the decoder's books and the order of the queue.
use voxtral_cpp.Prelude.{
  ℕ, zero, suc, ◌≡◌, refl, Bool, false, not, ◌&&◌, List, [], ◌∷◌, if-cases, take, drop, length,
}
use voxtral_cpp.Stream.State.{Status, Pipeline, Stream, Flow, go, ret, ◌>>=◌, set_error}
use voxtral_cpp.Stream.Decoder.{pump_incremental}
use voxtral_cpp.Stream.Decoder.Sound.{IsSound}
use voxtral_cpp.Stream.Decoder.Frame.{result}
use voxtral_cpp.Stream.Decoder.Pump.{pump_incremental-IsSound}
use voxtral_cpp.Stream.Frontend.{ensure_left_pad, ensure_encoder, drain_mel_to_encoder}
use voxtral_cpp.Stream.Frontend.Frame.{
  ensure_left_pad-Untouched, ensure_encoder-Untouched, drain_mel_to_encoder-Untouched,
}
use voxtral_cpp.Stream.Lifecycle.Feed.{
  after_pump, pump_slice, after_drain, feed_slice, feed_slices, consume, audio_drain_slice,
}
use voxtral_cpp.Stream.Lifecycle.Transfer.{IsSound-same, IsSound-Untouched}

module _ {p : Pipeline} where
  -- The stream that a block with a flag leaves.
  abbrev pub left : Flow (Bool × Stream p) → Stream p
  left (go (_, s)) = s
  left (ret _ (_, s)) = s

  -- Only the life cycle, the device, the frontend or the diagnostics changed.
  abbrev pub SameBooks : (s s' : Stream p) → Type 0
  SameBooks s s' = (s'.params ≡ s.params) × (s'.decoder ≡ s.decoder) × (s'.events ≡ s.events)

  pub IsSound-SameBooks : (s s' : Stream p) → SameBooks s s' → IsSound s → IsSound s'
  IsSound-SameBooks s s' e h = IsSound-same s s' e.0 (rw e.1) (rw e.2) (rw e.2 h.ordered.fits) h

  pub after_pump-IsSound : (r : Status × Stream p) → IsSound r.1 → IsSound (left (after_pump r))
  unfolding after_pump
  after_pump-IsSound (st, s) h = elim st as (λ k. IsSound (left (after_pump (k, s)))) [
    | Status.ok ↦ h
    | Status.limit_exceeded ↦ h
    | _ ↦ h
  ]

  pub pump_slice-IsSound :
      (backpressured : Bool) (s : Stream p)
      → IsSound s
      → IsSound (left (pump_slice backpressured s))
  unfolding pump_slice
  pump_slice-IsSound b s h =
      if-cases (λ m. IsSound (left m)) (s.decoder.incremental && not b)
        (λ _. after_pump-IsSound (pump_incremental s) (pump_incremental-IsSound s h)) (λ _. h)

  pub after_drain-IsSound :
      (backpressured : Bool) (m : Flow (Stream p))
      → IsSound (result m)
      → IsSound (left (after_drain backpressured m))
  unfolding after_drain
  after_drain-IsSound b (go s) h = pump_slice-IsSound b s h
  after_drain-IsSound b (ret st s) h = h

  pub feed_slice-IsSound :
      (slice : List p.Sample) (r : Bool × Stream p)
      → IsSound r.1
      → IsSound (left (feed_slice slice r))
  unfolding feed_slice set_error
  feed_slice-IsSound slice (b, s) h =
      let f = p.mel_feed s.device slice in
      let s1 = record s { device = f.1 } in
      let h1 = IsSound-SameBooks s s1 (refl, refl, refl) h in
      if-cases (λ m. IsSound (left m)) (not f.0) (λ _. IsSound-SameBooks s1 _ (refl, refl, refl) h1)
        (λ _.
          after_drain-IsSound b (drain_mel_to_encoder s1 false)
            (IsSound-Untouched s1 _ (drain_mel_to_encoder-Untouched s1 false) h1))

  pub bind-IsSound :
      (m : Flow (Bool × Stream p)) (f : Bool × Stream p → Flow (Bool × Stream p))
      → IsSound (left m)
      → ((r : Bool × Stream p) → IsSound r.1 → IsSound (left (f r)))
      → IsSound (left (m >>= f))
  bind-IsSound (go r) f h k = k r h
  bind-IsSound (ret st r) f h k = h

  pub feed_slices-IsSound :
      (f : ℕ) (samples : List p.Sample) (r : Bool × Stream p)
      → IsSound r.1
      → IsSound (left (feed_slices f samples r))
  unfolding feed_slices
  feed_slices-IsSound zero samples r h = h
  feed_slices-IsSound (suc f) [] r h = h
  feed_slices-IsSound (suc f) (x ∷ xs) r h =
      bind-IsSound (feed_slice (take audio_drain_slice (x ∷ xs)) r)
        (feed_slices f (drop audio_drain_slice (x ∷ xs)))
        (feed_slice-IsSound (take audio_drain_slice (x ∷ xs)) r h)
        (feed_slices-IsSound f (drop audio_drain_slice (x ∷ xs)))

  pub consume-IsSound :
      (samples : List p.Sample) (s : Stream p) → IsSound s → IsSound (left (consume samples s))
  unfolding consume
  consume-IsSound samples s h =
      let t = ensure_left_pad s in
      let e = ensure_encoder t in
      let h1 = IsSound-Untouched s t (ensure_left_pad-Untouched s) h in
      let h2 = IsSound-Untouched t e.1 (ensure_encoder-Untouched t) h1 in
      if-cases (λ m. IsSound (left m)) s.frontend.has_mel_fe
        (λ _.
          if-cases (λ m. IsSound (left m)) e.0
            (λ _. feed_slices-IsSound (length samples) samples (false, e.1) h2) (λ _. h2))
        (λ _. IsSound-SameBooks s _ (refl, refl, refl) h)
