-- ===== src/Stream/Lifecycle/Feed/Place.antt =====
-- Feeding leaves the place of a stream in its life cycle alone until it accounts for the samples.
use voxtral_cpp.Prelude.{
  ℕ, zero, suc, ◌≡◌, ◌∙◌, ap, refl, Bool, false, not, ◌&&◌, List, [], ◌∷◌, if-cases, take, drop,
  length,
}
use voxtral_cpp.Stream.State.{
  Status, Message, Lifecycle, Pipeline, Stream, Flow, go, ret, ◌>>=◌, set_error,
}
use voxtral_cpp.Stream.Events.Frame.{core}
use voxtral_cpp.Stream.Decoder.{pump_incremental}
use voxtral_cpp.Stream.Decoder.Frame.{result, pump_incremental-Kept}
use voxtral_cpp.Stream.Frontend.{ensure_left_pad, ensure_encoder, drain_mel_to_encoder}
use voxtral_cpp.Stream.Frontend.Frame.{
  Untouched, ensure_left_pad-Untouched, ensure_encoder-Untouched, drain_mel_to_encoder-Untouched,
}
use voxtral_cpp.Stream.Lifecycle.Feed.{
  after_pump, pump_slice, after_drain, feed_slice, feed_slices, consume, audio_drain_slice,
}
use voxtral_cpp.Stream.Lifecycle.Feed.Slices.{left}

-- The life cycle without the last error and the number of feeds.
abbrev pub place : Lifecycle → Lifecycle
place l = record l { last_status = Status.ok; last_error = Message.empty; feed_calls = 0 }

core-place : (k l : Lifecycle) → core k ≡ core l → place k ≡ place l
core-place k l e = ap (λ (x : Lifecycle). record x { feed_calls = 0 }) e

module _ {p : Pipeline} where
  abbrev pub place_of : Stream p → Lifecycle
  place_of s = place s.lifecycle

  pub pump-place : (s : Stream p) → place_of (pump_incremental s).1 ≡ place_of s
  pump-place s =
      core-place (pump_incremental s).1.lifecycle s.lifecycle (pump_incremental-Kept s).lifecycle

  pub Untouched-place : (s t : Stream p) → Untouched s t → place_of t ≡ place_of s
  Untouched-place s t u = core-place t.lifecycle s.lifecycle u.lifecycle

  after_pump-place : (r : Status × Stream p) → place_of (left (after_pump r)) ≡ place_of r.1
  unfolding after_pump
  after_pump-place (st, s) = elim st as (λ k. place_of (left (after_pump (k, s))) ≡ place_of s) [
    | Status.ok ↦ refl
    | Status.limit_exceeded ↦ refl
    | _ ↦ refl
  ]

  pump_slice-place : (b : Bool) (s : Stream p) → place_of (left (pump_slice b s)) ≡ place_of s
  unfolding pump_slice
  pump_slice-place b s =
      if-cases (λ m. place_of (left m) ≡ place_of s) (s.decoder.incremental && not b)
        (λ _. after_pump-place (pump_incremental s) ∙ pump-place s) (λ _. refl)

  after_drain-place :
      (b : Bool) (m : Flow (Stream p)) → place_of (left (after_drain b m)) ≡ place_of (result m)
  unfolding after_drain
  after_drain-place b (go s) = pump_slice-place b s
  after_drain-place b (ret st s) = refl

  feed_slice-place :
      (slice : List p.Sample) (r : Bool × Stream p)
      → place_of (left (feed_slice slice r)) ≡ place_of r.1
  unfolding feed_slice set_error
  feed_slice-place slice (b, s) =
      let f = p.mel_feed s.device slice in
      let s1 = record s { device = f.1 } in
      if-cases (λ m. place_of (left m) ≡ place_of s) (not f.0) (λ _. refl)
        (λ _.
          after_drain-place b (drain_mel_to_encoder s1 false)
          ∙ Untouched-place s1 _ (drain_mel_to_encoder-Untouched s1 false))

  bind-place :
      (x : Lifecycle) (m : Flow (Bool × Stream p)) (f : Bool × Stream p → Flow (Bool × Stream p))
      → place_of (left m) ≡ x
      → ((r : Bool × Stream p) → place_of (left (f r)) ≡ place_of r.1)
      → place_of (left (m >>= f)) ≡ x
  bind-place x (go r) f h k = k r ∙ h
  bind-place x (ret st r) f h k = h

  feed_slices-place :
      (f : ℕ) (samples : List p.Sample) (r : Bool × Stream p)
      → place_of (left (feed_slices f samples r)) ≡ place_of r.1
  unfolding feed_slices
  feed_slices-place zero samples r = refl
  feed_slices-place (suc f) [] r = refl
  feed_slices-place (suc f) (x ∷ xs) r =
      bind-place (place_of r.1) (feed_slice (take audio_drain_slice (x ∷ xs)) r)
        (feed_slices f (drop audio_drain_slice (x ∷ xs)))
        (feed_slice-place (take audio_drain_slice (x ∷ xs)) r)
        (feed_slices-place f (drop audio_drain_slice (x ∷ xs)))

  pub consume-place :
      (samples : List p.Sample) (s : Stream p) → place_of (left (consume samples s)) ≡ place_of s
  unfolding consume
  consume-place samples s =
      let t = ensure_left_pad s in
      let e = ensure_encoder t in
      let h =
        Untouched-place t e.1 (ensure_encoder-Untouched t)
        ∙ Untouched-place s t (ensure_left_pad-Untouched s) in
      if-cases (λ m. place_of (left m) ≡ place_of s) s.frontend.has_mel_fe
        (λ _.
          if-cases (λ m. place_of (left m) ≡ place_of s) e.0
            (λ _. feed_slices-place (length samples) samples (false, e.1) ∙ h) (λ _. h))
        (λ _. refl)
