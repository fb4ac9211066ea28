-- ===== src/Stream/Lifecycle/Feed/Refusal.antt =====
-- Feeding never refuses with the status `ok`.
use voxtral_cpp.Prelude.{
  ℕ, zero, suc, ◌≡◌, ap, refl, Bool, false, not, ◌&&◌, List, [], ◌∷◌, if-cases, take, drop, length,
}
use voxtral_cpp.Stream.State.{Status, Pipeline, Stream, Flow, go, ret, ◌>>=◌}
use voxtral_cpp.Stream.Decoder.{pump_incremental}
use voxtral_cpp.Stream.Frontend.{ensure_left_pad, ensure_encoder, drain_mel_to_encoder}
use voxtral_cpp.Stream.Frontend.Frame.{ensure_encoder-failed}
use voxtral_cpp.Stream.Lifecycle.Create.{is_ok}
use voxtral_cpp.Stream.Lifecycle.Feed.{
  after_pump, pump_slice, after_drain, feed_slice, feed_slices, consume, audio_drain_slice,
}

-- A block that returns early does so with another status than `ok`.
abbrev pub Refuses : {A : Type 0} → Flow A → Type 0
Refuses (go x) = Unit {0}
Refuses (ret st x) = is_ok st ≡ false

module _ {p : Pipeline} where
  after_pump-Refuses : (r : Status × Stream p) → Refuses (after_pump r)
  unfolding after_pump
  after_pump-Refuses (st, s) = elim st as (λ k. Refuses (after_pump (k, s))) [
    | Status.ok ↦ tt
    | Status.limit_exceeded ↦ tt
    | _ ↦ refl
  ]

  pump_slice-Refuses : (b : Bool) (s : Stream p) → Refuses (pump_slice b s)
  unfolding pump_slice
  pump_slice-Refuses b s =
      if-cases (λ (m : Flow (Bool × Stream p)). Refuses m) (s.decoder.incremental && not b)
        (λ _. after_pump-Refuses (pump_incremental s)) (λ _. tt)

  feed_slice-Refuses : (slice : List p.Sample) (r : Bool × Stream p) → Refuses (feed_slice slice r)
  unfolding feed_slice after_drain
  feed_slice-Refuses slice (b, s) =
      let f = p.mel_feed s.device slice in
      if-cases (λ (m : Flow (Bool × Stream p)). Refuses m) (not f.0) (λ _. refl)
        (λ _. drained (drain_mel_to_encoder (record s { device = f.1 }) false))
    where
      drained : (m : Flow (Stream p)) → Refuses (after_drain b m)
      drained (go t) = pump_slice-Refuses b t
      drained (ret st t) = refl

  bind-Refuses :
      (m : Flow (Bool × Stream p)) (f : Bool × Stream p → Flow (Bool × Stream p))
      → Refuses m
      → ((r : Bool × Stream p) → Refuses (f r))
      → Refuses (m >>= f)
  bind-Refuses (go r) f h k = k r
  bind-Refuses (ret st r) f h k = h

  feed_slices-Refuses :
      (f : ℕ) (samples : List p.Sample) (r : Bool × Stream p) → Refuses (feed_slices f samples r)
  unfolding feed_slices
  feed_slices-Refuses zero samples r = tt
  feed_slices-Refuses (suc f) [] r = tt
  feed_slices-Refuses (suc f) (x ∷ xs) r =
      bind-Refuses (feed_slice (take audio_drain_slice (x ∷ xs)) r)
        (feed_slices f (drop audio_drain_slice (x ∷ xs)))
        (feed_slice-Refuses (take audio_drain_slice (x ∷ xs)) r)
        (feed_slices-Refuses f (drop audio_drain_slice (x ∷ xs)))

  pub consume-Refuses : (samples : List p.Sample) (s : Stream p) → Refuses (consume samples s)
  unfolding consume
  consume-Refuses samples s =
      let t = ensure_left_pad s in
      let e = ensure_encoder t in
      if-cases (λ (m : Flow (Bool × Stream p)). Refuses m) s.frontend.has_mel_fe
        (λ _.
          if-cases (λ (m : Flow (Bool × Stream p)). Refuses m) e.0
            (λ _. feed_slices-Refuses (length samples) samples (false, e.1))
            (λ n. ap is_ok (ensure_encoder-failed t n)))
        (λ _. tt)
