-- ===== src/Stream/Lifecycle/Feed/Sound.antt =====
-- Feeding audio keeps the decoder's books and the order of the queue.
use voxtral_cpp.Prelude.{
  ℕ, ◌≡◌, refl, Bool, true, false, not, ◌&&◌, Option, none, some, List, [], arith, if-cases,
  if◌then◌else◌, ◌+◌,
}
use voxtral_cpp.Stream.State.{
  Status, Message, Pipeline, Stream, Flow, go, ret, ◌>>=◌, set_error, clear_error,
}
use voxtral_cpp.Stream.Decoder.{pump_incremental}
use voxtral_cpp.Stream.Decoder.Sound.{IsSound}
use voxtral_cpp.Stream.Decoder.Frame.{result}
use voxtral_cpp.Stream.Decoder.Pump.{pump_incremental-IsSound}
use voxtral_cpp.Stream.Frontend.{ensure_frontend}
use voxtral_cpp.Stream.Frontend.Frame.{ensure_frontend-Untouched}
use voxtral_cpp.Stream.Lifecycle.Create.{with_guard}
use voxtral_cpp.Stream.Lifecycle.Feed.{
  check_state, after_resume, resume_feed, check_arguments, consume, account, hash_pcm, accept,
  accept_in_mode, with_partial_mode, partial_mode, feed_body, feed_checked, feed_allowed,
  accept_converted, feed_common,
}
use voxtral_cpp.Stream.Lifecycle.Transfer.{IsSound-same, IsSound-Untouched}
use voxtral_cpp.Stream.Lifecycle.Feed.Slices.{left, IsSound-SameBooks, consume-IsSound}

module _ {p : Pipeline} where
  account-IsSound :
      (admitted : ℕ) (m : Flow (Bool × Stream p))
      → IsSound (left m)
      → IsSound (account admitted m).1
  unfolding account clear_error
  account-IsSound admitted (ret st (b, s)) h = h
  account-IsSound admitted (go (true, s)) h = IsSound-SameBooks s _ (refl, refl, refl) h
  account-IsSound admitted (go (false, s)) h = IsSound-SameBooks s _ (refl, refl, refl) h

  accept_converted-IsSound :
      (admitted : ℕ) (converted : Option (List p.Sample)) (s : Stream p)
      → IsSound s
      → IsSound (accept_converted admitted converted s).1
  unfolding accept_converted hash_pcm set_error
  accept_converted-IsSound admitted none s h = IsSound-SameBooks s _ (refl, refl, refl) h
  accept_converted-IsSound admitted (some samples) s h =
      let t = hash_pcm s samples in
      account-IsSound admitted (consume samples t)
        (consume-IsSound samples t (IsSound-SameBooks s t (refl, refl, refl) h))

  accept-IsSound :
      (converted : Option (List p.Sample)) (count : ℕ) (s : Stream p)
      → IsSound s
      → IsSound (accept converted count s).1
  unfolding accept
  accept-IsSound converted count s h =
      let e = ensure_frontend s in
      let h1 = IsSound-Untouched s e.1 (ensure_frontend-Untouched s) h in
      if-cases (λ (r : Status × Stream p). IsSound r.1) (not e.0) (λ _. h1)
        (λ _.
          accept_converted-IsSound (s.lifecycle.total_samples_received + count) converted e.1 h1)

  mode-IsSound : (s : Stream p) (mode : Bool) → IsSound s → IsSound (with_partial_mode s mode)
  mode-IsSound s mode h = IsSound-same s _ refl refl refl h.ordered.fits h

  check_arguments-IsSound :
      (null : Bool) (count : ℕ) (s : Stream p)
      → IsSound s
      → IsSound (result (check_arguments null count s))
  unfolding check_arguments set_error clear_error
  check_arguments-IsSound null count s h =
      IsSound-SameBooks s (result (check_arguments null count s))
        (ground arith, ground arith, ground arith) h

  after_resume-IsSound : (r : Status × Stream p) → IsSound r.1 → IsSound (result (after_resume r))
  unfolding after_resume
  after_resume-IsSound (st, s) h = elim st as (λ k. IsSound (result (after_resume (k, s)))) [
    | Status.ok ↦ h
    | Status.limit_exceeded ↦ IsSound-SameBooks s _ (refl, refl, refl) h
    | _ ↦ h
  ]

  resume_feed-IsSound : (s : Stream p) → IsSound s → IsSound (result (resume_feed s))
  unfolding resume_feed
  resume_feed-IsSound s h =
      if-cases (λ (m : Flow (Stream p)). IsSound (result m))
        (s.decoder.incremental && s.events.decoder_backpressured)
        (λ _. after_resume-IsSound (pump_incremental s) (pump_incremental-IsSound s h)) (λ _. h)

  check_state-IsSound : (s : Stream p) → IsSound s → IsSound (result (check_state s))
  unfolding check_state set_error
  check_state-IsSound s h =
      IsSound-SameBooks s (result (check_state s)) (ground arith, ground arith, ground arith) h

  pub bind-result :
      (Q : Stream p → Type 0) (m : Flow (Stream p)) (f : Stream p → Flow (Stream p))
      → Q (result m)
      → ((t : Stream p) → Q t → Q (result (f t)))
      → Q (result (m >>= f))
  bind-result Q (go s) f h k = k s h
  bind-result Q (ret st s) f h k = h

  feed_checked-IsSound :
      (converted : Option (List p.Sample)) (count : ℕ) (m : Flow (Stream p))
      → IsSound (result m)
      → IsSound (feed_checked converted count m).1
  unfolding feed_checked accept_in_mode
  feed_checked-IsSound converted count (ret st s) h = h
  feed_checked-IsSound converted count (go s) h =
      mode-IsSound _ _ (accept-IsSound converted count _ (mode-IsSound s (partial_mode s count) h))

  pub feed_body-IsSound :
      (null : Bool) (count : ℕ) (converted : Option (List p.Sample)) (s : Stream p)
      → IsSound s
      → IsSound (feed_body null count converted s).1
  unfolding feed_body
  feed_body-IsSound null count converted s h =
      feed_checked-IsSound converted count
        (check_state s >>= resume_feed >>= check_arguments null count)
        (bind-result IsSound (check_state s >>= resume_feed) (check_arguments null count)
          (bind-result IsSound (check_state s) resume_feed (check_state-IsSound s h)
            resume_feed-IsSound)
          (check_arguments-IsSound null count))

  pub guard-IsSound : (s : Stream p) (engaged : Bool) → IsSound s → IsSound (with_guard s engaged)
  guard-IsSound s engaged h = IsSound-SameBooks s _ (refl, refl, refl) h

  -- Feeding keeps the books of the decoder and the order and numbering of the queued events, with
  -- any samples and any converter, accepted or refused.
  pub feed_common-IsSound :
      {A : Type 0} (s : Stream p) (samples : Option (List A)) (count : ℕ)
      (convert : List A → Option (List p.Sample))
      → IsSound s
      → IsSound (feed_common s samples count convert).1
  unfolding feed_common
  feed_common-IsSound s none count convert h =
      if-cases (λ (r : Status × Stream p). IsSound r.1) s.lifecycle.in_operation (λ _. h)
        (λ _.
          guard-IsSound _ false (feed_body-IsSound true count (some []) _ (guard-IsSound s true h)))
  feed_common-IsSound s (some xs) count convert h =
      if-cases (λ (r : Status × Stream p). IsSound r.1) s.lifecycle.in_operation (λ _. h)
        (λ _.
          guard-IsSound _ false
            (feed_body-IsSound false count (convert xs) _ (guard-IsSound s true h)))

  -- A stream that is not created or running refuses audio, and only the last error changes.
  pub feed_body-refused :
      (null : Bool) (count : ℕ) (converted : Option (List p.Sample)) (s : Stream p)
      → feed_allowed s.lifecycle.state ≡ false
      → feed_body null count converted s ≡ (
        Status.invalid_state,
        set_error s Status.invalid_state (Message.feed_not_allowed s.lifecycle.state),
      )
  unfolding feed_body feed_checked check_state set_error
  feed_body-refused null count converted s n =
      if-cases
        (λ m. feed_checked converted count (m >>= resume_feed >>= check_arguments null count) ≡ (
          Status.invalid_state,
          set_error s Status.invalid_state (Message.feed_not_allowed s.lifecycle.state),
        ))
        (feed_allowed s.lifecycle.state) (λ t. absurd (ground (arith, t, n))) (λ _. refl)

  -- What such a feed gives.
  abbrev pub feed_refusal : Stream p → Status × Stream p
  feed_refusal s = if s.lifecycle.in_operation then (Status.busy, s) else (
    Status.invalid_state,
    with_guard
        (set_error (with_guard s true) Status.invalid_state
          (Message.feed_not_allowed s.lifecycle.state))
        false,
  )

  pub feed_common-refused :
      {A : Type 0} (s : Stream p) (samples : Option (List A)) (count : ℕ)
      (convert : List A → Option (List p.Sample))
      → feed_allowed s.lifecycle.state ≡ false
      → feed_common s samples count convert ≡ feed_refusal s
  unfolding feed_common
  feed_common-refused s none count convert n =
      rw (feed_body-refused true count (some []) (with_guard s true) n) refl
  feed_common-refused s (some xs) count convert n =
      rw (feed_body-refused false count (convert xs) (with_guard s true) n) refl
