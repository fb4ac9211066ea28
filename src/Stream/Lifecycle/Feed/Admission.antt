-- ===== src/Stream/Lifecycle/Feed/Admission.antt =====
-- What a feed does to the sample counter and to the state: all or nothing.
use voxtral_cpp.Prelude.{
  ℕ, ◌+◌, ◌≤◌, ◌<◌, ◌≡◌, ◌∙◌, ap, refl, sym, subst, min, ◌⊎◌, inl, inr, Bool, true, false, not,
  ◌&&◌, Option, none, some, List, [], arith, if-cases,
}
use voxtral_cpp.Stream.State.{
  Status, State, Lifecycle, Params, Pipeline, Stream, Flow, go, ret, ◌>>=◌, set_error, clear_error,
  int64_max,
}
use voxtral_cpp.Stream.Decoder.{pump_incremental}
use voxtral_cpp.Stream.Decoder.Frame.{pump_incremental-Kept}
use voxtral_cpp.Stream.Frontend.{ensure_frontend}
use voxtral_cpp.Stream.Frontend.Frame.{ensure_frontend-Untouched}
use voxtral_cpp.Stream.Lifecycle.Create.{is_ok, with_guard, guarded}
use voxtral_cpp.Stream.Lifecycle.Feed.{
  feed_allowed, check_state, after_resume, resume_feed, check_arguments, consume, account, hash_pcm,
  accept_converted, accept, with_partial_mode, partial_mode, accept_in_mode, feed_checked,
  feed_body, feed_common,
}
use voxtral_cpp.Stream.Lifecycle.Feed.Slices.{left}
use voxtral_cpp.Stream.Lifecycle.Feed.Place.{
  place, place_of, pump-place, Untouched-place, consume-place,
}
use voxtral_cpp.Stream.Lifecycle.Feed.Refusal.{Refuses, consume-Refuses}

abbrev Admitted : Lifecycle → ℕ → ℕ → Type 0
Admitted l count limit =
    (l.total_samples_received + count ≤ min int64_max limit)
    × (feed_allowed l.state ≡ true)
    × (0 < count)

module _ {p : Pipeline} where
  -- What a call with so many samples gives, from a life cycle `l` and an admission limit: no change
  -- of the place, and not `ok` if there were samples; or all samples counted, within the limits.
  abbrev pub Accounted : Lifecycle → ℕ → ℕ → Status × Stream p → Type 0
  Accounted l count limit (st, t) =
      (place_of t ≡ place l) × ((is_ok st ≡ false) ⊎ (count ≡ 0))
      ⊎ (t.lifecycle.total_samples_received ≡ l.total_samples_received + count)
        × (t.lifecycle.total_samples_received ≤ min int64_max limit)
        × (t.lifecycle.state ≡ State.running)
        × (0 < count)

  account-Accounted :
      (l : Lifecycle) (count limit : ℕ) (m : Flow (Bool × Stream p))
      → Admitted l count limit
      → place_of (left m) ≡ place l
      → Refuses m
      → Accounted l count limit (account (l.total_samples_received + count) m)
  unfolding account clear_error
  account-Accounted l count limit (ret st (b, s)) a e n = inl (e, inl n)
  account-Accounted l count limit (go (true, s)) a e n =
      inr (refl, a.0, ground (arith, a, ap (λ (x : Lifecycle). x.state) e), a.2)
  account-Accounted l count limit (go (false, s)) a e n =
      inr (refl, a.0, ground (arith, a, ap (λ (x : Lifecycle). x.state) e), a.2)

  accept_converted-Accounted :
      (l : Lifecycle) (count limit : ℕ) (converted : Option (List p.Sample)) (s : Stream p)
      → Admitted l count limit
      → place_of s ≡ place l
      → Accounted l count limit (accept_converted (l.total_samples_received + count) converted s)
  unfolding accept_converted hash_pcm set_error
  accept_converted-Accounted l count limit none s a e = inl (e, inl refl)
  accept_converted-Accounted l count limit (some samples) s a e =
      let t = hash_pcm s samples in
      account-Accounted l count limit (consume samples t) a (consume-place samples t ∙ e)
        (consume-Refuses samples t)

  accept_in_mode-Accounted :
      (l : Lifecycle) (count limit : ℕ) (converted : Option (List p.Sample)) (s : Stream p)
      → Admitted l count limit
      → place_of s ≡ place l
      → Accounted l count limit (accept_in_mode converted count s)
  unfolding accept_in_mode accept
  accept_in_mode-Accounted l count limit converted s a e =
      let t = with_partial_mode s (partial_mode s count) in
      let f = ensure_frontend t in
      let h = Untouched-place t f.1 (ensure_frontend-Untouched t) ∙ e in
      let same : s.lifecycle.total_samples_received ≡ l.total_samples_received =
        ap (λ (x : Lifecycle). x.total_samples_received) e in
      if-cases (Accounted l count limit) (not f.0) (λ _. inl (h, inl refl))
        (λ _.
          subst (λ n. Accounted l count limit (accept_converted (n + count) converted f.1))
            (sym same) (accept_converted-Accounted l count limit converted f.1 a h))

  -- What a stage before the samples leaves: a refusal, or what the next stage relies on.
  abbrev Passes : Lifecycle → ℕ → (Stream p → Type 0) → Flow (Stream p) → Type 0
  Passes l count Q (go t) = (place_of t ≡ place l) × Q t
  Passes l count Q (ret st t) = (place_of t ≡ place l) × ((is_ok st ≡ false) ⊎ (count ≡ 0))

  Passes-bind :
      (l : Lifecycle) (count : ℕ) (P Q : Stream p → Type 0) (m : Flow (Stream p))
      (f : Stream p → Flow (Stream p))
      → Passes l count P m
      → ((t : Stream p) → place_of t ≡ place l → P t → Passes l count Q (f t))
      → Passes l count Q (m >>= f)
  Passes-bind l count P Q (go t) f h k = k t h.0 h.1
  Passes-bind l count P Q (ret st t) f h k = h

  abbrev Ready : Lifecycle → ℕ → Stream p → Type 0
  Ready l limit t = (t.params.max_total_samples ≡ limit) × (feed_allowed l.state ≡ true)

  check_state-Passes :
      (count : ℕ) (s : Stream p)
      → Passes s.lifecycle count (Ready s.lifecycle s.params.max_total_samples) (check_state s)
  unfolding check_state set_error
  check_state-Passes count s =
      if-cases
        (λ (m : Flow (Stream p)).
          Passes s.lifecycle count (Ready s.lifecycle s.params.max_total_samples) m)
        (feed_allowed s.lifecycle.state) (λ a. (refl, (refl, a))) (λ _. (refl, inl refl))

  after_resume-Passes :
      (l : Lifecycle) (count limit : ℕ) (r : Status × Stream p)
      → place_of r.1 ≡ place l
      → Ready l limit r.1
      → Passes l count (Ready l limit) (after_resume r)
  unfolding after_resume
  after_resume-Passes l count limit (st, s) e h =
      elim st as (λ k. Passes l count (Ready l limit) (after_resume (k, s))) [
        | Status.ok ↦ (e, h)
        | Status.limit_exceeded ↦ (e, inl refl)
        | _ ↦ (e, inl refl)
      ]

  resume_feed-Passes :
      (l : Lifecycle) (count limit : ℕ) (s : Stream p)
      → place_of s ≡ place l
      → Ready l limit s
      → Passes l count (Ready l limit) (resume_feed s)
  unfolding resume_feed
  resume_feed-Passes l count limit s e h =
      let k = ap (λ (x : Params). x.max_total_samples) (pump_incremental-Kept s).params in
      if-cases (Passes l count (Ready l limit))
        (s.decoder.incremental && s.events.decoder_backpressured)
        (λ _.
          after_resume-Passes l count limit (pump_incremental s) (pump-place s ∙ e) (k ∙ h.0, h.1))
        (λ _. (e, h))

  check_arguments-Passes :
      (l : Lifecycle) (count limit : ℕ) (null : Bool) (s : Stream p)
      → place_of s ≡ place l
      → Ready l limit s
      → Passes l count (λ _. Admitted l count limit) (check_arguments null count s)
  unfolding check_arguments set_error clear_error
  check_arguments-Passes l count limit null s e h =
      let same : s.lifecycle.total_samples_received ≡ l.total_samples_received =
        ap (λ (x : Lifecycle). x.total_samples_received) e in
      ground (arith, e, h, same)

  feed_checked-Accounted :
      (l : Lifecycle) (count limit : ℕ) (converted : Option (List p.Sample)) (m : Flow (Stream p))
      → Passes l count (λ _. Admitted l count limit) m
      → Accounted l count limit (feed_checked converted count m)
  unfolding feed_checked
  feed_checked-Accounted l count limit converted (ret st s) h = inl h
  feed_checked-Accounted l count limit converted (go s) h =
      accept_in_mode-Accounted l count limit converted s h.1 h.0

  feed_body-Accounted :
      (null : Bool) (count : ℕ) (converted : Option (List p.Sample)) (s : Stream p)
      → Accounted s.lifecycle count s.params.max_total_samples (feed_body null count converted s)
  unfolding feed_body
  feed_body-Accounted null count converted s =
      let l = s.lifecycle in
      let limit = s.params.max_total_samples in
      feed_checked-Accounted l count limit converted
        (check_state s >>= resume_feed >>= check_arguments null count)
        (Passes-bind l count (Ready l limit) (λ _. Admitted l count limit)
          (check_state s >>= resume_feed) (check_arguments null count)
          (Passes-bind l count (Ready l limit) (Ready l limit) (check_state s) resume_feed
            (check_state-Passes count s) (λ t. resume_feed-Passes l count limit t))
          (λ t. check_arguments-Passes l count limit null t))

  guarded-Accounted :
      (s : Stream p) (count : ℕ) (body : Stream p → Status × Stream p)
      → Accounted
          (with_guard s true).lifecycle
          count
          s.params.max_total_samples
          (body (with_guard s true))
      → Accounted s.lifecycle count s.params.max_total_samples (guarded s body)
  guarded-Accounted s count body h =
      if-cases (Accounted s.lifecycle count s.params.max_total_samples) s.lifecycle.in_operation
        (λ _. inl (refl, inl refl))
        (λ n. elim h [ inl k ↦ inl (unguarded n k.0, k.1) | inr k ↦ inr k ])
    where
      unguarded :
          s.lifecycle.in_operation ≡ false
          → place_of (body (with_guard s true)).1 ≡ place (with_guard s true).lifecycle
          → place_of (with_guard (body (with_guard s true)).1 false) ≡ place_of s
      unguarded n e =
          ap (λ (x : Lifecycle). record x { in_operation = false }) e
          ∙ ap (λ b. record (place s.lifecycle) { in_operation = b }) (sym n)

  -- Feeding counts all samples of a call or none: either the life cycle stays as it was, but for
  -- the last error and the number of feeds, and the status is not `ok` unless the call brought no
  -- samples; or the received samples grow by all of them, within the 63-bit positions and the
  -- stream's admission limit, and the stream is running.
  pub feed_common-Accounted :
      {A : Type 0} (s : Stream p) (samples : Option (List A)) (count : ℕ)
      (convert : List A → Option (List p.Sample))
      → Accounted s.lifecycle count s.params.max_total_samples (feed_common s samples count convert)
  unfolding feed_common
  feed_common-Accounted s none count convert =
      guarded-Accounted s count (feed_body true count (some []))
        (feed_body-Accounted true count (some []) (with_guard s true))
  feed_common-Accounted s (some xs) count convert =
      guarded-Accounted s count (feed_body false count (convert xs))
        (feed_body-Accounted false count (convert xs) (with_guard s true))
