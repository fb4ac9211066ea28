-- ===== src/Stream/Lifecycle/Finish/Ends.antt =====
-- How finish() ends, and what a second finish() does.
use voxtral_cpp.Prelude.{
  ◌≡◌, ◌∙◌, ap, refl, ◌⊎◌, inl, inr, Bool, true, false, not, ◌||◌, ◌&&◌, none, some, arith,
  if-cases, ◌==◌,
}
use voxtral_cpp.Stream.State.{
  Status, State, Lifecycle, Pipeline, Stream, ◌>>=◌, set_error, clear_error,
}
use voxtral_cpp.Stream.Decoder.{pump_incremental}
use voxtral_cpp.Stream.Decoder.Frame.{pump_incremental-Kept}
use voxtral_cpp.Stream.Lifecycle.Create.{is_ok, with_guard}
use voxtral_cpp.Stream.Lifecycle.Feed.{feed_allowed}
use voxtral_cpp.Stream.Lifecycle.Finish.{
  Inference, threw, ran, check_finish, after_backlog, drain_backlog, begin_finishing, complete,
  finish_empty, fail, infer, conclude, finish_audio, finish_checked, finish_body, finish,
}

-- The status and the state in which finish() may leave a stream whose state was `before`.
abbrev pub Ended : State → Status → State → Type 0
Ended before st after =
    (st ≡ Status.ok) × (after ≡ State.completed)
    ⊎ ((is_ok st ≡ false) × (after ≡ State.failed)
        ⊎ (st ≡ Status.limit_exceeded) × (after ≡ before))

abbrev pub is_ended : State → Bool
is_ended State.completed = true
is_ended State.cancelled = true
is_ended _ = false

module _ {p : Pipeline} where
  abbrev Ends : State → Status × Stream p → Type 0
  Ends before (st, s) = Ended before st s.lifecycle.state

  conclude-Ends : (k : State) (m : Inference (Stream p)) → Ends k (conclude m)
  unfolding conclude fail complete clear_error
  conclude-Ends k (threw msg s) = inr (inl (refl, refl))
  conclude-Ends k (ran none s) = inr (inl (refl, refl))
  conclude-Ends k (ran (some (text, tokens)) s) = inl (refl, refl)

  finish_audio-Ends : (k : State) (s : Stream p) → Ends k (finish_audio s)
  unfolding finish_audio finish_empty complete fail clear_error
  finish_audio-Ends k s =
      if-cases (Ends k) (s.lifecycle.total_samples_received == 0) (λ _. inl (refl, refl))
        (λ _.
          if-cases (Ends k) (not s.has_ctx || not s.frontend.has_mel_fe)
            (λ _. inr (inl (refl, refl))) (λ _. conclude-Ends k (infer s)))

  after_backlog-Ends :
      (k : State) (r : Status × Stream p)
      → r.1.lifecycle.state ≡ k
      → Ends k (finish_checked (after_backlog r))
  unfolding finish_checked after_backlog
  after_backlog-Ends k (st, s) e =
      elim st as (λ x. Ends k (finish_checked (after_backlog (x, s)))) [
        | Status.ok ↦ finish_audio-Ends k (begin_finishing s)
        | Status.limit_exceeded ↦ inr (inr (refl, e))
        | _ ↦ inr (inl (refl, refl))
      ]

  pump_incremental-state :
      (s : Stream p) → (pump_incremental s).1.lifecycle.state ≡ s.lifecycle.state
  pump_incremental-state s = ap (λ (l : Lifecycle). l.state) (pump_incremental-Kept s).lifecycle

  drain_backlog-Ends :
      (k : State) (s : Stream p) → s.lifecycle.state ≡ k → Ends k (finish_checked (drain_backlog s))
  unfolding drain_backlog finish_checked
  drain_backlog-Ends k s e =
      if-cases (λ m. Ends k (finish_checked m))
        (s.decoder.incremental && s.events.decoder_backpressured)
        (λ _. after_backlog-Ends k (pump_incremental s) (pump_incremental-state s ∙ e))
        (λ _. finish_audio-Ends k (begin_finishing s))

  finish_body-Ends :
      (k : State) (s : Stream p)
      → s.lifecycle.state ≡ k
      → feed_allowed k ≡ true
      → Ends k (finish_checked (check_finish k s >>= drain_backlog))
  unfolding check_finish
  finish_body-Ends State.created s e a = drain_backlog-Ends State.created s e
  finish_body-Ends State.running s e a = drain_backlog-Ends State.running s e
  finish_body-Ends State.finishing s e a = absurd (ground (arith, a))
  finish_body-Ends State.completed s e a = absurd (ground (arith, a))
  finish_body-Ends State.cancelled s e a = absurd (ground (arith, a))
  finish_body-Ends State.failed s e a = absurd (ground (arith, a))

  -- finish() on a created or running stream with no operation in flight ends in one of three ways:
  -- `ok` and completed; another status and failed; or `limit_exceeded` with the state as it was.
  -- It never leaves the stream finishing.
  pub finish-Ends :
      (s : Stream p)
      → s.lifecycle.in_operation ≡ false
      → feed_allowed s.lifecycle.state ≡ true
      → Ends s.lifecycle.state (finish s)
  unfolding finish finish_body
  finish-Ends s n a =
      if-cases (Ends s.lifecycle.state) s.lifecycle.in_operation
        (λ t. absurd (ground (arith, t, n)))
        (λ _. finish_body-Ends s.lifecycle.state (with_guard s true) refl a)

  -- What `ok` says of the state.
  abbrev EndsIfOk : Status × Stream p → Type 0
  EndsIfOk (st, s) = is_ok st ≡ true → is_ended s.lifecycle.state ≡ true

  Ends-EndsIfOk : (k : State) (r : Status × Stream p) → Ends k r → EndsIfOk r
  Ends-EndsIfOk k (st, s) (inl h) y = ap is_ended h.1
  Ends-EndsIfOk k (st, s) (inr (inl h)) y = absurd (ground (arith, h.0, y))
  Ends-EndsIfOk k (st, s) (inr (inr h)) y = absurd (ground (arith, ap is_ok h.0, y))

  finish_body-EndsIfOk :
      (k : State) (s : Stream p)
      → s.lifecycle.state ≡ k
      → EndsIfOk (finish_checked (check_finish k s >>= drain_backlog))
  unfolding check_finish finish_checked set_error
  finish_body-EndsIfOk State.created s e =
      Ends-EndsIfOk State.created (finish_checked (drain_backlog s))
        (drain_backlog-Ends State.created s e)
  finish_body-EndsIfOk State.running s e =
      Ends-EndsIfOk State.running (finish_checked (drain_backlog s))
        (drain_backlog-Ends State.running s e)
  finish_body-EndsIfOk State.finishing s e = λ y. absurd (ground (arith, y))
  finish_body-EndsIfOk State.completed s e = λ y. ap is_ended e
  finish_body-EndsIfOk State.cancelled s e = λ y. ap is_ended e
  finish_body-EndsIfOk State.failed s e = λ y. absurd (ground (arith, y))

  ended-finish_body :
      (k : State) (s : Stream p)
      → is_ended k ≡ true
      → finish_checked (check_finish k s >>= drain_backlog) ≡ (Status.ok, s)
  unfolding check_finish finish_checked
  ended-finish_body State.created s a = absurd (ground (arith, a))
  ended-finish_body State.running s a = absurd (ground (arith, a))
  ended-finish_body State.finishing s a = absurd (ground (arith, a))
  ended-finish_body State.completed s a = refl
  ended-finish_body State.cancelled s a = refl
  ended-finish_body State.failed s a = absurd (ground (arith, a))

  abbrev Again : Status × Stream p → Type 0
  Again (st, s) = is_ok st ≡ true → finish s ≡ (st, s)

  -- If finish() returned `ok`, another finish() returns `ok` and changes nothing.
  pub finish_idempotent : (s : Stream p) → (finish s).0 ≡ Status.ok → finish (finish s).1 ≡ finish s
  unfolding finish finish_body
  finish_idempotent s y =
      if-cases Again s.lifecycle.in_operation (λ _. λ b. absurd (ground (arith, b)))
        (λ _. λ o.
          repeat (finish_body (with_guard s true)) o
            (finish_body-EndsIfOk s.lifecycle.state (with_guard s true) refl o))
        (ap is_ok y)
    where
      repeat :
          (r : Status × Stream p)
          → is_ok r.0 ≡ true
          → is_ended r.1.lifecycle.state ≡ true
          → finish (with_guard r.1 false) ≡ (r.0, with_guard r.1 false)
      repeat (st, t) o e =
          elim st as (λ x. is_ok x ≡ true → finish (with_guard t false) ≡ (x, with_guard t false)) [
            | Status.ok ↦ λ _.
                ap (λ (r : Status × Stream p). (r.0, with_guard r.1 false))
                  (ended-finish_body t.lifecycle.state (with_guard t true) e)
            | _ ↦ λ b. absurd (ground (arith, b))
          ]
            o
