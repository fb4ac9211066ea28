-- ===== src/Stream/Lifecycle/Finish/Well.antt =====
-- A well-formed stream, and the failures of finish().
use voxtral_cpp.Prelude.{◌≡◌, refl, ◌⊎◌, inr, ◌&&◌, [], arith, if-cases}
use voxtral_cpp.Stream.State.{Status, State, Message, Pipeline, Stream, Flow, set_error}
use voxtral_cpp.Stream.Events.{emit_error}
use voxtral_cpp.Stream.Events.Emit.{IsOrdered}
use voxtral_cpp.Stream.Decoder.{full_prompt, pump_incremental}
use voxtral_cpp.Stream.Decoder.Sound.{IsBooked, IsSound}
use voxtral_cpp.Stream.Decoder.Frame.{result}
use voxtral_cpp.Stream.Decoder.Pump.{pump_incremental-IsSound}
use voxtral_cpp.Stream.Lifecycle.Transfer.{IsSound-same, emit_error-IsSound}
use voxtral_cpp.Stream.Lifecycle.Feed.Slices.{IsSound-SameBooks}
use voxtral_cpp.Stream.Lifecycle.Finish.{
  with_state, flushing, check_finish, after_backlog, drain_backlog, fail,
}

-- What holds of a stream between two calls. A completed stream only keeps the transcript and the
-- tokens that it was completed with.
pub record IsWell {p : Pipeline} (s : Stream p) : Type 0 where
  pub ordered : IsOrdered s
  pub prompted : (s.decoder.prompt_ids ≡ full_prompt) ⊎ (s.decoder.prompt_ids ≡ [])
  pub booked : (s.lifecycle.state ≡ State.completed) ⊎ IsBooked s

module _ {p : Pipeline} where
  pub IsWell-IsSound : (s : Stream p) → IsSound s → IsWell s
  IsWell-IsSound s h = record { ordered = h.ordered; prompted = ids h.books; booked = inr h.books }
    where
      ids : IsBooked s → (s.decoder.prompt_ids ≡ full_prompt) ⊎ (s.decoder.prompt_ids ≡ [])
      ids b = ground (arith, b)

  pub flushing-IsSound : (s : Stream p) → IsSound s → IsSound (flushing s)
  flushing-IsSound s h =
      let f = h.ordered.fits in IsSound-same s (flushing s) refl refl refl (ground (arith, f)) h

  pub check_finish-IsSound :
      (k : State) (s : Stream p) → IsSound s → IsSound (result (check_finish k s))
  unfolding check_finish set_error
  check_finish-IsSound State.created s h = h
  check_finish-IsSound State.running s h = h
  check_finish-IsSound State.finishing s h = h
  check_finish-IsSound State.completed s h = h
  check_finish-IsSound State.cancelled s h = h
  check_finish-IsSound State.failed s h = IsSound-SameBooks s _ (refl, refl, refl) h

  pub failed-IsSound :
      (s : Stream p) (st : Status) (msg : Message)
      → IsSound s
      → IsSound (with_state (emit_error s st msg) State.failed)
  failed-IsSound s st msg h =
      IsSound-SameBooks (emit_error s st msg) _ (refl, refl, refl) (emit_error-IsSound s st msg h)

  pub after_backlog-IsSound :
      (r : Status × Stream p) → IsSound r.1 → IsSound (result (after_backlog r))
  unfolding after_backlog
  after_backlog-IsSound (st, s) h =
      let h' = λ (k : Status).
        failed-IsSound (flushing s) k s.lifecycle.last_error (flushing-IsSound s h) in
      elim st as (λ k. IsSound (result (after_backlog (k, s)))) [
        | Status.ok ↦ h
        | Status.limit_exceeded ↦ h
        | Status.invalid_argument ↦ h' Status.invalid_argument
        | Status.invalid_state ↦ h' Status.invalid_state
        | Status.unsupported_audio_format ↦ h' Status.unsupported_audio_format
        | Status.cancelled ↦ h' Status.cancelled
        | Status.backend_error ↦ h' Status.backend_error
        | Status.out_of_memory ↦ h' Status.out_of_memory
        | Status.busy ↦ h' Status.busy
        | Status.internal_error ↦ h' Status.internal_error
      ]

  pub drain_backlog-IsSound : (s : Stream p) → IsSound s → IsSound (result (drain_backlog s))
  unfolding drain_backlog
  drain_backlog-IsSound s h =
      if-cases (λ (m : Flow (Stream p)). IsSound (result m))
        (s.decoder.incremental && s.events.decoder_backpressured)
        (λ _. after_backlog-IsSound (pump_incremental s) (pump_incremental-IsSound s h)) (λ _. h)

  pub fail-IsSound : (s : Stream p) (msg : Message) → IsSound s → IsSound (fail s msg).1
  unfolding fail set_error
  fail-IsSound s msg h =
      let s1 = set_error s Status.backend_error msg in
      failed-IsSound s1 Status.backend_error s1.lifecycle.last_error
        (IsSound-SameBooks s s1 (refl, refl, refl) h)
