-- ===== src/Stream/Lifecycle/Control/Sound.antt =====
-- Reset, cancellation, warmup and the event capacity keep a stream well formed.
use voxtral_cpp.Prelude.{
  ℕ, ◌≡◌, ap, refl, inl, inr, Bool, true, false, not, ◌||◌, List, [], ◌∷◌, arith, if-cases,
  if◌then◌else◌, ◌==◌, ltb,
}
use voxtral_cpp.Stream.State.{
  Status, State, Message, Event, Pipeline, Stream, set_error, clear_error, max_events_default,
}
use voxtral_cpp.Stream.Decoder.Sound.{IsBooked, IsSound}
use voxtral_cpp.Stream.Frontend.{ensure_frontend, ensure_encoder}
use voxtral_cpp.Stream.Frontend.Frame.{ensure_frontend-Untouched, ensure_encoder-Untouched}
use voxtral_cpp.Stream.Lifecycle.Create.{guarded, is_ok}
use voxtral_cpp.Stream.Lifecycle.Transfer.{IsSound-Untouched, push_event-IsSound}
use voxtral_cpp.Stream.Lifecycle.Feed.Slices.{IsSound-SameBooks}
use voxtral_cpp.Stream.Lifecycle.Finish.{flushing}
use voxtral_cpp.Stream.Lifecycle.Finish.Well.{IsWell, IsWell-IsSound, flushing-IsSound}
use voxtral_cpp.Stream.Lifecycle.Finish.Sound.{guard-IsWell}
use voxtral_cpp.Stream.Lifecycle.Control.{
  reset_body, reset, emit_cancelled, cancel_now, cancel_in, cancel_body, cancel, warmup_failed,
  warmup_graphs, warmup_start, warmup_body, warmup, set_event_capacity, is_created,
}

module _ {p : Pipeline} where
  reset_body-IsWell : (s : Stream p) → IsWell s → IsWell (reset_body s).1
  unfolding reset_body clear_error
  reset_body-IsWell s w =
      let q = w.prompted in
      IsWell-IsSound (reset_body s).1 (record {
        books = record {
          history = refl;
          snapshot = refl;
          position = refl;
          steps = refl;
          issued = refl;
          idle = inr refl;
          limit = inr (omega arith);
          stash = inl refl;
          behind = inl refl;
          prompt = ground (arith, q);
        };
        ordered = record { fits = omega arith; numbered = (0, tt, refl) };
      })

  -- What may be refused leaves all but the last error.
  same-IsWell :
      (s : Stream p) (st : Status) (msg : Message) → IsWell s → IsWell (set_error s st msg)
  unfolding set_error
  same-IsWell s st msg w = record {
    ordered = record { fits = w.ordered.fits; numbered = w.ordered.numbered };
    prompted = w.prompted;
    booked = w.booked;
  }

  emit_cancelled-IsSound : (s : Stream p) → IsSound s → IsSound (emit_cancelled s)
  unfolding emit_cancelled
  emit_cancelled-IsSound s h =
      if-cases IsSound s.lifecycle.cancelled_emitted (λ _. h)
        (λ _.
          IsSound-SameBooks _ _ (refl, refl, refl)
            (push_event-IsSound (flushing s) _ refl (flushing-IsSound s h)))

  cancel_now-IsSound : (s : Stream p) → IsSound s → IsSound (cancel_now s).1
  unfolding cancel_now clear_error
  cancel_now-IsSound s h =
      IsSound-SameBooks _ _ (refl, refl, refl)
        (emit_cancelled-IsSound _ (IsSound-SameBooks s _ (refl, refl, refl) h))

  cancel_in-IsWell :
      (k : State) (s : Stream p) → s.lifecycle.state ≡ k → IsWell s → IsWell (cancel_in k s).1
  unfolding cancel_in
  cancel_in-IsWell State.created s e w =
      IsWell-IsSound _ (
        cancel_now-IsSound s
          (record { books = live s State.created e w refl; ordered = w.ordered }))
    where
      live :
          (s : Stream p) (k : State)
          → s.lifecycle.state ≡ k
          → IsWell s
          → k ≡ State.created
          → IsBooked s
      live s k e w c = elim w.booked [ inl d ↦ absurd (ground (arith, d, e, c)) | inr b ↦ b ]
  cancel_in-IsWell State.running s e w = IsWell-IsSound _ (
      cancel_now-IsSound s (record {
        books = elim w.booked [ inl d ↦ absurd (ground (arith, d, e)) | inr b ↦ b ];
        ordered = w.ordered;
      }))
  cancel_in-IsWell State.finishing s e w = same-IsWell s _ _ w
  cancel_in-IsWell State.completed s e w = same-IsWell s _ _ w
  cancel_in-IsWell State.cancelled s e w = w
  cancel_in-IsWell State.failed s e w = w

  warmup_failed-IsSound : (s : Stream p) → IsSound s → IsSound (warmup_failed s).1
  unfolding warmup_failed set_error
  warmup_failed-IsSound s h =
      if-cases IsSound (is_ok s.lifecycle.last_status)
        (λ _. IsSound-SameBooks s _ (refl, refl, refl) h) (λ _. h)

  warmup_graphs-IsSound : (s : Stream p) → IsSound s → IsSound (warmup_graphs s).1
  unfolding warmup_graphs set_error clear_error
  warmup_graphs-IsSound s h =
      if-cases (λ (r : Status × Stream p). IsSound r.1) (not (p.enc_warmup s.device).0)
        (λ _. IsSound-SameBooks s _ (refl, refl, refl) h)
        (λ _. IsSound-SameBooks s _ (refl, refl, refl) h)

  warmup_start-IsSound : (s : Stream p) → IsSound s → IsSound (warmup_start s).1
  unfolding warmup_start
  warmup_start-IsSound s h =
      let P : Status × Stream p → Type 0 = λ r. IsSound r.1 in
      let r = ensure_frontend s in
      let e = ensure_encoder r.1 in
      let h1 = IsSound-Untouched s r.1 (ensure_frontend-Untouched s) h in
      let h2 = IsSound-Untouched r.1 e.1 (ensure_encoder-Untouched r.1) h1 in
      if-cases P (not r.0) (λ _. warmup_failed-IsSound r.1 h1)
        (λ _.
          if-cases P (not e.0 || not e.1.frontend.has_enc) (λ _. warmup_failed-IsSound e.1 h2)
            (λ _. warmup_graphs-IsSound e.1 h2))

  warmup_body-IsWell : (s : Stream p) → IsWell s → IsWell (warmup_body s).1
  unfolding warmup_body
  warmup_body-IsWell s w =
      let P : Status × Stream p → Type 0 = λ r. IsWell r.1 in
      if-cases P s.lifecycle.warmup_complete (λ _. w)
        (λ _.
          if-cases P
            (not (is_created s.lifecycle.state)
              || not (s.lifecycle.total_samples_received == 0)
              || not s.has_ctx
              || not s.decoder.incremental)
            (λ _. same-IsWell s _ _ w)
            (λ f.
              IsWell-IsSound _
                (warmup_start-IsSound s (record { books = live f; ordered = w.ordered }))))
    where
      live :
          (not (is_created s.lifecycle.state)
              || not (s.lifecycle.total_samples_received == 0)
              || not s.has_ctx
              || not s.decoder.incremental)
            ≡ false
          → IsBooked s
      live f = elim w.booked [ inl d ↦ absurd (ground (arith, f, ap is_created d)) | inr b ↦ b ]

  pub set_event_capacity-IsWell :
      (s : Stream p) (n : ℕ) → IsWell s → IsWell (set_event_capacity s n).1
  unfolding set_event_capacity
  set_event_capacity-IsWell s n w = go s.events.queue refl
    where
      go :
          (q : List Event)
          → s.events.queue ≡ q
          → IsWell
              (elim q as (λ _. Bool × Stream p) [
                | _ ∷ _ ↦ (false, s)
                | [] ↦
                    if n == 0 || ltb max_events_default n || not (is_created s.lifecycle.state)
                    then (false, s)
                    else (true, record s { events = record (s.events) { max_events = n } })
              ]).1
      go (e ∷ es) eq = w
      go [] eq =
          if-cases (λ (r : Bool × Stream p). IsWell r.1)
            (n == 0 || ltb max_events_default n || not (is_created s.lifecycle.state)) (λ _. w)
            (λ _. record {
              ordered = record { fits = ground (arith, eq); numbered = w.ordered.numbered };
              prompted = w.prompted;
              booked = w.booked;
            })

  guarded-IsWell :
      (s : Stream p) (body : Stream p → Status × Stream p)
      → ((t : Stream p) → IsWell t → IsWell (body t).1)
      → IsWell s
      → IsWell (guarded s body).1
  guarded-IsWell s body k w =
      if-cases (λ (r : Status × Stream p). IsWell r.1) s.lifecycle.in_operation (λ _. w)
        (λ _. guard-IsWell _ false (k _ (guard-IsWell s true w)))

  pub reset-IsWell : (s : Stream p) → IsWell s → IsWell (reset s).1
  unfolding reset
  reset-IsWell s w = guarded-IsWell s reset_body reset_body-IsWell w

  pub cancel-IsWell : (s : Stream p) → IsWell s → IsWell (cancel s).1
  unfolding cancel
  cancel-IsWell s w =
      guarded-IsWell s cancel_body (λ t v. cancel_in-IsWell t.lifecycle.state t refl v) w

  pub warmup-IsWell : (s : Stream p) → IsWell s → IsWell (warmup s).1
  unfolding warmup
  warmup-IsWell s w = guarded-IsWell s warmup_body warmup_body-IsWell w
