-- ===== src/Stream/Lifecycle/Finish/Sound.antt =====
-- The end of a stream keeps the order of the queue and, up to the completion, the decoder's books.
use voxtral_cpp.Prelude.{
  ℕ, ◌≡◌, ◌∙◌, ap, subst, sym, refl, ◌⊎◌, inl, inr, Bool, true, false, not, ◌||◌, none, some, List,
  [], arith, if-cases, ◌==◌,
}
use voxtral_cpp.Stream.State.{
  Status, State, Pipeline, Stream, Flow, go, ret, ◌>>=◌, clear_error, DecoderState,
}
use voxtral_cpp.Stream.Events.{emit_final_and_completed}
use voxtral_cpp.Stream.Events.Order.{push_event-Pushed}
use voxtral_cpp.Stream.Events.Emit.{IsOrdered}
use voxtral_cpp.Stream.Decoder.{full_prompt}
use voxtral_cpp.Stream.Decoder.Sound.{IsSound}
use voxtral_cpp.Stream.Decoder.Frame.{result}
use voxtral_cpp.Stream.Decoder.Pump.{pump_incremental-IsSound}
use voxtral_cpp.Stream.Frontend.{ensure_left_pad, ensure_encoder, drain_mel_to_encoder}
use voxtral_cpp.Stream.Frontend.Frame.{
  ensure_left_pad-Untouched, ensure_encoder-Untouched, drain_mel_to_encoder-Untouched,
}
use voxtral_cpp.Stream.Lifecycle.Create.{with_guard}
use voxtral_cpp.Stream.Lifecycle.Transfer.{
  IsOrdered-same, IsSound-Untouched, emit_final_and_completed-IsOrdered,
}
use voxtral_cpp.Stream.Lifecycle.Feed.Slices.{IsSound-SameBooks}
use voxtral_cpp.Stream.Lifecycle.Feed.Sound.{bind-result}
use voxtral_cpp.Stream.Lifecycle.Finish.{
  Inference, threw, ran, with_state, check_finish, drain_backlog, begin_finishing, complete,
  finish_empty, after_tail, decode_tail, after_final_drain, run_pipeline, pad_tail, infer, conclude,
  count_run, store_result, finish_audio, finish_checked, finish_body, finish,
}
use voxtral_cpp.Stream.Lifecycle.Finish.Well.{
  IsWell, IsWell-IsSound, flushing-IsSound, check_finish-IsSound, drain_backlog-IsSound,
  fail-IsSound,
}

module _ {p : Pipeline} where
  emit_final_and_completed-decoder :
      (s : Stream p) → (emit_final_and_completed s).decoder ≡ s.decoder
  unfolding emit_final_and_completed
  emit_final_and_completed-decoder s =
      ap (λ (x : Stream p). x.decoder) (push_event-Pushed _ _).elsewhere
      ∙ ap (λ (x : Stream p). x.decoder) (push_event-Pushed s _).elsewhere

  complete-IsWell :
      (s : Stream p)
      → IsOrdered s
      → (s.decoder.prompt_ids ≡ full_prompt) ⊎ (s.decoder.prompt_ids ≡ [])
      → IsWell (complete s).1
  unfolding complete clear_error
  complete-IsWell s o q =
      let o' = emit_final_and_completed-IsOrdered s o in
      let e = emit_final_and_completed-decoder s in
      record {
        ordered = record { fits = o'.fits; numbered = o'.numbered };
        prompted = ground (arith, q, e);
        booked = inl refl;
      }

  -- The stream that the inference leaves.
  abbrev inferred : Inference (Stream p) → Stream p
  inferred (threw msg s) = s
  inferred (ran out s) = s

  after_tail-IsSound : (r : Status × Stream p) → IsSound r.1 → IsSound (inferred (after_tail r))
  unfolding after_tail
  after_tail-IsSound (st, s) h = elim st as (λ k. IsSound (inferred (after_tail (k, s)))) [
    | Status.ok ↦ h
    | _ ↦ h
  ]

  before_finish :
      (s : Stream p)
      → IsSound s
      → IsSound (record s {
        decoder = record (s.decoder) { tokens_before_finish = s.decoder.decoder_tokens_emitted };
      })
  before_finish s h = record {
    books = ground (arith, h.books);
    ordered = record { fits = h.ordered.fits; numbered = h.ordered.numbered };
  }

  decode_tail-IsSound : (s : Stream p) → IsSound s → IsSound (inferred (decode_tail s))
  unfolding decode_tail
  decode_tail-IsSound s h =
      if-cases (λ (m : Inference (Stream p)). IsSound (inferred m)) s.decoder.incremental
        (λ _. after_tail-IsSound _ (pump_incremental-IsSound _ (before_finish s h)))
        (λ _. IsSound-SameBooks s _ (refl, refl, refl) h)

  after_final_drain-IsSound :
      (m : Flow (Stream p)) → IsSound (result m) → IsSound (inferred (after_final_drain m))
  unfolding after_final_drain
  after_final_drain-IsSound (ret st s) h = h
  after_final_drain-IsSound (go s) h =
      let r = p.enc_finish s.device in
      let s1 = record s { device = r.1 } in
      let h1 = IsSound-SameBooks s s1 (refl, refl, refl) h in
      if-cases (λ (m : Inference (Stream p)). IsSound (inferred m)) r.0
        (λ _. decode_tail-IsSound s1 h1) (λ _. h1)

  run_pipeline-IsSound : (s : Stream p) → IsSound s → IsSound (inferred (run_pipeline s))
  unfolding run_pipeline
  run_pipeline-IsSound s h =
      if-cases (λ (m : Inference (Stream p)). IsSound (inferred m)) s.frontend.has_enc
        (λ _.
          after_final_drain-IsSound (drain_mel_to_encoder s true)
            (IsSound-Untouched s _ (drain_mel_to_encoder-Untouched s true) h))
        (λ _. IsSound-SameBooks s _ (refl, refl, refl) h)

  count_run-IsSound :
      (m : Inference (Stream p)) → IsSound (inferred m) → IsSound (inferred (count_run m))
  count_run-IsSound (threw msg s) h = h
  count_run-IsSound (ran out s) h = IsSound-SameBooks s _ (refl, refl, refl) h

  infer-IsSound : (s : Stream p) → IsSound s → IsSound (inferred (infer s))
  unfolding infer pad_tail
  infer-IsSound s h =
      let t = ensure_left_pad s in
      let h1 = IsSound-Untouched s t (ensure_left_pad-Untouched s) h in
      let u = pad_tail t in
      let h2 = IsSound-SameBooks t u (refl, refl, refl) h1 in
      let e = ensure_encoder u in
      let h3 = IsSound-Untouched u e.1 (ensure_encoder-Untouched u) h2 in
      if-cases (λ (m : Inference (Stream p)). IsSound (inferred m)) e.0
        (λ _. count_run-IsSound (run_pipeline e.1) (run_pipeline-IsSound e.1 h3)) (λ _. h3)

  store_result-prompt_ids :
      (s : Stream p) (out : List ℕ × List ℕ)
      → (store_result s out).decoder.prompt_ids ≡ s.decoder.prompt_ids
  store_result-prompt_ids s (text, tokens) =
      if-cases (λ (d : DecoderState). d.prompt_ids ≡ s.decoder.prompt_ids) s.decoder.incremental
        (λ _. refl) (λ _. refl)

  store_result-sequence :
      (s : Stream p) (out : List ℕ × List ℕ)
      → (store_result s out).decoder.token_sequence ≡ s.decoder.token_sequence
  store_result-sequence s (text, tokens) =
      if-cases (λ (d : DecoderState). d.token_sequence ≡ s.decoder.token_sequence)
        s.decoder.incremental (λ _. refl) (λ _. refl)

  conclude-IsWell : (m : Inference (Stream p)) → IsSound (inferred m) → IsWell (conclude m).1
  unfolding conclude
  conclude-IsWell (threw msg s) h = IsWell-IsSound _ (fail-IsSound s _ h)
  conclude-IsWell (ran none s) h = IsWell-IsSound _ (fail-IsSound s _ h)
  conclude-IsWell (ran (some (text, tokens)) s) h =
      let q = (IsWell-IsSound s h).prompted in
      let t = store_result s (text, tokens) in
      complete-IsWell t
        (IsOrdered-same s t (store_result-sequence s (text, tokens)) refl h.ordered.fits h.ordered)
        (ground (arith, q, store_result-prompt_ids s (text, tokens)))

  pub finish_audio-IsWell : (s : Stream p) → IsSound s → IsWell (finish_audio s).1
  unfolding finish_audio finish_empty
  finish_audio-IsWell s h =
      let w = IsWell-IsSound s h in
      if-cases (λ (r : Status × Stream p). IsWell r.1) (s.lifecycle.total_samples_received == 0)
        (λ _.
          complete-IsWell _ (record { fits = h.ordered.fits; numbered = h.ordered.numbered })
            w.prompted)
        (λ _.
          if-cases (λ (r : Status × Stream p). IsWell r.1)
            (not s.has_ctx || not s.frontend.has_mel_fe)
            (λ _. IsWell-IsSound _ (fail-IsSound s _ h))
            (λ _. conclude-IsWell (infer s) (infer-IsSound s h)))

  finish_checked-IsWell : (m : Flow (Stream p)) → IsSound (result m) → IsWell (finish_checked m).1
  unfolding finish_checked
  finish_checked-IsWell (ret st s) h = IsWell-IsSound s h
  finish_checked-IsWell (go s) h =
      finish_audio-IsWell (begin_finishing s) (
        flushing-IsSound (with_state s State.finishing)
          (IsSound-SameBooks s _ (refl, refl, refl) h))

  pub finish_body-completed :
      (s : Stream p) → s.lifecycle.state ≡ State.completed → finish_body s ≡ (Status.ok, s)
  unfolding finish_body finish_checked check_finish
  finish_body-completed s e = ap (λ k. finish_checked (check_finish k s >>= drain_backlog)) e

  pub guard-IsWell : (s : Stream p) (engaged : Bool) → IsWell s → IsWell (with_guard s engaged)
  guard-IsWell s engaged w = record {
    ordered = record { fits = w.ordered.fits; numbered = w.ordered.numbered };
    prompted = w.prompted;
    booked = w.booked;
  }

  finish_body-IsWell : (s : Stream p) → IsWell s → IsWell (finish_body s).1
  unfolding finish_body
  finish_body-IsWell s w = elim w.booked [
    | inl e ↦ subst (λ r. IsWell r.1) (sym (finish_body-completed s e)) w
    | inr b ↦ finish_checked-IsWell (check_finish s.lifecycle.state s >>= drain_backlog) (
        bind-result IsSound (check_finish s.lifecycle.state s) drain_backlog
          (check_finish-IsSound s.lifecycle.state s (record { books = b; ordered = w.ordered }))
          drain_backlog-IsSound)
  ]

  -- finish() keeps a stream well formed, on every path.
  pub finish-IsWell : (s : Stream p) → IsWell s → IsWell (finish s).1
  unfolding finish
  finish-IsWell s w =
      if-cases (λ (r : Status × Stream p). IsWell r.1) s.lifecycle.in_operation (λ _. w)
        (λ _. guard-IsWell _ false (finish_body-IsWell _ (guard-IsWell s true w)))
