-- ===== src/Stream/Decoder/Pump.antt =====
-- One pass of the scheduler: it keeps the books and the order of the queue, it ends, and its
-- status says in which state it left the decoder.
use voxtral_cpp.Prelude.{
  ℕ, ◌-◌, ◌≤◌, ◌<◌, ◌≡◌, refl, ◌⊎◌, inl, inr, Bool, true, false, not, ◌&&◌, arith, ltb, leb, length,
  if-cases, take, subst, sym,
}
use voxtral_cpp.Stream.State.{Status, Pipeline, Stream, Flow, go, ret, ◌>>=◌, returned, set_error}
use voxtral_cpp.Stream.Decoder.{
  full_prompt, committable, build_prompt_ids, capture_new_adapter_output_sha, backend_failure,
  commit_groups, adapter_stage, run_prefill, prefill_stage, commit_pending, resume_stage,
  decode_stage, pump_flow, pump_incremental,
}
use voxtral_cpp.Stream.Decoder.Sound.{
  IsSound, commit_pending-IsSound, commit_pending-refused, IsOrdered-of,
}
use voxtral_cpp.Stream.Decoder.Frame.{capture-elsewhere, capture-Kept}
use voxtral_cpp.Stream.Decoder.Books.{commit_pending-decoder}
use voxtral_cpp.Stream.Decoder.Loop.{Stopped, Sound, Sound-bind, Drained, decode_loop-Sound}

module _ {p : Pipeline} where
  abbrev Prompted : Stream p → Type 0
  Prompted s = s.decoder.prompt_ids ≡ full_prompt

  build_prompt_ids-Sound :
      (s : Stream p) → IsSound s → IsSound (build_prompt_ids s) × Prompted (build_prompt_ids s)
  unfolding build_prompt_ids
  build_prompt_ids-Sound s h = (
    record {
      books = ground (arith, h.books);
      ordered = IsOrdered-of s (build_prompt_ids s) (ground arith) (ground arith) h.ordered;
    },
    ground (arith, h.books),
  )

  commit_groups-Sound :
      (s : Stream p) (upto : ℕ)
      → IsSound s
      → Prompted s
      → s.decoder.adapter_groups_committed < upto
      → Sound Prompted (commit_groups s upto)
  unfolding commit_groups backend_failure set_error
  commit_groups-Sound s upto h q lt =
      let first = s.decoder.adapter_groups_committed in
      let r = p.adapter_commit s.device first (upto - first) in
      let s1 = record s { device = r.1 } in
      let c = capture_new_adapter_output_sha s1 first (upto - first) in
      let e = capture-elsewhere s1 first (upto - first) in
      let k = capture-Kept s1 first (upto - first) in
      if-cases (Sound Prompted) (not r.0)
        (λ _. (
          record {
            books = ground (arith, h.books);
            ordered = IsOrdered-of s _ refl refl h.ordered;
          },
          inl refl,
        ))
        (λ _.
          if-cases (Sound Prompted) (not c.0)
            (λ _. (
              record {
                books = ground (arith, h.books, e, k);
                ordered = IsOrdered-of s c.1 e.1 (ground (arith, e)) h.ordered;
              },
              inl refl,
            ))
            (λ _. (
              record {
                books = ground (arith, h.books, e, k);
                ordered = IsOrdered-of s _ e.1 (ground (arith, e)) h.ordered;
              },
              ground (arith, e),
            )))

  adapter_stage-Sound : (s : Stream p) → IsSound s → Prompted s → Sound Prompted (adapter_stage s)
  unfolding adapter_stage
  adapter_stage-Sound s h q =
      if-cases (Sound Prompted) (ltb s.decoder.adapter_groups_committed (committable s))
        (λ t. commit_groups-Sound s (committable s) h q (ground arith)) (λ _. (h, q))

  run_prefill-Sound :
      (s : Stream p)
      → IsSound s
      → Prompted s
      → s.decoder.decoder_prefill_done ≡ false
      → 38 ≤ s.decoder.adapter_groups_committed
      → Sound Prompted (run_prefill s 38)
  unfolding run_prefill backend_failure set_error
  run_prefill-Sound s h q n g =
      let r = p.decoder_prefill (p.decoder_begin s.device) (take 38 s.decoder.prompt_ids) in
      if-cases (Sound Prompted) (not r.0)
        (λ _. (
          record {
            books = ground (arith, h.books);
            ordered = IsOrdered-of s _ refl refl h.ordered;
          },
          inl refl,
        ))
        (λ _. (
          record {
            books = ground (arith, h.books);
            ordered = IsOrdered-of s _ refl refl h.ordered;
          },
          q,
        ))

  prefill_stage-Sound : (s : Stream p) → IsSound s → Prompted s → Sound Prompted (prefill_stage s)
  unfolding prefill_stage
  prefill_stage-Sound s h q =
      let l : length s.decoder.prompt_ids - 1 ≡ 38 = rw q in
      if-cases (Sound Prompted)
        (not s.decoder.decoder_prefill_done
          && leb (length s.decoder.prompt_ids - 1) s.decoder.adapter_groups_committed)
        (λ t. rw l (run_prefill-Sound s h q (ground arith) (ground arith))) (λ _. (h, q))

  abbrev Flushed : Stream p → Type 0
  Flushed s = (s.decoder.decoder_prefill_done ≡ false) ⊎ (s.decoder.pending.valid ≡ false)

  resume_stage-Sound : (s : Stream p) → IsSound s → Sound Flushed (resume_stage s)
  unfolding resume_stage
  resume_stage-Sound s h =
      let c = commit_pending s in
      let h' = commit_pending-IsSound s h in
      if-cases (Sound Flushed) s.decoder.decoder_prefill_done
        (λ _.
          if-cases (Sound Flushed) c.0
            (λ y. (
              record {
                books = h'.books;
                ordered = record { fits = h'.ordered.fits; numbered = h'.ordered.numbered };
              },
              inr (ground (arith, commit_pending-decoder s)),
            ))
            (λ n. (h', stopped n)))
        (λ n. (h, inl n))
    where
      stopped : (commit_pending s).0 ≡ false → Stopped Status.limit_exceeded (commit_pending s).1
      stopped n = let c = commit_pending-refused s n in inr (refl, c.0, c.1, c.2)

  -- Where a pass that returned `ok` leaves an active stream: before the prompt, or with no token
  -- stashed and no step possible.
  abbrev pub Pumped : Stream p → Type 0
  Pumped s = (s.decoder.decoder_prefill_done ≡ false) ⊎ Drained s.decoder.adapter_groups_committed s

  Sound-Pumped : (groups : ℕ) (m : Flow (Stream p)) → Sound (Drained groups) m → Sound Pumped m
  Sound-Pumped groups (go s) h =
      let i = h.1.0 in (h.0, inr (subst (λ g. Drained g s) (sym i.2) h.1))
  Sound-Pumped groups (ret st s) h = h

  decode_stage-Sound : (s : Stream p) → IsSound s → Flushed s → Sound Pumped (decode_stage s)
  unfolding decode_stage
  decode_stage-Sound s h fl =
      let d = s.decoder in
      let groups = d.adapter_groups_committed in
      if-cases (Sound Pumped) (d.decoder_prefill_done && not d.decoder_eos)
        (λ t. Sound-Pumped groups _ (
          decode_loop-Sound (groups - d.decoder_position) groups s h
            (ground arith, ground arith, refl) (inr (ground (arith, h.books)))))
        (λ f. (h, stays f))
    where
      stays : (s.decoder.decoder_prefill_done && not s.decoder.decoder_eos) ≡ false → Pumped s
      stays f = ground arith

  -- The precondition of a pass: an inference stream with an encoder.
  abbrev pub is_active : Stream p → Bool
  is_active s = s.decoder.incremental && s.frontend.has_enc && s.has_ctx

  stages-Sound :
      (s : Stream p)
      → IsSound s
      → Sound Pumped
          (adapter_stage (build_prompt_ids s) >>= prefill_stage >>= resume_stage >>= decode_stage)
  stages-Sound s h =
      let t = build_prompt_ids s in
      let b = build_prompt_ids-Sound s h in
      let m1 = adapter_stage t in
      let m2 = m1 >>= prefill_stage in
      Sound-bind Flushed Pumped (m2 >>= resume_stage) decode_stage
        (Sound-bind Prompted Flushed m2 resume_stage
          (Sound-bind Prompted Prompted m1 prefill_stage (adapter_stage-Sound t b.0 b.1)
            prefill_stage-Sound)
          (λ u hu _. resume_stage-Sound u hu))
        decode_stage-Sound

  -- What a pass tells its caller.
  abbrev pub Outcome : Status × Stream p → Type 0
  Outcome (st, s) = ((st ≡ Status.ok) × Pumped s) ⊎ Stopped st s

  Outcome-Sound :
      (m : Flow (Stream p)) → Sound Pumped m → IsSound (returned m).1 × Outcome (returned m)
  Outcome-Sound (go s) h = (h.0, inl (refl, h.1))
  Outcome-Sound (ret st s) h = (h.0, inr h.1)

  -- A pass over an active stream with sound books keeps them sound, and ends in one of three ways:
  -- `ok`, before the prompt or with no token stashed and no decoder step possible;
  -- `backend_error`; or `limit_exceeded`, with the token that the full queue refused still stashed
  -- and the stream marked as backpressured.
  pub pump_incremental-Outcome :
      (s : Stream p)
      → IsSound s
      → is_active s ≡ true
      → IsSound (pump_incremental s).1 × Outcome (pump_incremental s)
  unfolding pump_incremental pump_flow
  pump_incremental-Outcome s h a =
      if-cases (λ m. IsSound (returned m).1 × Outcome (returned m)) (is_active s)
        (λ _. Outcome-Sound _ (stages-Sound s h)) (λ n. cc)

  -- So does a pass over any stream keep them.
  pub pump_incremental-IsSound : (s : Stream p) → IsSound s → IsSound (pump_incremental s).1
  unfolding pump_incremental pump_flow
  pump_incremental-IsSound s h =
      if-cases {A = Flow (Stream p)} (λ m. IsSound (returned m).1) (is_active s)
        (λ _. (Outcome-Sound _ (stages-Sound s h)).0) (λ _. h)
