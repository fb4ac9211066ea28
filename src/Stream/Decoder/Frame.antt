-- ===== src/Stream/Decoder/Frame.antt =====
-- A pass of the scheduler changes the device, the decoder, the queue, the diagnostics and the last
-- error only.
use voxtral_cpp.Prelude.{
  ℕ, zero, suc, ◌-◌, ◌≡◌, inl, inr, false, ◌&&◌, Option, none, some, [], ◌∷◌, ◌++◌, arith,
  Bool-cases,
}
use voxtral_cpp.Stream.State.{Pipeline, Stream, Flow, go, ret, ◌>>=◌, returned, set_error}
use voxtral_cpp.Stream.Events.{emit_token_event}
use voxtral_cpp.Stream.Events.Frame.{
  Kept, Kept-refl, Kept-trans, emit_token_event-Kept, emit_partial_text_event-Kept,
}
use voxtral_cpp.Stream.Decoder.{
  build_prompt_ids, capture_new_adapter_output_sha, backend_failure, commit_groups, adapter_stage,
  run_prefill, prefill_stage, append_token_to_partial, deliver, commit_pending, resume_stage,
  may_step, stash, committable, step_decoder, deliver_step, decode_loop, decode_stage, pump_flow,
  pump_incremental,
}

module _ {p : Pipeline} where
  abbrev pub result : Flow (Stream p) → Stream p
  result f = (returned f).1

  pub bind-Kept :
      (s : Stream p) (m : Flow (Stream p)) (f : Stream p → Flow (Stream p))
      → Kept s (result m)
      → ((t : Stream p) → Kept t (result (f t)))
      → Kept s (result (m >>= f))
  bind-Kept s (go t) f h k = Kept-trans h (k t)
  bind-Kept s (ret st t) f h k = h

  deliver-Kept : (s : Stream p) (tok position : ℕ) → Kept s (deliver s tok position)
  unfolding deliver append_token_to_partial
  deliver-Kept s tok position =
      let d = s.decoder in
      let s1 = record s {
        decoder = record d {
          pending = record (d.pending) { valid = false };
          tokens = d.tokens ++ tok ∷ [];
        };
      } in
      ground (arith, emit_partial_text_event-Kept (append_token_to_partial s1 tok) position)

  pub commit_pending-Kept : (s : Stream p) → Kept s (commit_pending s).1
  unfolding commit_pending
  commit_pending-Kept s =
      let t = s.decoder.pending in
      let r = emit_token_event s t.token t.position t.special in
      ground (
        arith,
        emit_token_event-Kept s t.token t.position t.special,
        deliver-Kept r.1 t.token t.position,
      )

  -- The hashing touches neither the decoder nor the queue.
  pub capture-elsewhere :
      (s : Stream p) (start count : ℕ)
      → let s' = (capture_new_adapter_output_sha s start count).1 in
        (s'.decoder ≡ s.decoder) × (s'.events ≡ s.events)
  unfolding capture_new_adapter_output_sha
  capture-elsewhere s start count = ground arith

  pub capture-Kept :
      (s : Stream p) (start count : ℕ) → Kept s (capture_new_adapter_output_sha s start count).1
  unfolding capture_new_adapter_output_sha
  capture-Kept s start count = ground arith

  pub commit_groups-Kept : (s : Stream p) (upto : ℕ) → Kept s (result (commit_groups s upto))
  unfolding commit_groups backend_failure set_error
  commit_groups-Kept s upto =
      let first = s.decoder.adapter_groups_committed in
      let s1 = record s { device = (p.adapter_commit s.device first (upto - first)).1 } in
      ground (arith, capture-Kept s1 first (upto - first))

  pub prefill_stage-Kept : (s : Stream p) → Kept s (result (prefill_stage s))
  unfolding prefill_stage run_prefill backend_failure set_error
  prefill_stage-Kept s = ground arith

  pub stash-Kept : (s : Stream p) (out : Option ℕ) → Kept s (result (stash s out))
  unfolding stash backend_failure set_error
  stash-Kept s none = ground arith
  stash-Kept s (some tok) = ground arith

  pub step_decoder-Kept : (s : Stream p) → Kept s (result (step_decoder s))
  unfolding step_decoder
  step_decoder-Kept s =
      let d = s.decoder in
      let r = p.decoder_step s.device d.decoder_prev_token d.decoder_position in
      ground (arith, stash-Kept (record s { device = r.1 }) r.0)

  pub deliver_step-Kept : (s : Stream p) → Kept s (result (deliver_step s))
  unfolding deliver_step
  deliver_step-Kept s = ground (arith, commit_pending-Kept s)

  pub resume_stage-Kept : (s : Stream p) → Kept s (result (resume_stage s))
  unfolding resume_stage
  resume_stage-Kept s = ground (arith, commit_pending-Kept s)

  pub adapter_stage-Kept : (s : Stream p) → Kept s (result (adapter_stage s))
  unfolding adapter_stage
  adapter_stage-Kept s = ground (arith, commit_groups-Kept s (committable s))

  pub build_prompt_ids-Kept : (s : Stream p) → Kept s (build_prompt_ids s)
  unfolding build_prompt_ids
  build_prompt_ids-Kept s = ground arith

  decode_loop-Kept : (f groups : ℕ) (s : Stream p) → Kept s (result (decode_loop f groups s))
  unfolding decode_loop
  decode_loop-Kept zero groups s = elim (Bool-cases (may_step s groups)) [
    | inl e ↦ rw (e, decode_loop) (Kept-refl s)
    | inr e ↦ rw (e, decode_loop) (Kept-refl s)
  ]
  decode_loop-Kept (suc f) groups s = elim (Bool-cases (may_step s groups)) [
    | inl e ↦
        rw (e, decode_loop)
          (bind-Kept s (step_decoder s >>= deliver_step) (decode_loop f groups)
            (bind-Kept s (step_decoder s) deliver_step (step_decoder-Kept s) deliver_step-Kept)
            (decode_loop-Kept f groups))
    | inr e ↦ rw (e, decode_loop) (Kept-refl s)
  ]

  decode_stage-Kept : (s : Stream p) → Kept s (result (decode_stage s))
  unfolding decode_stage
  decode_stage-Kept s =
      let groups = s.decoder.adapter_groups_committed in
      ground (arith, decode_loop-Kept (groups - s.decoder.decoder_position) groups s)

  stages-Kept :
      (s : Stream p)
      → Kept s (
          result (
            adapter_stage (build_prompt_ids s) >>= prefill_stage >>= resume_stage >>= decode_stage))
  stages-Kept s =
      let t = build_prompt_ids s in
      let m1 = adapter_stage t in
      let m2 = m1 >>= prefill_stage in
      bind-Kept s (m2 >>= resume_stage) decode_stage
        (bind-Kept s m2 resume_stage
          (bind-Kept s m1 prefill_stage
            (Kept-trans (build_prompt_ids-Kept s) (adapter_stage-Kept t)) prefill_stage-Kept)
          resume_stage-Kept)
        decode_stage-Kept

  pump_flow-Kept : (s : Stream p) → Kept s (result (pump_flow s))
  unfolding pump_flow
  pump_flow-Kept s = elim (Bool-cases (s.decoder.incremental && s.frontend.has_enc && s.has_ctx)) [
    | inl e ↦ rw (e, pump_flow) (stages-Kept s)
    | inr e ↦ rw (e, pump_flow) (Kept-refl s)
  ]

  -- A pass over any stream keeps its ownership, parameters, frontend and life cycle but for the last
  -- error, and the capacity and the terminal mode of its event queue.
  pub pump_incremental-Kept : (s : Stream p) → Kept s (pump_incremental s).1
  unfolding pump_incremental
  pump_incremental-Kept = pump_flow-Kept
