-- ===== src/Stream/Decoder.antt =====
-- src/voxtral-stream-decoder.cpp: the adapter and decoder scheduler, and from
-- src/voxtral-stream-diagnostics.cpp the hashing of new adapter rows. The timing telemetry is left
-- out.
pub mod Books
pub mod Frame
pub mod Sound
pub mod Loop
pub mod Pump
use voxtral_cpp.Prelude.{
  ℕ, zero, suc, ◌+◌, ◌-◌, ◌*◌, ◌/◌, ◌%◌, min, Bool, true, false, not, ◌&&◌, ◌||◌, Option, none,
  some, List, [], ◌∷◌, ◌++◌, if◌then◌else◌, ltb, leb, ◌==◌, length, get_or, take, replicate,
}
use voxtral_cpp.Stream.State.{
  Status, Message, Pipeline, Stream, Flow, go, ret, ◌>>=◌, returned, set_error, token_bos,
  token_eos, token_streaming_pad, n_left_pad_tokens, n_delay_tokens, downsample_factor,
}
use voxtral_cpp.Stream.Events.{emit_token_event, emit_partial_text_event}

-- VOXTRAL_DEC_DIM and the size of a float, which the byte counter is made of
abbrev pub dec_dim : ℕ
dec_dim = 3072

abbrev pub full_prompt : List ℕ
full_prompt = token_bos ∷ replicate (n_left_pad_tokens + n_delay_tokens) token_streaming_pad

-- `(b & 0xC0) == 0x80`
abbrev pub is_continuation : ℕ → Bool
is_continuation b = b / 64 % 4 == 2

-- How many bytes the code point with this first byte has; 1 for a stray byte.
pub utf8_need : ℕ → ℕ
utf8_need lead =
    if lead / 128 % 2 == 0
    then 1
    else if lead / 32 % 8 == 6
    then 2
    else if lead / 16 % 16 == 14
    then 3
    else if lead / 8 % 32 == 30
    then 4
    else 1

-- The `while` loop: down from `i` over continuation bytes.
pub skip_continuations : List ℕ → ℕ → ℕ
skip_continuations text zero = 0
skip_continuations text (suc i) = elim (is_continuation (get_or text i 0)) [
  | true ↦ skip_continuations text i
  | false ↦ suc i
]

pub stable_at : List ℕ → ℕ → ℕ
unfolding utf8_need
stable_at text zero = length text
stable_at text (suc j) =
    if leb (j + utf8_need (get_or text j 0)) (length text) then length text else j

pub utf8_stable_prefix : List ℕ → ℕ
unfolding skip_continuations stable_at
utf8_stable_prefix text = stable_at text (skip_continuations text (length text))

abbrev pub is_special : ℕ → Bool
is_special tok = tok == token_eos || tok == token_bos || tok == token_streaming_pad

module _ {p : Pipeline} where
  pub build_prompt_ids : Stream p → Stream p
  build_prompt_ids s = elim s.decoder.prompt_ids [
    | [] ↦ record s { decoder = record (s.decoder) { prompt_ids = full_prompt } }
    | _ ∷ _ ↦ s
  ]

  -- The hashing of `count` new rows from row `start` on.
  pub capture_new_adapter_output_sha : Stream p → ℕ → ℕ → Bool × Stream p
  unfolding set_error
  capture_new_adapter_output_sha s start count =
      if not (s.diagnostics.capture_output_sha && s.decoder.incremental && s.has_ctx) || count == 0
      then (true, s)
      else if ltb (p.aemb_ring_frames s.device) count
          || not (start == s.diagnostics.adapter_sha_rows)
      then (
        false,
        set_error s Status.backend_error
            (Message.text "adapter SHA capture lost monotonic ring position"),
      )
      else elim (p.read_aemb_ring s.device start count) [
        | none ↦ (
          false,
          set_error s Status.backend_error (Message.text "adapter SHA diagnostic readback failed"),
        )
        | some rows ↦ (
          true,
          record s {
            diagnostics = record (s.diagnostics) {
              adapter_output_sha = p.sha_update s.diagnostics.adapter_output_sha rows;
              output_sha_d2h_bytes = s.diagnostics.output_sha_d2h_bytes + count * dec_dim * 4;
              adapter_sha_rows = s.diagnostics.adapter_sha_rows + count;
            };
          },
        )
      ]

  -- The first group that the decoder may still read.
  abbrev pub consumed_floor : Stream p → ℕ
  consumed_floor s = if s.decoder.decoder_prefill_done then s.decoder.decoder_position else 0

  abbrev pub committable : Stream p → ℕ
  committable s =
      min (p.enc_output_frames s.device / downsample_factor)
        (consumed_floor s + p.aemb_ring_frames s.device)

  backend_failure : Stream p → Message → Flow (Stream p)
  unfolding set_error
  backend_failure s msg = ret Status.backend_error (set_error s Status.backend_error msg)

  -- Stage 1 once there are groups to commit: those below `upto`.
  pub commit_groups : Stream p → ℕ → Flow (Stream p)
  unfolding backend_failure
  commit_groups s upto =
      let first = s.decoder.adapter_groups_committed in
      let (committed, device) = p.adapter_commit s.device first (upto - first) in
      let s1 = record s { device = device } in
      if not committed
      then backend_failure s1 (Message.text "incremental adapter commit failed")
      else let (captured, s2) = capture_new_adapter_output_sha s1 first (upto - first) in
        if not captured
        then ret Status.backend_error s2
        else go (record s2 {
          decoder = record (s2.decoder) {
            adapter_groups_committed = upto;
            adapter_commit_calls = s2.decoder.adapter_commit_calls + 1;
          };
        })

  pub adapter_stage : Stream p → Flow (Stream p)
  adapter_stage s =
      if ltb s.decoder.adapter_groups_committed (committable s)
      then commit_groups s (committable s)
      else go s

  pub run_prefill : Stream p → ℕ → Flow (Stream p)
  unfolding backend_failure
  run_prefill s prefix =
      let prompt = take prefix s.decoder.prompt_ids in
      let (filled, device) = p.decoder_prefill (p.decoder_begin s.device) prompt in
      let s1 = record s { device = device } in
      if not filled
      then backend_failure s1 (Message.text "incremental decoder prefill failed")
      else go (record s1 {
        decoder = record (s1.decoder) {
          decoder_prefill_done = true;
          decoder_position = prefix;
          decoder_prev_token = get_or s.decoder.prompt_ids prefix 0;
        };
      })

  -- Stage 2: the prompt up to its last token, once there are as many groups.
  pub prefill_stage : Stream p → Flow (Stream p)
  prefill_stage s =
      let prefix = length s.decoder.prompt_ids - 1 in
      if not s.decoder.decoder_prefill_done && leb prefix s.decoder.adapter_groups_committed
      then run_prefill s prefix
      else go s

  pub append_token_to_partial : Stream p → ℕ → Stream p
  append_token_to_partial s token =
      let partial = s.decoder.partial_text ++ p.token_piece token in
      record s {
        decoder = record (s.decoder) {
          partial_text = partial;
          partial_stable_bytes = utf8_stable_prefix partial;
        };
      }

  -- `commit_pending` behind the delivery of the token event.
  pub deliver : Stream p → ℕ → ℕ → Stream p
  deliver s tok position =
      let d = s.decoder in
      let s1 = record s { decoder = record d { pending = record (d.pending) { valid = false } } } in
      if tok == token_eos
      then record s1 { decoder = record (s1.decoder) { decoder_eos = true } }
      else let s2 = record s1 { decoder = record (s1.decoder) { tokens = d.tokens ++ tok ∷ [] } } in
        let s3 = emit_partial_text_event (append_token_to_partial s2 tok) position in
        record s3 {
          decoder = record (s3.decoder) {
            decoder_tokens_emitted = s3.decoder.decoder_tokens_emitted + 1;
            decoder_prev_token = tok;
            decoder_position = s3.decoder.decoder_position + 1;
          };
        }

  -- The lambda `commit_pending`: false if the token event did not fit the queue.
  pub commit_pending : Stream p → Bool × Stream p
  unfolding deliver
  commit_pending s =
      let t = s.decoder.pending in
      if not t.valid
      then (true, s)
      else let (emitted, s1) = emit_token_event s t.token t.position t.special in
        if emitted
        then (true, deliver s1 t.token t.position)
        else (false, record s1 { events = record (s1.events) { decoder_backpressured = true } })

  -- A token stashed by an earlier pass goes first.
  pub resume_stage : Stream p → Flow (Stream p)
  unfolding commit_pending
  resume_stage s =
      if s.decoder.decoder_prefill_done
      then (let (delivered, s1) = commit_pending s in
          if delivered
          then go (record s1 { events = record (s1.events) { decoder_backpressured = false } })
          else ret Status.limit_exceeded s1)
      else go s

  -- The condition of the `while` loop; `position <= last_pos` is `position < groups`.
  abbrev pub may_step : Stream p → ℕ → Bool
  may_step s groups =
      ltb s.decoder.decoder_position groups
      && not s.decoder.decoder_eos
      && (s.params.max_tokens == 0 || ltb s.decoder.decoder_tokens_emitted s.params.max_tokens)

  -- The token of a decoder step is stashed; `none` is a step that failed.
  pub stash : Stream p → Option ℕ → Flow (Stream p)
  unfolding backend_failure
  stash s none = backend_failure s (Message.text "incremental decoder step failed")
  stash s (some tok) = go (record s {
    decoder = record (s.decoder) {
      decoder_steps = s.decoder.decoder_steps + 1;
      token_id_d2h_bytes = s.decoder.token_id_d2h_bytes + 4;
      pending = record {
        valid = true;
        token = tok;
        position = s.decoder.decoder_position;
        special = is_special tok;
      };
    };
  })

  -- The body of the loop up to `commit_pending`.
  pub step_decoder : Stream p → Flow (Stream p)
  step_decoder s =
      let d = s.decoder in
      let (out, device) = p.decoder_step s.device d.decoder_prev_token d.decoder_position in
      stash (record s { device = device }) out

  pub deliver_step : Stream p → Flow (Stream p)
  unfolding commit_pending
  deliver_step s =
      let (delivered, s1) = commit_pending s in
      if delivered then go s1 else ret Status.limit_exceeded s1

  -- The `while` loop with the given number of rounds; `internal_error`, which no branch of the
  -- source returns here, says that they did not suffice.
  pub decode_loop : ℕ → ℕ → Stream p → Flow (Stream p)
  decode_loop zero groups s = elim (may_step s groups) [
    | true ↦ ret Status.internal_error s
    | false ↦ go s
  ]
  decode_loop (suc f) groups s = elim (may_step s groups) [
    | true ↦ step_decoder s >>= deliver_step >>= λ s1. decode_loop f groups s1
    | false ↦ go s
  ]

  -- Each round but the last moves to the next position, so the rounds up to `groups` suffice.
  pub decode_stage : Stream p → Flow (Stream p)
  decode_stage s =
      let groups = s.decoder.adapter_groups_committed in
      if s.decoder.decoder_prefill_done && not s.decoder.decoder_eos
      then decode_loop (groups - s.decoder.decoder_position) groups s
      else go s

  pub pump_flow : Stream p → Flow (Stream p)
  pump_flow s =
      if s.decoder.incremental && s.frontend.has_enc && s.has_ctx
      then adapter_stage (build_prompt_ids s) >>= prefill_stage >>= resume_stage >>= decode_stage
      else go s

  pub pump_incremental : Stream p → Status × Stream p
  pump_incremental s = returned (pump_flow s)
