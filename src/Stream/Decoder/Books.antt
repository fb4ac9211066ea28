-- ===== src/Stream/Decoder/Books.antt =====
-- What every pass of the scheduler keeps: the token history, the transcript, the counters, the
-- stashed token and the audio-embedding ring agree with one another.
use voxtral_cpp.Prelude.{
  ℕ, ◌+◌, ◌≤◌, ◌<◌, ◌≡◌, ap, ◌⊎◌, inl, inr, true, false, not, List, [], ◌∷◌, ◌++◌, append-nil,
  append_assoc, arith, if◌then◌else◌, length, length-append, Bool-cases, ◌==◌,
}
use voxtral_cpp.Stream.State.{DecoderState, token_eos, Pipeline, Stream}
use voxtral_cpp.Stream.Events.{emit_token_event}
use voxtral_cpp.Stream.Events.Emit.{emit_token_event-decoder, emit_partial_text_event-decoder}
use voxtral_cpp.Stream.Decoder.{
  utf8_stable_prefix, full_prompt, append_token_to_partial, deliver, commit_pending,
}

module _ (p : Pipeline) where
  -- The bytes of a list of tokens.
  abbrev pub pieces : List ℕ → List ℕ
  pieces [] = []
  pieces (t ∷ ts) = p.token_piece t ++ pieces ts

  pub pieces-append : (ts : List ℕ) (t : ℕ) → pieces (ts ++ t ∷ []) ≡ pieces ts ++ p.token_piece t
  pieces-append [] t = append-nil (p.token_piece t)
  pieces-append (x ∷ ts) t =
      rw (pieces-append ts t, append_assoc (p.token_piece x) (pieces ts) (p.token_piece t))

-- The decoder's books, under a limit on the tokens (0 for none). The prompt has 39 tokens, so the
-- first position behind it is 38.
pub record Books (p : Pipeline) (max_tokens : ℕ) (d : DecoderState) : Type 0 where
  pub history : length d.tokens ≡ d.decoder_tokens_emitted
  pub snapshot : d.partial_text ≡ pieces p d.tokens
  pub position :
      d.decoder_position ≡ (if d.decoder_prefill_done then 38 + d.decoder_tokens_emitted else 0)
  pub steps :
      d.decoder_steps
      ≡ d.decoder_tokens_emitted
        + (if d.decoder_eos then 1 else 0)
        + (if d.pending.valid then 1 else 0)
  pub issued : d.token_sequence ≡ d.decoder_tokens_emitted + (if d.decoder_eos then 1 else 0)
  pub idle : (d.decoder_prefill_done ≡ true) ⊎ (d.decoder_steps ≡ 0)
  pub limit :
      (max_tokens ≡ 0)
      ⊎ (d.decoder_tokens_emitted + (if d.pending.valid then 1 else 0) ≤ max_tokens)
  pub stash :
      (d.pending.valid ≡ false)
      ⊎ (d.pending.position ≡ d.decoder_position)
        × (d.decoder_position < d.adapter_groups_committed)
        × (d.decoder_eos ≡ false)
  pub behind : (d.decoder_prefill_done ≡ false) ⊎ (d.decoder_position ≤ d.adapter_groups_committed)
  pub prompt : (d.prompt_ids ≡ full_prompt) ⊎ (d.prompt_ids ≡ []) × (d.decoder_prefill_done ≡ false)

-- The decoder behind `commit_pending`, as a function of the decoder before it.
module _ (p : Pipeline) (d : DecoderState) where
  abbrev pub delivered : ℕ → DecoderState
  delivered tok =
      let d1 = record d { pending = record (d.pending) { valid = false } } in
      if tok == token_eos then record d1 { decoder_eos = true } else record d1 {
        tokens = d.tokens ++ tok ∷ [];
        partial_text = d.partial_text ++ p.token_piece tok;
        partial_stable_bytes = utf8_stable_prefix (d.partial_text ++ p.token_piece tok);
        partial_revision = d.partial_revision + 1;
        decoder_tokens_emitted = d.decoder_tokens_emitted + 1;
        decoder_prev_token = tok;
        decoder_position = d.decoder_position + 1;
      }

deliver-decoder :
    {p : Pipeline} (s : Stream p) (tok position : ℕ)
    → (deliver s tok position).decoder ≡ delivered p s.decoder tok
unfolding deliver append_token_to_partial
deliver-decoder s tok position = elim (Bool-cases (tok == token_eos)) [
  | inl e ↦ rw e
  | inr e ↦ rw e (
      ap
        (λ (d : DecoderState). record d {
          decoder_tokens_emitted = d.decoder_tokens_emitted + 1;
          decoder_prev_token = tok;
          decoder_position = d.decoder_position + 1;
        })
        (emit_partial_text_event-decoder _ position))
]

module _ {p : Pipeline} (s : Stream p) where
  pub commit_pending-decoder :
      let issued = (commit_pending s).0 in
      (commit_pending s).1.decoder ≡ (
        if not s.decoder.pending.valid
        then s.decoder
        else if issued
        then delivered p
            (record (s.decoder) { token_sequence = s.decoder.token_sequence + 1 })
            s.decoder.pending.token
        else s.decoder)
  unfolding commit_pending
  commit_pending-decoder =
      let t = s.decoder.pending in
      let r = emit_token_event s t.token t.position t.special in
      ground (
        arith,
        emit_token_event-decoder s t.token t.position t.special,
        deliver-decoder r.1 t.token t.position,
      )

module _ {p : Pipeline} (max_tokens : ℕ) (d : DecoderState) (b : Books p max_tokens d) where
  pub delivered-Books :
      d.pending.valid ≡ true
      → Books p max_tokens
          (delivered p (record d { token_sequence = d.token_sequence + 1 }) d.pending.token)
  delivered-Books v = ground (
    arith,
    length-append d.tokens (d.pending.token ∷ []),
    pieces-append p d.tokens d.pending.token,
  )
