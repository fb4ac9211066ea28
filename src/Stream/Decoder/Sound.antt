-- ===== src/Stream/Decoder/Sound.antt =====
-- Delivering a stashed token keeps the books and the order of the queue.
use voxtral_cpp.Prelude.{
  ℕ, ◌≤◌, ◌≡◌, inl, inr, Bool, true, false, not, [], ◌∷◌, ◌++◌, arith, ◌==◌, length, Bool-cases,
  if-cases,
}
use voxtral_cpp.Stream.State.{Pipeline, Stream, token_eos}
use voxtral_cpp.Stream.Events.{bound, emit_token_event}
use voxtral_cpp.Stream.Events.Emit.{
  IsOrdered, emit_token_event-decoder, emit_token_event-IsOrdered, emit_token_event-refused,
  emit_partial_text_event-IsOrdered,
}
use voxtral_cpp.Stream.Decoder.{append_token_to_partial, deliver, commit_pending}
use voxtral_cpp.Stream.Decoder.Books.{Books, delivered-Books, commit_pending-decoder}
use voxtral_cpp.Stream.Decoder.Frame.{commit_pending-Kept}

module _ {p : Pipeline} where
  abbrev pub IsBooked : Stream p → Type 0
  IsBooked s = Books p s.params.max_tokens s.decoder

  pub record IsSound (s : Stream p) : Type 0 where
    pub books : IsBooked s
    pub ordered : IsOrdered s

  deliver-IsOrdered :
      (s : Stream p) (tok position : ℕ) → IsOrdered s → IsOrdered (deliver s tok position)
  unfolding deliver append_token_to_partial
  deliver-IsOrdered s tok position o = elim (Bool-cases (tok == token_eos)) [
    | inl e ↦ rw e (record { fits = o.fits; numbered = o.numbered })
    | inr e ↦
        let s2 =
          append_token_to_partial
            (record s {
              decoder = record (s.decoder) {
                pending = record (s.decoder.pending) { valid = false };
                tokens = s.decoder.tokens ++ tok ∷ [];
              };
            })
            tok in
        let o2 =
          emit_partial_text_event-IsOrdered s2 position
            (record { fits = o.fits; numbered = o.numbered }) in
        rw e (record { fits = o2.fits; numbered = o2.numbered })
  ]

  module _ (s : Stream p) where
    commit_pending-IsBooked : IsBooked s → IsBooked (commit_pending s).1
    commit_pending-IsBooked b =
        let P = Books p s.params.max_tokens in
        let v = s.decoder.pending.valid in
        rw ((commit_pending-Kept s).params, commit_pending-decoder s)
          (if-cases P (not v) (λ _. b)
            (λ n.
              if-cases P (commit_pending s).0
                (λ _. delivered-Books s.params.max_tokens s.decoder b (ground arith)) (λ _. b)))

    commit_pending-IsOrdered : IsOrdered s → IsOrdered (commit_pending s).1
    unfolding commit_pending
    commit_pending-IsOrdered o =
        let t = s.decoder.pending in
        let r = emit_token_event s t.token t.position t.special in
        let o1 = emit_token_event-IsOrdered s t.token t.position t.special o in
        let P : Bool × Stream p → Type 0 = λ q. IsOrdered q.1 in
        if-cases P (not t.valid) (λ _. o)
          (λ _.
            if-cases P r.0 (λ _. deliver-IsOrdered r.1 t.token t.position o1)
              (λ _. record { fits = o1.fits; numbered = o1.numbered }))

    pub commit_pending-IsSound : IsSound s → IsSound (commit_pending s).1
    commit_pending-IsSound h = record {
      books = commit_pending-IsBooked h.books;
      ordered = commit_pending-IsOrdered h.ordered;
    }

    pub commit_pending-refused :
        (commit_pending s).0 ≡ false
        → let s' = (commit_pending s).1 in
          (s'.decoder.pending.valid ≡ true)
          × (s'.events.decoder_backpressured ≡ true)
          × (bound s'.events ≤ length s'.events.queue)
    unfolding commit_pending
    commit_pending-refused n =
        let t = s.decoder.pending in
        ground (
          arith,
          emit_token_event-refused s t.token t.position t.special,
          emit_token_event-decoder s t.token t.position t.special,
        )

  pub IsOrdered-of :
      (s s' : Stream p)
      → s'.events ≡ s.events
      → s'.decoder.token_sequence ≡ s.decoder.token_sequence
      → IsOrdered s
      → IsOrdered s'
  IsOrdered-of s s' e d o = record { fits = rw e o.fits; numbered = rw (e, d) o.numbered }
