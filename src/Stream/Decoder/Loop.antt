-- ===== src/Stream/Decoder/Loop.antt =====
-- The decoder loop keeps the books and the order of the queue, it ends within the given rounds, and
-- its status says in which state it left the decoder.
use voxtral_cpp.Prelude.{
  ℕ, zero, suc, ◌+◌, ◌≤◌, ◌≡◌, refl, ◌⊎◌, inl, inr, true, false, Option, none, some, arith, length,
  Bool-cases, if-cases,
}
use voxtral_cpp.Stream.State.{Status, Pipeline, Stream, Flow, go, ret, ◌>>=◌, set_error}
use voxtral_cpp.Stream.Events.{bound}
use voxtral_cpp.Stream.Decoder.{
  backend_failure, commit_pending, may_step, stash, step_decoder, deliver_step, decode_loop,
}
use voxtral_cpp.Stream.Decoder.Books.{commit_pending-decoder}
use voxtral_cpp.Stream.Decoder.Sound.{
  IsSound, commit_pending-IsSound, commit_pending-refused, IsOrdered-of,
}

module _ {p : Pipeline} where
  -- The decoder has no stashed token, and the groups below `groups`.
  abbrev pub Idle : ℕ → Stream p → Type 0
  Idle groups s =
      (s.decoder.pending.valid ≡ false)
      × (s.decoder.decoder_prefill_done ≡ true)
      × (s.decoder.adapter_groups_committed ≡ groups)

  -- Why a pass stopped: a failure of the device, or a stashed token that the full queue refused.
  abbrev pub Stopped : Status → Stream p → Type 0
  Stopped st s =
      (st ≡ Status.backend_error)
      ⊎ (st ≡ Status.limit_exceeded)
        × (s.decoder.pending.valid ≡ true)
        × (s.events.decoder_backpressured ≡ true)
        × (bound s.events ≤ length s.events.queue)

  abbrev pub Sound : (Stream p → Type 0) → Flow (Stream p) → Type 0
  Sound Q (go s) = IsSound s × Q s
  Sound Q (ret st s) = IsSound s × Stopped st s

  pub Sound-bind :
      (P Q : Stream p → Type 0) (m : Flow (Stream p)) (f : Stream p → Flow (Stream p))
      → Sound P m
      → ((s : Stream p) → IsSound s → P s → Sound Q (f s))
      → Sound Q (m >>= f)
  Sound-bind P Q (go s) f h k = k s h.0 h.1
  Sound-bind P Q (ret st s) f h k = h

  abbrev Stepped : ℕ → Stream p → Stream p → Type 0
  Stepped groups s t =
      (t.decoder.pending.valid ≡ true)
      × (t.decoder.decoder_prefill_done ≡ true)
      × (t.decoder.adapter_groups_committed ≡ groups)
      × (t.decoder.decoder_position ≡ s.decoder.decoder_position)

  stash-Sound :
      (groups : ℕ) (s : Stream p) (out : Option ℕ)
      → IsSound s
      → Idle groups s
      → may_step s groups ≡ true
      → Sound (Stepped groups s) (stash s out)
  unfolding stash backend_failure set_error
  stash-Sound groups s none h i m = (
    record { books = ground (arith, h.books); ordered = IsOrdered-of s _ refl refl h.ordered },
    inl refl,
  )
  stash-Sound groups s (some tok) h i m = (
    record { books = ground (arith, h.books); ordered = IsOrdered-of s _ refl refl h.ordered },
    (refl, i.1, i.2, refl),
  )

  step_decoder-Sound :
      (groups : ℕ) (s : Stream p)
      → IsSound s
      → Idle groups s
      → may_step s groups ≡ true
      → Sound (Stepped groups s) (step_decoder s)
  unfolding step_decoder
  step_decoder-Sound groups s h i m =
      let r = p.decoder_step s.device s.decoder.decoder_prev_token s.decoder.decoder_position in
      stash-Sound groups (record s { device = r.1 }) r.0
        (record { books = h.books; ordered = IsOrdered-of s _ refl refl h.ordered }) i m

  -- A round that goes on ended the stream or moved to the next position.
  abbrev Moved : ℕ → ℕ → Stream p → Type 0
  Moved groups position t =
      Idle groups t × ((t.decoder.decoder_eos ≡ true) ⊎ (t.decoder.decoder_position ≡ suc position))

  commit_pending-moves :
      (groups : ℕ) (s t : Stream p)
      → Stepped groups s t
      → (commit_pending t).0 ≡ true
      → Moved groups s.decoder.decoder_position (commit_pending t).1
  commit_pending-moves groups s t i y = ground (arith, commit_pending-decoder t)

  deliver_step-Sound :
      (groups : ℕ) (s t : Stream p)
      → IsSound t
      → Stepped groups s t
      → Sound (Moved groups s.decoder.decoder_position) (deliver_step t)
  unfolding deliver_step
  deliver_step-Sound groups s t h i =
      let h' = commit_pending-IsSound t h in
      if-cases (Sound (Moved groups s.decoder.decoder_position)) (commit_pending t).0
        (λ y. (h', commit_pending-moves groups s t i y)) (λ n. (h', stopped n))
    where
      stopped : (commit_pending t).0 ≡ false → Stopped Status.limit_exceeded (commit_pending t).1
      stopped n = let c = commit_pending-refused t n in inr (refl, c.0, c.1, c.2)

  -- Where a pass that ran to its end leaves the decoder.
  abbrev pub Drained : ℕ → Stream p → Type 0
  Drained groups s = Idle groups s × (may_step s groups ≡ false)

  pub decode_loop-Sound :
      (f groups : ℕ) (s : Stream p)
      → IsSound s
      → Idle groups s
      → (s.decoder.decoder_eos ≡ true) ⊎ (groups ≤ s.decoder.decoder_position + f)
      → Sound (Drained groups) (decode_loop f groups s)
  unfolding decode_loop
  decode_loop-Sound zero groups s h i r = elim (Bool-cases (may_step s groups)) [
    | inl e ↦ absurd (ground arith)
    | inr e ↦ rw (e, decode_loop) (h, (i, e))
  ]
  decode_loop-Sound (suc f) groups s h i r = elim (Bool-cases (may_step s groups)) [
    | inl e ↦
        rw (e, decode_loop)
          (Sound-bind (Moved groups s.decoder.decoder_position) (Drained groups)
            (step_decoder s >>= deliver_step) (decode_loop f groups)
            (Sound-bind (Stepped groups s) (Moved groups s.decoder.decoder_position)
              (step_decoder s) deliver_step (step_decoder-Sound groups s h i e)
              (deliver_step-Sound groups s))
            (λ t h' m. decode_loop-Sound f groups t h' m.0 (left e t m.1)))
    | inr e ↦ rw (e, decode_loop) (h, (i, e))
  ]
    where
      left :
          may_step s groups ≡ true
          → (t : Stream p)
          → (t.decoder.decoder_eos ≡ true)
            ⊎ (t.decoder.decoder_position ≡ suc s.decoder.decoder_position)
          → (t.decoder.decoder_eos ≡ true) ⊎ (groups ≤ t.decoder.decoder_position + f)
      left e t (inl o) = inl o
      left e t (inr m) = inr (ground arith)
