-- ===== src/Stream/Events/Sequence.antt =====
-- The sequence numbers of the token events in the queue.
use voxtral_cpp.Prelude.{
  ℕ, suc, ◌+◌, ◌≡◌, ◌≤◌, refl, Bool, true, false, List, [], ◌∷◌, ◌++◌, append-nil, arith,
  if◌then◌else◌, length, length-append,
}
use voxtral_cpp.Stream.State.{Event, Pipeline, Stream}
use voxtral_cpp.Stream.Events.{
  is_token, bound, push_event_coalesced, token_event, emit_token_event, partial_event,
  emit_partial_text_event, poll_event,
}
use voxtral_cpp.Stream.Events.Order.{mandatory, Pushed, push_event_coalesced-Pushed}

abbrev pub sequences : List Event → List ℕ
sequences [] = []
sequences (e ∷ es) = if is_token e.kind then e.sequence ∷ sequences es else sequences es

-- The numbers k, k + 1, and so on.
abbrev pub Run : ℕ → List ℕ → Type 0
Run k [] = Unit {0}
Run k (x ∷ xs) = (x ≡ k) × Run (suc k) xs

-- The tokens in the queue are the last ones issued, with no gap.
abbrev pub Consecutive : ℕ → List ℕ → Type 0
Consecutive n xs = (k : ℕ) × Run (suc k) xs × (k + length xs ≡ n)

abbrev pub InSequence : ℕ → List Event → Type 0
InSequence n q = Consecutive n (sequences q)

sequences-append : (xs ys : List Event) → sequences (xs ++ ys) ≡ sequences xs ++ sequences ys
sequences-append [] ys = refl
sequences-append (x ∷ xs) ys = ground (arith, sequences-append xs ys)

sequences-mandatory : (xs : List Event) → sequences (mandatory xs) ≡ sequences xs
sequences-mandatory [] = refl
sequences-mandatory (x ∷ xs) = ground (arith, sequences-mandatory xs)

Run-append : (k x : ℕ) (xs : List ℕ) → Run k xs → x ≡ k + length xs → Run k (xs ++ x ∷ [])
Run-append k x [] r e = (omega arith, tt)
Run-append k x (y ∷ ys) r e = (r.0, Run-append (suc k) x ys r.1 (omega arith))

module _ {p : Pipeline} (s : Stream p) (ev : Event) where
  pub sequences-Pushed :
      (r : Bool × Stream p)
      → Pushed s ev r
      → sequences r.1.events.queue
        ≡ sequences s.events.queue ++ (if r.0 then sequences (ev ∷ []) else [])
  sequences-Pushed r h = ground (
    arith,
    sequences-mandatory r.1.events.queue,
    sequences-mandatory s.events.queue,
    sequences-mandatory (ev ∷ []),
    sequences-append (mandatory s.events.queue) (mandatory (ev ∷ [])),
    append-nil (mandatory s.events.queue),
    append-nil (sequences s.events.queue),
  )

-- A token takes the next number, or none.
Consecutive-issue :
    (n : ℕ) (xs : List ℕ) (issued : Bool)
    → Consecutive n xs
    → Consecutive (if issued then n + 1 else n) (xs ++ (if issued then (n + 1) ∷ [] else []))
Consecutive-issue n xs true (k, run, e) = (
  k,
  Run-append (suc k) (n + 1) xs run (omega arith),
  omega (arith, length-append xs ((n + 1) ∷ [])),
)
Consecutive-issue n xs false h = rw append-nil h

Consecutive-tail : (n x : ℕ) (xs : List ℕ) → Consecutive n (x ∷ xs) → Consecutive n xs
Consecutive-tail n x xs (k, run, e) = (suc k, run.1, omega arith)

InSequence-tail : (n : ℕ) (e : Event) (es : List Event) → InSequence n (e ∷ es) → InSequence n es
InSequence-tail n e es =
    elim (is_token e.kind)
      as (λ b.
        Consecutive n (if b then e.sequence ∷ sequences es else sequences es)
        → Consecutive n (sequences es)) [
          | true ↦ Consecutive-tail n e.sequence (sequences es)
          | false ↦ λ h. h
        ]

module _ {p : Pipeline} (s : Stream p) where
  -- What the two emitters do to the sequence numbers.
  emit_token_event-issues :
      (token position : ℕ) (special : Bool)
      → let (issued, s') = emit_token_event s token position special in
        (s'.decoder.token_sequence
          ≡ (if issued then s.decoder.token_sequence + 1 else s.decoder.token_sequence))
        × (sequences s'.events.queue
            ≡ sequences s.events.queue
              ++ (if issued then (s.decoder.token_sequence + 1) ∷ [] else []))
  unfolding emit_token_event token_event
  emit_token_event-issues token position special =
      let ev = token_event s token position special in
      let r = push_event_coalesced s ev in
      let h = push_event_coalesced-Pushed s ev in ground (arith, h, sequences-Pushed s ev r h)

  -- If the tokens in the queue are numbered with no gap up to the last number issued, so they are
  -- after another token was emitted, accepted or refused.
  pub emit_token_event-InSequence :
      (token position : ℕ) (special : Bool)
      → InSequence s.decoder.token_sequence s.events.queue
      → let s' = (emit_token_event s token position special).1 in
        InSequence s'.decoder.token_sequence s'.events.queue
  emit_token_event-InSequence token position special h =
      let i = emit_token_event-issues token position special in
      rw (i.0, i.1)
        (Consecutive-issue s.decoder.token_sequence (sequences s.events.queue)
          (emit_token_event s token position special).0 h)

  pub emit_partial_text_event-InSequence :
      (position : ℕ)
      → InSequence s.decoder.token_sequence s.events.queue
      → let s' = emit_partial_text_event s position in
        InSequence s'.decoder.token_sequence s'.events.queue
  unfolding emit_partial_text_event partial_event
  emit_partial_text_event-InSequence position h =
      let s1 = record s {
        decoder = record (s.decoder) { partial_revision = s.decoder.partial_revision + 1 };
      } in
      let ev = partial_event s position in
      let r = push_event_coalesced s1 ev in
      let h' = push_event_coalesced-Pushed s1 ev in
      let q : sequences r.1.events.queue ≡ sequences s.events.queue =
        ground (arith, sequences-Pushed s1 ev r h', append-nil (sequences s.events.queue)) in
      let d : r.1.decoder.token_sequence ≡ s.decoder.token_sequence = ground (arith, h') in
      rw (q, d) h

  pub poll_event-InSequence :
      InSequence s.decoder.token_sequence s.events.queue
      → let s' = (poll_event s).1 in InSequence s'.decoder.token_sequence s'.events.queue
  unfolding poll_event
  poll_event-InSequence h = go s.events.queue refl
    where
      go :
          (q : List Event)
          → s.events.queue ≡ q
          → let s' = (poll_event s).1 in InSequence s'.decoder.token_sequence s'.events.queue
      go [] e = rw (e, poll_event) h
      go (ev ∷ es) e =
          rw (e, poll_event) (InSequence-tail s.decoder.token_sequence ev es (rw e at h))

  pub poll_event-elsewhere :
      let s' = (poll_event s).1 in
      (length s'.events.queue ≤ length s.events.queue)
      × (s'.decoder ≡ s.decoder)
      × (s'.params ≡ s.params)
      × (s'.lifecycle ≡ s.lifecycle)
      × (bound s'.events ≡ bound s.events)
  unfolding poll_event
  poll_event-elsewhere = ground arith
