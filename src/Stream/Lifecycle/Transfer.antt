-- ===== src/Stream/Lifecycle/Transfer.antt =====
-- What carries the decoder's books and the order of the queue from one stream to another.
use voxtral_cpp.Prelude.{ℕ, ◌≤◌, ◌≡◌, ap, refl, false, arith, length, append-nil}
use voxtral_cpp.Stream.State.{Status, Message, Event, DecoderState, Pipeline, Stream}
use voxtral_cpp.Stream.Events.{bound, is_token, push_event, emit_error, emit_final_and_completed}
use voxtral_cpp.Stream.Events.Order.{push_event-Pushed}
use voxtral_cpp.Stream.Events.Sequence.{sequences, sequences-Pushed}
use voxtral_cpp.Stream.Events.Emit.{IsOrdered}
use voxtral_cpp.Stream.Decoder.Books.{Books}
use voxtral_cpp.Stream.Decoder.Sound.{IsSound}
use voxtral_cpp.Stream.Frontend.Frame.{books_of, Untouched}

module _ {p : Pipeline} where
  Books-books_of :
      (max_tokens : ℕ) (d : DecoderState) → Books p max_tokens d → Books p max_tokens (books_of d)
  Books-books_of max_tokens d b = record {
    history = b.history;
    snapshot = b.snapshot;
    position = b.position;
    steps = b.steps;
    issued = b.issued;
    idle = b.idle;
    limit = b.limit;
    stash = b.stash;
    behind = b.behind;
    prompt = b.prompt;
  }

  books_of-Books :
      (max_tokens : ℕ) (d : DecoderState) → Books p max_tokens (books_of d) → Books p max_tokens d
  books_of-Books max_tokens d b = record {
    history = b.history;
    snapshot = b.snapshot;
    position = b.position;
    steps = b.steps;
    issued = b.issued;
    idle = b.idle;
    limit = b.limit;
    stash = b.stash;
    behind = b.behind;
    prompt = b.prompt;
  }

  pub IsOrdered-same :
      (s s' : Stream p)
      → s'.decoder.token_sequence ≡ s.decoder.token_sequence
      → sequences s'.events.queue ≡ sequences s.events.queue
      → length s'.events.queue ≤ bound s'.events
      → IsOrdered s
      → IsOrdered s'
  IsOrdered-same s s' d q f o = record { fits = f; numbered = rw (d, q) o.numbered }

  pub IsSound-same :
      (s s' : Stream p)
      → s'.params ≡ s.params
      → books_of s'.decoder ≡ books_of s.decoder
      → sequences s'.events.queue ≡ sequences s.events.queue
      → length s'.events.queue ≤ bound s'.events
      → IsSound s
      → IsSound s'
  IsSound-same s s' a d q f h = record {
    books =
        books_of-Books s'.params.max_tokens s'.decoder
          (rw (a, d) (Books-books_of s.params.max_tokens s.decoder h.books));
    ordered = IsOrdered-same s s' (ap (λ (x : DecoderState). x.token_sequence) d) q f h.ordered;
  }

  pub IsSound-Untouched : (s s' : Stream p) → Untouched s s' → IsSound s → IsSound s'
  IsSound-Untouched s s' u h =
      IsSound-same s s' u.params u.decoder (rw u.events) (rw u.events h.ordered.fits) h

  module _ (s : Stream p) (ev : Event) where
    push_event-sequences :
        is_token ev.kind ≡ false
        → sequences (push_event s ev).1.events.queue ≡ sequences s.events.queue
    push_event-sequences n =
        let h = push_event-Pushed s ev in
        ground
          (arith, sequences-Pushed s ev (push_event s ev) h, append-nil (sequences s.events.queue))

    push_event-fits :
        IsOrdered s → length (push_event s ev).1.events.queue ≤ bound (push_event s ev).1.events
    push_event-fits o = let h = push_event-Pushed s ev in rw (h.same_bound) (h.fits o.fits)

    -- An event that is no token leaves the numbers alone.
    pub push_event-IsSound : is_token ev.kind ≡ false → IsSound s → IsSound (push_event s ev).1
    push_event-IsSound n h =
        let e = (push_event-Pushed s ev).elsewhere in
        IsSound-same s (push_event s ev).1 (ap (λ (x : Stream p). x.params) e)
          (ap (λ (x : Stream p). books_of x.decoder) e) (push_event-sequences n)
          (push_event-fits h.ordered) h

    pub push_event-IsOrdered :
        is_token ev.kind ≡ false → IsOrdered s → IsOrdered (push_event s ev).1
    push_event-IsOrdered n o =
        let e = (push_event-Pushed s ev).elsewhere in
        IsOrdered-same s (push_event s ev).1 (ap (λ (x : Stream p). x.decoder.token_sequence) e)
          (push_event-sequences n) (push_event-fits o) o

  pub emit_error-IsSound :
      (s : Stream p) (st : Status) (msg : Message) → IsSound s → IsSound (emit_error s st msg)
  unfolding emit_error
  emit_error-IsSound s st msg h = push_event-IsSound s _ refl h

  pub emit_final_and_completed-IsOrdered :
      (s : Stream p) → IsOrdered s → IsOrdered (emit_final_and_completed s)
  unfolding emit_final_and_completed
  emit_final_and_completed-IsOrdered s o =
      push_event-IsOrdered _ _ refl (push_event-IsOrdered s _ refl o)
