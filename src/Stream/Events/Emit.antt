-- ===== src/Stream/Events/Emit.antt =====
-- What the emitters of the decoder change: the queue, the last error and their own counters.
use voxtral_cpp.Prelude.{ℕ, ◌+◌, ◌≤◌, ◌≡◌, ◌⊎◌, ap, Bool, true, arith, if◌then◌else◌, length}
use voxtral_cpp.Stream.State.{Pipeline, Stream}
use voxtral_cpp.Stream.Events.{
  bound, push_event_coalesced, token_event, emit_token_event, partial_event,
  emit_partial_text_event,
}
use voxtral_cpp.Stream.Events.Order.{Pushed, push_event_coalesced-Pushed}
use voxtral_cpp.Stream.Events.Sequence.{
  InSequence, emit_token_event-InSequence, emit_partial_text_event-InSequence,
}

-- The queue is within its bound, and its tokens are numbered up to the last number issued.
pub record IsOrdered {p : Pipeline} (s : Stream p) : Type 0 where
  pub fits : length s.events.queue ≤ bound s.events
  pub numbered : InSequence s.decoder.token_sequence s.events.queue

module _ {p : Pipeline} (s : Stream p) where
  abbrev revised : Stream p
  revised = record s {
    decoder = record (s.decoder) { partial_revision = s.decoder.partial_revision + 1 };
  }

  partial-Pushed :
      (position : ℕ)
      → Pushed revised
          (partial_event s position)
          (push_event_coalesced revised (partial_event s position))
  partial-Pushed position = push_event_coalesced-Pushed revised (partial_event s position)

  module _ (token position : ℕ) (special : Bool) where
    pub emit_token_event-elsewhere :
        let (issued, s') = emit_token_event s token position special in
        s' ≡ record s {
          lifecycle = record (s.lifecycle) {
            last_status = s'.lifecycle.last_status;
            last_error = s'.lifecycle.last_error;
          };
          decoder = record (s.decoder) {
            token_sequence =
                if issued then s.decoder.token_sequence + 1 else s.decoder.token_sequence;
          };
          events = s'.events;
        }
    unfolding emit_token_event
    emit_token_event-elsewhere =
        ground (arith, push_event_coalesced-Pushed s (token_event s token position special))

    pub emit_token_event-decoder :
        let (issued, s') = emit_token_event s token position special in
        s'.decoder ≡ record (s.decoder) {
          token_sequence =
              if issued then s.decoder.token_sequence + 1 else s.decoder.token_sequence;
        }
    emit_token_event-decoder = ap (λ (r : Stream p). r.decoder) emit_token_event-elsewhere

    -- Only a full queue refuses a token.
    pub emit_token_event-refused :
        let (issued, s') = emit_token_event s token position special in
        (issued ≡ true) ⊎ (bound s'.events ≤ length s'.events.queue)
    unfolding emit_token_event
    emit_token_event-refused =
        ground (arith, push_event_coalesced-Pushed s (token_event s token position special))

    emit_token_event-fits :
        IsOrdered s
        → let s' = (emit_token_event s token position special).1 in
          length s'.events.queue ≤ bound s'.events
    unfolding emit_token_event
    emit_token_event-fits o =
        ground (arith, push_event_coalesced-Pushed s (token_event s token position special))

    pub emit_token_event-IsOrdered :
        IsOrdered s → IsOrdered (emit_token_event s token position special).1
    emit_token_event-IsOrdered o = record {
      fits = emit_token_event-fits o;
      numbered = emit_token_event-InSequence s token position special o.numbered;
    }

  module _ (position : ℕ) where
    pub emit_partial_text_event-elsewhere :
        let s' = emit_partial_text_event s position in
        s' ≡ record s {
          lifecycle = record (s.lifecycle) {
            last_status = s'.lifecycle.last_status;
            last_error = s'.lifecycle.last_error;
          };
          decoder = record (s.decoder) { partial_revision = s.decoder.partial_revision + 1 };
          events = s'.events;
        }
    unfolding emit_partial_text_event
    emit_partial_text_event-elsewhere = (partial-Pushed position).elsewhere

    pub emit_partial_text_event-decoder :
        (emit_partial_text_event s position).decoder
        ≡ record (s.decoder) { partial_revision = s.decoder.partial_revision + 1 }
    emit_partial_text_event-decoder =
        ap (λ (r : Stream p). r.decoder) emit_partial_text_event-elsewhere

    emit_partial_text_event-fits :
        IsOrdered s
        → let s' = emit_partial_text_event s position in length s'.events.queue ≤ bound s'.events
    unfolding emit_partial_text_event
    emit_partial_text_event-fits o = ground (arith, partial-Pushed position)

    pub emit_partial_text_event-IsOrdered :
        IsOrdered s → IsOrdered (emit_partial_text_event s position)
    emit_partial_text_event-IsOrdered o = record {
      fits = emit_partial_text_event-fits o;
      numbered = emit_partial_text_event-InSequence s position o.numbered;
    }
