-- ===== src/Stream/Events/Frame.antt =====
-- What event and decoder code leaves alone: all but the device, the decoder, the queue, the
-- diagnostics and the last error.
use voxtral_cpp.Prelude.{ℕ, ◌+◌, ◌≡◌, refl, ◌∙◌, Bool, arith}
use voxtral_cpp.Stream.State.{Status, Message, Pipeline, Stream, Lifecycle}
use voxtral_cpp.Stream.Events.{
  token_event, emit_token_event, partial_event, emit_partial_text_event,
}
use voxtral_cpp.Stream.Events.Order.{push_event_coalesced-Pushed}

-- The life cycle without the last error.
abbrev pub core : Lifecycle → Lifecycle
core l = record l { last_status = Status.ok; last_error = Message.empty }

pub record Kept {p : Pipeline} (s s' : Stream p) : Type 0 where
  pub has_ctx : s'.has_ctx ≡ s.has_ctx
  pub owns_context : s'.owns_context ≡ s.owns_context
  pub params : s'.params ≡ s.params
  pub frontend : s'.frontend ≡ s.frontend
  pub lifecycle : core s'.lifecycle ≡ core s.lifecycle
  pub max_events : s'.events.max_events ≡ s.events.max_events
  pub flush : s'.events.finalizing_flush ≡ s.events.finalizing_flush

module _ {p : Pipeline} where
  pub Kept-refl : (s : Stream p) → Kept s s
  Kept-refl s = record {
    has_ctx = refl;
    owns_context = refl;
    params = refl;
    frontend = refl;
    lifecycle = refl;
    max_events = refl;
    flush = refl;
  }

  pub Kept-trans : {s t u : Stream p} → Kept s t → Kept t u → Kept s u
  Kept-trans a b = record {
    has_ctx = b.has_ctx ∙ a.has_ctx;
    owns_context = b.owns_context ∙ a.owns_context;
    params = b.params ∙ a.params;
    frontend = b.frontend ∙ a.frontend;
    lifecycle = b.lifecycle ∙ a.lifecycle;
    max_events = b.max_events ∙ a.max_events;
    flush = b.flush ∙ a.flush;
  }

  module _ (s : Stream p) where
    pub emit_token_event-Kept :
        (token position : ℕ) (special : Bool) → Kept s (emit_token_event s token position special).1
    unfolding emit_token_event
    emit_token_event-Kept token position special =
        ground (arith, push_event_coalesced-Pushed s (token_event s token position special))

    pub emit_partial_text_event-Kept : (position : ℕ) → Kept s (emit_partial_text_event s position)
    unfolding emit_partial_text_event
    emit_partial_text_event-Kept position =
        let s1 = record s {
          decoder = record (s.decoder) { partial_revision = s.decoder.partial_revision + 1 };
        } in
        ground (arith, push_event_coalesced-Pushed s1 (partial_event s position))
