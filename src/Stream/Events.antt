-- ===== src/Stream/Events.antt =====
-- src/voxtral-stream-events.cpp: the bounded event queue.
pub mod Order
pub mod Placed
pub mod Sequence
pub mod Emit
pub mod Frame
use voxtral_cpp.Prelude.{
  ℕ, ◌+◌, ◌-◌, ◌*◌, max, Bool, true, false, ◌&&◌, Option, none, some, List, [], ◌∷◌, ◌++◌,
  if◌then◌else◌, ltb, leb, length,
}
use voxtral_cpp.Stream.State.{
  Status, EventType, Message, Event, event_of, EventState, Pipeline, Stream, set_error,
  terminal_event_headroom, raw_audio_length_per_tok, stream_left_pad,
}

abbrev pub is_partial : EventType → Bool
is_partial EventType.partial_text = true
is_partial _ = false

abbrev pub is_token : EventType → Bool
is_token EventType.token = true
is_token _ = false

-- How many events the queue may hold.
abbrev pub bound : EventState → ℕ
bound q = q.max_events + (if q.finalizing_flush then terminal_event_headroom else 0)

-- `note_enqueued`, after the push of an event of that type
unfoldable pub note_enqueued : EventState → EventType → EventState
note_enqueued q k = record q {
  events_emitted = q.events_emitted + 1;
  token_events = if is_token k then q.token_events + 1 else q.token_events;
  partial_events = if is_partial k then q.partial_events + 1 else q.partial_events;
  event_queue_high_watermark = max q.event_queue_high_watermark (length q.queue);
}

unfoldable pub enqueue : EventState → Event → EventState
unfolding note_enqueued
enqueue q ev = note_enqueued (record q { queue = q.queue ++ ev ∷ [] }) ev.kind

-- Takes out the first partial text; `none` if there is none.
pub erase_partial : List Event → Option (List Event)
erase_partial [] = none
erase_partial (e ∷ es) =
    let rest = erase_partial es in
    if is_partial e.kind then some es else elim rest [ none ↦ none | some es' ↦ some (e ∷ es') ]

-- Puts an event in the place of the last partial text; `none` if there is none.
pub replace_partial : List Event → Event → Option (List Event)
replace_partial [] ev = none
replace_partial (e ∷ es) ev = elim (replace_partial es ev) [
  | some es' ↦ some (e ∷ es')
  | none ↦ if is_partial e.kind then some (ev ∷ es) else none
]

coalesced : EventState → List Event → EventState
coalesced q es = record q { queue = es; partial_events_coalesced = q.partial_events_coalesced + 1 }

-- The real-audio end sample of a decoder position, 0 inside the left pad.
unfoldable pub audio_end_sample_for : ℕ → ℕ
audio_end_sample_for position = (position + 1) * raw_audio_length_per_tok - stream_left_pad

module _ {p : Pipeline} where
  unfoldable pub push_event : Stream p → Event → Bool × Stream p
  unfolding enqueue set_error
  push_event s ev =
      if leb (bound s.events) (length s.events.queue)
      then (
        false,
        set_error
            (record s {
              events = record (s.events) {
                events_overflowed = true;
                event_queue_overflow_attempts = s.events.event_queue_overflow_attempts + 1;
              };
            })
            Status.limit_exceeded (Message.event_queue_full (bound s.events) ev.kind),
      )
      else (true, record s { events = enqueue s.events ev })

  -- The part of `push_event_coalesced` below the aggressive mode.
  push_bounded : Stream p → Event → Bool × Stream p
  unfolding enqueue coalesced push_event
  push_bounded s ev =
      if ltb (length s.events.queue) (bound s.events)
      then (true, record s { events = enqueue s.events ev })
      else if is_partial ev.kind
      then elim (replace_partial s.events.queue ev) [
        | some es ↦ (true, record s { events = coalesced s.events es })
        | none ↦ (false, record s { events = coalesced s.events s.events.queue })
      ]
      else push_event s ev

  unfoldable pub push_event_coalesced : Stream p → Event → Bool × Stream p
  unfolding push_bounded coalesced
  push_event_coalesced s ev =
      if is_partial ev.kind && s.events.aggressive_partial_coalescing
      then elim (erase_partial s.events.queue) [
        | some es ↦ (true, record s { events = coalesced s.events (es ++ ev ∷ []) })
        | none ↦ push_bounded s ev
      ]
      else push_bounded s ev

  unfoldable pub emit_final_and_completed : Stream p → Stream p
  emit_final_and_completed s =
      let (_, s') = push_event s final_event in let (_, s'') = push_event s' completed_event in s''
    where
      final_event : Event
      final_event = record (event_of EventType.final_text) {
        text = s.decoder.transcript;
        t_audio = s.lifecycle.total_samples_received;
      }

      completed_event : Event
      completed_event = record (event_of EventType.completed) {
        t_audio = s.lifecycle.total_samples_received;
      }

  unfoldable pub emit_error : Stream p → Status → Message → Stream p
  emit_error s status msg =
      (push_event s (record (event_of EventType.error) {
        message = msg;
        error_code = status;
        t_audio = s.lifecycle.total_samples_received;
      })).1

  unfoldable pub token_event : Stream p → ℕ → ℕ → Bool → Event
  token_event s token position special = record (event_of EventType.token) {
    token = token;
    text = p.token_piece token;
    special = special;
    sequence = s.decoder.token_sequence + 1;
    decoder_position = position;
    audio_end_sample = audio_end_sample_for position;
    t_audio = audio_end_sample_for position;
  }

  -- The sequence number is taken only if the event was queued.
  unfoldable pub emit_token_event : Stream p → ℕ → ℕ → Bool → Bool × Stream p
  emit_token_event s token position special =
      let (pushed, s') = push_event_coalesced s (token_event s token position special) in
      if pushed
      then (
        true,
        record s' {
          decoder = record (s'.decoder) { token_sequence = s'.decoder.token_sequence + 1 };
        },
      )
      else (false, s')

  unfoldable pub partial_event : Stream p → ℕ → Event
  partial_event s position = record (event_of EventType.partial_text) {
    text = s.decoder.partial_text;
    revision = s.decoder.partial_revision + 1;
    stable_prefix_bytes = s.decoder.partial_stable_bytes;
    audio_end_sample = audio_end_sample_for position;
    t_audio = audio_end_sample_for position;
  }

  unfoldable pub emit_partial_text_event : Stream p → ℕ → Stream p
  emit_partial_text_event s position =
      (push_event_coalesced
        (record s {
          decoder = record (s.decoder) { partial_revision = s.decoder.partial_revision + 1 };
        })
        (partial_event s position)).1

  -- `voxtral_stream_poll_event_internal`
  unfoldable pub poll_event : Stream p → Option Event × Stream p
  poll_event s = elim s.events.queue [
    | [] ↦ (none, s)
    | e ∷ es ↦ (some e, record s { events = record (s.events) { queue = es } })
  ]
