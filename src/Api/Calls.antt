-- ===== src/Api/Calls.antt =====
-- src/voxtral-c-api.cpp, the calls on a stream. Handles are not null, and no call throws: the branches
-- for a null handle and for an exception only return a status, or end like `fail_stream`.
pub mod Polling
pub mod Reports
pub mod Well
use voxtral_cpp.Prelude.{
  ℕ, zero, suc, ◌+◌, ◌-◌, Bool, true, false, not, ◌&&◌, ◌||◌, min, Option, none, some, List, [],
  ◌∷◌, ◌++◌, if◌then◌else◌, ltb, leb, ◌==◌, length, take,
}
use voxtral_cpp.Stream.State.{
  Status, State, EventType, Message, Event, Lifecycle, Pipeline, Stream, set_error,
}
use voxtral_cpp.Stream.Events.{poll_event, emit_error}
use voxtral_cpp.Stream.Lifecycle.Feed.{feed_pcm16}
use voxtral_cpp.Stream.Lifecycle.Finish.{finish}
use voxtral_cpp.Stream.Lifecycle.Control.{FeedStatus, last_feed_status, reset, cancel}
use voxtral_cpp.Api.Utf8.{utf8_prefix_at_most}
use voxtral_cpp.Api.Params.{VersionedHeader, read_header}

-- `voxtral_status`
pub data PublicStatus : Type 0 where
  ok invalid_argument invalid_state out_of_memory queue_full not_ready cancelled : PublicStatus
  unsupported_audio_format model_error backend_error internal_error buffer_too_small : PublicStatus

-- `voxtral_stream_state`
pub data PublicState : Type 0 where
  created active finishing completed cancelled error : PublicState

-- `voxtral_event_type` without `none`, which no event has.
pub data PublicEventType : Type 0 where
  token partial_text final_text error completed : PublicEventType

unfoldable pub map_status : Status → PublicStatus
map_status Status.ok = PublicStatus.ok
map_status Status.invalid_argument = PublicStatus.invalid_argument
map_status Status.invalid_state = PublicStatus.invalid_state
map_status Status.busy = PublicStatus.invalid_state
map_status Status.unsupported_audio_format = PublicStatus.unsupported_audio_format
map_status Status.cancelled = PublicStatus.cancelled
map_status Status.backend_error = PublicStatus.backend_error
map_status Status.out_of_memory = PublicStatus.out_of_memory
map_status Status.limit_exceeded = PublicStatus.queue_full
map_status Status.internal_error = PublicStatus.internal_error

unfoldable pub map_state : State → PublicState
map_state State.created = PublicState.created
map_state State.running = PublicState.active
map_state State.finishing = PublicState.finishing
map_state State.completed = PublicState.completed
map_state State.cancelled = PublicState.cancelled
map_state State.failed = PublicState.error

unfoldable pub event_type : EventType → PublicEventType
event_type EventType.token = PublicEventType.token
event_type EventType.partial_text = PublicEventType.partial_text
event_type EventType.final_text = PublicEventType.final_text
event_type EventType.error = PublicEventType.error
event_type EventType.cancelled = PublicEventType.error
event_type EventType.completed = PublicEventType.completed

-- The error code of an event is always one of the enumeration.
unfoldable pub event_status : Event → PublicStatus
unfolding map_status
event_status e = elim e.kind [
  | EventType.cancelled ↦ PublicStatus.cancelled
  | EventType.error ↦ map_status e.error_code
  | _ ↦ PublicStatus.ok
]

abbrev pub event_text_capacity : ℕ
event_text_capacity = 4096

-- `offsetof(voxtral_event, text) + VOXTRAL_EVENT_TEXT_CAPACITY`, the size of the whole structure
abbrev pub event_struct_size : ℕ
event_struct_size = 64 + event_text_capacity

-- `copy_event_text`: the bytes before the terminator, and whether the text is truncated.
pub copy_event_text : List ℕ → ℕ → List ℕ × Bool
unfolding utf8_prefix_at_most
copy_event_text source stable_bytes =
    let available = min stable_bytes (length source) in
    let copy_bytes = utf8_prefix_at_most source (min available (event_text_capacity - 1)) in
    (take copy_bytes source, ltb copy_bytes available)

-- `voxtral_event`, without the audio times.
pub record PublicEvent : Type 0 where
  pub kind : PublicEventType
  pub sequence : ℕ
  -- `none` for -1
  pub token_id : Option ℕ
  pub status : PublicStatus
  pub special_token : Bool
  pub text_stable : Bool
  pub text_truncated : Bool
  pub text : List ℕ

abbrev pub is_empty : List ℕ → Bool
is_empty [] = true
is_empty (b ∷ bs) = false

-- "cancelled"
abbrev pub cancelled_text : List ℕ
cancelled_text = 99 ∷ 97 ∷ 110 ∷ 99 ∷ 101 ∷ 108 ∷ 108 ∷ 101 ∷ 100 ∷ []

-- The bytes that a message prints as.
module _ (printed : Message → List ℕ) where
  -- `source.text`: that of an error is its message.
  abbrev pub source_text : Event → List ℕ
  source_text e = elim e.kind [
    | EventType.error ↦ printed e.message
    | EventType.cancelled ↦ if is_empty e.text then cancelled_text else e.text
    | _ ↦ e.text
  ]

  abbrev pub stable_bytes : Event → ℕ
  stable_bytes e = elim e.kind [
    | EventType.partial_text ↦ e.stable_prefix_bytes
    | _ ↦ length (source_text e)
  ]

  unfoldable pub public_event : Event → ℕ → PublicEvent
  unfolding copy_event_text event_type event_status
  public_event e sequence =
      let (text, truncated) = copy_event_text (source_text e) (stable_bytes e) in
      record {
        kind = event_type e.kind;
        sequence = sequence;
        token_id = elim e.kind [ EventType.token ↦ some e.token | _ ↦ none ];
        status = event_status e;
        special_token = e.special;
        text_stable = elim e.kind [
          | EventType.partial_text ↦ true
          | EventType.final_text ↦ true
          | _ ↦ false
        ];
        text_truncated = truncated;
        text = text;
      }

-- The memory that a client gives can hold an event.
abbrev pub holds_event : Option VersionedHeader → Bool
holds_event none = false
holds_event (some h) = leb event_struct_size h.struct_size

-- What a poll gives: the status, the event that is written, and the stream.
abbrev pub Polled : Pipeline → Type 0
Polled p = PublicStatus × Option PublicEvent × Stream p

-- The failures that end a stream.
abbrev pub is_fatal : Status → Bool
is_fatal Status.backend_error = true
is_fatal Status.out_of_memory = true
is_fatal Status.internal_error = true
is_fatal _ = false

abbrev pub is_busy_state : State → Bool
is_busy_state State.running = true
is_busy_state State.finishing = true
is_busy_state _ = false

module _ {p : Pipeline} where
  -- `fail_stream_noexcept`
  unfoldable pub fail_stream : Stream p → Status → Message → Stream p
  unfolding emit_error set_error
  fail_stream s status message =
      let s1 = record s { events = record (s.events) { finalizing_flush = true } } in
      let s2 = set_error s1 status message in
      let s3 = emit_error s2 status s2.lifecycle.last_error in
      record s3 { lifecycle = record (s3.lifecycle) { state = State.failed } }

  unfoldable pub map_feed_status : Stream p → Status → PublicStatus
  unfolding map_status last_feed_status
  map_feed_status s Status.limit_exceeded = elim (last_feed_status s) [
    | FeedStatus.queue_full ↦ PublicStatus.queue_full
    | _ ↦ PublicStatus.invalid_argument
  ]
  map_feed_status s status = map_status status

  -- What follows the inner call: the status, `*samples_consumed`, and the stream.
  pub report_feed : ℕ → Status × Stream p → PublicStatus × ℕ × Stream p
  unfolding map_feed_status fail_stream
  report_feed before (result, s) =
      let after = s.lifecycle.total_samples_received in
      let consumed = if leb before after then after - before else 0 in
      let s' = if is_fatal result then fail_stream s result s.lifecycle.last_error else s in
      (map_feed_status s' result, consumed, s')

  -- `voxtral_stream_feed_pcm16`
  unfoldable pub stream_feed_pcm16 : Stream p → Option (List ℕ) → ℕ → PublicStatus × ℕ × Stream p
  unfolding report_feed
  stream_feed_pcm16 s samples count =
      report_feed s.lifecycle.total_samples_received (feed_pcm16 s samples count)

  unfoldable pub deliver_event : (Message → List ℕ) → Option Event × Stream p → Polled p
  unfolding public_event
  deliver_event printed (none, s) = (PublicStatus.not_ready, none, s)
  deliver_event printed (some e, s) =
      let sequence = s.events.public_poll_sequence + 1 in
      (
        PublicStatus.ok,
        some (public_event printed e sequence),
        record s { events = record (s.events) { public_poll_sequence = sequence } },
      )

  -- `voxtral_stream_poll_event`, with the client's memory.
  unfoldable pub stream_poll_event : (Message → List ℕ) → Stream p → Option (List ℕ) → Polled p
  unfolding read_header poll_event deliver_event
  stream_poll_event printed s out =
      if not (holds_event (read_header out))
      then (PublicStatus.invalid_argument, none, s)
      else deliver_event printed (poll_event s)

  -- `voxtral_stream_finish`, `voxtral_stream_cancel`
  unfoldable pub stream_finish : Stream p → PublicStatus × Stream p
  unfolding map_status
  stream_finish s = let (st, s') = finish s in (map_status st, s')

  unfoldable pub stream_cancel : Stream p → PublicStatus × Stream p
  unfolding map_status
  stream_cancel s = let (st, s') = cancel s in (map_status st, s')

  -- `voxtral_stream_reset`
  unfoldable pub stream_reset : Stream p → PublicStatus × Stream p
  unfolding map_status set_error
  stream_reset s =
      if is_busy_state s.lifecycle.state
      then (
        PublicStatus.invalid_state,
        set_error s Status.invalid_state
            (Message.text "reset requires a created or terminal stream"),
      )
      else (let (st, s') = reset s in (map_status st, s'))

  -- `voxtral_stream_get_state`
  abbrev pub stream_get_state : Stream p → PublicState
  stream_get_state s = map_state s.lifecycle.state

  -- `voxtral_stream_get_final_text`: the status, `*required`, and what is written to the buffer.
  -- `null` is whether the buffer is null; no text has 2^64 - 1 bytes.
  pub stream_get_final_text : Stream p → Bool → ℕ → PublicStatus × ℕ × List ℕ
  unfolding map_state
  stream_get_final_text s null capacity =
      let text = s.decoder.transcript in
      let needed = length text + 1 in
      if null && not (capacity == 0)
      then (PublicStatus.invalid_argument, 0, [])
      else elim (stream_get_state s) [
        | PublicState.completed ↦
            if null && capacity == 0
            then (PublicStatus.ok, needed, [])
            else if null || ltb capacity needed
            then (
              PublicStatus.buffer_too_small,
              needed,
              if not null && ltb 0 capacity then 0 ∷ [] else [],
            )
            else (PublicStatus.ok, needed, text ++ (0 ∷ []))
        | PublicState.cancelled ↦ (PublicStatus.invalid_state, 0, [])
        | PublicState.error ↦ (PublicStatus.invalid_state, 0, [])
        | _ ↦ (PublicStatus.not_ready, 0, [])
      ]
