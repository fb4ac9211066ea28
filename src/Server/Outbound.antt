-- ===== src/Server/Outbound.antt =====
-- server/realtime-session.h and server/realtime-session.cpp: the bounded queue of outgoing messages
-- of a realtime session. Each operation holds the mutex, so the calls of the worker and of the
-- connection are a sequence. A worker that would wait for space gets `waiting`; the posting of
-- `maybe_write` is left to the sequence, and so is the shutdown that an error of a write brings.
pub mod Sizes
pub mod Bounds
use voxtral_cpp.Prelude.{
  ℕ, zero, suc, ◌+◌, ◌-◌, ◌*◌, Bool, true, false, not, ◌&&◌, ◌||◌, Option, none, some, List, [],
  ◌∷◌, ◌++◌, if◌then◌else◌, ltb, leb, length,
}

-- kMaxOutboundMessages and kMaxOutboundBytes, server/json-protocol.h
abbrev pub max_outbound_messages : ℕ
max_outbound_messages = 256

abbrev pub max_outbound_bytes : ℕ
max_outbound_bytes = 4 * 1024 * 1024

pub data OutboundKind : Type 0 where
  token partial mandatory : OutboundKind

abbrev pub is_partial : OutboundKind → Bool
is_partial OutboundKind.partial = true
is_partial _ = false

pub record OutboundMessage : Type 0 where
  pub payload : List ℕ
  pub kind : OutboundKind

-- The members that the queue is made of.
pub record Outbox : Type 0 where
  pub outbound : List OutboundMessage
  pub active_write_payload : Option (List ℕ)
  pub outbound_bytes : ℕ
  pub outbound_closed : Bool
  pub write_in_progress : Bool
  pub close_after_drain : Bool
  pub closed : Bool

pub data Enqueued : Type 0 where
  accepted refused waiting : Enqueued

-- `has_queue_capacity_locked`
unfoldable pub has_queue_capacity : Outbox → ℕ → Bool
has_queue_capacity o bytes =
    leb bytes max_outbound_bytes
    && ltb (length o.outbound + (if o.write_in_progress then 1 else 0)) max_outbound_messages
    && leb o.outbound_bytes (max_outbound_bytes - bytes)

-- Puts a message in the place of the last partial one; with it, the size of the one replaced.
pub replace_partial : List OutboundMessage → OutboundMessage → Option (ℕ × List OutboundMessage)
replace_partial [] new = none
replace_partial (m ∷ ms) new = elim (replace_partial ms new) [
  | some (n, ms') ↦ some (n, m ∷ ms')
  | none ↦ if is_partial m.kind then some (length m.payload, new ∷ ms) else none
]

-- Takes out the last partial message.
pub remove_partial : List OutboundMessage → Option (ℕ × List OutboundMessage)
remove_partial [] = none
remove_partial (m ∷ ms) = elim (remove_partial ms) [
  | some (n, ms') ↦ some (n, m ∷ ms')
  | none ↦ if is_partial m.kind then some (length m.payload, ms) else none
]

-- A replacement that was found, if it fits.
pub coalesce_found : Outbox → ℕ → Option (ℕ × List OutboundMessage) → Bool × Outbox
coalesce_found o size none = (false, o)
coalesce_found o size (some (n, ms)) =
    if leb size (max_outbound_bytes - (o.outbound_bytes - n))
    then (true, record o { outbound_bytes = o.outbound_bytes - n + size; outbound = ms })
    else (false, o)

-- `coalesce_partial_locked`
pub coalesce_partial : Outbox → OutboundMessage → Bool × Outbox
unfolding coalesce_found
coalesce_partial o message =
    if is_partial message.kind
    then coalesce_found o (length message.payload) (replace_partial o.outbound message)
    else (false, o)

pub push_back : Outbox → OutboundMessage → Outbox
push_back o message = record o {
  outbound_bytes = o.outbound_bytes + length message.payload;
  outbound = o.outbound ++ message ∷ [];
}

-- One round of the loop of `enqueue_from_worker`; `disconnected` says that the session's
-- cancellation has the reason `Disconnect`.
pub enqueue_from_worker : Outbox → OutboundMessage → Bool → Enqueued × Outbox
unfolding push_back
enqueue_from_worker o message disconnected =
    let (coalesced, o1) = coalesce_partial o message in
    if o.outbound_closed || disconnected
    then (Enqueued.refused, o)
    else if coalesced
    then (Enqueued.accepted, o1)
    else if has_queue_capacity o1 (length message.payload)
    then (Enqueued.accepted, push_back o1 message)
    else if ltb max_outbound_bytes (length message.payload)
    then (Enqueued.refused, o1)
    else (Enqueued.waiting, o1)

pub remove_found : Outbox → Option (ℕ × List OutboundMessage) → Option Outbox
remove_found o none = none
remove_found o (some (n, ms)) =
    some (record o { outbound_bytes = o.outbound_bytes - n; outbound = ms })

-- The `while` loop of `enqueue_from_io`, on as many rounds as there are messages.
pub make_room : ℕ → Outbox → ℕ → Outbox
unfolding remove_found
make_room zero o bytes = o
make_room (suc f) o bytes =
    if has_queue_capacity o bytes then o else elim (remove_found o (remove_partial o.outbound)) [
      | none ↦ o
      | some o1 ↦ make_room f o1 bytes
    ]

pub enqueue_from_io : Outbox → OutboundMessage → Enqueued × Outbox
unfolding push_back make_room
enqueue_from_io o message =
    let (coalesced, o1) = coalesce_partial o message in
    let o2 = make_room (length o1.outbound) o1 (length message.payload) in
    if o.outbound_closed
    then (Enqueued.refused, o)
    else if coalesced
    then (Enqueued.accepted, o1)
    else if has_queue_capacity o2 (length message.payload)
    then (Enqueued.accepted, push_back o2 message)
    else (Enqueued.refused, o2)

pub start_write : Outbox → List OutboundMessage → Outbox
start_write o [] = o
start_write o (m ∷ ms) = record o {
  write_in_progress = true;
  active_write_payload = some m.payload;
  outbound = ms;
}

-- The closing of a drained connection is left out.
pub maybe_write : Outbox → Outbox
unfolding start_write
maybe_write o = if o.closed || o.write_in_progress then o else start_write o o.outbound

pub end_write : Option (List ℕ) → Outbox → Outbox
end_write none o = record o { write_in_progress = false }
end_write (some payload) o = record o {
  outbound_bytes = o.outbound_bytes - length payload;
  active_write_payload = none;
  write_in_progress = false;
}

pub on_write : Outbox → Bool → Outbox
unfolding end_write maybe_write
on_write o error =
    let o1 = end_write o.active_write_payload o in if error then o1 else maybe_write o1

-- What the loop of `finish_session` takes off the byte count.
pub take_off : List OutboundMessage → ℕ → ℕ
take_off [] bytes = bytes
take_off (m ∷ ms) bytes = take_off ms (bytes - length m.payload)

-- The part of it that is about the queue; a session that is closed already stays as it is.
pub finish_session : Outbox → Outbox
unfolding take_off
finish_session o = if o.closed then o else record o {
  closed = true;
  outbound_closed = true;
  outbound_bytes = take_off o.outbound o.outbound_bytes;
  outbound = [];
}
