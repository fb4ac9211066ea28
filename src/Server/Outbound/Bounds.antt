-- ===== src/Server/Outbound/Bounds.antt =====
-- The outgoing queue keeps within its two bounds, and counts its bytes right.
use voxtral_cpp.Prelude.{
  ℕ, zero, suc, ◌+◌, ◌-◌, ◌≤◌, ◌≡◌, ◌∙◌, ap, refl, sym, Bool, true, false, ◌||◌, Option, none, some,
  List, [], ◌∷◌, arith, if◌then◌else◌, if-cases, ltb, leb, length, length-append,
}
use voxtral_cpp.Server.Outbound.{
  OutboundMessage, Outbox, Enqueued, is_partial, max_outbound_messages, max_outbound_bytes,
  has_queue_capacity, remove_partial, coalesce_found, coalesce_partial, push_back,
  enqueue_from_worker, remove_found, make_room, enqueue_from_io, start_write, maybe_write,
  end_write, on_write, take_off, finish_session,
}
use voxtral_cpp.Server.Outbound.Sizes.{
  total, total-append, Replaced, replace_partial-Replaced, Removed, remove_partial-Removed,
}

abbrev active_size : Option (List ℕ) → ℕ
active_size none = 0
active_size (some payload) = length payload

abbrev is_writing : Option (List ℕ) → Bool
is_writing none = false
is_writing (some payload) = true

pub record IsOutbox (o : Outbox) : Type 0 where
  pub counted : o.outbound_bytes ≡ total o.outbound + active_size o.active_write_payload
  pub writing : o.write_in_progress ≡ is_writing o.active_write_payload
  pub small : o.outbound_bytes ≤ max_outbound_bytes
  pub few : length o.outbound + (if o.write_in_progress then 1 else 0) ≤ max_outbound_messages

coalesce_found-IsOutbox :
    (o : Outbox) (size : ℕ) (r : Option (ℕ × List OutboundMessage))
    → IsOutbox o
    → Replaced o.outbound size r
    → IsOutbox (coalesce_found o size r).1
unfolding coalesce_found
coalesce_found-IsOutbox o size none h e = h
coalesce_found-IsOutbox o size (some (n, ms)) h e =
    let c = h.counted in
    let s = h.small in
    let f = h.few in
    if-cases (λ (r : Bool × Outbox). IsOutbox r.1)
      (leb size (max_outbound_bytes - (o.outbound_bytes - n)))
      (λ t. record {
        counted = omega (arith, c, e);
        writing = h.writing;
        small = ground (arith, t, s);
        few = ground (arith, f, e);
      })
      (λ _. h)

coalesce_partial-IsOutbox :
    (o : Outbox) (message : OutboundMessage) → IsOutbox o → IsOutbox (coalesce_partial o message).1
unfolding coalesce_partial
coalesce_partial-IsOutbox o message h =
    if-cases (λ (r : Bool × Outbox). IsOutbox r.1) (is_partial message.kind)
      (λ _.
        coalesce_found-IsOutbox o (length message.payload) _ h
          (replace_partial-Replaced o.outbound message))
      (λ _. h)

push_back-IsOutbox :
    (o : Outbox) (message : OutboundMessage)
    → IsOutbox o
    → has_queue_capacity o (length message.payload) ≡ true
    → IsOutbox (push_back o message)
unfolding push_back has_queue_capacity
push_back-IsOutbox o message h room =
    let c = h.counted in
    let f = h.few in
    let t = total-append o.outbound message in
    let l = length-append o.outbound (message ∷ []) in
    record {
      counted = omega (arith, c, t);
      writing = h.writing;
      small = ground (arith, room);
      few = ground (arith, room, l);
    }

make_room-IsOutbox : (f : ℕ) (o : Outbox) (bytes : ℕ) → IsOutbox o → IsOutbox (make_room f o bytes)
unfolding make_room remove_found
make_room-IsOutbox zero o bytes h = h
make_room-IsOutbox (suc f) o bytes h =
    if-cases IsOutbox (has_queue_capacity o bytes) (λ _. h)
      (λ _.
        go (remove_partial o.outbound) (remove_partial-Removed o.outbound)
          (λ o1. make_room-IsOutbox f o1 bytes))
  where
    go :
        (r : Option (ℕ × List OutboundMessage))
        → Removed o.outbound r
        → ((o1 : Outbox) → IsOutbox o1 → IsOutbox (make_room f o1 bytes))
        → IsOutbox (elim (remove_found o r) [ none ↦ o | some o1 ↦ make_room f o1 bytes ])
    go none e ih = h
    go (some (n, ms)) e ih =
        ih (record o { outbound_bytes = o.outbound_bytes - n; outbound = ms })
          (record {
            counted = omega (arith, h.counted, e);
            writing = h.writing;
            small = omega (arith, h.small);
            few = ground (arith, h.few, e);
          })

enqueue_from_worker-IsOutbox :
    (o : Outbox) (message : OutboundMessage) (disconnected : Bool)
    → IsOutbox o
    → IsOutbox (enqueue_from_worker o message disconnected).1
unfolding enqueue_from_worker
enqueue_from_worker-IsOutbox o message disconnected h =
    let P : Enqueued × Outbox → Type 0 = λ r. IsOutbox r.1 in
    let c = coalesce_partial o message in
    let h1 = coalesce_partial-IsOutbox o message h in
    if-cases P (o.outbound_closed || disconnected) (λ _. h)
      (λ _.
        if-cases P c.0 (λ _. h1)
          (λ _.
            if-cases P (has_queue_capacity c.1 (length message.payload))
              (λ t. push_back-IsOutbox c.1 message h1 t)
              (λ _.
                if-cases P (ltb max_outbound_bytes (length message.payload)) (λ _. h1) (λ _. h1))))

enqueue_from_io-IsOutbox :
    (o : Outbox) (message : OutboundMessage) → IsOutbox o → IsOutbox (enqueue_from_io o message).1
unfolding enqueue_from_io
enqueue_from_io-IsOutbox o message h =
    let P : Enqueued × Outbox → Type 0 = λ r. IsOutbox r.1 in
    let c = coalesce_partial o message in
    let h1 = coalesce_partial-IsOutbox o message h in
    let o2 = make_room (length c.1.outbound) c.1 (length message.payload) in
    let h2 = make_room-IsOutbox (length c.1.outbound) c.1 (length message.payload) h1 in
    if-cases P o.outbound_closed (λ _. h)
      (λ _.
        if-cases P c.0 (λ _. h1)
          (λ _.
            if-cases P (has_queue_capacity o2 (length message.payload))
              (λ t. push_back-IsOutbox o2 message h2 t) (λ _. h2)))

start_write-IsOutbox :
    (o : Outbox) (ms : List OutboundMessage)
    → o.outbound ≡ ms
    → o.write_in_progress ≡ false
    → IsOutbox o
    → IsOutbox (start_write o ms)
unfolding start_write
start_write-IsOutbox o [] e n h = h
start_write-IsOutbox o (m ∷ ms) e n h =
    let idle : active_size o.active_write_payload ≡ 0 =
      none_active o.active_write_payload (sym h.writing ∙ n) in
    let t : total o.outbound ≡ length m.payload + total ms = ap total e in
    let l : length o.outbound ≡ suc (length ms) = ap length e in
    record {
      counted = omega (arith, h.counted, idle, t);
      writing = refl;
      small = h.small;
      few = ground (arith, h.few, l);
    }
  where
    none_active : (a : Option (List ℕ)) → is_writing a ≡ false → active_size a ≡ 0
    none_active none e = refl
    none_active (some payload) e = absurd (ground (arith, e))

maybe_write-IsOutbox : (o : Outbox) → IsOutbox o → IsOutbox (maybe_write o)
unfolding maybe_write
maybe_write-IsOutbox o h =
    if-cases IsOutbox (o.closed || o.write_in_progress) (λ _. h)
      (λ f. start_write-IsOutbox o o.outbound refl (ground (arith, f)) h)

end_write-IsOutbox :
    (o : Outbox) (a : Option (List ℕ))
    → o.active_write_payload ≡ a
    → IsOutbox o
    → IsOutbox (end_write a o)
unfolding end_write
end_write-IsOutbox o none e h = record {
  counted = h.counted;
  writing = sym (ap is_writing e);
  small = h.small;
  few = ground (arith, h.few);
}
end_write-IsOutbox o (some payload) e h =
    let s : active_size o.active_write_payload ≡ length payload = ap active_size e in
    record {
      counted = omega (arith, h.counted, s);
      writing = refl;
      small = omega (arith, h.small);
      few = ground (arith, h.few);
    }

on_write-IsOutbox : (o : Outbox) (error : Bool) → IsOutbox o → IsOutbox (on_write o error)
unfolding on_write
on_write-IsOutbox o error h =
    let h1 = end_write-IsOutbox o o.active_write_payload refl h in
    if-cases IsOutbox error (λ _. h1)
      (λ _. maybe_write-IsOutbox (end_write o.active_write_payload o) h1)

take_off_lem : (ms : List OutboundMessage) (bytes : ℕ) → take_off ms bytes ≡ bytes - total ms
unfolding take_off
take_off_lem [] bytes = omega arith
take_off_lem (m ∷ ms) bytes = omega (arith, take_off_lem ms (bytes - length m.payload))

finish_session-IsOutbox : (o : Outbox) → IsOutbox o → IsOutbox (finish_session o)
unfolding finish_session
finish_session-IsOutbox o h =
    let t = take_off_lem o.outbound o.outbound_bytes in
    if-cases IsOutbox o.closed (λ _. h)
      (λ _. record {
        counted = omega (arith, t, h.counted);
        writing = h.writing;
        small = omega (arith, t, h.small);
        few = ground (arith, h.few);
      })

-- What the worker and the connection do with the queue. A flag of `close` is set by other parts of
-- the session at any time.
pub data Action : Type 0 where
  from_worker : OutboundMessage → Bool → Action
  from_io : OutboundMessage → Action
  write : Action
  written : Bool → Action
  close : Bool → Bool → Action
  finish : Action

pub act : Outbox → Action → Outbox
act o (Action.from_worker message disconnected) = (enqueue_from_worker o message disconnected).1
act o (Action.from_io message) = (enqueue_from_io o message).1
act o Action.write = maybe_write o
act o (Action.written error) = on_write o error
act o (Action.close outbound_closed closed) = record o {
  outbound_closed = outbound_closed;
  closed = closed;
}
act o Action.finish = finish_session o

abbrev pub act_all : Outbox → List Action → Outbox
act_all o [] = o
act_all o (a ∷ as') = act_all (act o a) as'

act-IsOutbox : (a : Action) (o : Outbox) → IsOutbox o → IsOutbox (act o a)
unfolding act
act-IsOutbox (Action.from_worker message disconnected) o h =
    enqueue_from_worker-IsOutbox o message disconnected h
act-IsOutbox (Action.from_io message) o h = enqueue_from_io-IsOutbox o message h
act-IsOutbox Action.write o h = maybe_write-IsOutbox o h
act-IsOutbox (Action.written error) o h = on_write-IsOutbox o error h
act-IsOutbox (Action.close outbound_closed closed) o h = record {
  counted = h.counted;
  writing = h.writing;
  small = h.small;
  few = h.few;
}
act-IsOutbox Action.finish o h = finish_session-IsOutbox o h

-- From a queue where this holds, such as an empty one, whatever the worker and the connection do, and
-- the end of the session too, in any order, it goes on to hold: the byte count is that of the queued
-- messages and the one being written, a write is in progress just while there is such a message,
-- and the queue with it keeps within 4 MiB and 256 messages.
pub act_all-IsOutbox : (as' : List Action) (o : Outbox) → IsOutbox o → IsOutbox (act_all o as')
act_all-IsOutbox [] o h = h
act_all-IsOutbox (a ∷ as') o h = act_all-IsOutbox as' (act o a) (act-IsOutbox a o h)
