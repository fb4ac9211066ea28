-- ===== src/Stream/Events/Order.antt =====
-- The order of the event queue: what a push does to the events that may not be dropped, and to
-- the length of the queue.
use voxtral_cpp.Prelude.{
  ℕ, suc, ◌+◌, ◌≤◌, ◌≡◌, refl, ◌⊎◌, inl, inr, Bool, true, Option, none, some, List, [], ◌∷◌, ◌++◌,
  append-nil, arith, if◌then◌else◌, length, length-append, Option-cases,
}
use voxtral_cpp.Stream.State.{Event, Pipeline, Stream}
use voxtral_cpp.Stream.Events.{
  is_partial, bound, note_enqueued, enqueue, erase_partial, replace_partial, coalesced, push_event,
  push_bounded, push_event_coalesced,
}

-- The events that are never replaced: all but the partial texts.
abbrev pub mandatory : List Event → List Event
mandatory [] = []
mandatory (e ∷ es) = if is_partial e.kind then mandatory es else e ∷ mandatory es

abbrev pub partials : List Event → ℕ
partials [] = 0
partials (e ∷ es) = if is_partial e.kind then suc (partials es) else partials es

pub mandatory-append : (xs ys : List Event) → mandatory (xs ++ ys) ≡ mandatory xs ++ mandatory ys
mandatory-append [] ys = refl
mandatory-append (x ∷ xs) ys = ground (arith, mandatory-append xs ys)

partials-append : (xs ys : List Event) → partials (xs ++ ys) ≡ partials xs + partials ys
partials-append [] ys = omega arith
partials-append (x ∷ xs) ys = ground (arith, partials-append xs ys)

-- What taking out a partial text, or putting another in its place, does to a list.
abbrev Erased : List Event → Option (List Event) → Type 0
Erased es none = partials es ≡ 0
Erased es (some es') =
    (mandatory es' ≡ mandatory es)
    × (suc (length es') ≡ length es)
    × (suc (partials es') ≡ partials es)

erase_partial-Erased : (es : List Event) → Erased es (erase_partial es)
unfolding erase_partial
erase_partial-Erased [] = refl
erase_partial-Erased (e ∷ es) = go (erase_partial es) (erase_partial-Erased es)
  where
    go :
        (o : Option (List Event))
        → Erased es o
        → Erased (e ∷ es) (
            if is_partial e.kind
            then some es
            else elim o [ none ↦ none | some es' ↦ some (e ∷ es') ])
    go none h = ground arith
    go (some es') h = ground arith

abbrev Replaced : List Event → Option (List Event) → Type 0
Replaced es none = partials es ≡ 0
Replaced es (some es') =
    (mandatory es' ≡ mandatory es) × (length es' ≡ length es) × (partials es' ≡ partials es)

replace_partial-Replaced :
    (es : List Event) (ev : Event) → is_partial ev.kind ≡ true → Replaced es (replace_partial es ev)
unfolding replace_partial
replace_partial-Replaced [] ev p = refl
replace_partial-Replaced (e ∷ es) ev p =
    go (replace_partial es ev) (replace_partial-Replaced es ev p)
  where
    go :
        (o : Option (List Event))
        → Replaced es o
        → Replaced (e ∷ es) (elim o [
          | some es' ↦ some (e ∷ es')
          | none ↦ if is_partial e.kind then some (ev ∷ es) else none
        ])
    go none h = ground arith
    go (some es') h = ground arith

module _ {p : Pipeline} (s : Stream p) (ev : Event) where
  -- What a push did: `r` is its result and the stream after it.
  pub record Pushed (r : Bool × Stream p) : Type 0 where
    pub order :
        mandatory r.1.events.queue
        ≡ mandatory s.events.queue ++ (if r.0 then mandatory (ev ∷ []) else [])
    pub fits : length s.events.queue ≤ bound s.events → length r.1.events.queue ≤ bound s.events
    pub same_bound : bound r.1.events ≡ bound s.events
    pub refused :
        (r.0 ≡ true)
        ⊎ (r.1.events.queue ≡ s.events.queue) × (bound s.events ≤ length s.events.queue)
    pub same_max : r.1.events.max_events ≡ s.events.max_events
    pub same_flush : r.1.events.finalizing_flush ≡ s.events.finalizing_flush
    pub elsewhere : r.1 ≡ record s {
      lifecycle = record (s.lifecycle) {
        last_status = r.1.lifecycle.last_status;
        last_error = r.1.lifecycle.last_error;
      };
      events = r.1.events;
    }
    pub no_drop : r.1.events.events_dropped ≡ s.events.events_dropped

  pub push_event-Pushed : Pushed (push_event s ev)
  unfolding push_event enqueue note_enqueued
  push_event-Pushed = ground (
    arith,
    mandatory-append s.events.queue (ev ∷ []),
    append-nil (mandatory s.events.queue),
    length-append s.events.queue (ev ∷ []),
  )

  push_bounded-Pushed : Pushed (push_bounded s ev)
  unfolding push_bounded coalesced enqueue note_enqueued
  push_bounded-Pushed = ground (
    arith,
    replace_partial-Replaced s.events.queue ev,
    push_event-Pushed,
    mandatory-append s.events.queue (ev ∷ []),
    append-nil (mandatory s.events.queue),
    length-append s.events.queue (ev ∷ []),
  )

  -- Pushing any event: those that are not partial texts keep their order, with an accepted one of
  -- them behind the others; if it is refused, they stay as they were. The queue keeps within
  -- its bound; the bound, the drop counter and all but the queue and the last error do not change;
  -- and only a full queue refuses, and stays as it was.
  pub push_event_coalesced-Pushed : Pushed (push_event_coalesced s ev)
  unfolding push_event_coalesced coalesced
  push_event_coalesced-Pushed = elim (Option-cases (erase_partial s.events.queue)) [
    | inl e ↦ ground (arith, push_bounded-Pushed)
    | inr (es, e) ↦ ground (
      arith,
      erase_partial-Erased s.events.queue,
      push_bounded-Pushed,
      mandatory-append es (ev ∷ []),
      length-append es (ev ∷ []),
      append-nil (mandatory s.events.queue),
    )
  ]
