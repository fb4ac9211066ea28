-- ===== src/Stream/Events/Placed.antt =====
-- Where a pushed event comes to stand in the queue.
use voxtral_cpp.Prelude.{
  ◌≤◌, ◌≡◌, refl, ap, ◌⊎◌, inl, inr, Bool, true, false, ◌&&◌, Option, none, some, List, [], ◌∷◌,
  ◌++◌, arith, if◌then◌else◌, if-cases, ltb, leb, length,
}
use voxtral_cpp.Stream.State.{Event, Pipeline, Stream}
use voxtral_cpp.Stream.Events.{
  is_partial, bound, note_enqueued, enqueue, erase_partial, replace_partial, coalesced, push_event,
  push_bounded, push_event_coalesced,
}
use voxtral_cpp.Stream.Events.Order.{partials, Pushed, push_event_coalesced-Pushed}

-- The list without its oldest partial text.
abbrev Without : List Event → List Event → Type 0
Without es es' =
    (before : List Event) × (old : Event) × (after : List Event) × (es ≡ before ++ old ∷ after)
    × (es' ≡ before ++ after)
    × (is_partial old.kind ≡ true)
    × (partials before ≡ 0)

-- The list with the event in the place of its newest partial text.
abbrev InPlace : List Event → Event → List Event → Type 0
InPlace es ev es' =
    (before : List Event) × (old : Event) × (after : List Event) × (es ≡ before ++ old ∷ after)
    × (es' ≡ before ++ ev ∷ after)
    × (is_partial old.kind ≡ true)
    × (partials after ≡ 0)

abbrev MaybeWithout : List Event → Option (List Event) → Type 0
MaybeWithout es none = partials es ≡ 0
MaybeWithout es (some es') = Without es es'

abbrev MaybeInPlace : List Event → Event → Option (List Event) → Type 0
MaybeInPlace es ev none = partials es ≡ 0
MaybeInPlace es ev (some es') = InPlace es ev es'

erase_partial-MaybeWithout : (es : List Event) → MaybeWithout es (erase_partial es)
unfolding erase_partial
erase_partial-MaybeWithout [] = refl
erase_partial-MaybeWithout (e ∷ es) =
    if-cases (MaybeWithout (e ∷ es)) (is_partial e.kind) (λ p. ([], e, es, refl, refl, p, refl))
      (λ p. go (erase_partial es) p (erase_partial-MaybeWithout es))
  where
    go :
        (o : Option (List Event))
        → is_partial e.kind ≡ false
        → MaybeWithout es o
        → MaybeWithout (e ∷ es) (elim o [ none ↦ none | some es' ↦ some (e ∷ es') ])
    go none p h = ground (arith, p, h)
    go (some es') p (before, old, after, a, b, c, d) =
        (e ∷ before, old, after, ap (λ l. e ∷ l) a, ap (λ l. e ∷ l) b, c, ground (arith, p, d))

replace_partial-MaybeInPlace :
    (es : List Event) (ev : Event) → MaybeInPlace es ev (replace_partial es ev)
unfolding replace_partial
replace_partial-MaybeInPlace [] ev = refl
replace_partial-MaybeInPlace (e ∷ es) ev =
    go (replace_partial es ev) (replace_partial-MaybeInPlace es ev)
  where
    go :
        (o : Option (List Event))
        → MaybeInPlace es ev o
        → MaybeInPlace (e ∷ es) ev (elim o [
          | some es' ↦ some (e ∷ es')
          | none ↦ if is_partial e.kind then some (ev ∷ es) else none
        ])
    go none h =
        if-cases (MaybeInPlace (e ∷ es) ev) (is_partial e.kind) (λ p. ([], e, es, refl, refl, p, h))
          (λ p. ground (arith, p, h))
    go (some es') (before, old, after, a, b, c, d) =
        (e ∷ before, old, after, ap (λ l. e ∷ l) a, ap (λ l. e ∷ l) b, c, d)

module _ {p : Pipeline} (s : Stream p) (ev : Event) where
  -- A new partial text takes the place of the newest one in a full queue, and in the aggressive mode
  -- it stands at the end and the oldest one goes.
  abbrev Supersedes : List Event → Type 0
  Supersedes es =
      (bound s.events ≤ length s.events.queue) × InPlace s.events.queue ev es
      ⊎ (s.events.aggressive_partial_coalescing ≡ true)
        × (rest : List Event) × Without s.events.queue rest
        × (es ≡ rest ++ ev ∷ [])

  -- Where the event is afterwards.
  abbrev pub Placed : Bool × Stream p → Type 0
  Placed (accepted, s') =
      (accepted ≡ false)
      ⊎ ((accepted ≡ true) × (s'.events.queue ≡ s.events.queue ++ ev ∷ [])
          ⊎ (accepted ≡ true) × (is_partial ev.kind ≡ true) × Supersedes s'.events.queue)

  push_event-Placed : Placed (push_event s ev)
  unfolding push_event enqueue note_enqueued
  push_event-Placed =
      if-cases Placed (leb (bound s.events) (length s.events.queue)) (λ _. inl refl)
        (λ _. inr (inl (refl, ground arith)))

  push_bounded-Placed : Placed (push_bounded s ev)
  unfolding push_bounded coalesced enqueue note_enqueued
  push_bounded-Placed =
      if-cases Placed (ltb (length s.events.queue) (bound s.events))
        (λ _. inr (inl (refl, ground arith)))
        (λ full.
          if-cases Placed (is_partial ev.kind)
            (λ e.
              go full e (replace_partial s.events.queue ev)
                (replace_partial-MaybeInPlace s.events.queue ev))
            (λ _. push_event-Placed))
    where
      go :
          ltb (length s.events.queue) (bound s.events) ≡ false
          → is_partial ev.kind ≡ true
          → (o : Option (List Event)) → MaybeInPlace s.events.queue ev o
          → Placed (elim o [
            | some es ↦ (true, record s { events = coalesced s.events es })
            | none ↦ (false, record s { events = coalesced s.events s.events.queue })
          ])
      go full e none h = inl refl
      go full e (some es) h = inr (inr (refl, e, inl (ground (arith, full), h)))

  -- Pushing any event. Events that are not partial texts keep their order: an accepted one stands
  -- behind all of them, and a refusal leaves them. An accepted event is the last in the queue, where
  -- in the aggressive mode a partial text may have replaced the oldest one; or it is a partial text
  -- in a full queue and stands in the place of the newest one, also before later events. The queue
  -- keeps within its bound, and the bound, the drop counter and all but the queue and the last error
  -- do not change. Only a full queue refuses, and stays as it was.
  pub push_event_coalesced-Placed :
      Pushed s ev (push_event_coalesced s ev) × Placed (push_event_coalesced s ev)
  unfolding push_event_coalesced coalesced
  push_event_coalesced-Placed = (
    push_event_coalesced-Pushed s ev,
    if-cases Placed (is_partial ev.kind && s.events.aggressive_partial_coalescing)
        (λ t. go t (erase_partial s.events.queue) (erase_partial-MaybeWithout s.events.queue))
        (λ _. push_bounded-Placed),
  )
    where
      go :
          (is_partial ev.kind && s.events.aggressive_partial_coalescing) ≡ true
          → (o : Option (List Event)) → MaybeWithout s.events.queue o
          → Placed (elim o [
            | some es ↦ (true, record s { events = coalesced s.events (es ++ ev ∷ []) })
            | none ↦ push_bounded s ev
          ])
      go t none h = push_bounded-Placed
      go t (some es) h = inr (inr (refl, ground (arith, t), inr (ground (arith, t), es, h, refl)))
