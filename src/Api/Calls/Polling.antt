-- ===== src/Api/Calls/Polling.antt =====
-- What a client gets by polling, and of its texts.
use voxtral_cpp.Prelude.{
  ℕ, zero, suc, ◌+◌, ◌-◌, ◌≤◌, ◌<◌, ◌≡◌, ◌↔◌, refl, ap, sym, ◌∙◌, Bool, true, min, Option, none,
  some, List, [], ◌∷◌, arith, length, take, drop, length-take, drop_all,
}
use voxtral_cpp.Stream.State.{Message, Event, Pipeline, Stream}
use voxtral_cpp.Stream.Events.{poll_event}
use voxtral_cpp.Api.Utf8.{utf8_prefix_at_most}
use voxtral_cpp.Api.Utf8.Longest.{IsUtf8, utf8_prefix_at_most-IsLongest}
use voxtral_cpp.Api.Params.{read_header}
use voxtral_cpp.Api.Calls.{
  PublicStatus, PublicEvent, Polled, event_text_capacity, copy_event_text, public_event,
  holds_event, deliver_event, stream_poll_event,
}

-- What is copied of a text whose first `stable` bytes may be shown: as many whole characters of them
-- as fit before the terminator. The flag tells whether any are missing.
pub record Copied (source : List ℕ) (stable : ℕ) (r : List ℕ × Bool) : Type 0 where
  pub fits : length r.0 < event_text_capacity
  pub shown : length r.0 ≤ stable
  pub piece : r.0 ≡ take (length r.0) source
  pub whole : IsUtf8 r.0
  pub longest :
      (m : ℕ)
      → m ≤ stable
      → m ≤ length source
      → m < event_text_capacity
      → IsUtf8 (take m source)
      → m ≤ length r.0
  pub truncated : (r.1 ≡ true) ↔ (length r.0 < min stable (length source))

-- The text of a polled event is the longest piece of whole UTF-8 characters at the start of its
-- source that ends within the stable bytes and leaves room for the terminator; the truncation flag
-- is set exactly where stable bytes are missing, which is so for a text that does not fit, and for
-- one of any length whose stable bytes do not end with a whole character.
pub copy_event_text-Copied :
    (source : List ℕ) (stable : ℕ) → Copied source stable (copy_event_text source stable)
unfolding copy_event_text
copy_event_text-Copied source stable =
    let available = min stable (length source) in
    let limit = min available (event_text_capacity - 1) in
    let k = utf8_prefix_at_most source limit in
    let t = utf8_prefix_at_most-IsLongest source limit in
    let (a, b) = t.fits in
    let n = length-take k source in
    let e : length (take k source) ≡ k = omega (arith, n) in
    record {
      fits = omega (arith, n);
      shown = omega (arith, n);
      piece = ap (λ j. take j source) (sym e);
      whole = t.whole;
      longest = λ m h l f u. let i = t.longest m (omega arith) l u in omega (arith, n);
      truncated = ground (arith, e);
    }

-- The answers to `n` polls of a queue, where `k` events were polled before.
abbrev pub answers :
    (Message → List ℕ) → ℕ → List Event → ℕ → List (PublicStatus × Option PublicEvent)
answers printed k es zero = []
answers printed k [] (suc n) = (PublicStatus.not_ready, none) ∷ answers printed k [] n
answers printed k (e ∷ es) (suc n) =
    (PublicStatus.ok, some (public_event printed e (k + 1))) ∷ answers printed (k + 1) es n

module _ {p : Pipeline} (printed : Message → List ℕ) (out : Option (List ℕ)) where
  -- `n` polls in a row, with the same memory.
  pub poll_times : ℕ → Stream p → List (PublicStatus × Option PublicEvent) × Stream p
  unfolding stream_poll_event
  poll_times zero s = ([], s)
  poll_times (suc n) s =
      let (status, event, s1) = stream_poll_event printed s out in
      let (rest, s2) = poll_times n s1 in ((status, event) ∷ rest, s2)

  abbrev pub after_polls : Stream p → ℕ → ℕ → List Event → Stream p
  after_polls s n k es = record s {
    events = record (s.events) { queue = drop n es; public_poll_sequence = k + min n (length es) };
  }

  -- One poll of a stream with this queue.
  poll_answer :
      holds_event (read_header out) ≡ true
      → (s : Stream p) → stream_poll_event printed s out ≡ deliver_event printed (poll_event s)
  unfolding stream_poll_event
  poll_answer ok s = rw ok refl

  poll_event_cons :
      (s : Stream p) (e : Event) (es : List Event)
      → s.events.queue ≡ e ∷ es
      → poll_event s ≡ (some e, record s { events = record (s.events) { queue = es } })
  unfolding poll_event
  poll_event_cons s e es q = rw (q, poll_event) refl

  poll_event_nil : (s : Stream p) → s.events.queue ≡ [] → poll_event s ≡ (none, s)
  unfolding poll_event
  poll_event_nil s q =
      rw (q, poll_event) (λ i. (none, record s { events = record (s.events) { queue = q i } }))

  abbrev glue : ℕ → Polled p → List (PublicStatus × Option PublicEvent) × Stream p
  glue n r = ((r.0, r.1) ∷ (poll_times n r.2).0, (poll_times n r.2).1)

  poll_times_step :
      (n : ℕ) (s : Stream p) (r : Polled p)
      → stream_poll_event printed s out ≡ r
      → poll_times (suc n) s ≡ glue n r
  unfolding poll_times
  poll_times_step n s r e = ap (glue n) e

  poll_times_from :
      holds_event (read_header out) ≡ true
      → (n : ℕ) (es : List Event) (s : Stream p) → s.events.queue ≡ es
      → poll_times n s ≡ (
        answers printed s.events.public_poll_sequence es n,
        after_polls s n s.events.public_poll_sequence es,
      )
  unfolding poll_times deliver_event
  poll_times_from ok zero es s q =
      let k = s.events.public_poll_sequence in
      let e : k ≡ k + min 0 (length es) = omega arith in
      λ i. ([], record s { events = record (s.events) { queue = q i; public_poll_sequence = e i } })
  poll_times_from ok (suc n) [] s q =
      let k = s.events.public_poll_sequence in
      let ih = poll_times_from ok n [] s q in
      let d : ◌≡◌ {A = List Event} (drop n []) [] = drop_all n [] (omega arith) in
      let m : k + min n 0 ≡ k + min (suc n) 0 = omega arith in
      poll_times_step n s (PublicStatus.not_ready, none, s)
        (poll_answer ok s ∙ ap (deliver_event printed) (poll_event_nil s q))
      ∙ ap (λ r. ((PublicStatus.not_ready, none) ∷ r.0, r.1)) ih
      ∙ λ i. (
        answers printed k [] (suc n),
        record s { events = record (s.events) { queue = d i; public_poll_sequence = m i } },
      )
  poll_times_from ok (suc n) (e ∷ es) s q =
      let k = s.events.public_poll_sequence in
      let s1 = record s {
        events = record (s.events) { queue = es; public_poll_sequence = k + 1 };
      } in
      let ih = poll_times_from ok n es s1 refl in
      let m : k + 1 + min n (length es) ≡ k + min (suc n) (suc (length es)) = omega arith in
      poll_times_step n s (PublicStatus.ok, some (public_event printed e (k + 1)), s1)
        (poll_answer ok s ∙ ap (deliver_event printed) (poll_event_cons s e es q))
      ∙ ap (λ r. ((PublicStatus.ok, some (public_event printed e (k + 1))) ∷ r.0, r.1)) ih
      ∙ λ i. (
        answers printed k (e ∷ es) (suc n),
        record s { events = record (s.events) { queue = drop n es; public_poll_sequence = m i } },
      )

  -- With memory that can hold an event, `n` polls give the queued events in their order, each with the
  -- sequence number after the last one, and then NOT_READY for each poll that is left; they
  -- take those events off the queue, and change nothing else.
  pub poll_times-answers :
      (n : ℕ) (s : Stream p)
      → holds_event (read_header out) ≡ true
      → poll_times n s ≡ (
        answers printed s.events.public_poll_sequence s.events.queue n,
        after_polls s n s.events.public_poll_sequence s.events.queue,
      )
  poll_times-answers n s ok = poll_times_from ok n s.events.queue s refl
