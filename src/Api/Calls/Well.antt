-- ===== src/Api/Calls/Well.antt =====
-- The calls of the C interface keep the stream well-formed, those that fail it included.
use voxtral_cpp.Prelude.{
  ℕ, ◌≡◌, refl, ap, sym, ◌∙◌, inl, inr, Bool, true, false, not, Option, none, some, List, [], ◌∷◌,
  map, if-cases,
}
use voxtral_cpp.Stream.State.{Status, Message, Event, Pipeline, Stream, set_error}
use voxtral_cpp.Stream.Events.{poll_event}
use voxtral_cpp.Stream.Decoder.Sound.{IsSound}
use voxtral_cpp.Stream.Lifecycle.Feed.{feed_allowed, feed_pcm16}
use voxtral_cpp.Stream.Lifecycle.Feed.Slices.{IsSound-SameBooks}
use voxtral_cpp.Stream.Lifecycle.Feed.Sound.{feed_common-IsSound, feed_common-refused, feed_refusal}
use voxtral_cpp.Stream.Lifecycle.Transfer.{emit_error-IsSound}
use voxtral_cpp.Stream.Lifecycle.Finish.Well.{IsWell, IsWell-IsSound, flushing-IsSound}
use voxtral_cpp.Stream.Lifecycle.Runs
use voxtral_cpp.Stream.Lifecycle.Runs.{run-IsWell, refused-IsWell}
use voxtral_cpp.Api.Calls.{
  PublicStatus, Polled, is_busy_state, is_fatal, fail_stream, report_feed, stream_feed_pcm16,
  stream_poll_event, deliver_event, stream_finish, stream_cancel, stream_reset, holds_event,
}
use voxtral_cpp.Api.Params.{read_header}

clash : ◌≡◌ {A = Bool} true false → ⊥
clash e = cc

module _ {p : Pipeline} where
  fail_stream-IsWell :
      (s : Stream p) (st : Status) (msg : Message) → IsSound s → IsWell (fail_stream s st msg)
  unfolding fail_stream
  fail_stream-IsWell s st msg h =
      let s1 = record s { events = record (s.events) { finalizing_flush = true } } in
      let h1 : IsSound s1 = flushing-IsSound s h in
      let h2 : IsSound (set_error s1 st msg) = IsSound-SameBooks s1 _ (refl, refl, refl) h1 in
      IsWell-IsSound _ (
        IsSound-SameBooks _ _ (refl, refl, refl) (emit_error-IsSound (set_error s1 st msg) st _ h2))

  report_feed-IsWell :
      (before : ℕ) (st : Status) (s : Stream p)
      → IsWell s
      → (is_fatal st ≡ true → IsSound s)
      → IsWell (report_feed before (st, s)).2
  unfolding report_feed
  report_feed-IsWell before st s w sound =
      if-cases IsWell (is_fatal st) (λ f. fail_stream-IsWell s st _ (sound f)) (λ _. w)

  refusal_not_fatal : (s : Stream p) → is_fatal (feed_refusal s).0 ≡ false
  refusal_not_fatal s =
      if-cases (λ (r : Status × Stream p). is_fatal r.0 ≡ false) s.lifecycle.in_operation
        (λ _. refl) (λ _. refl)

  -- A fatal status comes from a stream that was not completed.
  fatal-IsSound :
      (s : Stream p) (samples : Option (List ℕ)) (count : ℕ)
      → IsWell s
      → is_fatal (feed_pcm16 s samples count).0 ≡ true
      → IsSound (feed_pcm16 s samples count).1
  fatal-IsSound s samples count w f =
      let convert = λ (xs : List ℕ). some (map p.sample_of_s16 xs) in
      elim w.booked [
        | inl e ↦
            let r = feed_common-refused s samples count convert (ap feed_allowed e) in
            let n = ap (λ (x : Status × Stream p). is_fatal x.0) r ∙ refusal_not_fatal s in
            absurd (clash (sym f ∙ n))
        | inr b ↦
            feed_common-IsSound s samples count convert (record { books = b; ordered = w.ordered })
      ]

  stream_feed_pcm16-IsWell :
      (s : Stream p) (samples : Option (List ℕ)) (count : ℕ)
      → IsWell s
      → IsWell (stream_feed_pcm16 s samples count).2
  unfolding stream_feed_pcm16 Runs.run
  stream_feed_pcm16-IsWell s samples count w =
      let r = feed_pcm16 s samples count in
      report_feed-IsWell s.lifecycle.total_samples_received r.0 r.1
        (run-IsWell (Runs.Call.pcm16 samples count) s w) (fatal-IsSound s samples count w)

  numbered-IsWell :
      (s : Stream p) (k : ℕ)
      → IsWell s
      → IsWell (record s { events = record (s.events) { public_poll_sequence = k } })
  numbered-IsWell s k w = record {
    ordered = record { fits = w.ordered.fits; numbered = w.ordered.numbered };
    prompted = w.prompted;
    booked = w.booked;
  }

  deliver_event-IsWell :
      (printed : Message → List ℕ) (r : Option Event × Stream p)
      → IsWell r.1
      → IsWell (deliver_event printed r).2
  unfolding deliver_event
  deliver_event-IsWell printed (none, s) w = w
  deliver_event-IsWell printed (some e, s) w = numbered-IsWell s _ w

  stream_poll_event-IsWell :
      (printed : Message → List ℕ) (s : Stream p) (out : Option (List ℕ))
      → IsWell s
      → IsWell (stream_poll_event printed s out).2
  unfolding stream_poll_event Runs.run
  stream_poll_event-IsWell printed s out w =
      if-cases (λ (r : Polled p). IsWell r.2) (not (holds_event (read_header out))) (λ _. w)
        (λ _. deliver_event-IsWell printed (poll_event s) (run-IsWell Runs.Call.poll s w))

  stream_reset-IsWell : (s : Stream p) → IsWell s → IsWell (stream_reset s).1
  unfolding stream_reset Runs.run
  stream_reset-IsWell s w =
      if-cases (λ (r : PublicStatus × Stream p). IsWell r.1) (is_busy_state s.lifecycle.state)
        (λ _. refused-IsWell s _ _ w) (λ _. run-IsWell Runs.Call.restart s w)

-- A call of the C interface, with its arguments.
pub data ApiCall : Type 0 where
  feed_pcm : Option (List ℕ) → ℕ → ApiCall
  poll : Option (List ℕ) → ApiCall
  end stop restart : ApiCall

module _ {p : Pipeline} (printed : Message → List ℕ) where
  pub call : ApiCall → Stream p → Stream p
  call (ApiCall.feed_pcm samples count) s = (stream_feed_pcm16 s samples count).2
  call (ApiCall.poll out) s = (stream_poll_event printed s out).2
  call ApiCall.end s = (stream_finish s).1
  call ApiCall.stop s = (stream_cancel s).1
  call ApiCall.restart s = (stream_reset s).1

  abbrev pub call_all : List ApiCall → Stream p → Stream p
  call_all [] s = s
  call_all (c ∷ cs) s = call_all cs (call c s)

  call-IsWell : (c : ApiCall) (s : Stream p) → IsWell s → IsWell (call c s)
  unfolding call stream_finish stream_cancel Runs.run
  call-IsWell (ApiCall.feed_pcm samples count) s w = stream_feed_pcm16-IsWell s samples count w
  call-IsWell (ApiCall.poll out) s w = stream_poll_event-IsWell printed s out w
  call-IsWell ApiCall.end s w = run-IsWell Runs.Call.end s w
  call-IsWell ApiCall.stop s w = run-IsWell Runs.Call.stop s w
  call-IsWell ApiCall.restart s w = stream_reset-IsWell s w

  -- From a well-formed stream, whatever a client calls through the C interface, and in whatever
  -- order, the stream stays well-formed, also where a failure of the runtime ends it: the event queue
  -- keeps its bound and the numbering of its tokens, and the books of the decoder agree, unless the
  -- stream is completed.
  pub call_all-IsWell : (cs : List ApiCall) (s : Stream p) → IsWell s → IsWell (call_all cs s)
  call_all-IsWell [] s w = w
  call_all-IsWell (c ∷ cs) s w = call_all-IsWell cs (call c s) (call-IsWell c s w)
