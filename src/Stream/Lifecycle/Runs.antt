-- ===== src/Stream/Lifecycle/Runs.antt =====
-- src/voxtral-stream.cpp: the calls that a client makes on a stream, in any order.
use voxtral_cpp.Prelude.{
  ℕ, ◌≡◌, refl, inl, inr, Bool, true, false, Option, none, some, List, [], ◌∷◌, arith, if-cases, ap,
  not, subst, sym,
}
use voxtral_cpp.Stream.State.{Status, State, Message, Params, Pipeline, Stream, set_error}
use voxtral_cpp.Stream.Events.{poll_event}
use voxtral_cpp.Stream.Events.Sequence.{poll_event-InSequence, poll_event-elsewhere}
use voxtral_cpp.Stream.Decoder.Sound.{IsSound}
use voxtral_cpp.Stream.Lifecycle.Create.{
  Environment, params_check, allocate_stream_state, create, is_ok, fresh_stream, with_context,
}
use voxtral_cpp.Stream.Lifecycle.Feed.{feed_allowed, feed_common, feed_pcm16, feed_f32}
use voxtral_cpp.Stream.Lifecycle.Feed.Slices.{IsSound-SameBooks}
use voxtral_cpp.Stream.Lifecycle.Feed.Sound.{feed_common-IsSound, feed_common-refused}
use voxtral_cpp.Stream.Lifecycle.Finish.{finish}
use voxtral_cpp.Stream.Lifecycle.Finish.Well.{IsWell, IsWell-IsSound}
use voxtral_cpp.Stream.Lifecycle.Finish.Sound.{finish-IsWell, guard-IsWell}
use voxtral_cpp.Stream.Lifecycle.Control.{reset, cancel, warmup, set_event_capacity}
use voxtral_cpp.Stream.Lifecycle.Control.Sound.{
  reset-IsWell, cancel-IsWell, warmup-IsWell, set_event_capacity-IsWell,
}

-- A call, with its arguments.
pub data Call (p : Pipeline) : Type 0 where
  pcm16 : Option (List ℕ) → ℕ → Call p
  f32 : Option (List p.Sample) → ℕ → Call p
  end restart stop warm poll : Call p
  capacity : ℕ → Call p

module _ {p : Pipeline} where
  unfoldable pub run : Call p → Stream p → Stream p
  run (Call.pcm16 samples count) s = (feed_pcm16 s samples count).1
  run (Call.f32 samples count) s = (feed_f32 s samples count).1
  run Call.end s = (finish s).1
  run Call.restart s = (reset s).1
  run Call.stop s = (cancel s).1
  run Call.warm s = (warmup s).1
  run Call.poll s = (poll_event s).1
  run (Call.capacity n) s = (set_event_capacity s n).1

  abbrev pub run_all : List (Call p) → Stream p → Stream p
  run_all [] s = s
  run_all (c ∷ cs) s = run_all cs (run c s)

  pub fresh_stream-IsSound :
      (env : Environment) (device : p.Device) (params : Params)
      → IsSound (fresh_stream {p = p} env device params)
  fresh_stream-IsSound env device params = record {
    books = record {
      history = refl;
      snapshot = refl;
      position = refl;
      steps = refl;
      issued = refl;
      idle = inr refl;
      limit = inr (omega arith);
      stash = inl refl;
      behind = inl refl;
      prompt = inr (refl, refl);
    };
    ordered = record { fits = omega arith; numbered = (0, tt, refl) };
  }

  with_context-IsSound :
      (s : Stream p) (model context : Bool) → IsSound s → IsSound (with_context s model context)
  unfolding with_context set_error
  with_context-IsSound s model context h =
      if-cases IsSound (not model) (λ _. h)
        (λ _.
          if-cases IsSound context (λ _. IsSound-SameBooks s _ (refl, refl, refl) h)
            (λ _. IsSound-SameBooks s _ (refl, refl, refl) h))

  pub refused-IsWell :
      (s : Stream p) (st : Status) (msg : Message) → IsWell s → IsWell (set_error s st msg)
  unfolding set_error
  refused-IsWell s st msg w = record {
    ordered = record { fits = w.ordered.fits; numbered = w.ordered.numbered };
    prompted = w.prompted;
    booked = w.booked;
  }

  feed_common-completed :
      {A : Type 0} (s : Stream p) (samples : Option (List A)) (count : ℕ)
      (convert : List A → Option (List p.Sample))
      → s.lifecycle.state ≡ State.completed
      → IsWell s
      → IsWell (feed_common s samples count convert).1
  feed_common-completed s samples count convert e w =
      subst (λ (r : Status × Stream p). IsWell r.1)
        (sym (feed_common-refused s samples count convert (ap feed_allowed e)))
        (if-cases (λ (r : Status × Stream p). IsWell r.1) s.lifecycle.in_operation (λ _. w)
          (λ _. guard-IsWell _ false (refused-IsWell _ _ _ (guard-IsWell s true w))))

  feed_common-IsWell :
      {A : Type 0} (s : Stream p) (samples : Option (List A)) (count : ℕ)
      (convert : List A → Option (List p.Sample))
      → IsWell s
      → IsWell (feed_common s samples count convert).1
  feed_common-IsWell s samples count convert w = elim w.booked [
    | inl e ↦ feed_common-completed s samples count convert e w
    | inr b ↦
        IsWell-IsSound _
          (feed_common-IsSound s samples count convert (record { books = b; ordered = w.ordered }))
  ]

  poll_event-IsWell : (s : Stream p) → IsWell s → IsWell (poll_event s).1
  poll_event-IsWell s w =
      let e = poll_event-elsewhere s in
      let f = w.ordered.fits in
      let q = w.prompted in
      record {
        ordered = record {
          fits = ground (arith, f, e);
          numbered = poll_event-InSequence s w.ordered.numbered;
        };
        prompted = ground (arith, q, e.1);
        booked = elim w.booked [
          | inl c ↦ inl (ground (arith, c, e.3))
          | inr b ↦ inr (rw (e.1, e.2) b)
        ];
      }

  pub run-IsWell : (c : Call p) (s : Stream p) → IsWell s → IsWell (run c s)
  unfolding run
  run-IsWell (Call.pcm16 samples count) s w = feed_common-IsWell s samples count _ w
  run-IsWell (Call.f32 samples count) s w = feed_common-IsWell s samples count _ w
  run-IsWell Call.end s w = finish-IsWell s w
  run-IsWell Call.restart s w = reset-IsWell s w
  run-IsWell Call.stop s w = cancel-IsWell s w
  run-IsWell Call.warm s w = warmup-IsWell s w
  run-IsWell Call.poll s w = poll_event-IsWell s w
  run-IsWell (Call.capacity n) s w = set_event_capacity-IsWell s n w

  run_all-IsWell : (cs : List (Call p)) (s : Stream p) → IsWell s → IsWell (run_all cs s)
  run_all-IsWell [] s w = w
  run_all-IsWell (c ∷ cs) s w = run_all-IsWell cs (run c s) (run-IsWell c s w)

  abbrev pub IsWellIf : Option (Stream p) → Type 0
  IsWellIf none = Unit {0}
  IsWellIf (some s) = IsWell s

module _ (p : Pipeline) where
  create-IsWellIf :
      (env : Environment) (device : p.Device) (params : Params) (model context : Bool)
      → IsWellIf (create {p = p} env device params model context)
  unfolding create allocate_stream_state
  create-IsWellIf env device params model context =
      if-cases
        (λ (o : Option (Stream p)).
          IsWellIf (elim o [ none ↦ none | some s ↦ some (with_context s model context) ]))
        (is_ok (params_check params))
        (λ _. IsWell-IsSound _ (
          with_context-IsSound (fresh_stream {p = p} env device params) model context
            (fresh_stream-IsSound env device params)))
        (λ _. tt)

  -- Whatever calls a client makes on a created stream, and in whatever order: the event queue stays
  -- within its bound, and the token events in it are numbered with no gap up to the last number
  -- issued; and, unless the stream is completed, the token history, the partial text, the
  -- position, the counters and the stashed token of the decoder agree, the token limit is kept,
  -- and the decoder reads committed adapter groups only.
  pub created-IsWell :
      (env : Environment) (device : p.Device) (params : Params) (model context : Bool)
      (s : Stream p)
      → create {p = p} env device params model context ≡ some s
      → (cs : List (Call p)) → IsWell (run_all cs s)
  created-IsWell env device params model context s e cs =
      run_all-IsWell cs s (subst IsWellIf e (create-IsWellIf env device params model context))
