-- ===== src/Api/Calls/Reports.antt =====
-- What the calls report to the client.
use voxtral_cpp.Prelude.{
  ℕ, ◌+◌, ◌-◌, ◌≡◌, refl, ap, sym, ◌∙◌, ◌⊎◌, inl, inr, Bool, true, false, Option, some, List, arith,
  map, if◌then◌else◌, if-cases, leb, Bool-cases,
}
use voxtral_cpp.Stream.State.{Status, Message, Lifecycle, Pipeline, Stream, set_error}
use voxtral_cpp.Stream.Events.Order.{push_event-Pushed}
use voxtral_cpp.Stream.Lifecycle.Create.{is_ok}
use voxtral_cpp.Stream.Lifecycle.Feed.{feed_pcm16}
use voxtral_cpp.Stream.Lifecycle.Feed.Admission.{Accounted, feed_common-Accounted}
use voxtral_cpp.Api.Calls.{
  PublicStatus, PublicState, map_state, map_feed_status, fail_stream, is_fatal, report_feed,
  stream_feed_pcm16, stream_get_state,
}

abbrev pub is_public_ok : PublicStatus → Bool
is_public_ok PublicStatus.ok = true
is_public_ok _ = false

abbrev pub is_public_fatal : PublicStatus → Bool
is_public_fatal PublicStatus.backend_error = true
is_public_fatal PublicStatus.out_of_memory = true
is_public_fatal PublicStatus.internal_error = true
is_public_fatal _ = false

module _ {p : Pipeline} where
  -- `*samples_consumed` is none or all of the samples, and is what the sample counter grew by; it is
  -- all of them where the status is OK; and a failure of the runtime leaves the stream in ERROR.
  abbrev pub Reported : ℕ → ℕ → PublicStatus × ℕ × Stream p → Type 0
  Reported before count (status, consumed, s') =
      ((consumed ≡ 0) ⊎ (consumed ≡ count))
      × (s'.lifecycle.total_samples_received ≡ before + consumed)
      × ((is_public_ok status ≡ false) ⊎ (consumed ≡ count))
      × ((is_public_fatal status ≡ false) ⊎ (stream_get_state s' ≡ PublicState.error))

  map_feed_status-refuses :
      (s : Stream p) (st : Status) → is_ok st ≡ false → is_public_ok (map_feed_status s st) ≡ false
  unfolding map_feed_status
  map_feed_status-refuses s st h = ground arith

  map_feed_status-fatal :
      (s : Stream p) (st : Status)
      → is_fatal st ≡ false
      → is_public_fatal (map_feed_status s st) ≡ false
  unfolding map_feed_status
  map_feed_status-fatal s st h = ground arith

  fail_stream-received :
      (s : Stream p) (st : Status) (msg : Message)
      → (fail_stream s st msg).lifecycle.total_samples_received ≡ s.lifecycle.total_samples_received
  unfolding fail_stream
  fail_stream-received s st msg =
      let s1 = record s { events = record (s.events) { finalizing_flush = true } } in
      ap (λ (x : Stream p). x.lifecycle.total_samples_received)
        (push_event-Pushed (set_error s1 st msg) _).elsewhere

  -- The stream after the report: failed, if the failure is fatal, with the counter as it was.
  abbrev after_report : Status → Stream p → Stream p
  after_report st s = if is_fatal st then fail_stream s st s.lifecycle.last_error else s

  after_report-received :
      (st : Status) (s : Stream p)
      → (after_report st s).lifecycle.total_samples_received ≡ s.lifecycle.total_samples_received
  after_report-received st s =
      if-cases
        (λ (t : Stream p). t.lifecycle.total_samples_received ≡ s.lifecycle.total_samples_received)
        (is_fatal st) (λ _. fail_stream-received s st s.lifecycle.last_error) (λ _. refl)

  after_report-state :
      (st : Status) (s : Stream p)
      → (is_public_fatal (map_feed_status (after_report st s) st) ≡ false)
        ⊎ (stream_get_state (after_report st s) ≡ PublicState.error)
  unfolding fail_stream map_state
  after_report-state st s = elim (Bool-cases (is_fatal st)) [
    | inl fatal ↦ inr (rw fatal refl)
    | inr passing ↦ inl (map_feed_status-fatal (after_report st s) st passing)
  ]

  report_feed-Reported :
      (l : Lifecycle) (count limit : ℕ) (st : Status) (s : Stream p)
      → Accounted l count limit (st, s)
      → Reported l.total_samples_received count (report_feed l.total_samples_received (st, s))
  unfolding report_feed
  report_feed-Reported l count limit st s (inl (same, refused)) =
      let e = ap (λ (x : Lifecycle). x.total_samples_received) same in
      let t = after_report-received st s in
      let z : (if leb l.total_samples_received s.lifecycle.total_samples_received
            then s.lifecycle.total_samples_received - l.total_samples_received
            else 0)
          ≡ 0 =
        ground (arith, e) in
      (
        inl z,
        omega (arith, t, e, z),
        elim refused [
          | inl r ↦ inl (map_feed_status-refuses (after_report st s) st r)
          | inr none_given ↦ inr (z ∙ sym none_given)
        ],
        after_report-state st s,
      )
  report_feed-Reported l count limit st s (inr (grown, within, running, some_given)) =
      let t = after_report-received st s in
      let z : (if leb l.total_samples_received s.lifecycle.total_samples_received
            then s.lifecycle.total_samples_received - l.total_samples_received
            else 0)
          ≡ count =
        ground (arith, grown) in
      (inr z, omega (arith, t, grown, z), inr z, after_report-state st s)

  -- Feeding through the C interface: the consumed count is none or all of the samples, and what the
  -- stream's sample counter grew by; it is all of them where the status is OK; and where the status
  -- is a failure of the runtime, the stream is in ERROR.
  pub stream_feed_pcm16-Reported :
      (s : Stream p) (samples : Option (List ℕ)) (count : ℕ)
      → Reported s.lifecycle.total_samples_received count (stream_feed_pcm16 s samples count)
  unfolding stream_feed_pcm16
  stream_feed_pcm16-Reported s samples count =
      let r = feed_pcm16 s samples count in
      report_feed-Reported s.lifecycle count s.params.max_total_samples r.0 r.1
        (feed_common-Accounted s samples count (λ xs. some (map p.sample_of_s16 xs)))
