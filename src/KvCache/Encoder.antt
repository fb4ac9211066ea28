-- ===== src/KvCache/Encoder.antt =====
-- src/voxtral.cpp: the plan of one encoder execution over the K/V ring, `voxtral_enc_kv_plan`, its
-- mask, and the frames that the Mel supports. Positions are not negative.
use voxtral_cpp.Prelude.{
  ℕ, ◌+◌, ◌-◌, ◌*◌, ◌/◌, ◌%◌, ◌≤◌, ◌<◌, ◌≡◌, ◌≢◌, refl, Bool, true, ◌||◌, ◌&&◌, Option, none, some,
  List, arith, if◌then◌else◌, ltb, leb, ◌==◌, if-cases, length, ◌⊎◌,
}
use voxtral_cpp.KvCache.Segments.{
  Segment, enc_kv_ring_segments, slots_of, ring_slots, enc_kv_ring_segments-slots, slots_apart,
}

-- May a query at one position attend a key at another? The comparison with
-- `q_abs - (window - 1)`, which may be negative, is written without the subtraction.
unfoldable pub enc_kv_mask_allows : ℕ → ℕ → ℕ → Bool
enc_kv_mask_allows kv_abs q_abs window = leb kv_abs q_abs && leb (q_abs + 1) (kv_abs + window)

-- `voxtral_enc_kv_plan_t`; whether a segment list wraps is its length.
pub record EncKvPlan : Type 0 where
  pub q_start : ℕ
  pub n_new : ℕ
  pub win_start : ℕ
  pub win_end : ℕ
  pub win_len : ℕ
  pub read_seg : List Segment
  pub read_wraps : Bool
  pub write_seg : List Segment
  pub write_wraps : Bool
  pub conv_mel_start : ℕ
  pub conv_mel_end : ℕ
  pub conv_slice_start : ℕ
  pub evicted : ℕ

-- `n_new > capacity - window` is `n_new + window > capacity`: the difference may be negative.
abbrev pub enc_kv_refused : ℕ → ℕ → ℕ → Bool
enc_kv_refused n_new capacity window =
    n_new == 0 || capacity == 0 || window == 0 || ltb capacity (n_new + window)

unfoldable pub enc_plan : ℕ → ℕ → ℕ → ℕ → EncKvPlan
enc_plan q_start n_new capacity window =
    let win_start = q_start - (window - 1) in
    let win_end = q_start + n_new in
    let win_len = win_end - win_start in
    let read_seg = enc_kv_ring_segments win_start win_len capacity in
    let write_seg = enc_kv_ring_segments q_start n_new capacity in
    let conv_mel_start = 2 * (q_start - 2) in
    record {
      q_start = q_start;
      n_new = n_new;
      win_start = win_start;
      win_end = win_end;
      win_len = win_len;
      read_seg = read_seg;
      read_wraps = ltb 1 (length read_seg);
      write_seg = write_seg;
      write_wraps = ltb 1 (length write_seg);
      conv_mel_start = conv_mel_start;
      conv_mel_end = 2 * (q_start + n_new);
      conv_slice_start = q_start - conv_mel_start / 2;
      evicted = win_end - window - (q_start - window);
    }

unfoldable pub enc_kv_plan : ℕ → ℕ → ℕ → ℕ → Option EncKvPlan
unfolding enc_plan
enc_kv_plan q_start n_new capacity window =
    if enc_kv_refused n_new capacity window
    then none
    else some (enc_plan q_start n_new capacity window)

unfoldable pub enc_frames_realizable : ℕ → ℕ
enc_frames_realizable mel_frames = if ltb mel_frames 2 then 0 else (mel_frames - 2) / 2 + 1

-- What a plan promises.
pub record EncPlanned (q_start n_new capacity window : ℕ) (plan : EncKvPlan) : Type 0 where
  pub reads : slots_of plan.read_seg ≡ ring_slots plan.win_start plan.win_len capacity
  pub writes : slots_of plan.write_seg ≡ ring_slots q_start n_new capacity
  pub attended :
      (kv q : ℕ)
      → q_start ≤ q
      → q < q_start + n_new
      → enc_kv_mask_allows kv q window ≡ true
      → (plan.win_start ≤ kv) × (kv < plan.win_start + plan.win_len)
  pub apart :
      (a b : ℕ)
      → plan.win_start ≤ a
      → a < b
      → b < plan.win_start + plan.win_len
      → a % capacity ≢ b % capacity
  pub convolved : plan.conv_mel_start + 2 * plan.conv_slice_start ≡ 2 * q_start
  pub padded : (2 ≤ plan.conv_slice_start) ⊎ (plan.conv_mel_start ≡ 0)
  pub realizable : enc_frames_realizable plan.conv_mel_end ≡ q_start + n_new

module _ (q_start n_new capacity window : ℕ) where
  pub enc_plan-EncPlanned :
      0 < n_new
      → 0 < window
      → n_new + window ≤ capacity
      → EncPlanned q_start n_new capacity window (enc_plan q_start n_new capacity window)
  unfolding enc_plan enc_kv_mask_allows enc_frames_realizable
  enc_plan-EncPlanned new win fits =
      let start = q_start - (window - 1) in
      let pos : 0 < capacity = omega arith in
      record {
        reads =
            enc_kv_ring_segments-slots capacity start (q_start + n_new - start) pos (omega arith);
        writes = enc_kv_ring_segments-slots capacity q_start n_new pos (omega arith);
        attended = λ kv q lo hi m. ground arith;
        apart = λ a b lo lt hi. slots_apart capacity a b pos lt (omega arith);
        convolved = omega arith;
        padded = ground arith;
        realizable = ground arith;
      }

  -- If there are new frames, a window, and room in the ring for both, a plan is made: the read
  -- segments are the slots of the window and the write segments those of the new frames, in order;
  -- all keys that the mask allows the new queries lie in the window; no two positions of the
  -- window, the new ones among them, share a slot; and the convolution input starts at an even
  -- frame, with two frames of left context or at the start of the audio, and ends where the new
  -- frames are realizable.
  pub enc_kv_plan-EncPlanned :
      0 < n_new
      → 0 < window
      → n_new + window ≤ capacity
      → (plan : EncKvPlan) × (enc_kv_plan q_start n_new capacity window ≡ some plan)
        × EncPlanned q_start n_new capacity window plan
  unfolding enc_kv_plan
  enc_kv_plan-EncPlanned new win fits =
      (enc_plan q_start n_new capacity window, accepted, enc_plan-EncPlanned new win fits)
    where
      accepted :
          enc_kv_plan q_start n_new capacity window ≡ some (enc_plan q_start n_new capacity window)
      accepted =
          if-cases (λ (o : Option EncKvPlan). o ≡ some (enc_plan q_start n_new capacity window))
            (enc_kv_refused n_new capacity window) (λ t. absurd (ground (arith, t, new, win, fits)))
            (λ _. refl)
