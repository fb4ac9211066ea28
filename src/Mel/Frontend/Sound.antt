-- ===== src/Mel/Frontend/Sound.antt =====
-- The frontend keeps what it needs, and holds the frames of the samples that it was given.
use native.Mathlib.Decide.{dec_lt}
use voxtral_cpp.Prelude.{
  ℕ, zero, suc, ◌+◌, ◌-◌, ◌*◌, ◌^◌, ◌≤◌, ◌<◌, ◌≡◌, refl, ap, ◌∙◌, subst, true, false, some, List,
  [], ◌∷◌, ◌++◌, arith, ltb, length, drop, Bool-cases, inl, inr, ltb→lt,
}
use voxtral_cpp.Mel.{hop, int32, gather}
use voxtral_cpp.Mel.Gather.{gather_snoc}
use voxtral_cpp.Mel.Frontend.{
  MelFrontend, frame_hi_index, frame_lo_index, compute_and_store_frame, emit_stable_frames,
  emit_rest,
}
use voxtral_cpp.Mel.Frontend.Window.{frame_hi_index-bounds}
use voxtral_cpp.Mel.Frontend.Stable.{frame_at, compute_and_store_frame_lem}

module _ {S F : Type 0} (kernel : List S → F) where
  -- The frontend has got the samples `xs`, keeps those that are still to be read, and holds the
  -- frames from its base on, as they are defined on all of `xs`.
  pub record Tracks (xs : List S) (fe : MelFrontend S F) : Type 0 where
    pub received : fe.total_received ≡ length xs
    pub kept : fe.pcm ≡ drop fe.pcm_base xs
    pub low : fe.pcm_base ≤ frame_lo_index fe.next_frame
    pub within : fe.pcm_base ≤ length xs
    pub based : fe.mel_base_frame ≤ fe.next_frame
    pub framed :
        gather (frame_at kernel xs) (fe.next_frame - fe.mel_base_frame) fe.mel_base_frame
        ≡ some fe.mel_frames
    pub counted :
        (fe.dft_frames_computed ≡ fe.next_frame)
        × (fe.next_frame ≡ fe.frames_during_feed + fe.frames_at_finish)

  -- No frame that it holds reads a sample that is still to come.
  abbrev pub Settled : List S → MelFrontend S F → Type 0
  Settled xs fe = (f : ℕ) → f < fe.next_frame → frame_hi_index f < length xs

  frame_lo_index_mono : (f : ℕ) → frame_lo_index f ≤ frame_lo_index (f + 1)
  unfolding frame_lo_index
  frame_lo_index_mono f = ground arith

  -- The state after one more frame, whichever counter it goes to.
  abbrev stored : MelFrontend S F → F → ℕ → ℕ → MelFrontend S F
  stored fe y during at_end = record fe {
    mel_frames = fe.mel_frames ++ (y ∷ []);
    dft_frames_computed = fe.dft_frames_computed + 1;
    next_frame = fe.next_frame + 1;
    frames_during_feed = during;
    frames_at_finish = at_end;
  }

  stored-Tracks :
      {xs : List S} {fe : MelFrontend S F} (y : F) (during at_end : ℕ)
      → during + at_end ≡ fe.frames_during_feed + fe.frames_at_finish + 1
      → frame_at kernel xs fe.next_frame ≡ some y
      → Tracks xs fe
      → Tracks xs (stored fe y during at_end)
  stored-Tracks {xs} {fe} y during at_end one e t =
      let r = t.received in
      let w = t.within in
      let l = t.low in
      let b = t.based in
      let c = t.counted in
      let m = frame_lo_index_mono fe.next_frame in
      let z : fe.mel_base_frame + (fe.next_frame - fe.mel_base_frame) ≡ fe.next_frame =
        omega arith in
      let n : fe.next_frame + 1 - fe.mel_base_frame ≡ fe.next_frame - fe.mel_base_frame + 1 =
        omega arith in
      record {
        received = r;
        kept = t.kept;
        low = omega arith;
        within = w;
        based = omega arith;
        framed =
            ap (λ k. gather (frame_at kernel xs) k fe.mel_base_frame) n
            ∙ gather_snoc (frame_at kernel xs) (fe.next_frame - fe.mel_base_frame) fe.mel_base_frame
                fe.mel_frames y t.framed (ap (frame_at kernel xs) z ∙ e);
        counted = omega arith;
      }

  emit_stable_frames_step :
      (fuel : ℕ) (fe : MelFrontend S F) {fe1 : MelFrontend S F}
      → ltb (frame_hi_index fe.next_frame) fe.total_received ≡ true
      → compute_and_store_frame kernel fe fe.next_frame (int32 fe.total_received) ≡ some fe1
      → emit_stable_frames kernel (suc fuel) fe
        ≡ emit_stable_frames kernel fuel (record fe1 {
          next_frame = fe1.next_frame + 1;
          frames_during_feed = fe1.frames_during_feed + 1;
        })
  unfolding emit_stable_frames
  emit_stable_frames_step fuel fe more p = rw (more, emit_stable_frames) (rw p refl)

  emit_rest_step :
      (fuel n_total : ℕ) (fe : MelFrontend S F) {fe1 : MelFrontend S F}
      → ltb fe.next_frame n_total ≡ true
      → compute_and_store_frame kernel fe fe.next_frame (int32 fe.total_received) ≡ some fe1
      → emit_rest kernel (suc fuel) n_total fe
        ≡ emit_rest kernel fuel n_total (record fe1 {
          next_frame = fe1.next_frame + 1;
          frames_at_finish = fe1.frames_at_finish + 1;
        })
  unfolding emit_rest
  emit_rest_step fuel n_total fe more p = rw (more, emit_rest) (rw p refl)

  emit_stable_frames_stop :
      (fuel : ℕ) (fe : MelFrontend S F)
      → ltb (frame_hi_index fe.next_frame) fe.total_received ≡ false
      → emit_stable_frames kernel (suc fuel) fe ≡ some fe
  unfolding emit_stable_frames
  emit_stable_frames_stop fuel fe stop = rw (stop, emit_stable_frames) refl

  emit_rest_stop :
      (fuel n_total : ℕ) (fe : MelFrontend S F)
      → ltb fe.next_frame n_total ≡ false
      → emit_rest kernel (suc fuel) n_total fe ≡ some fe
  unfolding emit_rest
  emit_rest_stop fuel n_total fe stop = rw (stop, emit_rest) refl

  module _ (xs : List S) (small : 2 * length xs < 2 ^ 31) where
    -- What the loop of a feed comes to: every frame whose samples are there is computed.
    abbrev pub Emitted : MelFrontend S F → MelFrontend S F → Type 0
    Emitted fe fe' =
        Tracks xs fe'
        × Settled xs fe'
        × (length xs ≤ frame_hi_index fe'.next_frame)
        × (fe'.finalized ≡ fe.finalized)
        × (fe'.frames_at_finish ≡ fe.frames_at_finish)
        × (fe'.mel_base_frame ≡ fe.mel_base_frame)
        × (fe'.retain_history ≡ fe.retain_history)

    Settled-next :
        (fe : MelFrontend S F)
        → Settled xs fe
        → frame_hi_index fe.next_frame < length xs
        → (f : ℕ) → f < fe.next_frame + 1
        → frame_hi_index f < length xs
    Settled-next fe s h f k = elim (dec_lt f fe.next_frame) [
      | yes old ↦ s f old
      | no last ↦
          let e : fe.next_frame ≡ f = omega arith in subst (λ g. frame_hi_index g < length xs) e h
    ]

    pub emit_stable_frames-Emitted :
        (fuel : ℕ) (fe : MelFrontend S F)
        → length xs < fuel + fe.next_frame
        → Tracks xs fe
        → Settled xs fe
        → (fe' : MelFrontend S F) × (emit_stable_frames kernel fuel fe ≡ some fe') × Emitted fe fe'
    unfolding emit_stable_frames
    emit_stable_frames-Emitted zero fe enough t s =
        let h = s (fe.next_frame - 1) (omega arith) in
        let (a, b) = frame_hi_index-bounds (fe.next_frame - 1) in absurd (omega arith)
    emit_stable_frames-Emitted (suc fuel) fe enough t s =
        elim (Bool-cases (ltb (frame_hi_index fe.next_frame) fe.total_received)) [
          | inr stop ↦
              let h : length xs ≤ frame_hi_index fe.next_frame = ground (arith, t.received) in
              (fe, emit_stable_frames_stop fuel fe stop, (t, s, h, refl, refl, refl, refl))
          | inl more ↦
              let h = ltb→lt _ _ more in
              let r = t.received in
              let (a, b) = frame_hi_index-bounds fe.next_frame in
              let (y, e, p) =
                compute_and_store_frame_lem kernel fe xs t.received t.kept small fe.next_frame t.low
                  (omega arith) in
              let fe1 = stored fe y (fe.frames_during_feed + 1) fe.frames_at_finish in
              let t1 : Tracks xs fe1 = stored-Tracks y _ _ (omega arith) e t in
              let (fe', q, x) =
                emit_stable_frames-Emitted fuel fe1 (omega arith) t1
                  (Settled-next fe s (omega arith)) in
              (fe', emit_stable_frames_step fuel fe more p ∙ q, x)
        ]

    -- The frames up to the last that there is, whatever their samples.
    abbrev pub Completed : ℕ → MelFrontend S F → MelFrontend S F → Type 0
    Completed n_total fe fe' =
        Tracks xs fe'
        × (fe'.next_frame ≡ n_total)
        × (fe'.finalized ≡ fe.finalized)
        × (fe'.frames_during_feed ≡ fe.frames_during_feed)
        × (fe'.mel_base_frame ≡ fe.mel_base_frame)

    pub emit_rest-Completed :
        (fuel n_total : ℕ) (fe : MelFrontend S F)
        → n_total < fuel + fe.next_frame
        → fe.next_frame ≤ n_total
        → n_total * hop ≤ length xs
        → Tracks xs fe
        → (fe' : MelFrontend S F) × (emit_rest kernel fuel n_total fe ≡ some fe')
          × Completed n_total fe fe'
    unfolding emit_rest
    emit_rest-Completed zero n_total fe enough below fit t = absurd (omega arith)
    emit_rest-Completed (suc fuel) n_total fe enough below fit t =
        elim (Bool-cases (ltb fe.next_frame n_total)) [
          | inr stop ↦
              let h : fe.next_frame ≡ n_total = ground arith in
              (fe, emit_rest_stop fuel n_total fe stop, (t, h, refl, refl, refl))
          | inl more ↦
              let h = ltb→lt _ _ more in
              let (y, e, p) =
                compute_and_store_frame_lem kernel fe xs t.received t.kept small fe.next_frame t.low
                  (omega arith) in
              let fe1 = stored fe y fe.frames_during_feed (fe.frames_at_finish + 1) in
              let t1 : Tracks xs fe1 = stored-Tracks y _ _ (omega arith) e t in
              let (fe', q, x) =
                emit_rest-Completed fuel n_total fe1 (omega arith) (omega arith) fit t1 in
              (fe', emit_rest_step fuel n_total fe more p ∙ q, x)
        ]
