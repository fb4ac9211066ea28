-- ===== src/Mel/Frontend/Session.antt =====
-- The frontend under its calls: a feed of samples or silence, and the reader's discard of frames.
use native.Mathlib.Decide.{dec_lt}
use voxtral_cpp.Prelude.{
  ℕ, suc, ◌+◌, ◌-◌, ◌*◌, ◌^◌, ◌≤◌, ◌<◌, ◌≡◌, refl, ap, sym, ◌∙◌, subst, true, false, some, List, [],
  ◌++◌, arith, ltb, leb, if◌then◌else◌, if-cases, length, drop, drop_all, drop-drop,
  drop-append_left, length-append, length-drop, ltb→lt,
}
use voxtral_cpp.Mel.{n_fft, gather}
use voxtral_cpp.Mel.Gather.{gather_cong}
use voxtral_cpp.Mel.Frontend.{
  MelFrontend, frame_hi_index, frame_lo_index, trim, note_peak, compact, create, accept,
}
use voxtral_cpp.Mel.Frontend.Window.{frame_hi_index-bounds}
use voxtral_cpp.Mel.Frontend.Stable.{frame_at, frame_at-append}
use voxtral_cpp.Mel.Frontend.Sound.{Tracks, Settled, emit_stable_frames-Emitted}

retained_lt : (k m : ℕ) → m ≤ frame_hi_index k → m - frame_lo_index k < n_fft
unfolding frame_hi_index frame_lo_index
retained_lt k m h = ground arith

module _ {S F : Type 0} (kernel : List S → F) where
  -- A frontend that is being fed, and the samples `xs` that it has got: every frame whose samples
  -- are there is computed and no other, and less than a window of samples is kept.
  pub record IsLive (xs : List S) (fe : MelFrontend S F) : Type 0 where
    pub tracks : Tracks kernel xs fe
    pub settled : Settled kernel xs fe
    pub caught_up : length xs ≤ frame_hi_index fe.next_frame
    pub running : fe.finalized ≡ false
    pub none_at_finish : fe.frames_at_finish ≡ 0
    pub bounded : length fe.pcm < n_fft

  frame_lo_index-le_length :
      (xs : List S) (fe : MelFrontend S F)
      → Settled kernel xs fe
      → frame_lo_index fe.next_frame ≤ length xs
  unfolding frame_lo_index
  frame_lo_index-le_length xs fe s = elim (dec_lt 0 fe.next_frame) [
    | yes later ↦
        let h = s (fe.next_frame - 1) (omega arith) in
        let (a, b) = frame_hi_index-bounds (fe.next_frame - 1) in ground arith
    | no first ↦ ground arith
  ]

  -- The compaction keeps the samples from the lowest that a later frame reads.
  abbrev Trimmed : List S → MelFrontend S F → Type 0
  Trimmed xs fe = Tracks kernel xs fe × (fe.pcm_base ≡ frame_lo_index fe.next_frame)

  note_peak-Trimmed :
      (xs : List S) (fe : MelFrontend S F) → Trimmed xs fe → Trimmed xs (note_peak fe)
  unfolding note_peak
  note_peak-Trimmed xs fe (t, b) =
      if-cases (Trimmed xs) (ltb fe.pcm_peak_retained (length fe.pcm))
        (λ _. (
          record {
            received = t.received;
            kept = t.kept;
            low = t.low;
            within = t.within;
            based = t.based;
            framed = t.framed;
            counted = t.counted;
          },
          b,
        ))
        (λ _. (t, b))

  module _ (xs : List S) (fe : MelFrontend S F) (t : Tracks kernel xs fe) where
    trimmed_pcm :
        fe.pcm_base < frame_lo_index fe.next_frame
        → (if leb (length fe.pcm) (frame_lo_index fe.next_frame - fe.pcm_base)
            then []
            else drop (frame_lo_index fe.next_frame - fe.pcm_base) fe.pcm)
          ≡ drop (frame_lo_index fe.next_frame) xs
    trimmed_pcm h =
        let k = frame_lo_index fe.next_frame - fe.pcm_base in
        let e : fe.pcm_base + k ≡ frame_lo_index fe.next_frame = omega arith in
        if-cases (λ l. l ≡ drop (frame_lo_index fe.next_frame) xs) (leb (length fe.pcm) k)
          (λ short.
            let n = ap length t.kept ∙ length-drop fe.pcm_base xs in
            let s : length fe.pcm ≤ k = ground arith in
            sym (drop_all (frame_lo_index fe.next_frame) xs (omega (arith, n))))
          (λ _. ap (drop k) t.kept ∙ drop-drop k fe.pcm_base xs ∙ ap (λ j. drop j xs) e)

    trim-Trimmed : Settled kernel xs fe → Trimmed xs (trim fe)
    unfolding trim
    trim-Trimmed s =
        if-cases (Trimmed xs) (ltb fe.pcm_base (frame_lo_index fe.next_frame))
          (λ e.
            let l = ltb→lt _ _ e in
            (
              record {
                received = t.received;
                kept = trimmed_pcm l;
                low = omega arith;
                within = frame_lo_index-le_length xs fe s;
                based = t.based;
                framed = t.framed;
                counted = t.counted;
              },
              refl,
            ))
          (λ e. (t, ground (arith, t.low)))

    compact-Trimmed : Settled kernel xs fe → Trimmed xs (compact fe)
    unfolding compact
    compact-Trimmed s = note_peak-Trimmed xs (trim fe) (trim-Trimmed s)

  -- The compaction leaves all but the samples alone.
  compact_same :
      (fe : MelFrontend S F)
      → ((compact fe).next_frame ≡ fe.next_frame)
        × ((compact fe).finalized ≡ fe.finalized)
        × ((compact fe).frames_at_finish ≡ fe.frames_at_finish)
        × ((compact fe).mel_base_frame ≡ fe.mel_base_frame)
        × ((compact fe).retain_history ≡ fe.retain_history)
  unfolding compact trim note_peak
  compact_same fe = ground arith

  compact-IsLive :
      (xs : List S) (fe : MelFrontend S F)
      → Tracks kernel xs fe
      → Settled kernel xs fe
      → length xs ≤ frame_hi_index fe.next_frame
      → fe.finalized ≡ false
      → fe.frames_at_finish ≡ 0
      → IsLive xs (compact fe)
  compact-IsLive xs fe t s c r z =
      let (n, f, a, _, _) = compact_same fe in
      let (t', b) = compact-Trimmed xs fe t s in
      record {
        tracks = t';
        settled = λ g h. s g (subst (λ k. g < k) n h);
        caught_up = subst (λ k. length xs ≤ frame_hi_index k) (sym n) c;
        running = f ∙ r;
        none_at_finish = a ∙ z;
        bounded =
            let l = ap length t'.kept ∙ length-drop (compact fe).pcm_base xs in
            let g : length xs - frame_lo_index fe.next_frame < n_fft =
              retained_lt fe.next_frame (length xs) c in
            let e : (compact fe).pcm_base ≡ frame_lo_index fe.next_frame =
              b ∙ ap frame_lo_index n in
            omega (arith, l);
      }

  pub create-IsLive : IsLive [] create
  unfolding create gather
  create-IsLive = record {
    tracks = record {
      received = refl;
      kept = refl;
      low = omega arith;
      within = omega arith;
      based = omega arith;
      framed = refl;
      counted = (refl, refl);
    };
    settled = λ f h. absurd (omega arith);
    caught_up = omega arith;
    running = refl;
    none_at_finish = refl;
    bounded = omega arith;
  }

  -- The frames that it held are frames of the longer signal too.
  received_more :
      (xs ys : List S) (fe : MelFrontend S F)
      → Tracks kernel xs fe
      → Settled kernel xs fe
      → Tracks kernel
          (xs ++ ys)
          (record fe { pcm = fe.pcm ++ ys; total_received = fe.total_received + length ys })
  received_more xs ys fe t s =
      let n = length-append xs ys in
      record {
        received = ap (λ k. k + length ys) t.received ∙ sym n;
        kept = ap (λ l. l ++ ys) t.kept ∙ sym (drop-append_left fe.pcm_base xs ys t.within);
        low = t.low;
        within = let w = t.within in omega arith;
        based = t.based;
        framed =
            gather_cong (frame_at kernel (xs ++ ys)) (frame_at kernel xs)
              (fe.next_frame - fe.mel_base_frame) fe.mel_base_frame
              (λ f lo hi. frame_at-append kernel xs ys f (let b = t.based in s f (omega arith)))
            ∙ t.framed;
        counted = t.counted;
      }

  Settled-append :
      (xs ys : List S) (fe : MelFrontend S F) → Settled kernel xs fe → Settled kernel (xs ++ ys) fe
  Settled-append xs ys fe s f h = let n = length-append xs ys in let k = s f h in omega arith

  pub accept-IsLive :
      (xs ys : List S) (fe : MelFrontend S F)
      → IsLive xs fe
      → 2 * length (xs ++ ys) < 2 ^ 31
      → (fe' : MelFrontend S F) × (accept kernel ys fe ≡ some (true, fe'))
        × IsLive (xs ++ ys) fe'
        × (fe'.mel_base_frame ≡ fe.mel_base_frame)
        × (fe'.retain_history ≡ fe.retain_history)
  unfolding accept
  accept-IsLive xs ys fe h small =
      let t = received_more xs ys fe h.tracks h.settled in
      let n = t.received in
      let fe1 = record fe { pcm = fe.pcm ++ ys; total_received = fe.total_received + length ys } in
      let (fe2, e, (t2, s2, c, f, z, b2, r2)) =
        emit_stable_frames-Emitted kernel (xs ++ ys) small (suc fe1.total_received) fe1
          (omega arith) t (Settled-append xs ys fe h.settled) in
      let (_, _, _, base, retain) = compact_same fe2 in
      (
        compact fe2,
        rw e refl,
        compact-IsLive (xs ++ ys) fe2 t2 s2 c (f ∙ h.running) (z ∙ h.none_at_finish),
        base ∙ b2,
        retain ∙ r2,
      )
