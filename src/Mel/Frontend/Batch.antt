-- ===== src/Mel/Frontend/Batch.antt =====
-- The incremental frontend against the batch spectrogram.
use native.Mathlib.Decide.{dec_lt}
use voxtral_cpp.Prelude.{
  ℕ, suc, ◌+◌, ◌-◌, ◌*◌, ◌/◌, ◌^◌, ◌≤◌, ◌<◌, ◌≡◌, refl, ap, sym, ◌∙◌, Bool, true, ◌||◌, false,
  Option, some, List, [], ◌++◌, arith, ltb, leb, if◌then◌else◌, length, drop, get_elem?_of_lt,
}
use voxtral_cpp.Prelude.Int.{pos, sub_ℕ}
use voxtral_cpp.Mel.{hop, n_fft, pad, gather, read_at, resolve, window_at, compute_batch, ◌>>=◌}
use voxtral_cpp.Mel.Reflect.{wave, wave_bound, resolve_before, resolve_within, resolve_after}
use voxtral_cpp.Mel.Gather.{
  gather_cong, gather_total, gather_shift, gather-take-drop, gather_suffix, gather_get,
  length-gather,
}
use voxtral_cpp.Mel.Frontend.{MelFrontend, emit_rest, finish, frame_data}
use voxtral_cpp.Mel.Frontend.Window.{frame_hi_index-bounds}
use voxtral_cpp.Mel.Frontend.Stable.{sample_at, frame_at, frame_at-append, frame_at_total}
use voxtral_cpp.Mel.Frontend.Sound.{Tracks, emit_rest-Completed}
use voxtral_cpp.Mel.Frontend.Session.{IsLive}
use voxtral_cpp.Mel.Frontend.Runs.{Action, brought_all, act_all, start, base_after, act_all-IsLive}

-- Every place of the padded signal reads a sample.
resolve_total :
    (d n : ℕ)
    → 2 ≤ n
    → 2 * n < 2 ^ 31
    → d < n + 2 * pad
    → (r : ℕ) × (resolve (sub_ℕ d pad) (pos n) ≡ some r) × (r < n)
resolve_total d n h b m = elim (dec_lt d pad) [
  | yes before ↦ (wave n (pad - d), resolve_before d n h b before, wave_bound n (pad - d) h)
  | no later ↦ elim (dec_lt (d - pad) n) [
    | yes within ↦ (d - pad, resolve_within d n h (omega arith) within, within)
    | no after ↦ (
      wave n (d - pad),
      resolve_after d n h b (omega arith) (omega arith) (omega arith),
      wave_bound n (d - pad) h,
    )
  ]
]

center_fits : (n : ℕ) → 2 * n < 2 ^ 31 → leb (2 ^ 31) (n + 2 * pad) ≡ false
center_fits n b = ground (arith, b)

module _ {S F : Type 0} (kernel : List S → F) (xs : List S) where
  abbrev padded : ℕ → Option S
  padded i = read_at xs (resolve (sub_ℕ i pad) (pos (length xs)))

  center_total :
      2 ≤ length xs
      → 2 * length xs < 2 ^ 31
      → (c : List S) × (gather padded (length xs + 2 * pad) 0 ≡ some c)
        × (length c ≡ length xs + 2 * pad)
  center_total h b = gather_total padded (length xs + 2 * pad) 0 (λ i lo hi.
      let (r, e, k) = resolve_total i (length xs) h b (omega arith) in
      let (a, p) = get_elem?_of_lt xs r k in (a, ap (read_at xs) e ∙ p))

  -- A window of the padded signal is the window of the frame.
  window_at_lem :
      (c : List S) (f : ℕ)
      → gather padded (length xs + 2 * pad) 0 ≡ some c
      → length c ≡ length xs + 2 * pad
      → f * hop + hop ≤ length xs
      → window_at kernel c (f * hop) ≡ gather (sample_at xs f) n_fft 0
  unfolding window_at
  window_at_lem c f e n h =
      let t : leb (f * hop + n_fft) (length c) ≡ true = ground arith in
      let z : f * hop + 0 ≡ 0 + f * hop = omega arith in
      rw t (
        sym (gather-take-drop padded (length xs + 2 * pad) (f * hop) n_fft 0 c e (omega arith))
        ∙ ap (gather padded n_fft) (sym z)
        ∙ sym (gather_shift padded (f * hop) n_fft 0))

  -- So the batch spectrogram is the list of the frames of the signal.
  batch_frames :
      (c : List S)
      → gather padded (length xs + 2 * pad) 0 ≡ some c
      → length c ≡ length xs + 2 * pad
      → gather
          (λ frame. window_at kernel c (frame * hop) >>= λ window. some (kernel window))
          (length xs / hop)
          0
        ≡ gather (frame_at kernel xs) (length xs / hop) 0
  batch_frames c e n = gather_cong _ (frame_at kernel xs) (length xs / hop) 0 (λ f lo hi.
      ap (λ o. o >>= λ window. some (kernel window)) (window_at_lem c f e n (omega arith)))

  compute_batch_lem :
      2 * length xs < 2 ^ 31
      → compute_batch kernel xs ≡ gather (frame_at kernel xs) (length xs / hop) 0
  unfolding compute_batch
  compute_batch_lem b =
      let n : (if leb (length xs) 0 then 0 else length xs / hop + 1 - 1) ≡ length xs / hop =
        ground arith in
      elim (dec_lt (length xs) hop) [
        | yes short ↦ let z : length xs / hop ≡ 0 = omega arith in rw n (rw z refl)
        | no long ↦
            let z : leb (length xs / hop) 0 ≡ false = ground arith in
            let (c, e, k) = center_total (omega arith) b in
            let fits : leb (2 ^ 31) (length xs + 2 * pad) ≡ false = center_fits (length xs) b in
            rw n (rw z (rw fits (rw e (batch_frames c e k))))
      ]

  -- The batch spectrogram is there, with the documented number of frames.
  compute_batch_total :
      2 * length xs < 2 ^ 31
      → (all : List F) × (compute_batch kernel xs ≡ some all) × (length all ≡ length xs / hop)
  compute_batch_total b =
      let (all, e, n) =
        gather_total (frame_at kernel xs) (length xs / hop) 0 (λ f lo hi.
          let (w, p, q) = frame_at_total kernel xs f b (omega arith) in (kernel w, q)) in
      (all, compute_batch_lem b ∙ e, n)

  -- What `finish` comes to: `all` is the batch spectrogram, whose frames the frontend holds from its
  -- base on, having computed each once; no sample is kept.
  abbrev pub Finished : MelFrontend S F → MelFrontend S F → List F → Type 0
  Finished fe fe' all =
      (compute_batch kernel xs ≡ some all)
      × (fe'.next_frame ≡ length all)
      × (fe'.mel_frames ≡ drop fe'.mel_base_frame all)
      × (fe'.mel_base_frame ≡ fe.mel_base_frame)
      × (fe'.dft_frames_computed ≡ length all)
      × (fe'.frames_during_feed ≡ fe.frames_during_feed)
      × (fe'.pcm ≡ [])
      × (fe'.finalized ≡ true)

  sealed-Tracks :
      (fe : MelFrontend S F)
      → Tracks kernel xs fe
      → Tracks kernel xs (record fe { finalized = true })
  sealed-Tracks fe t = record {
    received = t.received;
    kept = t.kept;
    low = t.low;
    within = t.within;
    based = t.based;
    framed = t.framed;
    counted = t.counted;
  }

  finish_run :
      (fe : MelFrontend S F) {fe1 : MelFrontend S F}
      → fe.finalized ≡ false
      → fe.total_received ≡ length xs
      → emit_rest kernel (suc (length xs / hop)) (length xs / hop) (record fe { finalized = true })
        ≡ some fe1
      → finish kernel fe ≡ some (record fe1 { pcm = []; pcm_base = fe1.total_received })
  unfolding finish
  finish_run fe {fe1} e r p =
      let close =
        λ (fe2 : MelFrontend S F). some (record fe2 { pcm = []; pcm_base = fe2.total_received }) in
      let sealed : MelFrontend S F = record fe { finalized = true } in
      ap
        (λ b.
          if b
          then some fe
          else (emit_rest kernel (suc (fe.total_received / hop)) (fe.total_received / hop) sealed
              >>= close))
        e
      ∙ ap (λ m. emit_rest kernel (suc (m / hop)) (m / hop) sealed >>= close) r
      ∙ ap (λ o. o >>= close) p

  finish-Finished :
      (fe : MelFrontend S F)
      → IsLive kernel xs fe
      → 2 * length xs < 2 ^ 31
      → (fe' : MelFrontend S F) × (all : List F) × (finish kernel fe ≡ some fe')
        × Finished fe fe' all
  finish-Finished fe h small =
      let t = h.tracks in
      let r = t.received in
      let n_total = length xs / hop in
      let below : fe.next_frame ≤ n_total = next_frame-le in
      let (fe1, p, (t1, next, fin, dur, base)) =
        emit_rest-Completed kernel xs small (suc n_total) n_total (record fe { finalized = true })
          (omega arith) below (omega arith) (sealed-Tracks fe t) in
      let (all, e, n) = compute_batch_total small in
      let b = t1.based in
      let held =
        gather_suffix (frame_at kernel xs) n_total fe1.mel_base_frame all fe1.mel_frames
          (sym (compute_batch_lem small) ∙ e) (omega arith)
          (ap (λ k. gather (frame_at kernel xs) (k - fe1.mel_base_frame) fe1.mel_base_frame)
              (sym next)
            ∙ t1.framed) in
      (
        record fe1 { pcm = []; pcm_base = fe1.total_received },
        all,
        finish_run fe h.running r p,
        (e, next ∙ sym n, held, base, t1.counted.0 ∙ next ∙ sym n, dur, refl, fin),
      )
    where
      next_frame-le : fe.next_frame ≤ length xs / hop
      next_frame-le = elim (dec_lt 0 fe.next_frame) [
        | yes later ↦
            let k = h.settled (fe.next_frame - 1) (omega arith) in
            let (a, b) = frame_hi_index-bounds (fe.next_frame - 1) in omega arith
        | no first ↦ omega arith
      ]

module _ {S F : Type 0} (kernel : List S → F) (silence : S) where
  -- The calls, then the finish, go through and end with the batch spectrogram of all samples.
  abbrev pub EndsAsBatch : Bool → List (Action S) → Type 0
  EndsAsBatch retain as' =
      (fe : MelFrontend S F) × (fe' : MelFrontend S F) × (all : List F) × (act_all kernel silence
          (start kernel silence retain) as'
        ≡ some fe)
      × (finish kernel fe ≡ some fe')
      × Finished kernel (brought_all kernel silence as') fe fe' all
      × (fe'.mel_base_frame ≡ base_after kernel silence retain 0 0 as')

  -- For any split of a signal of fewer than 2^30 samples into feeds, with silence and with the
  -- reader's discards between them, and with the history retained or not, the incremental frontend
  -- ends with the batch spectrogram of the whole signal: the same number of frames, each computed
  -- once, and the same frames from the base on that the discards lead to; and it keeps no sample.
  pub finish-compute_batch :
      (retain : Bool) (as' : List (Action S))
      → 2 * length (brought_all kernel silence as') < 2 ^ 31
      → EndsAsBatch retain as'
  finish-compute_batch retain as' h =
      let (fe, e, live, k) = act_all-IsLive kernel silence retain as' h in
      let (fe', all, p, f) = finish-Finished kernel (brought_all kernel silence as') fe live h in
      let (_, _, _, base, _, _, _, _) = f in (fe, fe', all, e, p, f, base ∙ k)

module _ {S F : Type 0} (kernel : List S → F) where
  -- The reader gets a frame, which is that of the signal `xs` however `ys` goes on.
  abbrev pub Serves : List S → List S → MelFrontend S F → ℕ → Type 0
  Serves xs ys fe f = (y : F) × (frame_data f fe ≡ some y) × (frame_at kernel (xs ++ ys) f ≡ some y)

  -- While a frontend is fed, each frame from its base up to the next to come can be read, and what
  -- the reader gets is the frame of every longer signal: no later sample changes it.
  pub frame_data-Serves :
      (xs ys : List S) (fe : MelFrontend S F) (f : ℕ)
      → IsLive kernel xs fe
      → fe.mel_base_frame ≤ f
      → f < fe.next_frame
      → Serves xs ys fe f
  unfolding frame_data
  frame_data-Serves xs ys fe f h lo hi =
      let t = h.tracks in
      let d = f - fe.mel_base_frame in
      let (y, p, q) =
        gather_get (frame_at kernel xs) (fe.next_frame - fe.mel_base_frame) fe.mel_base_frame
          fe.mel_frames d t.framed (omega arith) in
      let z : fe.mel_base_frame + d ≡ f = omega arith in
      let n =
        length-gather (frame_at kernel xs) (fe.next_frame - fe.mel_base_frame) fe.mel_base_frame
          fe.mel_frames t.framed in
      let within : (ltb f fe.mel_base_frame || leb fe.next_frame f) ≡ false = ground arith in
      let held : leb (length fe.mel_frames) d ≡ false = ground (arith, n) in
      (
        y,
        rw within (rw held p),
        frame_at-append kernel xs ys f (h.settled f hi) ∙ ap (frame_at kernel xs) (sym z) ∙ q,
      )
