-- ===== src/Mel/Frontend/Stable.antt =====
-- What one frame is, as a function of the samples, and that the frontend computes it from those it
-- keeps.

use voxtral_cpp.Prelude.{
  ℕ, ◌+◌, ◌-◌, ◌*◌, ◌^◌, ◌≤◌, ◌<◌, ◌≡◌, refl, ap, sym, ◌∙◌, false, Option, some, List, [], ◌∷◌,
  ◌++◌, arith, ltb, length, drop, get_elem?, get_elem?_of_lt, get_elem?-drop, get_elem?-append_left,
  length-append,
}
use voxtral_cpp.Prelude.Int.{sub_ℕ}
use voxtral_cpp.Mel.{hop, n_fft, pad, int32, gather, read_at, resolve, ◌>>=◌}
use voxtral_cpp.Mel.Gather.{gather_cong, gather_total}
use voxtral_cpp.Mel.Frontend.{
  MelFrontend, read_pcm, fill_window, frame_hi_index, frame_lo_index, compute_and_store_frame,
}
use voxtral_cpp.Mel.Frontend.Window.{
  spot, source_index-int32, int32_lem, batch-Reads, home, home-le, spot_stable,
}

module _ {S : Type 0} where
  -- The sample at place `i` of frame `f`, in the signal `xs`.
  abbrev pub sample_at : List S → ℕ → ℕ → Option S
  sample_at xs f i = read_at xs (spot f i (length xs))

  pub sample_at_total :
      (xs : List S) (f i : ℕ)
      → 2 * length xs < 2 ^ 31
      → f * hop + hop ≤ length xs
      → i < n_fft
      → (a : S) × (sample_at xs f i ≡ some a)
  sample_at_total xs f i b h k =
      let (r, e, lo, hi) = batch-Reads f i (length xs) b h k in
      let (a, p) = get_elem?_of_lt xs r hi in (a, rw e p)

  sample_at-append :
      (xs ys : List S) (f i : ℕ)
      → frame_hi_index f < length xs
      → i < n_fft
      → sample_at (xs ++ ys) f i ≡ sample_at xs f i
  sample_at-append xs ys f i h k =
      let n = length-append xs ys in
      let le = home-le f i k in
      let e = spot_stable f i (length xs) h k in
      let e' = spot_stable f i (length (xs ++ ys)) (omega arith) k in
      rw (e, e') (get_elem?-append_left xs ys (home f i) (omega arith))

module _ {S F : Type 0} (kernel : List S → F) where
  -- Frame `f` of the signal `xs`.
  abbrev pub frame_at : List S → ℕ → Option F
  frame_at xs f = gather (sample_at xs f) n_fft 0 >>= λ window. some (kernel window)

  -- A frame whose samples have all come stays what it is.
  pub frame_at-append :
      (xs ys : List S) (f : ℕ)
      → frame_hi_index f < length xs
      → frame_at (xs ++ ys) f ≡ frame_at xs f
  frame_at-append xs ys f h =
      ap (λ o. o >>= λ window. some (kernel window))
        (gather_cong (sample_at (xs ++ ys) f) (sample_at xs f) n_fft 0
          (λ i lo hi. sample_at-append xs ys f i h (omega arith)))

  pub frame_at_total :
      (xs : List S) (f : ℕ)
      → 2 * length xs < 2 ^ 31
      → f * hop + hop ≤ length xs
      → (w : List S) × (gather (sample_at xs f) n_fft 0 ≡ some w)
        × (frame_at xs f ≡ some (kernel w))
  frame_at_total xs f b h =
      let (w, e, _) =
        gather_total (sample_at xs f) n_fft 0
          (λ i lo hi. sample_at_total xs f i b h (omega arith)) in
      (w, e, rw e refl)

module _ {S F : Type 0} (kernel : List S → F) (fe : MelFrontend S F) (xs : List S)
    (received : fe.total_received ≡ length xs) (kept : fe.pcm ≡ drop fe.pcm_base xs)
    (small : 2 * length xs < 2 ^ 31) where
  read_pcm_lem : (r : ℕ) → fe.pcm_base ≤ r → read_pcm fe (some r) ≡ read_at xs (some r)
  unfolding read_pcm
  read_pcm_lem r h =
      let t : ltb r fe.pcm_base ≡ false = ground arith in
      let e : fe.pcm_base + (r - fe.pcm_base) ≡ r = omega arith in
      rw t (
        ap (λ l. get_elem? l (r - fe.pcm_base)) kept
        ∙ get_elem?-drop xs fe.pcm_base (r - fe.pcm_base)
        ∙ ap (get_elem? xs) e)

  -- The samples that a frame reads are among those kept.
  fill_window_lem :
      (f : ℕ)
      → fe.pcm_base ≤ frame_lo_index f
      → f * hop + hop ≤ length xs
      → fill_window fe f (int32 fe.total_received) ≡ gather (sample_at xs f) n_fft 0
  unfolding fill_window
  fill_window_lem f low h = rw received (
      gather_cong _ (sample_at xs f) n_fft 0 (λ i lo hi.
        let (r, e, a, b) = batch-Reads f i (length xs) small h (omega arith) in
        ap (λ o. o >>= λ src. read_pcm fe (resolve src (int32 (length xs))))
          (source_index-int32 f i (omega arith))
        ∙ ap (λ n. read_pcm fe (resolve (sub_ℕ (f * hop + i) pad) n))
            (int32_lem (length xs) (omega arith))
        ∙ ap (read_pcm fe) e
        ∙ read_pcm_lem r (omega arith)
        ∙ ap (read_at xs) (sym e)))

  -- So computing a frame stores that frame, and changes nothing else but the count.
  pub compute_and_store_frame_lem :
      (f : ℕ)
      → fe.pcm_base ≤ frame_lo_index f
      → f * hop + hop ≤ length xs
      → (y : F) × (frame_at kernel xs f ≡ some y)
        × (compute_and_store_frame kernel fe f (int32 fe.total_received)
            ≡ some (record fe {
              mel_frames = fe.mel_frames ++ (y ∷ []);
              dft_frames_computed = fe.dft_frames_computed + 1;
            }))
  unfolding compute_and_store_frame
  compute_and_store_frame_lem f low h =
      let (w, e, p) = frame_at_total kernel xs f small h in
      (kernel w, p, rw (fill_window_lem f low h ∙ e) refl)
