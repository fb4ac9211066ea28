-- ===== src/Mel/Frontend/Discards.antt =====
-- What the reader's discard does to the frontend.
use voxtral_cpp.Prelude.{
  ℕ, ◌+◌, ◌-◌, ◌/◌, ◌≤◌, ◌≡◌, refl, ap, sym, ◌∙◌, min, max, Bool, ◌||◌, if◌then◌else◌, some, List,
  arith, leb, if-cases, length, drop, take_all, drop_all, length-drop,
}
use native.Mathlib.Decide.{dec_lt}
use voxtral_cpp.Mel.{pad, hop, gather}
use voxtral_cpp.Mel.Gather.{gather-take-drop, length-gather}
use voxtral_cpp.Mel.Frontend.{MelFrontend, frame_hi_index, discard_before}
use voxtral_cpp.Mel.Frontend.Stable.{frame_at}
use voxtral_cpp.Mel.Frontend.Session.{IsLive}

-- How many frames have all their samples, after so many samples.
abbrev pub stable_frames : ℕ → ℕ
stable_frames n = if leb n pad then 0 else (n - pad) / hop + 1

-- The base after a discard of the frames before `f`: a frontend that retains its history drops
-- nothing, and another drops what is asked for as far as it has come.
abbrev pub discarded_base : Bool → ℕ → ℕ → ℕ → ℕ
discarded_base retain received base f =
    if retain then base else max base (min f (stable_frames received))

module _ {S F : Type 0} (kernel : List S → F) where
  -- Dropping the first frames that it holds.
  dropped_frames :
      (xs : List S) (fe : MelFrontend S F) (d : ℕ)
      → IsLive kernel xs fe
      → d ≤ length fe.mel_frames
      → (frames : List F) (base : ℕ) → frames ≡ drop d fe.mel_frames
      → base ≡ fe.mel_base_frame + d
      → IsLive kernel xs (record fe { mel_frames = frames; mel_base_frame = base })
  dropped_frames xs fe d h k frames base e b =
      let t = h.tracks in
      let g = frame_at kernel xs in
      let n = fe.next_frame - fe.mel_base_frame in
      let m = length-gather g n fe.mel_base_frame fe.mel_frames t.framed in
      let l = length-drop d fe.mel_frames in
      let w = t.based in
      let r : fe.next_frame - base ≡ n - d = omega arith in
      record {
        tracks = record {
          received = t.received;
          kept = t.kept;
          low = t.low;
          within = t.within;
          based = omega arith;
          framed =
              ap (λ i. gather g i base) r
              ∙ ap (gather g (n - d)) b
              ∙ gather-take-drop g n d (n - d) fe.mel_base_frame fe.mel_frames t.framed
                  (omega arith)
              ∙ ap some (take_all (n - d) (drop d fe.mel_frames) (omega arith) ∙ sym e);
          counted = t.counted;
        };
        settled = h.settled;
        caught_up = h.caught_up;
        running = h.running;
        none_at_finish = h.none_at_finish;
        bounded = h.bounded;
      }

  pub discard_before-IsLive :
      (xs : List S) (f : ℕ) (fe : MelFrontend S F)
      → IsLive kernel xs fe
      → IsLive kernel xs (discard_before f fe)
  unfolding discard_before
  discard_before-IsLive xs f fe h =
      let target = min f (fe.mel_base_frame + length fe.mel_frames) in
      let d = target - fe.mel_base_frame in
      if-cases (IsLive kernel xs) (fe.retain_history || leb f fe.mel_base_frame || leb d 0) (λ _. h)
        (λ e.
          let above : fe.mel_base_frame ≤ target = ground arith in
          dropped_frames xs fe d h (omega arith) _ target
            (if-cases (λ l. l ≡ drop d fe.mel_frames) (leb (length fe.mel_frames) d)
              (λ k. sym (drop_all d fe.mel_frames (ground arith))) (λ _. refl))
            (omega arith))

  stable_frames_lem :
      (xs : List S) (fe : MelFrontend S F)
      → IsLive kernel xs fe
      → fe.next_frame ≡ stable_frames (length xs)
  unfolding frame_hi_index
  stable_frames_lem xs fe h =
      let c = h.caught_up in
      elim (dec_lt 0 fe.next_frame) [
        | yes later ↦
            let s = h.settled (fe.next_frame - 1) (omega arith) in ground (arith, later, s, c)
        | no first ↦ let z : fe.next_frame ≡ 0 = omega arith in ground (arith, z, c)
      ]

  -- What a discard does to the base, by its argument and the samples alone.
  pub discard_before-base :
      (xs : List S) (f : ℕ) (fe : MelFrontend S F)
      → IsLive kernel xs fe
      → (discard_before f fe).mel_base_frame
        ≡ discarded_base fe.retain_history (length xs) fe.mel_base_frame f
  unfolding discard_before
  discard_before-base xs f fe h =
      let t = h.tracks in
      let n = stable_frames_lem xs fe h in
      let b = t.based in
      let g = frame_at kernel xs in
      let m =
        length-gather g (fe.next_frame - fe.mel_base_frame) fe.mel_base_frame fe.mel_frames
          t.framed in
      let k : fe.mel_base_frame + length fe.mel_frames ≡ stable_frames (length xs) =
        omega (arith, n, b, m) in
      rw k (ground (arith, b))

  pub discard_before-retain :
      (f : ℕ) (fe : MelFrontend S F) → (discard_before f fe).retain_history ≡ fe.retain_history
  unfolding discard_before
  discard_before-retain f fe = ground arith
