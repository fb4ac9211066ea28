-- ===== src/Mel/Frontend.antt =====
-- src/voxtral-mel.cpp, the incremental frontend: it keeps the samples that a later frame reads, and
-- computes a frame once the samples that it reads are there. A frame is one element of
-- `mel_frames`, for its n_mel floats. The Hann window and the filters are in the kernel.
pub mod Window
pub mod Stable
pub mod Sound
pub mod Session
pub mod Discards
pub mod Runs
pub mod Batch
pub mod Assemble
use voxtral_cpp.Prelude.{
  ℕ, zero, suc, ◌+◌, ◌-◌, ◌*◌, ◌/◌, ◌%◌, ◌^◌, min, max, Bool, true, false, not, ◌&&◌, ◌||◌, Option,
  none, some, List, [], ◌∷◌, ◌++◌, if◌then◌else◌, ltb, leb, ◌==◌, length, get_elem?, drop,
  replicate,
}
use voxtral_cpp.Prelude.Int.{ℤ, pos, negsuc, sub_ℕ, ◌+ℤ◌}
use voxtral_cpp.Mel.{hop, n_fft, pad, int32, resolve, gather, ◌>>=◌}

pub record MelFrontend (S F : Type 0) : Type 0 where
  -- the absolute samples from `pcm_base` on
  pub pcm : List S
  pub pcm_base : ℕ
  pub total_received : ℕ
  pub next_frame : ℕ
  pub frames_during_feed : ℕ
  pub frames_at_finish : ℕ
  pub dft_frames_computed : ℕ
  pub pcm_peak_retained : ℕ
  pub finalized : Bool
  -- the frames from `mel_base_frame` on
  pub mel_frames : List F
  pub mel_base_frame : ℕ
  pub retain_history : Bool

pub frame_hi_index : ℕ → ℕ
frame_hi_index f =
    let direct_hi = f * hop + (n_fft - 1) - pad in
    let reflect_hi = if ltb (f * hop) pad then pad - f * hop else direct_hi in
    if ltb reflect_hi direct_hi then direct_hi else reflect_hi

pub frame_lo_index : ℕ → ℕ
frame_lo_index f = if ltb (f * hop) pad then 0 else f * hop - pad

-- `voxtral_mel_frame_required_sample`
pub frame_required_sample : ℤ → ℕ
unfolding frame_hi_index
frame_required_sample (negsuc n) = 0
frame_required_sample (pos frame) = frame_hi_index frame

abbrev fits32 : ℤ → Bool
fits32 (pos n) = ltb n (2 ^ 31)
fits32 (negsuc n) = ltb n (2 ^ 31)

-- A sum of two `int32_t`.
abbrev add32 : ℤ → ℤ → Option ℤ
add32 a b = let c = a +ℤ b in if fits32 c then some c else none

-- `start + i - FE_PAD`
pub source_index : ℤ → ℕ → Option ℤ
source_index start i = add32 start (pos i) >>= λ k. add32 k (negsuc (pad - 1))

-- The samples that a caller gives: a null pointer with a count, or as many samples as it says.
pub data PcmInput (S : Type 0) : Type 0 where
  null_pcm : ℕ → PcmInput S
  samples : List S → PcmInput S

module _ {S F : Type 0} where
  -- `data[ridx - base]`
  pub read_pcm : MelFrontend S F → Option ℕ → Option S
  read_pcm fe ridx =
      ridx >>= λ k. if ltb k fe.pcm_base then none else get_elem? fe.pcm (k - fe.pcm_base)

  pub fill_window : MelFrontend S F → ℕ → ℤ → Option (List S)
  unfolding read_pcm resolve gather int32 source_index
  fill_window fe f n =
      gather (λ i. source_index (int32 (f * hop)) i >>= λ src. read_pcm fe (resolve src n)) n_fft 0

  pub trim : MelFrontend S F → MelFrontend S F
  unfolding frame_lo_index
  trim fe =
      let keep_from = frame_lo_index fe.next_frame in
      if ltb fe.pcm_base keep_from
      then record fe {
        pcm =
            if leb (length fe.pcm) (keep_from - fe.pcm_base)
            then []
            else drop (keep_from - fe.pcm_base) fe.pcm;
        pcm_base = keep_from;
      }
      else fe

  pub note_peak : MelFrontend S F → MelFrontend S F
  note_peak fe =
      if ltb fe.pcm_peak_retained (length fe.pcm)
      then record fe { pcm_peak_retained = length fe.pcm }
      else fe

  pub compact : MelFrontend S F → MelFrontend S F
  unfolding trim note_peak
  compact fe = note_peak (trim fe)

  unfoldable pub create : MelFrontend S F
  create = record {
    pcm = [];
    pcm_base = 0;
    total_received = 0;
    next_frame = 0;
    frames_during_feed = 0;
    frames_at_finish = 0;
    dft_frames_computed = 0;
    pcm_peak_retained = 0;
    finalized = false;
    mel_frames = [];
    mel_base_frame = 0;
    retain_history = true;
  }

  unfoldable pub set_retain_history : Bool → MelFrontend S F → MelFrontend S F
  set_retain_history retain fe =
      if not retain && ltb 0 fe.mel_base_frame
      then record fe { retain_history = retain; mel_frames = [] }
      else record fe { retain_history = retain }

  pub reset : MelFrontend S F → MelFrontend S F
  reset fe = record fe {
    pcm = [];
    pcm_base = 0;
    total_received = 0;
    next_frame = 0;
    frames_during_feed = 0;
    frames_at_finish = 0;
    dft_frames_computed = 0;
    pcm_peak_retained = 0;
    finalized = false;
    mel_frames = [];
    mel_base_frame = 0;
  }

  pub frame_data : ℕ → MelFrontend S F → Option F
  frame_data frame fe =
      if ltb frame fe.mel_base_frame || leb fe.next_frame frame
      then none
      else if leb (length fe.mel_frames) (frame - fe.mel_base_frame)
      then none
      else get_elem? fe.mel_frames (frame - fe.mel_base_frame)

  pub discard_before : ℕ → MelFrontend S F → MelFrontend S F
  discard_before frame fe =
      let target = min frame (fe.mel_base_frame + length fe.mel_frames) in
      let drop_frames = target - fe.mel_base_frame in
      if fe.retain_history || leb frame fe.mel_base_frame || leb drop_frames 0
      then fe
      else record fe {
        mel_frames =
            if leb (length fe.mel_frames) drop_frames then [] else drop drop_frames fe.mel_frames;
        mel_base_frame = target;
      }

  -- The columns of the matrix that they write; `assemble_even` drops the first of an odd number.
  pub assemble_raw : MelFrontend S F → Option (List F)
  unfolding gather
  assemble_raw fe =
      if not (fe.mel_base_frame == 0)
      then some []
      else gather (λ f. get_elem? fe.mel_frames f) fe.next_frame 0

  pub assemble_even : MelFrontend S F → Option (List F)
  unfolding gather
  assemble_even fe =
      let src_off = if fe.next_frame % 2 == 0 then 0 else 1 in
      if not (fe.mel_base_frame == 0)
      then some []
      else gather (λ j. get_elem? fe.mel_frames (j + src_off)) (fe.next_frame - src_off) 0

module _ {S F : Type 0} (kernel : List S → F) where
  pub compute_and_store_frame : MelFrontend S F → ℕ → ℤ → Option (MelFrontend S F)
  unfolding fill_window
  compute_and_store_frame fe f n = fill_window fe f n >>= λ window. some (record fe {
    mel_frames = fe.mel_frames ++ (kernel window ∷ []);
    dft_frames_computed = fe.dft_frames_computed + 1;
  })

  -- The loop on the given number of rounds.
  pub emit_stable_frames : ℕ → MelFrontend S F → Option (MelFrontend S F)
  unfolding compute_and_store_frame frame_hi_index
  emit_stable_frames zero fe = none
  emit_stable_frames (suc fuel) fe = elim (ltb (frame_hi_index fe.next_frame) fe.total_received) [
    | false ↦ some fe
    | true ↦ compute_and_store_frame fe fe.next_frame (int32 fe.total_received) >>= λ fe1.
        emit_stable_frames fuel (record fe1 {
          next_frame = fe1.next_frame + 1;
          frames_during_feed = fe1.frames_during_feed + 1;
        })
  ]

  -- The samples at the end, then the stable frames, then the compaction. Each frame needs a sample
  -- more than the last, so there are fewer rounds than samples.
  pub accept : List S → MelFrontend S F → Option (Bool × MelFrontend S F)
  unfolding emit_stable_frames compact
  accept xs fe =
      let fe1 = record fe { pcm = fe.pcm ++ xs; total_received = fe.total_received + length xs } in
      emit_stable_frames (suc fe1.total_received) fe1 >>= λ fe2. some (true, compact fe2)

  pub feed : PcmInput S → MelFrontend S F → Option (Bool × MelFrontend S F)
  unfolding accept
  feed (null_pcm n) fe = if fe.finalized then some (false, fe) else some (n == 0, fe)
  feed (samples xs) fe =
      if fe.finalized
      then some (false, fe)
      else if length xs == 0
      then some (true, fe)
      else accept xs fe

  pub feed_silence : S → ℕ → MelFrontend S F → Option (Bool × MelFrontend S F)
  unfolding accept
  feed_silence silence n fe =
      if fe.finalized
      then some (false, fe)
      else if n == 0
      then some (true, fe)
      else accept (replicate n silence) fe

  -- The `while` loop of `finish` on the given number of rounds.
  pub emit_rest : ℕ → ℕ → MelFrontend S F → Option (MelFrontend S F)
  unfolding compute_and_store_frame
  emit_rest zero n_total fe = none
  emit_rest (suc fuel) n_total fe = elim (ltb fe.next_frame n_total) [
    | false ↦ some fe
    | true ↦ compute_and_store_frame fe fe.next_frame (int32 fe.total_received) >>= λ fe1.
        emit_rest fuel n_total (record fe1 {
          next_frame = fe1.next_frame + 1;
          frames_at_finish = fe1.frames_at_finish + 1;
        })
  ]

  pub finish : MelFrontend S F → Option (MelFrontend S F)
  unfolding emit_rest
  finish fe =
      let n_total = fe.total_received / hop in
      if fe.finalized
      then some fe
      else emit_rest (suc n_total) n_total (record fe { finalized = true }) >>= λ fe1.
          some (record fe1 { pcm = []; pcm_base = fe1.total_received })
