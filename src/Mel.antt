-- ===== src/Mel.antt =====
-- src/voxtral-mel.cpp, the log-Mel frontend without its floating point: the reflect padding, the
-- batch spectrogram as a list of frames, and below, the incremental frontend. What computes one
-- frame from its window, `voxtral_mel_frame_from_window`, is a parameter, since it is floating-point
-- arithmetic of its window alone. A read out of bounds, a signed
-- overflow, and rounds that do not suffice, give `none`.
pub mod Reflect
pub mod Gather
pub mod Frontend
use voxtral_cpp.Prelude.{
  ℕ, zero, suc, ◌+◌, ◌-◌, ◌*◌, ◌/◌, ◌%◌, ◌^◌, ◌&&◌, Option, none, some, List, [], ◌∷◌,
  if◌then◌else◌, ltb, leb, length, get_elem?, take, drop,
}
use voxtral_cpp.Prelude.Int.{ℤ, pos, negsuc, pos_part, neg_part, sub_ℕ, ◌+ℤ◌}

abbrev pub n_fft : ℕ
n_fft = 400

abbrev pub hop : ℕ
hop = 160

abbrev pub pad : ℕ
pad = 200

-- The cast `(int32_t) n` of a number that is not negative.
pub int32 : ℕ → ℤ
int32 n = let w = n % 2 ^ 32 in if ltb w (2 ^ 31) then pos w else negsuc (2 ^ 32 - w - 1)

-- The `while` loop of `voxtral_reflect_index`. `-idx` leaves the 32 bits for the least index only,
-- and `2 * len` for a length of 2^30 and above.
pub reflect_loop : ℕ → ℤ → ℕ → Option ℕ
reflect_loop zero idx len = none
reflect_loop (suc f) (negsuc n) len =
    let rest = reflect_loop f (pos (suc n)) len in if leb (2 ^ 31) (suc n) then none else rest
reflect_loop (suc f) (pos n) len =
    let rest = reflect_loop f (sub_ℕ (2 * len - 2) n) len in
    if ltb n len then some n else if leb (2 ^ 31) (2 * len) then none else rest

-- As many rounds as the distance of the index from 0, and three more.
pub reflect_index : ℤ → ℤ → Option ℕ
unfolding reflect_loop
reflect_index idx (negsuc len) = some 0
reflect_index idx (pos len) =
    if leb len 1 then some 0 else reflect_loop (pos_part idx + neg_part idx + 3) idx len

-- `(src >= 0 && src < n) ? src : voxtral_reflect_index(src, n)`
pub resolve : ℤ → ℤ → Option ℕ
unfolding reflect_index
resolve (pos src) (pos n) = if ltb src n then some src else reflect_index (pos src) (pos n)
resolve src n = reflect_index src n

infixl 5 ◌>>=◌
abbrev pub ◌>>=◌ {ℓ κ} : {A : Type ℓ} {B : Type κ} → Option A → (A → Option B) → Option B
none >>= f = none
some a >>= f = f a

module _ {ℓ} {A : Type ℓ} where
  -- A loop that fills an array: what `get` gives at `i`, `i + 1`, and so on, for so many rounds.
  pub gather : (ℕ → Option A) → ℕ → ℕ → Option (List A)
  gather get zero i = some []
  gather get (suc rounds) i = get i >>= λ a. gather get rounds (i + 1) >>= λ rest. some (a ∷ rest)

  -- `audio[i]`
  abbrev pub read_at : List A → Option ℕ → Option A
  read_at audio i = i >>= λ k. get_elem? audio k

-- `voxtral_mel_batch_frame_count`, for a count that is not negative
pub batch_frame_count : ℕ → ℕ
batch_frame_count n_samples = if leb n_samples 0 then 0 else n_samples / hop + 1 - 1

module _ {S F : Type 0} (kernel : List S → F) where
  -- The array `centered`, once and for all frames.
  pub center : List S → Option (List S)
  unfolding gather resolve
  center audio =
      let filled =
        gather (λ i. read_at audio (resolve (sub_ℕ i pad) (pos (length audio))))
          (length audio + 2 * pad) 0 in
      if leb (2 ^ 31) (length audio + 2 * pad) then none else filled

  pub window_at : List S → ℕ → Option (List S)
  window_at centered start =
      if leb (start + n_fft) (length centered)
      then some (take n_fft (drop start centered))
      else none

  -- `voxtral_mel_compute_batch`: the frames in order, where the source writes each as a column.
  pub compute_batch : List S → Option (List F)
  unfolding center window_at gather batch_frame_count
  compute_batch audio =
      let n_frames = batch_frame_count (length audio) in
      if leb n_frames 0
      then some []
      else center audio >>= λ centered.
          gather (λ frame. window_at centered (frame * hop) >>= λ window. some (kernel window))
            n_frames 0
