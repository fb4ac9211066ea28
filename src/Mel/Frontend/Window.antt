-- ===== src/Mel/Frontend/Window.antt =====
-- Which sample each place of a window reads.
use voxtral_cpp.Prelude.{
  ℕ, ◌+◌, ◌-◌, ◌*◌, ◌^◌, ◌≤◌, ◌<◌, ◌≡◌, ap, ◌∙◌, true, false, Option, some, arith, if◌then◌else◌,
  ltb,
}
use native.Mathlib.Decide.{dec_lt}
use voxtral_cpp.Prelude.Int.{pos, sub_ℕ}
use voxtral_cpp.Mel.{hop, n_fft, pad, int32, resolve}
use voxtral_cpp.Mel.Frontend.{frame_hi_index, frame_lo_index, source_index}
use voxtral_cpp.Mel.Reflect.{
  wave, wave_high, wave_bound, resolve_mirror, resolve_before, resolve_within, resolve_after,
}

-- The sample that place `i` of frame `f` reads, of `n` in all.
abbrev pub spot : ℕ → ℕ → ℕ → Option ℕ
spot f i n = resolve (sub_ℕ (f * hop + i) pad) (pos n)

-- The 32-bit arithmetic of the incremental frontend reads that sample too.
pub int32_lem : (n : ℕ) → n < 2 ^ 31 → int32 n ≡ pos n
unfolding int32
int32_lem n h = ground arith

pub source_index-int32 :
    (f i : ℕ)
    → f * hop + i < 2 ^ 31
    → source_index (int32 (f * hop)) i ≡ some (sub_ℕ (f * hop + i) pad)
unfolding source_index
source_index-int32 f i h = rw (int32_lem (f * hop) (omega (arith, h))) (sum_fits (f * hop) i h)
  where
    sum_fits : (s i : ℕ) → s + i < 2 ^ 31 → source_index (pos s) i ≡ some (sub_ℕ (s + i) pad)
    sum_fits s i h = ground (arith, h)

-- The place reads a sample that there is, and none below the lowest that the frame may read.
abbrev pub Reads : ℕ → ℕ → ℕ → Type 0
Reads f i n = (r : ℕ) × (spot f i n ≡ some r) × (frame_lo_index f ≤ r) × (r < n)

frame_lo_index-zero : (f i : ℕ) → f * hop + i < pad → frame_lo_index f ≡ 0
unfolding frame_lo_index
frame_lo_index-zero f i h = ground arith

frame_lo_index-le : (f : ℕ) → frame_lo_index f ≤ f * hop - pad
unfolding frame_lo_index
frame_lo_index-le f = ground arith

-- Every place of every frame that the batch has.
pub batch-Reads : (f i n : ℕ) → 2 * n < 2 ^ 31 → f * hop + hop ≤ n → i < n_fft → Reads f i n
batch-Reads f i n b h k = elim (dec_lt (f * hop + i) pad) [
  | yes before ↦
      let z = frame_lo_index-zero f i before in
      (
        wave n (pad - (f * hop + i)),
        resolve_before (f * hop + i) n (omega arith) b before,
        omega arith,
        wave_bound n (pad - (f * hop + i)) (omega arith),
      )
  | no later ↦
      let l = frame_lo_index-le f in
      elim (dec_lt (f * hop + i - pad) n) [
        | yes within ↦ (
          f * hop + i - pad,
          resolve_within (f * hop + i) n (omega arith) (omega arith) within,
          omega arith,
          within,
        )
        | no after ↦ (
          2 * n - 2 - (f * hop + i - pad),
          resolve_after (f * hop + i) n (omega arith) b (omega arith) (omega arith) (omega arith)
              ∙ ap some (wave_high n (f * hop + i - pad) (omega arith) (omega arith) (omega arith)),
          omega arith,
          omega arith,
        )
      ]
]

-- Where place `i` of frame `f` reads, once no sample that is still to come changes it.
abbrev pub home : ℕ → ℕ → ℕ
home f i = if ltb (f * hop + i) pad then pad - (f * hop + i) else f * hop + i - pad

pub frame_hi_index-bounds :
    (f : ℕ) → (f * hop + (n_fft - 1) - pad ≤ frame_hi_index f) × (pad - f * hop ≤ frame_hi_index f)
unfolding frame_hi_index
frame_hi_index-bounds f = ground arith

pub spot_stable : (f i n : ℕ) → frame_hi_index f < n → i < n_fft → spot f i n ≡ some (home f i)
spot_stable f i n h k =
    let (a, b) = frame_hi_index-bounds f in
    elim (dec_lt (f * hop + i) pad) [
      | yes before ↦
          let t : ltb (f * hop + i) pad ≡ true = ground arith in
          rw t (resolve_mirror (f * hop + i) n (omega arith) before (omega arith))
      | no later ↦
          let t : ltb (f * hop + i) pad ≡ false = ground arith in
          rw t (resolve_within (f * hop + i) n (omega arith) (omega arith) (omega arith))
    ]

pub home-le : (f i : ℕ) → i < n_fft → (home f i ≤ frame_hi_index f) × (frame_lo_index f ≤ home f i)
home-le f i k =
    let (a, b) = frame_hi_index-bounds f in
    elim (dec_lt (f * hop + i) pad) [
      | yes before ↦
          let t : ltb (f * hop + i) pad ≡ true = ground arith in
          let z = frame_lo_index-zero f i before in rw t (omega arith, omega arith)
      | no later ↦
          let t : ltb (f * hop + i) pad ≡ false = ground arith in
          let l = frame_lo_index-le f in rw t (omega arith, omega arith)
    ]
