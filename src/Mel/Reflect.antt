-- ===== src/Mel/Reflect.antt =====
-- The reflect loop ends, within the signal, at the index that a triangular wave gives.
use native.Mathlib.Nat.{mod-eq_of_lt, mod-eq-sub-mod, mod_self, mod-lt}
use native.Mathlib.Decide.{dec_lt}
use voxtral_cpp.Prelude.{
  ℕ, zero, suc, ◌+◌, ◌-◌, ◌*◌, ◌%◌, ◌^◌, ◌≤◌, ◌<◌, ◌≡◌, refl, true, false, ap, sym, ◌∙◌, some,
  arith, ltb, leb, if◌then◌else◌,
}
use voxtral_cpp.Prelude.Int.{ℤ, pos, negsuc, pos_part, neg_part, sub_ℕ}
use voxtral_cpp.Mel.{pad, reflect_loop, reflect_index, resolve}

-- The wave that runs from 0 up to the last index and down again, at the distance `n` from 0.
abbrev pub wave : ℕ → ℕ → ℕ
wave len n = let r = n % (2 * len - 2) in if ltb r len then r else 2 * len - 2 - r

pub wave_low : (len n : ℕ) → 2 ≤ len → n < len → wave len n ≡ n
wave_low len n h k =
    let l : n < 2 * len - 2 = omega arith in
    let e : n % (2 * len - 2) ≡ n = mod-eq_of_lt l in ground (arith, e)

pub wave_high : (len n : ℕ) → 2 ≤ len → len ≤ n → n < 2 * len - 2 → wave len n ≡ 2 * len - 2 - n
wave_high len n h k l = let e : n % (2 * len - 2) ≡ n = mod-eq_of_lt l in ground (arith, e)

wave_turn : (len : ℕ) → 2 ≤ len → wave len (2 * len - 2) ≡ 0
wave_turn len h =
    let e : (2 * len - 2) % (2 * len - 2) ≡ 0 = mod_self (2 * len - 2) in ground (arith, e)

wave_over : (len n : ℕ) → 2 ≤ len → 2 * len - 2 ≤ n → wave len n ≡ wave len (n - (2 * len - 2))
wave_over len n h k =
    let e : n % (2 * len - 2) ≡ (n - (2 * len - 2)) % (2 * len - 2) = mod-eq-sub-mod k in
    ap (λ r. if ltb r len then r else 2 * len - 2 - r) e

loop_within : (f n len : ℕ) → n < len → reflect_loop (suc f) (pos n) len ≡ some n
unfolding reflect_loop
loop_within f n len h = ground arith

loop_once :
    (f n len : ℕ)
    → 2 ≤ len
    → 2 * len < 2 ^ 31
    → len ≤ n
    → n ≤ 2 * len - 2
    → reflect_loop (suc (suc f)) (pos n) len ≡ some (2 * len - 2 - n)
unfolding reflect_loop
loop_once f n len h b k l = ground arith

loop_over :
    (f n len : ℕ)
    → 2 ≤ len
    → 2 * len < 2 ^ 31
    → 2 * len - 2 < n
    → n < 2 ^ 31
    → reflect_loop (suc (suc f)) (pos n) len ≡ reflect_loop f (pos (n - (2 * len - 2))) len
unfolding reflect_loop
loop_over f n len h b k m =
    let e : suc (n - (2 * len - 2) - 1) ≡ n - (2 * len - 2) = omega arith in
    let low : ltb n len ≡ false = ground arith in
    let far : leb n (2 * len - 2) ≡ false = ground arith in
    let short : leb (2 ^ 31) (2 * len) ≡ false = ground arith in
    let room : leb (2 ^ 31) (suc (n - (2 * len - 2) - 1)) ≡ false = ground arith in
    rw (low, short, far) (rw room (ap (λ k. reflect_loop f (pos k) len) e))

wave_back : (len n : ℕ) → 2 ≤ len → len ≤ n → n ≤ 2 * len - 2 → wave len n ≡ 2 * len - 2 - n
wave_back len n h k l = elim (dec_lt n (2 * len - 2)) [
  | yes below ↦ wave_high len n h k below
  | no top ↦
      let e : n ≡ 2 * len - 2 = omega arith in ap (wave len) e ∙ wave_turn len h ∙ omega arith
]

pub wave_bound : (len n : ℕ) → 2 ≤ len → wave len n < len
wave_bound len n h =
    let e : n % (2 * len - 2) < 2 * len - 2 = mod-lt n (omega arith) in ground (arith, e)

reflect_loop_lem :
    (f n len : ℕ)
    → 2 ≤ len
    → 2 * len < 2 ^ 31
    → n < 2 ^ 31
    → n + 2 ≤ f
    → reflect_loop f (pos n) len ≡ some (wave len n)
reflect_loop_lem zero n len h b m k = absurd (omega arith)
reflect_loop_lem (suc zero) n len h b m k = absurd (omega arith)
reflect_loop_lem (suc (suc f)) n len h b m k = elim (dec_lt n len) [
  | yes low ↦ loop_within (suc f) n len low ∙ ap some (sym (wave_low len n h low))
  | no high ↦ elim (dec_lt (2 * len - 2) n) [
    | yes over ↦
        loop_over f n len h b over m
        ∙ reflect_loop_lem f (n - (2 * len - 2)) len h b (omega arith) (omega arith)
        ∙ ap some (sym (wave_over len n h (omega arith)))
    | no once ↦
        loop_once f n len h b (omega arith) (omega arith)
        ∙ ap some (sym (wave_back len n h (omega arith) (omega arith)))
  ]
]

loop_turn :
    (f n len : ℕ)
    → suc n < 2 ^ 31
    → reflect_loop (suc f) (negsuc n) len ≡ reflect_loop f (pos (suc n)) len
unfolding reflect_loop
loop_turn f n len m = let e : leb (2 ^ 31) (suc n) ≡ false = ground arith in rw e refl

loop_back :
    (n len : ℕ)
    → 2 ≤ len
    → 2 * len < 2 ^ 31
    → suc n < 2 ^ 31
    → reflect_loop (0 + suc n + 3) (negsuc n) len ≡ some (wave len (0 + suc n))
loop_back n len h b m =
    let e : 0 + suc n + 3 ≡ suc (n + 3) = omega arith in
    ap (λ f. reflect_loop f (negsuc n) len) e
    ∙ loop_turn (n + 3) n len m
    ∙ reflect_loop_lem (n + 3) (suc n) len h b m (omega arith)
    ∙ ap (λ k. some (wave len k)) (omega arith)

-- An index before the start that its mirror brings into the signal at once.
loop_mirror :
    (n len : ℕ)
    → 2 ≤ len
    → suc n < len
    → suc n < 2 ^ 31
    → reflect_loop (0 + suc n + 3) (negsuc n) len ≡ some (suc n)
loop_mirror n len h k m =
    let e : 0 + suc n + 3 ≡ suc (suc (n + 2)) = omega arith in
    ap (λ f. reflect_loop f (negsuc n) len) e
    ∙ loop_turn (suc (n + 2)) n len m
    ∙ loop_within (n + 2) (suc n) len k

abbrev pub ReflectsTo : ℤ → ℕ → ℕ → Type 0
ReflectsTo idx len r = (reflect_index idx (pos len) ≡ some r) × (r < len)

-- For a length of 2 at least and below 2^30, and any 32-bit index but the least, the loop ends
-- without an overflow, at the index that the wave gives at the distance from 0, which lies in the
-- signal.
pub reflect_index-wave :
    (idx : ℤ) (len : ℕ)
    → 2 ≤ len
    → 2 * len < 2 ^ 31
    → pos_part idx + neg_part idx < 2 ^ 31
    → ReflectsTo idx len (wave len (pos_part idx + neg_part idx))
unfolding reflect_index
reflect_index-wave (pos n) len h b m =
    let e : leb len 1 ≡ false = ground arith in
    (
      rw e (
          reflect_loop_lem (n + 0 + 3) n len h b (omega (arith, m)) (omega arith)
          ∙ ap (λ k. some (wave len k)) (omega arith)),
      wave_bound len (n + 0) h,
    )
reflect_index-wave (negsuc n) len h b m =
    let e : leb len 1 ≡ false = ground arith in
    (rw e (loop_back n len h b (omega (arith, m))), wave_bound len (0 + suc n) h)

module _ (d n : ℕ) (long : 2 ≤ n) where
  -- What is read before the start of the signal.
  pub resolve_mirror : d < pad → pad - d < n → resolve (sub_ℕ d pad) (pos n) ≡ some (pad - d)
  unfolding resolve reflect_index
  resolve_mirror h m =
      let e : leb pad d ≡ false = ground arith in
      let l : leb n 1 ≡ false = ground arith in
      let k : suc (pad - d - 1) ≡ pad - d = omega arith in
      rw e (rw l (loop_mirror (pad - d - 1) n long (omega arith) (omega arith) ∙ ap some k))

  pub resolve_before :
      2 * n < 2 ^ 31 → d < pad → resolve (sub_ℕ d pad) (pos n) ≡ some (wave n (pad - d))
  unfolding resolve
  resolve_before b h =
      let e : leb pad d ≡ false = ground arith in
      let k : 0 + suc (pad - d - 1) ≡ pad - d = omega arith in
      rw e (
        (reflect_index-wave (negsuc (pad - d - 1)) n long b (omega arith)).0
        ∙ ap (λ m. some (wave n m)) k)

  pub resolve_within : pad ≤ d → d - pad < n → resolve (sub_ℕ d pad) (pos n) ≡ some (d - pad)
  unfolding resolve
  resolve_within h k =
      let e : leb pad d ≡ true = ground arith in
      let l : ltb (d - pad) n ≡ true = ground arith in rw e (rw l refl)

  -- And behind its end.
  pub resolve_after :
      2 * n < 2 ^ 31
      → d - pad < 2 ^ 31
      → pad ≤ d
      → n ≤ d - pad
      → resolve (sub_ℕ d pad) (pos n) ≡ some (wave n (d - pad))
  unfolding resolve
  resolve_after b s h k =
      let e : leb pad d ≡ true = ground arith in
      let l : ltb (d - pad) n ≡ false = ground arith in
      let m : d - pad + 0 ≡ d - pad = omega arith in
      rw e (
        rw l (
          (reflect_index-wave (pos (d - pad)) n long b (omega arith)).0
          ∙ ap (λ m. some (wave n m)) m))
