-- ===== src/KvCache/Segments.antt =====
-- src/voxtral.cpp: a span of absolute positions as physical segments of a ring; `decoder_kv_segments`
-- and `enc_kv_ring_segments`. The array of two segments with its count is a list.
use native.Mathlib.Nat.{
  suc-mod, mod-eq_of_lt, mod-eq-sub-mod, mod-add-mod, mod_self, mod-lt, zero-mod,
}
use voxtral_cpp.Prelude.{
  ℕ, zero, suc, ◌+◌, ◌-◌, ◌%◌, ◌≤◌, ◌<◌, min, ◌≡◌, refl, sym, ap, ◌∙◌, ◌≢◌, List, [], ◌∷◌, ◌++◌,
  map, append-nil, arith, if◌then◌else◌, leb, leb→le, ◌==◌, if-cases, Bool-cases, inl, inr,
}

pub record Segment : Type 0 where
  pub slot : ℕ
  pub len : ℕ

unfoldable pub decoder_kv_segments : ℕ → ℕ → ℕ → List Segment
decoder_kv_segments absolute_start len capacity =
    let slot = absolute_start % capacity in
    let first = min len (capacity - slot) in
    if len == 0
    then []
    else if first == len
    then record { slot = slot; len = first } ∷ []
    else record { slot = slot; len = first } ∷ record { slot = 0; len = len - first } ∷ []

unfoldable pub enc_kv_ring_segments : ℕ → ℕ → ℕ → List Segment
enc_kv_ring_segments abs_start len capacity =
    let slot = abs_start % capacity in
    let first = min len (capacity - slot) in
    if len == 0
    then []
    else if leb len first
    then record { slot = slot; len = first } ∷ []
    else record { slot = slot; len = first } ∷ record { slot = 0; len = len - first } ∷ []

-- The numbers k, k + 1, and so on.
abbrev pub count_from : ℕ → ℕ → List ℕ
count_from k zero = []
count_from k (suc n) = k ∷ count_from (suc k) n

-- The slots of segments, in order.
abbrev pub slots_of : List Segment → List ℕ
slots_of [] = []
slots_of (s ∷ ss) = count_from s.slot s.len ++ slots_of ss

-- The slots of a span of positions, in order.
abbrev pub ring_slots : ℕ → ℕ → ℕ → List ℕ
ring_slots start len capacity = map (λ a. a % capacity) (count_from start len)

module _ (capacity : ℕ) where
  ring_slots-append :
      (start a b : ℕ)
      → ring_slots start (a + b) capacity
        ≡ ring_slots start a capacity ++ ring_slots (start + a) b capacity
  ring_slots-append start zero b =
      ap (λ n. ring_slots start n capacity) (omega arith)
      ∙ ap (λ x. ring_slots x b capacity) (omega arith)
  ring_slots-append start (suc a) b =
      let next : suc start + a ≡ start + suc a = omega arith in
      let size : suc a + b ≡ suc (a + b) = omega arith in
      ap (λ n. ring_slots start n capacity) size
      ∙ ap (λ xs. start % capacity ∷ xs) (ring_slots-append (suc start) a b)
      ∙ ap (λ x. start % capacity ∷ (ring_slots (suc start) a capacity ++ ring_slots x b capacity))
          next

  -- A span that does not wrap.
  ring_slots-flat :
      (start k n : ℕ)
      → start % capacity ≡ k % capacity
      → k + n ≤ capacity
      → ring_slots start n capacity ≡ count_from k n
  ring_slots-flat start k zero e h = refl
  ring_slots-flat start k (suc n) e h =
      let head : start % capacity ≡ k = e ∙ mod-eq_of_lt (omega arith) in
      let next : suc start % capacity ≡ suc k % capacity =
        suc-mod start capacity ∙ ap (λ x. suc x % capacity) e ∙ sym (suc-mod k capacity) in
      rw (head, ring_slots-flat (suc start) (suc k) n next (omega arith)) refl

  -- From the slot at the end of the ring on, a span starts over.
  wraps_at_end :
      (start : ℕ) → 0 < capacity → (start + (capacity - start % capacity)) % capacity ≡ 0 % capacity
  wraps_at_end start pos =
      let below = mod-lt start pos in
      let full : start % capacity + (capacity - start % capacity) ≡ capacity =
        omega (arith, below) in
      sym (mod-add-mod start capacity (capacity - start % capacity))
      ∙ ap (λ x. x % capacity) full
      ∙ mod_self capacity
      ∙ sym (zero-mod capacity)

  ring_slots-split :
      (start len first : ℕ)
      → 0 < capacity
      → first ≡ capacity - start % capacity
      → first ≤ len
      → len ≤ capacity
      → ring_slots start len capacity
        ≡ count_from (start % capacity) first ++ (count_from 0 (len - first) ++ [])
  ring_slots-split start len first pos e le room =
      let below = mod-lt start pos in
      let total : first + (len - first) ≡ len = omega arith in
      ap (λ n. ring_slots start n capacity) (sym total)
      ∙ ring_slots-append start first (len - first)
      ∙ ap (λ xs. xs ++ ring_slots (start + first) (len - first) capacity)
          (ring_slots-flat start (start % capacity) first (sym (mod-eq_of_lt below))
            (omega (arith, below, e)))
      ∙ ap (λ xs. count_from (start % capacity) first ++ xs)
          (ring_slots-flat (start + first) 0 (len - first)
            (ap (λ x. (start + x) % capacity) e ∙ wraps_at_end start pos) (omega (arith, room)))
      ∙ ap (λ xs. count_from (start % capacity) first ++ xs)
          (sym (append-nil (count_from 0 (len - first))))

  ring_slots-whole :
      (start len : ℕ)
      → 0 < capacity
      → len ≤ capacity - start % capacity
      → ring_slots start len capacity ≡ count_from (start % capacity) len ++ []
  ring_slots-whole start len pos h =
      let below = mod-lt start pos in
      ring_slots-flat start (start % capacity) len (sym (mod-eq_of_lt below))
        (omega (arith, below, h))
      ∙ sym (append-nil (count_from (start % capacity) len))

  -- The segments of a span that fits the ring hold exactly the slots of its positions, each once
  -- and in order.
  pub decoder_kv_segments-slots :
      (start len : ℕ)
      → 0 < capacity
      → len ≤ capacity
      → slots_of (decoder_kv_segments start len capacity) ≡ ring_slots start len capacity
  unfolding decoder_kv_segments
  decoder_kv_segments-slots start len pos room =
      let first = min len (capacity - start % capacity) in
      let P : List Segment → Type 0 = λ ss. slots_of ss ≡ ring_slots start len capacity in
      if-cases P (len == 0) (λ t. let z : len ≡ 0 = ground (arith, t) in rw z refl)
        (λ _.
          if-cases P (first == len)
            (λ t.
              let e : first ≡ len = ground (arith, t) in
              rw e (sym (ring_slots-whole start len pos (ground (arith, e)))))
            (λ f.
              let e : first ≡ capacity - start % capacity = ground (arith, f) in
              sym (ring_slots-split start len first pos e (ground arith) room)))

  -- So do the encoder's.
  pub enc_kv_ring_segments-slots :
      (start len : ℕ)
      → 0 < capacity
      → len ≤ capacity
      → slots_of (enc_kv_ring_segments start len capacity) ≡ ring_slots start len capacity
  unfolding enc_kv_ring_segments
  enc_kv_ring_segments-slots start len pos room =
      let first = min len (capacity - start % capacity) in
      let P : List Segment → Type 0 = λ ss. slots_of ss ≡ ring_slots start len capacity in
      if-cases P (len == 0) (λ t. let z : len ≡ 0 = ground (arith, t) in rw z refl)
        (λ _.
          if-cases P (leb len first)
            (λ t.
              let e : first ≡ len = ground (arith, t) in
              rw e (sym (ring_slots-whole start len pos (ground (arith, e)))))
            (λ f.
              let e : first ≡ capacity - start % capacity = ground (arith, f) in
              sym (ring_slots-split start len first pos e (ground arith) room)))

  -- Two positions less than the capacity apart have different slots.
  pub slots_apart :
      (a b : ℕ) → 0 < capacity → a < b → b < a + capacity → a % capacity ≢ b % capacity
  slots_apart a b pos lt near e =
      let r = a % capacity in
      let d = b - a in
      let below = mod-lt a pos in
      let s : b % capacity ≡ (r + d) % capacity =
        ap (λ x. x % capacity) (omega arith) ∙ sym (mod-add-mod a capacity d) in
      elim (Bool-cases (leb capacity (r + d))) [
        | inl t ↦
            let m : (r + d) % capacity ≡ r + d - capacity =
              mod-eq-sub-mod (ground (arith, t))
              ∙ mod-eq_of_lt (omega (arith, below, near, leb→le capacity (r + d) t)) in
            omega (arith, e, s, m, below, near, lt, leb→le capacity (r + d) t)
        | inr f ↦
            let m : (r + d) % capacity ≡ r + d = mod-eq_of_lt (ground (arith, f)) in
            omega (arith, e, s, m, lt)
      ]
