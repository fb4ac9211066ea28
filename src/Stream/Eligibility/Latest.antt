-- ===== src/Stream/Eligibility/Latest.antt =====
-- What the ring answers after any commits of groups, one behind the other.
use voxtral_cpp.Prelude.{
  ℕ, zero, suc, ◌+◌, ◌%◌, ◌≤◌, ◌<◌, ◌≡◌, refl, sym, ap, subst, ◌∙◌, true, false, ◌&&◌, ◌||◌, Option,
  none, some, List, [], ◌∷◌, arith, if◌then◌else◌, ltb, leb, ◌==◌, length, get_or, replicate, ◌⊎◌,
  inl, inr, Bool-cases,
}
use voxtral_cpp.Stream.Eligibility.{
  Eligibility, holds_group, note_loop, sized, note_group_eligibility, group_eligibility_ms,
}
use voxtral_cpp.Stream.Eligibility.Window.{Holds, note_loop-Holds, empty-Holds}

-- The commits, the newest first: how many groups, and when their audio became available.
abbrev pub Commits : Type 0 → Type 0
Commits A = List (ℕ × A)

module _ {A : Type 0} where
  abbrev pub committed : Commits A → ℕ
  committed [] = 0
  committed ((n, now) ∷ cs) = committed cs + n

  -- The time of the commit that a group was part of.
  abbrev pub arrival_of : A → Commits A → ℕ → A
  arrival_of zero_ms [] g = zero_ms
  arrival_of zero_ms ((n, now) ∷ cs) g =
      let before = arrival_of zero_ms cs g in if ltb g (committed cs) then before else now

  abbrev pub noted : A → ℕ → Commits A → Eligibility A
  noted zero_ms capacity [] = record { absolute_group = []; arrival_ms = [] }
  noted zero_ms capacity ((n, now) ∷ cs) =
      note_group_eligibility zero_ms (committed cs) n capacity now (noted zero_ms capacity cs)

module _ {A : Type 0} (zero_ms : A) (capacity : ℕ) where
  Holds-agree :
      (e : Eligibility A) (total : ℕ) (a b : ℕ → A)
      → ((g : ℕ) → g < total → a g ≡ b g)
      → Holds zero_ms capacity e total a
      → Holds zero_ms capacity e total b
  Holds-agree e total a b same h = record {
    groups_length = h.groups_length;
    arrivals_length = h.arrivals_length;
    held = λ g lt near. let (x, y) = h.held g lt near in (x, y ∙ same g lt);
    only = λ place g found. h.only place g found;
  }

  -- Nothing is committed yet, or the ring holds the last groups.
  abbrev Ready : Eligibility A → ℕ → (ℕ → A) → Type 0
  Ready e total arrival =
      ((total ≡ 0) × (e.absolute_group ≡ [])) ⊎ Holds zero_ms capacity e total arrival

  sized-Holds :
      (e : Eligibility A) (total : ℕ) (arrival : ℕ → A)
      → 0 < capacity
      → Ready e total arrival
      → Holds zero_ms capacity (sized zero_ms capacity e) total arrival
  unfolding sized
  sized-Holds e total arrival pos (inl (z, q)) =
      let f : (length e.absolute_group == capacity) ≡ false =
        ap (λ l. length l == capacity) q ∙ ground (arith, pos) in
      let none_yet : Eligibility A = record {
        absolute_group = replicate capacity none;
        arrival_ms = replicate capacity zero_ms;
      } in
      rw f (
        subst (λ t. Holds zero_ms capacity none_yet t arrival) (sym z)
          (empty-Holds zero_ms capacity arrival))
  sized-Holds e total arrival pos (inr h) =
      let gl = h.groups_length in
      let t : (length e.absolute_group == capacity) ≡ true = ground (arith, gl) in rw t h

  note_group_eligibility-Ready :
      (e : Eligibility A) (total n : ℕ) (now : A) (arrival : ℕ → A)
      → 0 < capacity
      → ((g : ℕ) → total ≤ g → arrival g ≡ now)
      → Ready e total arrival
      → Ready (note_group_eligibility zero_ms total n capacity now e) (total + n) arrival
  unfolding note_group_eligibility
  note_group_eligibility-Ready e total zero now arrival pos same h =
      let t : (capacity == 0 || true) ≡ true = ground arith in
      rw t (subst (λ k. Ready e k arrival) (omega arith) h)
  note_group_eligibility-Ready e total (suc n) now arrival pos same h =
      let f : (capacity == 0 || suc n == 0) ≡ false = ground (arith, pos) in
      let s = sized-Holds e total arrival pos h in
      let start : Holds zero_ms capacity (sized zero_ms capacity e) (total + 0) arrival =
        subst (λ k. Holds zero_ms capacity (sized zero_ms capacity e) k arrival) (omega arith) s in
      let done =
        note_loop-Holds zero_ms capacity (suc n) 0 total (sized zero_ms capacity e) now arrival pos
          start (λ g b. same g (omega (arith, b))) in
      rw f (
        inr (
          subst
            (λ k.
              Holds zero_ms capacity
                (note_loop (suc n) 0 total capacity now (sized zero_ms capacity e)) k arrival)
            (omega arith) done))

  noted-Ready :
      (cs : Commits A)
      → 0 < capacity
      → Ready (noted zero_ms capacity cs) (committed cs) (arrival_of zero_ms cs)
  noted-Ready [] pos = inl (refl, refl)
  noted-Ready ((n, now) ∷ cs) pos =
      let arrival = arrival_of zero_ms ((n, now) ∷ cs) in
      let keeps : (g : ℕ) → g < committed cs → arrival_of zero_ms cs g ≡ arrival g =
        λ g b. ground (arith, b) in
      let new : (g : ℕ) → committed cs ≤ g → arrival g ≡ now = λ g b. ground (arith, b) in
      let e = noted zero_ms capacity cs in
      let before : Ready e (committed cs) arrival = elim (noted-Ready cs pos) [
        | inl none_yet ↦ inl none_yet
        | inr h ↦ inr (Holds-agree e (committed cs) (arrival_of zero_ms cs) arrival keeps h)
      ] in
      note_group_eligibility-Ready e (committed cs) n now arrival pos new before

  -- What the source says of a group after these commits, by the log alone.
  abbrev pub latest : Commits A → ℕ → Option A
  latest cs g =
      if ltb g (committed cs) && leb (committed cs) (g + capacity)
      then some (arrival_of zero_ms cs g)
      else none

  answer_held :
      (e : Eligibility A) (total : ℕ) (arrival : ℕ → A) (g : ℕ)
      → 0 < capacity
      → Holds zero_ms capacity e total arrival
      → group_eligibility_ms zero_ms e g
        ≡ (if ltb g total && leb total (g + capacity) then some (arrival g) else none)
  unfolding group_eligibility_ms
  answer_held e total arrival g pos h =
      let gl = h.groups_length in
      rw gl (
        let f : (capacity == 0) ≡ false = ground (arith, pos) in
        rw f (elim (Bool-cases (ltb g total && leb total (g + capacity))) [
          | inl t ↦
              let (a, b) = h.held g (ground (arith, t)) (ground (arith, t)) in
              let same : (g == g) ≡ true = ground arith in rw a (rw same (rw t (ap some b)))
          | inr t ↦ rw t (absent (get_or e.absolute_group (g % capacity) none) refl t)
        ]))
    where
      absent :
          (slot : Option ℕ)
          → get_or e.absolute_group (g % capacity) none ≡ slot
          → (ltb g total && leb total (g + capacity)) ≡ false
          → (if holds_group slot g then some (get_or e.arrival_ms (g % capacity) zero_ms) else none)
            ≡ none
      absent none q t = refl
      absent (some x) q t =
          let (lt, near, at) = h.only (g % capacity) x q in
          let n : (x == g) ≡ false = ground (arith, lt, near, t) in rw n refl

  -- For a capacity that is not 0: after any commits, each behind the one before, the ring gives for a
  -- group the time of the commit that it was part of, where it is one of the last `capacity` groups,
  -- and nothing for any other group.
  pub group_eligibility_ms-latest :
      (cs : Commits A) (g : ℕ)
      → 0 < capacity
      → group_eligibility_ms zero_ms (noted zero_ms capacity cs) g ≡ latest cs g
  unfolding group_eligibility_ms
  group_eligibility_ms-latest cs g pos = elim (noted-Ready cs pos) [
    | inl (z, q) ↦
        let t : (ltb g (committed cs) && leb (committed cs) (g + capacity)) ≡ false =
          ground (arith, z) in
        rw q (rw t refl)
    | inr h ↦ answer_held (noted zero_ms capacity cs) (committed cs) (arrival_of zero_ms cs) g pos h
  ]
