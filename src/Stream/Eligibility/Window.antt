-- ===== src/Stream/Eligibility/Window.antt =====
-- The ring holds the arrival of the last groups, as many as its capacity, and of no others.
use mathlib.Core.Option.{some-injective}
use native.Mathlib.Nat.{mod-eq-sub-mod, mod-lt}
use voxtral_cpp.Prelude.{
  ℕ, zero, suc, ◌+◌, ◌%◌, ◌≤◌, ◌<◌, ◌≡◌, ◌≢◌, refl, sym, ap, subst, ◌∙◌, none, some, List, [], ◌∷◌,
  arith, ◌==◌, length, get_or, replicate, length-replicate, inl, inr, Bool-cases,
}
use voxtral_cpp.KvCache.Segments.{slots_apart}
use voxtral_cpp.Stream.Eligibility.{set, Eligibility, note_loop}

length-set {ℓ} : {A : Type ℓ} (xs : List A) (i : ℕ) (a : A) → length (set xs i a) ≡ length xs
length-set [] i a = refl
length-set (x ∷ xs) zero a = refl
length-set (x ∷ xs) (suc i) a = ap suc (length-set xs i a)

get_or-set {ℓ} :
    {A : Type ℓ} (xs : List A) (i : ℕ) (a d : A) → i < length xs → get_or (set xs i a) i d ≡ a
get_or-set [] i a d b = absurd (omega arith)
get_or-set (x ∷ xs) zero a d b = refl
get_or-set (x ∷ xs) (suc i) a d b = get_or-set xs i a d (omega arith)

get_or-set_other {ℓ} :
    {A : Type ℓ} (xs : List A) (i j : ℕ) (a d : A) → i ≢ j → get_or (set xs i a) j d ≡ get_or xs j d
get_or-set_other [] i j a d n = refl
get_or-set_other (x ∷ xs) zero zero a d n = absurd (n refl)
get_or-set_other (x ∷ xs) zero (suc j) a d n = refl
get_or-set_other (x ∷ xs) (suc i) zero a d n = refl
get_or-set_other (x ∷ xs) (suc i) (suc j) a d n = get_or-set_other xs i j a d (λ e. n (ap suc e))

get_or-replicate {ℓ} : {A : Type ℓ} (n i : ℕ) (d : A) → get_or (replicate n d) i d ≡ d
get_or-replicate zero i d = refl
get_or-replicate (suc n) zero d = refl
get_or-replicate (suc n) (suc i) d = get_or-replicate n i d

module _ {A : Type 0} (zero_ms : A) (capacity : ℕ) where
  -- The slots of the last groups hold them, and what a slot holds is one of them.
  pub record Holds (e : Eligibility A) (total : ℕ) (arrival : ℕ → A) : Type 0 where
    pub groups_length : length e.absolute_group ≡ capacity
    pub arrivals_length : length e.arrival_ms ≡ capacity
    pub held :
        (g : ℕ)
        → g < total
        → total ≤ g + capacity
        → (get_or e.absolute_group (g % capacity) none ≡ some g)
          × (get_or e.arrival_ms (g % capacity) zero_ms ≡ arrival g)
    pub only :
        (slot g : ℕ)
        → get_or e.absolute_group slot none ≡ some g
        → (g < total) × (total ≤ g + capacity) × (g % capacity ≡ slot)

  -- The next group goes into its slot.
  abbrev put_group : Eligibility A → ℕ → A → Eligibility A
  put_group e total now = record {
    absolute_group = set e.absolute_group (total % capacity) (some total);
    arrival_ms = set e.arrival_ms (total % capacity) now;
  }

  put_group-held :
      (e : Eligibility A) (total : ℕ) (arrival : ℕ → A) (g : ℕ)
      → 0 < capacity
      → Holds e total arrival
      → g < suc total
      → suc total ≤ g + capacity
      → (get_or (put_group e total (arrival total)).absolute_group (g % capacity) none ≡ some g)
        × (get_or (put_group e total (arrival total)).arrival_ms (g % capacity) zero_ms ≡ arrival g)
  put_group-held e total arrival g pos h lt near =
      let slot = total % capacity in
      let inside : slot < capacity = mod-lt total pos in
      let gl = h.groups_length in
      let al = h.arrivals_length in
      elim (Bool-cases (g == total)) [
        | inl same ↦
            let q : g ≡ total = ground (arith, same) in
            subst
              (λ k.
                (get_or (set e.absolute_group slot (some total)) (k % capacity) none ≡ some k)
                × (get_or (set e.arrival_ms slot (arrival total)) (k % capacity) zero_ms
                    ≡ arrival k))
              (sym q)
              (
                get_or-set e.absolute_group slot (some total) none (omega (arith, inside, gl)),
                get_or-set e.arrival_ms slot (arrival total) zero_ms (omega (arith, inside, al)),
              )
        | inr other ↦
            let earlier : g < total = ground (arith, other, lt) in
            let apart : slot ≢ g % capacity =
              λ q. slots_apart capacity g total pos earlier (omega (arith, near)) (sym q) in
            let (a, b) = h.held g earlier (omega (arith, near)) in
            (
              get_or-set_other e.absolute_group slot (g % capacity) (some total) none apart ∙ a,
              get_or-set_other e.arrival_ms slot (g % capacity) (arrival total) zero_ms apart ∙ b,
            )
      ]

  mod_shift : (total g : ℕ) → total ≡ g + capacity → total % capacity ≡ g % capacity
  mod_shift total g q =
      mod-eq-sub-mod {n = total} {m = capacity} (omega (arith, q))
      ∙ ap (λ k. k % capacity) (omega (arith, q))

  put_group-only :
      (e : Eligibility A) (total : ℕ) (arrival : ℕ → A) (place g : ℕ)
      → 0 < capacity
      → Holds e total arrival
      → get_or (put_group e total (arrival total)).absolute_group place none ≡ some g
      → (g < suc total) × (suc total ≤ g + capacity) × (g % capacity ≡ place)
  put_group-only e total arrival place g pos h found =
      let slot = total % capacity in
      let inside : slot < capacity = mod-lt total pos in
      let gl = h.groups_length in
      elim (Bool-cases (slot == place)) [
        | inl same ↦
            let q : slot ≡ place = ground (arith, same) in
            let put =
              get_or-set e.absolute_group slot (some total) none (omega (arith, inside, gl)) in
            let e2 : some total ≡ some g =
              sym put
              ∙ ap (λ k. get_or (set e.absolute_group slot (some total)) k none) q
              ∙ found in
            let t : total ≡ g = some-injective total g e2 in
            (omega (arith, t), omega (arith, t, pos), ap (λ k. k % capacity) (sym t) ∙ q)
        | inr other ↦
            let n : slot ≢ place = λ q. absurd (ground (arith, q, other)) in
            let before =
              sym (get_or-set_other e.absolute_group slot place (some total) none n) ∙ found in
            let (lt, near, at) = h.only place g before in
            let strict : total ≢ g + capacity = λ q. n (mod_shift total g q ∙ at) in
            (omega (arith, lt), omega (arith, near, strict), at)
      ]

  put_group-Holds :
      (e : Eligibility A) (total : ℕ) (arrival : ℕ → A)
      → 0 < capacity
      → Holds e total arrival
      → Holds (put_group e total (arrival total)) (suc total) arrival
  put_group-Holds e total arrival pos h = record {
    groups_length = length-set e.absolute_group (total % capacity) (some total) ∙ h.groups_length;
    arrivals_length =
        length-set e.arrival_ms (total % capacity) (arrival total) ∙ h.arrivals_length;
    held = λ g lt near. put_group-held e total arrival g pos h lt near;
    only = λ place g found. put_group-only e total arrival place g pos h found;
  }

  pub note_loop-Holds :
      (n i start : ℕ) (e : Eligibility A) (now : A) (arrival : ℕ → A)
      → 0 < capacity
      → Holds e (start + i) arrival
      → ((g : ℕ) → start + i ≤ g → arrival g ≡ now)
      → Holds (note_loop n i start capacity now e) (start + i + n) arrival
  unfolding note_loop
  note_loop-Holds zero i start e now arrival pos h same =
      subst (λ t. Holds e t arrival) (omega arith) h
  note_loop-Holds (suc n) i start e now arrival pos h same =
      let put = put_group-Holds e (start + i) arrival pos h in
      let here =
        subst (λ a. Holds (put_group e (start + i) a) (suc (start + i)) arrival)
          (same (start + i) (omega arith)) put in
      let next : Holds (put_group e (start + i) now) (start + (i + 1)) arrival =
        subst (λ t. Holds (put_group e (start + i) now) t arrival) (omega arith) here in
      subst (λ t. Holds (note_loop (suc n) i start capacity now e) t arrival) (omega arith)
        (note_loop-Holds n (i + 1) start (put_group e (start + i) now) now arrival pos next
          (λ g b. same g (omega (arith, b))))

  pub empty-Holds :
      (arrival : ℕ → A)
      → Holds
          (record {
            absolute_group = replicate capacity none;
            arrival_ms = replicate capacity zero_ms;
          })
          0
          arrival
  empty-Holds arrival = record {
    groups_length = length-replicate capacity none;
    arrivals_length = length-replicate capacity zero_ms;
    held = λ g lt near. absurd (omega (arith, lt));
    only = λ place g found.
        let e : none ≡ some g = sym (get_or-replicate capacity place none) ∙ found in absurd cc;
  }
