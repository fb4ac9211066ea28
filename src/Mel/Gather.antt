-- ===== src/Mel/Gather.antt =====
-- Laws of the loop that fills an array.
use mathlib.Core.Option.{some-injective}
use voxtral_cpp.Prelude.{
  ℕ, zero, suc, ◌+◌, ◌≤◌, ◌<◌, ◌≡◌, refl, ap, sym, ◌∙◌, Option, none, some, List, [], ◌∷◌, ◌++◌,
  arith, length, take, drop, length-drop, take_all, get_elem?, ◌-◌,
}
use voxtral_cpp.Mel.{gather, ◌>>=◌}

module _ {ℓ} {A : Type ℓ} where
  pub gather_cong :
      (g h : ℕ → Option A) (n lo : ℕ)
      → ((i : ℕ) → lo ≤ i → i < lo + n → g i ≡ h i)
      → gather g n lo ≡ gather h n lo
  unfolding gather
  gather_cong g h zero lo e = refl
  gather_cong g h (suc n) lo e =
      rw (e lo (omega arith) (omega arith))
        (rw (gather_cong g h n (lo + 1) (λ i a b. e i (omega arith) (omega arith))) refl)

  gather_step :
      (g : ℕ → Option A) (n lo : ℕ) {a : A} {xs : List A}
      → g lo ≡ some a
      → gather g n (lo + 1) ≡ some xs
      → gather g (suc n) lo ≡ some (a ∷ xs)
  unfolding gather
  gather_step g n lo e k = rw e (rw k refl)

  -- What the loop gives, once nothing that it reads fails.
  pub gather_total :
      (g : ℕ → Option A) (n lo : ℕ)
      → ((i : ℕ) → lo ≤ i → i < lo + n → (a : A) × (g i ≡ some a))
      → (xs : List A) × (gather g n lo ≡ some xs) × (length xs ≡ n)
  unfolding gather
  gather_total g zero lo e = ([], refl, refl)
  gather_total g (suc n) lo e =
      let (a, p) = e lo (omega arith) (omega arith) in
      let (xs, q, r) = gather_total g n (lo + 1) (λ i k l. e i (omega arith) (omega arith)) in
      (a ∷ xs, gather_step g n lo p q, ap suc r)

  pub gather_shift :
      (g : ℕ → Option A) (k n lo : ℕ) → gather (λ i. g (k + i)) n lo ≡ gather g n (k + lo)
  unfolding gather
  gather_shift g k zero lo = refl
  gather_shift g k (suc n) lo =
      let e : k + (lo + 1) ≡ k + lo + 1 = omega arith in
      rw (gather_shift g k n (lo + 1)) (rw e refl)

  -- Taking the loop apart: its first element, and the rest.
  pub gather_uncons :
      (g : ℕ → Option A) (n lo : ℕ) (xs : List A)
      → gather g (suc n) lo ≡ some xs
      → (a : A) × (ys : List A) × (g lo ≡ some a) × (gather g n (lo + 1) ≡ some ys) × (xs ≡ a ∷ ys)
  unfolding gather
  gather_uncons g n lo xs e = go (g lo) (gather g n (lo + 1)) refl refl e
    where
      go :
          (o : Option A) (r : Option (List A))
          → g lo ≡ o
          → gather g n (lo + 1) ≡ r
          → (o >>= λ a. r >>= λ rest. some (a ∷ rest)) ≡ some xs
          → (a : A) × (ys : List A) × (g lo ≡ some a)
            × (gather g n (lo + 1) ≡ some ys)
            × (xs ≡ a ∷ ys)
      go (some a) (some ys) p q h = (a, ys, p, q, sym (some-injective _ _ h))
      go (some a) none p q h = cc
      go none r p q h = cc

  pub length-gather :
      (g : ℕ → Option A) (n lo : ℕ) (xs : List A) → gather g n lo ≡ some xs → length xs ≡ n
  unfolding gather
  length-gather g zero lo xs e = ap length (sym (some-injective _ _ e))
  length-gather g (suc n) lo xs e =
      let (a, ys, p, q, r) = gather_uncons g n lo xs e in
      ap length r ∙ ap suc (length-gather g n (lo + 1) ys q)

  -- A piece of the array is what the loop over the piece gives.
  pub gather-take-drop :
      (g : ℕ → Option A) (m s n lo : ℕ) (xs : List A)
      → gather g m lo ≡ some xs
      → s + n ≤ m
      → gather g n (lo + s) ≡ some (take n (drop s xs))
  unfolding gather
  gather-take-drop g m zero zero lo xs e h = refl
  gather-take-drop g zero zero (suc n) lo xs e h = absurd (omega arith)
  gather-take-drop g zero (suc s) n lo xs e h = absurd (omega arith)
  gather-take-drop g (suc m) zero (suc n) lo xs e h =
      let (a, ys, p, q, r) = gather_uncons g m lo xs e in
      let z : lo + 0 ≡ lo = omega arith in
      let y : lo + 1 + 0 ≡ lo + 1 = omega arith in
      let rest = gather-take-drop g m zero n (lo + 1) ys q (omega arith) in
      ap (λ k. gather g (suc n) k) z
      ∙ gather_step g n lo p (ap (λ k. gather g n k) (sym y) ∙ rest)
      ∙ ap (λ l. some (take (suc n) l)) (sym r)
  gather-take-drop g (suc m) (suc s) n lo xs e h =
      let (a, ys, p, q, r) = gather_uncons g m lo xs e in
      let z : lo + suc s ≡ lo + 1 + s = omega arith in
      ap (λ k. gather g n k) z
      ∙ gather-take-drop g m s n (lo + 1) ys q (omega arith)
      ∙ ap (λ l. some (take n (drop (suc s) l))) (sym r)

  -- One more round appends one element.
  pub gather_snoc :
      (g : ℕ → Option A) (n lo : ℕ) (xs : List A) (a : A)
      → gather g n lo ≡ some xs
      → g (lo + n) ≡ some a
      → gather g (n + 1) lo ≡ some (xs ++ (a ∷ []))
  unfolding gather
  gather_snoc g zero lo xs a e h =
      let z : lo + 0 ≡ lo = omega arith in
      let x = some-injective _ _ e in
      gather_step g 0 lo (ap g (sym z) ∙ h) refl ∙ ap (λ l. some (l ++ (a ∷ []))) x
  gather_snoc g (suc n) lo xs a e h =
      let (b, ys, p, q, r) = gather_uncons g n lo xs e in
      let z : lo + suc n ≡ lo + 1 + n = omega arith in
      let y : suc n + 1 ≡ suc (n + 1) = omega arith in
      ap (λ k. gather g k lo) y
      ∙ gather_step g (n + 1) lo p (gather_snoc g n (lo + 1) ys a q (ap g (sym z) ∙ h))
      ∙ ap (λ l. some (l ++ (a ∷ []))) (sym r)

  -- What the loop gives from a later start is the end of the array.
  pub gather_suffix :
      (g : ℕ → Option A) (n b : ℕ) (all xs : List A)
      → gather g n 0 ≡ some all
      → b ≤ n
      → gather g (n - b) b ≡ some xs
      → xs ≡ drop b all
  gather_suffix g n b all xs e h k =
      let l = length-drop b all in
      let m = length-gather g n 0 all e in
      let z : 0 + b ≡ b = omega arith in
      some-injective _ _ (
        sym k
        ∙ ap (gather g (n - b)) (sym z)
        ∙ gather-take-drop g n b (n - b) 0 all e (omega arith))
      ∙ take_all (n - b) (drop b all) (omega arith)

  -- Each element of the array is what was read for it.
  pub gather_get :
      (g : ℕ → Option A) (n lo : ℕ) (xs : List A) (i : ℕ)
      → gather g n lo ≡ some xs
      → i < n
      → (a : A) × (get_elem? xs i ≡ some a) × (g (lo + i) ≡ some a)
  gather_get g zero lo xs i e h = absurd (omega arith)
  gather_get g (suc n) lo xs zero e h =
      let (a, ys, p, q, r) = gather_uncons g n lo xs e in
      let z : lo + 0 ≡ lo = omega arith in (a, ap (λ l. get_elem? l 0) r, ap g z ∙ p)
  gather_get g (suc n) lo xs (suc i) e h =
      let (a, ys, p, q, r) = gather_uncons g n lo xs e in
      let (b, c, d) = gather_get g n (lo + 1) ys i q (omega arith) in
      let z : lo + suc i ≡ lo + 1 + i = omega arith in
      (b, ap (λ l. get_elem? l (suc i)) r ∙ c, ap g z ∙ d)

  gather_none : (g : ℕ → Option A) (lo : ℕ) → gather g 0 lo ≡ some []
  unfolding gather
  gather_none g lo = refl

  -- Reading a list out gives it back.
  pub gather_list : (xs : List A) → gather (λ i. get_elem? xs i) (length xs) 0 ≡ some xs
  gather_list [] = gather_none (λ i. get_elem? [] i) 0
  gather_list (x ∷ xs) =
      gather_step (λ i. get_elem? (x ∷ xs) i) (length xs) 0 refl
        (sym (gather_shift (λ i. get_elem? (x ∷ xs) i) 1 (length xs) 0)
          ∙ gather_cong (λ i. get_elem? (x ∷ xs) (1 + i)) (λ i. get_elem? xs i) (length xs) 0
              (λ i lo hi. let z : 1 + i ≡ suc i = omega arith in ap (get_elem? (x ∷ xs)) z)
          ∙ gather_list xs)
