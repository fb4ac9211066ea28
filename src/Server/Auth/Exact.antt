-- ===== src/Server/Auth/Exact.antt =====
-- The comparison decides equality, so the check accepts one header.
use Prim.Native.Nat.{bit_or, bit_xor, digits, differ, bit_or-bitwise, bit_xor-bitwise}
use native.Mathlib.Decide.{dec_lt}
use voxtral_cpp.Prelude.{
  ℕ, zero, suc, ◌+◌, ◌/◌, ◌%◌, ◌≤◌, ◌<◌, ◌≡◌, ◌↔◌, refl, ap, sym, ◌∙◌, subst, true, false, max,
  List, [], ◌∷◌, ◌++◌, arith, leb, length, get_or, take, drop, take-append-drop,
}
use voxtral_cpp.Server.Auth.{
  differences, constant_time_equal, same_bytes, bearer, is_token, authorize_bearer,
}

-- Two digits differ in no bit only if they are the same.
differ_zero : (x y : ℕ) → differ x y ≡ 0 → x ≡ y
differ_zero zero y e = sym e
differ_zero (suc x) zero e = e
differ_zero (suc x) (suc y) e = ap suc (differ_zero x y e)

differ_self : (x : ℕ) → differ x x ≡ 0
differ_self zero = refl
differ_self (suc x) = differ_self x

xor_digits : (n a b : ℕ) → a ≤ n → digits (λ y. y) differ n a b ≡ 0 → a ≡ b
xor_digits zero zero b h e = sym e
xor_digits zero (suc a) b h e = absurd (omega arith)
xor_digits (suc n) zero b h e = sym e
xor_digits (suc n) (suc a) b h e =
    let high : digits (λ y. y) differ n (suc a / 2) (b / 2) ≡ 0 = omega (arith, e) in
    let low : differ (suc a % 2) (b % 2) ≡ 0 = omega (arith, e) in
    let q = xor_digits n (suc a / 2) (b / 2) (omega arith) high in
    let r = differ_zero (suc a % 2) (b % 2) low in omega (arith, q, r)

xor_digits_self : (n a : ℕ) → a ≤ n → digits (λ y. y) differ n a a ≡ 0
xor_digits_self zero zero h = refl
xor_digits_self zero (suc a) h = absurd (omega arith)
xor_digits_self (suc n) zero h = refl
xor_digits_self (suc n) (suc a) h =
    let high = xor_digits_self n (suc a / 2) (omega arith) in
    let low = differ_self (suc a % 2) in omega (arith, high, low)

bit_xor-eq_zero : (a b : ℕ) → (bit_xor a b ≡ 0) ↔ (a ≡ b)
bit_xor-eq_zero a b = (
  λ e. xor_digits a a b (omega arith) (sym (bit_xor-bitwise a b) ∙ e),
  λ e. ap (bit_xor a) (sym e) ∙ bit_xor-bitwise a a ∙ xor_digits_self a a (omega arith),
)

or_digits : (n a b : ℕ) → a ≤ n → digits (λ y. y) max n a b ≡ 0 → (a ≡ 0) × (b ≡ 0)
or_digits zero zero b h e = (refl, e)
or_digits zero (suc a) b h e = absurd (omega arith)
or_digits (suc n) zero b h e = (refl, e)
or_digits (suc n) (suc a) b h e =
    let high : digits (λ y. y) max n (suc a / 2) (b / 2) ≡ 0 = omega (arith, e) in
    let (q, r) = or_digits n (suc a / 2) (b / 2) (omega arith) high in absurd (omega (arith, e, q))

bit_or-eq_zero : (a b : ℕ) → bit_or a b ≡ 0 → (a ≡ 0) × (b ≡ 0)
bit_or-eq_zero a b e = or_digits a a b (omega arith) (sym (bit_or-bitwise a b) ∙ e)

bit_or-zero_zero : bit_or 0 0 ≡ 0
bit_or-zero_zero = refl

-- The difference is 0 at the end just where it was at the start, and no index differs.
differences-eq_zero :
    (n i : ℕ) (l r : List ℕ) (d : ℕ)
    → differences n i l r d ≡ 0
    → (d ≡ 0) × ((j : ℕ) → i ≤ j → j < i + n → get_or l j 0 ≡ get_or r j 0)
unfolding differences
differences-eq_zero zero i l r d e = (e, λ j a b. absurd (omega arith))
differences-eq_zero (suc n) i l r d e =
    let (m, rest) = differences-eq_zero n (i + 1) l r _ e in
    let (a, b) = bit_or-eq_zero d (bit_xor (get_or l i 0) (get_or r i 0)) m in
    let here = (bit_xor-eq_zero (get_or l i 0) (get_or r i 0)).0 b in
    (
      a,
      λ j lo hi. elim (dec_lt i j) [
        | yes later ↦ rest j (omega arith) (omega arith)
        | no now ↦
            let same : i ≡ j = omega arith in subst (λ k. get_or l k 0 ≡ get_or r k 0) same here
      ],
    )

differences_self : (n i : ℕ) (l : List ℕ) → differences n i l l 0 ≡ 0
unfolding differences
differences_self zero i l = refl
differences_self (suc n) i l =
    let z = (bit_xor-eq_zero (get_or l i 0) (get_or l i 0)).1 refl in
    ap (λ d. differences n (i + 1) l l (bit_or 0 d)) z
    ∙ ap (differences n (i + 1) l l) bit_or-zero_zero
    ∙ differences_self n (i + 1) l

-- Lists of one length with the same elements are the same.
pointwise :
    (l r : List ℕ)
    → length l ≡ length r
    → ((j : ℕ) → j < length l → get_or l j 0 ≡ get_or r j 0)
    → l ≡ r
pointwise [] [] e h = refl
pointwise [] (b ∷ r) e h = absurd (omega arith)
pointwise (a ∷ l) [] e h = absurd (omega arith)
pointwise (a ∷ l) (b ∷ r) e h =
    let here = h 0 (omega arith) in
    let rest = pointwise l r (omega arith) (λ j k. h (suc j) (omega arith)) in λ i. here i ∷ rest i

constant_time_equal_sound : (l r : List ℕ) → constant_time_equal l r ≡ true → l ≡ r
unfolding constant_time_equal
constant_time_equal_sound l r e =
    let (d, same) =
      differences-eq_zero (max (length l) (length r)) 0 l r (bit_xor (length l) (length r))
        (ground (arith, e)) in
    pointwise l r ((bit_xor-eq_zero (length l) (length r)).0 d)
      (λ j h. same j (omega arith) (omega arith))

constant_time_equal_self : (l : List ℕ) → constant_time_equal l l ≡ true
unfolding constant_time_equal
constant_time_equal_self l =
    let z = (bit_xor-eq_zero (length l) (length l)).1 refl in
    let e =
      ap (differences (max (length l) (length l)) 0 l l) z
      ∙ differences_self (max (length l) (length l)) 0 l in
    ground (arith, e)

-- Whatever the two texts: the comparison is true exactly where they are equal.
pub constant_time_equal_iff : (l r : List ℕ) → (constant_time_equal l r ≡ true) ↔ (l ≡ r)
constant_time_equal_iff l r = (
  constant_time_equal_sound l r,
  λ e. subst (λ x. constant_time_equal l x ≡ true) e (constant_time_equal_self l),
)

same_bytes_sound : (l r : List ℕ) → same_bytes l r ≡ true → l ≡ r
same_bytes_sound [] [] e = refl
same_bytes_sound [] (b ∷ r) e = cc
same_bytes_sound (a ∷ l) [] e = cc
same_bytes_sound (a ∷ l) (b ∷ r) e =
    let here : a ≡ b = ground (arith, e) in
    let rest = same_bytes_sound l r (ground (arith, e)) in λ i. here i ∷ rest i

-- The header that presents this key.
abbrev pub Presents : List ℕ → List ℕ → Type 0
Presents header key = (header ≡ bearer ++ key) × (is_token key ≡ true)

authorize_bearer_sound :
    (header key : List ℕ) → authorize_bearer header key true ≡ true → Presents header key
unfolding authorize_bearer
authorize_bearer_sound header key e =
    let token = drop (length bearer) header in
    let prefix : same_bytes (take (length bearer) header) bearer ≡ true = ground (arith, e) in
    let shaped : is_token token ≡ true = ground (arith, e) in
    let equal : constant_time_equal token key ≡ true = ground (arith, e) in
    let same = (constant_time_equal_iff token key).0 equal in
    let front = same_bytes_sound (take (length bearer) header) bearer prefix in
    (
      sym (take-append-drop (length bearer) header)
          ∙ ap (λ l. l ++ token) front
          ∙ ap (λ l. bearer ++ l) same,
      subst (λ k. is_token k ≡ true) same shaped,
    )

authorize_bearer_complete :
    (key : List ℕ) → is_token key ≡ true → authorize_bearer (bearer ++ key) key true ≡ true
unfolding authorize_bearer
authorize_bearer_complete key t =
    let same = (constant_time_equal_iff key key).1 refl in
    let long : leb (length (bearer ++ key)) (length bearer) ≡ false = ground (arith, t) in
    rw long (rw t same)

-- With authentication on, a header is accepted exactly where it is "Bearer " and the configured key,
-- and the key is not empty and has no space or tab at either end.
pub authorize_bearer_iff :
    (header key : List ℕ) → (authorize_bearer header key true ≡ true) ↔ Presents header key
authorize_bearer_iff header key = (
  authorize_bearer_sound header key,
  λ (e, t).
      subst (λ h. authorize_bearer h key true ≡ true) (sym e) (authorize_bearer_complete key t),
)
