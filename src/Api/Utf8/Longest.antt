-- ===== src/Api/Utf8/Longest.antt =====
-- The prefix is well-formed UTF-8, and no longer one within the limit is.
use mathlib.Core.Option.{some-injective}
use voxtral_cpp.Prelude.{
  ℕ, zero, suc, ◌+◌, ◌-◌, ◌≤◌, ◌<◌, ◌≡◌, refl, ap, sym, ◌∙◌, subst, ◌⊎◌, inl, inr, min, Option,
  none, some, List, [], ◌∷◌, ◌++◌, arith, ltb, length, take, drop, append_assoc, length-append,
  length-take, length-drop, take-append, drop-append, take-append-drop, take-add, Bool-cases,
  Option-cases,
}
use voxtral_cpp.Api.Utf8.{next_char, prefix_from, utf8_prefix_at_most}

abbrev In : ℕ → ℕ → ℕ → Type 0
In lo hi b = (lo ≤ b) × (b ≤ hi)

-- The byte sequences of a character, table 3-7 of the Unicode standard.
abbrev pub IsChar : List ℕ → Type 0
IsChar (a ∷ []) = a ≤ 0x7f
IsChar (a ∷ b ∷ []) = In 0xc2 0xdf a × In 0x80 0xbf b
IsChar (a ∷ b ∷ c ∷ []) =
    In 0x80 0xbf c
    × (((a ≡ 0xe0) × In 0xa0 0xbf b)
        ⊎ ((In 0xe1 0xec a × In 0x80 0xbf b)
            ⊎ (((a ≡ 0xed) × In 0x80 0x9f b) ⊎ (In 0xee 0xef a × In 0x80 0xbf b))))
IsChar (a ∷ b ∷ c ∷ d ∷ []) =
    In 0x80 0xbf c
    × In 0x80 0xbf d
    × (((a ≡ 0xf0) × In 0x90 0xbf b)
        ⊎ ((In 0xf1 0xf3 a × In 0x80 0xbf b) ⊎ ((a ≡ 0xf4) × In 0x80 0x8f b)))
IsChar _ = ⊥

-- A text of whole characters.
pub data IsUtf8 : List ℕ → Type 0 where
  empty : IsUtf8 []
  char : (c rest : List ℕ) → IsChar c → IsUtf8 rest → IsUtf8 (c ++ rest)

-- A character at the start of a text is what the loop finds there.
next_char_1 :
    (a : ℕ) (rest : List ℕ) (room : ℕ)
    → IsChar (a ∷ [])
    → 1 ≤ room
    → next_char (a ∷ rest) room ≡ some 1
unfolding next_char
next_char_1 a rest room h k = ground arith

next_char_2 :
    (a b : ℕ) (rest : List ℕ) (room : ℕ)
    → IsChar (a ∷ b ∷ [])
    → 2 ≤ room
    → next_char (a ∷ b ∷ rest) room ≡ some 2
unfolding next_char
next_char_2 a b rest room h k = ground arith

next_char_3 :
    (a b c : ℕ) (rest : List ℕ) (room : ℕ)
    → IsChar (a ∷ b ∷ c ∷ [])
    → 3 ≤ room
    → next_char (a ∷ b ∷ c ∷ rest) room ≡ some 3
unfolding next_char
next_char_3 a b c rest room h k = ground arith

next_char_4 :
    (a b c d : ℕ) (rest : List ℕ) (room : ℕ)
    → IsChar (a ∷ b ∷ c ∷ d ∷ [])
    → 4 ≤ room
    → next_char (a ∷ b ∷ c ∷ d ∷ rest) room ≡ some 4
unfolding next_char
next_char_4 a b c d rest room h k = ground arith

-- And what the loop finds is a character.
abbrev Starts : List ℕ → ℕ → ℕ → Type 0
Starts rest room w = IsChar (take w rest) × (w ≤ length rest) × (w ≤ room) × (0 < w)

next_char-Starts : (rest : List ℕ) (room w : ℕ) → next_char rest room ≡ some w → Starts rest room w
unfolding next_char
next_char-Starts [] room w h = absurd (ground arith)
next_char-Starts (a ∷ []) room zero h = absurd (ground arith)
next_char-Starts (a ∷ []) room (suc zero) h = ground arith
next_char-Starts (a ∷ []) room (suc (suc w)) h = absurd (ground arith)
next_char-Starts (a ∷ b ∷ []) room zero h = absurd (ground arith)
next_char-Starts (a ∷ b ∷ []) room (suc zero) h = ground arith
next_char-Starts (a ∷ b ∷ []) room (suc (suc zero)) h = ground arith
next_char-Starts (a ∷ b ∷ []) room (suc (suc (suc w))) h = absurd (ground arith)
next_char-Starts (a ∷ b ∷ c ∷ []) room zero h = absurd (ground arith)
next_char-Starts (a ∷ b ∷ c ∷ []) room (suc zero) h = ground arith
next_char-Starts (a ∷ b ∷ c ∷ []) room (suc (suc zero)) h = ground arith
next_char-Starts (a ∷ b ∷ c ∷ []) room (suc (suc (suc zero))) h = ground arith
next_char-Starts (a ∷ b ∷ c ∷ []) room (suc (suc (suc (suc w)))) h = absurd (ground arith)
next_char-Starts (a ∷ b ∷ c ∷ d ∷ rest) room zero h = absurd (ground arith)
next_char-Starts (a ∷ b ∷ c ∷ d ∷ rest) room (suc zero) h = ground arith
next_char-Starts (a ∷ b ∷ c ∷ d ∷ rest) room (suc (suc zero)) h = ground arith
next_char-Starts (a ∷ b ∷ c ∷ d ∷ rest) room (suc (suc (suc zero))) h = ground arith
next_char-Starts (a ∷ b ∷ c ∷ d ∷ rest) room (suc (suc (suc (suc zero)))) h = ground arith
next_char-Starts (a ∷ b ∷ c ∷ d ∷ rest) room (suc (suc (suc (suc (suc w))))) h =
    absurd (ground arith)

next_char-append :
    (c tail : List ℕ) (room : ℕ)
    → IsChar c
    → length c ≤ room
    → next_char (c ++ tail) room ≡ some (length c)
next_char-append (a ∷ []) tail room h k = next_char_1 a tail room h k
next_char-append (a ∷ b ∷ []) tail room h k = next_char_2 a b tail room h k
next_char-append (a ∷ b ∷ c ∷ []) tail room h k = next_char_3 a b c tail room h k
next_char-append (a ∷ b ∷ c ∷ d ∷ []) tail room h k = next_char_4 a b c d tail room h k
next_char-append [] tail room h k = absurd h
next_char-append (a ∷ b ∷ c ∷ d ∷ e ∷ _) tail room h k = absurd h

IsUtf8-uncons :
    {xs : List ℕ}
    → IsUtf8 xs
    → (xs ≡ []) ⊎ ((c : List ℕ) × (rest : List ℕ) × (xs ≡ c ++ rest) × IsChar c × IsUtf8 rest)
IsUtf8-uncons empty = inl refl
IsUtf8-uncons (char c rest h r) = inr (c, rest, refl, h, r)

-- Whole characters at the start of a text begin with the one that the loop finds.
abbrev Opens : List ℕ → ℕ → ℕ → Type 0
Opens rest room m =
    (m ≡ 0)
    ⊎ ((w : ℕ) × (next_char rest room ≡ some w) × (w ≤ m) × IsUtf8 (take (m - w) (drop w rest)))

IsUtf8-Opens :
    (rest : List ℕ) (room m : ℕ)
    → m ≤ length rest
    → m ≤ room
    → IsUtf8 (take m rest)
    → Opens rest room m
IsUtf8-Opens rest room m h k u = elim (IsUtf8-uncons u) [
  | inl e ↦ let n = sym (length-take m rest) ∙ ap length e in inl (omega (arith, n))
  | inr (c, post, e, i, v) ↦
      let tail = post ++ drop m rest in
      let whole : rest ≡ c ++ tail =
        sym (take-append-drop m rest)
        ∙ ap (λ l. l ++ drop m rest) e
        ∙ append_assoc c post (drop m rest) in
      let n = sym (length-take m rest) ∙ ap length e ∙ length-append c post in
      let d : m - length c ≡ length post = omega (arith, n) in
      inr (
        length c,
        ap (λ l. next_char l room) whole ∙ next_char-append c tail room i (omega (arith, n)),
        omega (arith, n),
        subst IsUtf8
            (sym (
              ap (λ j. take j (drop (length c) rest)) d
              ∙ ap (λ l. take (length post) (drop (length c) l)) whole
              ∙ ap (take (length post)) (drop-append c tail)
              ∙ take-append post (drop m rest)))
            v,
      )
]

-- The longest prefix of whole characters within the room has the length `k`.
pub record IsLongest (rest : List ℕ) (room k : ℕ) : Type 0 where
  pub fits : (k ≤ room) × (k ≤ length rest)
  pub whole : IsUtf8 (take k rest)
  pub longest : (m : ℕ) → m ≤ room → m ≤ length rest → IsUtf8 (take m rest) → m ≤ k

stop-IsLongest :
    (rest : List ℕ) (room : ℕ) → (room ≡ 0) ⊎ (next_char rest room ≡ none) → IsLongest rest room 0
stop-IsLongest rest room stop = record {
  fits = (omega arith, omega arith);
  whole = empty;
  longest = λ m h k u. elim stop [
    | inl z ↦ omega arith
    | inr e ↦ elim (IsUtf8-Opens rest room m k h u) [
      | inl z ↦ omega arith
      | inr (w, f, _, _) ↦ absurd (none-ne-some (sym e ∙ f))
    ]
  ];
}
  where
    none-ne-some : {w : ℕ} → ◌≡◌ {A = Option ℕ} none (some w) → ⊥
    none-ne-some h = cc

step-IsLongest :
    (rest : List ℕ) (room w k : ℕ)
    → next_char rest room ≡ some w
    → IsLongest (drop w rest) (room - w) k
    → IsLongest rest room (w + k)
step-IsLongest rest room w k e t =
    let (c, lo, hi, pos) = next_char-Starts rest room w e in
    let n = length-drop w rest in
    let (a, b) = t.fits in
    record {
      fits = (omega (arith, n), omega (arith, n));
      whole =
          subst IsUtf8 (sym (take-add w k rest))
            (char (take w rest) (take k (drop w rest)) c t.whole);
      longest = λ m h l u. elim (IsUtf8-Opens rest room m l h u) [
        | inl z ↦ omega arith
        | inr (v, f, g, r) ↦
            let same : v ≡ w = some-injective _ _ (sym f ∙ e) in
            let r' = subst (λ j. IsUtf8 (take (m - j) (drop j rest))) same r in
            let i = t.longest (m - w) (omega arith) (omega (arith, n)) r' in omega arith
      ];
    }

prefix_from-IsLongest :
    (fuel : ℕ) (rest : List ℕ) (room stable : ℕ)
    → room ≤ fuel
    → (k : ℕ) × (prefix_from fuel rest room stable ≡ stable + k) × IsLongest rest room k
unfolding prefix_from
prefix_from-IsLongest zero rest room stable h =
    (0, omega arith, stop-IsLongest rest room (inl (omega arith)))
prefix_from-IsLongest (suc fuel) rest room stable h = elim (Bool-cases (ltb 0 room)) [
  | inr stop ↦
      (0, rw (stop, prefix_from) (omega arith), stop-IsLongest rest room (inl (ground arith)))
  | inl more ↦ elim (Option-cases (next_char rest room)) [
    | inl e ↦ (
      0,
      rw (more, prefix_from) (rw (e, prefix_from) (omega arith)),
      stop-IsLongest rest room (inr e),
    )
    | inr (w, e) ↦
        let (_, lo, hi, pos) = next_char-Starts rest room w e in
        let (k, p, t) =
          prefix_from-IsLongest fuel (drop w rest) (room - w) (stable + w) (omega arith) in
        (
          w + k,
          rw (more, prefix_from) (rw (e, prefix_from) (p ∙ omega arith)),
          step-IsLongest rest room w k e t,
        )
  ]
]

-- For every text and limit: the prefix has at most `limit` bytes, is well-formed UTF-8, and every
-- well-formed prefix of the text within the limit is no longer.
pub utf8_prefix_at_most-IsLongest :
    (text : List ℕ) (limit : ℕ)
    → IsLongest text (min (length text) limit) (utf8_prefix_at_most text limit)
unfolding utf8_prefix_at_most
utf8_prefix_at_most-IsLongest text limit =
    let room = min (length text) limit in
    let (k, e, t) = prefix_from-IsLongest room text room 0 (omega arith) in
    let z : 0 + k ≡ k = omega arith in subst (IsLongest text room) (sym (e ∙ z)) t
