-- ===== src/Server/Auth.antt =====
-- server/auth.cpp: the comparison of a token in a time that does not depend on where it differs, and
-- the check of an Authorization header. Texts are lists of bytes.
pub mod Exact
use Prim.Native.Nat.{bit_or, bit_xor}
use voxtral_cpp.Prelude.{
  ℕ, zero, suc, ◌+◌, ◌≤◌, Bool, true, false, not, ◌&&◌, ◌||◌, max, List, [], ◌∷◌, if◌then◌else◌,
  leb, ◌==◌, length, get_or, take, drop,
}

-- The loop from index `i` on, with the rounds that are left.
pub differences : ℕ → ℕ → List ℕ → List ℕ → ℕ → ℕ
differences zero i left right difference = difference
differences (suc rounds) i left right difference =
    differences rounds (i + 1) left right
      (bit_or difference (bit_xor (get_or left i 0) (get_or right i 0)))

pub constant_time_equal : List ℕ → List ℕ → Bool
unfolding differences
constant_time_equal left right =
    differences (max (length left) (length right)) 0 left right
      (bit_xor (length left) (length right))
    == 0

-- `!=` of string views, negated
abbrev pub same_bytes : List ℕ → List ℕ → Bool
same_bytes [] [] = true
same_bytes (a ∷ as') (b ∷ bs) = a == b && same_bytes as' bs
same_bytes _ _ = false

-- "Bearer "
abbrev pub bearer : List ℕ
bearer = 66 ∷ 101 ∷ 97 ∷ 114 ∷ 101 ∷ 114 ∷ 32 ∷ []

abbrev pub front_or : List ℕ → ℕ → ℕ
front_or [] d = d
front_or (b ∷ bs) d = b

abbrev pub back_or : List ℕ → ℕ → ℕ
back_or [] d = d
back_or (b ∷ bs) d = back_or bs b

-- Not empty, and with no space or tab at either end.
abbrev pub is_token : List ℕ → Bool
is_token token = not (
    length token == 0
    || front_or token 0 == 32
    || back_or token 0 == 32
    || front_or token 0 == 9
    || back_or token 0 == 9)

pub authorize_bearer : List ℕ → List ℕ → Bool → Bool
unfolding constant_time_equal
authorize_bearer authorization_header configured_key authentication_enabled =
    let token = drop (length bearer) authorization_header in
    if not authentication_enabled
    then true
    else if leb (length authorization_header) (length bearer)
        || not (same_bytes (take (length bearer) authorization_header) bearer)
    then false
    else if not (is_token token)
    then false
    else constant_time_equal token configured_key
