-- ===== src/Server/Config/Ranges.antt =====
-- The numbers of a configuration keep in their ranges, whatever the environment says.
use voxtral_cpp.Prelude.{
  ℕ, ◌*◌, ◌/◌, ◌%◌, ◌^◌, ◌≤◌, ◌≡◌, ◌==◌, refl, Bool, true, false, not, ◌||◌, Option, none, some,
  List, arith, if◌then◌else◌, ltb,
}
use voxtral_cpp.Server.Auth.{front_or}
use voxtral_cpp.Server.Config.{
  mebibyte, uint32_max, uint64_max, ServerConfig, default_config, ConfigError, Result, ok, error,
  ◌>>=◌, Conversion, is_empty, c_str, parse_unsigned,
}
use voxtral_cpp.Server.Config.Arguments.{
  Number, port, max_upload_mib, realtime_soft_lag_ms, realtime_hard_lag_ms, realtime_buffer_ms,
  idle_timeout_sec, maximum, assign, Environment, set_model, set_listen, set_key, set_number,
  set_from, read_number, apply_environment,
}

-- `P` holds of the value, if there is one.
unfoldable pub All {ℓ} : {A : Type ℓ} → (A → Type 0) → Result A → Type 0
All P (ok a) = P a
All P (error e) = Unit {0}

pub All-bind {ℓ κ} :
    {A : Type ℓ} {B : Type κ} (P : A → Type 0) (Q : B → Type 0) (r : Result A) (f : A → Result B)
    → All P r
    → ((a : A) → P a → All Q (f a))
    → All Q (r >>= f)
unfolding All
All-bind P Q (ok a) f h g = g a h
All-bind P Q (error e) f h g = h

pub All-ok {ℓ} : {A : Type ℓ} (P : A → Type 0) (a : A) → P a → All P (ok a)
unfolding All
All-ok P a h = h

pub All-guard {ℓ} :
    {A : Type ℓ} (P : A → Type 0) (b : Bool) (e : ConfigError) (r : Result A)
    → (b ≡ false → All P r)
    → All P (if b then error e else r)
unfolding All
All-guard P true e r h = tt
All-guard P false e r h = h refl

abbrev pub Within : ℕ → ℕ → ℕ → Type 0
Within lo hi x = (lo ≤ x) × (x ≤ hi)

-- The numbers are in their ranges: none is cut off by a cast.
abbrev pub InRange : ServerConfig → Type 0
InRange c =
    Within 1 65535 c.port
    × (Within mebibyte uint64_max c.max_upload_bytes × (c.max_upload_bytes % mebibyte ≡ 0))
    × Within 1 uint32_max c.realtime_soft_lag_ms
    × Within 1 uint32_max c.realtime_hard_lag_ms
    × Within 1 uint32_max c.realtime_buffer_ms
    × Within 1 uint32_max c.idle_timeout_sec

cast32 : (v : ℕ) → 1 ≤ v → v ≤ uint32_max → Within 1 uint32_max (v % 2 ^ 32)
cast32 v lo hi = (omega arith, omega arith)

cast_mib :
    (v : ℕ)
    → 1 ≤ v
    → v ≤ uint64_max / mebibyte
    → Within mebibyte uint64_max (v * mebibyte % 2 ^ 64) × (v * mebibyte % 2 ^ 64 % mebibyte ≡ 0)
cast_mib v lo hi = ((omega arith, omega arith), omega arith)

assign-InRange :
    (n : Number) (v : ℕ) (c : ServerConfig)
    → 1 ≤ v
    → v ≤ maximum n
    → InRange c
    → InRange (assign n v c)
unfolding assign
assign-InRange port v c lo hi (p, u, s, h, b, i) = ((omega arith, omega arith), u, s, h, b, i)
assign-InRange max_upload_mib v c lo hi (p, u, s, h, b, i) = (p, cast_mib v lo hi, s, h, b, i)
assign-InRange realtime_soft_lag_ms v c lo hi (p, u, s, h, b, i) = (p, u, cast32 v lo hi, h, b, i)
assign-InRange realtime_hard_lag_ms v c lo hi (p, u, s, h, b, i) = (p, u, s, cast32 v lo hi, b, i)
assign-InRange realtime_buffer_ms v c lo hi (p, u, s, h, b, i) = (p, u, s, h, cast32 v lo hi, i)
assign-InRange idle_timeout_sec v c lo hi (p, u, s, h, b, i) = (p, u, s, h, b, cast32 v lo hi)

in_bounds :
    (c : Conversion) (lo hi : ℕ)
    → (c.range_error || c.no_digits || not c.whole || ltb c.value lo || ltb hi c.value) ≡ false
    → Within lo hi c.value
in_bounds c lo hi e = (ground (arith, e), ground (arith, e))

parse_unsigned-Within :
    (strtoull : List ℕ → Conversion) (value name : List ℕ) (lo hi : ℕ)
    → All (Within lo hi) (parse_unsigned strtoull value name lo hi)
unfolding parse_unsigned
parse_unsigned-Within strtoull value name lo hi =
    let c = strtoull (c_str value) in
    let signed = is_empty value || front_or value 0 == 45 || front_or value 0 == 43 in
    let outside = c.range_error || c.no_digits || not c.whole || ltb c.value lo || ltb hi c.value in
    All-guard (Within lo hi) signed _ _ (λ a.
      All-guard (Within lo hi) outside _ (ok c.value)
        (λ e. All-ok (Within lo hi) c.value (in_bounds c lo hi e)))

pub set_number-InRange :
    (strtoull : List ℕ → Conversion) (n : Number) (name value : List ℕ) (c : ServerConfig)
    → InRange c
    → All InRange (set_number strtoull n name value c)
unfolding All set_number
set_number-InRange strtoull n name value c h =
    All-bind (Within 1 (maximum n)) InRange _ _
      (parse_unsigned-Within strtoull value name 1 (maximum n))
      (λ v (lo, hi). assign-InRange n v c lo hi h)

set_from-InRange :
    (strtoull : List ℕ → Conversion) (n : Number) (value : Option (List ℕ)) (c : ServerConfig)
    → InRange c
    → All InRange (set_from strtoull n value c)
unfolding All set_from
set_from-InRange strtoull n none c h = h
set_from-InRange strtoull n (some value) c h = set_number-InRange strtoull n _ value c h

read_number-InRange :
    (strtoull : List ℕ → Conversion) (environment : Environment) (n : Number) (c : ServerConfig)
    → InRange c
    → All InRange (read_number strtoull environment n c)
unfolding read_number
read_number-InRange strtoull environment n c h = set_from-InRange strtoull n _ c h

set_model-InRange : (v : Option (List ℕ)) (c : ServerConfig) → InRange c → InRange (set_model v c)
unfolding set_model
set_model-InRange none c h = h
set_model-InRange (some v) c h = h

set_listen-InRange : (v : Option (List ℕ)) (c : ServerConfig) → InRange c → InRange (set_listen v c)
unfolding set_listen
set_listen-InRange none c h = h
set_listen-InRange (some v) c h = h

set_key-InRange : (k f : Option (List ℕ)) (c : ServerConfig) → InRange c → InRange (set_key k f c)
unfolding set_key
set_key-InRange (some k) f c h = h
set_key-InRange none (some f) c h = h
set_key-InRange none none c h = h

pub apply_environment-InRange :
    (strtoull : List ℕ → Conversion) (environment : Environment) (c : ServerConfig)
    → InRange c
    → All InRange (apply_environment strtoull environment c)
unfolding All apply_environment
apply_environment-InRange strtoull environment c h =
    let read = read_number-InRange strtoull environment in
    let named = set_listen-InRange _ _ (set_model-InRange _ c h) in
    let a = read port _ named in
    let b = All-bind InRange InRange _ _ a (λ x k. set_key-InRange _ _ x k) in
    let d = All-bind InRange InRange _ _ b (read max_upload_mib) in
    let e = All-bind InRange InRange _ _ d (read realtime_soft_lag_ms) in
    let f = All-bind InRange InRange _ _ e (read realtime_hard_lag_ms) in
    let g = All-bind InRange InRange _ _ f (read realtime_buffer_ms) in
    All-bind InRange InRange _ _ g (read idle_timeout_sec)

pub defaults-InRange : InRange default_config
defaults-InRange = (
  (omega arith, omega arith),
  ((omega arith, omega arith), refl),
  (omega arith, omega arith),
  (omega arith, omega arith),
  (omega arith, omega arith),
  (omega arith, omega arith),
)
