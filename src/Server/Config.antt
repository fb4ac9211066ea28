-- ===== src/Server/Config.antt =====
-- server/server-config.cpp: the configuration from the environment and the arguments, and its
-- validation. Texts are lists of bytes. `strtoull` of the C library and the reading of a file are
-- parameters.
pub mod Arguments
pub mod Checked
pub mod Ranges
use Prim.Native.Char.{code}
use Prim.Native.String.{String}
use voxtral_cpp.Prelude.{
  ℕ, zero, suc, ◌+◌, ◌-◌, ◌*◌, ◌/◌, ◌%◌, ◌^◌, Bool, true, false, not, ◌&&◌, ◌||◌, List, [], ◌∷◌,
  if◌then◌else◌, ltb, leb, ◌==◌, length, take,
}
use voxtral_cpp.Server.Auth.{same_bytes, front_or, back_or}

-- The bytes of a text in the source.
abbrev pub bytes : String → List ℕ
bytes String.[] = []
bytes (String.◌∷◌ c s) = code c ∷ bytes s

abbrev pub mebibyte : ℕ
mebibyte = 1024 * 1024

abbrev pub max_api_key_bytes : ℕ
max_api_key_bytes = 4096

abbrev pub uint64_max : ℕ
uint64_max = 2 ^ 64 - 1

abbrev pub uint32_max : ℕ
uint32_max = 2 ^ 32 - 1

pub record ServerConfig : Type 0 where
  pub model_path : List ℕ
  pub listen_address : List ℕ
  pub port : ℕ
  pub api_key : List ℕ
  pub api_key_file : List ℕ
  pub no_auth : Bool
  pub allow_insecure_no_auth : Bool
  pub max_upload_bytes : ℕ
  pub realtime_soft_lag_ms : ℕ
  pub realtime_hard_lag_ms : ℕ
  pub realtime_buffer_ms : ℕ
  pub idle_timeout_sec : ℕ

abbrev pub default_config : ServerConfig
default_config = record {
  model_path = [];
  listen_address = bytes "127.0.0.1";
  port = 8080;
  api_key = [];
  api_key_file = [];
  no_auth = false;
  allow_insecure_no_auth = false;
  max_upload_bytes = 512 * mebibyte;
  realtime_soft_lag_ms = 1000;
  realtime_hard_lag_ms = 5000;
  realtime_buffer_ms = 1000;
  idle_timeout_sec = 60;
}

-- A `ConfigError`: the variable or option that its message names, with the bounds, or its text.
pub data ConfigError : Type 0 where
  not_unsigned : List ℕ → ConfigError
  not_between : List ℕ → ℕ → ℕ → ConfigError
  no_value : List ℕ → ConfigError
  empty_value : List ℕ → ConfigError
  unknown_option : List ℕ → ConfigError
  text : String → ConfigError

pub data Result {ℓ} (A : Type ℓ) : Type ℓ where
  ok : A → Result A
  error : ConfigError → Result A

infixl 5 ◌>>=◌
abbrev pub ◌>>=◌ {ℓ κ} : {A : Type ℓ} {B : Type κ} → Result A → (A → Result B) → Result B
ok a >>= f = f a
error e >>= f = error e

-- What `strtoull` says of a C string: the value, whether it was out of range (ERANGE), whether the
-- end pointer stayed at the start, and whether it is at the end of the string.
pub record Conversion : Type 0 where
  pub value : ℕ
  pub range_error : Bool
  pub no_digits : Bool
  pub whole : Bool

abbrev pub is_empty : List ℕ → Bool
is_empty [] = true
is_empty (b ∷ bs) = false

abbrev pub has_nul : List ℕ → Bool
has_nul [] = false
has_nul (b ∷ bs) = b == 0 || has_nul bs

-- `address.compare(0, 4, "127.") == 0`
abbrev pub is_loopback_address : List ℕ → Bool
is_loopback_address address =
    same_bytes address (bytes "localhost")
    || same_bytes address (bytes "::1")
    || same_bytes (take 4 address) (bytes "127.")

-- The C string in a text: what stands before its first zero byte.
abbrev pub c_str : List ℕ → List ℕ
c_str [] = []
c_str (b ∷ bs) = let rest = c_str bs in if b == 0 then [] else b ∷ rest

-- A trailing newline or carriage return, as often as there are any.
pub strip_newlines : List ℕ → List ℕ
strip_newlines [] = []
strip_newlines (b ∷ bs) = elim (strip_newlines bs) [
  | [] ↦ if b == 10 || b == 13 then [] else b ∷ []
  | c ∷ cs ↦ b ∷ c ∷ cs
]

module _ (strtoull : List ℕ → Conversion) where
  unfoldable pub parse_unsigned : List ℕ → List ℕ → ℕ → ℕ → Result ℕ
  parse_unsigned value name minimum maximum =
      let c = strtoull (c_str value) in
      if is_empty value || front_or value 0 == 45 || front_or value 0 == 43
      then error (not_unsigned name)
      else if c.range_error
          || c.no_digits
          || not c.whole
          || ltb c.value minimum
          || ltb maximum c.value
      then error (not_between name minimum maximum)
      else ok c.value

-- A key file that cannot be opened, one whose reading fails, or what it holds.
pub data KeyFile : Type 0 where
  closed : KeyFile
  bad : KeyFile
  holds : List ℕ → KeyFile

module _ (read_file : List ℕ → KeyFile) where
  unfoldable pub check_key : List ℕ → Result (List ℕ)
  check_key key =
      if is_empty key || has_nul key
      then error (text "API key file must contain a non-empty text token")
      else ok key

  unfoldable pub key_of_file : KeyFile → Result (List ℕ)
  unfolding check_key strip_newlines
  key_of_file closed = error (text "cannot open API key file")
  key_of_file bad = error (text "API key file is invalid or too large")
  key_of_file (holds key) =
      if ltb max_api_key_bytes (length key)
      then error (text "API key file is invalid or too large")
      else check_key (strip_newlines key)

  unfoldable pub read_api_key_file : List ℕ → Result (List ℕ)
  unfolding key_of_file
  read_api_key_file path = key_of_file (read_file path)

  -- The tests on the key, once a key file has been read.
  unfoldable pub validate_key : ServerConfig → Result ServerConfig
  validate_key config =
      if is_empty config.api_key
      then error (text "authentication is required; configure an API key or use --no-auth")
      else if ltb max_api_key_bytes (length config.api_key) || has_nul config.api_key
      then error (text "API key is invalid or too large")
      else ok config

  unfoldable pub load_key : ServerConfig → Result ServerConfig
  unfolding read_api_key_file
  load_key config =
      if is_empty config.api_key_file
      then ok config
      else (read_api_key_file config.api_key_file >>= λ key. ok (record config { api_key = key }))

  unfoldable pub validate_config : ServerConfig → Result ServerConfig
  unfolding load_key validate_key
  validate_config config =
      if is_empty config.model_path
      then error (text "model path is required (--model or VOXTRAL_SERVER_MODEL)")
      else if is_empty config.listen_address
      then error (text "listen address must not be empty")
      else if ltb config.realtime_hard_lag_ms config.realtime_soft_lag_ms
      then error (text "realtime soft lag must not exceed hard lag")
      else if config.no_auth
      then (if not (is_loopback_address config.listen_address) && not config.allow_insecure_no_auth
          then error (text "--no-auth is only allowed on a loopback bind")
          else ok (record config { api_key = []; api_key_file = [] }))
      else load_key config >>= validate_key
