-- ===== src/Server/Config/Arguments.antt =====
-- server/server-config.cpp: the environment, the options, and parse_config, which reads both and
-- validates the configuration.
use Prim.Native.String.{String}
use voxtral_cpp.Prelude.{
  ℕ, zero, suc, ◌*◌, ◌/◌, ◌%◌, ◌^◌, true, false, Option, none, some, List, [], ◌∷◌, if◌then◌else◌,
  length,
}
use voxtral_cpp.Server.Auth.{same_bytes}
use voxtral_cpp.Server.Config.{
  bytes, mebibyte, uint32_max, uint64_max, ServerConfig, default_config, Result, ok, error, ◌>>=◌,
  no_value, empty_value, unknown_option, Conversion, KeyFile, is_empty, parse_unsigned,
  validate_config,
}

-- The settings that are numbers.
pub data Number : Type 0 where
  port : Number
  max_upload_mib : Number
  realtime_soft_lag_ms : Number
  realtime_hard_lag_ms : Number
  realtime_buffer_ms : Number
  idle_timeout_sec : Number

abbrev pub maximum : Number → ℕ
maximum port = 65535
maximum max_upload_mib = uint64_max / mebibyte
maximum _ = uint32_max

-- The assignment, with its cast.
unfoldable pub assign : Number → ℕ → ServerConfig → ServerConfig
assign port v config = record config { port = v % 2 ^ 16 }
assign max_upload_mib v config = record config { max_upload_bytes = v * mebibyte % 2 ^ 64 }
assign realtime_soft_lag_ms v config = record config { realtime_soft_lag_ms = v % 2 ^ 32 }
assign realtime_hard_lag_ms v config = record config { realtime_hard_lag_ms = v % 2 ^ 32 }
assign realtime_buffer_ms v config = record config { realtime_buffer_ms = v % 2 ^ 32 }
assign idle_timeout_sec v config = record config { idle_timeout_sec = v % 2 ^ 32 }

abbrev pub variable : Number → List ℕ
variable port = bytes "VOXTRAL_SERVER_PORT"
variable max_upload_mib = bytes "VOXTRAL_SERVER_MAX_UPLOAD_MIB"
variable realtime_soft_lag_ms = bytes "VOXTRAL_SERVER_REALTIME_SOFT_LAG_MS"
variable realtime_hard_lag_ms = bytes "VOXTRAL_SERVER_REALTIME_HARD_LAG_MS"
variable realtime_buffer_ms = bytes "VOXTRAL_SERVER_REALTIME_BUFFER_MS"
variable idle_timeout_sec = bytes "VOXTRAL_SERVER_IDLE_TIMEOUT_SEC"

-- `Environment`: the variables that are set, each once.
abbrev pub Environment : Type 0
Environment = List (List ℕ × List ℕ)

unfoldable pub find : List ℕ → Environment → Option (List ℕ)
find name [] = none
find name ((key, value) ∷ rest) =
    let later = find name rest in if same_bytes key name then some value else later

unfoldable pub set_model : Option (List ℕ) → ServerConfig → ServerConfig
set_model none config = config
set_model (some value) config = record config { model_path = value }

unfoldable pub set_listen : Option (List ℕ) → ServerConfig → ServerConfig
set_listen none config = config
set_listen (some value) config = record config { listen_address = value }

-- The key comes before the file with a key.
unfoldable pub set_key : Option (List ℕ) → Option (List ℕ) → ServerConfig → ServerConfig
set_key (some value) file config = record config { api_key = value; api_key_file = [] }
set_key none (some file) config = record config { api_key_file = file }
set_key none none config = config

pub data ConfigAction : Type 0 where
  run : ConfigAction
  help : ConfigAction
  version : ConfigAction

pub record ParsedConfig : Type 0 where
  pub config : ServerConfig
  pub action : ConfigAction

-- The options, by what the loop does with them.
pub data Argument : Type 0 where
  show_help : Argument
  show_version : Argument
  model : Argument
  listen : Argument
  key_file : Argument
  no_auth : Argument
  allow_insecure_no_auth : Argument
  number : Number → Argument
  unknown : Argument

unfoldable pub option_of : List ℕ → Argument
option_of argument =
    if same_bytes argument (bytes "--help")
    then show_help
    else if same_bytes argument (bytes "--version")
    then show_version
    else if same_bytes argument (bytes "--model")
    then model
    else if same_bytes argument (bytes "--listen")
    then listen
    else if same_bytes argument (bytes "--port")
    then number port
    else if same_bytes argument (bytes "--api-key-file")
    then key_file
    else if same_bytes argument (bytes "--no-auth")
    then no_auth
    else if same_bytes argument (bytes "--allow-insecure-no-auth")
    then allow_insecure_no_auth
    else if same_bytes argument (bytes "--max-upload-mib")
    then number max_upload_mib
    else if same_bytes argument (bytes "--realtime-soft-lag-ms")
    then number realtime_soft_lag_ms
    else if same_bytes argument (bytes "--realtime-hard-lag-ms")
    then number realtime_hard_lag_ms
    else if same_bytes argument (bytes "--realtime-buffer-ms")
    then number realtime_buffer_ms
    else if same_bytes argument (bytes "--idle-timeout-sec")
    then number idle_timeout_sec
    else unknown

-- The value of an option, and the arguments behind it.
unfoldable pub option_value : List ℕ → List (List ℕ) → Result (List ℕ × List (List ℕ))
option_value option [] = error (no_value option)
option_value option (value ∷ rest) =
    if is_empty value then error (empty_value option) else ok (value, rest)

-- A round of the loop: it returns, or goes on with the arguments that are left.
pub data Step : Type 0 where
  done : ConfigAction → ServerConfig → Step
  next : ServerConfig → List (List ℕ) → Step

module _ (strtoull : List ℕ → Conversion) where
  unfoldable pub set_number : Number → List ℕ → List ℕ → ServerConfig → Result ServerConfig
  set_number n name value config =
      parse_unsigned strtoull value name 1 (maximum n) >>= λ v. ok (assign n v config)

  unfoldable pub set_from : Number → Option (List ℕ) → ServerConfig → Result ServerConfig
  unfolding set_number
  set_from n none config = ok config
  set_from n (some value) config = set_number n (variable n) value config

  unfoldable pub read_number : Environment → Number → ServerConfig → Result ServerConfig
  unfolding set_from find
  read_number environment n config = set_from n (find (variable n) environment) config

  unfoldable pub apply_environment : Environment → ServerConfig → Result ServerConfig
  unfolding read_number set_model set_listen set_key
  apply_environment environment config =
      let get : String → Option (List ℕ) = λ name. find (bytes name) environment in
      let named = set_model (get "VOXTRAL_SERVER_MODEL") config in
      read_number environment port (set_listen (get "VOXTRAL_SERVER_LISTEN") named)
      >>= (λ c. ok (set_key (get "VOXTRAL_SERVER_API_KEY") (get "VOXTRAL_SERVER_API_KEY_FILE") c))
      >>= read_number environment max_upload_mib
      >>= read_number environment realtime_soft_lag_ms
      >>= read_number environment realtime_hard_lag_ms
      >>= read_number environment realtime_buffer_ms
      >>= read_number environment idle_timeout_sec

  unfoldable pub take_value : (List ℕ → ServerConfig) → List ℕ → List (List ℕ) → Result Step
  unfolding option_value
  take_value put argument rest = option_value argument rest >>= λ (v, left). ok (next (put v) left)

  unfoldable pub step : Argument → List ℕ → List (List ℕ) → ServerConfig → Result Step
  unfolding set_number take_value
  step show_help argument rest config = ok (done help config)
  step show_version argument rest config = ok (done version config)
  step model argument rest config = take_value (λ v. record config { model_path = v }) argument rest
  step listen argument rest config =
      take_value (λ v. record config { listen_address = v }) argument rest
  step key_file argument rest config =
      take_value (λ v. record config { api_key_file = v; api_key = []; no_auth = false }) argument
        rest
  step no_auth argument rest config = ok (next (record config { no_auth = true }) rest)
  step allow_insecure_no_auth argument rest config =
      ok (next (record config { allow_insecure_no_auth = true }) rest)
  step (number n) argument rest config = option_value argument rest >>= λ (v, left).
      set_number n argument v config >>= λ c. ok (next c left)
  step unknown argument rest config = error (unknown_option argument)

  -- The loop, in at most `rounds` rounds: it takes an argument in each.
  unfoldable pub parse_arguments : ℕ → List (List ℕ) → ServerConfig → Result Step
  unfolding step option_of
  parse_arguments zero rest config = ok (next config rest)
  parse_arguments (suc rounds) [] config = ok (next config [])
  parse_arguments (suc rounds) (argument ∷ rest) config =
      elim (step (option_of argument) argument rest config) [
        | error e ↦ error e
        | ok (done action c) ↦ ok (done action c)
        | ok (next c left) ↦ parse_arguments rounds left c
      ]

-- What follows the loop.
unfoldable pub end_config : (List ℕ → KeyFile) → Step → Result ParsedConfig
end_config read_file (done action config) = ok (record { config = config; action = action })
end_config read_file (next config left) =
    validate_config read_file config >>= λ c. ok (record { config = c; action = run })

-- `arguments` are those behind the name of the program.
unfoldable pub parse_config :
    (List ℕ → Conversion) → (List ℕ → KeyFile) → List (List ℕ) → Environment → Result ParsedConfig
unfolding apply_environment parse_arguments end_config
parse_config strtoull read_file arguments environment =
    apply_environment strtoull environment default_config
    >>= parse_arguments strtoull (length arguments) arguments
    >>= end_config read_file
