-- ===== src/Tests/Server.antt =====
-- The theorems on the server's configuration and authorization at concrete inputs.
use voxtral_cpp.Prelude.{ℕ, ◌≡◌, ◌↔◌, refl, true, false, List, [], ◌∷◌, ◌++◌, length}
use voxtral_cpp.Server.Auth.{bearer, authorize_bearer}
use voxtral_cpp.Server.Auth.Exact.{Presents, authorize_bearer_iff}
use voxtral_cpp.Server.Config.{
  bytes, Conversion, KeyFile, default_config, ok, closed, parse_unsigned, check_key, key_of_file,
  read_api_key_file, validate_key, load_key, validate_config,
}
use voxtral_cpp.Server.Config.Arguments.{
  Environment, ParsedConfig, run, assign, find, set_model, set_listen, set_key, option_of,
  option_value, set_number, set_from, read_number, apply_environment, take_value, step,
  parse_arguments, end_config, parse_config,
}
use voxtral_cpp.Server.Config.Checked.{Checked, parse_config-Checked}

abbrev key : List ℕ
key = 49 ∷ 50 ∷ 51 ∷ []

authorize_bearer_iff_example :
    (authorize_bearer (bearer ++ key) key true ≡ true) ↔ Presents (bearer ++ key) key
authorize_bearer_iff_example = authorize_bearer_iff (bearer ++ key) key

-- A conversion that takes a text's length for its value.
abbrev by_length : List ℕ → Conversion
by_length text = record {
  value = length text;
  range_error = false;
  no_digits = false;
  whole = true;
}

abbrev no_files : List ℕ → KeyFile
no_files path = closed

abbrev arguments : List (List ℕ)
arguments = bytes "--model" ∷ bytes "m" ∷ bytes "--port" ∷ bytes "8080" ∷ []

abbrev environment : Environment
environment = (bytes "VOXTRAL_SERVER_API_KEY", key) ∷ []

abbrev parsed : ParsedConfig
parsed = record {
  config = record default_config { model_path = bytes "m"; api_key = key; port = 4 };
  action = run;
}

parses : parse_config by_length no_files arguments environment ≡ ok parsed
unfolding parse_unsigned check_key key_of_file read_api_key_file validate_key load_key
    validate_config assign find set_model set_listen set_key option_of option_value set_number
    set_from read_number apply_environment take_value step parse_arguments end_config parse_config
parses = refl

parse_config-Checked_example : Checked parsed.config
parse_config-Checked_example =
    parse_config-Checked by_length no_files arguments environment parsed parses refl
