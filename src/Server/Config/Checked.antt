-- ===== src/Server/Config/Checked.antt =====
-- What holds of a configuration that parse_config gives to run with.
use voxtral_cpp.Prelude.{
  ℕ, zero, suc, ◌≤◌, ◌≡◌, refl, subst, true, false, not, ◌&&◌, ◌||◌, List, [], ◌∷◌, arith, ltb,
  length, ◌⊎◌, inl, inr, if-cases,
}
use voxtral_cpp.Server.Config.{
  max_api_key_bytes, ServerConfig, default_config, Result, ok, error, Conversion, KeyFile, is_empty,
  has_nul, is_loopback_address, validate_config, load_key, validate_key, read_api_key_file,
}
use voxtral_cpp.Server.Config.Arguments.{
  Environment, run, help, version, ParsedConfig, Argument, show_help, show_version, model, listen,
  key_file, no_auth, allow_insecure_no_auth, number, unknown, option_of, option_value, Step, done,
  next, set_number, take_value, step, parse_arguments, end_config, parse_config,
}
use voxtral_cpp.Server.Config.Ranges.{
  All, All-ok, All-bind, All-guard, defaults-InRange, InRange, set_number-InRange,
  apply_environment-InRange,
}

-- After a round: at most `n` arguments are left, or the command line asks for help or the version.
unfoldable Stepped : ℕ → Step → Type 0
Stepped n (done run c) = ⊥
Stepped n (done _ c) = Unit {0}
Stepped n (next c left) = InRange c × (length left ≤ n)

option_value-left :
    (a : List ℕ) (rest : List (List ℕ))
    → All (λ (v, left). length left ≤ length rest) (option_value a rest)
unfolding All option_value
option_value-left a [] = tt
option_value-left a (v ∷ rest) =
    All-guard (λ (w, left). length left ≤ suc (length rest)) (is_empty v) _ (ok (v, rest))
      (λ e. omega arith)

module _ (strtoull : List ℕ → Conversion) where
  take_value-Stepped :
      (put : List ℕ → ServerConfig) (a : List ℕ) (rest : List (List ℕ))
      → ((v : List ℕ) → InRange (put v))
      → All (Stepped (length rest)) (take_value strtoull put a rest)
  unfolding take_value Stepped
  take_value-Stepped put a rest h =
      All-bind (λ (v, left). length left ≤ length rest) (Stepped (length rest))
        (option_value a rest) _ (option_value-left a rest)
        (λ (v, left) k. All-ok (Stepped (length rest)) (next (put v) left) (h v, k))

  step-Stepped :
      (o : Argument) (a : List ℕ) (rest : List (List ℕ)) (c : ServerConfig)
      → InRange c
      → All (Stepped (length rest)) (step strtoull o a rest c)
  unfolding All step Stepped
  step-Stepped show_help a rest c h = tt
  step-Stepped show_version a rest c h = tt
  step-Stepped model a rest c h = take_value-Stepped _ a rest (λ v. h)
  step-Stepped listen a rest c h = take_value-Stepped _ a rest (λ v. h)
  step-Stepped key_file a rest c h = take_value-Stepped _ a rest (λ v. h)
  step-Stepped no_auth a rest c h = (h, omega arith)
  step-Stepped allow_insecure_no_auth a rest c h = (h, omega arith)
  step-Stepped (number n) a rest c h =
      All-bind (λ (v, left). length left ≤ length rest) (Stepped (length rest))
        (option_value a rest) _ (option_value-left a rest)
        (λ (v, left) k.
          All-bind InRange (Stepped (length rest)) (set_number strtoull n a v c) _
            (set_number-InRange strtoull n a v c h) (λ d i. (i, k)))
  step-Stepped unknown a rest c h = tt

  after_round :
      (n m : ℕ)
      → m ≤ n
      → ((left : List (List ℕ)) (d : ServerConfig)
          → length left ≤ n
          → InRange d
          → All (Stepped 0) (parse_arguments strtoull n left d))
      → (r : Result Step) → All (Stepped m) r
      → All (Stepped 0) (elim r [
        | error e ↦ error e
        | ok (done action d) ↦ ok (done action d)
        | ok (next d left) ↦ parse_arguments strtoull n left d
      ])
  unfolding All Stepped
  after_round n m b later (error e) k = tt
  after_round n m b later (ok (done run d)) k = k
  after_round n m b later (ok (done help d)) k = tt
  after_round n m b later (ok (done version d)) k = tt
  after_round n m b later (ok (next d left)) (i, k) = later left d (omega arith) i

  -- With a round for each argument, the loop has read all of them when it ends.
  parse_arguments-Stepped :
      (n : ℕ) (rest : List (List ℕ)) (c : ServerConfig)
      → length rest ≤ n
      → InRange c
      → All (Stepped 0) (parse_arguments strtoull n rest c)
  unfolding All Stepped parse_arguments
  parse_arguments-Stepped zero rest c b h = (h, b)
  parse_arguments-Stepped (suc n) [] c b h = (h, omega arith)
  parse_arguments-Stepped (suc n) (a ∷ rest) c b h =
      after_round n (length rest) (omega arith) (λ left d b i. parse_arguments-Stepped n left d b i)
        (step strtoull (option_of a) a rest c) (step-Stepped (option_of a) a rest c h)

-- A request can be checked against the key: the key is not empty, not too long and holds no zero byte.
abbrev pub HasKey : ServerConfig → Type 0
HasKey c =
    (c.no_auth ≡ false)
    × (is_empty c.api_key ≡ false)
    × (length c.api_key ≤ max_api_key_bytes)
    × (has_nul c.api_key ≡ false)

-- No key is asked for, and none is kept: only on a loopback address, or where the override is given.
abbrev pub IsOpen : ServerConfig → Type 0
IsOpen c =
    (c.no_auth ≡ true)
    × (c.api_key ≡ [])
    × ((is_loopback_address c.listen_address || c.allow_insecure_no_auth) ≡ true)

abbrev Started : ServerConfig → Type 0
Started c =
    InRange c
    × (c.realtime_soft_lag_ms ≤ c.realtime_hard_lag_ms)
    × (is_empty c.model_path ≡ false)
    × (is_empty c.listen_address ≡ false)

abbrev pub Checked : ServerConfig → Type 0
Checked c = Started c × (HasKey c ⊎ IsOpen c)

Locked : ServerConfig → Type 0
Locked c = Started c × (c.no_auth ≡ false)

module _ (read_file : List ℕ → KeyFile) where
  load_key-Locked : (c : ServerConfig) → Locked c → All Locked (load_key read_file c)
  unfolding All load_key Locked
  load_key-Locked c h =
      if-cases (λ r. All Locked r) (is_empty c.api_key_file) (λ e. All-ok Locked c h)
        (λ e.
          All-bind (λ k. Unit {0}) Locked (read_api_key_file read_file c.api_key_file) _
            (anything _) (λ k u. All-ok Locked (record c { api_key = k }) h))
    where
      anything : {A : Type 0} (r : Result A) → All (λ k. Unit {0}) r
      anything (ok k) = tt
      anything (error e) = tt

  validate_key-Checked : (c : ServerConfig) → Locked c → All Checked (validate_key read_file c)
  unfolding validate_key Locked
  validate_key-Checked c (s, n) =
      let wrong = ltb max_api_key_bytes (length c.api_key) || has_nul c.api_key in
      All-guard Checked (is_empty c.api_key) _ _ (λ e.
        All-guard Checked wrong _ (ok c)
          (λ w. All-ok Checked c (s, inl (n, e, ground (arith, w), ground (arith, w)))))

  open_config :
      (c : ServerConfig)
      → Started c
      → c.no_auth ≡ true
      → (not (is_loopback_address c.listen_address) && not c.allow_insecure_no_auth) ≡ false
      → Checked (record c { api_key = []; api_key_file = [] })
  open_config c s n e = (s, inr (n, refl, ground (arith, e)))

  validate_config-Checked :
      (c : ServerConfig) → InRange c → All Checked (validate_config read_file c)
  unfolding validate_config Locked
  validate_config-Checked c h =
      let refused = not (is_loopback_address c.listen_address) && not c.allow_insecure_no_auth in
      All-guard Checked (is_empty c.model_path) _ _ (λ m.
        All-guard Checked (is_empty c.listen_address) _ _ (λ l.
          All-guard Checked (ltb c.realtime_hard_lag_ms c.realtime_soft_lag_ms) _ _ (λ o.
            let s : Started c = (h, ground (arith, o), m, l) in
            if-cases (λ r. All Checked r) c.no_auth
              (λ n. All-guard Checked refused _ _ (λ e. All-ok Checked _ (open_config c s n e)))
              (λ n. All-bind Locked Checked _ _ (load_key-Locked c (s, n)) validate_key-Checked))))

abbrev Admitted : ParsedConfig → Type 0
Admitted p = p.action ≡ run → Checked p.config

module _ (strtoull : List ℕ → Conversion) (read_file : List ℕ → KeyFile) where
  end_config-Admitted : (s : Step) → Stepped 0 s → All Admitted (end_config read_file s)
  unfolding All Stepped end_config
  end_config-Admitted (done run c) h = absurd h
  end_config-Admitted (done help c) h = λ e. cc
  end_config-Admitted (done version c) h = λ e. cc
  end_config-Admitted (next c left) (i, b) =
      All-bind Checked Admitted (validate_config read_file c) _
        (validate_config-Checked read_file c i) (λ d k e. k)

  parse_config-Admitted :
      (arguments : List (List ℕ)) (environment : Environment)
      → All Admitted (parse_config strtoull read_file arguments environment)
  unfolding parse_config
  parse_config-Admitted arguments environment =
      let start = apply_environment-InRange strtoull environment default_config defaults-InRange in
      let read =
        All-bind InRange (Stepped 0) _ _ start (λ c h.
          parse_arguments-Stepped strtoull (length arguments) arguments c (omega arith) h) in
      All-bind (Stepped 0) Admitted _ (end_config read_file) read end_config-Admitted

-- Whatever the arguments, the environment, the files and what `strtoull` makes of a text: where a
-- configuration to run with is returned, there is a model and an address, the soft lag does not
-- exceed the hard lag, the port is in 1..65535, each time in 1..2^32 - 1, and the upload limit a
-- whole number of MiB, 1 at least, so that no cast has cut a number off; and either requests are
-- checked against a key of 1 to 4096 bytes without a zero byte, or the server is open, holds no key,
-- and is bound to a loopback address or told to be insecure.
pub parse_config-Checked :
    (strtoull : List ℕ → Conversion) (read_file : List ℕ → KeyFile) (arguments : List (List ℕ))
    (environment : Environment) (parsed : ParsedConfig)
    → parse_config strtoull read_file arguments environment ≡ ok parsed
    → parsed.action ≡ run
    → Checked parsed.config
unfolding All
parse_config-Checked strtoull read_file arguments environment parsed e r =
    let h = parse_config-Admitted strtoull read_file arguments environment in
    subst (All Admitted) e h r
