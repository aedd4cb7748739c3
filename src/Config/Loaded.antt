-- ===== src/Config/Loaded.antt =====
-- server/internal/config/config.go, Load and validate: which configurations the server starts with.
use distribuid_system_simula.Prelude.{
  ◌*◌, String, Bool, true, false, ◌||◌, Option, none, some, ◌==◌, ◌≡◌, ◌⊎◌, inl, inr, refl, sym, ap,
  ◌↔◌, arith, if◌then◌else◌, Bool-cases,
}
use distribuid_system_simula.Prelude.Int.{ℤ, pos, leb_ℤ, ltb_ℤ}
use distribuid_system_simula.Exec.{plain, Result, ok, err}
use distribuid_system_simula.Dispatcher.Defaults.{second}
use distribuid_system_simula.Config.{
  Config, Environ, no_brokers, validate, int_or, env_or_default_duration, load_env, config_of,
  accepted, load,
}

pub record IsValid (c : Config) : Type 0 where
  pub brokers : no_brokers c.kafka_brokers ≡ false
  pub topic : (c.kafka_topic == "") ≡ false
  pub dsn : (c.postgres_dsn == "") ≡ false
  pub trips : leb_ℤ (pos 1) c.webhook_cb_failure_threshold ≡ true
  pub closes : leb_ℤ (pos 1) c.webhook_cb_success_threshold ≡ true
  pub stays_open : ltb_ℤ (pos 0) c.webhook_cb_open_duration ≡ true
  pub times_out : ltb_ℤ (pos 0) c.webhook_timeout ≡ true

-- The checks, over the results of their tests.
checks : Bool → Bool → Bool → Bool → Bool → Result Unit
checks a b c d e =
    if a
    then err (plain "KAFKA_BOOTSTRAP_SERVERS is required")
    else if b
    then err (plain "KAFKA_TOPIC is required")
    else if c
    then err (plain "POSTGRES_DSN is required")
    else if d
    then err (plain "WEBHOOK_CB_FAILURE_THRESHOLD and WEBHOOK_CB_SUCCESS_THRESHOLD must be >= 1")
    else if e
    then err
        (plain "WEBHOOK_CB_OPEN_DURATION and WEBHOOK_TIMEOUT must be positive durations (e.g. 30s)")
    else ok tt

checks_ok :
    (a b c d e : Bool)
    → checks a b c d e ≡ ok tt
    → (a ≡ false) × (b ≡ false) × (c ≡ false) × (d ≡ false) × (e ≡ false)
unfolding checks
checks_ok a b c d e h = ground arith

-- `validate` accepts exactly the configurations with a broker, a topic and a DSN, thresholds of at
-- least one, and positive durations of the circuit breaker and of a request.
pub validate-IsValid : (c : Config) → (validate c ≡ ok tt) ↔ IsValid c
unfolding validate checks
validate-IsValid c = (
  λ h.
      let (a, b, d, e, f) =
        checks_ok (no_brokers c.kafka_brokers) (c.kafka_topic == "") (c.postgres_dsn == "")
          (ltb_ℤ c.webhook_cb_failure_threshold (pos 1)
            || ltb_ℤ c.webhook_cb_success_threshold (pos 1))
          (leb_ℤ c.webhook_cb_open_duration (pos 0) || leb_ℤ c.webhook_timeout (pos 0)) h in
      record {
        brokers = a;
        topic = b;
        dsn = d;
        trips = ground arith;
        closes = ground arith;
        stays_open = ground arith;
        times_out = ground arith;
      },
  λ v.
      let thresholds : (ltb_ℤ c.webhook_cb_failure_threshold (pos 1)
            || ltb_ℤ c.webhook_cb_success_threshold (pos 1))
          ≡ false =
        ground (arith, v.trips, v.closes) in
      let durations : (leb_ℤ c.webhook_cb_open_duration (pos 0) || leb_ℤ c.webhook_timeout (pos 0))
          ≡ false =
        ground (arith, v.stays_open, v.times_out) in
      rw (v.brokers, v.topic, v.dsn, thresholds, durations) refl,
)

-- The duration is the one that the text of the variable spells, or the variable is empty and it is
-- the default.
abbrev pub IsRead : (String → Option ℤ) → String → ℤ → ℤ → Type 0
IsRead parse value fallback duration =
    (((value == "") ≡ true) × (duration ≡ fallback)) ⊎ (parse value ≡ some duration)

read_or : (o : Option ℤ) → ltb_ℤ (pos 0) (int_or (pos 0) o) ≡ true → o ≡ some (int_or (pos 0) o)
read_or none h = absurd cc
read_or (some n) h = refl

env_or_default_duration-IsRead :
    (parse : String → Option ℤ) (env : Environ) (key : String) (fallback : ℤ)
    → ltb_ℤ (pos 0) (env_or_default_duration parse env key fallback) ≡ true
    → IsRead parse (env key) fallback (env_or_default_duration parse env key fallback)
unfolding env_or_default_duration
env_or_default_duration-IsRead parse env key fallback h = elim (Bool-cases (env key == "")) [
  | inl empty ↦ rw empty (inl (refl, refl))
  | inr given ↦ rw given (inr (read_or (parse (env key)) (rw given at h)))
]

config_or : Config → Result Config → Config
config_or c (ok d) = d
config_or c (err e) = c

accepted_ok : (c d : Config) (r : Result Unit) → accepted c r ≡ ok d → (r ≡ ok tt) × (c ≡ d)
unfolding config_or
accepted_ok c d (ok _) h = (refl, ap (config_or c) h)
accepted_ok c d (err e) h = absurd cc

-- When `Load` returns a configuration, it is valid, and no unreadable duration was replaced: the open
-- time of the breaker and the timeout are what the variables spell, or the defaults of empty ones.
-- `parse` is time.ParseDuration.
pub load_ok :
    (parse : String → Option ℤ) (file : Option String) (env env' : Environ) (c : Config)
    → load parse file env ≡ (ok c, env')
    → IsValid c
      × IsRead parse
          (env' "WEBHOOK_CB_OPEN_DURATION")
          (pos (30 * second))
          c.webhook_cb_open_duration
      × IsRead parse (env' "WEBHOOK_TIMEOUT") (pos (10 * second)) c.webhook_timeout
unfolding load
load_ok parse file env env' c h =
    let (passed, same) =
      accepted_ok (config_of parse (load_env file env)) c
        (validate (config_of parse (load_env file env))) (ap (λ x. x.0) h) in
    let v = (validate-IsValid (config_of parse (load_env file env))).0 passed in
    let after : load_env file env ≡ env' = ap (λ x. x.1) h in
    rw (sym same, sym after)
      (
        v,
        unfold config_of in
            env_or_default_duration-IsRead parse (load_env file env) "WEBHOOK_CB_OPEN_DURATION"
              (pos (30 * second)) v.stays_open,
        unfold config_of in
            env_or_default_duration-IsRead parse (load_env file env) "WEBHOOK_TIMEOUT"
              (pos (10 * second)) v.times_out,
      )
