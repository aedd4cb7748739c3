-- ===== src/Server/Wiring.antt =====
-- server/cmd/server/main.go: the dispatcher's configuration in a server that has started.
use distribuid_system_simula.Prelude.{◌%◌, ◌<◌, String, true, Option, ◌≡◌, ap, ◌∙◌, arith}
use distribuid_system_simula.Prelude.Int.{ℤ, pos, negsuc, leb_ℤ, ltb_ℤ}
use distribuid_system_simula.Exec.{ok}
use distribuid_system_simula.Config.{Environ, load, config_of}
use distribuid_system_simula.Config.Loaded.{load_ok}
use distribuid_system_simula.Dispatcher.Defaults.{
  with_defaults, positive_or-keeps, nonzero_or-keeps,
}
use distribuid_system_simula.Server.{to_uint32, dispatcher_config}
use distribuid_system_simula.Config

to_uint32-pos :
    (n : ℤ)
    → leb_ℤ (pos 1) n ≡ true
    → ltb_ℤ n (pos 4294967296) ≡ true
    → (0 < to_uint32 n) × (pos (to_uint32 n) ≡ n)
unfolding to_uint32
to_uint32-pos (pos n) h k =
    let small : n < 4294967296 = ground arith in
    let kept : n % 4294967296 ≡ n = omega arith in (ground arith, ap pos kept)
to_uint32-pos (negsuc n) h k = absurd (ground arith)

-- In a server that has started with thresholds below 2^32, the circuit breaker runs with the loaded
-- configuration: `withDefaults` changes neither a threshold nor a duration of it, and the conversions
-- keep the thresholds.
pub with_defaults-dispatcher_config :
    (parse : String → Option ℤ) (file : Option String) (env env' : Environ) (c : Config.Config)
    → load parse file env ≡ (ok c, env')
    → ltb_ℤ c.webhook_cb_failure_threshold (pos 4294967296) ≡ true
    → ltb_ℤ c.webhook_cb_success_threshold (pos 4294967296) ≡ true
    → (pos (with_defaults (dispatcher_config c)).breaker.failure_threshold
        ≡ c.webhook_cb_failure_threshold)
      × (pos (with_defaults (dispatcher_config c)).breaker.success_threshold
          ≡ c.webhook_cb_success_threshold)
      × ((with_defaults (dispatcher_config c)).breaker.open_duration ≡ c.webhook_cb_open_duration)
      × ((with_defaults (dispatcher_config c)).breaker.request_timeout ≡ c.webhook_timeout)
unfolding with_defaults dispatcher_config
with_defaults-dispatcher_config parse file env env' c h f s =
    let (v, _, _) = load_ok parse file env env' c h in
    let (trips, failures) = to_uint32-pos c.webhook_cb_failure_threshold v.trips f in
    let (closes, successes) = to_uint32-pos c.webhook_cb_success_threshold v.closes s in
    (
      ap pos (nonzero_or-keeps 5 _ trips) ∙ failures,
      ap pos (nonzero_or-keeps 2 _ closes) ∙ successes,
      positive_or-keeps _ c.webhook_cb_open_duration v.stays_open,
      positive_or-keeps _ c.webhook_timeout v.times_out,
    )
