-- ===== src/Server.antt =====
-- server/cmd/server/main.go: what the parts are configured with.
pub mod Wiring
use distribuid_system_simula.Prelude.{ℕ, suc, ◌+◌, ◌-◌, ◌%◌, ◌*◌, String}
use distribuid_system_simula.Prelude.Int.{ℤ, pos, negsuc}
use distribuid_system_simula.Config
use distribuid_system_simula.Dispatcher.Defaults

-- The conversion `uint32(n)` of an int, which wraps.
unfoldable pub to_uint32 : ℤ → ℕ
to_uint32 (pos n) = n % 4294967296
to_uint32 (negsuc n) = 4294967295 - n % 4294967296

-- The argument of `dispatcher.New`; the fields that it leaves out are zero.
unfoldable pub dispatcher_config : Config.Config → Defaults.Config
dispatcher_config cfg = record {
  webhook_url = cfg.webhook_url;
  poll_interval = cfg.outbox_poll_interval;
  workers = cfg.webhook_workers;
  batch_size = pos 0;
  max_attempts = cfg.webhook_max_attempts;
  retry_base = cfg.webhook_retry_base;
  retry_max = pos 0;
  lease = pos 0;
  breaker = record {
    failure_threshold = to_uint32 cfg.webhook_cb_failure_threshold;
    success_threshold = to_uint32 cfg.webhook_cb_success_threshold;
    open_duration = cfg.webhook_cb_open_duration;
    request_timeout = cfg.webhook_timeout;
  };
}
