-- ===== src/Dispatcher/Defaults.antt =====
-- server/internal/dispatcher/dispatcher.go: the configuration, its defaults and the time that one
-- request may take. Durations are in nanoseconds.
use distribuid_system_simula.Prelude.{
  suc, ℕ, zero, suc, ◌*◌, ◌/◌, ◌<◌, String, true, ◌≡◌, refl, arith, eqb, if◌then◌else◌,
}
use distribuid_system_simula.Prelude.Int.{twice, ℤ, pos, negsuc, leb_ℤ, ltb_ℤ}

-- `Breaker`
pub record Breaker : Type 0 where
  pub failure_threshold : ℕ
  pub success_threshold : ℕ
  pub open_duration : ℤ
  pub request_timeout : ℤ

pub record Config : Type 0 where
  pub webhook_url : String
  pub poll_interval : ℤ
  pub workers : ℤ
  pub batch_size : ℤ
  pub max_attempts : ℤ
  pub retry_base : ℤ
  pub retry_max : ℤ
  pub lease : ℤ
  pub breaker : Breaker

-- `time.Second`
abbrev pub second : ℕ
second = 1000000000

-- `if x <= 0 { x = d }`
abbrev pub positive_or : ℤ → ℤ → ℤ
positive_or d x = if leb_ℤ x (pos 0) then d else x

abbrev pub nonzero_or : ℕ → ℕ → ℕ
nonzero_or d x = if eqb x 0 then d else x

-- `withDefaults`
unfoldable pub with_defaults : Config → Config
with_defaults c = record {
  webhook_url = c.webhook_url;
  poll_interval = positive_or (pos (2 * second)) c.poll_interval;
  workers = positive_or (pos 4) c.workers;
  batch_size = positive_or (pos 50) c.batch_size;
  max_attempts = positive_or (pos 10) c.max_attempts;
  retry_base = positive_or (pos second) c.retry_base;
  retry_max = positive_or (pos (60 * second)) c.retry_max;
  lease = positive_or (pos (60 * second)) c.lease;
  breaker = record {
    failure_threshold = nonzero_or 5 c.breaker.failure_threshold;
    success_threshold = nonzero_or 2 c.breaker.success_threshold;
    open_duration = positive_or (pos (30 * second)) c.breaker.open_duration;
    request_timeout = positive_or (pos (10 * second)) c.breaker.request_timeout;
  };
}

-- Go's division by two, which rounds towards zero.
abbrev pub half : ℤ → ℤ
half (pos n) = pos (n / 2)
half (negsuc zero) = pos 0
half (negsuc (suc n)) = negsuc (n / 2)

-- The timeout of one request, in `post`.
unfoldable pub post_timeout : Config → ℤ
post_timeout c =
    if ltb_ℤ c.breaker.request_timeout (half c.lease)
    then c.breaker.request_timeout
    else half c.lease

-- Every number is usable.
pub record IsUsable (c : Config) : Type 0 where
  pub polls : ltb_ℤ (pos 0) c.poll_interval ≡ true
  pub works : ltb_ℤ (pos 0) c.workers ≡ true
  pub claims : ltb_ℤ (pos 0) c.batch_size ≡ true
  pub attempts : ltb_ℤ (pos 0) c.max_attempts ≡ true
  pub waits : ltb_ℤ (pos 0) c.retry_base ≡ true
  pub waits_max : ltb_ℤ (pos 0) c.retry_max ≡ true
  pub leases : ltb_ℤ (pos 0) c.lease ≡ true
  pub trips : 0 < c.breaker.failure_threshold
  pub closes : 0 < c.breaker.success_threshold
  pub stays_open : ltb_ℤ (pos 0) c.breaker.open_duration ≡ true
  pub times_out : ltb_ℤ (pos 0) c.breaker.request_timeout ≡ true

positive_or-positive : (d x : ℤ) → ltb_ℤ (pos 0) d ≡ true → ltb_ℤ (pos 0) (positive_or d x) ≡ true
positive_or-positive d x h = ground arith

pub positive_or-keeps : (d x : ℤ) → ltb_ℤ (pos 0) x ≡ true → positive_or d x ≡ x
positive_or-keeps d x h = ground arith

pub nonzero_or-keeps : (d x : ℕ) → 0 < x → nonzero_or d x ≡ x
nonzero_or-keeps d x h = ground arith

with_defaults-IsUsable : (c : Config) → IsUsable (with_defaults c)
unfolding with_defaults
with_defaults-IsUsable c = record {
  polls = positive_or-positive _ c.poll_interval refl;
  works = positive_or-positive _ c.workers refl;
  claims = positive_or-positive _ c.batch_size refl;
  attempts = positive_or-positive _ c.max_attempts refl;
  waits = positive_or-positive _ c.retry_base refl;
  waits_max = positive_or-positive _ c.retry_max refl;
  leases = positive_or-positive _ c.lease refl;
  trips = ground arith;
  closes = ground arith;
  stays_open = positive_or-positive _ c.breaker.open_duration refl;
  times_out = positive_or-positive _ c.breaker.request_timeout refl;
}

with_defaults-keeps : (c : Config) → IsUsable c → with_defaults c ≡ c
unfolding with_defaults
with_defaults-keeps c u i = record {
  webhook_url = c.webhook_url;
  poll_interval = positive_or-keeps (pos (2 * second)) _ u.polls i;
  workers = positive_or-keeps (pos 4) _ u.works i;
  batch_size = positive_or-keeps (pos 50) _ u.claims i;
  max_attempts = positive_or-keeps (pos 10) _ u.attempts i;
  retry_base = positive_or-keeps (pos second) _ u.waits i;
  retry_max = positive_or-keeps (pos (60 * second)) _ u.waits_max i;
  lease = positive_or-keeps (pos (60 * second)) _ u.leases i;
  breaker = record {
    failure_threshold = nonzero_or-keeps 5 _ u.trips i;
    success_threshold = nonzero_or-keeps 2 _ u.closes i;
    open_duration = positive_or-keeps (pos (30 * second)) _ u.stays_open i;
    request_timeout = positive_or-keeps (pos (10 * second)) _ u.times_out i;
  };
}

-- After `withDefaults` every number is usable, and a second `withDefaults` changes nothing.
pub with_defaults_lem :
    (c : Config) → IsUsable (with_defaults c) × (with_defaults (with_defaults c) ≡ with_defaults c)
with_defaults_lem c =
    (with_defaults-IsUsable c, with_defaults-keeps (with_defaults c) (with_defaults-IsUsable c))

lease_covers :
    (t l : ℤ)
    → ltb_ℤ (pos 0) l ≡ true
    → leb_ℤ (twice (if ltb_ℤ t (half l) then t else half l)) l ≡ true
lease_covers (pos t) (pos l) h = ground arith
lease_covers (negsuc t) (pos l) h = ground arith
lease_covers t (negsuc l) h = absurd (ground arith)

-- With a positive lease, the timeout of a request is at most the configured one, and twice the
-- timeout is at most the lease.
pub post_timeout-le :
    (c : Config)
    → ltb_ℤ (pos 0) c.lease ≡ true
    → (leb_ℤ (post_timeout c) c.breaker.request_timeout ≡ true)
      × (leb_ℤ (twice (post_timeout c)) c.lease ≡ true)
unfolding post_timeout
post_timeout-le c h = (ground arith, lease_covers c.breaker.request_timeout c.lease h)
