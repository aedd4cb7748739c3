-- ===== src/Consumer/Delays.antt =====
-- server/internal/consumer/consumer.go, processWithRetry: the delays between the attempts at a record.
use distribuid_system_simula.Prelude.{
  ℕ, zero, suc, ◌-◌, ◌*◌, ◌^◌, ◌≤◌, ◌<◌, ◌≡◌, sym, ap, ◌∙◌, inl, inr, arith, leb, Bool-cases,
  if◌then◌else◌,
}
use distribuid_system_simula.Prelude.Int.{ℤ, pos, leb_ℤ, twice}
use distribuid_system_simula.Dispatcher.Backoff.{
  wrap64, wrap64-small, backoff, backoff_lem, min, doubled_power, both_capped, le-mul, pow_pos,
}

-- `retryBaseDelay` and `retryMaxDelay`, in nanoseconds
abbrev pub retry_base_delay : ℤ
retry_base_delay = pos 200000000

abbrev pub retry_max_delay : ℤ
retry_max_delay = pos 10000000000

abbrev pub min_ℤ : ℤ → ℤ → ℤ
min_ℤ a b = if leb_ℤ a b then a else b

-- `delay = min(delay*2, c.retryMax)`, in Go's 64-bit integers
unfoldable pub next_delay : ℤ → ℤ → ℤ
next_delay retry_max delay = min_ℤ (wrap64 (twice delay)) retry_max

-- `delay` once that many attempts have been waited for.
unfoldable pub delay_after : ℕ → ℤ → ℤ → ℤ
delay_after zero delay retry_max = delay
delay_after (suc n) delay retry_max = delay_after n (next_delay retry_max delay) retry_max

next_delay-pos : (d m : ℕ) → d ≤ m → m < 2 ^ 62 → next_delay (pos m) (pos d) ≡ pos (min (2 * d) m)
unfolding next_delay
next_delay-pos d m h k = rw (wrap64-small (2 * d) (omega arith)) (ground arith)

min_after_cap : (d m n : ℕ) → min (min (2 * d) m * 2 ^ n) m ≡ min (d * 2 ^ suc n) m
min_after_cap d m n = elim (Bool-cases (leb (2 * d) m)) [
  | inl below ↦ rw below (ap (λ x. min x m) (doubled_power d n))
  | inr above ↦ rw above (
      sym (both_capped m (m * 2 ^ n) m (omega arith) (le-mul m (2 ^ n) (pow_pos n)))
      ∙ both_capped m (d * 2 ^ suc n) m (omega arith) (enough (ground arith)))
]
  where
    enough : m ≤ 2 * d → m ≤ d * 2 ^ suc n
    enough h = omega (arith, h, le-mul (2 * d) (2 ^ n) (pow_pos n), doubled_power d n)

delay_after-power :
    (n d m : ℕ) → d ≤ m → m < 2 ^ 62 → delay_after n (pos d) (pos m) ≡ pos (min (d * 2 ^ n) m)
unfolding delay_after
delay_after-power zero d m h k = ap pos (ground arith)
delay_after-power (suc n) d m h k =
    rw (next_delay-pos d m h k)
      (delay_after-power n (min (2 * d) m) m (ground arith) k ∙ ap pos (min_after_cap d m n))

-- Before the consumer tries a record again after a failed attempt, it waits as long as the dispatcher
-- would with the same base and cap, if the base is at most the cap and the cap less than 2 ^ 62.
pub delay_after-backoff :
    (attempt base m : ℕ)
    → base ≤ m
    → m < 2 ^ 62
    → delay_after (attempt - 1) (pos base) (pos m) ≡ backoff attempt (pos base) (pos m)
delay_after-backoff attempt base m h k =
    delay_after-power (attempt - 1) base m h k ∙ sym (backoff_lem attempt base m (omega arith))
