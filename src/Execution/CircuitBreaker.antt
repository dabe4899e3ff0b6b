-- ===== src/Execution/CircuitBreaker.antt =====
-- services/execution/circuit_breaker.py: ApiCircuitBreaker. Each answer of the clock is an argument, in
-- microseconds. Audit records are not modelled.
use apex_trader.Base.{
  ℕ, suc, ◌+◌, ◌-◌, ◌*◌, ◌/◌, leb, Bool, true, false, Option, none, some, if◌then◌else◌,
}
use apex_trader.Config.{Settings}

pub record ApiCircuitBreaker : Type 0 where
  pub failure_threshold : ℕ
  pub pause_minutes : ℕ
  pub failures : ℕ
  pub paused_until : Option ℕ

abbrev pub new_breaker : {F : Type 0} → Settings F → ApiCircuitBreaker
new_breaker cfg = record {
  failure_threshold = cfg.api_failure_threshold;
  pause_minutes = cfg.api_circuit_pause_minutes;
  failures = 0;
  paused_until = none;
}

-- `timedelta(minutes=...)`
abbrev pub microseconds_of : ℕ → ℕ
microseconds_of minutes = minutes * 60000000

abbrev is_open_until : Option ℕ → ℕ → ApiCircuitBreaker → Bool × ApiCircuitBreaker
is_open_until none now b = (false, b)
is_open_until (some until) now b =
    if leb until now then (false, record b { paused_until = none; failures = 0 }) else (true, b)

unfoldable pub is_open : ℕ → ApiCircuitBreaker → Bool × ApiCircuitBreaker
is_open now b = is_open_until b.paused_until now b

-- `max(0, int(delta.total_seconds()))`; the subtraction stops at 0, as `max` does.
abbrev remaining_sec : Option ℕ → ℕ → ℕ
remaining_sec none now = 0
remaining_sec (some until) now = (until - now) / 1000000

-- The clock is read twice.
unfoldable pub pause_remaining_sec : ℕ → ℕ → ApiCircuitBreaker → ℕ × ApiCircuitBreaker
pause_remaining_sec now later b =
    let (opened, b') = is_open now b in
    (if opened then remaining_sec b'.paused_until later else 0, b')

unfoldable pub record_success : ApiCircuitBreaker → ApiCircuitBreaker
record_success b = record b { failures = 0 }

unfoldable pub record_failure : ℕ → ApiCircuitBreaker → Bool × ApiCircuitBreaker
record_failure now b =
    if leb b.failure_threshold (suc b.failures)
    then (
      true,
      record b { failures = 0; paused_until = some (now + microseconds_of b.pause_minutes) },
    )
    else (false, record b { failures = suc b.failures })

-- What `status` reports, and the breaker after its two queries.
unfoldable pub status : ℕ → ℕ → ℕ → ApiCircuitBreaker → (Bool × ℕ × ℕ) × ApiCircuitBreaker
status first second third b =
    let (opened, b') = is_open first b in
    let (remaining, b'') = pause_remaining_sec second third b' in
    ((opened, b'.failures, remaining), b'')
