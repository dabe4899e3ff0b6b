-- ===== src/Execution/Pauses.antt =====
-- services/execution/circuit_breaker.py: when the circuit opens, and how long it stays open.
use apex_trader.Base.{
  ℕ, suc, ◌+◌, ◌<◌, ◌≡◌, refl, ap, ◌∙◌, arith, leb, ltb, Bool, true, false, ◌&&◌, Option, none,
  some, List, [], ◌∷◌, length, all,
}
use apex_trader.Execution.CircuitBreaker.{
  ApiCircuitBreaker, is_open, pause_remaining_sec, record_success, record_failure, status,
  microseconds_of,
}

-- A call of the breaker, with the clock's answers.
pub data Call : Type 0 where
  asking : ℕ → Call
  remaining : ℕ → ℕ → Call
  succeeding : Call
  failing : ℕ → Call
  reporting : ℕ → ℕ → ℕ → Call

abbrev pub perform : Call → ApiCircuitBreaker → ApiCircuitBreaker
perform (Call.asking now) b = (is_open now b).1
perform (Call.remaining now later) b = (pause_remaining_sec now later b).1
perform Call.succeeding b = record_success b
perform (Call.failing now) b = (record_failure now b).1
perform (Call.reporting first second third) b = (status first second third b).1

unfoldable pub perform_all : List Call → ApiCircuitBreaker → ApiCircuitBreaker
perform_all [] b = b
perform_all (k ∷ ks) b = perform_all ks (perform k b)

-- The clock's answers that a call acts on lie in the pause.
abbrev pub within : ℕ → ℕ → Call → Bool
within from until (Call.asking now) = ltb now until
within from until (Call.remaining now later) = ltb now until
within from until Call.succeeding = true
within from until (Call.failing now) = leb from now
within from until (Call.reporting first second third) = ltb first until && ltb second until

abbrev pub pauses_for : ℕ → Option ℕ → Bool
pauses_for until none = false
pauses_for until (some u) = leb until u

-- Fewer failures are counted than would have opened the circuit.
abbrev pub IsBounded : ApiCircuitBreaker → Type 0
IsBounded b = b.failures < b.failure_threshold

perform-IsBounded : (k : Call) (b : ApiCircuitBreaker) → IsBounded b → IsBounded (perform k b)
unfolding is_open pause_remaining_sec record_success record_failure status
perform-IsBounded (Call.asking now) b h = ground arith
perform-IsBounded (Call.remaining now later) b h = ground arith
perform-IsBounded Call.succeeding b h = ground arith
perform-IsBounded (Call.failing now) b h = ground arith
perform-IsBounded (Call.reporting first second third) b h = ground arith

-- Where the count of failures is below the threshold, every sequence of calls keeps it there.
pub perform_all-IsBounded :
    (ks : List Call) (b : ApiCircuitBreaker) → IsBounded b → IsBounded (perform_all ks b)
unfolding perform_all
perform_all-IsBounded [] b h = h
perform_all-IsBounded (k ∷ ks) b h =
    perform_all-IsBounded ks (perform k b) (perform-IsBounded k b h)

unfoldable pub fail_all : List ℕ → ApiCircuitBreaker → ApiCircuitBreaker
fail_all [] b = b
fail_all (t ∷ ts) b = fail_all ts (record_failure t b).1

fail_all-counts :
    (ts : List ℕ) (b : ApiCircuitBreaker)
    → b.failures + length ts < b.failure_threshold
    → fail_all ts b ≡ record b { failures = b.failures + length ts }
unfolding fail_all record_failure
fail_all-counts [] b h = ap (λ n. record b { failures = n }) (omega arith)
fail_all-counts (t ∷ ts) b h =
    let counted : ApiCircuitBreaker = record b { failures = suc b.failures } in
    let below : leb b.failure_threshold (suc b.failures) ≡ false = ground (arith, h) in
    rw below (
      fail_all-counts ts counted (omega (arith, h))
      ∙ ap (λ n. record b { failures = n }) (omega arith))

-- Failures in a row that stay below the threshold are counted and open nothing; the one that reaches
-- it opens the circuit for the pause from its time on, and the count starts again.
pub opens_on_threshold :
    (ts : List ℕ) (now : ℕ) (b : ApiCircuitBreaker)
    → b.failures + length ts + 1 ≡ b.failure_threshold
    → (fail_all ts b ≡ record b { failures = b.failures + length ts })
      × (record_failure now (fail_all ts b) ≡ (
        true,
        record b { failures = 0; paused_until = some (now + microseconds_of b.pause_minutes) },
      ))
unfolding record_failure
opens_on_threshold ts now b h =
    let counts = fail_all-counts ts b (omega (arith, h)) in
    let reached : leb b.failure_threshold (suc (b.failures + length ts)) ≡ true =
      ground (arith, h) in
    (counts, rw (counts, reached) refl)

perform-pauses :
    (from until : ℕ) (k : Call) (b : ApiCircuitBreaker)
    → until ≡ from + microseconds_of b.pause_minutes
    → within from until k ≡ true
    → pauses_for until b.paused_until ≡ true
    → (pauses_for until (perform k b).paused_until ≡ true)
      × ((perform k b).pause_minutes ≡ b.pause_minutes)
unfolding is_open pause_remaining_sec record_success record_failure status
perform-pauses from until (Call.asking now) b u w h = ground arith
perform-pauses from until (Call.remaining now later) b u w h = ground arith
perform-pauses from until Call.succeeding b u w h = ground arith
perform-pauses from until (Call.failing now) b u w h = ground arith
perform-pauses from until (Call.reporting first second third) b u w h = ground arith

perform_all-pauses :
    (from until : ℕ) (ks : List Call) (b : ApiCircuitBreaker)
    → until ≡ from + microseconds_of b.pause_minutes
    → all (within from until) ks ≡ true
    → pauses_for until b.paused_until ≡ true
    → pauses_for until (perform_all ks b).paused_until ≡ true
unfolding perform_all
perform_all-pauses from until [] b u w h = h
perform_all-pauses from until (k ∷ ks) b u w h =
    let first : within from until k ≡ true = ground (arith, w) in
    let others : all (within from until) ks ≡ true = ground (arith, w) in
    let (later, same) = perform-pauses from until k b u first h in
    perform_all-pauses from until ks (perform k b) (rw same u) others later

is_open-pauses :
    (until now : ℕ) (b : ApiCircuitBreaker)
    → now < until
    → pauses_for until b.paused_until ≡ true
    → (is_open now b).0 ≡ true
unfolding is_open
is_open-pauses until now b early h = ground arith

-- From the failure that opens the circuit on, and whatever calls are made meanwhile, successes and
-- further failures included, `is_open` answers True until the pause is over.
pub pause_lasts :
    (ks : List Call) (from now : ℕ) (b : ApiCircuitBreaker)
    → (record_failure from b).0 ≡ true
    → let until = from + microseconds_of b.pause_minutes in
      all (within from until) ks ≡ true
      → now < until
      → (is_open now (perform_all ks (record_failure from b).1)).0 ≡ true
unfolding record_failure
pause_lasts ks from now b opened w early =
    let until = from + microseconds_of b.pause_minutes in
    let reached : leb b.failure_threshold (suc b.failures) ≡ true = ground (arith, opened) in
    rw reached (
      is_open-pauses until now
        (perform_all ks (record b { failures = 0; paused_until = some until })) early
        (perform_all-pauses from until ks (record b { failures = 0; paused_until = some until })
          refl w (ground arith)))
