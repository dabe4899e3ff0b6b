-- ===== src/Tests/Execution.antt =====
-- services/execution: a breaker, and a server of claims that answers or raises.
use apex_trader.Base.{
  ℕ, ◌↔◌, ◌+◌, ◌-◌, ◌≡◌, inl, inr, refl, String, Bool, true, false, none, some, ◌==◌, str_eq, List,
  [], ◌∷◌, arith, if◌then◌else◌,
}
use apex_trader.Execution.CircuitBreaker.{
  ApiCircuitBreaker, new_breaker, is_open, record_failure, microseconds_of,
}
use apex_trader.Execution.Pauses as Pauses
use apex_trader.Execution.Pauses.{
  IsBounded, fail_all, perform_all-IsBounded, opens_on_threshold, pause_lasts,
}
use apex_trader.Execution.IdempotencyStore.{ClaimServer, Claims, claim_order_id, seed_order_id}
use apex_trader.Execution.Claims as Claiming
use apex_trader.Execution.Claims.{
  AnsweringLaws, RaisingLaws, after_calls, claim_left, perform_all-refines,
}
use apex_trader.Base.Floats.{num}
use apex_trader.Execution.Protection.{
  StopStatus, Exposure, StopProblem, IsProtecting, stop_problem, stop_problem-fine_iff,
  stop_identity_problem, number_problem,
}
use apex_trader.Tests.Samples.{milli, capitals, settings}

abbrev breaker : ApiCircuitBreaker
breaker = new_breaker settings

abbrev calls : List Pauses.Call
calls = Pauses.Call.failing 1 ∷ Pauses.Call.asking 2 ∷ Pauses.Call.succeeding ∷ []

opens_on_threshold_example :
    (fail_all (1 ∷ 2 ∷ 3 ∷ 4 ∷ []) breaker ≡ record breaker { failures = 0 + 4 })
    × (record_failure 5 (fail_all (1 ∷ 2 ∷ 3 ∷ 4 ∷ []) breaker)
        ≡ (true, record breaker { failures = 0; paused_until = some (5 + microseconds_of 10) }))
opens_on_threshold_example = opens_on_threshold (1 ∷ 2 ∷ 3 ∷ 4 ∷ []) 5 breaker (omega arith)

abbrev strained : ApiCircuitBreaker
strained = record breaker { failures = 4 }

strained_opens : (record_failure 1 strained).0 ≡ true
unfolding record_failure
strained_opens = refl

pause_lasts_example : (is_open 9 (Pauses.perform_all calls (record_failure 1 strained).1)).0 ≡ true
pause_lasts_example = pause_lasts calls 1 9 strained strained_opens refl (omega arith)

-- The seconds that each key of a server has left.
instance abbrev key_server : ClaimServer (String → ℕ)
key_server = record {
  set_nx = λ k ttl c.
      (some (c k == 0), λ j. if str_eq k j then (if c j == 0 then ttl else c j) else c j);
  set_key = λ k ttl c. (true, λ j. if str_eq k j then ttl else c j);
  delete = λ k c. (true, λ j. if str_eq k j then 0 else c j);
  elapse = λ d c j. c j - d;
}

key_server_laws : AnsweringLaws key_server
key_server_laws = record {
  left = λ k c. c k;
  set_nx-answers = λ k ttl c. refl;
  set_nx-left = λ k j ttl c. refl;
  set_key-answers = λ k ttl c. refl;
  set_key-left = λ k j ttl c. refl;
  delete-answers = λ k c. refl;
  delete-left = λ k j c. refl;
  elapse-left = λ j d c. refl;
}

abbrev no_claims : Claims (String → ℕ)
no_claims = record { server = λ k. 0; memory = [] }

-- A server that is down.
instance abbrev down_server : ClaimServer Bool
down_server = record {
  set_nx = λ k ttl c. (none, c);
  set_key = λ k ttl c. (false, c);
  delete = λ k c. (false, c);
  elapse = λ d c. c;
}

down_server_laws : RaisingLaws down_server
down_server_laws = record {
  set_nx-raises = λ k ttl c. refl;
  set_key-raises = λ k ttl c. refl;
  delete-raises = λ k c. refl;
}

abbrev lone_claims : Claims Bool
lone_claims = record { server = false; memory = [] }

abbrev claim_calls : List Claiming.Call
claim_calls =
    Claiming.Call.claiming "apex-1"
    ∷ Claiming.Call.waiting 599
    ∷ Claiming.Call.seeding "apex-2"
    ∷ Claiming.Call.waiting 1
    ∷ []

-- On either server; the first claim lapses on the one that answers, and the other does not forget it.
perform_all-refines_example :
    ((((j : String)
          → claim_left (inl key_server_laws) 5 (Claiming.perform_all 5 claim_calls no_claims) j
            ≡ after_calls true 600 claim_calls (claim_left (inl key_server_laws) 5 no_claims) j)
        × ((claim_order_id 5 "apex-1" (Claiming.perform_all 5 claim_calls no_claims)).0 ≡ (
            after_calls true 600 claim_calls (claim_left (inl key_server_laws) 5 no_claims) "apex-1"
            == 0)))
      × (((j : String)
            → claim_left (inr down_server_laws) 5 (Claiming.perform_all 5 claim_calls lone_claims) j
              ≡ after_calls false 600 claim_calls
                  (claim_left (inr down_server_laws) 5 lone_claims)
                  j)
          × ((claim_order_id 5 "apex-1" (Claiming.perform_all 5 claim_calls lone_claims)).0 ≡ (
              after_calls false 600 claim_calls
                (claim_left (inr down_server_laws) 5 lone_claims)
                "apex-1"
              == 0))))
perform_all-refines_example = (
  perform_all-refines (inl key_server_laws) 5 claim_calls "apex-1" no_claims,
  perform_all-refines (inr down_server_laws) 5 claim_calls "apex-1" lone_claims,
)

-- After the 600 seconds the id can be claimed again where Redis answers, and not where it raises.
lapsed :
    ((claim_order_id 5 "apex-1" (Claiming.perform_all 5 claim_calls no_claims)).0 ≡ true)
    × ((claim_order_id 5 "apex-1" (Claiming.perform_all 5 claim_calls lone_claims)).0 ≡ false)
unfolding Claiming.perform_all Claiming.perform claim_order_id seed_order_id
lapsed = (refl, refl)

abbrev stop : StopStatus ℕ
stop = record {
  status = "TRIGGER PENDING";
  pending_quantity = some (num 10);
  filled_quantity = some (num 0);
  trigger_price = some (num 1480);
  tradingsymbol = "INFY";
  transaction_type = "SELL";
  product = "MIS";
  exchange = "NSE";
  order_type = "SL-M";
}

abbrev exposure : Exposure ℕ
exposure = record { symbol = "INFY"; qty = num 10; product = "MIS"; exchange = "NSE" }

stop_fine : stop_problem stop exposure ≡ StopProblem.fine
unfolding stop_problem number_problem stop_identity_problem
stop_fine = refl

stop_problem-fine_iff_example :
    (stop_problem stop exposure ≡ StopProblem.fine) ↔ IsProtecting stop exposure
stop_problem-fine_iff_example = stop_problem-fine_iff stop exposure
