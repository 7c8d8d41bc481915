-- ===== src/Resilience/Control.antt =====
-- `ReliabilityController` of sky-agent/app/resilience/control.py: its state and its methods. Each
-- method takes the reading of the clock, and returns the state beside its result, since what
-- was written before an exception stays written. Metrics are left out.
pub mod Limits
pub mod RetryAfter
use mathlib.Core.Option
use cang_qiong_project.Common.{
  ℕ, ◌+◌, ◌-◌, String, Bool, true, false, Option, none, some, List, [], ◌∷◌, map, ◌=ₛ◌, ◌==◌,
  if◌then◌else◌, Result, ok, err, update,
}
use cang_qiong_project.Resilience.Config.{ResilienceConfig}
use cang_qiong_project.Resilience.Failure.{
  Failure, circuit_open_error, bulkhead_rejected_error, rate_limit_exceeded, index_error,
}
use cang_qiong_project.Resilience.Circuit
use cang_qiong_project.Resilience.Circuit.{CircuitRecord, CircuitState}
use cang_qiong_project.Resilience.Window.{expire, admit, consume}

-- The dictionaries of the controller. A bulkhead is the number of permits that its semaphore has
-- left, and `none` where it is not made yet.
pub record Controller : Type 0 where
  pub circuits : String → CircuitRecord
  pub bulkheads : String → Option ℕ
  pub retry_attempts : String → List ℕ
  pub rate_events : String → String → List ℕ

abbrev pub new : Controller
new = record {
  circuits = λ _. Circuit.new;
  bulkheads = λ _. none;
  retry_attempts = λ _. [];
  rate_events = λ _ _. [];
}

-- `ExecutionContext` as far as the limits read it; `effective_customer_id` is its text.
pub record Caller : Type 0 where
  pub actor_id : String
  pub effective_customer_id : String

abbrev pub set_rate_events : Controller → String → String → List ℕ → Controller
set_rate_events s scope key events = record s {
  rate_events = update s.rate_events scope (update (s.rate_events scope) key events);
}

-- The value of `retry_after`; `events[0]` fails on an empty deque.
refusal : ℕ → ℕ → String → List ℕ → Failure
refusal window now scope [] = index_error
refusal window now scope (e ∷ es) = rate_limit_exceeded scope (window + e - now)

-- `_consume_rate_limit`, where `digest` is `_bounded_identity`. The time is the reading of the clock,
-- which the source takes before the lock.
unfoldable pub consume_rate_limit :
    (String → String)
    → ResilienceConfig
    → ℕ
    → String
    → String
    → ℕ
    → Controller
    → Result Failure (Unit {0}) × Controller
unfolding expire admit refusal
consume_rate_limit digest cfg now scope raw_key limit s =
    let key = digest raw_key in
    let events = expire cfg.rate_limit_window_seconds now (s.rate_events scope key) in
    let (events', admitted) = admit limit now events in
    let s' = set_rate_events s scope key events' in
    if admitted
    then (ok tt, s')
    else (err (refusal cfg.rate_limit_window_seconds now scope events), s')

-- `deque.pop`, on a deque that is tested not to be empty.
unfoldable pub drop_last : List ℕ → List ℕ
drop_last [] = []
drop_last (e ∷ []) = []
drop_last (e ∷ f ∷ es) = e ∷ drop_last (f ∷ es)

unfoldable pub rollback_rate_limit : (String → String) → String → String → Controller → Controller
unfolding drop_last
rollback_rate_limit digest scope raw_key s =
    let key = digest raw_key in set_rate_events s scope key (drop_last (s.rate_events scope key))

is_rate_limit : Failure → Bool
is_rate_limit (rate_limit_exceeded scope after) = true
is_rate_limit _ = false

-- The `except RateLimitExceededError` of `enforce_request_limits`.
undo_principal :
    (String → String)
    → Caller
    → Result Failure (Unit {0}) × Controller
    → Result Failure (Unit {0}) × Controller
unfolding rollback_rate_limit is_rate_limit
undo_principal digest caller (ok _, s) = (ok tt, s)
undo_principal digest caller (err e, s) =
    (err e, if is_rate_limit e then rollback_rate_limit digest "principal" caller.actor_id s else s)

limit_customer :
    (String → String)
    → ResilienceConfig
    → ℕ
    → Caller
    → Result Failure (Unit {0}) × Controller
    → Result Failure (Unit {0}) × Controller
unfolding consume_rate_limit undo_principal
limit_customer digest cfg now caller (err e, s) = (err e, s)
limit_customer digest cfg now caller (ok _, s) = undo_principal digest caller (
    consume_rate_limit digest cfg now "customer" caller.effective_customer_id
      cfg.customer_rate_limit s)

-- `enforce_request_limits`; the clock is read once for each limit.
unfoldable pub enforce_request_limits :
    (String → String)
    → ResilienceConfig
    → ℕ
    → ℕ
    → Caller
    → Controller
    → Result Failure (Unit {0}) × Controller
unfolding consume_rate_limit limit_customer
enforce_request_limits digest cfg now later caller s =
    limit_customer digest cfg later caller
      (consume_rate_limit digest cfg now "principal" caller.actor_id cfg.principal_rate_limit s)

unfoldable pub enforce_provider_limit :
    (String → String)
    → ResilienceConfig
    → ℕ
    → String
    → Controller
    → Result Failure (Unit {0}) × Controller
unfolding consume_rate_limit
enforce_provider_limit digest cfg now provider s =
    consume_rate_limit digest cfg now "provider" provider cfg.provider_rate_limit s

-- `consume_retry_budget`; false where the budget is used up.
unfoldable pub consume_retry_budget : ResilienceConfig → ℕ → String → Controller → Bool × Controller
unfolding consume
consume_retry_budget cfg now service s =
    let (events, granted) =
      consume cfg.retry_budget_attempts cfg.retry_budget_window_seconds now
        (s.retry_attempts service) in
    (granted, record s { retry_attempts = update s.retry_attempts service events })

abbrev pub set_circuit : Controller → String → CircuitRecord → Controller
set_circuit s service c = record s { circuits = update s.circuits service c }

unfoldable pub before_call :
    ResilienceConfig → ℕ → String → Controller → Result Failure (Unit {0}) × Controller
unfolding Circuit.before_call
before_call cfg now service s =
    let (c, admitted) = Circuit.before_call cfg now (s.circuits service) in
    (if admitted then ok tt else err (circuit_open_error service), set_circuit s service c)

unfoldable pub record_success : String → Controller → Controller
unfolding Circuit.record_success
record_success service s = set_circuit s service (Circuit.record_success (s.circuits service))

unfoldable pub cancel_call : String → Controller → Controller
unfolding Circuit.cancel_call
cancel_call service s = set_circuit s service (Circuit.cancel_call (s.circuits service))

unfoldable pub record_failure : ResilienceConfig → ℕ → String → Controller → Controller
unfolding Circuit.record_failure
record_failure cfg now service s =
    set_circuit s service (Circuit.record_failure cfg now (s.circuits service))

abbrev pub circuit_state : String → Controller → CircuitState
circuit_state service s = (s.circuits service).state

-- `_bulkhead`: the permits of a semaphore that is there, or of one made with its full capacity.
unfoldable pub permits : ResilienceConfig → String → Option ℕ → ℕ
permits cfg dependency none =
    if dependency =ₛ "llm" then cfg.bulkhead_provider_limit else cfg.bulkhead_default_limit
permits cfg dependency (some n) = n

-- The entry of `bulkhead`, `acquire`: a permit is taken if one is left when the wait ends.
unfoldable pub acquire :
    ResilienceConfig → String → String → Controller → Result Failure (Unit {0}) × Controller
unfolding permits
acquire cfg service dependency s =
    let n = permits cfg dependency (s.bulkheads service) in
    if n == 0
    then (
      err (bulkhead_rejected_error service),
      record s { bulkheads = update s.bulkheads service (some 0) },
    )
    else (ok tt, record s { bulkheads = update s.bulkheads service (some (n - 1)) })

-- The `finally` of `bulkhead`, `release`.
unfoldable pub release : String → Controller → Controller
release service s = record s {
  bulkheads = update s.bulkheads service (Option.map (λ n. n + 1) (s.bulkheads service));
}
