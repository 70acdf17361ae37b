-- ===== src/Routing/Circuit.antt =====
-- models/router/circuit.py: the circuit breaker of each provider and the history of its calls.
-- The database is taken to answer. `setdefault` in `_get` writes the breaker that a missing one reads
-- as, so it is a read here.
pub mod Trips
pub mod Restart
use nova_ai_agent.Prelude.{
  ℕ, suc, zero, ◌-◌, ◌+◌, ◌*◌, ◌/◌, String, Bool, true, false, ◌&&◌, ◌||◌, not, Option, none, some,
  List, [], ◌∷◌, ◌==◌, ltb, leb, if◌then◌else◌, lookup, insert, length, take, keep, str_eq,
}
use nova_ai_agent.Routing.Provider.{
  ErrorCategory, rate_limit, server_error, timed_out, model_unavailable, unknown, Settings, Breaker,
  Call, State, Router,
}

-- TRANSIENT, for a category that may be None
unfoldable pub transient : Option ErrorCategory → Bool
transient (some timed_out) = true
transient (some server_error) = true
transient (some model_unavailable) = true
transient (some unknown) = true
transient _ = false

unfoldable pub is_rate_limit : Option ErrorCategory → Bool
is_rate_limit (some rate_limit) = true
is_rate_limit _ = false

abbrev pub closed : Breaker
closed = record { failures = 0; trips = 0; cooldown_until = 0 }

unfoldable pub breaker_or : Option Breaker → Breaker
breaker_or none = closed
breaker_or (some b) = b

-- CircuitBreaker._get
unfoldable pub get_breaker : String → State → Breaker
unfolding breaker_or
get_breaker name st = breaker_or (lookup name st.breakers)

-- CircuitBreaker.open_for
unfoldable pub open_for : String → State → ℕ
unfolding get_breaker
open_for name st = (get_breaker name st).cooldown_until - st.clock

-- CircuitBreaker.in_probe
unfoldable pub in_probe : String → State → Bool
unfolding open_for
in_probe name st = ltb 0 (get_breaker name st).cooldown_until && (open_for name st == 0)

-- CircuitBreaker._save and ProviderHistory.save
unfoldable pub save : Router → String → State → State
unfolding get_breaker
save r name st =
    if r.has_history then record st { saved = insert name (get_breaker name st) st.saved } else st

abbrev pub set_breaker : String → Breaker → State → State
set_breaker name b st = record st { breakers = insert name b st.breakers }

-- CircuitBreaker.success
unfoldable pub success : Router → String → State → State
unfolding save
success r name st =
    let b = get_breaker name st in
    if ltb 0 b.failures || (ltb 0 b.trips || ltb 0 b.cooldown_until)
    then save r name (set_breaker name closed st)
    else st

unfoldable pub step_at : ℕ → ℕ → List ℕ → ℕ
step_at zero first more = first
step_at (suc n) first [] = first
step_at (suc n) first (x ∷ more) = step_at n x more

-- CircuitBreaker._backoff, in seconds
unfoldable pub backoff : Router → ℕ → ℕ
unfolding step_at
backoff r trips = 60 * step_at trips r.settings.first_cooldown r.settings.more_cooldowns

-- CircuitBreaker._open
unfoldable pub open_circuit : Router → String → Breaker → ℕ → State → Bool × State
unfolding save
open_circuit r name b seconds st = (
  true,
  save r name (
      set_breaker name
        (record { failures = 0; trips = b.trips + 1; cooldown_until = st.clock + seconds }) st),
)

-- `retry_after or self._backoff(b.trips)`
unfoldable pub wait_or : Option ℕ → ℕ → ℕ
wait_or none otherwise = otherwise
wait_or (some zero) otherwise = otherwise
wait_or (some (suc n)) otherwise = suc n

unfoldable pub count_failure : Router → String → Breaker → State → Bool × State
unfolding open_circuit in_probe backoff
count_failure r name b st =
    if leb r.settings.threshold b.failures || in_probe name st
    then open_circuit r name b (backoff r b.trips) st
    else (false, save r name (set_breaker name b st))

-- CircuitBreaker.failure: whether it opened the circuit
unfoldable pub failure : Router → String → Option ErrorCategory → Option ℕ → State → Bool × State
unfolding count_failure wait_or
failure r name category retry_after st =
    let b = get_breaker name st in
    if is_rate_limit category
    then open_circuit r name b (wait_or retry_after (backoff r b.trips)) st
    else if not (transient category)
    then (false, st)
    else count_failure r name (record b { failures = b.failures + 1 }) st

-- CircuitBreaker.__init__ with ProviderHistory.load, after a restart; the memory of alerts is lost
unfoldable pub restart : Router → State → State
restart r st = record st { breakers = if r.has_history then st.saved else []; alerted = [] }

abbrev recent_calls : ℕ
recent_calls = 10

abbrev min_calls : ℕ
min_calls = 4

-- ProviderHistory.record
unfoldable pub record_call : Router → Call → State → State
record_call r c st = if r.has_history then record st { calls = c ∷ st.calls } else st

abbrev pub recent : String → State → List Call
recent name st = take recent_calls (keep (λ c. str_eq c.provider name) st.calls)

-- ProviderHistory.success_rate: the successes and the calls that it divides
unfoldable pub success_rate : String → State → ℕ × ℕ
success_rate name st = (length (keep (λ c. c.succeeded) (recent name st)), length (recent name st))

-- CircuitBreaker.degraded; a rate under one half
unfoldable pub is_degraded : Router → String → State → Bool
unfolding success_rate
is_degraded r name st =
    let (good, n) = success_rate name st in r.has_history && (leb min_calls n && ltb (2 * good) n)

unfoldable pub insert_number : ℕ → List ℕ → List ℕ
insert_number n [] = n ∷ []
insert_number n (m ∷ ms) = if leb n m then n ∷ m ∷ ms else m ∷ insert_number n ms

unfoldable pub sorted_numbers : List ℕ → List ℕ
unfolding insert_number
sorted_numbers [] = []
sorted_numbers (n ∷ ns) = insert_number n (sorted_numbers ns)

unfoldable pub number_at : ℕ → List ℕ → Option ℕ
number_at i [] = none
number_at zero (n ∷ ns) = some n
number_at (suc i) (n ∷ ns) = number_at i ns

abbrev durations : List Call → List ℕ
durations [] = []
durations (c ∷ cs) = c.milliseconds ∷ durations cs

-- ProviderHistory.median_seconds, in milliseconds
unfoldable pub median : Router → String → State → Option ℕ
unfolding sorted_numbers number_at
median r name st =
    let good = take recent_calls (keep (λ c. str_eq c.provider name && c.succeeded) st.calls) in
    if ltb (length good) min_calls
    then none
    else number_at (length good / 2) (sorted_numbers (durations good))
