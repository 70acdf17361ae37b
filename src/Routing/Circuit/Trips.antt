-- ===== src/Routing/Circuit/Trips.antt =====
-- What a failed and a successful call do to a provider's circuit (models/router/circuit.py).
use nova_ai_agent.Prelude.{ℕ, ◌+◌, String, Bool, ◌||◌, ◌&&◌, Option, leb, if◌then◌else◌}
use nova_ai_agent.Routing.Provider.{ErrorCategory, Breaker, State, Router}
use nova_ai_agent.Routing.Circuit.{
  transient, is_rate_limit, get_breaker, in_probe, backoff, wait_or,
}

-- Whether a failure opens the circuit.
abbrev pub opens : Router → String → Option ErrorCategory → State → Bool
opens r name category st =
    is_rate_limit category
    || (transient category
        && (leb r.settings.threshold ((get_breaker name st).failures + 1) || in_probe name st))

-- The seconds for which a failure opens the circuit.
abbrev pub wait : Router → String → Option ErrorCategory → Option ℕ → State → ℕ
wait r name category retry_after st =
    let step = backoff r (get_breaker name st).trips in
    if is_rate_limit category then wait_or retry_after step else step

-- The breaker of a provider after a failure of it.
abbrev pub judged : Router → String → Option ErrorCategory → Option ℕ → State → Breaker
judged r name category retry_after st =
    let b = get_breaker name st in
    if opens r name category st
    then record {
      failures = 0;
      trips = b.trips + 1;
      cooldown_until = st.clock + wait r name category retry_after st;
    }
    else if transient category
    then record b { failures = b.failures + 1 }
    else b
