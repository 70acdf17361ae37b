-- ===== src/Tests/Providers.antt =====
-- The theorems on the provider router, at concrete inputs.
use nova_ai_agent.Prelude.{
  ℕ, ◌≡◌, refl, String, Bool, true, false, Option, none, some, List, [], ◌∷◌, arith, lookup, str_eq,
  Bool-cases, inl, inr,
}
use mathlib.Core.Path.{subst}
use nova_ai_agent.Routing.Router.Serving.{Returns, IsSafe, complete-Returns}
use nova_ai_agent.Exec.{pure}
use nova_ai_agent.Routing.Provider.{
  ErrorCategory, rate_limit, timed_out, Request, Outcome, Entry, Mode, on_this_pc, subscription,
  switched_on, State, Adapter, Router,
}
use nova_ai_agent.Routing.Circuit.{get_breaker, restart}
use nova_ai_agent.Routing.Circuit.Restart.{Event, failed, elapsed, tell_all, restart_keeps_breakers}
use nova_ai_agent.Routing.Router.{attempt_loop, default_handoff, complete}
use nova_ai_agent.Routing.Router.Attempts.{attempt_fuel}

abbrev entry : Mode → ℕ → Entry
entry mode priority = record {
  enabled = switched_on;
  mode = mode;
  priority = ("coding", priority) ∷ [];
  free_tier_only = false;
}

abbrev outcome : String → Bool → Option ErrorCategory → Outcome
outcome name succeeded category = record {
  succeeded = succeeded;
  provider = name;
  answer = "answer";
  category = category;
  error = none;
  retry_after = none;
  milliseconds = 100;
}

abbrev slow : Adapter
slow = record {
  capabilities = [];
  check_health = λ st. st;
  complete = λ req. pure (outcome "cloud" false (some timed_out));
}

abbrev quick : Adapter
quick = record {
  capabilities = [];
  check_health = λ st. st;
  complete = λ req. pure (outcome "ollama_local" true none);
}

abbrev router : Router
router = record {
  settings = record {
    providers = ("cloud", entry subscription 90) ∷ ("ollama_local", entry on_this_pc 40) ∷ [];
    threshold = 3;
    first_cooldown = 10;
    more_cooldowns = 20 ∷ 30 ∷ [];
    timeout_retries = 1;
    server_error_retries = 2;
    allow_paid_api_usage = false;
    task_budgets = [];
    screenshots_local_only = true;
  };
  adapters = ("cloud", slow) ∷ ("ollama_local", quick) ∷ [];
  has_history = true;
  critical = false;
}

abbrev start : State
start = record {
  breakers = [];
  saved = [];
  calls = [];
  alerted = [];
  alerts = [];
  health = [];
  clock = 1000;
}

abbrev code : Request
code = record {
  task_type = "coding";
  user_request = "fix";
  previous_attempt = none;
  timeout_seconds = 120;
  max_output_tokens = 2048;
  has_images = true;
  local_only = false;
}

-- A timeout, a minute, and a usage limit.
abbrev events : List Event
events =
    failed "cloud" (some timed_out) none ∷ elapsed 60 ∷ failed "cloud" (some rate_limit) none ∷ []

restart_keeps_breakers_example :
    let before = tell_all router events (restart router start) in
    get_breaker "cloud" (restart router before) ≡ get_breaker "cloud" before
restart_keeps_breakers_example = restart_keeps_breakers router events start "cloud" refl

attempt_fuel_example :
    attempt_loop router slow "cloud" code 3
      (record { after_timeout = 1; after_server_error = 2 })
      start
    ≡ attempt_loop router slow "cloud" code 9
        (record { after_timeout = 1; after_server_error = 2 })
        start
attempt_fuel_example =
    attempt_fuel router slow "cloud" code 3 9 (record { after_timeout = 1; after_server_error = 2 })
      start (omega arith) (omega arith)

-- Both adapters of the router return.
adapters-IsSafe : (name : String) (x : Adapter) → lookup name router.adapters ≡ some x → IsSafe x
adapters-IsSafe name x e = elim (Bool-cases (str_eq "cloud" name)) [
  | inl c ↦ let same : slow ≡ x = ground arith in subst IsSafe same (λ req st. (_, refl))
  | inr c ↦ elim (Bool-cases (str_eq "ollama_local" name)) [
    | inl d ↦ let same : quick ≡ x = ground arith in subst IsSafe same (λ req st. (_, refl))
    | inr d ↦ cc
  ]
]

complete-Returns_example : Returns (complete router default_handoff [] code start).0
complete-Returns_example = complete-Returns router default_handoff adapters-IsSafe [] code start
