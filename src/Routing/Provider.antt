-- ===== src/Routing/Provider.antt =====
-- providers/provider_base/types.py, the provider section of core/config/schema.py, and the state that
-- the router, its circuit breaker and its history share. Durations are milliseconds and times are
-- seconds, as natural numbers. Texts of alerts and of a breaker's reason are left out.
use nova_ai_agent.Prelude.{ℕ, String, Bool, true, false, Option, List}
use nova_ai_agent.Exec.{Exec}

pub data HealthState : Type 0 where
  healthy busy rate_limited cooldown degraded auth_required unavailable disabled : HealthState

-- USABLE
unfoldable pub usable : HealthState → Bool
usable healthy = true
usable busy = true
usable degraded = true
usable _ = false

pub data ErrorCategory : Type 0 where
  rate_limit server_error timed_out auth model_unavailable : ErrorCategory
  tool_failure unsafe bad_request unknown : ErrorCategory

-- ProviderRequest; `has_images` is the truth of `images`, `local_only` that `privacy` is local_only.
pub record Request : Type 0 where
  pub task_type : String
  pub user_request : String
  pub previous_attempt : Option String
  pub timeout_seconds : ℕ
  pub max_output_tokens : ℕ
  pub has_images : Bool
  pub local_only : Bool

-- ProviderResult
pub record Outcome : Type 0 where
  pub succeeded : Bool
  pub provider : String
  pub answer : String
  pub category : Option ErrorCategory
  pub error : Option String
  pub retry_after : Option ℕ
  pub milliseconds : ℕ

pub data Enabled : Type 0 where
  switched_on switched_off optional : Enabled

pub data Mode : Type 0 where
  subscription api subscription_or_api on_this_pc : Mode

-- ProviderEntry
pub record Entry : Type 0 where
  pub enabled : Enabled
  pub mode : Mode
  pub priority : List (String × ℕ)
  pub free_tier_only : Bool

pub record Budget : Type 0 where
  pub timeout_seconds : ℕ
  pub max_output_tokens : ℕ

-- ProvidersConfig; the list of cooldowns, which is not empty, is its first one and the others.
pub record Settings : Type 0 where
  pub providers : List (String × Entry)
  pub threshold : ℕ
  pub first_cooldown : ℕ
  pub more_cooldowns : List ℕ
  pub timeout_retries : ℕ
  pub server_error_retries : ℕ
  pub allow_paid_api_usage : Bool
  pub task_budgets : List (String × Budget)
  pub screenshots_local_only : Bool

-- Breaker; `cooldown_until` is 0 while the circuit is closed.
pub record Breaker : Type 0 where
  pub failures : ℕ
  pub trips : ℕ
  pub cooldown_until : ℕ

-- A row of provider_calls.
pub record Call : Type 0 where
  pub provider : String
  pub task_type : String
  pub succeeded : Bool
  pub category : Option ErrorCategory
  pub milliseconds : ℕ

pub record Health : Type 0 where
  pub state : HealthState
  pub checked_at : ℕ

-- The breakers in memory and in the table provider_state; the calls, newest first; the providers
-- with an alert that stands, and every alert that was sent.
pub record State : Type 0 where
  pub breakers : List (String × Breaker)
  pub saved : List (String × Breaker)
  pub calls : List Call
  pub alerted : List String
  pub alerts : List String
  pub health : List (String × Health)
  pub clock : ℕ

-- ProviderAdapter: its calls may do anything to the state.
pub record Adapter : Type 0 where
  pub capabilities : List String
  pub check_health : State → State
  pub complete : Request → Exec State Outcome

-- A router: its configuration, its adapters, whether it keeps a history, and whether the memory
-- pressure is critical.
pub record Router : Type 0 where
  pub settings : Settings
  pub adapters : List (String × Adapter)
  pub has_history : Bool
  pub critical : Bool
