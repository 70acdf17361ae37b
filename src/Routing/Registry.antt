-- ===== src/Routing/Registry.antt =====
-- models/router/capabilities.py: which providers may serve a type of task, in which order.
use nova_ai_agent.Prelude.{
  ℕ, String, Bool, true, false, ◌&&◌, ◌||◌, not, Option, none, some, List, [], ◌∷◌, leb,
  if◌then◌else◌, lookup, str_eq, sort_by,
}
use nova_ai_agent.Routing.Provider.{
  Enabled, switched_on, Mode, api, on_this_pc, Entry, Settings, Adapter,
}

pub record Candidate : Type 0 where
  pub provider : String
  pub priority : ℕ
  pub by_fallback : Bool

unfoldable pub text_mem : String → List String → Bool
text_mem s [] = false
text_mem s (x ∷ xs) = str_eq x s || text_mem s xs

-- LOCAL_ONLY
abbrev pub local_tasks : List String
local_tasks = "simple" ∷ "offline" ∷ "intent_classification" ∷ []

unfoldable pub is_local_mode : Mode → Bool
is_local_mode on_this_pc = true
is_local_mode _ = false

abbrev is_api : Mode → Bool
is_api api = true
is_api _ = false

abbrev is_on : Enabled → Bool
is_on switched_on = true
is_on _ = false

-- CapabilityRegistry.routable, of the provider's entry
unfoldable pub routable : Settings → Entry → Bool
routable s e =
    if not (is_on e.enabled)
    then false
    else if is_api e.mode && not s.allow_paid_api_usage
    then e.free_tier_only
    else true

unfoldable pub by_fallback_priority : String → Entry → Adapter → Option ℕ → Option (ℕ × Bool)
unfolding text_mem is_local_mode
by_fallback_priority task e x none = none
by_fallback_priority task e x (some p) =
    if text_mem task x.capabilities && (not (text_mem task local_tasks) || is_local_mode e.mode)
    then some (p, true)
    else none

unfoldable pub priority_for : String → Entry → Adapter → Option ℕ → Option (ℕ × Bool)
unfolding by_fallback_priority
priority_for task e x (some p) = some (p, false)
priority_for task e x none = by_fallback_priority task e x (lookup "fallback" e.priority)

-- The candidate that an entry gives, when it has an adapter.
unfoldable pub offered : Settings → String → String → Entry → Option Adapter → Option Candidate
unfolding priority_for routable
offered s task name e none = none
offered s task name e (some x) =
    if routable s e
    then elim (priority_for task e x (lookup task e.priority)) [
      | none ↦ none
      | some p ↦ some (record { provider = name; priority = p.0; by_fallback = p.1 })
    ]
    else none

unfoldable pub collect :
    Settings → List (String × Adapter) → String → List (String × Entry) → List Candidate
unfolding offered
collect s xs task [] = []
collect s xs task ((name, e) ∷ es) =
    let rest = collect s xs task es in
    elim (offered s task name e (lookup name xs)) [ none ↦ rest | some c ↦ c ∷ rest ]

-- CapabilityRegistry.candidates
unfoldable pub candidates : Settings → List (String × Adapter) → String → List Candidate
unfolding collect
candidates s xs task = sort_by (λ a b. leb b.priority a.priority) (collect s xs task s.providers)
