-- ===== src/Routing/Router.antt =====
-- models/router/router.py: the failover over the providers that may serve a request. Log lines are
-- left out, and with them the list of tries that only they and the last error text use.
pub mod Attempts
pub mod Privacy
pub mod Serving
use Prim.Native.String.{◌++◌ as append_text}
use nova_ai_agent.Prelude.{
  ℕ, zero, suc, ◌+◌, ◌-◌, ◌*◌, min, String, Bool, true, false, ◌&&◌, ◌||◌, not, Option, none, some,
  List, [], ◌∷◌, ◌++◌, ltb, leb, if◌then◌else◌, lookup, insert, str_eq, cut, keep, sort_by,
}
use nova_ai_agent.Exec.{
  Exec, Result, ok, err, Exc, error, pure, raise, modify, proceed, ◌>>=◌, ◌>>◌,
}
use nova_ai_agent.Routing.Provider.{
  HealthState, healthy, rate_limited, auth_required, unavailable, usable, ErrorCategory, rate_limit,
  server_error, timed_out, auth, model_unavailable, tool_failure, unsafe, bad_request, unknown,
  Request, Outcome, Entry, Budget, Settings, Call, Health, State, Adapter, Router,
}
use nova_ai_agent.Routing.Circuit.{
  open_for, in_probe, success, failure, record_call, is_degraded, median,
}
use nova_ai_agent.Routing.Registry.{Candidate, text_mem, is_local_mode, candidates, routable}

-- NO_SWITCH, for a category that may be None
unfoldable pub no_switch : Option ErrorCategory → Bool
no_switch (some unsafe) = true
no_switch (some tool_failure) = true
no_switch (some bad_request) = true
no_switch _ = false

abbrev category_text : Option ErrorCategory → String
category_text none = "None"
category_text (some rate_limit) = "RATE_LIMIT"
category_text (some server_error) = "SERVER_ERROR"
category_text (some timed_out) = "TIMEOUT"
category_text (some auth) = "AUTH"
category_text (some model_unavailable) = "MODEL_UNAVAILABLE"
category_text (some tool_failure) = "TOOL_FAILURE"
category_text (some unsafe) = "UNSAFE"
category_text (some bad_request) = "BAD_REQUEST"
category_text (some unknown) = "UNKNOWN"

abbrev or_empty : Option String → String
or_empty none = ""
or_empty (some s) = s

abbrev before_note : Option String → String → String
before_note none note = note
before_note (some previous) note =
    if str_eq previous "" then note else append_text previous (append_text "\n\n" note)

-- default_handoff
unfoldable pub default_handoff : Request → String → Outcome → Request
default_handoff req failed o =
    let note = append_text "Another assistant (" (
      append_text failed (
        append_text ") was working on this and stopped before finishing (" (
          append_text (category_text o.category) (
            append_text ": " (
              append_text (cut 300 (or_empty o.error)) (
                append_text "). Continue from the current state — do not start over, and do not "
                  "repeat actions already done.")))))) in
    record req { previous_attempt = some (before_note req.previous_attempt note) }

-- TaskTypes of HEAVY_LOCAL_TASKS
abbrev heavy_local_tasks : List String
heavy_local_tasks = "vision" ∷ "coding" ∷ "review" ∷ []

abbrev latency_penalty : Option ℕ → ℕ
latency_penalty none = 0
latency_penalty (some ms) = min 300000 ms

-- What `score` takes off, in 1/30000 of a point: a point is 30 seconds of latency.
unfoldable pub penalty : Router → String → Candidate → State → ℕ
unfolding text_mem
penalty r task c st =
    (if is_degraded r c.provider st then 900000 else 0)
    + ((if r.has_history then latency_penalty (median r c.provider st) else 0)
        + (if r.critical && (text_mem task heavy_local_tasks && str_eq c.provider "ollama_local")
            then 1500000
            else 0))

-- ProviderRouter.ranked
unfoldable pub ranked : Router → String → State → List Candidate
unfolding penalty
ranked r task st =
    sort_by
      (λ a b.
        leb (30000 * b.priority + penalty r task a st) (30000 * a.priority + penalty r task b st))
      (candidates r.settings r.adapters task)

abbrev health_or : Option Health → Health
health_or none = record { state = unavailable; checked_at = 0 }
health_or (some h) = h

-- ProviderAdapter._set
unfoldable pub set_health : String → HealthState → State → State
set_health name s st = record st {
  health = insert name (record { state = s; checked_at = st.clock }) st.health;
}

-- ProviderRouter._fresh_health
unfoldable pub fresh_health : Adapter → String → Bool → State → HealthState × State
fresh_health x name force st =
    let known = health_or (lookup name st.health) in
    if force || ltb 60 (st.clock - known.checked_at)
    then (let st' = x.check_health st in ((health_or (lookup name st'.health)).state, st'))
    else (known.state, st)

-- ProviderRouter._alert_auth
unfoldable pub alert_auth : String → State → State
unfolding text_mem
alert_auth name st =
    if text_mem name st.alerted
    then st
    else record st { alerted = name ∷ st.alerted; alerts = name ∷ st.alerts }

abbrev pub discard_alert : String → State → State
discard_alert name st = record st { alerted = keep (λ n. not (str_eq n name)) st.alerted }

-- ProviderRouter.note_health; `is_routable` is what the registry says of the provider
unfoldable pub note_health : Bool → String → HealthState → State → State
unfolding alert_auth
note_health is_routable name auth_required st = if is_routable then alert_auth name st else st
note_health is_routable name healthy st = discard_alert name st
note_health is_routable name _ st = st

-- The retries that are left for a timeout and for a server error.
pub record Left : Type 0 where
  pub after_timeout : ℕ
  pub after_server_error : ℕ

abbrev one_timeout : ℕ → ℕ → Option Left
one_timeout zero m = none
one_timeout (suc n) m = some (record { after_timeout = n; after_server_error = m })

abbrev one_server_error : ℕ → ℕ → Option Left
one_server_error n zero = none
one_server_error n (suc m) = some (record { after_timeout = n; after_server_error = m })

-- `used[cat] = used.get(cat, 0) + 1`, when that is allowed
unfoldable pub retry_of : Option ErrorCategory → Left → Option Left
retry_of (some timed_out) left = one_timeout left.after_timeout left.after_server_error
retry_of (some server_error) left = one_server_error left.after_timeout left.after_server_error
retry_of _ left = none

abbrev pub has_no_category : Option ErrorCategory → Bool
has_no_category none = true
has_no_category (some c) = false

unfoldable pub after_failure :
    Router → String → Left → Option ErrorCategory → Option ℕ → State → Option Left × State
unfolding set_health alert_auth retry_of
after_failure r name left category wait st =
    let (opened, st') = failure r name category wait st in
    elim category [
      | some rate_limit ↦ (none, set_health name rate_limited st')
      | some auth ↦ (none, alert_auth name (set_health name auth_required st'))
      | other ↦ (if opened then none else retry_of other left, st')
    ]

-- What `_attempt` does with one answer: the retries left, if it calls again.
unfoldable pub settle : Router → String → Request → Left → Outcome → State → Option Left × State
unfolding after_failure
settle r name req left o st =
    let call : Call = record {
      provider = name;
      task_type = req.task_type;
      succeeded = o.succeeded;
      category = o.category;
      milliseconds = o.milliseconds;
    } in
    let st' = record_call r call st in
    if o.succeeded || has_no_category o.category
    then (none, discard_alert name (success r name st'))
    else after_failure r name left o.category o.retry_after st'

-- `continue` with the retries left, or `return`.
unfoldable pub onward :
    (Left → Exec State Outcome) → Outcome → Option Left × State → Result Outcome × State
onward again o (none, st) = (ok o, st)
onward again o (some left, st) = again left st

-- The loop of `_attempt`, on fuel: at the last unit it does not call again.
unfoldable pub attempt_loop : Router → Adapter → String → Request → ℕ → Left → Exec State Outcome
unfolding settle onward
attempt_loop r x name req zero left =
    x.complete req >>= λ o st. onward (λ _. pure o) o (settle r name req left o st)
attempt_loop r x name req (suc n) left =
    let again = attempt_loop r x name req n in
    x.complete req >>= λ o st. onward again o (settle r name req left o st)

-- ProviderRouter._attempt
unfoldable pub attempt : Router → Adapter → String → Request → Exec State Outcome
unfolding attempt_loop
attempt r x name req =
    attempt_loop r x name req (r.settings.timeout_retries + r.settings.server_error_retries)
      (record {
        after_timeout = r.settings.timeout_retries;
        after_server_error = r.settings.server_error_retries;
      })

abbrev pub Handoff : Type 0
Handoff = Request → String → Outcome → Request

-- The result when no provider could serve the request, without its text.
abbrev pub none_served : Outcome
none_served = record {
  succeeded = false;
  provider = "none";
  answer = "";
  category = some model_unavailable;
  error = some "no provider could serve";
  retry_after = none;
  milliseconds = 0;
}

module _ (r : Router) (handoff : Handoff) where
  unfoldable pub after_attempt :
      String → (Request → Exec State Outcome) → Request → Outcome → Exec State Outcome
  unfolding no_switch
  after_attempt name next req o =
      if o.succeeded || no_switch o.category then pure o else next (handoff req name o)

  unfoldable pub try_adapter :
      Candidate → Option Adapter → (Request → Exec State Outcome) → Request → Exec State Outcome
  unfolding after_attempt attempt fresh_health
  try_adapter c none next req st = (err (error "KeyError"), st)
  try_adapter c (some x) next req st =
      if ltb 0 (open_for c.provider st)
      then next req st
      else (let (health, st') = fresh_health x c.provider (in_probe c.provider st) st in
          if usable health
          then (attempt r x c.provider req >>= after_attempt c.provider next req) st'
          else next req st')

  abbrev pub runs_here : Option Entry → Bool
  runs_here none = false
  runs_here (some e) = is_local_mode e.mode

  -- The provider may see the request.
  unfoldable pub may_see : Bool → List String → Candidate → Bool
  unfolding text_mem is_local_mode
  may_see local exclude c =
      not (text_mem c.provider exclude)
      && (not local || runs_here (lookup c.provider r.settings.providers))

  unfoldable pub try_one :
      Bool → List String → Candidate → (Request → Exec State Outcome) → Request → Exec State Outcome
  unfolding try_adapter may_see
  try_one local exclude c next req =
      if may_see local exclude c
      then try_adapter c (lookup c.provider r.adapters) next req
      else next req

  -- The loop over the candidates.
  unfoldable pub serve : Bool → List String → List Candidate → Request → Exec State Outcome
  unfolding try_one
  serve local exclude [] req = pure none_served
  serve local exclude (c ∷ cs) req = try_one local exclude c (serve local exclude cs) req

  abbrev pub limited : Option Budget → Request → Request
  limited none req = req
  limited (some b) req = record req {
    timeout_seconds = b.timeout_seconds;
    max_output_tokens = b.max_output_tokens;
  }

  abbrev pub stays_here : Request → Bool
  stays_here req = req.local_only || (req.has_images && r.settings.screenshots_local_only)

  -- ProviderRouter.complete
  unfoldable pub complete : List String → Request → Exec State Outcome
  unfolding serve ranked
  complete exclude req st =
      let req' = limited (lookup req.task_type r.settings.task_budgets) req in
      serve (stays_here req') exclude (ranked r req.task_type st) req' st
