-- ===== src/Skills/Prepare/Checked.antt =====
-- What a call that passes the checks of core/skills/runner.py has made sure of.
use mathlib.Core.Path.{subst}
use mathlib.Core.List.{Memᴰ}
use nova_ai_agent.Prelude.{
  ◌≡◌, ◌⊎◌, refl, sym, ◌∙◌, ap, String, Bool, true, false, Option, none, some, List, [], ◌∷◌,
  str_eq, eq_iff, Bool-cases, inl, inr, lookup, arith, if◌then◌else◌,
}
use nova_ai_agent.Json.{Fields}
use nova_ai_agent.Exec.{Exc, ok, pure, raise}
use nova_ai_agent.Exec.Returns.{bind_returned}
use nova_ai_agent.Permissions.Approvals.{text_in}
use nova_ai_agent.Queue.Engine.Work.{Work, Run}
use nova_ai_agent.Skills.Api.{Tool, ToolEnv, Validated, valid, invalid, action_for, Skill, get}
use nova_ai_agent.Skills.Prepare.{
  SkillRunner, Invocation, Prepared, check_allowed, check_params, run_precheck, check_declared,
  declared_for, is_allowed, full_name, check_action, check_policy, prepare_params, prepare_tool,
  prepare,
}
use nova_ai_agent.Skills.Prepare.Checks.{Found, get-Found, get-state}

-- The tool's policy check, if it has one, let the parameters pass.
abbrev pub Passed : Option (Fields → ToolEnv → Run Unit) → Fields → ToolEnv → Work → Type 0
Passed none p env w = Unit
Passed (some check) p env w = (check p env w).0 ≡ ok tt

-- The agent may use the skill, or that one tool of it; without a list it may use all.
abbrev pub MayUse : Option (List String) → (skill name : String) → Type 0
MayUse none skill name = Unit
MayUse (some granted) skill name = Memᴰ skill granted ⊎ Memᴰ name granted

-- What holds of a call that has passed the checks.
pub record Checked (r : SkillRunner) (c : Invocation) (w : Work) (x : Prepared) : Type 0 where
  pub skill : Skill
  pub found : Found r.registry c.skill c.tool skill x.tool
  pub allowed : MayUse c.allowed_skills c.skill (full_name c)
  pub params : x.tool.validate c.params ≡ valid x.params
  pub actions : List String
  pub listed : lookup c.tool skill.declared ≡ some actions
  pub declared : Memᴰ x.action actions
  pub own_task : x.env ≡ record { task_id = w.ctx.task.id }
  pub prechecked : Passed x.tool.precheck x.params x.env w

text_in-Mem : (s : String) (xs : List String) → text_in s xs ≡ true → Memᴰ s xs
unfolding text_in
text_in-Mem s [] h = cc
text_in-Mem s (x ∷ xs) h = elim (Bool-cases (str_eq x s)) [
  | inl c ↦ Memᴰ.head (ground (arith, eq_iff x s))
  | inr c ↦ Memᴰ.tail (text_in-Mem s xs (ground arith))
]

is_allowed-MayUse :
    (o : Option (List String)) (skill name : String)
    → is_allowed o skill name ≡ true
    → MayUse o skill name
is_allowed-MayUse none skill name h = tt
is_allowed-MayUse (some granted) skill name h = elim (Bool-cases (text_in skill granted)) [
  | inl c ↦ inl (text_in-Mem skill granted c)
  | inr c ↦ inr (text_in-Mem name granted (ground arith))
]

-- The list that a found action stands in.
declared_for-Mem :
    (action : String) (o : Option (List String))
    → text_in action (declared_for o) ≡ true
    → (actions : List String) × (o ≡ some actions) × Memᴰ action actions
unfolding text_in
declared_for-Mem action none h = cc
declared_for-Mem action (some actions) h = (actions, refl, text_in-Mem action actions h)

precheck-Passed :
    (o : Option (Fields → ToolEnv → Run Unit)) (p : Fields) (env : ToolEnv) (w : Work)
    → (run_precheck o p env w).0 ≡ ok tt
    → Passed o p env w
unfolding run_precheck
precheck-Passed none p env w h = tt
precheck-Passed (some check) p env w h = h

if_state :
    (b : Bool) (e : Exc) (w : Work) → ((if b then pure {A = Unit {0}} tt else raise e) w).1 ≡ w
if_state true e w = refl
if_state false e w = refl

params_state : (c : Invocation) (v : Validated) (w : Work) → (check_params c v w).1 ≡ w
unfolding check_params
params_state c (valid p) w = refl
params_state c (invalid e) w = refl

if_returned :
    (b : Bool) (e : Exc) (w : Work) (u : Unit {0})
    → ((if b then pure tt else raise e) w).0 ≡ ok u
    → b ≡ true
if_returned true e w u h = refl
if_returned false e w u h = cc

params_returned :
    (c : Invocation) (v : Validated) (w : Work) (p : Fields)
    → (check_params c v w).0 ≡ ok p
    → v ≡ valid p
unfolding check_params
params_returned c (valid q) w p h = let same : q ≡ p = ground arith in ap valid same
params_returned c (invalid e) w p h = cc

module _ (c : Invocation) (s : Skill) (t : Tool) where
  -- What the second half of the checks has made sure of.
  record Policed (p : Fields) (env : ToolEnv) (x : Prepared) : Type 0 where
    same_tool : x.tool ≡ t
    same_params : x.params ≡ p
    same_env : x.env ≡ env
    is_declared : text_in x.action (declared_for (lookup c.tool s.declared)) ≡ true

  check_action-Policed :
      (p : Fields) (env : ToolEnv) (action : String) (w : Work) (x : Prepared)
      → (check_action c s t p env action w).0 ≡ ok x
      → Policed p env x
  unfolding check_action check_declared
  check_action-Policed p env action w x h =
      let k = bind_returned (check_declared c s action) _ x w h in
      let same : record { tool = t; params = p; env = env; action = action } ≡ x =
        ground (arith, k.second) in
      subst (Policed p env) same (record {
        same_tool = refl;
        same_params = refl;
        same_env = refl;
        is_declared = if_returned _ _ w k.value k.first;
      })

  -- What the parameters, the policy check and the action have made sure of.
  record Admitted (w : Work) (x : Prepared) : Type 0 where
    is_valid : t.validate c.params ≡ valid x.params
    policed : Policed x.params (record { task_id = w.ctx.task.id }) x
    passed : Passed t.precheck x.params (record { task_id = w.ctx.task.id }) w

  policy-Admitted :
      (w : Work) (p : Fields) (x : Prepared)
      → t.validate c.params ≡ valid p
      → (prepare_params c s t p w).0 ≡ ok x
      → Admitted w x
  unfolding prepare_params check_policy
  policy-Admitted w p x v h =
      let env : ToolEnv = record { task_id = w.ctx.task.id } in
      let m = bind_returned (run_precheck t.precheck p env) _ x w h in
      let n = bind_returned (action_for t p env) _ x _ m.second in
      let o = check_action-Policed p env n.value _ x n.second in
      record {
        is_valid = v ∙ ap valid (sym o.same_params);
        policed = subst (λ q. Policed q env x) (sym o.same_params) o;
        passed =
            subst (λ q. Passed t.precheck q env w) (sym o.same_params)
              (precheck-Passed t.precheck p env w m.first);
      }

  prepare_tool-Admitted : (w : Work) (x : Prepared) → (prepare_tool c s t w).0 ≡ ok x → Admitted w x
  unfolding prepare_tool
  prepare_tool-Admitted w x h =
      let k = bind_returned (check_params c (t.validate c.params)) (prepare_params c s t) x w h in
      policy-Admitted w k.value x (params_returned c (t.validate c.params) w k.value k.first) (
        subst (λ v. (prepare_params c s t k.value v).0 ≡ ok x)
          (params_state c (t.validate c.params) w) k.second)

-- A call that has passed the checks comes from a skill that its agent was given, names a tool of the
-- registry, has valid parameters that the tool's policy
-- check let pass, and asks for an action that its skill declares for the tool.
pub prepare-Checked :
    (r : SkillRunner) (c : Invocation) (w : Work) (x : Prepared)
    → (prepare r c w).0 ≡ ok x
    → Checked r c w x
unfolding prepare check_allowed
prepare-Checked r c w x h =
    let k = bind_returned (check_allowed c) _ x w h in
    let m =
      bind_returned (get r.registry c.skill c.tool) (λ found. prepare_tool c found.0 found.1) x _
        k.second in
    let at_get = if_state (is_allowed c.allowed_skills c.skill (full_name c)) _ w in
    let at_tool : (get r.registry c.skill c.tool (check_allowed c w).1).1 ≡ w =
      get-state r.registry c.skill c.tool _ ∙ at_get in
    let o =
      prepare_tool-Admitted c m.value.0 m.value.1 w x
        (subst (λ v. (prepare_tool c m.value.0 m.value.1 v).0 ≡ ok x) at_tool m.second) in
    let same = o.policed in
    let in_list = declared_for-Mem x.action _ same.is_declared in
    record {
      skill = m.value.0;
      found = rw same.same_tool (get-Found r.registry c.skill c.tool _ m.value m.first);
      allowed = is_allowed-MayUse _ _ _ (if_returned _ _ w k.value k.first);
      params = rw same.same_tool o.is_valid;
      actions = in_list.0;
      listed = in_list.1;
      declared = in_list.2;
      own_task = same.same_env;
      prechecked = rw (same.same_tool, same.same_env) o.passed;
    }
