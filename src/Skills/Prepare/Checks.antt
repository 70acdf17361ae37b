-- ===== src/Skills/Prepare/Checks.antt =====
-- What the checks of core/skills/runner.py establish, and that they leave the ledger alone.
use mathlib.Core.Option.{some-injective}
use mathlib.Core.Path.{subst}
use nova_ai_agent.Prelude.{
  ◌≡◌, refl, sym, String, Option, none, some, List, [], ◌∷◌, lookup, arith, str_eq, if_holds,
  Bool-cases, inl, inr, All,
}
use nova_ai_agent.Json.{Fields}
use nova_ai_agent.Exec.{ok}
use nova_ai_agent.Permissions.Approvals.{text_in}
use nova_ai_agent.Queue.Engine.Work.{Work}
use nova_ai_agent.Skills.Api.{
  Tool, ToolEnv, Validated, valid, invalid, action_for, Skill, SkillRegistry, get_tool, get_skill,
  get,
}
use nova_ai_agent.Skills.Prepare.{
  SkillRunner, Invocation, check_allowed, check_params, run_precheck, check_declared, declared_for,
  is_allowed, full_name, check_action, check_policy, prepare_params, prepare_tool, prepare,
}
use nova_ai_agent.Skills.Quiet.{
  Still, Quiet, QuietTool, Quiet-bind, Quiet-bind_on, Quiet-pure, Quiet-raise,
}

-- Every tool of the registry leaves the ledger alone.
abbrev pub QuietRegistry : SkillRegistry → Type 0
QuietRegistry skills =
    All (λ (s : String × Skill). All (λ (t : String × Tool). QuietTool t.1) s.1.tools) skills

lookup-All :
    {A : Type 0} (P : A → Type 0) (k : String) (m : List (String × A)) (a : A)
    → All (λ (e : String × A). P e.1) m
    → lookup k m ≡ some a
    → P a
lookup-All P k [] a h e = cc
lookup-All P k ((j, b) ∷ m) a h e = elim (Bool-cases (str_eq j k)) [
  | inl c ↦ subst P (some-injective b a (rw c at e)) h.0
  | inr c ↦ lookup-All P k m a h.1 (rw c at e)
]

-- What `get` has found.
pub record Found (skills : SkillRegistry) (skill tool : String) (s : Skill) (t : Tool)
    : Type 0 where
  pub skill_there : lookup skill skills ≡ some s
  pub tool_there : lookup tool s.tools ≡ some t

pub Found-QuietTool :
    (skills : SkillRegistry) (skill tool : String) (s : Skill) (t : Tool)
    → QuietRegistry skills
    → Found skills skill tool s t
    → QuietTool t
Found-QuietTool skills skill tool s t q f =
    lookup-All QuietTool tool s.tools t
      (lookup-All (λ (s : Skill). All (λ (t : String × Tool). QuietTool t.1) s.tools) skill skills s
        q f.skill_there)
      f.tool_there

module _ (skills : SkillRegistry) (skill tool : String) where
  get_tool-Found :
      (s : Skill) (o : Option Tool) (w : Work) (st : Skill × Tool)
      → lookup skill skills ≡ some s
      → lookup tool s.tools ≡ o
      → (get_tool skill tool s o w).0 ≡ ok st
      → Found skills skill tool st.0 st.1
  unfolding get_tool
  get_tool-Found s none w st e f k = cc
  get_tool-Found s (some t) w st e f k =
      let same : (s, t) ≡ st = ground arith in
      subst (λ (p : Skill × Tool). Found skills skill tool p.0 p.1) same
        (record { skill_there = e; tool_there = f })

  get_skill-Found :
      (o : Option Skill) (w : Work) (st : Skill × Tool)
      → lookup skill skills ≡ o
      → (get_skill skill tool o w).0 ≡ ok st
      → Found skills skill tool st.0 st.1
  unfolding get_skill
  get_skill-Found none w st e k = cc
  get_skill-Found (some s) w st e k = get_tool-Found s (lookup tool s.tools) w st e refl k

  get_tool-state : (s : Skill) (o : Option Tool) (w : Work) → (get_tool skill tool s o w).1 ≡ w
  unfolding get_tool
  get_tool-state s none w = refl
  get_tool-state s (some t) w = refl

  get_skill-state : (o : Option Skill) (w : Work) → (get_skill skill tool o w).1 ≡ w
  unfolding get_skill
  get_skill-state none w = refl
  get_skill-state (some s) w = get_tool-state s (lookup tool s.tools) w

  pub get-Found :
      (w : Work) (st : Skill × Tool)
      → (get skills skill tool w).0 ≡ ok st
      → Found skills skill tool st.0 st.1
  unfolding get
  get-Found w st k = get_skill-Found (lookup skill skills) w st refl k

  pub get-state : (w : Work) → (get skills skill tool w).1 ≡ w
  unfolding get
  get-state w = get_skill-state (lookup skill skills) w

  get-Quiet : Quiet (get skills skill tool)
  unfolding get
  get-Quiet = record {
    keeps = λ i es n. record {
      at = λ w h. subst (Still i es n) (sym (get_skill-state (lookup skill skills) w)) h;
    };
  }

check_params-Quiet : (c : Invocation) (v : Validated) → Quiet (check_params c v)
unfolding check_params
check_params-Quiet c (valid p) = Quiet-pure p
check_params-Quiet c (invalid errors) = Quiet-raise _

module _ (c : Invocation) (s : Skill) (t : Tool) (q : QuietTool t) where
  check_action-Quiet :
      (p : Fields) (env : ToolEnv) (action : String) → Quiet (check_action c s t p env action)
  unfolding check_action check_declared
  check_action-Quiet p env action =
      Quiet-bind (check_declared c s action) _
        (if_holds Quiet (text_in action (declared_for (lookup c.tool s.declared))) _ _
          (Quiet-pure tt) (Quiet-raise _))
        (λ u. Quiet-pure _)

  check_policy-Quiet : (p : Fields) (env : ToolEnv) → Quiet (check_policy c s t p env)
  unfolding check_policy
  check_policy-Quiet p env = Quiet-bind (run_precheck t.precheck p env) _ (q.precheck p env) (λ u.
      Quiet-bind (action_for t p env) (check_action c s t p env) (q.action p env)
        (check_action-Quiet p env))

  prepare_tool-Quiet : Quiet (prepare_tool c s t)
  unfolding prepare_tool prepare_params
  prepare_tool-Quiet =
      Quiet-bind (check_params c (t.validate c.params)) (prepare_params c s t)
        (check_params-Quiet c (t.validate c.params))
        (λ p. record {
          keeps = λ i es n. record {
            at = λ w h.
                ((check_policy-Quiet p (record { task_id = w.ctx.task.id })).keeps i es n).at w h;
          };
        })

check_allowed-Quiet : (c : Invocation) → Quiet (check_allowed c)
unfolding check_allowed
check_allowed-Quiet c =
    if_holds Quiet (is_allowed c.allowed_skills c.skill (full_name c)) _ _ (Quiet-pure tt)
      (Quiet-raise _)

pub prepare-Quiet :
    (r : SkillRunner) (c : Invocation) → QuietRegistry r.registry → Quiet (prepare r c)
unfolding prepare
prepare-Quiet r c q = Quiet-bind (check_allowed c) _ (check_allowed-Quiet c) (λ u.
    Quiet-bind_on (get r.registry c.skill c.tool) (λ found. prepare_tool c found.0 found.1)
      (get-Quiet r.registry c.skill c.tool)
      (λ w st k. prepare_tool-Quiet c st.0 st.1 (
        Found-QuietTool r.registry c.skill c.tool st.0 st.1 q
          (get-Found r.registry c.skill c.tool w st k))))
