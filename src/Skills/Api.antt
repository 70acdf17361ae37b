-- ===== src/Skills/Api.antt =====
-- core/skills/api.py (the field `data` of a result is `content`), and the registry's `get` of core/skills/registry.py. Validated parameters are
-- the fields that model_dump gives. Of the environment of a tool only the task's id changes from call
-- to call; the configuration, the paths and the workers are part of the tool's functions.
use Prim.Native.String.{◌++◌ as append_text}
use nova_ai_agent.Prelude.{ℕ, String, Bool, Option, none, some, List, lookup}
use nova_ai_agent.Json.{Fields}
use nova_ai_agent.Exec.{error, pure, raise}
use nova_ai_agent.Queue.Engine.Work.{Run}

pub record ToolResult : Type 0 where
  pub ok : Bool
  pub summary : String
  pub content : Fields
  pub evidence : Fields
  pub untrusted : Bool

pub record ToolEnv : Type 0 where
  pub task_id : ℕ

-- params.model_validate: the parameters, or the text of the errors.
pub data Validated : Type 0 where
  valid : Fields → Validated
  invalid : (errors : String) → Validated

pub data ToolAction : Type 0 where
  fixed : String → ToolAction
  computed : (Fields → ToolEnv → Run String) → ToolAction

pub record Tool : Type 0 where
  pub name : String
  pub validate : Fields → Validated
  pub run : Fields → ToolEnv → Run ToolResult
  pub action : ToolAction
  pub target : Fields → String
  pub summary : Fields → String
  pub safety_check : Option (Fields → ToolEnv → Run (Bool × String))
  pub precheck : Option (Fields → ToolEnv → Run Unit)

-- Tool.action_for
unfoldable pub action_by : ToolAction → Fields → ToolEnv → Run String
action_by (fixed action) p env = pure action
action_by (computed f) p env = f p env

unfoldable pub action_for : Tool → Fields → ToolEnv → Run String
unfolding action_by
action_for t p env = action_by t.action p env

pub data WorkerKind : Type 0 where
  core desktop browser : WorkerKind

pub record Manifest : Type 0 where
  pub name : String
  pub version : String
  pub description : String
  pub worker : WorkerKind
  pub platforms : List String
  pub tools : List String

pub record Skill : Type 0 where
  pub manifest : Manifest
  pub tools : List (String × Tool)
  pub declared : List (String × List String)

abbrev pub SkillRegistry : Type 0
SkillRegistry = List (String × Skill)

-- repr of a text without quotes and escapes
abbrev pub quoted : String → String
quoted s = append_text "'" (append_text s "'")

abbrev pub skill_error : {A : Type 0} → String → Run A
skill_error message = raise (error (append_text "SkillError: " message))

unfoldable pub get_tool : String → String → Skill → Option Tool → Run (Skill × Tool)
get_tool skill tool s none =
    skill_error (
      append_text "skill " (append_text (quoted skill) (append_text " has no tool " (quoted tool))))
get_tool skill tool s (some t) = pure (s, t)

unfoldable pub get_skill : String → String → Option Skill → Run (Skill × Tool)
unfolding get_tool
get_skill skill tool none = skill_error (append_text "unknown or disabled skill " (quoted skill))
get_skill skill tool (some s) = get_tool skill tool s (lookup tool s.tools)

-- SkillRegistry.get
unfoldable pub get : SkillRegistry → String → String → Run (Skill × Tool)
unfolding get_skill
get skills skill tool = get_skill skill tool (lookup skill skills)
