-- ===== src/Skills/Loading.antt =====
-- core/skills/registry.py: the loading of skills. What stands on disk is a parameter: for each folder,
-- which files it has and what their reading gives.
pub mod Sound
use Prim.Native.String.{◌++◌ as append_text}
use nova_ai_agent.Prelude.{
  String, Bool, true, false, not, Option, none, some, List, [], ◌∷◌, str_eq, lookup, insert,
  if◌then◌else◌,
}
use nova_ai_agent.Exec.{error, Result, ok, err}
use nova_ai_agent.Permissions.Approvals.{text_in}
use nova_ai_agent.Skills.Api.{Tool, Manifest, Skill, SkillRegistry, quoted}

abbrev pub required_files : List String
required_files = "SKILL.md" ∷ "manifest.json" ∷ "permissions.json" ∷ []

-- What the import of a tool's module gives.
pub data Import : Type 0 where
  cannot_import no_tool : Import
  imported : Tool → Import

-- A folder below the directory of skills; `manifest` is none when it is not valid, and `module_at`
-- none when tools/<tool>.py is not a file.
pub record Folder : Type 0 where
  pub files : List String
  pub has_tests : Bool
  pub manifest : Option Manifest
  pub declared : List (String × List String)
  pub module_at : String → Option Import

abbrev pub fails : {A : Type 0} → String → String → Result A
fails folder message =
    err (error (append_text "SkillError: " (append_text folder (append_text ": " message))))

abbrev pub and_then : {A B : Type 0} → Result A → (A → Result B) → Result B
and_then (ok a) f = f a
and_then (err e) f = err e

unfoldable pub check_files : String → List String → Folder → Result (Unit {0})
check_files folder [] d = ok tt
check_files folder (f ∷ rest) d =
    if text_in f d.files then check_files folder rest d else fails folder (append_text "missing " f)

-- _load_tool
unfoldable pub load_tool : String → String → Import → Result Tool
load_tool skill name cannot_import =
    fails skill (append_text "cannot import " (append_text name ".py"))
load_tool skill name no_tool = fails skill (append_text name ".py: must define TOOL")
load_tool skill name (imported t) =
    if str_eq t.name name
    then ok t
    else fails skill (append_text name ".py: TOOL.name is not the file name")

abbrev pub is_empty : Option (List String) → Bool
is_empty none = true
is_empty (some []) = true
is_empty (some (x ∷ xs)) = false

unfoldable pub load_listed : String → String → Folder → Option Import → Result Tool
unfolding load_tool
load_listed skill name d none =
    fails skill (append_text "tool listed but missing " (append_text name ".py"))
load_listed skill name d (some i) =
    if is_empty (lookup name d.declared)
    then fails skill (append_text "permissions.json declares no actions for " name)
    else load_tool skill name i

-- The loop over the tools of the manifest.
unfoldable pub load_tools :
    String → List String → Folder → List (String × Tool) → Result (List (String × Tool))
unfolding load_listed
load_tools skill [] d tools = ok tools
load_tools skill (name ∷ rest) d tools =
    and_then (load_listed skill name d (d.module_at name))
      (λ t. load_tools skill rest d (insert name t tools))

unfoldable pub load_manifest : String → Folder → Option Manifest → Result Skill
unfolding load_tools
load_manifest folder d none = fails folder "invalid manifest.json"
load_manifest folder d (some m) =
    if str_eq m.name folder
    then and_then (load_tools m.name m.tools d [])
        (λ tools. ok (record { manifest = m; tools = tools; declared = d.declared }))
    else fails folder "manifest name is not the folder name"

unfoldable pub check_tests : String → Folder → Result (Unit {0})
check_tests folder d = if d.has_tests then ok tt else fails folder "missing tests/"

-- load_skill(folder)
unfoldable pub load_skill : String → Folder → Result Skill
unfolding check_files check_tests load_manifest
load_skill folder d =
    and_then (check_files folder required_files d)
      (λ u. and_then (check_tests folder d) (λ v. load_manifest folder d d.manifest))

-- An entry of config/skills.yaml.
pub data SkillStatus : Type 0 where
  planned enabled disabled : SkillStatus

unfoldable pub load_found : String → Option Folder → Result Skill
unfolding load_skill
load_found name none = fails name "is enabled but its folder does not exist"
load_found name (some d) = load_skill name d

abbrev pub add_skill : String → String → Skill → SkillRegistry → SkillRegistry
add_skill platform name s loaded =
    if text_in platform s.manifest.platforms then insert name s loaded else loaded

-- The loop over the configured skills.
unfoldable pub load_each :
    String
    → (String → Option Folder)
    → List (String × SkillStatus)
    → SkillRegistry
    → Result SkillRegistry
unfolding load_found
load_each platform disk [] loaded = ok loaded
load_each platform disk ((name, enabled) ∷ rest) loaded =
    and_then (load_found name (disk name))
      (λ s. load_each platform disk rest (add_skill platform name s loaded))
load_each platform disk ((name, disabled) ∷ rest) loaded = load_each platform disk rest loaded
load_each platform disk ((name, planned) ∷ rest) loaded = load_each platform disk rest loaded

-- SkillRegistry.load
unfoldable pub load :
    String → (String → Option Folder) → List (String × SkillStatus) → Result SkillRegistry
unfolding load_each
load platform disk config = load_each platform disk config []
