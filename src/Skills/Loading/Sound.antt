-- ===== src/Skills/Loading/Sound.antt =====
-- What the registry holds after core/skills/registry.py has loaded it.
use mathlib.Core.Path.{subst}
use nova_ai_agent.Prelude.{
  ◌≡◌, refl, String, true, false, Option, none, some, List, [], ◌∷◌, str_eq, lookup, insert, arith,
  eq_iff, lookup-insert, All, Bool-cases, inl, inr,
}
use nova_ai_agent.Exec.{Result, ok, err}
use nova_ai_agent.Permissions.Approvals.{text_in}
use nova_ai_agent.Skills.Api.{Tool, Manifest, Skill, SkillRegistry}
use nova_ai_agent.Skills.Loading.{
  Import, cannot_import, no_tool, imported, Folder, and_then, is_empty, load_tool, load_listed,
  load_tools, load_manifest, check_files, check_tests, required_files, load_skill, SkillStatus,
  enabled, planned, disabled, load_found, add_skill, load_each, load,
}

-- The first of two steps that returned together.
record Both {A B : Type 0} (r : Result A) (f : A → Result B) (b : B) : Type 0 where
  value : A
  first : r ≡ ok value
  second : f value ≡ ok b

and_then-Both :
    {A B : Type 0} (r : Result A) (f : A → Result B) (b : B) → and_then r f ≡ ok b → Both r f b
and_then-Both (ok a) f b h = record { value = a; first = refl; second = h }
and_then-Both (err e) f b h = cc

All-insert :
    {V : Type 0} (P : String × V → Type 0) (k : String) (v : V) (m : List (String × V))
    → P (k, v)
    → All P m
    → All P (insert k v m)
All-insert P k v [] h k' = (h, tt)
All-insert P k v ((j, w) ∷ m) h a = elim (Bool-cases (str_eq j k)) [
  | inl c ↦ rw c (h, a.1)
  | inr c ↦ rw c (a.0, All-insert P k v m h a.1)
]

-- A tool that its skill may use: it has the name of its file, and its skill declares an action for it.
pub record IsUsable (declared : List (String × List String)) (t : String × Tool) : Type 0 where
  pub named : t.1.name ≡ t.0
  pub declares : is_empty (lookup t.0 declared) ≡ false

load_tool-named :
    (skill name : String) (i : Import) (t : Tool) → load_tool skill name i ≡ ok t → t.name ≡ name
unfolding load_tool
load_tool-named skill name cannot_import t h = cc
load_tool-named skill name no_tool t h = cc
load_tool-named skill name (imported u) t h = ground (arith, eq_iff u.name name)

load_listed-IsUsable :
    (skill name : String) (d : Folder) (o : Option Import) (t : Tool)
    → load_listed skill name d o ≡ ok t
    → IsUsable d.declared (name, t)
unfolding load_listed
load_listed-IsUsable skill name d none t h = cc
load_listed-IsUsable skill name d (some i) t h =
    elim (Bool-cases (is_empty (lookup name d.declared))) [
      | inl c ↦ let bad = rw c at h in cc
      | inr c ↦ record { named = load_tool-named skill name i t (rw c at h); declares = c }
    ]

load_tools_sound :
    (skill : String) (names : List String) (d : Folder) (tools : List (String × Tool))
    (loaded : List (String × Tool))
    → All (IsUsable d.declared) tools
    → load_tools skill names d tools ≡ ok loaded
    → All (IsUsable d.declared) loaded
unfolding load_tools
load_tools_sound skill [] d tools loaded a h =
    let same : tools ≡ loaded = ground arith in subst (All (IsUsable d.declared)) same a
load_tools_sound skill (n ∷ names) d tools loaded a h =
    let b = and_then-Both (load_listed skill n d (d.module_at n)) _ loaded h in
    load_tools_sound skill names d (insert n b.value tools) loaded
      (All-insert (IsUsable d.declared) n b.value tools
        (load_listed-IsUsable skill n d (d.module_at n) b.value b.first) a)
      b.second

-- A skill in the registry: it has the name of its folder, it runs on this platform, and its tools are
-- usable.
pub record IsLoaded (platform : String) (e : String × Skill) : Type 0 where
  pub named : e.1.manifest.name ≡ e.0
  pub runs_here : text_in platform e.1.manifest.platforms ≡ true
  pub tools : All (IsUsable e.1.declared) e.1.tools

load_manifest_sound :
    (name : String) (d : Folder) (o : Option Manifest) (s : Skill)
    → load_manifest name d o ≡ ok s
    → (s.manifest.name ≡ name) × All (IsUsable s.declared) s.tools
unfolding load_manifest
load_manifest_sound name d none s h = cc
load_manifest_sound name d (some m) s h = elim (Bool-cases (str_eq m.name name)) [
  | inl c ↦
      let b = and_then-Both (load_tools m.name m.tools d []) _ s (rw c at h) in
      let same : record { manifest = m; tools = b.value; declared = d.declared } ≡ s =
        ground (arith, b.second) in
      subst (λ (s : Skill). (s.manifest.name ≡ name) × All (IsUsable s.declared) s.tools) same
        (
          ground (arith, eq_iff m.name name),
          load_tools_sound m.name m.tools d [] b.value tt b.first,
        )
  | inr c ↦ let bad = rw c at h in cc
]

load_found_sound :
    (name : String) (o : Option Folder) (s : Skill)
    → load_found name o ≡ ok s
    → (s.manifest.name ≡ name) × All (IsUsable s.declared) s.tools
unfolding load_found load_skill
load_found_sound name none s h = cc
load_found_sound name (some d) s h =
    let b = and_then-Both (check_files name required_files d) _ s h in
    let e = and_then-Both (check_tests name d) _ s b.second in
    load_manifest_sound name d d.manifest s e.second

module _ (platform : String) (disk : String → Option Folder) where
  -- The entry is not enabled, or its folder loads and the registry has the skill if it runs here.
  abbrev pub IsServed : SkillRegistry → String × SkillStatus → Type 0
  IsServed loaded e =
      e.1 ≡ enabled
      → (s : Skill) × (load_found e.0 (disk e.0) ≡ ok s)
        × (text_in platform s.manifest.platforms ≡ true → lookup e.0 loaded ≡ some s)

  add_skill-IsLoaded :
      (name : String) (s : Skill) (loaded : SkillRegistry)
      → load_found name (disk name) ≡ ok s
      → All (IsLoaded platform) loaded
      → All (IsLoaded platform) (add_skill platform name s loaded)
  add_skill-IsLoaded name s loaded h a = elim (Bool-cases (text_in platform s.manifest.platforms)) [
    | inl c ↦ rw c (
        let (n, t) = load_found_sound name (disk name) s h in
        All-insert (IsLoaded platform) name s loaded
          (record { named = n; runs_here = c; tools = t }) a)
    | inr c ↦ rw c a
  ]

  load_each-IsLoaded :
      (config : List (String × SkillStatus)) (loaded reg : SkillRegistry)
      → All (IsLoaded platform) loaded
      → load_each platform disk config loaded ≡ ok reg
      → All (IsLoaded platform) reg
  unfolding load_each
  load_each-IsLoaded [] loaded reg a h =
      let same : loaded ≡ reg = ground arith in subst (All (IsLoaded platform)) same a
  load_each-IsLoaded ((name, enabled) ∷ rest) loaded reg a h =
      let b = and_then-Both (load_found name (disk name)) _ reg h in
      load_each-IsLoaded rest (add_skill platform name b.value loaded) reg
        (add_skill-IsLoaded name b.value loaded b.first a) b.second
  load_each-IsLoaded ((name, planned) ∷ rest) loaded reg a h =
      load_each-IsLoaded rest loaded reg a h
  load_each-IsLoaded ((name, disabled) ∷ rest) loaded reg a h =
      load_each-IsLoaded rest loaded reg a h

  -- A skill that is there stays there.
  load_each-keeps :
      (config : List (String × SkillStatus)) (loaded reg : SkillRegistry) (name : String)
      (s : Skill)
      → load_found name (disk name) ≡ ok s
      → lookup name loaded ≡ some s
      → load_each platform disk config loaded ≡ ok reg
      → lookup name reg ≡ some s
  unfolding load_each
  load_each-keeps [] loaded reg name s f l h =
      let same : loaded ≡ reg = ground arith in subst (λ r. lookup name r ≡ some s) same l
  load_each-keeps ((n, enabled) ∷ rest) loaded reg name s f l h =
      let b = and_then-Both (load_found n (disk n)) _ reg h in
      load_each-keeps rest (add_skill platform n b.value loaded) reg name s f
        (added b.value b.first) b.second
    where
      added :
          (t : Skill)
          → load_found n (disk n) ≡ ok t
          → lookup name (add_skill platform n t loaded) ≡ some s
      added t g = elim (Bool-cases (text_in platform t.manifest.platforms)) [
        | inl c ↦ rw c (ground (arith, lookup-insert n name t loaded, eq_iff n name))
        | inr c ↦ rw c l
      ]
  load_each-keeps ((n, planned) ∷ rest) loaded reg name s f l h =
      load_each-keeps rest loaded reg name s f l h
  load_each-keeps ((n, disabled) ∷ rest) loaded reg name s f l h =
      load_each-keeps rest loaded reg name s f l h

  load_each-IsServed :
      (config : List (String × SkillStatus)) (loaded reg : SkillRegistry)
      → load_each platform disk config loaded ≡ ok reg
      → All (IsServed reg) config
  unfolding load_each
  load_each-IsServed [] loaded reg h = tt
  load_each-IsServed ((n, planned) ∷ rest) loaded reg h =
      (λ e. cc, load_each-IsServed rest loaded reg h)
  load_each-IsServed ((n, disabled) ∷ rest) loaded reg h =
      (λ e. cc, load_each-IsServed rest loaded reg h)
  load_each-IsServed ((n, enabled) ∷ rest) loaded reg h =
      let b = and_then-Both (load_found n (disk n)) _ reg h in
      (
        λ e. (
          b.value,
          b.first,
          λ c.
              load_each-keeps rest (add_skill platform n b.value loaded) reg n b.value b.first
                (rw c (ground (arith, lookup-insert n n b.value loaded, eq_iff n n))) b.second,
        ),
        load_each-IsServed rest (add_skill platform n b.value loaded) reg b.second,
      )

  -- When the skills load, each skill in the registry has the name of its folder, runs on this platform,
  -- and each of its tools has the name of its file and an action that the skill declares for it; and
  -- every enabled entry of the configuration has a folder that loads, whose skill is in the registry
  -- if it runs on this platform.
  pub load_sound :
      (config : List (String × SkillStatus)) (reg : SkillRegistry)
      → load platform disk config ≡ ok reg
      → All (IsLoaded platform) reg × All (IsServed reg) config
  unfolding load
  load_sound config reg h =
      (load_each-IsLoaded config [] reg tt h, load_each-IsServed config [] reg h)
