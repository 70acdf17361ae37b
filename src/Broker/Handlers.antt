-- ===== src/Broker/Handlers.antt =====
-- workers/privileged-broker/nova_broker/ops.py: the operations as actions on the machine. `Backend` is
-- what touches Windows: `run` starts a program with a list of arguments and gives its exit code, or
-- none when it did not run to its end. `Text` holds methods of str. NotAllowed is `policy_denied`;
-- Failed and any other exception are `error`. Summaries, evidence and the texts of errors are left out.
pub mod Fixed
use Prim.Native.String.{◌++◌ as append_text}
use nova_ai_agent.Prelude.{
  ℕ, zero, suc, ◌/◌, String, Bool, true, false, not, ◌&&◌, ◌||◌, Option, none, some, List, [], ◌∷◌,
  ◌++◌, ◌==◌, length, str_eq, lookup, starts_with, if◌then◌else◌,
}
use nova_ai_agent.Json.{Fields}
use nova_ai_agent.Exec.{error, policy_denied, Exec, ok, pure, raise, ◌>>=◌, ◌>>◌}
use nova_ai_agent.Broker.Ops.{
  Policy, Op, op_status, op_service, op_firewall, op_package, op_power, op_task, text_at, number_at,
}

pub record Backend (W : Type 0) : Type 0 where
  pub run : List String → W → (Option ℕ × String) × W
  pub service_state : String → Exec W String
  pub service_control : String → String → Exec W Unit
  pub sys_exe : String → String

-- Methods of str: s.lower(), a in b, [line.strip().split("|") for line in s.splitlines()] and str(n).
pub record Text : Type 0 where
  pub lower : String → String
  pub contains : String → String → Bool
  pub split_lines : String → List (List String)
  pub decimal : ℕ → String

abbrev pub rule_prefix : String
rule_prefix = "Nova AI - "

abbrev pub list_script : String
list_script =
    "$ErrorActionPreference='Stop'; Get-NetFirewallRule -DisplayName 'Nova AI - *' -ErrorAction SilentlyContinue | ForEach-Object { $f = $_ | Get-NetFirewallPortFilter; '{0}|{1}|{2}|{3}|{4}|{5}' -f $_.DisplayName,$_.Direction,$_.Action,$_.Enabled,$f.Protocol,($f.LocalPort -join ',') }"

abbrev pub exited : Option ℕ → ℕ → Bool
exited none n = false
exited (some rc) n = rc == n

abbrev pub head_or_empty : List String → String
head_or_empty [] = ""
head_or_empty (x ∷ xs) = x

-- The names of the rules in the output of the listing.
abbrev rule_names : List (List String) → List String
rule_names [] = []
rule_names (parts ∷ rest) =
    let others = rule_names rest in
    if (length parts == 6) && starts_with rule_prefix (head_or_empty parts)
    then head_or_empty parts ∷ others
    else others

abbrev pub name_among : String → List String → Bool
name_among s [] = false
name_among s (x ∷ xs) = str_eq x s || name_among s xs

abbrev pub wanted_state : String → String
wanted_state op = if str_eq op "stop" then "stopped" else "running"

module _ {W : Type 0} where
  abbrev pub failed : {A : Type 0} → Exec W A
  failed = raise (error "Failed")

  abbrev pub refused : {A : Type 0} → Exec W A
  refused = raise (policy_denied "NotAllowed")

  -- Failed unless the test holds.
  unfoldable pub must : Bool → Exec W Unit
  must true = pure tt
  must false = failed

module _ {W : Type 0} (be : Backend W) (tx : Text) (policy : Policy) where
  abbrev pub run : List String → Exec W (Option ℕ × String)
  run argv w = let (r, w') = be.run argv w in (ok r, w')

  -- A run, or Failed unless it exits with 0.
  unfoldable pub run_well : List String → Exec W String
  unfolding must
  run_well argv = do r ← run argv; must (exited r.0 0); pure r.1

  abbrev powershell : String
  powershell = be.sys_exe "WindowsPowerShell\\v1.0\\powershell.exe"

  abbrev pub list_argv : List String
  list_argv = powershell ∷ "-NoProfile" ∷ "-NonInteractive" ∷ "-Command" ∷ list_script ∷ []

  unfoldable pub firewall_rules : Exec W (List String)
  unfolding run_well
  firewall_rules = do out ← run_well list_argv; pure (rule_names (tx.split_lines out))

  -- The wait of `op_service` for a state, at most `tries` times half a second.
  unfoldable pub wait_for : String → String → (tries : ℕ) → String → Exec W String
  wait_for name want zero state = pure state
  wait_for name want (suc tries) state =
      if str_eq state want
      then pure state
      else (do next ← be.service_state name; wait_for name want tries next)

  unfoldable pub control_service : String → Option String → Exec W Unit
  unfolding must wait_for
  control_service op none = refused
  control_service op (some name) = do
    be.service_control name op
    state ← be.service_state name
    last ← wait_for name (wanted_state op) 60 state
    must (str_eq last (wanted_state op))

  unfoldable pub service : Fields → Exec W Unit
  unfolding control_service text_at
  service p =
      if str_eq (text_at "op" p) "query"
      then (do be.service_state (text_at "name" p); be.service_state (text_at "name" p); pure tt)
      else control_service (text_at "op" p) (lookup (tx.lower (text_at "name" p)) policy.services)

  abbrev port_key : String → String
  port_key direction = if str_eq direction "in" then "localport=" else "remoteport="

  abbrev pub full_rule : Fields → String
  full_rule p = append_text rule_prefix (text_at "name" p)

  abbrev pub add_argv : Fields → List String
  add_argv p =
      be.sys_exe "netsh.exe"
      ∷ "advfirewall"
      ∷ "firewall"
      ∷ "add"
      ∷ "rule"
      ∷ append_text "name=" (full_rule p)
      ∷ append_text "dir=" (text_at "direction" p)
      ∷ append_text "action=" (text_at "rule_action" p)
      ∷ append_text "protocol=" (text_at "protocol" p)
      ∷ append_text (port_key (text_at "direction" p)) (text_at "port" p)
      ∷ "enable=yes"
      ∷ []

  abbrev pub delete_argv : Fields → List String
  delete_argv p =
      be.sys_exe "netsh.exe"
      ∷ "advfirewall"
      ∷ "firewall"
      ∷ "delete"
      ∷ "rule"
      ∷ append_text "name=" (full_rule p)
      ∷ []

  unfoldable pub change_rule : Fields → (adding : Bool) → Exec W Unit
  unfolding must run_well firewall_rules text_at
  change_rule p adding = do
    before ← firewall_rules
    must (if adding then not (name_among (full_rule p) before) else name_among (full_rule p) before)
    run_well (if adding then add_argv p else delete_argv p)
    after ← firewall_rules
    must (if adding then name_among (full_rule p) after else not (name_among (full_rule p) after))

  unfoldable pub firewall : Fields → Exec W Unit
  unfolding change_rule text_at
  firewall p =
      if str_eq (text_at "op" p) "list"
      then (do firewall_rules; pure tt)
      else change_rule p (str_eq (text_at "op" p) "add")

  abbrev pub common : Fields → List String
  common p =
      "--id"
      ∷ text_at "id" p
      ∷ "--exact"
      ∷ "--accept-source-agreements"
      ∷ "--disable-interactivity"
      ∷ []

  abbrev pub package_argv : Fields → List String
  package_argv p =
      if str_eq (text_at "op" p) "install"
      then policy.winget ∷ "install" ∷ common p
        ++ "--source" ∷ "winget" ∷ "--silent" ∷ "--accept-package-agreements" ∷ []
      else policy.winget ∷ "uninstall" ∷ common p ++ "--silent" ∷ []

  abbrev pub is_installed : Fields → String → Bool
  is_installed p listed = tx.contains (tx.lower (text_at "id" p)) (tx.lower listed)

  unfoldable pub change_package : Fields → Exec W Unit
  unfolding must text_at
  change_package p = do
    run (package_argv p)
    listed ← run (policy.winget ∷ "list" ∷ common p)
    must (
        if str_eq (text_at "op" p) "install"
        then is_installed p listed.1
        else not (is_installed p listed.1))

  unfoldable pub package_change : Fields → Exec W Unit
  unfolding change_package
  package_change p = if str_eq policy.winget "" then refused else change_package p

  abbrev shutdown_message : String → ℕ → String
  shutdown_message op delay = append_text "Nova AI: owner-approved " (
      append_text op (
        append_text " in " (
          append_text (tx.decimal (delay / 60))
            " min. Save your work. (Cancel from the phone: 'restart cancel')")))

  abbrev pub cancel_argv : List String
  cancel_argv = be.sys_exe "shutdown.exe" ∷ "/a" ∷ []

  abbrev pub shutdown_argv : String → ℕ → List String
  shutdown_argv op delay =
      be.sys_exe "shutdown.exe"
      ∷ (if str_eq op "restart" then "/r" else "/s")
      ∷ "/t"
      ∷ tx.decimal delay
      ∷ "/c"
      ∷ shutdown_message op delay
      ∷ "/d"
      ∷ "p:0:0"
      ∷ []

  unfoldable pub power : Fields → Exec W Unit
  unfolding must run_well text_at number_at
  power p =
      if str_eq (text_at "op" p) "cancel"
      then (do r ← run cancel_argv; must (exited r.0 1116 || exited r.0 0))
      else (do run_well (shutdown_argv (text_at "op" p) (number_at "delay_seconds" p)); pure tt)

  unfoldable pub run_task : Option (List String) → Exec W Unit
  unfolding run_well
  run_task none = refused
  run_task (some argv) = do run_well argv; pure tt

  unfoldable pub task : Fields → Exec W Unit
  unfolding run_task text_at
  task p = run_task (lookup (text_at "name" p) policy.tasks)

  -- HANDLERS: "status" is answered before and has none.
  unfoldable pub handler : Op → Fields → Exec W Unit
  unfolding service firewall package_change power task
  handler op_status p = pure tt
  handler op_service p = service p
  handler op_firewall p = firewall p
  handler op_package p = package_change p
  handler op_power p = power p
  handler op_task p = task p
