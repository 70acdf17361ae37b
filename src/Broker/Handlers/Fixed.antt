-- ===== src/Broker/Handlers/Fixed.antt =====
-- Which programs the operations of workers/privileged-broker/nova_broker/ops.py run.
use mathlib.Core.Path.{subst}
use nova_ai_agent.Prelude.{
  ℕ, zero, suc, ◌≤◌, ◌≡◌, ◌≢◌, refl, String, Bool, true, false, not, ◌&&◌, ◌||◌, Option, none, some,
  List, ◌∷◌, lookup, str_eq, if◌then◌else◌, eq_iff, if_holds, Bool-cases, inl, inr, arith,
}
use nova_ai_agent.Json.{Fields}
use nova_ai_agent.Exec.{pure}
use nova_ai_agent.Exec.Keeps.{Keeps, Keeps-bind}
use nova_ai_agent.Broker.Ops.{
  Policy, Op, op_status, op_service, op_firewall, op_package, op_power, op_task, text_at, number_at,
  checked, op_named, keys, all_known, all_typed, validate, validate_op, good_values,
}
use nova_ai_agent.Broker.Handlers.{
  Backend, Text, must, run, run_well, head_or_empty, name_among, full_rule, is_installed, list_argv,
  firewall_rules, wait_for, control_service, wanted_state, service, add_argv, delete_argv,
  change_rule, firewall, package_argv, common, change_package, package_change, cancel_argv,
  shutdown_argv, power, run_task, task, handler, exited,
}

module _ {W : Type 0} (be : Backend W) (tx : Text) (policy : Policy) where
  -- The command lines that an operation may start: the firewall tools with any arguments after the
  -- fixed ones, the package manager of the policy, a restart or shutdown that can still be cancelled
  -- within a minute to an hour, its cancellation, and the tasks of the policy.
  pub data Fixed : List String → Type 0 where
    lists_rules : Fixed (list_argv be tx policy)
    changes_rule :
        (verb : String) (rest : List String)
        → Fixed (be.sys_exe "netsh.exe" ∷ "advfirewall" ∷ "firewall" ∷ verb ∷ "rule" ∷ rest)
    packages :
        (argv : List String) → head_or_empty argv ≡ policy.winget → policy.winget ≢ "" → Fixed argv
    shuts_down :
        (op : String) (delay : ℕ)
        → 60 ≤ delay
        → delay ≤ 3600
        → Fixed (shutdown_argv be tx policy op delay)
    cancels : Fixed (cancel_argv be tx policy)
    runs_task :
        (name : String) (argv : List String) → lookup name policy.tasks ≡ some argv → Fixed argv

  -- A property of the machine that these programs keep, and so do reading the state of a service and
  -- controlling a service of the policy.
  pub record Safe (P : W → Type 0) : Type 0 where
    pub programs : (argv : List String) → Fixed argv → Keeps P (run be tx policy argv)
    pub state : (name : String) → Keeps P (be.service_state name)
    pub control :
        (key name op : String)
        → lookup key policy.services ≡ some name
        → Keeps P (be.service_control name op)

  module _ (P : W → Type 0) (safe : Safe P) where
    must-Keeps : (b : Bool) → Keeps P (must b)
    unfolding must
    must-Keeps true = record { at = λ w h. h }
    must-Keeps false = record { at = λ w h. h }

    nothing-Keeps : {A : Type 0} (a : A) → Keeps {A = A} P (pure a)
    nothing-Keeps a = record { at = λ w h. h }

    run_well-Keeps : (argv : List String) → Fixed argv → Keeps P (run_well be tx policy argv)
    unfolding run_well
    run_well-Keeps argv f = Keeps-bind (run be tx policy argv) _ (safe.programs argv f) (λ r.
        Keeps-bind (must (exited r.0 0)) (λ u. pure r.1) (must-Keeps (exited r.0 0))
          (λ u. nothing-Keeps r.1))

    firewall_rules-Keeps : Keeps P (firewall_rules be tx policy)
    unfolding firewall_rules
    firewall_rules-Keeps =
        Keeps-bind (run_well be tx policy (list_argv be tx policy)) _
          (run_well-Keeps (list_argv be tx policy) lists_rules) (λ out. nothing-Keeps _)

    wait_for-Keeps :
        (name want : String) (tries : ℕ) (state : String)
        → Keeps P (wait_for be tx policy name want tries state)
    unfolding wait_for
    wait_for-Keeps name want zero state = record { at = λ w h. h }
    wait_for-Keeps name want (suc tries) state =
        if_holds (Keeps P) (str_eq state want) _ _ (record { at = λ w h. h })
          (Keeps-bind _ _ (safe.state name) (λ next. wait_for-Keeps name want tries next))

    control_service-Keeps :
        (op key : String) (o : Option String)
        → lookup key policy.services ≡ o
        → Keeps P (control_service be tx policy op o)
    unfolding control_service
    control_service-Keeps op key none e = record { at = λ w h. h }
    control_service-Keeps op key (some name) e = Keeps-bind _ _ (safe.control key name op e) (λ u.
        Keeps-bind _ _ (safe.state name) (λ state.
          Keeps-bind _ _ (wait_for-Keeps name (wanted_state op) 60 state) (λ last. must-Keeps _)))

    service-Keeps : (p : Fields) → Keeps P (service be tx policy p)
    unfolding service
    service-Keeps p =
        if_holds (Keeps P) (str_eq (text_at "op" p) "query") _ _
          (Keeps-bind _ _ (safe.state _)
            (λ x. Keeps-bind _ _ (safe.state _) (λ y. record { at = λ w h. h })))
          (control_service-Keeps _ (tx.lower (text_at "name" p)) _ refl)

    change_rule-Keeps : (p : Fields) (adding : Bool) → Keeps P (change_rule be tx policy p adding)
    unfolding change_rule
    change_rule-Keeps p adding = Keeps-bind _ _ firewall_rules-Keeps (λ before.
        Keeps-bind
          (must (
            if adding
            then not (name_among (full_rule be tx policy p) before)
            else name_among (full_rule be tx policy p) before))
          _ (must-Keeps _)
          (λ u.
            Keeps-bind
              (run_well be tx policy
                (if adding then add_argv be tx policy p else delete_argv be tx policy p))
              _
              (run_well-Keeps _ (
                if_holds Fixed adding (add_argv be tx policy p) (delete_argv be tx policy p)
                  (changes_rule "add" _) (changes_rule "delete" _)))
              (λ r. Keeps-bind _ _ firewall_rules-Keeps (λ after. must-Keeps (
                if adding
                then name_among (full_rule be tx policy p) after
                else not (name_among (full_rule be tx policy p) after))))))

    firewall-Keeps : (p : Fields) → Keeps P (firewall be tx policy p)
    unfolding firewall
    firewall-Keeps p =
        if_holds (Keeps P) (str_eq (text_at "op" p) "list") _ _
          (Keeps-bind _ _ firewall_rules-Keeps (λ x. record { at = λ w h. h }))
          (change_rule-Keeps p _)

    change_package-Keeps :
        (p : Fields) → policy.winget ≢ "" → Keeps P (change_package be tx policy p)
    unfolding change_package
    change_package-Keeps p n =
        Keeps-bind (run be tx policy (package_argv be tx policy p)) _
          (safe.programs (package_argv be tx policy p) (
            if_holds Fixed (str_eq (text_at "op" p) "install") _ _ (packages _ refl n)
              (packages _ refl n)))
          (λ r.
            Keeps-bind (run be tx policy (policy.winget ∷ "list" ∷ common be tx policy p)) _
              (safe.programs _ (packages (policy.winget ∷ "list" ∷ common be tx policy p) refl n))
              (λ listed. must-Keeps (
                if str_eq (text_at "op" p) "install"
                then is_installed be tx policy p listed.1
                else not (is_installed be tx policy p listed.1))))

    package_change-Keeps : (p : Fields) → Keeps P (package_change be tx policy p)
    unfolding package_change
    package_change-Keeps p = elim (Bool-cases (str_eq policy.winget "")) [
      | inl c ↦ rw c (record { at = λ w h. h })
      | inr c ↦ rw c (change_package-Keeps p (λ e. ground (arith, eq_iff policy.winget "")))
    ]

    power-Keeps :
        (p : Fields)
        → (str_eq (text_at "op" p) "cancel" ≡ false
            → (60 ≤ number_at "delay_seconds" p) × (number_at "delay_seconds" p ≤ 3600))
        → Keeps P (power be tx policy p)
    unfolding power
    power-Keeps p d = elim (Bool-cases (str_eq (text_at "op" p) "cancel")) [
      | inl c ↦ rw c (
          Keeps-bind (run be tx policy (cancel_argv be tx policy)) _ (safe.programs _ cancels)
            (λ r. must-Keeps (exited r.0 1116 || exited r.0 0)))
      | inr c ↦ rw c (
          Keeps-bind
            (run_well be tx policy
              (shutdown_argv be tx policy (text_at "op" p) (number_at "delay_seconds" p)))
            _
            (run_well-Keeps _
              (shuts_down (text_at "op" p) (number_at "delay_seconds" p) (d c).0 (d c).1))
            (λ r. nothing-Keeps tt))
    ]

    task-Keeps : (p : Fields) → Keeps P (task be tx policy p)
    unfolding task run_task
    task-Keeps p = by_argv (lookup (text_at "name" p) policy.tasks) refl
      where
        by_argv :
            (o : Option (List String))
            → lookup (text_at "name" p) policy.tasks ≡ o
            → Keeps P (run_task be tx policy o)
        by_argv none e = record { at = λ w h. h }
        by_argv (some argv) e =
            Keeps-bind (run_well be tx policy argv) _
              (run_well-Keeps argv (runs_task (text_at "name" p) argv e)) (λ r. nothing-Keeps tt)

    within :
        (p : Fields)
        → good_values op_power p ≡ true
        → str_eq (text_at "op" p) "cancel" ≡ false
        → (60 ≤ number_at "delay_seconds" p) × (number_at "delay_seconds" p ≤ 3600)
    unfolding good_values
    within p g c = ground arith

    pub handler-Keeps :
        (op : Op) (p : Fields) → good_values op p ≡ true → Keeps P (handler be tx policy op p)
    unfolding handler
    handler-Keeps op_status p g = record { at = λ w h. h }
    handler-Keeps op_service p g = service-Keeps p
    handler-Keeps op_firewall p g = firewall-Keeps p
    handler-Keeps op_package p g = package_change-Keeps p
    handler-Keeps op_power p g = power-Keeps p (within p g)
    handler-Keeps op_task p g = task-Keeps p

-- An operation that `validate` accepts has good values.
pub checked-good :
    (name : String) (p : Fields) (op : Op) → validate name p ≡ checked op → good_values op p ≡ true
unfolding validate validate_op
checked-good name p op h = by_name (op_named name) h
  where
    by_name : (o : Option Op) → validate_op o p ≡ checked op → good_values op p ≡ true
    by_name none e = cc
    by_name (some q) e =
        elim (Bool-cases (all_known p (keys q) && (all_typed (keys q) p && good_values q p))) [
          | inl c ↦
              let same : q ≡ op = ground arith in
              let good : good_values q p ≡ true = ground arith in
              subst (λ o. good_values o p ≡ true) same good
          | inr c ↦ let bad = rw c at e in cc
        ]
