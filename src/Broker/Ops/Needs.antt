-- ===== src/Broker/Ops/Needs.antt =====
-- Which operations of the broker need the owner's approval, and for what.
use nova_ai_agent.Prelude.{
  ◌≡◌, ◌≢◌, String, Bool, true, false, ◌||◌, Option, none, some, arith, str_eq, eq_iff, Bool-cases,
  inl, inr, if◌then◌else◌,
}
use nova_ai_agent.Json.{Fields}
use nova_ai_agent.Permissions.Approvals.{text_in}
use nova_ai_agent.Broker.Ops.{
  Op, op_status, op_service, op_firewall, op_package, op_power, op_task, text_at, good_values,
  required_action,
}

-- The permission action that an operation needs an approval for. What needs none is the state of the
-- broker or of a service, the list of rules, and to cancel a restart or a shutdown.
pub data Needs (params : Fields) : Op → Option String → Type 0 where
  status : Needs params op_status none
  service_query : text_at "op" params ≡ "query" → Needs params op_service none
  service_change :
      text_at "op" params ≢ "query" → Needs params op_service (some "admin.service_control")
  firewall_list : text_at "op" params ≡ "list" → Needs params op_firewall none
  firewall_change : text_at "op" params ≢ "list" → Needs params op_firewall (some "admin.firewall")
  package_install :
      text_at "op" params ≡ "install" → Needs params op_package (some "admin.package_install")
  package_uninstall :
      text_at "op" params ≡ "uninstall" → Needs params op_package (some "admin.package_uninstall")
  power_restart : text_at "op" params ≡ "restart" → Needs params op_power (some "system.restart")
  power_shutdown : text_at "op" params ≡ "shutdown" → Needs params op_power (some "system.shutdown")
  power_cancel : text_at "op" params ≡ "cancel" → Needs params op_power none
  own_task : Needs params op_task (some "admin.task")

not_both :
    (params : Fields)
    → good_values op_package params ≡ true
    → text_at "op" params ≢ "install"
    → text_at "op" params ≢ "uninstall"
    → ⊥
unfolding good_values text_in
not_both params g n m = by_words _ n m (ground arith)
  where
    by_words :
        (s : String)
        → s ≢ "install"
        → s ≢ "uninstall"
        → (str_eq "install" s || (str_eq "uninstall" s || false)) ≡ true
        → ⊥
    by_words s n m h = ground (arith, eq_iff "install" s, eq_iff "uninstall" s)

cancelled :
    (params : Fields)
    → good_values op_power params ≡ true
    → text_at "op" params ≢ "restart"
    → text_at "op" params ≢ "shutdown"
    → text_at "op" params ≡ "cancel"
unfolding good_values text_in
cancelled params g n m = by_words _ n m (ground arith)
  where
    by_words :
        (s : String)
        → s ≢ "restart"
        → s ≢ "shutdown"
        → (str_eq "restart" s || (str_eq "shutdown" s || (str_eq "cancel" s || false))) ≡ true
        → s ≡ "cancel"
    by_words s n m h = ground (arith, eq_iff "restart" s, eq_iff "shutdown" s, eq_iff "cancel" s)

module _ (params : Fields) where
  by_text :
      (key : String) (P : Bool → Type 0)
      → (text_at "op" params ≡ key → P true)
      → (text_at "op" params ≢ key → P false)
      → P (str_eq (text_at "op" params) key)
  by_text key P h k = elim (Bool-cases (str_eq (text_at "op" params) key)) [
    | inl c ↦ rw c (h (ground (arith, eq_iff (text_at "op" params) key)))
    | inr c ↦ rw c (k (λ e. ground (arith, eq_iff (text_at "op" params) key)))
  ]

  pub required_action-Needs :
      (op : Op) → good_values op params ≡ true → Needs params op (required_action op params)
  unfolding required_action good_values text_in
  required_action-Needs op_status g = status
  required_action-Needs op_service g =
      by_text "query"
        (λ b. Needs params op_service (if b then none else some "admin.service_control"))
        service_query service_change
  required_action-Needs op_firewall g =
      by_text "list" (λ b. Needs params op_firewall (if b then none else some "admin.firewall"))
        firewall_list firewall_change
  required_action-Needs op_package g =
      by_text "install"
        (λ b. Needs params op_package (
          if b
          then some "admin.package_install"
          else if str_eq (text_at "op" params) "uninstall"
          then some "admin.package_uninstall"
          else some "?"))
        package_install
        (λ n.
          by_text "uninstall"
            (λ b. Needs params op_package (if b then some "admin.package_uninstall" else some "?"))
            package_uninstall (λ m. absurd (not_both params g n m)))
  required_action-Needs op_power g =
      by_text "restart"
        (λ b. Needs params op_power (
          if b
          then some "system.restart"
          else if str_eq (text_at "op" params) "shutdown"
          then some "system.shutdown"
          else none))
        power_restart
        (λ n.
          by_text "shutdown"
            (λ b. Needs params op_power (if b then some "system.shutdown" else none)) power_shutdown
            (λ m. power_cancel (cancelled params g n m)))
  required_action-Needs op_task g = own_task
