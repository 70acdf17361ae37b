-- ===== src/Permissions/Decide/Lifecycle/Finding.antt =====
-- What `find` of core/permissions/approvals.py returns.
use nova_ai_agent.Prelude.{
  ℕ, suc, ◌≤◌, ◌≡◌, String, true, some, List, [], ◌∷◌, arith, Bool-cases, inl, inr, eq_iff,
}
use nova_ai_agent.Db.{ApprovalStatus, approved, Approval, Db, find_approval}
use nova_ai_agent.Permissions.Approvals.{usable, first_usable, find}
use nova_ai_agent.Permissions.Decide.{consumable}
use nova_ai_agent.Permissions.Decide.Lifecycle.{IsOrdered}

-- The row is bound to that task and fingerprint.
pub record IsBound (task_id : ℕ) (fp : String) (a : Approval) : Type 0 where
  pub task : a.task_id ≡ some task_id
  pub print : a.fingerprint ≡ fp

usable-IsBound :
    (i : ℕ) (fp : String) (now : ℕ) (a : Approval)
    → usable i fp approved now a ≡ true
    → IsBound i fp a × (consumable now a ≡ true)
unfolding usable consumable
usable-IsBound i fp now a h =
    (record { task = ground arith; print = ground (arith, eq_iff a.fingerprint fp) }, ground arith)

first_usable-above :
    (i : ℕ) (fp : String) (s : ApprovalStatus) (now low : ℕ) (rows : List Approval) (high : ℕ)
    (a : Approval)
    → IsOrdered low rows high
    → first_usable i fp s now rows ≡ some a
    → low ≤ a.id
unfolding first_usable
first_usable-above i fp s now low [] high a h e = cc
first_usable-above i fp s now low (b ∷ rows) high a h e = elim (Bool-cases (usable i fp s now b)) [
  | inl c ↦ let same : b ≡ a = ground arith in ground (arith, h.0)
  | inr c ↦ omega (arith, first_usable-above i fp s now (suc b.id) rows high a h.1 (rw c at e), h.0)
]

first_usable-found :
    (i : ℕ) (fp : String) (s : ApprovalStatus) (now low : ℕ) (rows : List Approval) (high : ℕ)
    (a : Approval)
    → IsOrdered low rows high
    → first_usable i fp s now rows ≡ some a
    → (find_approval a.id rows ≡ some a) × (usable i fp s now a ≡ true)
unfolding first_usable find_approval
first_usable-found i fp s now low [] high a h e = cc
first_usable-found i fp s now low (b ∷ rows) high a h e = elim (Bool-cases (usable i fp s now b)) [
  | inl c ↦ (ground arith, ground arith)
  | inr c ↦
      let later = rw c at e in
      let rest = first_usable-found i fp s now (suc b.id) rows high a h.1 later in
      (
        ground (arith, first_usable-above i fp s now (suc b.id) rows high a h.1 later, rest.0),
        rest.1,
      )
]

-- In a table in the order of its ids, an approved row that is found stands in the table, is bound to
-- the task and the fingerprint, and can be consumed.
pub find-IsBound :
    (i : ℕ) (fp : String) (db : Db) (a : Approval)
    → IsOrdered 0 db.approvals db.next_approval
    → find i fp approved db ≡ some a
    → (find_approval a.id db.approvals ≡ some a) × IsBound i fp a × (consumable db.clock a ≡ true)
unfolding find
find-IsBound i fp db a h e =
    let (f, u) = first_usable-found i fp approved db.clock 0 db.approvals db.next_approval a h e in
    let (b, c) = usable-IsBound i fp db.clock a u in (f, b, c)
