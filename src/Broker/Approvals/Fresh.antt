-- ===== src/Broker/Approvals/Fresh.antt =====
-- The approval that a claim rests on, field by field.
use mathlib.Core.List.{Memᴰ}
use nova_ai_agent.Prelude.{
  ℕ, ◌+◌, ◌≤◌, ◌≡◌, ◌≢◌, refl, ◌∙◌, String, true, Option, none, some, List, [], ◌∷◌, arith, eq_iff,
}
use nova_ai_agent.Json.{Fields}
use nova_ai_agent.Db.{ApprovalStatus, pending, approved, rejected, expired, used, Approval}
use nova_ai_agent.Permissions.Env.{Env}
use nova_ai_agent.Permissions.Approvals.{fingerprint, has_status}
use nova_ai_agent.Queue.Engine.Require.Gate.{content, fingerprint-content}
use nova_ai_agent.Broker.Texts.{is_number, number_of}
use nova_ai_agent.Broker.Approvals.{
  id_in, of_task, decided, is_recent, is_candidate, accepts, claim,
}
use nova_ai_agent.Broker.Approvals.Single.{IsRemembered, newest_id, claim-Claimed}

-- An owner decided, and at most `max_age` ago.
pub record Decided (max_age now : ℕ) (row : Approval) : Type 0 where
  pub owner : String
  pub decider : row.decided_by ≡ some owner
  pub named : owner ≢ ""
  pub at : ℕ
  pub time : row.decided_at ≡ some at
  pub recent : now ≤ at + max_age

-- A row of Nova's table that was used, for exactly this task, action, target and parameters, decided
-- recently by an owner, and not in the broker's ledger, where it now stands last.
pub record Fresh (env : Env) (max_age now : ℕ) (rows : List Approval)
    (task_id action target : String) (details : Fields) (ledger : List ℕ) (i : ℕ) : Type 0 where
  pub row : Approval
  pub in_table : Memᴰ row rows
  pub same_id : row.id ≡ i
  pub numbered : is_number task_id ≡ true
  pub same_task : row.task_id ≡ some (number_of task_id)
  pub same_action : row.action ≡ action
  pub was_used : row.status ≡ used
  pub same_request : row.fingerprint ≡ env.digest (content action target (some details))
  pub decision : Decided max_age now row
  pub unclaimed : Memᴰ i ledger → ⊥
  pub claimed : IsRemembered i 0 (claim env max_age now rows task_id action target details ledger).1

of_task-same : (o : Option ℕ) (n : ℕ) → of_task o n ≡ true → o ≡ some n
of_task-same none n h = cc
of_task-same (some i) n h = ground arith

has_used : (s : ApprovalStatus) → has_status s used ≡ true → s ≡ used
unfolding has_status
has_used used h = refl
has_used pending h = cc
has_used approved h = cc
has_used rejected h = cc
has_used expired h = cc

Memᴰ-id_in : (i : ℕ) (ledger : List ℕ) → Memᴰ i ledger → id_in i ledger ≡ true
Memᴰ-id_in i [] m = elim m [ ]
Memᴰ-id_in i (x ∷ xs) (Memᴰ.head e) = ground arith
Memᴰ-id_in i (x ∷ xs) (Memᴰ.tail m) = ground (arith, Memᴰ-id_in i xs m)

candidate-same :
    (n : ℕ) (action : String) (a : Approval)
    → is_candidate n action a ≡ true
    → (a.task_id ≡ some n) × (a.action ≡ action) × (a.status ≡ used)
unfolding is_candidate
candidate-same n action a h = (
  of_task-same a.task_id n (ground arith),
  ground (arith, eq_iff a.action action),
  has_used a.status (ground arith),
)

decided-Decided :
    (max_age now : ℕ) (a : Approval) (by : Option String) (at : Option ℕ)
    → a.decided_by ≡ by
    → a.decided_at ≡ at
    → decided by ≡ true
    → is_recent now max_age at ≡ true
    → Decided max_age now a
decided-Decided max_age now a none at e f d r = cc
decided-Decided max_age now a (some owner) none e f d r = cc
decided-Decided max_age now a (some owner) (some at) e f d r = record {
  owner = owner;
  decider = e;
  named = λ k. ground (arith, eq_iff owner "");
  at = at;
  time = f;
  recent = ground arith;
}

module _ (env : Env) (max_age now : ℕ) (rows : List Approval) (task_id action target : String)
    (details : Fields) (ledger : List ℕ) (i : ℕ) where
  pub claim-Fresh :
      (claim env max_age now rows task_id action target details ledger).0 ≡ some i
      → Fresh env max_age now rows task_id action target details ledger i
  unfolding accepts
  claim-Fresh h =
      let c = claim-Claimed env max_age now rows task_id action target details ledger i h in
      let (t, a, s) = candidate-same (number_of task_id) action c.row c.candidate in
      record {
        row = c.row;
        in_table = c.in_table;
        same_id = c.same_id;
        numbered = c.numbered;
        same_task = t;
        same_action = a;
        was_used = s;
        same_request =
            printed c.row c.accepted ∙ fingerprint-content env action target (some details);
        decision =
            decided-Decided max_age now c.row _ _ refl refl (by_owner c.row c.accepted)
              (in_time c.row c.accepted);
        unclaimed = λ m. not_in_ledger c.row c.accepted c.same_id (Memᴰ-id_in i ledger m);
        claimed = rw c.remembered (newest_id i ledger);
      }
    where
      fp : String
      fp = fingerprint env action target (some details)

      printed : (a : Approval) → accepts now max_age fp ledger a ≡ true → a.fingerprint ≡ fp
      printed a k = ground (arith, eq_iff a.fingerprint fp)

      by_owner :
          (a : Approval) → accepts now max_age fp ledger a ≡ true → decided a.decided_by ≡ true
      by_owner a k = ground arith

      in_time :
          (a : Approval)
          → accepts now max_age fp ledger a ≡ true
          → is_recent now max_age a.decided_at ≡ true
      in_time a k = ground arith

      not_in_ledger :
          (a : Approval)
          → accepts now max_age fp ledger a ≡ true
          → a.id ≡ i
          → id_in i ledger ≡ true
          → ⊥
      not_in_ledger a k e m = ground arith
