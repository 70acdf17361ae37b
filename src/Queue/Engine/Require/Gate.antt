-- ===== src/Queue/Engine/Require/Gate.antt =====
-- When `require` of core/queue/engine.py lets an action proceed.
use nova_ai_agent.Prelude.{
  ℕ, ◌<◌, ◌≡◌, ◌≢◌, ◌⊎◌, refl, ◌∙◌, String, Bool, true, false, Option, none, some, List, inl, inr,
  arith,
}
use nova_ai_agent.Exec.{approval_pending, Result, ok, err, raise, proceed}
use nova_ai_agent.Json.{Json, text, obj, Fields, end, field}
use nova_ai_agent.Db.{
  Level, green, blue, yellow, ApprovalStatus, pending, approved, rejected, expired, used, Approval,
  Db, find_approval,
}
use nova_ai_agent.Permissions.Env.{Env}
use nova_ai_agent.Permissions.Audit.{record_audit}
use nova_ai_agent.Permissions.Engine.{level_of, is_lockdown}
use nova_ai_agent.Permissions.Approvals.{fingerprint, has_status, find}
use nova_ai_agent.Permissions.Decide.{consumable, consume}
use nova_ai_agent.Permissions.Decide.Lifecycle.{IsOrdered}
use nova_ai_agent.Permissions.Decide.Lifecycle.Calls.{consume_exactly}
use nova_ai_agent.Permissions.Decide.Lifecycle.Finding.{IsBound, find-IsBound}
use nova_ai_agent.Queue.Engine.Work.{Work, with_db}
use nova_ai_agent.Queue.Engine.Require.{
  SafetyCheck, Ask, ask_owner, after_consume, use_found, need_approval, after_check, check_safety,
}

abbrev pub Ordered : Work → Type 0
Ordered w = IsOrdered 0 w.engine.db.approvals w.engine.db.next_approval

-- What an approval is for: the action, the target and the details, and no other content.
abbrev pub content : (action target : String) → Option Fields → Json
content action target none =
    obj (field "a" (text action) (field "t" (text target) (field "d" (obj end) end)))
content action target (some details) =
    obj (field "a" (text action) (field "t" (text target) (field "d" (obj details) end)))

-- The safety check of a request said that the action is not safe.
pub record Unsafe (a : Ask) (w : Work) : Type 0 where
  pub check : SafetyCheck
  pub given : a.safety_check ≡ some check
  pub why : String
  pub answer : (check w).0 ≡ ok (false, why)

module _ (env : Env) (a : Ask) where
  -- An approved row of these rows, not expired at `now`, for this task and for exactly this action, target
  -- and details, is used afterwards.
  pub record Used (task_id : ℕ) (rows : List Approval) (now : ℕ) (after : Db) : Type 0 where
    pub row : Approval
    pub stood : find_approval row.id rows ≡ some row
    pub of_task : row.task_id ≡ some task_id
    pub of_request : row.fingerprint ≡ env.digest (content a.action a.target a.details)
    pub was_approved : row.status ≡ approved
    pub in_time : now < row.expires_at
    pub spent : find_approval row.id after.approvals ≡ some (record row { status = used })

  -- Why an action may proceed. The approval stood when the action was asked for, or right after the
  -- safety check that the action failed.
  pub data Permitted (w w' : Work) : Type 0 where
    by_green : level_of env a.action ≡ green → Permitted w w'
    by_blue : level_of env a.action ≡ blue → is_lockdown w.engine.db ≡ false → Permitted w w'
    by_check :
        level_of env a.action ≡ yellow
        → is_lockdown w.engine.db ≡ false
        → (check : SafetyCheck) → a.safety_check ≡ some check
        → (why : String) → (check w).0 ≡ ok (true, why)
        → Permitted w w'
    by_approval :
        is_lockdown w.engine.db ≡ false
        → Used w.ctx.task.id w.engine.db.approvals w.engine.db.clock w'.engine.db
        → Permitted w w'
    by_approval_after_check :
        is_lockdown w.engine.db ≡ false
        → (u : Unsafe a w)
        → Used w.ctx.task.id
            (u.check w).1.engine.db.approvals
            (u.check w).1.engine.db.clock
            w'.engine.db
        → Permitted w w'

has_approved : (s : ApprovalStatus) → has_status s approved ≡ true → s ≡ approved
unfolding has_status
has_approved approved h = refl
has_approved pending h = cc
has_approved rejected h = cc
has_approved expired h = cc
has_approved used h = cc

pub fingerprint-content :
    (env : Env) (action target : String) (details : Option Fields)
    → fingerprint env action target details ≡ env.digest (content action target details)
unfolding fingerprint
fingerprint-content env action target none = refl
fingerprint-content env action target (some details) = refl

module _ (env : Env) (a : Ask) (tid : ℕ) where
  ask_owner_raises :
      (level : Level) (summary : String) (w : Work)
      → (ask_owner env a tid level summary w).0 ≢ ok tt
  unfolding ask_owner
  ask_owner_raises level summary w = by_result _ _
    where
      by_result :
          (r : Result Approval) (w : Work)
          → (proceed r (λ req. raise {A = Unit} (approval_pending req.id)) w).0 ≢ ok tt
      by_result (ok req) w = λ p. cc
      by_result (err e) w = λ p. cc

  after_consume-Used :
      (level : Level) (summary : String) (found : Approval) (before : Db) (w : Work) (b : Bool)
      → w.engine.db ≡ (consume found.id before).1
      → (consume found.id before).0 ≡ b
      → find_approval found.id before.approvals ≡ some found
      → IsBound tid (fingerprint env a.action a.target a.details) found
      → consumable before.clock found ≡ true
      → (after_consume env a tid level summary b w).0 ≡ ok tt
      → Used env a tid before.approvals before.clock
          (after_consume env a tid level summary b w).1.engine.db
  unfolding after_consume record_audit consumable
  after_consume-Used level summary found before w true s c f b k e = record {
    row = found;
    stood = f;
    of_task = b.task;
    of_request = b.print ∙ fingerprint-content env a.action a.target a.details;
    was_approved = has_approved found.status (ground arith);
    in_time = ground arith;
    spent = rw s ((consume_exactly found.id before found f).1 k);
  }
  after_consume-Used level summary found before w false s c f b k e =
      absurd (ask_owner_raises level summary w e)

  use_found-Used :
      (level : Level) (summary : String) (o : Option Approval) (w : Work)
      → Ordered w
      → find tid (fingerprint env a.action a.target a.details) approved w.engine.db ≡ o
      → (use_found env a tid level summary o w).0 ≡ ok tt
      → Used env a tid w.engine.db.approvals w.engine.db.clock
          (use_found env a tid level summary o w).1.engine.db
  unfolding use_found
  use_found-Used level summary none w h e k = absurd (ask_owner_raises level summary w k)
  use_found-Used level summary (some found) w h e k =
      let (f, b, c) =
        find-IsBound tid (fingerprint env a.action a.target a.details) w.engine.db found h e in
      after_consume-Used level summary found w.engine.db
        (with_db (consume found.id w.engine.db).1 w) (consume found.id w.engine.db).0 refl refl f b
        c k

  pub need_approval-Used :
      (level : Level) (summary : String) (w : Work)
      → Ordered w
      → (need_approval env a tid level summary w).0 ≡ ok tt
      → Used env a tid w.engine.db.approvals w.engine.db.clock
          (need_approval env a tid level summary w).1.engine.db
  unfolding need_approval
  need_approval-Used level summary w h k = use_found-Used level summary _ w h refl k

  abbrev UsedAt : Work → Work → Type 0
  UsedAt w w' = Used env a tid w.engine.db.approvals w.engine.db.clock w'.engine.db

  -- What a safety check and then an approval may have settled.
  abbrev pub Settled : Option SafetyCheck → Work → Work → Type 0
  Settled none w w' = UsedAt w w'
  Settled (some check) w w' =
      ((why : String) × ((check w).0 ≡ ok (true, why)))
      ⊎ ((why : String) × ((check w).0 ≡ ok (false, why)) × UsedAt (check w).1 w')

  after_check-Settled :
      (level : Level) (check : SafetyCheck) (w w₁ : Work) (r : Result (Bool × String))
      → (check w).0 ≡ r
      → (check w).1 ≡ w₁
      → Ordered w₁
      → (proceed r (after_check env a tid level) w₁).0 ≡ ok tt
      → Settled (some check) w (proceed r (after_check env a tid level) w₁).1
  unfolding after_check record_audit
  after_check-Settled level check w w₁ (ok (true, why)) e s o k = inl (why, e)
  after_check-Settled level check w w₁ (ok (false, why)) e s o k =
      inr (why, e, rw s (need_approval-Used level _ _ o k))
  after_check-Settled level check w w₁ (err x) e s o k = cc

  pub check_safety-Settled :
      (level : Level) (c : Option SafetyCheck) (w : Work)
      → ((check : SafetyCheck) → c ≡ some check → Ordered (check w).1)
      → Ordered w
      → (check_safety env a tid level c w).0 ≡ ok tt
      → Settled c w (check_safety env a tid level c w).1
  unfolding check_safety
  check_safety-Settled level none w keeps o k = need_approval-Used level _ w o k
  check_safety-Settled level (some check) w keeps o k =
      after_check-Settled level check w (check w).1 (check w).0 refl refl (keeps check refl) k
