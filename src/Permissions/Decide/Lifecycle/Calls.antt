-- ===== src/Permissions/Decide/Lifecycle/Calls.antt =====
-- The table of approvals through the calls of core/permissions/approvals.py, one write for each.
use mathlib.Core.Path.{subst}
use nova_ai_agent.Prelude.{
  ℕ, ◌+◌, ◌≡◌, refl, sym, ◌∙◌, ap, String, Bool, true, false, Option, none, some, List, [], ◌∷◌,
  map, arith, Bool-cases, inl, inr, keep,
}
use nova_ai_agent.Json.{Fields}
use nova_ai_agent.Exec.{modify}
use nova_ai_agent.Exec.Keeps.{Keeps, Keeps-bind, bind_pure_state}
use nova_ai_agent.Queue.States.{is_waiting_approval}
use nova_ai_agent.Db.{
  Level, ApprovalStatus, used, Approval, Notice, Task, Db, find_approval, get_task,
}
use nova_ai_agent.Db.Rows.{find_approval-id, find_approval-put_approval}
use nova_ai_agent.Permissions.Env.{Env}
use nova_ai_agent.Permissions.Audit.{record_audit}
use nova_ai_agent.Permissions.Approvals.{
  DecisionOutcome, was_expired, request, request_unless, request_new, by_nonce, requested_row, send,
  save_approval,
}
use nova_ai_agent.Permissions.Decide.{
  release_after, release_task, decide_row, decide, decided_row, outcome_of, audit_decision, consume,
  consume_row, consumable, audit_expiry, expire_due, expire_each, expire_effects, expire_task,
  expire_row, is_due,
}
use nova_ai_agent.Permissions.Decide.Release.{release_task_frame}
use nova_ai_agent.Permissions.Decide.Lifecycle.{
  reaches, Evolves, Evolves-refl, Evolves-trans, IsOrdered, Writes, nothing, added, changed,
  expired_at, Writes-Evolves, Writes-IsOrdered, by_nonce-find,
}

-- The table of approvals of two databases, as one write apart.
abbrev pub OneWrite : Db → Db → Type 0
OneWrite a b = Writes a.approvals a.next_approval b.approvals b.next_approval

-- The table of approvals as it was.
record SameRows (rows : List Approval) (next : ℕ) (db : Db) : Type 0 where
  rows_same : db.approvals ≡ rows
  next_same : db.next_approval ≡ next

SameRows-OneWrite : (a b : Db) → SameRows a.approvals a.next_approval b → OneWrite a b
SameRows-OneWrite a b h = rw (h.rows_same, h.next_same) nothing

send-Writes :
    (env : Env) (n : Notice) (db : Db) {rows : List Approval} {next : ℕ}
    → Writes rows next db.approvals db.next_approval
    → Writes rows next (send env n db).approvals (send env n db).next_approval
send-Writes env n db h = elim (Bool-cases env.has_notifier) [ inl c ↦ rw c h | inr c ↦ rw c h ]

request_unless-Writes :
    (env : Env) (i : ℕ) (chat_id : String) (o : Option Approval) (a : Approval) (db : Db)
    → a.id ≡ db.next_approval
    → OneWrite db (request_unless env i chat_id o a db).1
unfolding request request_unless record_audit
request_unless-Writes env i chat_id (some e) a db h = nothing
request_unless-Writes env i chat_id none a db h = by_nonces (by_nonce a.nonce db.approvals)
  where
    by_nonces : (o : Option Approval) → OneWrite db (request_new env i chat_id o a db).1
    by_nonces (some taken) = nothing
    by_nonces none = send-Writes env _ _ (added a h)

request-Writes :
    (env : Env) (i : ℕ) (chat_id : String) (level : Level) (action target summary nonce : String)
    (details : Option Fields) (db : Db)
    → OneWrite db (request env i chat_id level action target summary nonce details db).1
unfolding request
request-Writes env i chat_id level action target summary nonce details db =
    request_unless-Writes env i chat_id _
      (requested_row env i level action target summary nonce details db) db refl

module _ (rows : List Approval) (next : ℕ) where
  release_task-SameRows :
      (i : ℕ) (o : DecisionOutcome) → Keeps (SameRows rows next) (release_task i o)
  release_task-SameRows i o = record {
    at = λ s h. record {
      rows_same = ap (λ (d : Db). d.approvals) (release_task_frame i o s) ∙ h.rows_same;
      next_same = ap (λ (d : Db). d.next_approval) (release_task_frame i o s) ∙ h.next_same;
    };
  }

  release_after-SameRows :
      (i : Option ℕ) (o : DecisionOutcome) → Keeps (SameRows rows next) (release_after i o)
  unfolding release_after
  release_after-SameRows none o = record { at = λ s h. h }
  release_after-SameRows (some i) o = record {
    at = λ s h. ground (arith, (release_task-SameRows i o).at s h);
  }

  send-SameRows : (env : Env) (n : Notice) → Keeps (SameRows rows next) (modify (send env n))
  send-SameRows env n = record { at = λ s h. ground arith }

  expire_task-SameRows :
      (env : Env) (i : ℕ) (o : Option Task) → Keeps (SameRows rows next) (expire_task env i o)
  unfolding expire_task
  expire_task-SameRows env i none = record { at = λ s h. h }
  expire_task-SameRows env i (some t) = record {
    at = λ s h. elim (Bool-cases (is_waiting_approval t.state)) [
      | inl c ↦ rw c (
          (Keeps-bind (release_task i was_expired) (λ _. modify (send env _))
              (release_task-SameRows i was_expired) (λ _. send-SameRows env _)).at
            s h)
      | inr c ↦ rw c h
    ];
  }

  expire_effects-SameRows :
      (env : Env) (a : Approval) (i : Option ℕ)
      → Keeps (SameRows rows next) (expire_effects env a i)
  unfolding expire_effects
  expire_effects-SameRows env a none = record { at = λ s h. h }
  expire_effects-SameRows env a (some i) = record {
    at = λ s h. (expire_task-SameRows env i (get_task s i)).at s h;
  }

  expire_each-SameRows :
      (env : Env) (due : List Approval) → Keeps (SameRows rows next) (expire_each env due)
  unfolding expire_each record_audit
  expire_each-SameRows env [] = record { at = λ s h. h }
  expire_each-SameRows env (a ∷ due) = record {
    at = λ s h.
        (Keeps-bind (expire_effects env a a.task_id) (λ _. expire_each env due)
            (expire_effects-SameRows env a a.task_id) (λ _. expire_each-SameRows env due)).at
          (audit_expiry env a s) (record { rows_same = h.rows_same; next_same = h.next_same });
  }

decided_row-Evolves :
    (env : Env) (a : Approval) (approve : Bool) (now : ℕ) (by : String)
    → Evolves a (decided_row env (outcome_of a approve now) now by a)
unfolding decided_row outcome_of
decided_row-Evolves env a approve now by = ground arith

decided_row-id :
    (env : Env) (o : DecisionOutcome) (now : ℕ) (by : String) (a : Approval)
    → (decided_row env o now by a).id ≡ a.id
unfolding decided_row
decided_row-id env o now by a = ground arith

decide_row-Writes :
    (env : Env) (n : String) (o : Option Approval) (approve : Bool) (by : String) (db : Db)
    → IsOrdered 0 db.approvals db.next_approval
    → by_nonce n db.approvals ≡ o
    → OneWrite db (decide_row env o approve by db).1
unfolding decide_row record_audit audit_decision
decide_row-Writes env n none approve by db h e = nothing
decide_row-Writes env n (some a) approve by db h e =
    let outcome = outcome_of a approve db.clock in
    let new = decided_row env outcome db.clock by a in
    let saved = audit_decision env a outcome by (save_approval new db) in
    let end = release_after-SameRows saved.approvals saved.next_approval a.task_id outcome in
    let write : OneWrite db saved =
      changed a new (by_nonce-find n 0 db.approvals db.next_approval a h e)
        (decided_row-Evolves env a approve db.clock by) in
    let same = end.at saved (record { rows_same = refl; next_same = refl }) in
    subst (OneWrite db) (sym (bind_pure_state (release_after a.task_id outcome) outcome saved))
      (rw (same.rows_same, same.next_same) write)

consumable-Evolves :
    (now : ℕ) (a : Approval) → consumable now a ≡ true → Evolves a (record a { status = used })
unfolding consumable
consumable-Evolves now a h = ground arith

consume_row-Writes :
    (i : ℕ) (o : Option Approval) (db : Db)
    → find_approval i db.approvals ≡ o
    → OneWrite db (consume_row o db).1
unfolding consume_row
consume_row-Writes i none db e = nothing
consume_row-Writes i (some a) db e = elim (Bool-cases (consumable db.clock a)) [
  | inl c ↦ rw c (
      changed a (record a { status = used })
        (subst (λ j. find_approval j db.approvals ≡ some a)
          (sym (find_approval-id i db.approvals a e)) e)
        (consumable-Evolves db.clock a c))
  | inr c ↦ rw c nothing
]

expire_due-Writes : (env : Env) (db : Db) → OneWrite db (expire_due env db).1
unfolding expire_due
expire_due-Writes env db =
    let marked = record db { approvals = map (expire_row db.clock) db.approvals } in
    let due = map (expire_row db.clock) (keep (is_due db.clock) db.approvals) in
    let same =
      (expire_each-SameRows marked.approvals marked.next_approval env due).at marked
        (record { rows_same = refl; next_same = refl }) in
    subst (OneWrite db) (sym (bind_pure_state (expire_each env due) due marked))
      (rw (same.rows_same, same.next_same) (expired_at db.clock))

-- One call of the approval manager, or time that passes.
pub data Call : Type 0 where
  ask :
      (task_id : ℕ) (chat_id : String) (level : Level) (action target summary nonce : String)
      → Option Fields
      → Call
  answer : (nonce : String) (approve : Bool) (by : String) → Call
  use_once : (approval_id : ℕ) → Call
  expire : Call
  time_passes : ℕ → Call

unfoldable pub perform : Env → Call → Db → Db
perform env (ask i chat_id level action target summary nonce details) db =
    (request env i chat_id level action target summary nonce details db).1
perform env (answer nonce approve by) db = (decide env nonce approve by db).1
perform env (use_once i) db = (consume i db).1
perform env expire db = (expire_due env db).1
perform env (time_passes n) db = record db { clock = db.clock + n }

unfoldable pub perform_all : Env → List Call → Db → Db
unfolding perform
perform_all env [] db = db
perform_all env (c ∷ cs) db = perform_all env cs (perform env c db)

perform-OneWrite :
    (env : Env) (c : Call) (db : Db)
    → IsOrdered 0 db.approvals db.next_approval
    → OneWrite db (perform env c db)
unfolding perform decide consume
perform-OneWrite env (ask i chat_id level action target summary nonce details) db h =
    request-Writes env i chat_id level action target summary nonce details db
perform-OneWrite env (answer nonce approve by) db h =
    decide_row-Writes env nonce (by_nonce nonce db.approvals) approve by db h refl
perform-OneWrite env (use_once i) db h = consume_row-Writes i (find_approval i db.approvals) db refl
perform-OneWrite env expire db h = expire_due-Writes env db
perform-OneWrite env (time_passes n) db h = nothing

-- In a table in the order of its ids, whatever calls are made, a request that stands in it keeps its
-- task, action, target, level, fingerprint and nonce, and its status only goes forward: from PENDING
-- to any other, from APPROVED to USED or EXPIRED, and nowhere from REJECTED, EXPIRED and USED.
pub perform_all-Evolves :
    (env : Env) (cs : List Call) (i : ℕ) (db : Db) (a : Approval)
    → IsOrdered 0 db.approvals db.next_approval
    → find_approval i db.approvals ≡ some a
    → (b : Approval) × (find_approval i (perform_all env cs db).approvals ≡ some b) × Evolves a b
unfolding perform_all
perform_all-Evolves env [] i db a h f = (a, f, Evolves-refl a)
perform_all-Evolves env (c ∷ cs) i db a h f =
    let w = perform-OneWrite env c db h in
    let (b, g, v) = Writes-Evolves i a w f in
    let (d, k, u) = perform_all-Evolves env cs i (perform env c db) b (Writes-IsOrdered w h) g in
    (d, k, Evolves-trans a b d v u)

-- `consume` succeeds exactly on an APPROVED row that has not expired, which is USED afterwards.
pub consume_exactly :
    (i : ℕ) (db : Db) (a : Approval)
    → find_approval i db.approvals ≡ some a
    → ((consume i db).0 ≡ consumable db.clock a)
      × (consumable db.clock a ≡ true
          → find_approval i (consume i db).1.approvals ≡ some (record a { status = used }))
unfolding consume
consume_exactly i db a f =
    let at_i = find_approval-id i db.approvals a f in
    (
      ground arith,
      λ c. ground (arith, find_approval-put_approval i (record a { status = used }) db.approvals),
    )

used_refused :
    (i : ℕ) (db : Db) (a : Approval)
    → find_approval i db.approvals ≡ some a
    → a.status ≡ used
    → (consume i db).0 ≡ false
unfolding consume consumable
used_refused i db a f u = ground arith

used_stays : (s : ApprovalStatus) → reaches used s ≡ true → s ≡ used
used_stays s h = ground arith

consumed_row :
    (i : ℕ) (db : Db) (o : Option Approval)
    → find_approval i db.approvals ≡ o
    → (consume_row o db).0 ≡ true
    → (a : Approval) × (o ≡ some a) × (consumable db.clock a ≡ true)
unfolding consume_row
consumed_row i db none f e = cc
consumed_row i db (some a) f e = (a, refl, ground arith)

-- In a table in the order of its ids, an approval that was consumed once is refused by `consume` ever
-- after, whatever calls come in between.
pub consume_once :
    (env : Env) (cs : List Call) (i : ℕ) (db : Db)
    → IsOrdered 0 db.approvals db.next_approval
    → (consume i db).0 ≡ true
    → (consume i (perform_all env cs (consume i db).1)).0 ≡ false
unfolding consume
consume_once env cs i db h e =
    let (a, f, c) = consumed_row i db (find_approval i db.approvals) refl e in
    let o = Writes-IsOrdered (consume_row-Writes i (find_approval i db.approvals) db refl) h in
    let (b, g, v) =
      perform_all-Evolves env cs i (consume i db).1 (record a { status = used }) o
        ((consume_exactly i db a f).1 c) in
    used_refused i (perform_all env cs (consume i db).1) b g (used_stays b.status v.status)
