-- ===== src/Queue/Store/Recovery.antt =====
-- The recovery after a restart (`recover_after_restart` of core/queue/store.py).
use mathlib.Core.Option.{some-injective}
use nova_ai_agent.Prelude.{
  ◌∙◌, ℕ, suc, ◌≤◌, ◌≡◌, ◌≢◌, refl, sym, Bool, true, false, some, List, [], ◌∷◌, map, arith, All,
  keep, ◌==◌, ==_sound, ==_refl, if◌then◌else◌, Bool-cases, inl, inr,
}
use nova_ai_agent.Exec.{ok}
use nova_ai_agent.Queue.States.{retrying, cancelled, active, can_transition}
use nova_ai_agent.Db.{current, TaskStep, Task, Db, find_task, put_task, get_task, save_task}
use nova_ai_agent.Db.Rows.{find_task-put_task, find_task-id, find_task-All}
use nova_ai_agent.Queue.Store.{list_in, moved, set_fields, transition}
use nova_ai_agent.Queue.Store.Control.{
  interrupted_step, recover_task, recover_all, recover_after_restart,
}
use nova_ai_agent.Queue.Store.Invariant.{IsOrdered, IsTable}
use nova_ai_agent.Queue.Store.Picking.{keep-All}
use nova_ai_agent.Queue.Store.Order.{
  FoundIn, All-imp, All-both, IsOrdered-le, IsOrdered-FoundIn, All-keep, keep-passes,
  keep-IsOrdered,
}

abbrev paused_steps : Task → Task
paused_steps t = record t { steps = map interrupted_step t.steps }

-- What the recovery makes of a row that was at work.
pub recovered_row : ℕ → Task → Task
unfolding moved
recovered_row now t =
    if t.cancel_requested
    then record (moved cancelled now (paused_steps t)) { error_code = some "CANCELLED_BY_USER" }
    else record (moved retrying now (paused_steps t)) { error_code = some "INTERRUPTED_BY_RESTART" }

put_task-put_task :
    (a b : Task) (ts : List Task) → a.id ≡ b.id → put_task b (put_task a ts) ≡ put_task b ts
unfolding put_task
put_task-put_task a b [] e = refl
put_task-put_task a b (t ∷ ts) e = ground (arith, put_task-put_task a b ts)

recover_task-eq :
    (t : Task) (db : Db)
    → FoundIn db.tasks t
    → active t.state ≡ true
    → recover_task t db ≡ (ok (recovered_row db.clock t), save_task (recovered_row db.clock t) db)
unfolding recover_task transition set_fields can_transition active recovered_row
recover_task-eq t db f a = ground (
  arith,
  find_task-put_task t.id (paused_steps t) db.tasks,
  put_task-put_task (paused_steps t) (recovered_row db.clock t) db.tasks,
)

recovered_row-id : (now : ℕ) (t : Task) → (recovered_row now t).id ≡ t.id
unfolding recovered_row
recovered_row-id now t = ground arith

put_all : ℕ → List Task → List Task → List Task
put_all now [] table = table
put_all now (t ∷ ts) table = put_all now ts (put_task (recovered_row now t) table)

find_task-put_row :
    (now j : ℕ) (t : Task) (table : List Task)
    → FoundIn table t
    → find_task j (put_task (recovered_row now t) table)
      ≡ (if t.id == j then some (recovered_row now t) else find_task j table)
find_task-put_row now j t table f = rw find_task-put_task (
    rw (recovered_row-id now t) (elim (Bool-cases (t.id == j)) [
      | inl c ↦ rw c (rw (← ==_sound t.id j c) (rw f))
      | inr c ↦ rw c
    ]))

put_row-FoundIn :
    (now : ℕ) (t u : Task) (table : List Task)
    → FoundIn table t
    → suc t.id ≤ u.id
    → FoundIn table u
    → FoundIn (put_task (recovered_row now t) table) u
put_row-FoundIn now t u table f l g = rw (find_task-put_row now u.id t table f) (ground arith)

-- Rows at work that stand in the table, in the order of their ids.
abbrev Waiting : List Task → List Task → Type 0
Waiting table ts = All (λ t. FoundIn table t × (active t.state ≡ true)) ts

Waiting-put_row :
    (now : ℕ) (t : Task) (ts table : List Task) (high : ℕ)
    → FoundIn table t
    → IsOrdered (suc t.id) ts high
    → Waiting table ts
    → Waiting (put_task (recovered_row now t) table) ts
Waiting-put_row now t ts table high f o w =
    All-imp (λ u. (suc t.id ≤ u.id) × (FoundIn table u × (active u.state ≡ true)))
      (λ u. FoundIn (put_task (recovered_row now t) table) u × (active u.state ≡ true)) ts
      (λ u k. (put_row-FoundIn now t u table f k.0 k.1.0, k.1.1))
      (All-both (λ u. suc t.id ≤ u.id) (λ u. FoundIn table u × (active u.state ≡ true)) ts
        (IsOrdered-le (suc t.id) ts high o) w)

recover_all-eq :
    (low : ℕ) (ts : List Task) (high : ℕ) (db : Db)
    → IsOrdered low ts high
    → Waiting db.tasks ts
    → recover_all ts db
      ≡ (ok (map (recovered_row db.clock) ts), record db { tasks = put_all db.clock ts db.tasks })
unfolding recover_all put_all
recover_all-eq low [] high db o w = refl
recover_all-eq low (t ∷ ts) high db o w = rw (recover_task-eq t db w.0.0 w.0.1) (
    rw (
      recover_all-eq (suc t.id) ts high (save_task (recovered_row db.clock t) db) o.1
        (Waiting-put_row db.clock t ts db.tasks high w.0.0 o.1 w.1)))

put_all-other :
    (now j : ℕ) (low : ℕ) (ts table : List Task) (high : ℕ)
    → IsOrdered low ts high
    → Waiting table ts
    → All (λ t. t.id ≢ j) ts
    → find_task j (put_all now ts table) ≡ find_task j table
unfolding put_all
put_all-other now j low [] table high o w n = refl
put_all-other now j low (t ∷ ts) table high o w n =
    rw
      (put_all-other now j (suc t.id) ts (put_task (recovered_row now t) table) high o.1
        (Waiting-put_row now t ts table high w.0.0 o.1 w.1) n.1)
      (rw (find_task-put_row now j t table w.0.0) (ground (arith, n.0)))

put_all-at :
    (now : ℕ) (low : ℕ) (ts table : List Task) (high : ℕ)
    → IsOrdered low ts high
    → Waiting table ts
    → All (λ t. find_task t.id (put_all now ts table) ≡ some (recovered_row now t)) ts
unfolding put_all
put_all-at now low [] table high o w = tt
put_all-at now low (t ∷ ts) table high o w =
    let w' = Waiting-put_row now t ts table high w.0.0 o.1 w.1 in
    let table' = put_task (recovered_row now t) table in
    let later =
      All-imp (λ u. suc t.id ≤ u.id) (λ u. u.id ≢ t.id) ts (λ u l. omega arith)
        (IsOrdered-le (suc t.id) ts high o.1) in
    (
      rw (put_all-other now t.id (suc t.id) ts table' high o.1 w' later)
          (rw (find_task-put_row now t.id t table w.0.0) (rw ==_refl)),
      put_all-at now (suc t.id) ts table' high o.1 w',
    )

-- No step of the plan is CURRENT.
abbrev pub NoneCurrent : List TaskStep → Type 0
NoneCurrent ss = All (λ s. s.status ≢ current) ss

interrupted_steps-NoneCurrent : (ss : List TaskStep) → NoneCurrent (map interrupted_step ss)
interrupted_steps-NoneCurrent [] = tt
interrupted_steps-NoneCurrent (s ∷ ss) = (ground arith, interrupted_steps-NoneCurrent ss)

-- What the recovery owes to a row that stood in the table.
pub record Recovered (old new : Task) : Type 0 where
  pub untouched : active old.state ≡ false → new ≡ old
  pub restarted :
      active old.state ≡ true → new.state ≡ (if old.cancel_requested then cancelled else retrying)
  pub steps_reset : active old.state ≡ true → NoneCurrent new.steps
  pub not_active : active new.state ≡ false

recovered_row-Recovered :
    (now : ℕ) (t : Task) → active t.state ≡ true → Recovered t (recovered_row now t)
unfolding recovered_row active
recovered_row-Recovered now t a =
    let reset = interrupted_steps-NoneCurrent t.steps in
    record {
      untouched = λ n. cc;
      restarted = λ _. ground arith;
      steps_reset =
          λ _. elim (Bool-cases t.cancel_requested) [ inl c ↦ rw c reset | inr c ↦ rw c reset ];
      not_active = ground arith;
    }

abbrev at_work : Task → Bool
at_work t = active t.state

untouched_row :
    (now i : ℕ) (db : Db) (t : Task)
    → IsTable db
    → Waiting db.tasks (keep at_work db.tasks)
    → get_task db i ≡ some t
    → active t.state ≡ false
    → find_task i (put_all now (keep at_work db.tasks) db.tasks) ≡ some t
untouched_row now i db t h w e n =
    rw
      (put_all-other now i 0 (keep at_work db.tasks) db.tasks db.next_task
        (keep-IsOrdered at_work 0 db.tasks db.next_task h.ordered) w
        (All-imp (λ u. FoundIn db.tasks u × (active u.state ≡ true)) (λ u. u.id ≢ i)
          (keep at_work db.tasks) (λ u k p. differ u k.0 k.1 p) w))
      e
  where
    differ : (u : Task) → FoundIn db.tasks u → active u.state ≡ true → u.id ≡ i → ⊥
    differ u f a p =
        let g : some t ≡ some u = sym e ∙ (rw (← p) f) in
        let same : t ≡ u = some-injective t u g in cc

recovered_at :
    (now i : ℕ) (db : Db) (t : Task)
    → IsTable db
    → Waiting db.tasks (keep at_work db.tasks)
    → get_task db i ≡ some t
    → active t.state ≡ true
    → find_task i (put_all now (keep at_work db.tasks) db.tasks) ≡ some (recovered_row now t)
recovered_at now i db t h w e a =
    let final = put_all now (keep at_work db.tasks) db.tasks in
    let at_ids =
      keep-All at_work (λ u. find_task u.id final ≡ some (recovered_row now u)) db.tasks
        (put_all-at now 0 (keep at_work db.tasks) db.tasks db.next_task
          (keep-IsOrdered at_work 0 db.tasks db.next_task h.ordered) w) in
    rw (← find_task-id i db.tasks t e) (
      find_task-All (λ u. active u.state ≡ true → find_task u.id final ≡ some (recovered_row now u))
        i db.tasks t at_ids e a)

-- From a well-formed table the recovery after a restart does not raise. It returns the rows that
-- were at work: each is CANCELLED if a cancel was requested and RETRYING otherwise, with no step
-- left CURRENT. All other rows stay as they were, so afterwards no task is at work.
pub recover_after_restart-Recovered :
    (db : Db) (i : ℕ) (t : Task)
    → IsTable db
    → get_task db i ≡ some t
    → ((recover_after_restart db).0 ≡ ok (map (recovered_row db.clock) (list_in active db)))
      × ((new : Task) × (get_task (recover_after_restart db).1 i ≡ some new) × Recovered t new)
unfolding recover_after_restart list_in
recover_after_restart-Recovered db i t h p =
    let work = keep at_work db.tasks in
    let o = keep-IsOrdered at_work 0 db.tasks db.next_task h.ordered in
    let found = IsOrdered-FoundIn 0 db.tasks db.next_task h.ordered in
    let w =
      All-both (FoundIn db.tasks) (λ t. active t.state ≡ true) work
        (All-keep at_work (FoundIn db.tasks) db.tasks found) (keep-passes at_work db.tasks) in
    let e = recover_all-eq 0 work db.next_task db o w in
    (
      rw e,
      rw e (elim (Bool-cases (active t.state)) [
        | inl a ↦ (
          recovered_row db.clock t,
          recovered_at db.clock i db t h w p a,
          recovered_row-Recovered db.clock t a,
        )
        | inr n ↦ (
          t,
          untouched_row db.clock i db t h w p n,
          record {
            untouched = λ _. refl;
            restarted = λ a. cc;
            steps_reset = λ a. cc;
            not_active = n;
          },
        )
      ]),
    )
