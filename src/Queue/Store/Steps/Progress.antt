-- ===== src/Queue/Store/Steps/Progress.antt =====
-- The steps of a plan through its writes (core/queue/store.py).
use nova_ai_agent.Prelude.{
  ℕ, suc, ◌≤◌, ◌≡◌, refl, ap, String, Option, none, some, List, [], ◌∷◌, map, arith, All, ◌==◌,
  if◌then◌else◌, cut, chars, chars-cut,
}
use nova_ai_agent.Json.{Fields}
use nova_ai_agent.Exec.{ok}
use nova_ai_agent.Db.{pending, done, TaskStep, Task, Db, get_task, find_step, put_step}
use nova_ai_agent.Db.Rows.{find_task-put_task, find_task-id, find_step-put_step, find_step-seq}
use nova_ai_agent.Queue.Store.Steps.{
  planned, ensure_plan, update_step, complete_step, completed_with,
}

-- The numbers `n`, `n + 1`, …, as many as there are titles.
abbrev pub numbers : ℕ → List String → List ℕ
numbers n [] = []
numbers n (t ∷ ts) = n ∷ numbers (suc n) ts

abbrev pub IsFresh : TaskStep → Type 0
IsFresh s = (s.status ≡ pending) × (s.checkpoint ≡ none) × (chars s.title ≤ 200)

planned-numbers : (n : ℕ) (ts : List String) → map (λ s. s.seq) (planned n ts) ≡ numbers n ts
unfolding planned
planned-numbers n [] = refl
planned-numbers n (t ∷ ts) = ap (λ l. n ∷ l) (planned-numbers (suc n) ts)

planned-IsFresh : (n : ℕ) (ts : List String) → All IsFresh (planned n ts)
unfolding planned
planned-IsFresh n [] = tt
planned-IsFresh n (t ∷ ts) = ((refl, refl, chars-cut 200 t), planned-IsFresh (suc n) ts)

planned-titles : (n : ℕ) (ts : List String) → map (λ s. s.title) (planned n ts) ≡ map (cut 200) ts
unfolding planned
planned-titles n [] = refl
planned-titles n (t ∷ ts) = ap (λ l. cut 200 t ∷ l) (planned-titles (suc n) ts)

-- Planning a task that has no steps, with one title or more, gives one pending step for each title, in
-- their order, numbered from 1, with the title cut at 200 characters and no checkpoint. The task's row
-- keeps the steps, and no other column or row changes: planning it again, with whatever titles, gives
-- the same steps.
pub ensure_plan_saved :
    (i : ℕ) (title : String) (titles : List String) (db : Db) (t : Task)
    → get_task db i ≡ some t
    → t.steps ≡ []
    → (ss : List TaskStep) × ((ensure_plan i (title ∷ titles) db).0 ≡ ok ss)
      × (map (λ s. s.seq) ss ≡ numbers 1 (title ∷ titles))
      × (map (λ s. s.title) ss ≡ map (cut 200) (title ∷ titles))
      × All IsFresh ss
      × ((j : ℕ)
          → get_task (ensure_plan i (title ∷ titles) db).1 j
            ≡ (if i == j then some (record t { steps = ss }) else get_task db j))
      × ((others : List String)
          → (ensure_plan i others (ensure_plan i (title ∷ titles) db).1).0 ≡ ok ss)
unfolding ensure_plan
ensure_plan_saved i title titles db t e n =
    let ss = planned 1 (title ∷ titles) in
    let saved = record t { steps = ss } in
    let row = find_task-id i db.tasks t e in
    (
      ss,
      ground arith,
      planned-numbers 1 (title ∷ titles),
      planned-titles 1 (title ∷ titles),
      planned-IsFresh 1 (title ∷ titles),
      λ j. ground (arith, find_task-put_task j saved db.tasks),
      λ others. ground (arith, find_task-put_task i saved db.tasks),
    )

-- A plan that has steps is kept: planning the task again, with other titles, returns its steps and
-- changes no row.
pub ensure_plan_kept :
    (i : ℕ) (titles : List String) (db : Db) (t : Task) (s : TaskStep) (ss : List TaskStep)
    → get_task db i ≡ some t
    → t.steps ≡ s ∷ ss
    → ((ensure_plan i titles db).0 ≡ ok (s ∷ ss))
      × ((j : ℕ) → get_task (ensure_plan i titles db).1 j ≡ get_task db j)
unfolding ensure_plan
ensure_plan_kept i titles db t s ss e n = (
  ground arith,
  λ j. ground (arith, find_task-put_task j t db.tasks, find_task-id i db.tasks t e),
)

-- A write to one step changes that step only, in its task only.
pub update_step_rows :
    (i q : ℕ) (change : TaskStep → TaskStep) (db : Db) (t : Task) (s : TaskStep)
    → get_task db i ≡ some t
    → find_step q t.steps ≡ some s
    → (change s).seq ≡ s.seq
    → (new : Task) × ((update_step i q change db).0 ≡ ok tt)
      × ((j : ℕ)
          → get_task (update_step i q change db).1 j ≡ (if i == j then some new else get_task db j))
      × ((r : ℕ)
          → find_step r new.steps ≡ (if q == r then some (change s) else find_step r t.steps))
      × (new ≡ record t { steps = new.steps })
unfolding update_step
update_step_rows i q change db t s e f k =
    let new = record t { steps = put_step (change s) t.steps } in
    let row = find_task-id i db.tasks t e in
    let step = find_step-seq q t.steps s f in
    (
      new,
      ground arith,
      λ j. ground (arith, find_task-put_task j new db.tasks),
      λ r. ground (arith, find_step-put_step r (change s) t.steps),
      refl,
    )

-- Completing a step that the task has returns, and the step is DONE with exactly the checkpoint that
-- was given. The task's other columns and steps, and all other tasks, stay as they were.
pub complete_step_done :
    (i q : ℕ) (checkpoint : Option Fields) (db : Db) (t : Task) (s : TaskStep)
    → get_task db i ≡ some t
    → find_step q t.steps ≡ some s
    → (new : Task) × (s' : TaskStep) × ((complete_step i q checkpoint db).0 ≡ ok tt)
      × (s'.status ≡ done)
      × (s'.checkpoint ≡ checkpoint)
      × ((j : ℕ)
          → get_task (complete_step i q checkpoint db).1 j
            ≡ (if i == j then some new else get_task db j))
      × ((r : ℕ) → find_step r new.steps ≡ (if q == r then some s' else find_step r t.steps))
      × (new ≡ record t { steps = new.steps })
unfolding complete_step
complete_step_done i q checkpoint db t s e f =
    let (new, run, rows, steps, rest) =
      update_step_rows i q (completed_with db.clock checkpoint) db t s e f refl in
    (new, completed_with db.clock checkpoint s, run, refl, refl, rows, steps, rest)
