-- ===== src/Db/Rows.antt =====
-- Reading rows after a write.
use mathlib.Core.Path.{subst}
use mathlib.Core.Option.{some-injective}
use nova_ai_agent.Prelude.{
  ℕ, ◌≡◌, Option, none, some, List, [], ◌∷◌, arith, ◌==◌, if◌then◌else◌, All, Bool-cases, inl, inr,
}
use nova_ai_agent.Db.{
  Task, TaskStep, Approval, find_task, put_task, find_step, put_step, find_approval, put_approval,
}

-- What stands at an id after a write: `found` is what stood there before.
abbrev pub written {ℓ} : {A : Type ℓ} → A → Option A → Option A
written r none = none
written r (some old) = some r

pub find_task-put_task :
    (i : ℕ) (r : Task) (ts : List Task)
    → find_task i (put_task r ts)
      ≡ (if r.id == i then written r (find_task i ts) else find_task i ts)
unfolding find_task put_task
find_task-put_task i r [] = ground arith
find_task-put_task i r (t ∷ ts) = ground (arith, find_task-put_task i r ts)

pub find_task-id : (i : ℕ) (ts : List Task) (t : Task) → find_task i ts ≡ some t → t.id ≡ i
unfolding find_task
find_task-id i [] r h = cc
find_task-id i (t ∷ ts) r h = ground (arith, find_task-id i ts r)

pub find_step-put_step :
    (i : ℕ) (r : TaskStep) (ts : List TaskStep)
    → find_step i (put_step r ts)
      ≡ (if r.seq == i then written r (find_step i ts) else find_step i ts)
unfolding find_step put_step
find_step-put_step i r [] = ground arith
find_step-put_step i r (t ∷ ts) = ground (arith, find_step-put_step i r ts)

pub find_step-seq :
    (i : ℕ) (ts : List TaskStep) (t : TaskStep) → find_step i ts ≡ some t → t.seq ≡ i
unfolding find_step
find_step-seq i [] r h = cc
find_step-seq i (t ∷ ts) r h = ground (arith, find_step-seq i ts r)

pub find_approval-put_approval :
    (i : ℕ) (r : Approval) (ts : List Approval)
    → find_approval i (put_approval r ts)
      ≡ (if r.id == i then written r (find_approval i ts) else find_approval i ts)
unfolding find_approval put_approval
find_approval-put_approval i r [] = ground arith
find_approval-put_approval i r (t ∷ ts) = ground (arith, find_approval-put_approval i r ts)

pub find_approval-id :
    (i : ℕ) (ts : List Approval) (t : Approval) → find_approval i ts ≡ some t → t.id ≡ i
unfolding find_approval
find_approval-id i [] r h = cc
find_approval-id i (t ∷ ts) r h = ground (arith, find_approval-id i ts r)

module _ {κ} (P : Task → Type κ) where
  pub find_task-All : (i : ℕ) (ts : List Task) (t : Task) → All P ts → find_task i ts ≡ some t → P t
  unfolding find_task
  find_task-All i [] t h e = cc
  find_task-All i (u ∷ ts) t h e = elim (Bool-cases (u.id == i)) [
    | inl c ↦ subst P (some-injective u t (rw c at e)) h.0
    | inr c ↦ find_task-All i ts t h.1 (rw c at e)
  ]

  pub put_task-All : (r : Task) (ts : List Task) → P r → All P ts → All P (put_task r ts)
  unfolding put_task
  put_task-All r [] h k = tt
  put_task-All r (u ∷ ts) h k = elim (Bool-cases (u.id == r.id)) [
    | inl c ↦ rw c (h, k.1)
    | inr c ↦ rw c (k.0, put_task-All r ts h k.1)
  ]
