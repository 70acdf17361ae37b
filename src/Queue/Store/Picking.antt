-- ===== src/Queue/Store/Picking.antt =====
-- Which task the dispatcher gets from `next_runnable` of core/queue/store.py.
use mathlib.Core.Path.{subst}
use mathlib.Core.List.{Memᴰ, cons≢nil}
use nova_ai_agent.Prelude.{
  ℕ, ◌<◌, ◌≤◌, ◌≡◌, ◌⊎◌, refl, sym, String, Bool, true, false, Option, none, some, List, [], ◌∷◌,
  arith, All, keep, keep-mem, Bool-cases, Option-cases, inl, inr, str_eq, eq_iff, leb, ◌&&◌,
}
use nova_ai_agent.Queue.States.{TaskState, received, retrying, runnable, is_received}
use nova_ai_agent.Db.{Task, Db}
use nova_ai_agent.Queue.Store.{
  str_mem, eligible, comes_before, first_of_two, first_by_order, next_runnable,
}

-- A higher priority goes first; of equal priorities, the older task.
abbrev pub Before : Task → Task → Type 0
Before a b = (b.priority < a.priority) ⊎ ((a.priority ≡ b.priority) × (a.id ≤ b.id))

comes_before-Before : (a b : Task) → comes_before a b ≡ true → Before a b
unfolding comes_before
comes_before-Before a b h = ground arith

not_comes_before-Before : (a b : Task) → comes_before a b ≡ false → Before b a
unfolding comes_before
not_comes_before-Before a b h = ground arith

Before-trans : (a b c : Task) → Before a b → Before b c → Before a c
Before-trans a b c h k = ground arith

All-Before-trans :
    (a b : Task) (ts : List Task) → Before a b → All (Before b) ts → All (Before a) ts
All-Before-trans a b [] h k = tt
All-Before-trans a b (t ∷ ts) h k = (Before-trans a b t h k.0, All-Before-trans a b ts h k.1)

first_by_order-none : (ts : List Task) → first_by_order ts ≡ none → ts ≡ []
unfolding first_by_order first_of_two
first_by_order-none [] h = refl
first_by_order-none (t ∷ ts) h = ground arith

first_of_two-All :
    (u : Task) (o : Option Task) (ts : List Task) (t : Task)
    → first_by_order ts ≡ o
    → first_of_two u o ≡ some t
    → ((v : Task) → o ≡ some v → All (Before v) ts)
    → Before t u × All (Before t) ts
unfolding first_of_two
first_of_two-All u none ts t e h k =
    (ground arith, subst (All (Before t)) (sym (first_by_order-none ts e)) tt)
first_of_two-All u (some v) ts t e h k = elim (Bool-cases (comes_before u v)) [
  | inl c ↦
      let same : u ≡ t = ground arith in
      let first = All-Before-trans u v ts (comes_before-Before u v c) (k v refl) in
      (ground arith, subst (λ x. All (Before x) ts) same first)
  | inr c ↦
      let same : v ≡ t = ground arith in
      (rw (← same) (not_comes_before-Before u v c), subst (λ x. All (Before x) ts) same (k v refl))
]

first_by_order-All : (ts : List Task) (t : Task) → first_by_order ts ≡ some t → All (Before t) ts
unfolding first_by_order
first_by_order-All [] t h = tt
first_by_order-All (u ∷ ts) t h =
    first_of_two-All u (first_by_order ts) ts t refl h (λ v e. first_by_order-All ts v e)

first_by_order-mem : (ts : List Task) (t : Task) → first_by_order ts ≡ some t → Memᴰ t ts
unfolding first_by_order first_of_two
first_by_order-mem [] t h = cc
first_by_order-mem (u ∷ ts) t h = elim (Option-cases (first_by_order ts)) [
  | inl e ↦ Memᴰ.head (ground arith)
  | inr (v, e) ↦ elim (Bool-cases (comes_before u v)) [
    | inl c ↦ Memᴰ.head (ground arith)
    | inr c ↦ Memᴰ.tail (first_by_order-mem ts t (ground arith))
  ]
]

module _ (p : Task → Bool) where
  pub keep-All :
      (P : Task → Type 0) (ts : List Task) → All P (keep p ts) → All (λ u. p u ≡ true → P u) ts
  keep-All P [] h = tt
  keep-All P (t ∷ ts) h = elim (Bool-cases (p t)) [
    | inl c ↦ let h' = rw (c, keep) at h in (λ _. h'.0, keep-All P ts h'.1)
    | inr c ↦ let h' = rw (c, keep) at h in (λ d. cc, keep-All P ts h')
  ]

  keep-nil : (ts : List Task) → keep p ts ≡ [] → All (λ u. p u ≡ false) ts
  keep-nil [] h = tt
  keep-nil (u ∷ ts) h = elim (Bool-cases (p u)) [
    | inl c ↦ absurd (cons≢nil (rw (c, keep) at h))
    | inr c ↦ (c, keep-nil ts (rw (c, keep) at h))
  ]

-- The dispatcher gets an eligible task of the table that no other eligible task should go before:
-- every other one has a lower priority, or the same priority and no smaller id.
pub next_runnable_first :
    (types : List String) (low : Option ℕ) (db : Db) (t : Task)
    → next_runnable types low db ≡ some t
    → Memᴰ t db.tasks
      × (eligible types low t ≡ true)
      × All (Before t) (keep (eligible types low) db.tasks)
unfolding next_runnable
next_runnable_first types low db t h =
    let (m, e) =
      keep-mem (eligible types low) db.tasks t
        (first_by_order-mem (keep (eligible types low) db.tasks) t h) in
    (m, e, first_by_order-All (keep (eligible types low) db.tasks) t h)

-- The fast lane takes only fresh tasks of at least its priority.
abbrev pub InLane : Option ℕ → Task → Type 0
InLane none t = Unit
InLane (some low) t = (low ≤ t.priority) × (t.state ≡ received)

-- A task that waits to be dispatched: it is new or to be tried again, is of one of the types, and
-- suits the lane.
pub record IsWaiting (types : List String) (low : Option ℕ) (t : Task) : Type 0 where
  pub fresh : (t.state ≡ received) ⊎ (t.state ≡ retrying)
  pub typed : Memᴰ t.task_type types
  pub lane : InLane low t

str_mem-Mem : (s : String) (xs : List String) → str_mem s xs ≡ true → Memᴰ s xs
unfolding str_mem
str_mem-Mem s [] h = cc
str_mem-Mem s (x ∷ xs) h = elim (Bool-cases (str_eq x s)) [
  | inl c ↦ Memᴰ.head (ground (arith, eq_iff x s))
  | inr c ↦ Memᴰ.tail (str_mem-Mem s xs (ground arith))
]

Mem-str_mem : (s : String) (xs : List String) → Memᴰ s xs → str_mem s xs ≡ true
unfolding str_mem
Mem-str_mem s [] m = elim m [ ]
Mem-str_mem s (x ∷ xs) (Memᴰ.head e) = ground (arith, eq_iff x s)
Mem-str_mem s (x ∷ xs) (Memᴰ.tail m) = ground (arith, Mem-str_mem s xs m)

runnable-fresh : (s : TaskState) → runnable s ≡ true → (s ≡ received) ⊎ (s ≡ retrying)
unfolding runnable
runnable-fresh s h = ground arith

fresh-runnable : (s : TaskState) → (s ≡ received) ⊎ (s ≡ retrying) → runnable s ≡ true
unfolding runnable
fresh-runnable s h = ground arith

received-only : (s : TaskState) → is_received s ≡ true → s ≡ received
received-only s h = ground arith

eligible-IsWaiting :
    (types : List String) (low : Option ℕ) (t : Task)
    → eligible types low t ≡ true
    → IsWaiting types low t
unfolding eligible
eligible-IsWaiting types none t h = record {
  fresh = runnable-fresh t.state (ground arith);
  typed = str_mem-Mem t.task_type types (ground arith);
  lane = tt;
}
eligible-IsWaiting types (some low) t h = record {
  fresh = runnable-fresh t.state (ground arith);
  typed = str_mem-Mem t.task_type types (ground arith);
  lane = (ground arith, received-only t.state (ground arith));
}

IsWaiting-eligible :
    (types : List String) (low : Option ℕ) (t : Task)
    → IsWaiting types low t
    → eligible types low t ≡ true
unfolding eligible
IsWaiting-eligible types none t w =
    let a = fresh-runnable t.state w.fresh in
    let b = Mem-str_mem t.task_type types w.typed in rw (a, b) refl
IsWaiting-eligible types (some low) t w =
    let a = fresh-runnable t.state w.fresh in
    let b = Mem-str_mem t.task_type types w.typed in
    let c : (leb low t.priority && is_received t.state) ≡ true =
      rw (w.lane.1) (ground (arith, w.lane.0)) in
    rw (a, b, c) refl

All-at : (P : Task → Type 0) (ts : List Task) (t : Task) → All P ts → Memᴰ t ts → P t
All-at P [] t a m = elim m [ ]
All-at P (u ∷ ts) t a (Memᴰ.head e) = subst P (sym e) a.0
All-at P (u ∷ ts) t a (Memᴰ.tail m) = All-at P ts t a.1 m

-- While a task of the table waits for a lane, the dispatcher gets one: it waits for the lane itself, and
-- either goes before the first one or is it.
pub next_runnable-IsWaiting :
    (types : List String) (low : Option ℕ) (db : Db) (t : Task)
    → Memᴰ t db.tasks
    → IsWaiting types low t
    → (u : Task) × (next_runnable types low db ≡ some u)
      × Memᴰ u db.tasks
      × IsWaiting types low u
      × Before u t
unfolding next_runnable
next_runnable-IsWaiting types low db t m w =
    elim (Option-cases (first_by_order (keep (eligible types low) db.tasks))) [
      | inl e ↦
          let unfit =
            All-at (λ u. eligible types low u ≡ false) db.tasks t
              (keep-nil (eligible types low) db.tasks (first_by_order-none _ e)) m in
          let fit = IsWaiting-eligible types low t w in cc
      | inr (u, e) ↦
          let (n, fit, first) = next_runnable_first types low db u e in
          let ordered = keep-All (eligible types low) (Before u) db.tasks first in
          (
            u,
            e,
            n,
            eligible-IsWaiting types low u fit,
            All-at (λ v. eligible types low v ≡ true → Before u v) db.tasks t ordered m
                (IsWaiting-eligible types low t w),
          )
    ]
