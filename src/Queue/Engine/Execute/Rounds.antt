-- ===== src/Queue/Engine/Execute/Rounds.antt =====
-- Rounds of the dispatcher (core/queue/engine.py): `run_once` as a whole.
use mathlib.Core.Path.{subst}
use mathlib.Core.Option.{some-injective}
use mathlib.Core.List.{Memᴰ}
use nova_ai_agent.Prelude.{
  ℕ, ◌≡◌, ◌≢◌, refl, sym, String, Bool, true, false, Option, none, some, List, [], ◌∷◌, arith, All,
  Bool-cases, inl, inr, str_eq, lookup,
}
use nova_ai_agent.Exec.{Exc, Result, ok, err}
use nova_ai_agent.Exec.Triples.{After, Triple}
use nova_ai_agent.Queue.States.{TaskState, completed, failed, is_received, active, can_transition}
use nova_ai_agent.Db.{Task, get_task}
use nova_ai_agent.Queue.Store.{str_mem}
use nova_ai_agent.Queue.Store.Transition.{transition_succeeds, transition_refused}
use nova_ai_agent.Queue.Store.StateAt.{state_at, state_of_row, transition_state}
use nova_ai_agent.Permissions.Env.{Env}
use nova_ai_agent.Queue.Engine.Work.{Verdict, final, Engine, Work, Executor}
use nova_ai_agent.Queue.Engine.Execute.{
  execute, execute_with, park, engine_error, context_of, names, set_current, run_picked,
}
use nova_ai_agent.Queue.Engine.Execute.Settles.{Holds}
use nova_ai_agent.Queue.Engine.Execute.Outcome.{completes}

-- The task exists.
abbrev pub Exists : Option TaskState → Type 0
Exists o = (s : TaskState) × (o ≡ some s)

-- The task exists, and is neither at work nor unclaimed.
abbrev pub Rests : Option TaskState → Type 0
Rests o = (s : TaskState) × (o ≡ some s) × (active s ≡ false) × (is_received s ≡ false)

abbrev pub AnyVerdict : Verdict → Type 0
AnyVerdict v = Unit

abbrev pub NotCompleted : Option TaskState → Type 0
NotCompleted o = o ≢ some completed

-- A verdict that does not complete a task.
abbrev pub Unaccepted : Verdict → Type 0
Unaccepted v = completes (final v) ≡ false

pub All-mem : (P : Task → Type 0) (ts : List Task) (t : Task) → All P ts → Memᴰ t ts → P t
All-mem P [] t h m = elim m [ ]
All-mem P (u ∷ ts) t h (Memᴰ.head e) = subst P (sym e) h.0
All-mem P (u ∷ ts) t h (Memᴰ.tail m) = All-mem P ts t h.1 m

pub lookup-All :
    (P : Executor → Type 0) (k : String) (xs : List (String × Executor)) (x : Executor)
    → All (λ p. P p.1) xs
    → lookup k xs ≡ some x
    → P x
lookup-All P k [] x h e = cc
lookup-All P k ((j, y) ∷ xs) x h e = elim (Bool-cases (str_eq j k)) [
  | inl c ↦ subst P (some-injective y x (rw c at e)) h.0
  | inr c ↦ lookup-All P k xs x h.1 (rw c at e)
]

pub names-lookup :
    (k : String) (xs : List (String × Executor))
    → str_mem k (names xs) ≡ true
    → (x : Executor) × (lookup k xs ≡ some x)
unfolding str_mem
names-lookup k [] h = cc
names-lookup k ((j, y) ∷ xs) h = elim (Bool-cases (str_eq j k)) [
  | inl c ↦ (y, rw c)
  | inr c ↦ let (x, e) = names-lookup k xs (ground arith) in (x, rw c e)
]

pub cannot_fail :
    (s : TaskState) → can_transition s failed ≡ false → (active s ≡ false) × (is_received s ≡ false)
unfolding can_transition active
cannot_fail s h = ground arith

pub park-Rests :
    (i : ℕ) (x : Exc) (e : Engine) (o : Option Task)
    → get_task e.db i ≡ o
    → Exists (state_of_row o)
    → Rests (state_at i (park i (err x) e).db)
unfolding park active
park-Rests i x e none g h = absurd (ground (arith, h.1))
park-Rests i x e (some u) g h = elim (Bool-cases (can_transition u.state failed)) [
  | inl c ↦
      let (new, r) = transition_succeeds i failed engine_error e.db u (tt, tt) g c in
      let s = (transition_state i failed engine_error e.db (ok new) r).0 new refl in
      (failed, s, refl, refl)
  | inr c ↦
      let (a, r) = cannot_fail u.state c in
      (u.state, rw (transition_refused i failed engine_error e.db u g c) (rw g), a, r)
]

module _ (K Q : Option TaskState → Type 0) (V : Verdict → Type 0) (env : Env)
    (others : Engine → Engine) (xs : List (String × Executor)) (t : Task) where
  pub after_park :
      (r : Result (Unit {0})) (e : Engine)
      → ((x : Exc) (e : Engine)
          → K (state_at t.id e.db)
          → Q (state_at t.id (park t.id (err x) e).db))
      → After (λ (e : Engine). K (state_at t.id e.db)) (λ _ e. Q (state_at t.id e.db)) r e
      → Q (state_at t.id (park t.id r e).db)
  unfolding park
  after_park (ok u) e p h = h
  after_park (err x) e p h = p x e h

  pub After-engine :
      (r : Result (Unit {0})) (w : Work)
      → After (Holds t.id K) (λ _. Holds t.id Q) r w
      → After (λ (e : Engine). K (state_at t.id e.db)) (λ _ e. Q (state_at t.id e.db)) r w.engine
  After-engine (ok u) w h = h
  After-engine (err x) w h = h

  pub current_same : (fast : Bool) (i : Option ℕ) (e : Engine) → (set_current fast i e).db ≡ e.db
  current_same true i e = refl
  current_same false i e = refl

  pub run_picked_rule :
      (gated fast : Bool) (x : Executor) (e : Engine)
      → lookup t.task_type xs ≡ some x
      → Triple (Holds t.id K) (Holds t.id K) (execute env others x t) (λ _. Holds t.id Q)
      → ((y : Exc) (e : Engine)
          → K (state_at t.id e.db)
          → Q (state_at t.id (park t.id (err y) e).db))
      → K (state_at t.id e.db)
      → Q (state_at t.id (run_picked env others xs gated fast (some t) e).1.db)
  unfolding run_picked execute_with
  run_picked_rule gated fast x e l k p h =
      let start = set_current fast (some t.id) e in
      let w : Work = record { ctx = context_of gated t; engine = start } in
      let r = execute env others x t w in
      let done = k.at w (rw (current_same fast (some t.id) e) h) in
      rw l (
        rw (current_same fast none (park t.id r.0 r.1.engine))
          (after_park r.0 r.1.engine p (After-engine r.0 r.1 done)))
