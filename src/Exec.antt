-- ===== src/Exec.antt =====
-- The exceptions of the task engine (core/queue/engine.py, core/queue/states.py) and methods that
-- change the database and may raise. What was written before a raise stays written, so the state
-- comes back beside the exception too.
pub mod Keeps
pub mod Returns
pub mod Triples
use nova_ai_agent.Prelude.{ℕ, String}
use nova_ai_agent.Queue.States.{TaskState}

-- `error` stands for every exception class that no handler of the engine names; it holds the text
-- `type: message`.
pub data Exc : Type 0 where
  task_cancelled task_paused task_interrupted : Exc
  approval_pending : (approval_id : ℕ) → Exc
  desktop_unavailable : (reason : String) → Exc
  task_blocked : (message : String) → Exc
  permission_denied : (action reason : String) → Exc
  policy_denied : (message : String) → Exc
  invalid_transition : (task_id : ℕ) (src dst : TaskState) → Exc
  key_error : ℕ → Exc
  attribute_error : String → Exc
  integrity_error : Exc
  error : (text : String) → Exc

pub data Result {ℓ} (A : Type ℓ) : Type ℓ where
  ok : A → Result A
  err : Exc → Result A

abbrev pub Exec {ℓ} : Type ℓ → Type ℓ → Type ℓ
Exec S A = S → Result A × S

module _ {ℓ} {S A : Type ℓ} where
  abbrev pub pure : A → Exec S A
  pure a s = (ok a, s)

  abbrev pub raise : Exc → Exec S A
  raise e s = (err e, s)

  abbrev pub gets : (S → A) → Exec S A
  gets f s = (ok (f s), s)

module _ {ℓ} {S A B : Type ℓ} where
  abbrev pub proceed : Result A → (A → Exec S B) → Exec S B
  proceed (ok a) f s = f a s
  proceed (err e) f s = (err e, s)

  infixl 10 ◌>>=◌ ◌>>◌
  abbrev pub ◌>>=◌ : Exec S A → (A → Exec S B) → Exec S B
  ◌>>=◌ m f s = let (r, s') = m s in proceed r f s'

  abbrev pub ◌>>◌ : Exec S A → Exec S B → Exec S B
  m >> n = m >>= λ _. n

abbrev pub modify {ℓ} : {S : Type ℓ} → (S → S) → Exec S Unit
modify f s = (ok tt, f s)
