-- ===== src/Broker/Server/Machine.antt =====
-- What `Broker.handle` may do to the machine.
use nova_ai_agent.Prelude.{ℕ, ◌≡◌, refl, String, true, Option, none, some}
use nova_ai_agent.Json.{Json, null, flag, num, text, arr, obj, Fields}
use nova_ai_agent.Permissions.Env.{Env}
use nova_ai_agent.Broker.Ops.{Policy, Op, good_values}
use nova_ai_agent.Broker.Handlers.{Backend, Text}
use nova_ai_agent.Broker.Handlers.Fixed.{Safe, handler-Keeps, checked-good}
use nova_ai_agent.Broker.Server.{Broker, Admission, answered, admitted, admit, run_admitted, handle}
use nova_ai_agent.Broker.Server.Authority.{admit-Authority}

module _ {W : Type 0} (be : Backend W) (tx : Text) (env : Env) (show : Json → String) where
  run_admitted-keeps :
      (policy : Policy) (P : W → Type 0)
      → Safe be tx policy P
      → (a : Admission) (b : Broker)
      → ((op : Op) (params : Fields) (i : Option ℕ)
          → a ≡ admitted op params i
          → good_values op params ≡ true)
      → (w : W) → P w
      → P (run_admitted be tx policy (a, b) w).1
  unfolding run_admitted
  run_admitted-keeps policy P safe (answered r) b g w h = h
  run_admitted-keeps policy P safe (admitted op params i) b g w h =
      (handler-Keeps be tx policy P safe op params (g op params i refl)).at w h

  admitted-good :
      (request : Option Json) (b : Broker) (op : Op) (params : Fields) (i : Option ℕ)
      → (admit env show request b).0 ≡ admitted op params i
      → good_values op params ≡ true
  unfolding admit
  admitted-good none b op params i h = cc
  admitted-good (some (obj req)) b op params i h =
      checked-good _ params op (admit-Authority env show req b op params i h).cleared.valid
  admitted-good (some null) b op params i h = cc
  admitted-good (some (flag x)) b op params i h = cc
  admitted-good (some (num x)) b op params i h = cc
  admitted-good (some (text x)) b op params i h = cc
  admitted-good (some (arr x)) b op params i h = cc

  -- Whatever message comes, the broker keeps every property of the machine that its fixed programs,
  -- reading the state of a service, and controlling a service of its policy keep.
  pub handle-keeps :
      (request : Option Json) (b : Broker) (w : W) (P : W → Type 0)
      → Safe be tx b.policy P
      → P w
      → P (handle be tx env show request b w).1
  unfolding handle
  handle-keeps request b w P safe h =
      run_admitted-keeps b.policy P safe (admit env show request b).0 (admit env show request b).1
        (admitted-good request b) w h
