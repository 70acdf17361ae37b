-- ===== src/Permissions/Engine/Gate.antt =====
-- What the evaluation of an action may decide (core/permissions/engine.py).
use mathlib.Core.List.{Memᴰ}
use nova_ai_agent.Prelude.{
  ◌≡◌, ◌≢◌, ◌⊎◌, String, Bool, true, false, none, List, [], ◌∷◌, arith, lookup, lookup-insert,
  if◌then◌else◌, inl, inr,
}
use nova_ai_agent.Db.{Level, green, blue, yellow, red, Db}
use nova_ai_agent.Permissions.Env.{Env}
use nova_ai_agent.Queue.Store.Control.{is_queue_paused}
use nova_ai_agent.Permissions.Engine.{
  allow, allow_logged, needs_check, needs_approval, deny, or_red, level_of, is_lockdown,
  set_lockdown, evaluate, red_stays_red, mandatory_red, valid_actions,
}

-- An action goes ahead by itself only at GREEN, or at BLUE outside a lockdown.
pub evaluate_allows :
    (env : Env) (action : String) (db : Db)
    → ((evaluate env action db).decision ≡ allow → level_of env action ≡ green)
      × ((evaluate env action db).decision ≡ allow_logged
          → (level_of env action ≡ blue) × (is_lockdown db ≡ false))
unfolding evaluate
evaluate_allows env action db = (λ h. ground arith, λ h. ground arith)

-- During a lockdown every action but the GREEN ones is denied, and nothing is denied outside one.
pub evaluate_lockdown :
    (env : Env) (action : String) (db : Db)
    → ((evaluate env action db).decision ≡ deny
        → (is_lockdown db ≡ true) × (level_of env action ≢ green))
      × (is_lockdown db ≡ true
          → level_of env action ≢ green
          → (evaluate env action db).decision ≡ deny)
unfolding evaluate
evaluate_lockdown env action db = (λ h. ground arith, λ h n. ground arith)

red_stays_red-red :
    (mandatory : List String) (actions : List (String × Level)) (a : String)
    → red_stays_red mandatory actions ≡ true
    → Memᴰ a mandatory
    → or_red (lookup a actions) ≡ red
unfolding red_stays_red
red_stays_red-red [] actions a h m = elim m [ ]
red_stays_red-red (b ∷ bs) actions a h (Memᴰ.head e) = rw e (ground arith)
red_stays_red-red (b ∷ bs) actions a h (Memᴰ.tail m) =
    red_stays_red-red bs actions a (ground arith) m

-- With a configuration that passed validation, an action that must stay RED, and an action that the
-- configuration does not name, never go ahead without an approval: they need one, or are denied.
pub mandatory_red_gated :
    (env : Env) (action : String) (db : Db)
    → valid_actions env.actions ≡ true
    → Memᴰ action mandatory_red ⊎ (lookup action env.actions ≡ none)
    → (evaluate env action db).decision ≡ (if is_lockdown db then deny else needs_approval)
unfolding evaluate valid_actions
mandatory_red_gated env action db h (inl m) =
    let r = red_stays_red-red mandatory_red env.actions action h m in ground arith
mandatory_red_gated env action db h (inr n) = ground arith

-- A lockdown that is set is in force, one that is lifted is not, and neither pauses or resumes the
-- queue.
pub set_lockdown-is_lockdown :
    (on : Bool) (db : Db)
    → (is_lockdown (set_lockdown on db) ≡ on)
      × (is_queue_paused (set_lockdown on db) ≡ is_queue_paused db)
unfolding set_lockdown is_lockdown is_queue_paused
set_lockdown-is_lockdown on db = (rw lookup-insert, rw lookup-insert)

-- A YELLOW action is checked, outside a lockdown.
pub evaluate_checks :
    (env : Env) (action : String) (db : Db)
    → (evaluate env action db).decision ≡ needs_check
    → (level_of env action ≡ yellow) × (is_lockdown db ≡ false)
unfolding evaluate
evaluate_checks env action db h = (ground arith, ground arith)

-- An approval is asked for outside a lockdown only.
pub unlocked_approval :
    (env : Env) (action : String) (db : Db)
    → (evaluate env action db).decision ≡ needs_approval
    → is_lockdown db ≡ false
unfolding evaluate
unlocked_approval env action db h = ground arith
