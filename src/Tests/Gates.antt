-- ===== src/Tests/Gates.antt =====
-- The theorems on permissions and approvals, at concrete inputs.
use mathlib.Core.List.{Memᴰ}
use nova_ai_agent.Prelude.{◌≡◌, refl, true, false, some, [], ◌∷◌, arith, if◌then◌else◌, inl, inr}
use nova_ai_agent.Db.{approved, Approval, find_approval}
use nova_ai_agent.Permissions.Engine.{
  deny, needs_approval, level_of, is_lockdown, evaluate, valid_actions, red_stays_red, lockdown_key,
}
use nova_ai_agent.Permissions.Engine.Gate.{mandatory_red_gated}
use nova_ai_agent.Permissions.Approvals.{find, fingerprint, first_usable, usable}
use nova_ai_agent.Permissions.Decide.{consume, consumable}
use nova_ai_agent.Permissions.Decide.Lifecycle.{Evolves}
use nova_ai_agent.Permissions.Decide.Lifecycle.Calls.{
  answer, use_once, expire, time_passes, perform_all, perform_all-Evolves, consume_once,
}
use nova_ai_agent.Permissions.Decide.Lifecycle.Finding.{IsBound, find-IsBound}
use nova_ai_agent.Queue.Engine.Work.{Work}
use nova_ai_agent.Queue.Engine.Require.{require}
use nova_ai_agent.Queue.Engine.Require.Gate.{Permitted}
use nova_ai_agent.Queue.Engine.Require.Permits.{Refused, require-Permitted, require_refuses}
use nova_ai_agent.Tests.Sample.{
  waiting_task, approval, database, db, env, with_approval, work, push,
}

-- A configuration that passes validation.
configured : valid_actions env.actions ≡ true
unfolding valid_actions red_stays_red
configured = refl

mandatory_red_gated_example :
    (evaluate env "file.delete_important" db).decision
    ≡ (if is_lockdown db then deny else needs_approval)
mandatory_red_gated_example =
    mandatory_red_gated env "file.delete_important" db configured (inl (Memᴰ.head refl))

perform_all-Evolves_example :
    (b : Approval) × (find_approval 1
        (perform_all env (use_once 1 ∷ time_passes 200 ∷ expire ∷ []) with_approval).approvals
      ≡ some b)
    × Evolves (approval 1 approved "digest") b
unfolding find_approval
perform_all-Evolves_example =
    perform_all-Evolves env (use_once 1 ∷ time_passes 200 ∷ expire ∷ []) 1 with_approval
      (approval 1 approved "digest") (ground arith) refl

consume_once_example :
    (consume 1
      (perform_all env (answer "n1" true "owner" ∷ expire ∷ []) (consume 1 with_approval).1)).0
    ≡ false
unfolding consume find_approval consumable
consume_once_example =
    consume_once env (answer "n1" true "owner" ∷ expire ∷ []) 1 with_approval (ground arith) refl

find-IsBound_example :
    (find_approval 1 with_approval.approvals ≡ some (approval 1 approved "digest"))
    × IsBound 3 "digest" (approval 1 approved "digest")
    × (consumable with_approval.clock (approval 1 approved "digest") ≡ true)
unfolding find first_usable usable
find-IsBound_example =
    find-IsBound 3 "digest" with_approval (approval 1 approved "digest") (ground arith) refl

-- The owner approved the push of task 3, which now asks again.
abbrev asking : Work
asking = work with_approval waiting_task

require-Permitted_example : Permitted env push asking (require env push asking).1
unfolding require evaluate find first_usable usable consume find_approval consumable fingerprint
require-Permitted_example = require-Permitted env push asking (ground arith) (λ check e. cc) refl

abbrev locked : Work
locked = work (database (waiting_task ∷ []) [] ((lockdown_key, true) ∷ [])) waiting_task

require_refuses_example : Refused env push locked (require env push locked)
unfolding is_lockdown level_of
require_refuses_example = require_refuses env push locked (inr (refl, λ e. cc))
