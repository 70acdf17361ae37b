-- ===== src/Broker/Approvals.antt =====
-- workers/privileged-broker/nova_broker/approvals.py: the broker's own check of an approval. The rows
-- are Nova's table of approvals, in the order of their ids, with the fingerprint of the details column
-- as its own field; `ledger` holds the ids of used_approvals.json, which is empty when the file is
-- missing or damaged. The fingerprint is that of core/permissions/approvals.py. A database that cannot
-- be read, and the reasons of a refusal, are left out.
pub mod Fresh
pub mod Single
use nova_ai_agent.Prelude.{
  ℕ, zero, suc, ◌-◌, String, Bool, true, false, not, ◌&&◌, ◌||◌, Option, none, some, List, [], ◌∷◌,
  ◌++◌, keep, length, leb, ◌==◌, str_eq, if◌then◌else◌,
}
use nova_ai_agent.Json.{Fields}
use nova_ai_agent.Db.{used, Approval}
use nova_ai_agent.Permissions.Env.{Env}
use nova_ai_agent.Permissions.Approvals.{fingerprint, has_status}
use nova_ai_agent.Broker.Texts.{is_number, number_of}

-- KEEP
abbrev pub kept_ids : ℕ
kept_ids = 2000

abbrev pub drop : ℕ → List ℕ → List ℕ
drop zero xs = xs
drop (suc n) [] = []
drop (suc n) (x ∷ xs) = drop n xs

-- ids[-n:]
abbrev pub last : ℕ → List ℕ → List ℕ
last n xs = drop (length xs - n) xs

abbrev pub id_in : ℕ → List ℕ → Bool
id_in i [] = false
id_in i (x ∷ xs) = (x == i) || id_in i xs

-- ApprovalChecker._remember
unfoldable pub remember : ℕ → List ℕ → List ℕ
remember i ledger = last kept_ids (ledger ++ i ∷ [])

abbrev pub of_task : Option ℕ → ℕ → Bool
of_task none n = false
of_task (some i) n = i == n

-- The WHERE clause of the query.
unfoldable pub is_candidate : ℕ → String → Approval → Bool
unfolding has_status
is_candidate task_id action a =
    of_task a.task_id task_id && (str_eq a.action action && has_status a.status used)

abbrev pub decided : Option String → Bool
decided none = false
decided (some by) = not (str_eq by "")

abbrev pub is_recent : ℕ → ℕ → Option ℕ → Bool
is_recent now max_age none = false
is_recent now max_age (some at) = leb (now - at) max_age

-- What the loop asks of a row.
unfoldable pub accepts : ℕ → ℕ → String → List ℕ → Approval → Bool
accepts now max_age fp ledger a =
    str_eq a.fingerprint fp
    && (decided a.decided_by && (is_recent now max_age a.decided_at && not (id_in a.id ledger)))

abbrev pub or_this : Option Approval → Option Approval → Option Approval
or_this (some b) o = some b
or_this none o = o

-- The last row of the table that passes: the query gives the newest first.
unfoldable pub newest : (Approval → Bool) → List Approval → Option Approval
newest p [] = none
newest p (a ∷ rest) = or_this (newest p rest) (if p a then some a else none)

unfoldable pub claim_row : Option Approval → List ℕ → Option ℕ × List ℕ
unfolding remember
claim_row none ledger = (none, ledger)
claim_row (some a) ledger = (some a.id, remember a.id ledger)

-- ApprovalChecker.claim
unfoldable pub claim :
    Env
    → (max_age now : ℕ) (rows : List Approval) → (task_id action target : String) (details : Fields)
    → List ℕ
    → Option ℕ × List ℕ
unfolding is_candidate accepts newest claim_row
claim env max_age now rows task_id action target details ledger =
    if is_number task_id
    then claim_row
        (newest (accepts now max_age (fingerprint env action target (some details)) ledger)
          (keep (is_candidate (number_of task_id) action) rows))
        ledger
    else (none, ledger)
