-- ===== src/Notify.antt =====
-- core/notify/notifier.py: the throttle of messages to the owner. Times are seconds of the notifier's
-- clock; the folding window of a live message is a number of the policy. What is delivered is a list,
-- the newest last; `sends` says whether the channel takes a message. Buttons, photos, videos, the
-- hooks and log lines are left out.
pub mod Tally
pub mod Progress
pub mod Errors
use Prim.Native.String.{◌++◌ as append_text}
use nova_ai_agent.Prelude.{
  ℕ, suc, ◌+◌, ◌-◌, ◌/◌, String, Bool, true, false, not, ◌&&◌, ◌||◌, Option, none, some, List, [],
  ◌∷◌, ◌++◌, ltb, leb, ◌==◌, str_eq, lookup, insert, if◌then◌else◌,
}

pub data Kind : Type 0 where
  progress error info approval_required user_input_required critical_security_alert : Kind
  task_completed task_failed_permanently agent_going_offline recovery_after_restart live : Kind

-- NotificationThrottle, and the configured exempt types.
pub record Policy : Type 0 where
  pub min_progress_interval_seconds : ℕ
  pub soft_max_progress_updates_per_task : ℕ
  pub batch_small_results : Bool
  pub repeated_error_cooldown_seconds : ℕ
  pub live_edit_seconds : ℕ
  pub is_exempt : Kind → Bool

-- LONG_TASK_BONUS_EVERY_SECONDS
abbrev pub long_task_bonus_every_seconds : ℕ
long_task_bonus_every_seconds = 1800

pub record TaskProgress : Type 0 where
  pub first_at : ℕ
  pub last_sent_at : Option ℕ
  pub sent : ℕ
  pub pending : List String

pub record Delivery : Type 0 where
  pub chat_id : String
  pub text : String
  pub live_key : Option ℕ

-- Notifier: the dictionaries as association lists.
pub record Notifier : Type 0 where
  pub policy : Policy
  pub sends : Bool
  pub now : ℕ
  pub progress : List (ℕ × TaskProgress)
  pub errors : List (String × (ℕ × ℕ))
  pub live_at : List (ℕ × ℕ)
  pub live_pending : List (ℕ × (String × String))
  pub delivered : List Delivery

module _ {V : Type 0} where
  unfoldable pub at : ℕ → List (ℕ × V) → Option V
  at k [] = none
  at k ((j, v) ∷ m) = if j == k then some v else at k m

  unfoldable pub put : ℕ → V → List (ℕ × V) → List (ℕ × V)
  put k v [] = (k, v) ∷ []
  put k v ((j, w) ∷ m) = if j == k then (k, v) ∷ m else (j, w) ∷ put k v m

  unfoldable pub pop : ℕ → List (ℕ × V) → List (ℕ × V)
  pop k [] = []
  pop k ((j, w) ∷ m) = if j == k then m else (j, w) ∷ pop k m

-- Notifier._deliver
unfoldable pub deliver : String → String → Notifier → Bool × Notifier
deliver chat_id text n =
    if n.sends
    then (
      true,
      record n {
        delivered = n.delivered ++ record { chat_id = chat_id; text = text; live_key = none } ∷ [];
      },
    )
    else (false, n)

-- Notifier._deliver_live
unfoldable pub deliver_live : String → String → ℕ → Notifier → Bool × Notifier
deliver_live chat_id text key n =
    if n.sends
    then (
      true,
      record n {
        delivered =
            n.delivered ++ record { chat_id = chat_id; text = text; live_key = some key } ∷ [];
      },
    )
    else (false, n)

abbrev pub fresh : ℕ → TaskProgress
fresh now = record { first_at = now; last_sent_at = none; sent = 0; pending = [] }

abbrev pub or_fresh : ℕ → Option TaskProgress → TaskProgress
or_fresh now none = fresh now
or_fresh now (some p) = p

abbrev pub cap_of : Policy → ℕ → TaskProgress → ℕ
cap_of policy now p =
    policy.soft_max_progress_updates_per_task + (now - p.first_at) / long_task_bonus_every_seconds

-- Notifier.cap
abbrev pub cap_or : Policy → ℕ → Option TaskProgress → ℕ
cap_or policy now none = policy.soft_max_progress_updates_per_task
cap_or policy now (some p) = cap_of policy now p

unfoldable pub cap : ℕ → Notifier → ℕ
unfolding at
cap task_id n = cap_or n.policy n.now (at task_id n.progress)

abbrev pub interval_ok : Policy → ℕ → Option ℕ → Bool
interval_ok policy now none = true
interval_ok policy now (some last) = leb policy.min_progress_interval_seconds (now - last)

abbrev pub joined : List String → String → String
joined [] text = text
joined (s ∷ rest) text = append_text s (append_text "\n" (joined rest text))

-- The update that is held back, with its text kept for the next one.
abbrev pub held : Policy → String → TaskProgress → TaskProgress
held policy text p =
    if policy.batch_small_results then record p { pending = p.pending ++ text ∷ [] } else p

abbrev pub sent_now : ℕ → TaskProgress → TaskProgress
sent_now now p = record p { last_sent_at = some now; sent = suc p.sent; pending = [] }

abbrev pub may_send : Policy → ℕ → TaskProgress → Bool
may_send policy now p = interval_ok policy now p.last_sent_at && ltb p.sent (cap_of policy now p)

unfoldable pub update_task : String → String → ℕ → TaskProgress → Notifier → Bool × Notifier
unfolding deliver put
update_task chat_id text task_id p n =
    if may_send n.policy n.now p
    then deliver chat_id (joined p.pending text)
        (record n { progress = put task_id (sent_now n.now p) n.progress })
    else (false, record n { progress = put task_id (held n.policy text p) n.progress })

-- Notifier._progress_update
unfoldable pub progress_update : String → String → Option ℕ → Notifier → Bool × Notifier
unfolding update_task at
progress_update chat_id text none n = deliver chat_id text n
progress_update chat_id text (some task_id) n =
    update_task chat_id text task_id (or_fresh n.now (at task_id n.progress)) n

abbrev pub is_repeated : Policy → ℕ → ℕ → Option (ℕ × ℕ) → Bool
is_repeated policy now severity none = false
is_repeated policy now severity (some (last_at, last_severity)) =
    ltb (now - last_at) policy.repeated_error_cooldown_seconds && leb severity last_severity

-- Notifier._error
unfoldable pub send_error : String → String → String → ℕ → Notifier → Bool × Notifier
unfolding deliver
send_error chat_id text key severity n =
    if is_repeated n.policy n.now severity (lookup key n.errors)
    then (false, n)
    else deliver chat_id text (record n { errors = insert key (n.now, severity) n.errors })

abbrev pub is_folded : Policy → ℕ → Option ℕ → Bool
is_folded policy now none = false
is_folded policy now (some last) = ltb (now - last) policy.live_edit_seconds

-- Notifier._live_update
unfoldable pub live_update : String → String → ℕ → Notifier → Bool × Notifier
unfolding at put deliver_live
live_update chat_id text key n =
    if is_folded n.policy n.now (at key n.live_at)
    then (false, record n { live_pending = put key (chat_id, text) n.live_pending })
    else deliver_live chat_id text key (record n { live_at = put key n.now n.live_at })

unfoldable pub flush_found : ℕ → Option (String × String) → Notifier → Notifier
unfolding put pop deliver_live
flush_found key none n = n
flush_found key (some (chat_id, text)) n =
    (deliver_live chat_id text key
      (record n { live_pending = pop key n.live_pending; live_at = put key n.now n.live_at })).1

-- Notifier._flush_live, after its sleep
unfoldable pub flush_live : ℕ → Notifier → Notifier
unfolding flush_found at
flush_live key n = flush_found key (at key n.live_pending) n

abbrev pub is_final : Kind → Bool
is_final task_completed = true
is_final task_failed_permanently = true
is_final _ = false

abbrev pub or_key : Option String → String → String
or_key none text = text
or_key (some key) text = if str_eq key "" then text else key

unfoldable pub forget_progress : Kind → Option ℕ → Notifier → Notifier
unfolding pop
forget_progress kind none n = n
forget_progress kind (some task_id) n =
    if is_final kind then record n { progress = pop task_id n.progress } else n

-- The key of a live message: 0 without a task, and otherwise the number after the task's id.
abbrev live_key_of : Option ℕ → ℕ
live_key_of none = 0
live_key_of (some i) = suc i

-- A message of the notifier: its chat, kind and text, with the task, the error's key and the severity.
pub record Notice : Type 0 where
  pub chat_id : String
  pub kind : Kind
  pub text : String
  pub task_id : Option ℕ
  pub error_key : Option String
  pub severity : ℕ

unfoldable pub throttle : Notice → Kind → Notifier → Bool × Notifier
unfolding deliver forget_progress progress_update live_update send_error
throttle m info n = deliver m.chat_id m.text n
throttle m live n = live_update m.chat_id m.text (live_key_of m.task_id) n
throttle m progress n = progress_update m.chat_id m.text m.task_id n
throttle m _ n = send_error m.chat_id m.text (or_key m.error_key m.text) m.severity n

-- Notifier._notify
unfoldable pub notify : Notice → Notifier → Bool × Notifier
unfolding throttle forget_progress
notify m n =
    if n.policy.is_exempt m.kind
    then deliver m.chat_id m.text (forget_progress m.kind m.task_id n)
    else throttle m m.kind n

-- What happens to a notifier: a message, the end of a folding window, or time that passes.
pub data Event : Type 0 where
  message : Notice → Event
  window_opens : (key : ℕ) → Event
  time_passes : ℕ → Event

unfoldable pub happens : Event → Notifier → Notifier
unfolding notify flush_live
happens (message m) n = (notify m n).1
happens (window_opens key) n = flush_live key n
happens (time_passes d) n = record n { now = n.now + d }

unfoldable pub happen_all : List Event → Notifier → Notifier
unfolding happens
happen_all [] n = n
happen_all (e ∷ es) n = happen_all es (happens e n)
