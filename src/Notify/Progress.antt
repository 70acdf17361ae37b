-- ===== src/Notify/Progress.antt =====
-- How many progress messages of a task are delivered.
use mathlib.Core.Path.{subst}
use nova_ai_agent.Prelude.{
  ℕ, ◌+◌, ◌-◌, ◌/◌, ◌≤◌, ◌≡◌, ◌≢◌, refl, Bool, true, false, Option, none, some, List, [], ◌∷◌,
  arith, ◌==◌, length, if_holds, if◌then◌else◌, All, Bool-cases, inl, inr,
}
use nova_ai_agent.Notify.{
  Kind, progress, error, info, approval_required, user_input_required, critical_security_alert,
  task_completed, task_failed_permanently, agent_going_offline, recovery_after_restart, live,
  Policy, Notifier, at, or_fresh, progress_update, is_final, Notice, throttle, notify, Event,
  message, window_opens, time_passes, happens, happen_all,
}
use nova_ai_agent.Notify.Tally.{
  div_mono, Counted, later-Tallied, After, deliver-Counted, send_error-Counted, live_update-Counted,
  flush_found-Counted, other_task-Counted, grown, own_task-Counted, forget-Counted,
}

-- A progress message of the task.
abbrev pub is_progress_of : ℕ → Kind → Option ℕ → Bool
is_progress_of i progress (some j) = j == i
is_progress_of i _ _ = false

-- How many progress messages of the task are delivered while the events happen.
unfoldable pub delivered_progress : ℕ → List Event → Notifier → ℕ
delivered_progress i [] n = 0
delivered_progress i (message m ∷ es) n =
    let after = happens (message m) n in
    let rest = delivered_progress i es after in
    if is_progress_of i m.kind m.task_id
    then (length after.delivered - length n.delivered) + rest
    else rest
delivered_progress i (window_opens key ∷ es) n =
    delivered_progress i es (happens (window_opens key) n)
delivered_progress i (time_passes d ∷ es) n = delivered_progress i es (happens (time_passes d) n)

-- The event does not end the task.
abbrev pub GoesOn : ℕ → Event → Type 0
GoesOn i (message m) =
    m.task_id ≡ some i → (m.kind ≢ task_completed) × (m.kind ≢ task_failed_permanently)
GoesOn i (window_opens key) = Unit
GoesOn i (time_passes d) = Unit

is_progress_of-own :
    (i : ℕ) (k : Kind) (t : Option ℕ) → is_progress_of i k t ≡ true → (k ≡ progress) × (t ≡ some i)
is_progress_of-own i k none h = ground arith
is_progress_of-own i k (some j) h = (ground arith, ground arith)

module _ (i t₀ : ℕ) (policy : Policy) where
  throttle-Counted :
      (c : ℕ) (m : Notice) (k : Kind) (n : Notifier)
      → is_progress_of i k m.task_id ≡ false
      → Counted i t₀ policy c n
      → After i t₀ policy c (throttle m k n)
  unfolding throttle progress_update
  throttle-Counted c m info n e h = deliver-Counted i t₀ policy c m.chat_id m.text n h
  throttle-Counted c m live n e h = live_update-Counted i t₀ policy c m.chat_id m.text _ n h
  throttle-Counted c m progress n e h = by_task m.task_id e
    where
      by_task :
          (t : Option ℕ)
          → is_progress_of i progress t ≡ false
          → After i t₀ policy c (progress_update m.chat_id m.text t n)
      by_task none e = deliver-Counted i t₀ policy c m.chat_id m.text n h
      by_task (some j) e = other_task-Counted i t₀ policy c m.chat_id m.text j _ n e h
  throttle-Counted c m error n e h =
      send_error-Counted i t₀ policy c m.chat_id m.text _ m.severity n h
  throttle-Counted c m approval_required n e h =
      send_error-Counted i t₀ policy c m.chat_id m.text _ m.severity n h
  throttle-Counted c m user_input_required n e h =
      send_error-Counted i t₀ policy c m.chat_id m.text _ m.severity n h
  throttle-Counted c m critical_security_alert n e h =
      send_error-Counted i t₀ policy c m.chat_id m.text _ m.severity n h
  throttle-Counted c m task_completed n e h =
      send_error-Counted i t₀ policy c m.chat_id m.text _ m.severity n h
  throttle-Counted c m task_failed_permanently n e h =
      send_error-Counted i t₀ policy c m.chat_id m.text _ m.severity n h
  throttle-Counted c m agent_going_offline n e h =
      send_error-Counted i t₀ policy c m.chat_id m.text _ m.severity n h
  throttle-Counted c m recovery_after_restart n e h =
      send_error-Counted i t₀ policy c m.chat_id m.text _ m.severity n h

  other-Counted :
      (c : ℕ) (m : Notice) (n : Notifier)
      → is_progress_of i m.kind m.task_id ≡ false
      → GoesOn i (message m)
      → Counted i t₀ policy c n
      → After i t₀ policy c (notify m n)
  unfolding notify
  other-Counted c m n e g h =
      if_holds (After i t₀ policy c) (n.policy.is_exempt m.kind) _ _
        (deliver-Counted i t₀ policy c m.chat_id m.text _
          (forget-Counted i t₀ policy c m.kind m.task_id n (λ s. not_final m.kind (g s)) h))
        (throttle-Counted c m m.kind n e h)
    where
      not_final :
          (k : Kind) → (k ≢ task_completed) × (k ≢ task_failed_permanently) → is_final k ≡ false
      not_final k n = ground arith

  own-Counted :
      (c : ℕ) (m : Notice) (n : Notifier)
      → m.kind ≡ progress
      → m.task_id ≡ some i
      → policy.is_exempt progress ≡ false
      → Counted i t₀ policy c n
      → Counted i t₀ policy (c + grown i t₀ policy n (notify m n).1) (notify m n).1
  unfolding notify throttle progress_update
  own-Counted c m n e f x h =
      let free : n.policy.is_exempt progress ≡ false = rw h.same x in
      rw (e, free) (rw f (own_task-Counted i t₀ policy c m.chat_id m.text _ n h.same h.tally))

  happen_all-Counted :
      (es : List Event) (c : ℕ) (n : Notifier)
      → policy.is_exempt progress ≡ false
      → All (GoesOn i) es
      → Counted i t₀ policy c n
      → Counted i t₀ policy (c + delivered_progress i es n) (happen_all es n)
  unfolding happen_all delivered_progress
  happen_all-Counted [] c n x g h = let same : c + 0 ≡ c = omega arith in rw same h
  happen_all-Counted (message m ∷ es) c n x g h =
      elim (Bool-cases (is_progress_of i m.kind m.task_id)) [
        | inl e ↦
            let (k, t) = is_progress_of-own i m.kind m.task_id e in
            let step = own-Counted c m n k t x h in
            let rest = happen_all-Counted es _ (notify m n).1 x g.1 step in
            rw e
              (subst (λ d. Counted i t₀ policy d (happen_all es (notify m n).1)) (omega arith) rest)
        | inr e ↦ rw e (happen_all-Counted es c _ x g.1 (other-Counted c m n e g.0 h))
      ]
  happen_all-Counted (window_opens key ∷ es) c n x g h =
      happen_all-Counted es c _ x g.1 (flush_found-Counted i t₀ policy c key _ n h)
  happen_all-Counted (time_passes d ∷ es) c n x g h = happen_all-Counted es c _ x g.1 (record {
    same = h.same;
    tally = later-Tallied i t₀ policy c n.now d (at i n.progress) h.tally;
  })

-- Whatever messages come and however time passes, as long as the task does not end, no more of its
-- progress messages are delivered than the configured number and one more for each half hour that
-- passes. Asked that no update of the task was counted before, and that progress is not exempt from
-- the throttle.
pub delivered_progress-cap :
    (i : ℕ) (es : List Event) (n : Notifier)
    → at i n.progress ≡ none
    → n.policy.is_exempt progress ≡ false
    → All (GoesOn i) es
    → delivered_progress i es n
      ≤ n.policy.soft_max_progress_updates_per_task + ((happen_all es n).now - n.now) / 1800
delivered_progress-cap i es n new x g =
    let end = happen_all-Counted i n.now n.policy es 0 n x g start in
    let p = or_fresh (happen_all es n).now (at i (happen_all es n).progress) in
    omega (
      arith,
      end.tally.counted,
      end.tally.capped,
      div_mono ((happen_all es n).now - p.first_at) ((happen_all es n).now - n.now)
          (omega (arith, end.tally.started)),
    )
  where
    start : Counted i n.now n.policy 0 n
    start = record {
      same = refl;
      tally = rw new (record {
        started = omega arith;
        past = omega arith;
        counted = omega arith;
        capped = omega arith;
      });
    }
