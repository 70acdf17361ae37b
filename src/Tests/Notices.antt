-- ===== src/Tests/Notices.antt =====
-- The theorems on the notifier, at concrete inputs.
use nova_ai_agent.Prelude.{
  ◌≤◌, ◌+◌, ◌-◌, ◌/◌, List, ◌≡◌, refl, false, true, none, some, [], ◌∷◌, arith,
}
use nova_ai_agent.Notify.{
  progress, Policy, Notifier, Notice, Event, at, send_error, message, time_passes, happen_all,
  deliver,
}
use nova_ai_agent.Notify.Progress.{delivered_progress, GoesOn, delivered_progress-cap}
use nova_ai_agent.Notify.Errors.{error_held_back}

abbrev policy : Policy
policy = record {
  min_progress_interval_seconds = 60;
  soft_max_progress_updates_per_task = 5;
  batch_small_results = true;
  repeated_error_cooldown_seconds = 300;
  live_edit_seconds = 2;
  is_exempt = λ k. false;
}

abbrev quiet : Notifier
quiet = record {
  policy = policy;
  sends = true;
  now = 100;
  progress = [];
  errors = [];
  live_at = [];
  live_pending = [];
  delivered = [];
}

abbrev step_done : Notice
step_done = record {
  chat_id = "7";
  kind = progress;
  text = "step done";
  task_id = some 3;
  error_key = none;
  severity = 0;
}

-- Two updates within the interval.
abbrev updates : List Event
updates = message step_done ∷ time_passes 30 ∷ message step_done ∷ []

delivered_progress-cap_example :
    delivered_progress 3 updates quiet ≤ 5 + ((happen_all updates quiet).now - 100) / 1800
unfolding at
delivered_progress-cap_example =
    delivered_progress-cap 3 updates quiet refl refl (goes_on, (tt, (goes_on, tt)))
  where
    goes_on : GoesOn 3 (message step_done)
    goes_on e = (λ k. cc, λ k. cc)

error_held_back_example :
    send_error "7" "disk is full" "disk" 1
      (happen_all (time_passes 200 ∷ []) (send_error "7" "disk full" "disk" 2 quiet).1)
    ≡ (false, happen_all (time_passes 200 ∷ []) (send_error "7" "disk full" "disk" 2 quiet).1)
unfolding happen_all send_error deliver
error_held_back_example =
    error_held_back "7" "disk full" "disk" 2 quiet (time_passes 200 ∷ []) "7" "disk is full" 1 refl
      (omega arith) (omega arith)
