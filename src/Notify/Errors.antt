-- ===== src/Notify/Errors.antt =====
-- A repeated error is held back until its cooldown is over, whatever comes in between.
use nova_ai_agent.Prelude.{
  ℕ, ◌+◌, ◌≤◌, ◌<◌, ◌≡◌, refl, ◌∙◌, ap, String, Bool, true, false, Option, none, some, List, [],
  ◌∷◌, arith, lookup, insert, lookup-insert, str_eq, str_eq_refl, eq_iff, if_holds, Bool-cases, inl,
  inr,
}
use nova_ai_agent.Notify.{
  Kind, progress, error, info, approval_required, user_input_required, critical_security_alert,
  task_completed, task_failed_permanently, agent_going_offline, recovery_after_restart, live,
  Policy, Notifier, at, deliver, deliver_live, or_fresh, may_send, update_task, progress_update,
  is_repeated, send_error, is_folded, live_update, flush_found, flush_live, is_final,
  forget_progress, Notice, throttle, notify, Event, message, window_opens, time_passes, happens,
  happen_all,
}

-- An error of this key went out at `since` or later, with this severity or a higher one.
pub record WentOut (policy : Policy) (key : String) (since severity : ℕ) (n : Notifier)
    : Type 0 where
  pub same_policy : n.policy ≡ policy
  pub last : ℕ × ℕ
  pub noted : lookup key n.errors ≡ some last
  pub when : since ≤ last.0
  pub past : last.0 ≤ n.now
  pub grave : severity ≤ last.1

module _ (policy : Policy) (key : String) (since severity : ℕ) where
  abbrev Out : Bool × Notifier → Type 0
  Out r = WentOut policy key since severity r.1

  -- What leaves the errors, the policy and the clock.
  record SameErrors (a b : Notifier) : Type 0 where
    policy_same : b.policy ≡ a.policy
    errors_same : b.errors ≡ a.errors
    now_same : b.now ≡ a.now

  WentOut-same :
      (a b : Notifier)
      → SameErrors a b
      → WentOut policy key since severity a
      → WentOut policy key since severity b
  WentOut-same a b s h = record {
    same_policy = s.policy_same ∙ h.same_policy;
    last = h.last;
    noted = rw s.errors_same h.noted;
    when = h.when;
    past = rw s.now_same h.past;
    grave = h.grave;
  }

  abbrev Same : Notifier → Bool × Notifier → Type 0
  Same n r = SameErrors n r.1

  deliver-Same : (chat_id text : String) (n : Notifier) → Same n (deliver chat_id text n)
  unfolding deliver
  deliver-Same chat_id text n =
      if_holds (Same n) n.sends _ _
        (record { policy_same = refl; errors_same = refl; now_same = refl })
        (record { policy_same = refl; errors_same = refl; now_same = refl })

  -- A step to a later state, in which the error stays noted while its cooldown lasts.
  record Later (a b : Notifier) : Type 0 where
    clock : a.now ≤ b.now
    keeps :
        b.now < since + policy.repeated_error_cooldown_seconds
        → WentOut policy key since severity a
        → WentOut policy key since severity b

  abbrev Goes : Notifier → Bool × Notifier → Type 0
  Goes n r = Later n r.1

  Same-Later : (a b : Notifier) → SameErrors a b → Later a b
  Same-Later a b s = record {
    clock = omega (arith, s.now_same);
    keeps = λ w h. WentOut-same a b s h;
  }

  unchanged : (n : Notifier) → SameErrors n n
  unchanged n = record { policy_same = refl; errors_same = refl; now_same = refl }

  Later-trans : (a b c : Notifier) → Later a b → Later b c → Later a c
  Later-trans a b c h k = record {
    clock = omega (arith, h.clock, k.clock);
    keeps = λ w o. k.keeps w (h.keeps (omega (arith, k.clock, w)) o);
  }

  deliver-Later : (chat_id text : String) (n : Notifier) → Goes n (deliver chat_id text n)
  deliver-Later chat_id text n = Same-Later n _ (deliver-Same chat_id text n)

  -- The note of an error that goes out.
  noted-Later :
      (k : String) (s : ℕ) (n : Notifier)
      → is_repeated n.policy n.now s (lookup k n.errors) ≡ false
      → Later n (record n { errors = insert k (n.now, s) n.errors })
  noted-Later k s n fresh = record {
    clock = omega arith;
    keeps = λ w h. elim (Bool-cases (str_eq k key)) [
      | inl c ↦ record {
        same_policy = h.same_policy;
        last = (n.now, s);
        noted = rw (lookup-insert k key (n.now, s) n.errors) (rw c refl);
        when = omega (arith, h.when, h.past);
        past = omega arith;
        grave = ground (
          arith,
          eq_iff k key,
          h.noted,
          h.when,
          h.past,
          h.grave,
          ap (λ (q : Policy). q.repeated_error_cooldown_seconds) h.same_policy,
        );
      }
      | inr c ↦ record {
        same_policy = h.same_policy;
        last = h.last;
        noted = rw (lookup-insert k key (n.now, s) n.errors) (rw c h.noted);
        when = h.when;
        past = h.past;
        grave = h.grave;
      }
    ];
  }

  send_error-Later :
      (chat_id text k : String) (s : ℕ) (n : Notifier) → Goes n (send_error chat_id text k s n)
  unfolding send_error
  send_error-Later chat_id text k s n =
      elim (Bool-cases (is_repeated n.policy n.now s (lookup k n.errors))) [
        | inl c ↦ rw c (Same-Later n n (unchanged n))
        | inr c ↦ rw c (Later-trans n _ _ (noted-Later k s n c) (deliver-Later chat_id text _))
      ]

  deliver_live-Same :
      (chat_id text : String) (l : ℕ) (n : Notifier) → Same n (deliver_live chat_id text l n)
  unfolding deliver_live
  deliver_live-Same chat_id text l n =
      if_holds (Same n) n.sends _ _
        (record { policy_same = refl; errors_same = refl; now_same = refl }) (unchanged n)

  live_update-Later :
      (chat_id text : String) (l : ℕ) (n : Notifier) → Goes n (live_update chat_id text l n)
  unfolding live_update
  live_update-Later chat_id text l n =
      if_holds (Goes n) (is_folded n.policy n.now (at l n.live_at)) _ _
        (Same-Later n _ (record { policy_same = refl; errors_same = refl; now_same = refl }))
        (Same-Later n _ (record {
          policy_same = (deliver_live-Same chat_id text l _).policy_same;
          errors_same = (deliver_live-Same chat_id text l _).errors_same;
          now_same = (deliver_live-Same chat_id text l _).now_same;
        }))

  progress_update-Later :
      (chat_id text : String) (i : Option ℕ) (n : Notifier)
      → Goes n (progress_update chat_id text i n)
  unfolding progress_update update_task
  progress_update-Later chat_id text none n = deliver-Later chat_id text n
  progress_update-Later chat_id text (some i) n =
      if_holds (Goes n) (may_send n.policy n.now (or_fresh n.now (at i n.progress))) _ _
        (Later-trans n _ _
          (Same-Later n _ (record { policy_same = refl; errors_same = refl; now_same = refl }))
          (deliver-Later chat_id _ _))
        (Same-Later n _ (record { policy_same = refl; errors_same = refl; now_same = refl }))

  flush_found-Later :
      (l : ℕ) (o : Option (String × String)) (n : Notifier) → Later n (flush_found l o n)
  unfolding flush_found
  flush_found-Later l none n = Same-Later n n (unchanged n)
  flush_found-Later l (some (chat_id, text)) n = Same-Later n _ (record {
    policy_same = (deliver_live-Same chat_id text l _).policy_same;
    errors_same = (deliver_live-Same chat_id text l _).errors_same;
    now_same = (deliver_live-Same chat_id text l _).now_same;
  })

  throttle-Later : (m : Notice) (k : Kind) (n : Notifier) → Goes n (throttle m k n)
  unfolding throttle
  throttle-Later m info n = deliver-Later m.chat_id m.text n
  throttle-Later m live n = live_update-Later m.chat_id m.text _ n
  throttle-Later m progress n = progress_update-Later m.chat_id m.text m.task_id n
  throttle-Later m error n = send_error-Later m.chat_id m.text _ m.severity n
  throttle-Later m approval_required n = send_error-Later m.chat_id m.text _ m.severity n
  throttle-Later m user_input_required n = send_error-Later m.chat_id m.text _ m.severity n
  throttle-Later m critical_security_alert n = send_error-Later m.chat_id m.text _ m.severity n
  throttle-Later m task_completed n = send_error-Later m.chat_id m.text _ m.severity n
  throttle-Later m task_failed_permanently n = send_error-Later m.chat_id m.text _ m.severity n
  throttle-Later m agent_going_offline n = send_error-Later m.chat_id m.text _ m.severity n
  throttle-Later m recovery_after_restart n = send_error-Later m.chat_id m.text _ m.severity n

  forget_progress-Same :
      (k : Kind) (i : Option ℕ) (n : Notifier) → SameErrors n (forget_progress k i n)
  unfolding forget_progress
  forget_progress-Same k none n = unchanged n
  forget_progress-Same k (some i) n =
      if_holds (SameErrors n) (is_final k) _ _
        (record { policy_same = refl; errors_same = refl; now_same = refl }) (unchanged n)

  happens-Later : (e : Event) (n : Notifier) → Later n (happens e n)
  unfolding happens notify flush_live
  happens-Later (message m) n =
      if_holds (Goes n) (n.policy.is_exempt m.kind) _ _
        (Later-trans n _ _ (Same-Later n _ (forget_progress-Same m.kind m.task_id n))
          (deliver-Later m.chat_id m.text _))
        (throttle-Later m m.kind n)
  happens-Later (window_opens l) n = flush_found-Later l _ n
  happens-Later (time_passes d) n = record {
    clock = omega arith;
    keeps = λ w h. record {
      same_policy = h.same_policy;
      last = h.last;
      noted = h.noted;
      when = h.when;
      past = omega (arith, h.past);
      grave = h.grave;
    };
  }

  happen_all-Later : (es : List Event) (n : Notifier) → Later n (happen_all es n)
  unfolding happen_all
  happen_all-Later [] n = Same-Later n n (unchanged n)
  happen_all-Later (e ∷ es) n =
      Later-trans n (happens e n) _ (happens-Later e n) (happen_all-Later es (happens e n))

-- An error that goes out is noted.
send_error-WentOut :
    (chat_id text key : String) (severity : ℕ) (n : Notifier)
    → is_repeated n.policy n.now severity (lookup key n.errors) ≡ false
    → WentOut n.policy key n.now severity (send_error chat_id text key severity n).1
unfolding send_error
send_error-WentOut chat_id text key severity n fresh = rw fresh (
    WentOut-same n.policy key n.now severity _ _
      (deliver-Same n.policy key n.now severity chat_id text
        (record n { errors = insert key (n.now, severity) n.errors }))
      (record {
        same_policy = refl;
        last = (n.now, severity);
        noted = rw (lookup-insert key key (n.now, severity) n.errors) (rw (str_eq_refl key) refl);
        when = omega arith;
        past = omega arith;
        grave = omega arith;
      }))

repeated :
    (policy : Policy) (key : String) (since severity lower : ℕ) (n : Notifier)
    → WentOut policy key since severity n
    → n.now < since + policy.repeated_error_cooldown_seconds
    → lower ≤ severity
    → is_repeated n.policy n.now lower (lookup key n.errors) ≡ true
repeated policy key since severity lower n h within low =
    rw (h.noted, h.same_policy) (ground (arith, h.when, h.grave))

-- An error that was not held back is held back when it comes again with the same key and no higher
-- severity before the cooldown is over, whatever messages come in between.
pub error_held_back :
    (chat_id text key : String) (severity : ℕ) (n : Notifier) (es : List Event)
    (other_chat again : String) (lower : ℕ)
    → is_repeated n.policy n.now severity (lookup key n.errors) ≡ false
    → (happen_all es (send_error chat_id text key severity n).1).now
      < n.now + n.policy.repeated_error_cooldown_seconds
    → lower ≤ severity
    → send_error other_chat again key lower
        (happen_all es (send_error chat_id text key severity n).1)
      ≡ (false, happen_all es (send_error chat_id text key severity n).1)
unfolding send_error
error_held_back chat_id text key severity n es other_chat again lower fresh within low =
    let out =
      (happen_all-Later n.policy key n.now severity es
          (send_error chat_id text key severity n).1).keeps
        within (send_error-WentOut chat_id text key severity n fresh) in
    rw (repeated n.policy key n.now severity lower _ out within low) refl
