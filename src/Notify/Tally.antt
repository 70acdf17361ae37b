-- ===== src/Notify/Tally.antt =====
-- The count of a task's progress messages, through each method of the notifier.
use nova_ai_agent.Prelude.{
  ℕ, ◌+◌, ◌-◌, ◌/◌, ◌≤◌, ◌≡◌, refl, ap, String, Bool, true, false, Option, none, some, List, [],
  ◌∷◌, arith, lookup, ◌==◌, length, length-append, if_holds, if◌then◌else◌, Bool-cases, inl, inr,
}
use nova_ai_agent.Notify.{
  Kind, Policy, TaskProgress, Notifier, at, put, pop, deliver, deliver_live, or_fresh, cap_of,
  may_send, held, sent_now, update_task, is_repeated, send_error, is_folded, live_update,
  flush_found, is_final, forget_progress, joined,
}

at-put :
    (i k : ℕ) (v : TaskProgress) (m : List (ℕ × TaskProgress))
    → at i (put k v m) ≡ (if k == i then some v else at i m)
unfolding at put
at-put i k v [] = refl
at-put i k v ((j, w) ∷ m) = ground (arith, at-put i k v m)

at-pop : (i k : ℕ) (m : List (ℕ × TaskProgress)) → (k == i) ≡ false → at i (pop k m) ≡ at i m
unfolding at pop
at-pop i k [] h = refl
at-pop i k ((j, w) ∷ m) h = ground (arith, at-pop i k m h)

pub div_mono : (a b : ℕ) → a ≤ b → a / 1800 ≤ b / 1800
div_mono a b h = omega (arith, h)

module _ (i t₀ : ℕ) (policy : Policy) where
  -- The task's updates, since `t₀`: `c` or more were counted as sent, and no more than its cap.
  pub record Tallied (c now : ℕ) (p : TaskProgress) : Type 0 where
    pub started : t₀ ≤ p.first_at
    pub past : p.first_at ≤ now
    pub counted : c ≤ p.sent
    pub capped : p.sent ≤ cap_of policy now p

  pub record Counted (c : ℕ) (n : Notifier) : Type 0 where
    pub same : n.policy ≡ policy
    pub tally : Tallied c n.now (or_fresh n.now (at i n.progress))

  pub later-Tallied :
      (c now d : ℕ) (o : Option TaskProgress)
      → Tallied c now (or_fresh now o)
      → Tallied c (now + d) (or_fresh (now + d) o)
  later-Tallied c now d none h = record {
    started = omega (arith, h.started);
    past = omega arith;
    counted = h.counted;
    capped = omega arith;
  }
  later-Tallied c now d (some p) h = record {
    started = h.started;
    past = omega (arith, h.past);
    counted = h.counted;
    capped =
        omega (
          arith,
          h.capped,
          h.past,
          div_mono (now - p.first_at) (now + d - p.first_at) (omega arith),
        );
  }

  -- The state after a message was taken or refused.
  abbrev pub After : ℕ → Bool × Notifier → Type 0
  After c r = Counted c r.1

  pub deliver-Counted :
      (c : ℕ) (chat_id text : String) (n : Notifier)
      → Counted c n
      → After c (deliver chat_id text n)
  unfolding deliver
  deliver-Counted c chat_id text n h =
      if_holds (After c) n.sends _ _ (record { same = h.same; tally = h.tally }) h

  deliver_live-Counted :
      (c : ℕ) (chat_id text : String) (key : ℕ) (n : Notifier)
      → Counted c n
      → After c (deliver_live chat_id text key n)
  unfolding deliver_live
  deliver_live-Counted c chat_id text key n h =
      if_holds (After c) n.sends _ _ (record { same = h.same; tally = h.tally }) h

  pub send_error-Counted :
      (c : ℕ) (chat_id text key : String) (severity : ℕ) (n : Notifier)
      → Counted c n
      → After c (send_error chat_id text key severity n)
  unfolding send_error
  send_error-Counted c chat_id text key severity n h =
      if_holds (After c) (is_repeated n.policy n.now severity (lookup key n.errors)) _ _ h
        (deliver-Counted c chat_id text _ (record { same = h.same; tally = h.tally }))

  pub live_update-Counted :
      (c : ℕ) (chat_id text : String) (key : ℕ) (n : Notifier)
      → Counted c n
      → After c (live_update chat_id text key n)
  unfolding live_update
  live_update-Counted c chat_id text key n h =
      if_holds (After c) (is_folded n.policy n.now (at key n.live_at)) _ _
        (record { same = h.same; tally = h.tally })
        (deliver_live-Counted c chat_id text key _ (record { same = h.same; tally = h.tally }))

  pub flush_found-Counted :
      (c key : ℕ) (o : Option (String × String)) (n : Notifier)
      → Counted c n
      → Counted c (flush_found key o n)
  unfolding flush_found
  flush_found-Counted c key none n h = h
  flush_found-Counted c key (some (chat_id, text)) n h =
      deliver_live-Counted c chat_id text key _ (record { same = h.same; tally = h.tally })

  -- An entry of another task.
  put-Counted :
      (c k : ℕ) (v : TaskProgress) (n : Notifier)
      → (k == i) ≡ false
      → Counted c n
      → Counted c (record n { progress = put k v n.progress })
  put-Counted c k v n e h = record {
    same = h.same;
    tally = rw (at-put i k v n.progress) (rw e h.tally);
  }

  pub other_task-Counted :
      (c : ℕ) (chat_id text : String) (k : ℕ) (p : TaskProgress) (n : Notifier)
      → (k == i) ≡ false
      → Counted c n
      → After c (update_task chat_id text k p n)
  unfolding update_task
  other_task-Counted c chat_id text k p n e h =
      if_holds (After c) (may_send n.policy n.now p) _ _
        (deliver-Counted c chat_id _ _ (put-Counted c k (sent_now n.now p) n e h))
        (put-Counted c k (held n.policy text p) n e h)

  fewer-Counted : (c c' : ℕ) (n : Notifier) → c' ≤ c → Counted c n → Counted c' n
  fewer-Counted c c' n k h = record {
    same = h.same;
    tally = record {
      started = h.tally.started;
      past = h.tally.past;
      counted = omega (arith, k, h.tally.counted);
      capped = h.tally.capped;
    };
  }

  deliver_grows :
      (chat_id text : String) (n : Notifier)
      → length (deliver chat_id text n).1.delivered ≤ length n.delivered + 1
  unfolding deliver
  deliver_grows chat_id text n = elim (Bool-cases n.sends) [
    | inl e ↦ rw e (
        omega (
          arith,
          length-append n.delivered
              (record { chat_id = chat_id; text = text; live_key = none } ∷ []),
        ))
    | inr e ↦ rw e (omega arith)
  ]

  -- How many messages more are delivered.
  abbrev pub grown : Notifier → Notifier → ℕ
  grown n after = length after.delivered - length n.delivered

  sent-Counted :
      (c : ℕ) (p : TaskProgress) (n : Notifier)
      → n.policy ≡ policy
      → Tallied c n.now p
      → may_send n.policy n.now p ≡ true
      → Counted (c + 1) (record n { progress = put i (sent_now n.now p) n.progress })
  sent-Counted c p n s h e = record {
    same = s;
    tally = rw (at-put i i (sent_now n.now p) n.progress) (
        let mine : (i == i) ≡ true = ground arith in
        let room : p.sent + 1 ≤ cap_of n.policy n.now p = ground arith in
        rw mine (record {
          started = h.started;
          past = h.past;
          counted = omega (arith, h.counted);
          capped = omega (arith, rw s at room);
        }));
  }

  held-Tallied :
      (c now : ℕ) (text : String) (q : Policy) (p : TaskProgress)
      → Tallied c now p
      → Tallied c now (held q text p)
  held-Tallied c now text q p h =
      if_holds (Tallied c now) q.batch_small_results _ _
        (record { started = h.started; past = h.past; counted = h.counted; capped = h.capped }) h

  pub own_task-Counted :
      (c : ℕ) (chat_id text : String) (p : TaskProgress) (n : Notifier)
      → n.policy ≡ policy
      → Tallied c n.now p
      → Counted (c + grown n (update_task chat_id text i p n).1) (update_task chat_id text i p n).1
  unfolding update_task
  own_task-Counted c chat_id text p n s h = elim (Bool-cases (may_send n.policy n.now p)) [
    | inl e ↦ rw e (
        fewer-Counted (c + 1) _ _
          (omega (arith, deliver_grows chat_id (joined p.pending text) sent))
          (deliver-Counted (c + 1) chat_id _ sent (sent-Counted c p n s h e)))
    | inr e ↦ rw e (
        fewer-Counted c _ _ (omega arith) (record {
          same = s;
          tally = rw (at-put i i (held n.policy text p) n.progress) (
              let mine : (i == i) ≡ true = ground arith in
              rw mine (held-Tallied c n.now text n.policy p h));
        }))
  ]
    where
      sent : Notifier
      sent = record n { progress = put i (sent_now n.now p) n.progress }

  pub forget-Counted :
      (c : ℕ) (k : Kind) (t : Option ℕ) (n : Notifier)
      → (t ≡ some i → is_final k ≡ false)
      → Counted c n
      → Counted c (forget_progress k t n)
  unfolding forget_progress
  forget-Counted c k none n g h = h
  forget-Counted c k (some j) n g h = elim (Bool-cases (j == i)) [
    | inl e ↦ let same : j ≡ i = ground arith in rw (g (ap some same)) h
    | inr e ↦
        if_holds (Counted c) (is_final k) _ _
          (record { same = h.same; tally = rw (at-pop i j n.progress e) h.tally }) h
  ]
