-- ===== src/Scheduling/Runner/Firing.antt =====
-- When a job that was started runs again (core/scheduler/runner.py).
use nova_ai_agent.Prelude.{
  ℕ, suc, ◌+◌, ◌*◌, ◌<◌, ◌≡◌, ◌≢◌, ◌⊎◌, refl, true, false, Option-cases, eq_iff, Option, none, some,
  List, [], ◌∷◌, ◌==◌, str_eq, arith, Bool-cases, inl, inr,
}
use nova_ai_agent.Exec.{ok}
use nova_ai_agent.Queue.Store.{create}
use nova_ai_agent.Scheduling.Times.{Rule, next_occurrence, next_by}
use nova_ai_agent.Scheduling.Times.Next.{IsDaily, next_occurrence-first}
use nova_ai_agent.Scheduling.Schedules.{Schedule, Book, find_schedule, change_row, fired_row, fired}
use nova_ai_agent.Scheduling.Runner.{Setup, next_run, tell, start, started, record_fire, fire}

find_schedule-change_row :
    (i : ℕ) (f : Schedule → Schedule) (js : List Schedule) (j : Schedule)
    → ((j : Schedule) → (f j).id ≡ j.id)
    → find_schedule i js ≡ some j
    → find_schedule i (change_row i f js) ≡ some (f j)
unfolding find_schedule change_row
find_schedule-change_row i f [] j k e = cc
find_schedule-change_row i f (u ∷ us) j k e = elim (Bool-cases (u.id == i)) [
  | inl c ↦ ground (arith, k u)
  | inr c ↦ ground (arith, find_schedule-change_row i f us j k)
]

tell-schedules : (s : Setup) (job : Schedule) (b : Book) → (tell s job b).schedules ≡ b.schedules
unfolding tell
tell-schedules s job b = ground arith

-- Starting a job never raises, and leaves the schedules.
start-schedules :
    (s : Setup) (job : Schedule) (b : Book)
    → (task_id : Option ℕ) × ((start s job b).0 ≡ ok task_id)
      × ((start s job b).1.schedules ≡ b.schedules)
unfolding start started create
start-schedules s job b = elim (Bool-cases (str_eq job.action "remind")) [
  | inl c ↦ (none, rw c refl, rw c (tell-schedules s job b))
  | inr c ↦ elim (Bool-cases s.has_wake) [
    | inl w ↦ (some b.db.next_task, rw c refl, rw (c, w) (tell-schedules s job _))
    | inr w ↦ (some b.db.next_task, rw c refl, rw (c, w) (tell-schedules s job _))
  ]
]

-- A job that is not recurring, or has no rule, is over: it is off and has no next run.
pub record Over (job new : Schedule) : Type 0 where
  pub once : (job.kind ≢ "recurring") ⊎ (job.rule ≡ none)
  pub off : new.enabled ≡ false
  pub no_run : new.next_run_at ≡ none

-- A recurring job stays on, and its next run is at a local time later than the present one.
pub record Again (s : Setup) (job new : Schedule) (now : ℕ) : Type 0 where
  pub kind : job.kind ≡ "recurring"
  pub on : new.enabled ≡ true
  pub local : ℕ
  pub run : new.next_run_at ≡ some (s.to_utc local)
  pub later : s.to_local now < local

-- The rule has a next time: it counts minutes, or it is a daily one.
abbrev pub Recurs : Rule → Type 0
Recurs r = ((n : ℕ) × (r.every_minutes ≡ some (suc n))) ⊎ IsDaily r

Recurs-later :
    (r : Rule) (after : ℕ)
    → Recurs r
    → (t : ℕ) × (next_occurrence (some r) after ≡ some t) × (after < t)
unfolding next_occurrence next_by
Recurs-later r after (inl (n, e)) = (after + suc n * 60, rw e refl, omega arith)
Recurs-later r after (inr d) = let (t, e, l, _, _) = next_occurrence-first r d after in (t, e, l)

module _ (s : Setup) (job row : Schedule) (now at : ℕ) (tid : Option ℕ) where
  abbrev next : Schedule
  next = fired_row at (next_run s job now) tid row

  next-Again :
      job.kind ≡ "recurring" → (r : Rule) → job.rule ≡ some r → Recurs r → Again s job next now
  unfolding next_run
  next-Again k r e c =
      let (t, f, l) = Recurs-later r (s.to_local now) c in
      let run : next_run s job now ≡ some (s.to_utc t) = rw (k, e, f) refl in
      record { kind = k; on = rw run refl; local = t; run = run; later = l }

  next-Over : (job.kind ≢ "recurring") ⊎ (job.rule ≡ none) → Over job next
  unfolding next_run next_occurrence
  next-Over h =
      let run : next_run s job now ≡ none = by_kind h in
      record { once = h; off = rw run refl; no_run = run }
    where
      by_kind : (job.kind ≢ "recurring") ⊎ (job.rule ≡ none) → next_run s job now ≡ none
      by_kind (inl n) = elim (Bool-cases (str_eq job.kind "recurring")) [
        | inl c ↦ absurd (n (ground (arith, eq_iff job.kind "recurring")))
        | inr c ↦ rw c refl
      ]
      by_kind (inr e) = elim (Bool-cases (str_eq job.kind "recurring")) [
        | inl c ↦ rw (c, e) refl
        | inr c ↦ rw c refl
      ]

  next-ends : ((r : Rule) → job.rule ≡ some r → Recurs r) → Over job next ⊎ Again s job next now
  next-ends recurs = elim (Bool-cases (str_eq job.kind "recurring")) [
    | inr c ↦ inl (next-Over (inl (λ e. ground (arith, eq_iff job.kind "recurring"))))
    | inl c ↦ elim (Option-cases job.rule) [
      | inl e ↦ inl (next-Over (inr e))
      | inr (r, e) ↦ inr (next-Again (ground (arith, eq_iff job.kind "recurring")) r e (recurs r e))
    ]
  ]

-- Starting a job whose row stands in the table never raises, and counts the run. A job that is not
-- recurring, or has no rule, is over: off, without a next run. Any other stays on, and its next run is at
-- a local time later than the present one. Asked is that the rule counts at least one minute, or has a
-- time of the day and valid days.
pub fire-Again :
    (s : Setup) (job row : Schedule) (now : ℕ) (b : Book)
    → find_schedule job.id b.schedules ≡ some row
    → ((r : Rule) → job.rule ≡ some r → Recurs r)
    → (new : Schedule) × ((fire s job now b).0 ≡ ok tt)
      × (find_schedule job.id (fire s job now b).1.schedules ≡ some new)
      × (new.run_count ≡ row.run_count + 1)
      × (Over job new ⊎ Again s job new now)
unfolding fire record_fire fired
fire-Again s job row now b found recurs =
    let (tid, e, same) = start-schedules s job b in
    let nxt = next_run s job now in
    let b' = (start s job b).1 in
    (
      fired_row b'.db.clock nxt tid row,
      rw e refl,
      rw e (
          find_schedule-change_row job.id (fired_row b'.db.clock nxt tid) b'.schedules row
            (λ j. refl) (rw same found)),
      refl,
      next-ends s job row now b'.db.clock tid recurs,
    )
