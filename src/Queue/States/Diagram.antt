-- ===== src/Queue/States/Diagram.antt =====
-- What the transition table of core/queue/states.py allows along whole paths.
use mathlib.Core.List.{Memᴰ}
use nova_ai_agent.Prelude.{◌≡◌, refl, sym, true, false, List, [], ◌∷◌, arith, ◌⊎◌, inl, inr}
use nova_ai_agent.Queue.States.{
  TaskState, received, planning, running, verifying, completed, paused, failed, cancelled, retrying,
  terminal, can_transition,
}

-- A path of allowed transitions.
pub data Run : TaskState → TaskState → Type 0 where
  here : {s : TaskState} → Run s s
  step : {s t u : TaskState} → can_transition s t ≡ true → Run t u → Run s u

-- The states that a path passes on its way, its end left out.
abbrev pub visits : {s t : TaskState} → Run s t → List TaskState
visits here = []
visits (step {s = s} h r) = s ∷ visits r

-- No transition leaves a terminal state, and a state that is not terminal can always be failed or
-- cancelled.
pub terminal-iff_no_exit :
    (s : TaskState)
    → (terminal s ≡ true → (t : TaskState) → can_transition s t ≡ false)
      × (terminal s ≡ false
          → (can_transition s failed ≡ true) × (can_transition s cancelled ≡ true))
unfolding can_transition terminal
terminal-iff_no_exit s = (λ h t. ground arith, λ h. ground arith)

into_completed : (s : TaskState) → can_transition s completed ≡ true → s ≡ verifying
unfolding can_transition
into_completed s h = ground arith

into_verifying : (s : TaskState) → can_transition s verifying ≡ true → s ≡ running
unfolding can_transition
into_verifying s h = ground arith

-- How far a path to COMPLETED has come.
Progress : (s : TaskState) → List TaskState → Type 0
Progress s v =
    (s ≡ completed) ⊎ ((s ≡ verifying) × Memᴰ verifying v) ⊎ (Memᴰ running v × Memᴰ verifying v)

path-Progress : {s t : TaskState} (r : Run s t) → t ≡ completed → Progress s (visits r)
unfolding Progress
path-Progress here e = inl e
path-Progress (step {s = s} {t = t} h r) e = elim (path-Progress r e) [
  | inl p ↦ let last = into_completed s (ground arith) in inr (inl (last, Memᴰ.head (sym last)))
  | inr (inl (p, m)) ↦ inr (inr (Memᴰ.head (sym (into_verifying s (ground arith))), Memᴰ.tail m))
  | inr (inr (m, n)) ↦ inr (inr (Memᴰ.tail m, Memᴰ.tail n))
]

-- Every path of allowed transitions from RECEIVED to COMPLETED passes RUNNING and VERIFYING.
pub completed_needs_verifying :
    (r : Run received completed) → Memᴰ running (visits r) × Memᴰ verifying (visits r)
unfolding Progress
completed_needs_verifying r = elim (path-Progress r refl) [
  | inl p ↦ absurd (ground arith)
  | inr (inl (p, m)) ↦ absurd (ground arith)
  | inr (inr m) ↦ m
]

-- From every state that is not terminal there is a path of allowed transitions to COMPLETED.
pub completed_reachable : (s : TaskState) → terminal s ≡ false → Run s completed
unfolding can_transition terminal
completed_reachable received h =
    step {t = planning} refl (step {t = running} refl (step {t = verifying} refl (step refl here)))
completed_reachable planning h =
    step {t = running} refl (step {t = verifying} refl (step refl here))
completed_reachable running h = step {t = verifying} refl (step refl here)
completed_reachable verifying h = step refl here
completed_reachable paused h =
    step {t = retrying} refl (step {t = running} refl (step {t = verifying} refl (step refl here)))
completed_reachable completed h = here
completed_reachable failed h = cc
completed_reachable cancelled h = cc
completed_reachable _ h = step {t = running} refl (step {t = verifying} refl (step refl here))
