-- ===== src/Scheduling/Times/Later.antt =====
-- What the search for a day passes (core/scheduler/parse.py).
use nova_ai_agent.Prelude.{
  ℕ, ◌+◌, ◌*◌, ◌<◌, ◌≡◌, true, ◌&&◌, some, List, [], ◌∷◌, ltb, arith, Bool-cases, inl, inr,
}
use nova_ai_agent.Scheduling.Times.{number_mem, weekday, first_day, day_seconds}

pub first_day-later :
    (after : ℕ) (days : List ℕ) (start : ℕ) (is : List ℕ) (t : ℕ)
    → first_day after days start is ≡ some t
    → (after < t) × (number_mem (weekday t) days ≡ true)
unfolding first_day
first_day-later after days start [] t e = cc
first_day-later after days start (i ∷ is) t e =
    let c = start + i * day_seconds in
    elim (Bool-cases (ltb after c && number_mem (weekday c) days)) [
      | inl h ↦ let same : c ≡ t = ground arith in rw (← same) (ground arith, ground arith)
      | inr h ↦ first_day-later after days start is t (rw h at e)
    ]
