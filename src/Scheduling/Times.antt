-- ===== src/Scheduling/Times.antt =====
-- core/scheduler/parse.py, `next_occurrence`. A local time is its seconds since the start of some
-- Monday; the fields of a rule are those of its JSON object.
pub mod Later
pub mod Next
use nova_ai_agent.Prelude.{
  ℕ, zero, suc, ◌+◌, ◌*◌, ◌/◌, ◌%◌, String, Bool, true, false, ◌&&◌, ◌||◌, Option, none, some, List,
  [], ◌∷◌, ◌==◌, ltb, if◌then◌else◌,
}

-- A rule: every so many minutes, or at a time of the day, on the given days of the week if it is
-- weekly and names some.
pub record Rule : Type 0 where
  pub every_minutes : Option ℕ
  pub hour : ℕ
  pub minute : ℕ
  pub weekly : Bool
  pub days : List ℕ

abbrev pub day_seconds : ℕ
day_seconds = 86400

unfoldable pub number_mem : ℕ → List ℕ → Bool
number_mem n [] = false
number_mem n (m ∷ ms) = (m == n) || number_mem n ms

abbrev pub all_days : List ℕ
all_days = 0 ∷ 1 ∷ 2 ∷ 3 ∷ 4 ∷ 5 ∷ 6 ∷ []

abbrev pub or_all : List ℕ → List ℕ
or_all [] = all_days
or_all (d ∷ ds) = d ∷ ds

abbrev pub allowed_days : Rule → List ℕ
allowed_days r = if r.weekly then or_all r.days else all_days

abbrev pub weekday : ℕ → ℕ
weekday t = t / day_seconds % 7

-- `after.replace(hour=hh, minute=mm, second=0)`
abbrev pub candidate : Rule → ℕ → ℕ
candidate r after = after / day_seconds * day_seconds + r.hour * 3600 + r.minute * 60

-- The loop over the offsets in days.
unfoldable pub first_day : ℕ → List ℕ → ℕ → List ℕ → Option ℕ
unfolding number_mem
first_day after days start [] = none
first_day after days start (i ∷ offsets) =
    let c = start + i * day_seconds in
    let rest = first_day after days start offsets in
    if ltb after c && number_mem (weekday c) days then some c else rest

abbrev pub offsets : List ℕ
offsets = 0 ∷ 1 ∷ 2 ∷ 3 ∷ 4 ∷ 5 ∷ 6 ∷ 7 ∷ []

unfoldable pub next_by : Option ℕ → Rule → ℕ → Option ℕ
unfolding first_day
next_by (some minutes) r after = some (after + minutes * 60)
next_by none r after = first_day after (allowed_days r) (candidate r after) offsets

-- next_occurrence
unfoldable pub next_occurrence : Option Rule → ℕ → Option ℕ
unfolding next_by
next_occurrence none after = none
next_occurrence (some r) after = next_by r.every_minutes r after
