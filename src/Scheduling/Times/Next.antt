-- ===== src/Scheduling/Times/Next.antt =====
-- The next occurrence of a rule with a time of the day (core/scheduler/parse.py) is the first one.
use mathlib.Core.List.{Memᴰ}
use nova_ai_agent.Prelude.{
  ℕ, suc, ◌+◌, ◌-◌, ◌*◌, ◌/◌, ◌%◌, ◌<◌, ◌≤◌, ◌≡◌, ◌⊎◌, refl, Bool, true, false, ◌&&◌, none, some,
  List, [], ◌∷◌, ◌==◌, ltb, arith, length, All, Bool-cases, Option-cases, inl, inr, if◌then◌else◌,
}
use nova_ai_agent.Scheduling.Times.{
  Rule, number_mem, allowed_days, or_all, all_days, weekday, candidate, first_day, next_by,
  next_occurrence, offsets, day_seconds,
}
use nova_ai_agent.Scheduling.Times.Later.{first_day-later}

-- A daily rule falls on every day; a weekly one on its days, or on every day if it names none.
abbrev pub AllowedDay : Rule → ℕ → Type 0
AllowedDay r day = (r.weekly ≡ false) ⊎ (r.days ≡ []) ⊎ Memᴰ day r.days

-- A local time that the rule names: its time of the day, on a day that it allows.
abbrev pub Falls : Rule → ℕ → Type 0
Falls r t = (t % 86400 ≡ r.hour * 3600 + r.minute * 60) × AllowedDay r (t / 86400 % 7)

-- A rule with a time of the day and with days of the week.
pub record IsDaily (r : Rule) : Type 0 where
  pub at_time : r.every_minutes ≡ none
  pub hours : r.hour < 24
  pub minutes : r.minute < 60
  pub week : All (λ d. d < 7) r.days

number_mem-Mem : (n : ℕ) (days : List ℕ) → number_mem n days ≡ true → Memᴰ n days
unfolding number_mem
number_mem-Mem n [] h = cc
number_mem-Mem n (m ∷ ms) h = elim (Bool-cases (m == n)) [
  | inl c ↦ Memᴰ.head (ground arith)
  | inr c ↦ Memᴰ.tail (number_mem-Mem n ms (ground arith))
]

Mem-number_mem : (n : ℕ) (days : List ℕ) → Memᴰ n days → number_mem n days ≡ true
unfolding number_mem
Mem-number_mem n [] m = elim m [ ]
Mem-number_mem n (d ∷ ds) (Memᴰ.head e) = ground arith
Mem-number_mem n (d ∷ ds) (Memᴰ.tail m) = ground (arith, Mem-number_mem n ds m)

all_days-mem : (n : ℕ) → n < 7 → number_mem n all_days ≡ true
unfolding number_mem
all_days-mem n h = ground arith

module _ (r : Rule) (d : ℕ) where
  allowed_days-AllowedDay : number_mem d (allowed_days r) ≡ true → AllowedDay r d
  allowed_days-AllowedDay h = by_weekly r.weekly refl h
    where
      by_days : (ds : List ℕ) → r.days ≡ ds → number_mem d (or_all ds) ≡ true → AllowedDay r d
      by_days [] e h = inr (inl e)
      by_days (x ∷ xs) e h = inr (inr (rw e (number_mem-Mem d (x ∷ xs) h)))

      by_weekly :
          (b : Bool)
          → r.weekly ≡ b
          → number_mem d (if b then or_all r.days else all_days) ≡ true
          → AllowedDay r d
      by_weekly true e h = by_days r.days refl h
      by_weekly false e h = inl e

  AllowedDay-allowed_days : d < 7 → AllowedDay r d → number_mem d (allowed_days r) ≡ true
  AllowedDay-allowed_days k (inl e) = rw e (all_days-mem d k)
  AllowedDay-allowed_days k (inr a) = by_weekly r.weekly
    where
      by_days : (ds : List ℕ) → (ds ≡ []) ⊎ Memᴰ d ds → number_mem d (or_all ds) ≡ true
      by_days [] a = all_days-mem d k
      by_days (x ∷ xs) (inl e) = cc
      by_days (x ∷ xs) (inr m) = Mem-number_mem d (x ∷ xs) m

      by_weekly : (b : Bool) → number_mem d (if b then or_all r.days else all_days) ≡ true
      by_weekly true = by_days r.days a
      by_weekly false = all_days-mem d k

-- The list counts up from `n`.
abbrev Counts : ℕ → List ℕ → Type 0
Counts n [] = Unit
Counts n (i ∷ is) = (i ≡ n) × Counts (suc n) is

offsets-Counts : Counts 0 offsets
offsets-Counts = (refl, (refl, (refl, (refl, (refl, (refl, (refl, (refl, tt))))))))

module _ (after : ℕ) (days : List ℕ) (start : ℕ) where
  -- A day of the search that passes.
  abbrev Passes : ℕ → Type 0
  Passes k =
      (after < start + k * day_seconds)
      × (number_mem (weekday (start + k * day_seconds)) days ≡ true)

  first_day-least :
      (n : ℕ) (is : List ℕ) (t k : ℕ)
      → Counts n is
      → first_day after days start is ≡ some t
      → n ≤ k
      → Passes k
      → t ≤ start + k * day_seconds
  unfolding first_day
  first_day-least n [] t k c e h p = cc
  first_day-least n (i ∷ is) t k c e h p =
      let day = start + i * day_seconds in
      elim (Bool-cases (ltb after day && number_mem (weekday day) days)) [
        | inl b ↦ let same : day ≡ t = ground arith in omega (arith, same, c.0, h)
        | inr b ↦ elim (Bool-cases (k == n)) [
          | inl s ↦
              let same : k ≡ i = ground (arith, c.0) in
              let q : Passes i = rw (← same) p in ground arith
          | inr s ↦ first_day-least (suc n) is t k c.1 (rw b at e) (ground arith) p
        ]
      ]

  first_day-none :
      (n : ℕ) (is : List ℕ) (k : ℕ)
      → Counts n is
      → first_day after days start is ≡ none
      → n ≤ k
      → k < n + length is
      → Passes k
      → ⊥
  unfolding first_day
  first_day-none n [] k c e h l p = omega (arith, h, l)
  first_day-none n (i ∷ is) k c e h l p =
      let day = start + i * day_seconds in
      elim (Bool-cases (ltb after day && number_mem (weekday day) days)) [
        | inl b ↦ let bad = rw b at e in cc
        | inr b ↦ elim (Bool-cases (k == n)) [
          | inl s ↦
              let same : k ≡ i = ground (arith, c.0) in
              let q : Passes i = rw (← same) p in ground arith
          | inr s ↦ first_day-none (suc n) is k c.1 (rw b at e) (ground arith) (omega (arith, l)) p
        ]
      ]

  first_day-shape :
      (is : List ℕ) (t : ℕ)
      → first_day after days start is ≡ some t
      → (k : ℕ) × (t ≡ start + k * day_seconds)
  unfolding first_day
  first_day-shape [] t e = cc
  first_day-shape (i ∷ is) t e =
      let day = start + i * day_seconds in
      elim (Bool-cases (ltb after day && number_mem (weekday day) days)) [
        | inl b ↦ (i, ground arith)
        | inr b ↦ first_day-shape is t (rw b at e)
      ]

module _ (r : Rule) (daily : IsDaily r) where
  -- The rule has a day.
  some_day : (d : ℕ) × (d < 7) × AllowedDay r d
  some_day = by_days r.days refl daily.week
    where
      by_days :
          (ds : List ℕ) → r.days ≡ ds → All (λ d. d < 7) ds → (d : ℕ) × (d < 7) × AllowedDay r d
      by_days [] e a = (0, omega arith, inr (inl e))
      by_days (x ∷ xs) e a = (x, a.0, inr (inr (rw e (Memᴰ.head refl))))

  module _ (after : ℕ) where
    abbrev start : ℕ
    start = candidate r after

    start_day : (k : ℕ) → (start + k * day_seconds) / 86400 ≡ after / 86400 + k
    start_day k = omega (arith, daily.hours, daily.minutes)

    start_time : (k : ℕ) → (start + k * day_seconds) % 86400 ≡ r.hour * 3600 + r.minute * 60
    start_time k = omega (arith, daily.hours, daily.minutes)

    -- How many days from today the day `d` of the week comes.
    abbrev wait : ℕ → ℕ
    wait d = 1 + (d + 7 - (after / 86400 + 1) % 7) % 7

    wait_day : (d : ℕ) → d < 7 → (after / 86400 + wait d) % 7 ≡ d
    wait_day d h = omega (arith, h)

    wait-Passes : (d : ℕ) → d < 7 → AllowedDay r d → Passes after (allowed_days r) start (wait d)
    wait-Passes d h a =
        let day = start_day (wait d) in
        let same = wait_day d h in
        (omega (arith, daily.hours), rw day (rw same (AllowedDay-allowed_days r d h a)))

    falls :
        (t k : ℕ)
        → t ≡ start + k * day_seconds
        → number_mem (weekday t) (allowed_days r) ≡ true
        → Falls r t
    falls t k e m = (rw e (start_time k), allowed_days-AllowedDay r (weekday t) m)

    first_only :
        (t u : ℕ)
        → first_day after (allowed_days r) start offsets ≡ some t
        → after < u
        → Falls r u
        → t ≤ u
    first_only t u e later f =
        let k = u / 86400 - after / 86400 in
        let same : u ≡ start + k * day_seconds = omega (arith, later, f.0) in
        let allowed : number_mem (weekday u) (allowed_days r) ≡ true =
          AllowedDay-allowed_days r (weekday u) (omega arith) f.1 in
        rw same (
          first_day-least after (allowed_days r) start 0 offsets t k offsets-Counts e (omega arith)
            (omega (arith, later, same), rw (← same) allowed))

    -- A rule with a time of the day and valid days has a next occurrence after any time: it falls on that
    -- time of the day, on an allowed day, and is the first such time that is strictly later.
    pub next_occurrence-first :
        (t : ℕ) × (next_occurrence (some r) after ≡ some t)
        × (after < t)
        × Falls r t
        × ((u : ℕ) → after < u → Falls r u → t ≤ u)
    unfolding next_occurrence
    next_occurrence-first = elim (Option-cases (first_day after (allowed_days r) start offsets)) [
      | inl e ↦
          let (d, h, a) = some_day in
          absurd (
            first_day-none after (allowed_days r) start 0 offsets (wait d) offsets-Counts e
              (omega arith) (omega arith) (wait-Passes d h a))
      | inr (t, e) ↦
          let (k, s) = first_day-shape after (allowed_days r) start offsets t e in
          let (l, m) = first_day-later after (allowed_days r) start offsets t e in
          (t, rw (daily.at_time, next_by) e, l, falls t k s m, λ u. first_only t u e)
    ]
