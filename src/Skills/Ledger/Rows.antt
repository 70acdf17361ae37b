-- ===== src/Skills/Ledger/Rows.antt =====
-- The table of side effects: its ids grow, and what a write leaves at a task and key.
use nova_ai_agent.Prelude.{
  ℕ, suc, ◌≤◌, ◌≡◌, refl, String, Bool, true, false, ◌&&◌, Option, none, some, List, [], ◌∷◌, ◌++◌,
  arith, ◌==◌, str_eq, if◌then◌else◌, Bool-cases, inl, inr, ==_sound,
}
use nova_ai_agent.Db.{SideEffect, find_effect, put_effect}
use nova_ai_agent.Skills.Ledger.{by_key}

-- The ids grow along the table, from `low` on, and stay below `high`.
abbrev pub IsLedger : ℕ → List SideEffect → ℕ → Type 0
IsLedger low [] high = low ≤ high
IsLedger low (e ∷ rest) high = (low ≤ e.id) × IsLedger (suc e.id) rest high

-- The test of a row for a task and a key.
abbrev pub matches : ℕ → String → SideEffect → Bool
matches i k e = (e.task_id == i) && str_eq e.key k

pub by_key-matches :
    (i : ℕ) (k : String) (rows : List SideEffect) (e : SideEffect)
    → by_key i k rows ≡ some e
    → matches i k e ≡ true
unfolding by_key
by_key-matches i k [] e h = cc
by_key-matches i k (d ∷ rows) e h = ground (arith, by_key-matches i k rows e)

pub find_effect-id :
    (i : ℕ) (rows : List SideEffect) (e : SideEffect) → find_effect i rows ≡ some e → e.id ≡ i
unfolding find_effect
find_effect-id i [] e h = cc
find_effect-id i (d ∷ rows) e h = ground (arith, find_effect-id i rows e)

pub append-IsLedger :
    (low : ℕ) (rows : List SideEffect) (e : SideEffect)
    → IsLedger low rows e.id
    → IsLedger low (rows ++ e ∷ []) (suc e.id)
append-IsLedger low [] e h = (h, omega arith)
append-IsLedger low (d ∷ rows) e h = (h.0, append-IsLedger (suc d.id) rows e h.1)

pub put-IsLedger :
    (new : SideEffect) (low : ℕ) (rows : List SideEffect) (high : ℕ)
    → IsLedger low rows high
    → IsLedger low (put_effect new rows) high
unfolding put_effect
put-IsLedger new low [] high h = h
put-IsLedger new low (d ∷ rows) high h = elim (Bool-cases (d.id == new.id)) [
  | inl c ↦ rw c (omega (arith, ==_sound d.id new.id c), rw (← ==_sound d.id new.id c) h.1)
  | inr c ↦ rw c (h.0, put-IsLedger new (suc d.id) rows high h.1)
]

IsLedger-below : (low : ℕ) (rows : List SideEffect) (high : ℕ) → IsLedger low rows high → low ≤ high
IsLedger-below low [] high h = h
IsLedger-below low (d ∷ rows) high h = omega (arith, h.0, IsLedger-below (suc d.id) rows high h.1)

-- No row stands at the next id.
pub find_next :
    (low : ℕ) (rows : List SideEffect) (high i : ℕ)
    → IsLedger low rows high
    → high ≤ i
    → find_effect i rows ≡ none
unfolding find_effect
find_next low [] high i h k = refl
find_next low (d ∷ rows) high i h k =
    ground (arith, IsLedger-below (suc d.id) rows high h.1, find_next (suc d.id) rows high i h.1 k)

-- In a table in the order of its ids, the row of a task and key is the row found at its id.
pub by_key-find :
    (i : ℕ) (k : String) (low : ℕ) (rows : List SideEffect) (high : ℕ) (e : SideEffect)
    → IsLedger low rows high
    → by_key i k rows ≡ some e
    → (low ≤ e.id) × (find_effect e.id rows ≡ some e)
unfolding by_key find_effect
by_key-find i k low [] high e h q = cc
by_key-find i k low (d ∷ rows) high e h q = elim (Bool-cases (matches i k d)) [
  | inl c ↦ let same : d ≡ e = ground arith in ground (arith, h.0)
  | inr c ↦ ground (arith, by_key-find i k (suc d.id) rows high e h.1 (rw c at q), h.0)
]

-- A written row that keeps the task and key of the row it replaces.
pub by_key-put :
    (i : ℕ) (k : String) (new old : SideEffect) (rows : List SideEffect)
    → find_effect new.id rows ≡ some old
    → new.task_id ≡ old.task_id
    → new.key ≡ old.key
    → matches i k new ≡ false
    → by_key i k (put_effect new rows) ≡ by_key i k rows
unfolding by_key find_effect put_effect
by_key-put i k new old [] f t e m = cc
by_key-put i k new old (d ∷ rows) f t e m = ground (arith, by_key-put i k new old rows)

pub by_key-put_own :
    (i : ℕ) (k : String) (new old : SideEffect) (low : ℕ) (rows : List SideEffect) (high : ℕ)
    → IsLedger low rows high
    → by_key i k rows ≡ some old
    → new.id ≡ old.id
    → matches i k new ≡ true
    → by_key i k (put_effect new rows) ≡ some new
unfolding by_key put_effect
by_key-put_own i k new old low [] high h q e m = cc
by_key-put_own i k new old low (d ∷ rows) high h q e m = elim (Bool-cases (matches i k d)) [
  | inl c ↦ let same : d ≡ old = ground arith in ground arith
  | inr c ↦
      let later = rw c at q in
      ground (
        arith,
        by_key-find i k (suc d.id) rows high old h.1 later,
        by_key-put_own i k new old (suc d.id) rows high h.1 later e m,
      )
]

-- The first of two rows that is there.
abbrev pub first_of : Option SideEffect → Option SideEffect → Option SideEffect
first_of (some e) o = some e
first_of none o = o

pub by_key-append :
    (i : ℕ) (k : String) (rows : List SideEffect) (new : SideEffect)
    → by_key i k (rows ++ new ∷ [])
      ≡ first_of (by_key i k rows) (if matches i k new then some new else none)
unfolding by_key
by_key-append i k [] new = refl
by_key-append i k (d ∷ rows) new = ground (arith, by_key-append i k rows new)
