-- ===== src/Queue/Store/Order.antt =====
-- A table in the order of its ids: every row is the one found at its id, and so are the rows that a
-- query selects.
use nova_ai_agent.Prelude.{
  ℕ, suc, ◌≤◌, ◌≡◌, Bool, true, some, List, [], ◌∷◌, arith, All, keep, ==_refl, Bool-cases, inl,
  inr,
}
use nova_ai_agent.Db.{Task, find_task}
use nova_ai_agent.Queue.Store.Invariant.{IsOrdered}

abbrev pub FoundIn : List Task → Task → Type 0
FoundIn table t = find_task t.id table ≡ some t

pub All-imp :
    (P Q : Task → Type 0) (ts : List Task) → ((t : Task) → P t → Q t) → All P ts → All Q ts
All-imp P Q [] f h = tt
All-imp P Q (t ∷ ts) f h = (f t h.0, All-imp P Q ts f h.1)

pub All-both :
    (P Q : Task → Type 0) (ts : List Task) → All P ts → All Q ts → All (λ t. P t × Q t) ts
All-both P Q [] h k = tt
All-both P Q (t ∷ ts) h k = ((h.0, k.0), All-both P Q ts h.1 k.1)

pub IsOrdered-le :
    (low : ℕ) (ts : List Task) (high : ℕ) → IsOrdered low ts high → All (λ t. low ≤ t.id) ts
IsOrdered-le low [] high h = tt
IsOrdered-le low (t ∷ ts) high h = (
  h.0,
  All-imp (λ u. suc t.id ≤ u.id) (λ u. low ≤ u.id) ts (λ u k. omega arith)
      (IsOrdered-le (suc t.id) ts high h.1),
)

IsOrdered-lower :
    (low low' : ℕ) (ts : List Task) (high : ℕ)
    → low ≤ low'
    → IsOrdered low' ts high
    → IsOrdered low ts high
IsOrdered-lower low low' [] high l h = omega arith
IsOrdered-lower low low' (t ∷ ts) high l h = (omega arith, h.1)

FoundIn-cons : (t u : Task) (ts : List Task) → suc t.id ≤ u.id → FoundIn ts u → FoundIn (t ∷ ts) u
unfolding find_task
FoundIn-cons t u ts h k = ground arith

pub IsOrdered-FoundIn :
    (low : ℕ) (ts : List Task) (high : ℕ) → IsOrdered low ts high → All (FoundIn ts) ts
unfolding find_task
IsOrdered-FoundIn low [] high h = tt
IsOrdered-FoundIn low (t ∷ ts) high h = (
  rw ==_refl,
  All-imp (λ u. (suc t.id ≤ u.id) × FoundIn ts u) (FoundIn (t ∷ ts)) ts
      (λ u k. FoundIn-cons t u ts k.0 k.1)
      (All-both (λ u. suc t.id ≤ u.id) (FoundIn ts) ts (IsOrdered-le (suc t.id) ts high h.1)
        (IsOrdered-FoundIn (suc t.id) ts high h.1)),
)

module _ (p : Task → Bool) where
  pub All-keep : (P : Task → Type 0) (ts : List Task) → All P ts → All P (keep p ts)
  All-keep P [] h = tt
  All-keep P (t ∷ ts) h = elim (Bool-cases (p t)) [
    | inl c ↦ rw (c, keep) (h.0, All-keep P ts h.1)
    | inr c ↦ rw (c, keep) (All-keep P ts h.1)
  ]

  pub keep-passes : (ts : List Task) → All (λ t. p t ≡ true) (keep p ts)
  keep-passes [] = tt
  keep-passes (t ∷ ts) = elim (Bool-cases (p t)) [
    | inl c ↦ rw (c, keep) (c, keep-passes ts)
    | inr c ↦ rw (c, keep) (keep-passes ts)
  ]

  pub keep-IsOrdered :
      (low : ℕ) (ts : List Task) (high : ℕ) → IsOrdered low ts high → IsOrdered low (keep p ts) high
  keep-IsOrdered low [] high h = h
  keep-IsOrdered low (t ∷ ts) high h = elim (Bool-cases (p t)) [
    | inl c ↦ rw (c, keep) (h.0, keep-IsOrdered (suc t.id) ts high h.1)
    | inr c ↦
        rw (c, keep)
          (IsOrdered-lower low (suc t.id) (keep p ts) high (omega arith)
            (keep-IsOrdered (suc t.id) ts high h.1))
  ]
