-- ===== src/Permissions/Decide/Lifecycle.antt =====
-- The life of an approval through any sequence of calls of core/permissions/approvals.py.
pub mod Calls
pub mod Finding
use mathlib.Core.Path.{subst}
use mathlib.Core.Option.{some-injective}
use nova_ai_agent.Prelude.{
  ℕ, suc, ◌≤◌, ◌≡◌, refl, sym, ◌∙◌, String, Bool, true, false, Option, none, some, List, [], ◌∷◌,
  ◌++◌, map, arith, if◌then◌else◌, ◌==◌, ==_sound, ==_refl, Bool-cases, inl, inr, str_eq,
}
use nova_ai_agent.Db.{
  ApprovalStatus, pending, approved, rejected, expired, used, Approval, Level, find_approval,
  put_approval,
}
use nova_ai_agent.Db.Rows.{find_approval-put_approval, find_approval-id, written}
use nova_ai_agent.Permissions.Approvals.{by_nonce}
use nova_ai_agent.Permissions.Decide.{is_due, expire_row}

-- Which statuses an approval may still come to.
abbrev pub reaches : ApprovalStatus → ApprovalStatus → Bool
reaches pending s = true
reaches approved approved = true
reaches approved used = true
reaches approved expired = true
reaches rejected rejected = true
reaches expired expired = true
reaches used used = true
reaches _ _ = false

-- A row and a later state of it: what the approval is bound to stays, and the status goes forward.
pub record Evolves (a b : Approval) : Type 0 where
  pub id : a.id ≡ b.id
  pub task_id : a.task_id ≡ b.task_id
  pub action : a.action ≡ b.action
  pub level : a.level ≡ b.level
  pub target : a.target ≡ b.target
  pub fingerprint : a.fingerprint ≡ b.fingerprint
  pub nonce : a.nonce ≡ b.nonce
  pub status : reaches a.status b.status ≡ true

pub Evolves-refl : (a : Approval) → Evolves a a
Evolves-refl a = ground arith

pub Evolves-trans : (a b c : Approval) → Evolves a b → Evolves b c → Evolves a c
Evolves-trans a b c h k = ground arith

expire_row-Evolves : (now : ℕ) (a : Approval) → Evolves a (expire_row now a)
unfolding expire_row
expire_row-Evolves now a = ground arith

-- The ids grow along the table, from `low` on, and stay below `high`.
abbrev pub IsOrdered : ℕ → List Approval → ℕ → Type 0
IsOrdered low [] high = low ≤ high
IsOrdered low (a ∷ rest) high = (low ≤ a.id) × IsOrdered (suc a.id) rest high

-- One write to the table of approvals with its next id.
pub data Writes (rows : List Approval) (next : ℕ) : List Approval → ℕ → Type 0 where
  nothing : Writes rows next rows next
  added : (a : Approval) → a.id ≡ next → Writes rows next (rows ++ a ∷ []) (suc a.id)
  changed :
      (old new : Approval)
      → find_approval old.id rows ≡ some old
      → Evolves old new
      → Writes rows next (put_approval new rows) next
  expired_at : (now : ℕ) → Writes rows next (map (expire_row now) rows) next

find_append :
    (i : ℕ) (rows : List Approval) (a b : Approval)
    → find_approval i rows ≡ some a
    → find_approval i (rows ++ b ∷ []) ≡ some a
unfolding find_approval
find_append i [] a b h = cc
find_append i (c ∷ rows) a b h = ground (arith, find_append i rows a b)

find_expired :
    (now i : ℕ) (rows : List Approval) (a : Approval)
    → find_approval i rows ≡ some a
    → find_approval i (map (expire_row now) rows) ≡ some (expire_row now a)
unfolding find_approval
find_expired now i [] a h = cc
find_expired now i (c ∷ rows) a h =
    ground (arith, (expire_row-Evolves now c).id, find_expired now i rows a)

-- A row of the table is found again after a write, evolved.
pub Writes-Evolves :
    {rows : List Approval} {next : ℕ} {rows' : List Approval} {next' : ℕ} (i : ℕ) (a : Approval)
    → Writes rows next rows' next'
    → find_approval i rows ≡ some a
    → (b : Approval) × (find_approval i rows' ≡ some b) × Evolves a b
Writes-Evolves i a nothing h = (a, h, Evolves-refl a)
Writes-Evolves {rows} i a (added c e) h = (a, find_append i rows a c h, Evolves-refl a)
Writes-Evolves {rows} i a (changed old new f v) h = elim (Bool-cases (new.id == i)) [
  | inl c ↦
      let at_i = subst (λ j. find_approval j rows ≡ some old) (v.id ∙ ==_sound new.id i c) f in
      let same : old ≡ a = some-injective old a (sym at_i ∙ h) in
      (
        new,
        rw (find_approval-put_approval i new rows) (rw (c, h)),
        subst (λ x. Evolves x new) same v,
      )
  | inr c ↦ (a, rw (find_approval-put_approval i new rows) (rw c h), Evolves-refl a)
]
Writes-Evolves {rows} i a (expired_at now) h =
    (expire_row now a, find_expired now i rows a h, expire_row-Evolves now a)

append-IsOrdered :
    (low : ℕ) (rows : List Approval) (a : Approval)
    → IsOrdered low rows a.id
    → IsOrdered low (rows ++ a ∷ []) (suc a.id)
append-IsOrdered low [] a h = (h, omega arith)
append-IsOrdered low (b ∷ rows) a h = (h.0, append-IsOrdered (suc b.id) rows a h.1)

put-IsOrdered :
    (new : Approval) (low : ℕ) (rows : List Approval) (high : ℕ)
    → IsOrdered low rows high
    → IsOrdered low (put_approval new rows) high
unfolding put_approval
put-IsOrdered new low [] high h = h
put-IsOrdered new low (b ∷ rows) high h = elim (Bool-cases (b.id == new.id)) [
  | inl c ↦ rw c (omega (arith, ==_sound b.id new.id c), rw (← ==_sound b.id new.id c) h.1)
  | inr c ↦ rw c (h.0, put-IsOrdered new (suc b.id) rows high h.1)
]

expired-IsOrdered :
    (now low : ℕ) (rows : List Approval) (high : ℕ)
    → IsOrdered low rows high
    → IsOrdered low (map (expire_row now) rows) high
expired-IsOrdered now low [] high h = h
expired-IsOrdered now low (b ∷ rows) high h =
    let e = (expire_row-Evolves now b).id in
    (
      rw (← e) h.0,
      expired-IsOrdered now (suc (expire_row now b).id) rows high
          (subst (λ j. IsOrdered (suc j) rows high) e h.1),
    )

pub Writes-IsOrdered :
    {rows : List Approval} {next : ℕ} {rows' : List Approval} {next' : ℕ}
    → Writes rows next rows' next'
    → IsOrdered 0 rows next
    → IsOrdered 0 rows' next'
Writes-IsOrdered nothing h = h
Writes-IsOrdered {rows} (added a e) h =
    append-IsOrdered 0 rows a (subst (λ j. IsOrdered 0 rows j) (sym e) h)
Writes-IsOrdered {rows} {next} (changed old new f v) h = put-IsOrdered new 0 rows next h
Writes-IsOrdered {rows} {next} (expired_at now) h = expired-IsOrdered now 0 rows next h

IsOrdered-above :
    (n : String) (low : ℕ) (rows : List Approval) (high : ℕ) (a : Approval)
    → IsOrdered low rows high
    → by_nonce n rows ≡ some a
    → low ≤ a.id
unfolding by_nonce
IsOrdered-above n low [] high a h e = cc
IsOrdered-above n low (b ∷ rows) high a h e = elim (Bool-cases (str_eq b.nonce n)) [
  | inl c ↦ let same : b ≡ a = ground arith in ground (arith, h.0)
  | inr c ↦ omega (arith, IsOrdered-above n (suc b.id) rows high a h.1 (rw c at e), h.0)
]

-- In a table in the order of its ids, the row with a nonce is the row found at its id.
pub by_nonce-find :
    (n : String) (low : ℕ) (rows : List Approval) (high : ℕ) (a : Approval)
    → IsOrdered low rows high
    → by_nonce n rows ≡ some a
    → find_approval a.id rows ≡ some a
unfolding by_nonce find_approval
by_nonce-find n low [] high a h e = cc
by_nonce-find n low (b ∷ rows) high a h e = elim (Bool-cases (str_eq b.nonce n)) [
  | inl c ↦ ground arith
  | inr c ↦
      let later = rw c at e in
      ground (
        arith,
        IsOrdered-above n (suc b.id) rows high a h.1 later,
        by_nonce-find n (suc b.id) rows high a h.1 later,
      )
]
