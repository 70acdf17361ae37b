-- ===== src/Broker/Approvals/Single.antt =====
-- An approval is claimed at most once: its id stays in the ledger for the next claims.
use mathlib.Core.Path.{subst}
use mathlib.Core.List.{Memᴰ}
use mathlib.Core.Option.{some-injective}
use nova_ai_agent.Prelude.{
  ℕ, zero, suc, ◌+◌, ◌-◌, ◌<◌, ◌≤◌, ◌≡◌, ◌≢◌, refl, ◌∙◌, ap, String, Bool, true, Option, none, some,
  List, [], ◌∷◌, ◌++◌, keep, keep-mem, length, length-append, arith, Bool-cases, Option-cases, inl,
  inr,
}
use nova_ai_agent.Json.{Fields}
use nova_ai_agent.Db.{Approval}
use nova_ai_agent.Permissions.Env.{Env}
use nova_ai_agent.Permissions.Approvals.{fingerprint}
use nova_ai_agent.Broker.Approvals.{
  kept_ids, drop, id_in, remember, is_candidate, accepts, newest, claim_row, claim,
}
use nova_ai_agent.Broker.Texts.{is_number, number_of}

-- The id stands in the ledger with at most `n` ids after it.
pub record IsRemembered (i n : ℕ) (ledger : List ℕ) : Type 0 where
  pub before : List ℕ
  pub after : List ℕ
  pub split : ledger ≡ before ++ i ∷ after
  pub few : length after ≤ n

id_in-append : (i : ℕ) (xs ys : List ℕ) → id_in i (xs ++ i ∷ ys) ≡ true
id_in-append i [] ys = ground arith
id_in-append i (x ∷ xs) ys = ground (arith, id_in-append i xs ys)

pub IsRemembered-id_in :
    (i n : ℕ) (ledger : List ℕ) → IsRemembered i n ledger → id_in i ledger ≡ true
IsRemembered-id_in i n ledger h = rw h.split (id_in-append i h.before h.after)

drop-append : (n : ℕ) (xs ys : List ℕ) → n ≤ length xs → drop n (xs ++ ys) ≡ drop n xs ++ ys
drop-append zero xs ys h = refl
drop-append (suc n) [] ys h = absurd (omega (arith, h))
drop-append (suc n) (x ∷ xs) ys h = drop-append n xs ys (omega (arith, h))

append_assoc : (xs ys zs : List ℕ) → (xs ++ ys) ++ zs ≡ xs ++ (ys ++ zs)
append_assoc [] ys zs = refl
append_assoc (x ∷ xs) ys zs = ap (λ r. x ∷ r) (append_assoc xs ys zs)

remember-IsRemembered :
    (i j n : ℕ) (ledger : List ℕ)
    → IsRemembered i n ledger
    → suc n < kept_ids
    → IsRemembered i (suc n) (remember j ledger)
unfolding remember
remember-IsRemembered i j n ledger h few = record {
  before = drop (length (ledger ++ j ∷ []) - kept_ids) h.before;
  after = h.after ++ j ∷ [];
  split =
      ap (drop (length (ledger ++ j ∷ []) - kept_ids)) appended
      ∙ drop-append (length (ledger ++ j ∷ []) - kept_ids) h.before (i ∷ (h.after ++ j ∷ []))
          (omega (arith, counted, length-append h.after (j ∷ []), h.few, few));
  few = omega (arith, length-append h.after (j ∷ []), h.few);
}
  where
    appended : ledger ++ j ∷ [] ≡ h.before ++ i ∷ (h.after ++ j ∷ [])
    appended = rw h.split (append_assoc h.before (i ∷ h.after) (j ∷ []))

    counted : length (ledger ++ j ∷ []) ≡ length h.before + suc (length (h.after ++ j ∷ []))
    counted = ap length appended ∙ length-append h.before (i ∷ (h.after ++ j ∷ []))

-- A claim that was given: the row that it rests on, and the ledger after it.
pub record Claimed (env : Env) (max_age now : ℕ) (rows : List Approval)
    (task_id action target : String) (details : Fields) (ledger : List ℕ) (i : ℕ) : Type 0 where
  pub row : Approval
  pub in_table : Memᴰ row rows
  pub numbered : is_number task_id ≡ true
  pub candidate : is_candidate (number_of task_id) action row ≡ true
  pub accepted :
      accepts now max_age (fingerprint env action target (some details)) ledger row ≡ true
  pub same_id : row.id ≡ i
  pub remembered :
      (claim env max_age now rows task_id action target details ledger).1 ≡ remember i ledger

newest-holds :
    (p : Approval → Bool) (rows : List Approval) (a : Approval)
    → newest p rows ≡ some a
    → Memᴰ a rows × (p a ≡ true)
unfolding newest
newest-holds p [] a h = cc
newest-holds p (b ∷ rows) a h = elim (Option-cases (newest p rows)) [
  | inl e ↦ elim (Bool-cases (p b)) [
    | inl c ↦ let same : a ≡ b = ground arith in (Memᴰ.head same, rw same c)
    | inr c ↦ let bad : none ≡ some a = ground arith in cc
  ]
  | inr (d, e) ↦ let (m, q) = newest-holds p rows a (ground arith) in (Memᴰ.tail m, q)
]

module _ (env : Env) (max_age now : ℕ) (rows : List Approval) (task_id action target : String)
    (details : Fields) where
  pub claim-Claimed :
      (ledger : List ℕ) (i : ℕ)
      → (claim env max_age now rows task_id action target details ledger).0 ≡ some i
      → Claimed env max_age now rows task_id action target details ledger i
  unfolding claim claim_row
  claim-Claimed ledger i h = elim (Bool-cases (is_number task_id)) [
    | inl c ↦ by_found c _ refl (rw c at h)
    | inr c ↦ let bad = rw c at h in cc
  ]
    where
      found : Option Approval
      found =
          newest (accepts now max_age (fingerprint env action target (some details)) ledger)
            (keep (is_candidate (number_of task_id) action) rows)

      by_found :
          is_number task_id ≡ true
          → (o : Option Approval) → found ≡ o
          → (claim_row o ledger).0 ≡ some i
          → Claimed env max_age now rows task_id action target details ledger i
      by_found c none e k = cc
      by_found c (some a) e k =
          let (m, q) = newest-holds _ _ a e in
          let (n, d) = keep-mem (is_candidate (number_of task_id) action) rows a m in
          record {
            row = a;
            in_table = n;
            numbered = c;
            candidate = d;
            accepted = q;
            same_id = some-injective a.id i k;
            remembered = rw (c, e) (ap (λ j. remember j ledger) (some-injective a.id i k));
          }

-- The arguments of a later claim.
pub record Request : Type 0 where
  pub now : ℕ
  pub rows : List Approval
  pub task_id : String
  pub action : String
  pub target : String
  pub details : Fields

abbrev pub claim_for : Env → ℕ → Request → List ℕ → Option ℕ × List ℕ
claim_for env max_age r ledger =
    claim env max_age r.now r.rows r.task_id r.action r.target r.details ledger

-- The ledger after claims, one after another.
unfoldable pub claim_all : Env → ℕ → List Request → List ℕ → List ℕ
claim_all env max_age [] ledger = ledger
claim_all env max_age (r ∷ rs) ledger = claim_all env max_age rs (claim_for env max_age r ledger).1

claim_row-IsRemembered :
    (o : Option Approval) (i n : ℕ) (ledger : List ℕ)
    → IsRemembered i n ledger
    → suc n < kept_ids
    → IsRemembered i (suc n) (claim_row o ledger).1
unfolding claim_row
claim_row-IsRemembered none i n ledger h few = record {
  before = h.before;
  after = h.after;
  split = h.split;
  few = omega (arith, h.few);
}
claim_row-IsRemembered (some a) i n ledger h few = remember-IsRemembered i a.id n ledger h few

claim-IsRemembered :
    (env : Env) (max_age : ℕ) (r : Request) (i n : ℕ) (ledger : List ℕ)
    → IsRemembered i n ledger
    → suc n < kept_ids
    → IsRemembered i (suc n) (claim_for env max_age r ledger).1
unfolding claim
claim-IsRemembered env max_age r i n ledger h few = elim (Bool-cases (is_number r.task_id)) [
  | inl c ↦ rw c (claim_row-IsRemembered _ i n ledger h few)
  | inr c ↦ rw c (claim_row-IsRemembered none i n ledger h few)
]

claim_all-IsRemembered :
    (env : Env) (max_age : ℕ) (rs : List Request) (i n : ℕ) (ledger : List ℕ)
    → IsRemembered i n ledger
    → n + length rs < kept_ids
    → IsRemembered i (n + length rs) (claim_all env max_age rs ledger)
unfolding claim_all
claim_all-IsRemembered env max_age [] i n ledger h few =
    let same : n + 0 ≡ n = omega arith in rw same h
claim_all-IsRemembered env max_age (r ∷ rs) i n ledger h few =
    subst (λ m. IsRemembered i m (claim_all env max_age (r ∷ rs) ledger)) (omega arith)
      (claim_all-IsRemembered env max_age rs i (suc n) _
        (claim-IsRemembered env max_age r i n ledger h (omega (arith, few))) (omega (arith, few)))

pub newest_id : (i : ℕ) (ledger : List ℕ) → IsRemembered i 0 (remember i ledger)
unfolding remember
newest_id i ledger = record {
  before = drop (length (ledger ++ i ∷ []) - kept_ids) ledger;
  after = [];
  split =
      drop-append (length (ledger ++ i ∷ []) - kept_ids) ledger (i ∷ [])
        (omega (arith, length-append ledger (i ∷ [])));
  few = omega arith;
}

-- An approval that a claim was given is not given to a later claim, whatever up to 1,999 claims come in
-- between, for whatever requests and with whatever table of approvals.
pub claim_once :
    (env : Env) (max_age : ℕ) (r : Request) (ledger : List ℕ) (i : ℕ) (rs : List Request)
    (s : Request)
    → (claim_for env max_age r ledger).0 ≡ some i
    → length rs < kept_ids
    → (claim_for env max_age s (claim_all env max_age rs (claim_for env max_age r ledger).1)).0
      ≢ some i
unfolding accepts
claim_once env max_age r ledger i rs s h few k =
    let first =
      claim-Claimed env max_age r.now r.rows r.task_id r.action r.target r.details ledger i h in
    let later =
      claim-Claimed env max_age s.now s.rows s.task_id s.action s.target s.details _ i k in
    let there = IsRemembered-id_in i (0 + length rs) _ (
      claim_all-IsRemembered env max_age rs i 0 (claim_for env max_age r ledger).1
        (rw first.remembered (newest_id i ledger)) (omega (arith, few))) in
    ground (arith, later.accepted, there, later.same_id)
