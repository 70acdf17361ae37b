-- ===== src/Broker/Server/Cleared.antt =====
-- What the operation of a request has to pass before `Broker.handle` runs it.
use mathlib.Core.Path.{subst}
use nova_ai_agent.Prelude.{
  ℕ, ◌≤◌, ◌≡◌, ◌⊎◌, refl, ap, chars, eq_iff, String, true, false, not, ◌&&◌, Option, none, some,
  List, arith, Bool-cases, inl, inr,
}
use nova_ai_agent.Json.{Json, Fields}
use nova_ai_agent.Permissions.Env.{Env}
use nova_ai_agent.Broker.Ops.Needs.{Needs, required_action-Needs}
use nova_ai_agent.Broker.Handlers.Fixed.{checked-good}
use nova_ai_agent.Broker.Ops.{
  Op, Check, checked, not_allowed, bad_params, validate, required_action,
}
use nova_ai_agent.Broker.Approvals.{claim}
use nova_ai_agent.Broker.Approvals.Fresh.{Fresh, claim-Fresh}
use nova_ai_agent.Broker.Server.{
  Broker, is_cancel, is_token, Admission, answered, admitted, check_elevation, after_claim,
  check_approval, check_operation,
}

module _ (env : Env) where
  -- The approval that an operation rests on: none where it needs none, and otherwise one that was
  -- claimed for this task, action, target and parameters, while the broker is elevated if it has to be.
  pub data Rests (task target : String) (params : Fields) (b : Broker)
      : Option String → Option ℕ → Type 0 where
    on_nothing : Rests task target params b none none
    on_approval :
        {action : String} {i : ℕ}
        → Fresh env b.policy.approval_max_age_seconds b.now b.approvals task action target params
            b.ledger i
        → (b.policy.require_elevation && not b.elevated) ≡ false
        → Rests task target params b (some action) (some i)

  module _ (task target : String) (params : Fields) (b : Broker) where
    -- What the operation of an admitted request has passed.
    pub record Cleared (name : String) (op : Op) (approval_id : Option ℕ) : Type 0 where
      pub valid : validate name params ≡ checked op
      pub unlocked : (b.locked ≡ false) ⊎ (is_cancel op params ≡ true)
      pub action : Option String
      pub needs : Needs params op action
      pub rests : Rests task target params b action approval_id

  -- The cached token does not matter.
  module _ (task target : String) (params : Fields) (b : Broker) (t : Option (ℕ × String)) where
    Rests-token :
        (action : Option String) (i : Option ℕ)
        → Rests task target params (record b { token = t }) action i
        → Rests task target params b action i
    Rests-token none none on_nothing = on_nothing
    Rests-token none (some i) r = elim r [ ]
    Rests-token (some action) none r = elim r [ ]
    Rests-token (some action) (some i) (on_approval c e) = on_approval c e

    pub Cleared-token :
        (name : String) (op : Op) (i : Option ℕ)
        → Cleared task target params (record b { token = t }) name op i
        → Cleared task target params b name op i
    Cleared-token name op i c = record {
      valid = c.valid;
      unlocked = c.unlocked;
      action = c.action;
      needs = c.needs;
      rests = Rests-token c.action i c.rests;
    }

-- The presented text is the token, which has at least 32 characters.
pub record Authentic (held : Option (ℕ × String)) (presented : String) : Type 0 where
  pub token : ℕ × String
  pub there : held ≡ some token
  pub long : 32 ≤ chars token.1
  pub same : presented ≡ token.1

pub is_token-Authentic :
    (held : Option (ℕ × String)) (presented : String)
    → is_token held presented ≡ true
    → Authentic held presented
is_token-Authentic none presented h = cc
is_token-Authentic (some (at, real)) presented h = record {
  token = (at, real);
  there = refl;
  long = ground arith;
  same = ground (arith, eq_iff presented real);
}

-- An answer needs nothing.
abbrev pub Backed : (Op → Fields → Option ℕ → Type 0) → Admission → Type 0
Backed P (answered r) = Unit
Backed P (admitted op ps approval_id) = P op ps approval_id

module _ (env : Env) (show : Json → String) where
  module _ (task target : String) (params : Fields) (b : Broker) where
    abbrev Rested : Op → Option String → Op → Fields → Option ℕ → Type 0
    Rested op action op' ps approval_id =
        (op ≡ op') × (params ≡ ps) × Rests env task target params b action approval_id

    after_claim-Rests :
        (op : Op) (action : String) (c : Option ℕ × List ℕ)
        → claim env b.policy.approval_max_age_seconds b.now b.approvals task action target params
            b.ledger
          ≡ c
        → Backed (Rested op (some action)) (after_claim env show op params action c b).0
    unfolding after_claim check_elevation
    after_claim-Rests op action (none, ledger) e = tt
    after_claim-Rests op action (some i, ledger) e =
        elim (Bool-cases (b.policy.require_elevation && not b.elevated)) [
          | inl c ↦ rw c tt
          | inr c ↦ rw c (
            refl,
            refl,
            on_approval
                (claim-Fresh env b.policy.approval_max_age_seconds b.now b.approvals task action
                  target params b.ledger i (ap (λ (p : Option ℕ × List ℕ). p.0) e))
                c,
          )
        ]

    check_approval-Rests :
        (op : Op) (action : Option String)
        → Backed (Rested op action) (check_approval env show task target op params action b).0
    unfolding check_approval check_elevation
    check_approval-Rests op none = (refl, refl, on_nothing)
    check_approval-Rests op (some action) = after_claim-Rests op action _ refl

    abbrev pub Clear : String → Op → Fields → Option ℕ → Type 0
    Clear name op ps approval_id =
        (params ≡ ps) × Cleared env task target params b name op approval_id

    pub check_operation-Clear :
        (name : String) (c : Check)
        → validate name params ≡ c
        → Backed (Clear name) (check_operation env show task target params c b).0
    unfolding check_operation
    check_operation-Clear name not_allowed v = tt
    check_operation-Clear name bad_params v = tt
    check_operation-Clear name (checked op) v =
        elim (Bool-cases (b.locked && not (is_cancel op params))) [
          | inl c ↦ rw c tt
          | inr c ↦
              rw c (by_rests _ (ground arith) (check_approval-Rests op (required_action op params)))
        ]
      where
        by_rests :
            (a : Admission)
            → (b.locked ≡ false) ⊎ (is_cancel op params ≡ true)
            → Backed (Rested op (required_action op params)) a
            → Backed (Clear name) a
        by_rests (answered r) u h = tt
        by_rests (admitted op' ps approval_id) u (e, f, h) = (
          f,
          subst (λ o. Cleared env task target params b name o approval_id) e
              (record {
                valid = v;
                unlocked = u;
                action = required_action op params;
                needs = required_action-Needs params op (checked-good name params op v);
                rests = h;
              }),
        )
