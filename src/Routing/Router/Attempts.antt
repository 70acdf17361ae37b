-- ===== src/Routing/Router/Attempts.antt =====
-- The retries of one provider (models/router/router.py, `_attempt`).
use nova_ai_agent.Prelude.{
  ℕ, zero, suc, ◌≡◌, ◌≢◌, ◌+◌, ◌≤◌, refl, String, Bool, true, false, ◌||◌, Option, none, some,
  arith, if◌then◌else◌, Bool-cases, inl, inr,
}
use nova_ai_agent.Exec.{Exec, Result, ok, err, pure, proceed}
use nova_ai_agent.Routing.Provider.{
  ErrorCategory, rate_limit, server_error, timed_out, auth, Request, Outcome, State, Router,
  Adapter,
}
use nova_ai_agent.Routing.Circuit.{failure}
use nova_ai_agent.Routing.Router.{
  Left, has_no_category, retry_of, after_failure, settle, attempt_loop, onward,
}

abbrev pub total : Left → ℕ
total left = left.after_timeout + left.after_server_error

some-none : (left : Left) (o : Option Left) → o ≡ none → o ≢ some left
some-none left o e = λ f. cc

retry_of-total :
    (category : Option ErrorCategory) (left left' : Left)
    → retry_of category left ≡ some left'
    → suc (total left') ≡ total left
unfolding retry_of
retry_of-total none left left' e = cc
retry_of-total (some timed_out) left left' e = ground arith
retry_of-total (some server_error) left left' e = ground arith
retry_of-total (some _) left left' e = cc

retried-total :
    (opened : Bool) (category : Option ErrorCategory) (left left' : Left)
    → (if opened then none else retry_of category left) ≡ some left'
    → suc (total left') ≡ total left
retried-total true category left left' e = cc
retried-total false category left left' e = retry_of-total category left left' e

after_failure-total :
    (r : Router) (name : String) (left left' : Left) (category : Option ErrorCategory)
    (wait : Option ℕ) (st : State)
    → (after_failure r name left category wait st).0 ≡ some left'
    → suc (total left') ≡ total left
unfolding after_failure
after_failure-total r name left left' (some rate_limit) wait st e = cc
after_failure-total r name left left' (some auth) wait st e = cc
after_failure-total r name left left' category wait st e =
    retried-total (failure r name category wait st).0 category left left' e

settle-total :
    (r : Router) (name : String) (req : Request) (left left' : Left) (o : Outcome) (st : State)
    → (settle r name req left o st).0 ≡ some left'
    → suc (total left') ≡ total left
unfolding settle
settle-total r name req left left' o st e =
    elim (Bool-cases (o.succeeded || has_no_category o.category)) [
      | inl c ↦ absurd (some-none left' none refl (rw c at e))
      | inr c ↦ after_failure-total r name left left' o.category o.retry_after _ (rw c at e)
    ]

onward_same :
    (f g : Left → Exec State Outcome) (n : ℕ) (o : Outcome) (s : Option Left × State)
    → ((left' : Left) → s.0 ≡ some left' → suc (total left') ≡ n)
    → ((left' : Left) (st : State) → suc (total left') ≡ n → f left' st ≡ g left' st)
    → onward f o s ≡ onward g o s
unfolding onward
onward_same f g n o (none, st) t h = refl
onward_same f g n o (some left', st) t h = h left' st (t left' refl)

module _ (r : Router) (x : Adapter) (name : String) (req : Request) where
  answered_same :
      (left : Left) (f g : Outcome → Left → Exec State Outcome) (a : Result Outcome) (st : State)
      → ((o : Outcome) (left' : Left) (st : State)
          → suc (total left') ≡ total left
          → f o left' st ≡ g o left' st)
      → proceed a (λ o st. onward (f o) o (settle r name req left o st)) st
        ≡ proceed a (λ o st. onward (g o) o (settle r name req left o st)) st
  answered_same left f g (ok o) st h =
      onward_same (f o) (g o) (total left) o (settle r name req left o st)
        (λ left' e. settle-total r name req left left' o st e) (h o)
  answered_same left f g (err e) st h = refl

  -- The fuel of `_attempt`, the sum of the retries that the configuration allows, is enough: with any
  -- fuel from the retries that are left on, the loop makes the same calls and gives the same answer.
  pub attempt_fuel :
      (n m : ℕ) (left : Left) (st : State)
      → total left ≤ n
      → total left ≤ m
      → attempt_loop r x name req n left st ≡ attempt_loop r x name req m left st
  unfolding attempt_loop
  attempt_fuel zero zero left st p q = refl
  attempt_fuel zero (suc m) left st p q =
      answered_same left (λ o _. pure o) (λ o. attempt_loop r x name req m) (x.complete req st).0
        (x.complete req st).1 (λ o left' st' e. absurd (omega (arith, e, p)))
  attempt_fuel (suc n) zero left st p q =
      answered_same left (λ o. attempt_loop r x name req n) (λ o _. pure o) (x.complete req st).0
        (x.complete req st).1 (λ o left' st' e. absurd (omega (arith, e, q)))
  attempt_fuel (suc n) (suc m) left st p q =
      answered_same left (λ o. attempt_loop r x name req n) (λ o. attempt_loop r x name req m)
        (x.complete req st).0 (x.complete req st).1
        (λ o left' st' e. attempt_fuel n m left' st' (omega (arith, e, p)) (omega (arith, e, q)))
