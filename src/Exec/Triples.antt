-- ===== src/Exec/Triples.antt =====
-- What holds after an action, of its result and state where it returns, and of its state where it
-- raises.
use nova_ai_agent.Prelude.{Bool, true, false, if◌then◌else◌}
use nova_ai_agent.Exec.{Exc, Exec, Result, ok, err, pure, raise, proceed, ◌>>=◌}

module _ {S : Type 0} (E : S → Type 0) where
  abbrev pub After : {A : Type 0} → (A → S → Type 0) → Result A → S → Type 0
  After Q (ok a) s = Q a s
  After Q (err e) s = E s

  -- From a state with `P`, the action returns with `Q` or raises with `E`.
  pub record Triple {A : Type 0} (P : S → Type 0) (m : Exec S A) (Q : A → S → Type 0) : Type 0 where
    pub at : (s : S) → P s → After Q (m s).0 (m s).1

module _ {S : Type 0} {E : S → Type 0} where
  module _ {A B : Type 0} where
    After-proceed :
        {Q : A → S → Type 0} {R : B → S → Type 0} (r : Result A) (s : S) (f : A → Exec S B)
        → ((a : A) → Triple E (Q a) (f a) R)
        → After E Q r s
        → After E R (proceed r f s).0 (proceed r f s).1
    After-proceed (ok a) s f k h = (k a).at s h
    After-proceed (err e) s f k h = h

    pub bind_rule :
        {P : S → Type 0} {Q : A → S → Type 0} {R : B → S → Type 0} (m : Exec S A) (f : A → Exec S B)
        → Triple E P m Q
        → ((a : A) → Triple E (Q a) (f a) R)
        → Triple E P (m >>= f) R
    bind_rule m f k l = record { at = λ s h. After-proceed (m s).0 (m s).1 f l (k.at s h) }

  module _ {A : Type 0} where
    pub pure_rule : {P : S → Type 0} (a : A) → Triple E P (pure a) (λ _. P)
    pure_rule a = record { at = λ s h. h }

    pub raise_rule : {Q : A → S → Type 0} (e : Exc) → Triple E E (raise e) Q
    raise_rule e = record { at = λ s h. h }

    pub weaken_rule :
        {P P' : S → Type 0} {Q Q' : A → S → Type 0} (m : Exec S A)
        → ((s : S) → P' s → P s)
        → ((a : A) (s : S) → Q a s → Q' a s)
        → Triple E P m Q
        → Triple E P' m Q'
    weaken_rule {Q = Q} {Q' = Q'} m f g k = record {
      at = λ s h. weaken (m s).0 (m s).1 (k.at s (f s h));
    }
      where
        weaken : (r : Result A) (s : S) → After E Q r s → After E Q' r s
        weaken (ok a) s h = g a s h
        weaken (err e) s h = h

    pub if_rule :
        {P : S → Type 0} {Q : A → S → Type 0} (b : Bool) (m n : Exec S A)
        → Triple E P m Q
        → Triple E P n Q
        → Triple E P (if b then m else n) Q
    if_rule true m n k l = k
    if_rule false m n k l = l
