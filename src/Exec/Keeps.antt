-- ===== src/Exec/Keeps.antt =====
-- A property of the state that an action keeps, whether it returns or raises.
use nova_ai_agent.Prelude.{◌≡◌, refl}
use nova_ai_agent.Exec.{Exec, Result, ok, err, pure, proceed, ◌>>=◌}

pub record Keeps {ℓ κ} {S A : Type ℓ} (P : S → Type κ) (m : Exec S A) : Type (ℓ ⊔ κ) where
  pub at : (s : S) → P s → P (m s).1

module _ {ℓ κ} {S A B : Type ℓ} {P : S → Type κ} where
  Keeps-proceed :
      (r : Result A) (f : A → Exec S B) (s : S)
      → ((a : A) → Keeps P (f a))
      → P s
      → P (proceed r f s).1
  Keeps-proceed (ok a) f s k h = (k a).at s h
  Keeps-proceed (err e) f s k h = h

  pub Keeps-bind :
      (m : Exec S A) (f : A → Exec S B) → Keeps P m → ((a : A) → Keeps P (f a)) → Keeps P (m >>= f)
  Keeps-bind m f k l = record { at = λ s h. Keeps-proceed (m s).0 f (m s).1 l (k.at s h) }

module _ {ℓ} {S A B : Type ℓ} where
  -- An action that ends by returning a fixed value leaves the state of its first part.
  pub bind_pure_state : (m : Exec S A) (b : B) (s : S) → ((m >>= λ _. pure b) s).1 ≡ (m s).1
  bind_pure_state m b s = by_result (m s).0
    where
      by_result : (r : Result A) → (proceed r (λ _. pure b) (m s).1).1 ≡ (m s).1
      by_result (ok a) = refl
      by_result (err e) = refl
