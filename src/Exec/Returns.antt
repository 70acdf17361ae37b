-- ===== src/Exec/Returns.antt =====
-- What an action that returned has done before.
use nova_ai_agent.Prelude.{◌≡◌, refl}
use nova_ai_agent.Exec.{Exec, Result, ok, err, proceed, ◌>>=◌}

module _ {ℓ} {S A B : Type ℓ} where
  -- The first part of an action that returned has returned.
  pub record Halves (m : Exec S A) (f : A → Exec S B) (b : B) (s : S) : Type ℓ where
    pub value : A
    pub first : (m s).0 ≡ ok value
    pub second : (f value (m s).1).0 ≡ ok b
    pub whole : (m >>= f) s ≡ f value (m s).1

  pub bind_returned :
      (m : Exec S A) (f : A → Exec S B) (b : B) (s : S) → ((m >>= f) s).0 ≡ ok b → Halves m f b s
  bind_returned m f b s h = by_result (m s).0 refl h
    where
      by_result : (r : Result A) → (m s).0 ≡ r → (proceed r f (m s).1).0 ≡ ok b → Halves m f b s
      by_result (ok a) e k = record { value = a; first = e; second = k; whole = rw e refl }
      by_result (err x) e k = cc

  pub bind_ok :
      (m : Exec S A) (f : A → Exec S B) (a : A) (s : S) → (m s).0 ≡ ok a → (m >>= f) s ≡ f a (m s).1
  bind_ok m f a s h = rw h refl
