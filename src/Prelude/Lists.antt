-- ===== src/Prelude/Lists.antt =====
-- Lists counted by native numbers, Boolean filters, and predicates on all members.
use Prim.Native.Nat.{ℕ, zero, suc, ◌+◌}
use mathlib.Core.Path.{◌≡◌}
use mathlib.Core.Bool.{Bool, true, false}
use mathlib.Core.Logic.{◌⊎◌, inl, inr}
use mathlib.Core.List.{List, [], ◌∷◌, ◌++◌, Memᴰ}
use native.Mathlib.Omega.{arith}
use nova_ai_agent.Prelude.Tests.{Bool-cases}

module _ {ℓ} {A : Type ℓ} where
  abbrev pub length : List A → ℕ
  length [] = 0
  length (x ∷ xs) = suc (length xs)

  abbrev pub take : ℕ → List A → List A
  take zero xs = []
  take (suc n) [] = []
  take (suc n) (x ∷ xs) = x ∷ take n xs

  pub length-append : (xs ys : List A) → length (xs ++ ys) ≡ length xs + length ys
  length-append [] ys = omega arith
  length-append (x ∷ xs) ys = omega (arith, length-append xs ys)

-- The members that pass a Boolean test, in order.
abbrev pub keep {ℓ} : {A : Type ℓ} → (A → Bool) → List A → List A
keep p [] = []
keep p (x ∷ xs) = let rest = keep p xs in elim (p x) [ true ↦ x ∷ rest | false ↦ rest ]

pub mem_cases {ℓ} : {A : Type ℓ} {t u : A} {ts : List A} → Memᴰ t (u ∷ ts) → (t ≡ u) ⊎ Memᴰ t ts
mem_cases (Memᴰ.head e) = inl e
mem_cases (Memᴰ.tail m) = inr m

-- A member of what was kept is a member that passed the test.
pub keep-mem {ℓ} :
    {A : Type ℓ} (p : A → Bool) (ts : List A) (t : A)
    → Memᴰ t (keep p ts)
    → Memᴰ t ts × (p t ≡ true)
keep-mem p [] t m = elim m [ ]
keep-mem p (u ∷ ts) t m = elim (Bool-cases (p u)) [
  | inl c ↦ elim (mem_cases (rw (c, keep) at m)) [
    | inl e ↦ (Memᴰ.head e, rw e c)
    | inr n ↦ (Memᴰ.tail (keep-mem p ts t n).0, (keep-mem p ts t n).1)
  ]
  | inr c ↦ let n = keep-mem p ts t (rw (c, keep) at m) in (Memᴰ.tail n.0, n.1)
]

abbrev pub All {ℓ κ} : {A : Type ℓ} → (A → Type κ) → List A → Type κ
All P [] = Unit
All P (x ∷ xs) = P x × All P xs

pub All-append {ℓ κ} :
    {A : Type ℓ} (P : A → Type κ) (xs ys : List A) → All P xs → All P ys → All P (xs ++ ys)
All-append P [] ys hx hy = hy
All-append P (x ∷ xs) ys hx hy = (hx.0, All-append P xs ys hx.1 hy)

-- The stable sort `sorted(…)`, by a test of what may stand first.
abbrev pub insert_by {ℓ} : {A : Type ℓ} → (A → A → Bool) → A → List A → List A
insert_by first x [] = x ∷ []
insert_by first x (y ∷ ys) =
    let rest = insert_by first x ys in elim (first x y) [ true ↦ x ∷ y ∷ ys | false ↦ y ∷ rest ]

abbrev pub sort_by {ℓ} : {A : Type ℓ} → (A → A → Bool) → List A → List A
sort_by first [] = []
sort_by first (x ∷ xs) = insert_by first x (sort_by first xs)
