-- ===== src/Prelude/Texts.antt =====
-- Texts cut to a number of characters, and a table from texts to values.
use Prim.Native.Nat.{ℕ, zero, suc, ◌-◌, ◌≤◌}
use Prim.Native.String.{String, ◌++◌ as append_text}
use mathlib.Core.Bool.{Bool, true, false}
use mathlib.Core.Path.{◌≡◌, refl}
use mathlib.Core.Option.{Option, none, some}
use mathlib.Core.List.{List, [], ◌∷◌}
use native.Mathlib.Omega.{arith}
use text.Mathlib.TextEquality.{eq_iff}
use nova_ai_agent.Prelude.Tests.{str_eq, if◌then◌else◌}

-- The first `n` characters, `s[:n]`.
abbrev pub cut : ℕ → String → String
cut zero s = ""
cut (suc n) String.[] = ""
cut (suc n) (String.◌∷◌ c s) = String.◌∷◌ c (cut n s)

abbrev pub chars : String → ℕ
chars String.[] = 0
chars (String.◌∷◌ c s) = suc (chars s)

-- s.startswith(p)
abbrev pub starts_with : String → String → Bool
starts_with p s = str_eq (cut (chars p) s) p

-- `s.replace(old, new)` of a text `old` that is not empty; `skip` counts the characters of an
-- occurrence that are still to pass.
abbrev pub replace_after : String → String → (skip : ℕ) → String → String
replace_after old new skip String.[] = ""
replace_after old new (suc skip) (String.◌∷◌ c s) = replace_after old new skip s
replace_after old new zero (String.◌∷◌ c s) = elim (starts_with old (String.◌∷◌ c s)) [
  | true ↦ append_text new (replace_after old new (chars old - 1) s)
  | false ↦ String.◌∷◌ c (replace_after old new 0 s)
]

abbrev pub replace : String → String → String → String
replace old new s = replace_after old new 0 s

pub chars-cut : (n : ℕ) (s : String) → chars (cut n s) ≤ n
chars-cut zero s = omega arith
chars-cut (suc n) String.[] = omega arith
chars-cut (suc n) (String.◌∷◌ c s) = omega (arith, chars-cut n s)

module _ {ℓ} {V : Type ℓ} where
  abbrev pub lookup : String → List (String × V) → Option V
  lookup k [] = none
  lookup k ((j, v) ∷ m) = if str_eq j k then some v else lookup k m

  abbrev pub insert : String → V → List (String × V) → List (String × V)
  insert key value [] = (key, value) ∷ []
  insert key value ((other, kept) ∷ rest) =
      if str_eq other key then (key, value) ∷ rest else (other, kept) ∷ insert key value rest

  pub lookup-insert :
      (k j : String) (v : V) (m : List (String × V))
      → lookup j (insert k v m) ≡ (if str_eq k j then some v else lookup j m)
  lookup-insert k j v [] = refl
  lookup-insert k j v ((i, w) ∷ m) =
      ground (arith, eq_iff k j, eq_iff i k, eq_iff i j, lookup-insert k j v m)
