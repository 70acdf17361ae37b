-- ===== src/Broker/Texts.antt =====
-- The regular expressions of workers/privileged-broker/nova_broker, as tests on texts. A `$` also
-- matches before a newline that ends the text. Digits are those of ASCII.
use Prim.Native.Char.{code}
use nova_ai_agent.Prelude.{
  ℕ, zero, suc, ◌+◌, ◌*◌, ◌-◌, String, Bool, true, false, not, ◌&&◌, ◌||◌, Option, none, some, List,
  [], ◌∷◌, leb, ◌==◌, if◌then◌else◌,
}

abbrev pub codes : String → List ℕ
codes String.[] = []
codes (String.◌∷◌ c s) = code c ∷ codes s

abbrev between : ℕ → ℕ → ℕ → Bool
between low high n = leb low n && leb n high

abbrev pub is_digit : ℕ → Bool
is_digit n = between 48 57 n

abbrev pub is_alphanumeric : ℕ → Bool
is_alphanumeric n = is_digit n || (between 65 90 n || between 97 122 n)

abbrev pub number_in : ℕ → List ℕ → Bool
number_in n [] = false
number_in n (m ∷ ms) = (n == m) || number_in n ms

-- A letter, a digit or one of the other characters.
abbrev pub is_in_class : List ℕ → ℕ → Bool
is_in_class others n = is_alphanumeric n || number_in n others

abbrev is_end : ℕ → List ℕ → Bool
is_end zero [] = true
is_end _ _ = false

-- From `low` to `high` characters that pass the test, and then the end.
unfoldable pub matches_run : (ℕ → Bool) → (low high : ℕ) → List ℕ → Bool
matches_run p low high [] = low == 0
matches_run p low high (c ∷ cs) =
    let rest = matches_run p (low - 1) (high - 1) cs in
    if leb 1 high && p c then rest else (c == 10) && is_end low cs

unfoldable pub matches_after_first : List ℕ → (low high : ℕ) → List ℕ → Bool
unfolding matches_run
matches_after_first others low high [] = false
matches_after_first others low high (c ∷ cs) =
    is_alphanumeric c && matches_run (is_in_class others) low high cs

-- ^[A-Za-z0-9-]{8,64}$
unfoldable pub is_request_id : String → Bool
unfolding matches_run
is_request_id s = matches_run (is_in_class (45 ∷ [])) 8 64 (codes s)

-- _SERVICE
unfoldable pub is_service_name : String → Bool
unfolding matches_run
is_service_name s = matches_run (is_in_class (95 ∷ 46 ∷ 45 ∷ [])) 1 80 (codes s)

-- _NAME
unfoldable pub is_rule_name : String → Bool
unfolding matches_after_first
is_rule_name s = matches_after_first (32 ∷ 95 ∷ 46 ∷ 45 ∷ []) 0 59 (codes s)

-- _PACKAGE
unfoldable pub is_package_id : String → Bool
unfolding matches_after_first
is_package_id s = matches_after_first (46 ∷ 43 ∷ 95 ∷ 45 ∷ []) 1 99 (codes s)

-- The digits at the start, their number and value, and the rest.
unfoldable pub leading_digits : (count value : ℕ) → List ℕ → (ℕ × ℕ) × List ℕ
leading_digits count value [] = ((count, value), [])
leading_digits count value (c ∷ cs) =
    let rest = leading_digits (suc count) (value * 10 + (c - 48)) cs in
    if is_digit c then rest else ((count, value), c ∷ cs)

abbrev at_end : List ℕ → Bool
at_end [] = true
at_end (c ∷ []) = c == 10
at_end (c ∷ d ∷ rest) = false

abbrev second_port : ℕ → (ℕ × ℕ) × List ℕ → Option (ℕ × ℕ)
second_port low ((count, value), rest) =
    if (between 1 5 count) && at_end rest then some (low, value) else none

abbrev after_port : (ℕ × ℕ) × List ℕ → Option (ℕ × ℕ)
after_port ((count, value), []) = if between 1 5 count then some (value, value) else none
after_port ((count, value), (c ∷ cs)) =
    if not (between 1 5 count)
    then none
    else if c == 45
    then second_port value (leading_digits 0 0 cs)
    else if at_end (c ∷ cs)
    then some (value, value)
    else none

-- _PORT, and the two numbers that it matches: the second is the first where there is no range.
unfoldable pub port_range : String → Option (ℕ × ℕ)
unfolding leading_digits
port_range s = after_port (leading_digits 0 0 (codes s))

abbrev number_like : (ℕ × ℕ) × List ℕ → Bool
number_like ((count, value), []) = leb 1 count
number_like ((count, value), (c ∷ cs)) = false

-- str.isdigit
unfoldable pub is_number : String → Bool
unfolding leading_digits
is_number s = number_like (leading_digits 0 0 (codes s))

-- int(s) of a text of digits
unfoldable pub number_of : String → ℕ
unfolding leading_digits
number_of s = (leading_digits 0 0 (codes s)).0.1
