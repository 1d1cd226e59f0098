-- ===== src/Base/Text.antt =====
-- The text functions of the standard library that the contracts use on payloads: `join`, `split`
-- at one character, decimal printing and `parse`.
pub mod RoundTrip
pub mod Search
use Prim.Native.Nat.{ℕ, zero, suc, ◌+◌, ◌-◌, ◌*◌, ◌/◌, ◌%◌}
use Prim.Native.Char.{Char, code}
use Prim.Native.String.{String, ◌++◌}
use mathlib.Core.Bool.{Bool, true, false, ◌||◌, ◌&&◌}
use mathlib.Core.Option.{Option, none, some}
use mathlib.Core.List.{List, [], ◌∷◌}
use neutron_contracts.Base.Tests.{eqb, ltb, leb, if◌then◌else◌}

-- `parts.join(sep)` for a separator of one character
unfoldable pub join : Char → List String → String
join c [] = String.[]
join c (s ∷ []) = s
join c (s ∷ t ∷ parts) = s ++ String.◌∷◌ c (join c (t ∷ parts))

-- Puts a character at the front of the first part.
abbrev pub cons_first : Char → List String → List String
cons_first c [] = String.◌∷◌ c String.[] ∷ []
cons_first c (s ∷ parts) = String.◌∷◌ c s ∷ parts

-- `text.split(sep)`: an empty text has one empty part.
unfoldable pub split : Char → String → List String
split c String.[] = String.[] ∷ []
split c (String.◌∷◌ d s) =
    let rest = split c s in if eqb (code d) (code c) then String.[] ∷ rest else cons_first d rest

abbrev pub has_char : Char → String → Bool
has_char c String.[] = false
has_char c (String.◌∷◌ d s) = eqb (code d) (code c) || has_char c s

abbrev pub is_empty : String → Bool
is_empty String.[] = true
is_empty (String.◌∷◌ d s) = false

unfoldable pub digit : ℕ → Char
digit zero = "0"
digit (suc zero) = "1"
digit (suc (suc zero)) = "2"
digit (suc (suc (suc zero))) = "3"
digit (suc (suc (suc (suc zero)))) = "4"
digit (suc (suc (suc (suc (suc zero))))) = "5"
digit (suc (suc (suc (suc (suc (suc zero)))))) = "6"
digit (suc (suc (suc (suc (suc (suc (suc zero))))))) = "7"
digit (suc (suc (suc (suc (suc (suc (suc (suc zero)))))))) = "8"
digit (suc (suc (suc (suc (suc (suc (suc (suc (suc n))))))))) = "9"

-- Prints with at most `fuel` digits in front of `rest`.
unfoldable pub print_digits : ℕ → ℕ → String → String
unfolding digit
print_digits zero n rest = rest
print_digits (suc fuel) n rest =
    let here = String.◌∷◌ (digit (n % 10)) rest in
    let more = print_digits fuel (n / 10) here in if ltb n 10 then here else more

-- `n.to_string()`; a `u128` has at most 39 digits.
unfoldable pub to_string : ℕ → String
unfolding print_digits
to_string n = print_digits 40 n String.[]

unfoldable pub parse_digits : ℕ → String → Option ℕ
parse_digits acc String.[] = some acc
parse_digits acc (String.◌∷◌ d s) =
    let rest = parse_digits (acc * 10 + (code d - 48)) s in
    if leb 48 (code d) && leb (code d) 57 then rest else none

abbrev pub bounded : ℕ → Option ℕ → Option ℕ
bounded limit none = none
bounded limit (some n) = if ltb n limit then some n else none

-- `text.parse()` into an unsigned integer below `limit`; one leading plus sign is allowed.
unfoldable pub parse : ℕ → String → Option ℕ
unfolding parse_digits
parse limit String.[] = none
parse limit (String.◌∷◌ d String.[]) = bounded limit (parse_digits 0 (String.◌∷◌ d String.[]))
parse limit (String.◌∷◌ d (String.◌∷◌ e s)) =
    bounded limit
      (parse_digits 0 (if eqb (code d) 43 then String.◌∷◌ e s else String.◌∷◌ d (String.◌∷◌ e s)))

-- `format!("{}{}", s, t)`
abbrev pub concat : String → String → String
concat s t = s ++ t
