-- ===== src/Base/Text/RoundTrip.antt =====
-- A printed number is parsed again, and joined parts are split again.
use Prim.Native.String.append.{nil as append_nil, cons as append_cons}
use Prim.Native.Char.{Char, code}
use neutron_contracts.Base.{
  All, Bool-cases, List, String, [], ap, arith, false, inl, inr, ltb, nat_eq, pair_eq, refl, some,
  string_eq, suc, zero, ℕ, ◌%◌, ◌*◌, ◌+◌, ◌-◌, ◌/◌, ◌<◌, ◌^◌, ◌∙◌, ◌∷◌, ◌≡◌,
}
use neutron_contracts.Base.Text.{
  concat, digit, has_char, is_empty, join, parse, parse_digits, print_digits, split, to_string,
}

code-digit : (k : ℕ) → k < 10 → code (digit k) ≡ 48 + k
unfolding digit
code-digit zero h = refl
code-digit (suc zero) h = refl
code-digit (suc (suc zero)) h = refl
code-digit (suc (suc (suc zero))) h = refl
code-digit (suc (suc (suc (suc zero)))) h = refl
code-digit (suc (suc (suc (suc (suc zero))))) h = refl
code-digit (suc (suc (suc (suc (suc (suc zero)))))) h = refl
code-digit (suc (suc (suc (suc (suc (suc (suc zero))))))) h = refl
code-digit (suc (suc (suc (suc (suc (suc (suc (suc zero)))))))) h = refl
code-digit (suc (suc (suc (suc (suc (suc (suc (suc (suc n))))))))) h = omega arith

-- One printed digit in front is read.
parse_digits-digit :
    (acc k : ℕ) (rest : String)
    → k < 10
    → parse_digits acc (String.◌∷◌ (digit k) rest) ≡ parse_digits (acc * 10 + k) rest
unfolding parse_digits
parse_digits-digit acc k rest h = ground (arith, code-digit k h)

mod-small : (n : ℕ) → n < 10 → 0 * 10 + n % 10 ≡ n
mod-small n h = omega arith

div-mod : (n : ℕ) → n / 10 * 10 + n % 10 ≡ n
div-mod n = omega arith

div-pow : (n fuel : ℕ) → n < 10 ^ suc fuel → n / 10 < 10 ^ fuel
div-pow n fuel h = omega arith

parse_digits-print_digits :
    (fuel n : ℕ) (rest : String)
    → n < 10 ^ fuel
    → parse_digits 0 (print_digits fuel n rest) ≡ parse_digits n rest
unfolding print_digits
parse_digits-print_digits zero n rest h = ap (λ m. parse_digits m rest) (omega arith)
parse_digits-print_digits (suc fuel) n rest h = elim (Bool-cases (ltb n 10)) [
  | inl small ↦ ground (
    arith,
    parse_digits-digit 0 (n % 10) rest (omega arith),
    ap (λ m. parse_digits m rest) (mod-small n (ground arith)),
  )
  | inr big ↦ ground (
    arith,
    parse_digits-print_digits fuel (n / 10) (String.◌∷◌ (digit (n % 10)) rest) (div-pow n fuel h),
    parse_digits-digit (n / 10) (n % 10) rest (omega arith),
    ap (λ m. parse_digits m rest) (div-mod n),
  )
]

-- The text is one that `parse_digits` accepts: no character of it is below or above the digits.
parse_digits-digits :
    (acc n : ℕ) (s : String) (c : Char)
    → parse_digits acc s ≡ some n
    → 57 < code c
    → has_char c s ≡ false
unfolding parse_digits
parse_digits-digits acc n String.[] c h big = refl
parse_digits-digits acc n (String.◌∷◌ d s) c h big =
    ground (arith, parse_digits-digits (acc * 10 + (code d - 48)) n s c)

print_digits-is_empty :
    (fuel n : ℕ) (rest : String)
    → is_empty rest ≡ false
    → is_empty (print_digits fuel n rest) ≡ false
unfolding print_digits
print_digits-is_empty zero n rest h = h
print_digits-is_empty (suc fuel) n rest h =
    ground (arith, print_digits-is_empty fuel (n / 10) (String.◌∷◌ (digit (n % 10)) rest) refl)

to_string-is_empty : (n : ℕ) → is_empty (to_string n) ≡ false
unfolding to_string print_digits
to_string-is_empty n =
    ground (arith, print_digits-is_empty 39 (n / 10) (String.◌∷◌ (digit (n % 10)) String.[]) refl)

parse_digits-to_string : (n : ℕ) → n < 10 ^ 40 → parse_digits 0 (to_string n) ≡ some n
unfolding to_string parse_digits
parse_digits-to_string n h = parse_digits-print_digits 40 n String.[] h

parse-parse_digits :
    (limit n : ℕ) (s : String)
    → is_empty s ≡ false
    → parse_digits 0 s ≡ some n
    → n < limit
    → parse limit s ≡ some n
unfolding parse parse_digits
parse-parse_digits limit n String.[] full h small = ground arith
parse-parse_digits limit n (String.◌∷◌ d String.[]) full h small = ground arith
parse-parse_digits limit n (String.◌∷◌ d (String.◌∷◌ e s)) full h small = ground arith

-- A number below the limit and of at most forty digits is parsed as it was printed.
pub parse-to_string : (limit n : ℕ) → n < limit → n < 10 ^ 40 → parse limit (to_string n) ≡ some n
parse-to_string limit n small short =
    parse-parse_digits limit n (to_string n) (to_string-is_empty n) (parse_digits-to_string n short)
      small

-- A printed number holds no separator.
pub to_string-has_char :
    (n : ℕ) (c : Char) → n < 10 ^ 40 → 57 < code c → has_char c (to_string n) ≡ false
to_string-has_char n c short big =
    parse_digits-digits 0 n (to_string n) c (parse_digits-to_string n short) big

-- A part without the separator is split off whole.
split-plain : (c : Char) (s : String) → has_char c s ≡ false → split c s ≡ s ∷ []
unfolding split
split-plain c String.[] h = refl
split-plain c (String.◌∷◌ d s) h = ground (arith, split-plain c s)

pub empty-concat : (t : String) → concat String.[] t ≡ t
empty-concat t = λ i. append_nil t i

pub cons-concat : (d : Char) (s t : String) → concat (String.◌∷◌ d s) t ≡ String.◌∷◌ d (concat s t)
cons-concat d s t = λ i. append_cons d s t i

pub split-concat :
    (c : Char) (s t : String)
    → has_char c s ≡ false
    → split c (concat s (String.◌∷◌ c t)) ≡ s ∷ split c t
unfolding split
split-concat c String.[] t h = ground (arith, empty-concat (String.◌∷◌ c t))
split-concat c (String.◌∷◌ d s) t h =
    ground (arith, cons-concat d s (String.◌∷◌ c t), split-concat c s t)

-- Parts without the separator are split as they were joined.
pub split-join :
    (c : Char) (s : String) (parts : List String)
    → All (λ p. has_char c p ≡ false) (s ∷ parts)
    → split c (join c (s ∷ parts)) ≡ s ∷ parts
unfolding join
split-join c s [] all = split-plain c s all.0
split-join c s (t ∷ parts) all =
    split-concat c s (join c (t ∷ parts)) all.0 ∙ ap (λ ps. s ∷ ps) (split-join c t parts all.1)
