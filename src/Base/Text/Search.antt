-- ===== src/Base/Text/Search.antt =====
-- The text functions of the standard library that look at a part of a text: `contains`,
-- `strip_suffix`, `trim`, `len` and a slice from the start, which count bytes of UTF-8.
use Prim.Native.Nat.{ℕ, ◌+◌, ◌-◌}
use Prim.Native.Char.{Char, code}
use Prim.Native.String.{String}
use mathlib.Core.Bool.{Bool, true, false, ◌||◌, ◌&&◌}
use mathlib.Core.Option.{Option, none, some}
use neutron_contracts.Base.Tests.{eqb, if◌then◌else◌, leb, ltb}

-- `s.starts_with(prefix)`
unfoldable pub starts_with : String → String → Bool
starts_with String.[] s = true
starts_with (String.◌∷◌ c prefix) String.[] = false
starts_with (String.◌∷◌ c prefix) (String.◌∷◌ d s) = eqb (code c) (code d) && starts_with prefix s

-- `s.contains(part)`
unfoldable pub has_text : String → String → Bool
unfolding starts_with
has_text part String.[] = starts_with part String.[]
has_text part (String.◌∷◌ d s) = starts_with part (String.◌∷◌ d s) || has_text part s

abbrev pub same_text : String → String → Bool
same_text String.[] String.[] = true
same_text (String.◌∷◌ c s) (String.◌∷◌ d t) = eqb (code c) (code d) && same_text s t
same_text _ _ = false

abbrev pub cons_text : Char → Option String → Option String
cons_text c none = none
cons_text c (some s) = some (String.◌∷◌ c s)

-- `s.strip_suffix(suffix)`
unfoldable pub strip_suffix : String → String → Option String
strip_suffix suffix String.[] = if same_text suffix String.[] then some String.[] else none
strip_suffix suffix (String.◌∷◌ d s) =
    let rest = strip_suffix suffix s in
    if same_text suffix (String.◌∷◌ d s) then some String.[] else cons_text d rest

-- `char::is_whitespace`: the characters with the Unicode property `White_Space`.
abbrev pub is_whitespace : Char → Bool
is_whitespace c =
    let n = code c in
    leb 9 n && leb n 13
    || eqb n 32
    || eqb n 133
    || eqb n 160
    || eqb n 5760
    || leb 8192 n && leb n 8202
    || eqb n 8232
    || eqb n 8233
    || eqb n 8239
    || eqb n 8287
    || eqb n 12288

-- `s.trim().is_empty()`
unfoldable pub is_blank : String → Bool
is_blank String.[] = true
is_blank (String.◌∷◌ c s) = is_whitespace c && is_blank s

-- The bytes of a character in UTF-8.
abbrev pub utf8_length : Char → ℕ
utf8_length c =
    if ltb (code c) 128
    then 1
    else (if ltb (code c) 2048 then 2 else (if ltb (code c) 65536 then 3 else 4))

-- `s.len()`
unfoldable pub byte_length : String → ℕ
byte_length String.[] = 0
byte_length (String.◌∷◌ c s) = utf8_length c + byte_length s

-- `&s[..n]`, which panics past the end and within a character.
unfoldable pub slice_to : ℕ → String → Option String
slice_to n String.[] = if eqb n 0 then some String.[] else none
slice_to n (String.◌∷◌ c s) =
    let rest = slice_to (n - utf8_length c) s in
    if eqb n 0 then some String.[] else (if ltb n (utf8_length c) then none else cons_text c rest)
