-- ===== src/Text.antt =====
-- std::string and std::string_view as lists of bytes, std::wstring as lists of UTF-16 units, with
-- the helpers that several sources define for themselves: NormalizeAsciiLower, LowerAscii, Trim,
-- Split (core/intent/src/Intent.cpp, core/execution/src/ActionSequence.cpp), and what these use of
-- the standard library (find, from_chars, to_string).
pub mod Equality
pub mod Find
pub mod Trim
pub mod Split
pub mod Number
pub mod Dict
use Prim.Native.Char.{code}
use intent_execution_layer.Common.{
  ℕ, zero, suc, ◌+◌, ◌-◌, Bool, true, false, ◌&&◌, ◌||◌, String, List, [], ◌∷◌, ◌++◌, map, Option,
  none, some, ltb, leb, ◌==◌, if◌then◌else◌,
}

abbrev pub Text : Type 0
Text = List ℕ

-- The bytes of a literal.
unfoldable pub text : String → Text
text String.[] = []
text (String.◌∷◌ c s) = code c ∷ text s

unfoldable pub text_eq : Text → Text → Bool
text_eq [] [] = true
text_eq (a ∷ s) (b ∷ t) = a == b && text_eq s t
text_eq _ _ = false

-- operator< of std::string: lexicographic on unsigned bytes
unfoldable pub text_lt : Text → Text → Bool
text_lt [] [] = false
text_lt [] (b ∷ t) = true
text_lt (a ∷ s) [] = false
text_lt (a ∷ s) (b ∷ t) = ltb a b || (a == b && text_lt s t)

-- NormalizeAsciiLower and LowerAscii, on one byte
unfoldable pub lower_byte : ℕ → ℕ
lower_byte c = if leb b'A' c && leb c b'Z' then c - b'A' + b'a' else c

unfoldable pub normalize_ascii_lower : Text → Text
unfolding lower_byte
normalize_ascii_lower s = map lower_byte s

-- value.find(c): the offset of the first occurrence
unfoldable pub find_char : ℕ → Text → Option ℕ
find_char c [] = none
find_char c (a ∷ s) =
    let rest : Option ℕ = elim (find_char c s) [ none ↦ none | some i ↦ some (suc i) ] in
    if a == c then some 0 else rest

unfoldable pub starts_with : Text → Text → Bool
starts_with [] s = true
starts_with (p ∷ pattern) [] = false
starts_with (p ∷ pattern) (a ∷ s) = p == a && starts_with pattern s

-- value.find(pattern)
unfoldable pub find : Text → Text → Option ℕ
find pattern [] = if starts_with pattern [] then some 0 else none
find pattern (a ∷ s) =
    let rest : Option ℕ = elim (find pattern s) [ none ↦ none | some i ↦ some (suc i) ] in
    if starts_with pattern (a ∷ s) then some 0 else rest

unfoldable pub is_space : ℕ → Bool
is_space c = c == b' ' || c == b'\t' || c == b'\r' || c == b'\n'

-- The first loop of Trim moves `start` past white space.
unfoldable pub trim_start : Text → Text
trim_start [] = []
trim_start (c ∷ s) = let rest = trim_start s in if is_space c then rest else c ∷ s

-- The second loop moves `end` back over white space.
unfoldable pub trim_end : Text → Text
trim_end [] = []
trim_end (c ∷ s) = elim (trim_end s) [ [] ↦ if is_space c then [] else c ∷ [] | d ∷ r ↦ c ∷ d ∷ r ]

unfoldable pub trim : Text → Text
trim s = trim_end (trim_start s)

unfoldable pub split_step : ℕ → ℕ → List Text → List Text
split_step d c [] = [] ∷ []
split_step d c (part ∷ parts) = if c == d then [] ∷ part ∷ parts else (c ∷ part) ∷ parts

-- Split: the parts between delimiters, one at least
unfoldable pub split : Text → ℕ → List Text
unfolding split_step
split [] d = [] ∷ []
split (c ∷ s) d = split_step d c (split s d)
