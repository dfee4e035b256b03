-- ===== src/Intent/Json/Escape.antt =====
-- Which texts can be read back from what EscapeJson writes.
use intent_execution_layer.Common.{
  ℕ, ◌≡◌, refl, ap, sym, append_assoc, ◌∙◌, Bool, true, false, not, ◌&&◌, ◌||◌, [], ◌∷◌, ◌++◌,
  Option, none, some, arith, leb, ◌==◌, if◌then◌else◌, all,
}
use intent_execution_layer.Text.{Text}
use intent_execution_layer.Intent.Json.{escape_byte, escape_json}

-- The byte that a backslash and the given byte stand for in a JSON string, as far as two bytes do
abbrev unescape_byte : ℕ → Option ℕ
unescape_byte c =
    if c == b'"' || c == b'\\' || c == b'/'
    then some c
    else if c == b'b'
    then some 8
    else if c == b'f'
    then some 12
    else if c == b'n'
    then some b'\n'
    else if c == b'r'
    then some b'\r'
    else if c == b't'
    then some b'\t'
    else none

abbrev with_byte : Option ℕ → Option Text → Option Text
with_byte (some c) (some s) = some (c ∷ s)
with_byte (some c) none = none
with_byte none rest = none

-- A byte that stands for itself in a JSON string: no control byte, quote or backslash
abbrev is_bare : ℕ → Bool
is_bare c = leb b' ' c && (not (c == b'"') && not (c == b'\\'))

-- What a JSON reader makes of the body of a string without `\u`; `none` if it is no such body
abbrev pub read_string_body : Text → Option Text
read_string_body [] = some []
read_string_body (c ∷ []) = if is_bare c then some (c ∷ []) else none
read_string_body (c ∷ d ∷ s) =
    let plain = with_byte (some c) (read_string_body (d ∷ s)) in
    let escaped = with_byte (unescape_byte d) (read_string_body s) in
    if c == b'\\' then escaped else if is_bare c then plain else none

-- The bytes for which EscapeJson has a form that JSON allows: all but the control bytes other than
-- line breaks and tabs
abbrev pub is_writable : ℕ → Bool
is_writable c = leb b' ' c || (c == b'\n' || (c == b'\r' || c == b'\t'))

read_escaped :
    (ch : ℕ) (t : Text)
    → read_string_body (escape_byte ch ++ t)
      ≡ (if is_writable ch then with_byte (some ch) (read_string_body t) else none)
unfolding escape_byte
read_escaped ch [] = ground arith
read_escaped ch (d ∷ t) = ground arith

with_byte_if :
    (ch : ℕ) (s : Text) (b c : Bool)
    → (if b then with_byte (some ch) (if c then some s else none) else none)
      ≡ (if b && c then some (ch ∷ s) else none)
with_byte_if ch s true true = refl
with_byte_if ch s true false = refl
with_byte_if ch s false c = refl

-- What EscapeJson writes for a text is the body of a JSON string that reads as the text, if the text
-- has no control byte but line breaks, carriage returns and tabs; for every other text it is not the
-- body of a JSON string.
pub read_string_body-escape_json :
    (s : Text) → read_string_body (escape_json s) ≡ (if all is_writable s then some s else none)
unfolding escape_json
read_string_body-escape_json [] = refl
read_string_body-escape_json (ch ∷ s) =
    read_escaped ch (escape_json s)
    ∙ ap (λ rest. if is_writable ch then with_byte (some ch) rest else none)
        (read_string_body-escape_json s)
    ∙ with_byte_if ch s (is_writable ch) (all is_writable s)

-- Bytes that EscapeJson leaves as they are
abbrev pub is_plain : ℕ → Bool
is_plain c =
    not (c == b'"')
    && (not (c == b'\\') && (not (c == b'\n') && (not (c == b'\r') && not (c == b'\t'))))

pub escape_json-plain : (s : Text) → all is_plain s ≡ true → escape_json s ≡ s
unfolding escape_json
escape_json-plain [] h = refl
escape_json-plain (c ∷ s) h = ground (arith, escape_json-plain s)

pub escape_json-append : (s t : Text) → escape_json (s ++ t) ≡ escape_json s ++ escape_json t
unfolding escape_json
escape_json-append [] t = refl
escape_json-append (c ∷ s) t =
    ap (◌++◌ (escape_byte c)) (escape_json-append s t)
    ∙ sym (append_assoc (escape_byte c) (escape_json s) (escape_json t))
