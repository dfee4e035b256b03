-- ===== src/Intent/Json/Extract.antt =====
-- What ExtractJsonString makes of a member that Serialize has written.
use native.Mathlib.Nat.{zero-add, suc-add}
use intent_execution_layer.Common.{
  ℕ, ◌+◌, ◌≡◌, refl, ap, ◌∙◌, true, not, [], ◌∷◌, ◌++◌, some, arith, ◌==◌, all, length, drop,
  append_assoc, drop-length-append, take-length-append,
}
use intent_execution_layer.Text.{Text, find_char}
use intent_execution_layer.Text.Find.{absent_before, find-append, find_char-append}
use intent_execution_layer.Intent.Json.{
  escape_json, escape_byte, key_pattern, after_char, after_key, extract_json_string,
}
use intent_execution_layer.Intent.Json.Serialize.{string_member}
use intent_execution_layer.Intent.Json.Escape.{is_plain, escape_json-plain}

drop_key :
    (before pattern rest : Text)
    → drop (length before + length pattern) (before ++ (pattern ++ rest)) ≡ rest
drop_key [] pattern rest = rw (zero-add (length pattern)) (drop-length-append pattern rest)
drop_key (c ∷ before) pattern rest =
    rw (suc-add (length before) (length pattern)) (drop_key before pattern rest)

after_char-cons : (c : ℕ) (s : Text) → after_char c (c ∷ s) ≡ some s
unfolding after_char find_char
after_char-cons c s = ground arith

after_key-append :
    (before key tail : Text)
    → absent_before (key_pattern key) before (key_pattern key ++ (b':' ∷ tail)) ≡ true
    → after_key (before ++ (key_pattern key ++ (b':' ∷ tail))) key ≡ some tail
unfolding after_key
after_key-append before key tail absent =
    rw (find-append (key_pattern key) before (b':' ∷ tail) absent)
      (rw (drop_key before (key_pattern key) (b':' ∷ tail)) (after_char-cons b':' tail))

-- Behind the key that stands first, the value is what stands up to the next quote.
extract_first :
    (before key shown rest : Text)
    → absent_before
        (key_pattern key)
        before
        (key_pattern key ++ (b':' ∷ b'"' ∷ (shown ++ b'"' ∷ rest)))
      ≡ true
    → all (λ a. not (a == b'"')) shown ≡ true
    → extract_json_string
        (before ++ (key_pattern key ++ (b':' ∷ b'"' ∷ (shown ++ b'"' ∷ rest))))
        key
      ≡ some shown
unfolding extract_json_string
extract_first before key shown rest absent unquoted =
    rw (after_key-append before key (b'"' ∷ (shown ++ b'"' ∷ rest)) absent) (
      rw (after_char-cons b'"' (shown ++ b'"' ∷ rest)) (
        rw (find_char-append b'"' shown rest unquoted)
          (ap some (take-length-append shown (b'"' ∷ rest)))))

plain_unquoted : (s : Text) → all is_plain s ≡ true → all (λ a. not (a == b'"')) s ≡ true
plain_unquoted [] h = refl
plain_unquoted (c ∷ s) h = ground (arith, plain_unquoted s)

string_member-append :
    (key value after : Text)
    → string_member key value ++ after
      ≡ key_pattern key ++ (b':' ∷ b'"' ∷ (escape_json value ++ b'"' ∷ after))
unfolding string_member
string_member-append key value after =
    append_assoc (key_pattern key) (b':' ∷ b'"' ∷ (escape_json value ++ b'"' ∷ [])) after
    ∙ ap (λ t. key_pattern key ++ (b':' ∷ b'"' ∷ t))
        (append_assoc (escape_json value) (b'"' ∷ []) after)

-- A string member that Serialize has written is read back as its value, if the quoted key does not
-- stand earlier in the payload and the value has no byte that EscapeJson changes.
pub extract-string_member :
    (before key value after : Text)
    → absent_before (key_pattern key) before (string_member key value ++ after) ≡ true
    → all is_plain value ≡ true
    → extract_json_string (before ++ (string_member key value ++ after)) key ≡ some value
extract-string_member before key value after absent plain =
    let e =
      string_member-append key value after
      ∙ ap (λ t. key_pattern key ++ (b':' ∷ b'"' ∷ (t ++ b'"' ∷ after)))
          (escape_json-plain value plain) in
    rw e (extract_first before key value after (rw e at absent) (plain_unquoted value plain))

cut_escape :
    (shown hidden after : Text)
    → all is_plain shown ≡ true
    → escape_json (shown ++ b'"' ∷ hidden) ++ b'"' ∷ after
      ≡ (shown ++ b'\\' ∷ []) ++ b'"' ∷ (escape_json hidden ++ b'"' ∷ after)
unfolding escape_json escape_byte
cut_escape [] hidden after plain = refl
cut_escape (c ∷ shown) hidden after plain = ground (arith, cut_escape shown hidden after)

cut_unquoted :
    (s : Text) → all is_plain s ≡ true → all (λ a. not (a == b'"')) (s ++ b'\\' ∷ []) ≡ true
cut_unquoted [] h = refl
cut_unquoted (c ∷ s) h = ground (arith, cut_unquoted s)

-- A value with a quote in it does not come back: what is read ends with the backslash that
-- EscapeJson put before the first quote. The quoted key does not stand earlier in the payload, and
-- no byte before the first quote is one that EscapeJson changes.
pub extract-quoted_value :
    (before key shown hidden after : Text)
    → absent_before (key_pattern key) before (string_member key (shown ++ b'"' ∷ hidden) ++ after)
      ≡ true
    → all is_plain shown ≡ true
    → extract_json_string (before ++ (string_member key (shown ++ b'"' ∷ hidden) ++ after)) key
      ≡ some (shown ++ b'\\' ∷ [])
extract-quoted_value before key shown hidden after absent plain =
    let e =
      string_member-append key (shown ++ b'"' ∷ hidden) after
      ∙ ap (λ t. key_pattern key ++ (b':' ∷ b'"' ∷ t)) (cut_escape shown hidden after plain) in
    rw e (
      extract_first before key (shown ++ b'\\' ∷ []) (escape_json hidden ++ b'"' ∷ after)
        (rw e at absent) (cut_unquoted shown plain))
