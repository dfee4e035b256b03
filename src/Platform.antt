-- ===== src/Platform.antt =====
-- What the sources call of Windows and of the C runtime. The functions are parameters.
use intent_execution_layer.Common.{Option, [], ◌∷◌, ℕ, leb, length, if◌then◌else◌}
use intent_execution_layer.Text.{Text}
use intent_execution_layer.Float.{Float}

pub record Platform : Type 0 where
  -- WideCharToMultiByte(CP_UTF8, …, -1, …): the bytes written, the closing NUL among them; no byte
  -- when the call fails.
  pub wide_char_to_multi_byte : Text → Text
  -- MultiByteToWideChar(CP_UTF8, …, -1, …), likewise
  pub multi_byte_to_wide_char : Text → Text
  -- ::towlower
  pub towlower : ℕ → ℕ
  -- std::stof, `none` where it throws
  pub stof : Text → Option Float
  -- the text that a stream prints for a float
  pub float_to_string : Float → Text
  -- std::hash of a narrow and of a wide text
  pub hash_string : Text → ℕ
  pub hash_wstring : Text → ℕ

-- result.pop_back()
unfoldable pub pop_back : Text → Text
pop_back [] = []
pop_back (c ∷ []) = []
pop_back (c ∷ d ∷ s) = c ∷ pop_back (d ∷ s)

-- What Narrow and Wide make of the units that the conversion wrote.
unfoldable pub without_terminator : Text → Text
unfolding pop_back
without_terminator written = if leb (length written) 1 then [] else pop_back written

-- Narrow
unfoldable pub narrow : Platform → Text → Text
unfolding without_terminator
narrow platform [] = []
narrow platform (c ∷ s) = without_terminator (platform.wide_char_to_multi_byte (c ∷ s))

-- Wide
unfoldable pub wide : Platform → Text → Text
unfolding without_terminator
wide platform [] = []
wide platform (c ∷ s) = without_terminator (platform.multi_byte_to_wide_char (c ∷ s))
