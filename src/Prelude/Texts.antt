-- ===== src/Prelude/Texts.antt =====
-- Sorted tuples of texts, which compare by their characters.
use Prim.Native.String.{String, compare}
use text.Mathlib.Text.{is_lt}
use mathlib.Core.Bool.{Bool, true, ◌&&◌}
use mathlib.Core.List.{List, [], ◌∷◌}

abbrev pub text_lt : String → String → Bool
text_lt s t = is_lt (compare s t)

-- `value == tuple(sorted(set(value)))`: strictly ascending
abbrev pub ascending : List String → Bool
ascending [] = true
ascending (s ∷ []) = true
ascending (s ∷ t ∷ ss) = text_lt s t && ascending (t ∷ ss)
