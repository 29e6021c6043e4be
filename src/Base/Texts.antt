-- ===== src/Base/Texts.antt =====
-- The test `===` on texts.
use Prim.Native.String.{String, compare}
use mathlib.Core.Bool.{Bool}
use text.Mathlib.Text.{is_eq}

abbrev pub same_text : String → String → Bool
same_text s t = is_eq (compare s t)
