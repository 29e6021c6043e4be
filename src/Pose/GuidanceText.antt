-- ===== src/Pose/GuidanceText.antt =====
-- frontend/src/pose/guidance-text.ts: the text of a status with its hints, in English, which every
-- locale falls back to.
pub mod Laws
use Prim.Native.String.{String, ◌++◌ as append}
use portrait_booth.Base.{List, [], ◌∷◌, map}
use portrait_booth.Pose.Tracking.{GuidanceStatus, GuidanceHint}

unfoldable pub hint_text : GuidanceHint → String
hint_text GuidanceHint.move_closer = "move a little closer"
hint_text GuidanceHint.move_farther = "move a little farther away"
hint_text GuidanceHint.move_own_left = "move to your own left"
hint_text GuidanceHint.move_own_right = "move to your own right"
hint_text GuidanceHint.move_up = "move up a little"
hint_text GuidanceHint.move_down = "move down a little"
hint_text GuidanceHint.adjust_position = "adjust your position"
hint_text GuidanceHint.turn_own_left = "turn slightly to your own left"
hint_text GuidanceHint.turn_own_right = "turn slightly to your own right"
hint_text GuidanceHint.raise_head = "raise your head a little"
hint_text GuidanceHint.lower_head = "lower your head a little"
hint_text GuidanceHint.level_own_left = "tilt your head to your own left to level it"
hint_text GuidanceHint.level_own_right = "tilt your head to your own right to level it"
hint_text GuidanceHint.hold_still = "hold this pose"

unfoldable pub shell_text : GuidanceStatus → String
shell_text GuidanceStatus.no_face = "No face detected: please step into the frame."
shell_text GuidanceStatus.multi_face =
    "Multiple faces detected: please make sure only one person is in the frame."
shell_text GuidanceStatus.out_of_position = "Face position needs adjustment: "
shell_text GuidanceStatus.unstable = "Pose needs adjustment: "
shell_text GuidanceStatus.ready =
    "Pose stable, ready to shoot (heuristic judgment, not official tolerance)."

-- `join(", ")`.
unfoldable pub join_hints : List String → String
join_hints [] = ""
join_hints (t ∷ []) = t
join_hints (t ∷ u ∷ texts) = append t (append ", " (join_hints (u ∷ texts)))

-- The hints, or the one that stands for none.
unfoldable pub effective : GuidanceHint → List GuidanceHint → List GuidanceHint
effective fallback [] = fallback ∷ []
effective fallback (h ∷ hs) = h ∷ hs

unfoldable pub sentence : GuidanceStatus → List GuidanceHint → String
unfolding hint_text shell_text join_hints
sentence status hints = append (shell_text status) (append (join_hints (map hint_text hints)) ".")

unfoldable pub format_guidance : GuidanceStatus → List GuidanceHint → String
unfolding sentence effective shell_text
format_guidance GuidanceStatus.out_of_position hints =
    sentence GuidanceStatus.out_of_position (effective GuidanceHint.adjust_position hints)
format_guidance GuidanceStatus.unstable hints =
    sentence GuidanceStatus.unstable (effective GuidanceHint.hold_still hints)
format_guidance status hints = shell_text status
