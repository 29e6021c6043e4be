-- ===== src/Editor/Tests.antt =====
-- frontend/src/editor/edit-transform.ts on whole numbers: a square photo of 10 pixels, and templates
-- made for it.
use portrait_booth.Base.{◌≡◌, refl, ◌⊎◌, false, some, List, [], ◌∷◌, arith}
use portrait_booth.Base.Int.{ℤ, pos, ◌+ℤ◌, ◌-ℤ◌, ◌*ℤ◌}
use portrait_booth.Number.Whole.{whole_numbers}
use portrait_booth.Samples.{square, kept, portrait, squares, flipped}
use portrait_booth.Template.{Permission}
use portrait_booth.Editor.OutputSize.{OutputSizeOption, output_size, resolve_output_size}
use portrait_booth.Editor.OutputSize.Laws.{IsWithin, resolve_output_size-IsWithin}
use portrait_booth.Editor.Transform.{
  EditTransform, is_valid_transform, invert, render_matrix, cover_scale, compose,
}
use portrait_booth.Editor.Fit.{fit_transform, centered}
use portrait_booth.Editor.Fit.Laws.{Scales, Valid}
use portrait_booth.Editor.Fit.Valid.{IsFinite, fit_transform-valid}
use portrait_booth.Editor.Reproject.{
  EditorState, ReprojectNote, mirror_cleared, rotation_cleared, reproject_editor_state,
}
use portrait_booth.Editor.Reproject.Laws.{IsCarried, IsKept, reproject_editor_state-IsCarried}

kept-IsFinite : IsFinite kept
unfolding ◌*ℤ◌
kept-IsFinite = record { finite_x = refl; finite_y = refl }

kept-Scales : Scales square square kept (pos 1)
unfolding ◌*ℤ◌ ◌+ℤ◌ ◌-ℤ◌ is_valid_transform invert render_matrix cover_scale compose
kept-Scales = record {
  Fits = λ s. s ≡ pos 1;
  present = refl;
  floor = refl;
  top = refl;
  between = λ x y hx hy. rw (hx, hy) refl;
  regular = λ s x y h. rw h (_, refl);
}

fit_transform-valid_example :
    (r : EditTransform ℤ) × (fit_transform kept square square (pos 1) ≡ some r)
    × ((r.rotation_deg ≡ pos 0) × (r.flip_x ≡ false))
    × (((is_valid_transform (centered kept (pos 1)) square square ≡ some false)
          × (is_valid_transform (centered kept (pos 1)) square square ≡ some false))
        ⊎ Valid square square r)
fit_transform-valid_example =
    fit_transform-valid square square kept (pos 1) kept-IsFinite kept-Scales

resolve_output_size-IsWithin_example :
    (s : OutputSizeOption) × (resolve_output_size
        (portrait Permission.allowed squares)
        (some (record { width = 20; height = 20 }))
      ≡ some s)
    × IsWithin squares s
resolve_output_size-IsWithin_example =
    resolve_output_size-IsWithin (portrait Permission.allowed squares) squares
      (some (record { width = 20; height = 20 })) refl
      (omega arith, omega arith, omega arith, omega arith)

-- A template that forbids mirroring and rotating sets a flipped and turned photo right.
carried : EditorState ℤ × List ReprojectNote
carried = (
  record { transform = kept; history = record { undo = kept ∷ []; redo = [] } },
  mirror_cleared ∷ rotation_cleared ∷ [],
)

carry : reproject_editor_state flipped square (portrait Permission.forbidden squares) ≡ some carried
unfolding carried reproject_editor_state fit_transform ◌*ℤ◌ ◌+ℤ◌ ◌-ℤ◌ is_valid_transform output_size
carry = refl

reproject_editor_state-IsCarried_example :
    let rev = portrait Permission.forbidden squares in
    IsCarried rev.capabilities square (output_size rev) carried.0.transform
    × IsKept (IsCarried rev.capabilities square (output_size rev)) flipped.history carried.0.history
reproject_editor_state-IsCarried_example =
    reproject_editor_state-IsCarried flipped square (portrait Permission.forbidden squares) carried
      carry
