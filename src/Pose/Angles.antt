-- ===== src/Pose/Angles.antt =====
-- frontend/src/pose/angles.ts: the angles of a face from the landmarker's 4 by 4 matrix, which is stored
-- by columns. An entry that is missing is `undefined`, which is NaN in what is computed with it.
use portrait_booth.Base.{
  ℕ, zero, suc, ◌+◌, ◌*◌, Bool, true, not, ◌&&◌, ◌||◌, Option, none, some, List, ltb, if◌then◌else◌,
  length, get_elem?,
}
use portrait_booth.Number.{Number, ◌⊗◌, number_ring}
use portrait_booth.Editor.Transform.{nought, one}

pub record PoseAngles {ℓ} (R : Type ℓ) : Type ℓ where
  pub yaw : R
  pub pitch : R
  pub roll : R

module _ {ℓ} {R : Type ℓ} ⦃n : Number R⦄ where
  abbrev pub not_a_number : R
  not_a_number = n.div nought nought

  unfoldable pub entry : Option R → R
  entry none = not_a_number
  entry (some x) = x

  unfoldable pub at : List R → ℕ → ℕ → R
  unfolding entry
  at m row col = entry (get_elem? m (col * 4 + row))

  unfoldable pub clamp : R → R → R → R
  clamp v lo hi = n.max lo (n.min hi v)

  abbrev pub rad_to_deg : R
  rad_to_deg = n.div (n.lit 180 0) n.pi

  unfoldable pub matrix_scale : List R → R
  unfolding at
  matrix_scale m = n.hypot3 (at m 0 0) (at m 1 0) (at m 2 0)

  -- `s || 1`: 1 for 0 and for NaN.
  unfoldable pub or_one : R → R
  or_one s = if n.lt s nought || n.lt nought s then s else one

  unfoldable pub decompose_rotation_matrix : List R → PoseAngles R
  unfolding matrix_scale or_one clamp at
  decompose_rotation_matrix m =
      let s = or_one (matrix_scale m) in
      record {
        pitch = n.asin (clamp (n.div (n.ring.neg (at m 1 2)) s) (n.ring.neg one) one) ⊗ rad_to_deg;
        yaw = n.atan2 (at m 0 2) (at m 2 2) ⊗ rad_to_deg;
        roll = n.atan2 (at m 1 0) (at m 1 1) ⊗ rad_to_deg;
      }

  -- The loop over the first entries.
  unfoldable pub all_finite : ℕ → List R → Bool
  unfolding entry
  all_finite zero m = true
  all_finite (suc k) m = n.is_finite (entry (get_elem? m k)) && all_finite k m

  unfoldable pub decompose_face_matrix : List R → Option (PoseAngles R)
  unfolding all_finite matrix_scale decompose_rotation_matrix
  decompose_face_matrix m =
      let angles = decompose_rotation_matrix m in
      if ltb (length m) 16
        || not (all_finite 16 m)
        || n.lt (matrix_scale m) (n.lit 1 6)
        || not (n.is_finite angles.yaw)
        || not (n.is_finite angles.pitch)
        || not (n.is_finite angles.roll)
      then none
      else some angles
