-- ===== src/Image/Exif.antt =====
-- frontend/src/image/exif.ts: the eight EXIF orientations as affine maps.
pub mod Laws
use portrait_booth.Base.{ℕ, zero, suc, ◌≤◌, Bool, true, false, ◌&&◌, leb, ◌==◌, if◌then◌else◌}
use portrait_booth.Number.{Ring, ◌⊕◌, ◌⊗◌}

pub record Transform2D {ℓ} (R : Type ℓ) : Type ℓ where
  pub a : R
  pub b : R
  pub c : R
  pub d : R
  pub e : R
  pub f : R

pub record Rect {ℓ} (R : Type ℓ) : Type ℓ where
  pub width : R
  pub height : R

pub record Point {ℓ} (R : Type ℓ) : Type ℓ where
  pub x : R
  pub y : R

-- The size after the orientation has been applied.
unfoldable pub normalized_size {ℓ} : {R : Type ℓ} → Rect R → ℕ → Rect R
normalized_size s orientation =
    if leb 5 orientation && leb orientation 8
    then record { width = s.height; height = s.width }
    else s

module _ {ℓ} {R : Type ℓ} ⦃r : Ring R⦄ where
  unfoldable pub identity : Transform2D R
  identity = record { a = r.one; b = r.nought; c = r.nought; d = r.one; e = r.nought; f = r.nought }

  unfoldable pub apply_transform : Transform2D R → R → R → Point R
  apply_transform t x y = record { x = t.a ⊗ x ⊕ t.c ⊗ y ⊕ t.e; y = t.b ⊗ x ⊕ t.d ⊗ y ⊕ t.f }

  -- The `switch`: one row for each orientation, and the identity for any other number.
  unfoldable pub orientation_transform : ℕ → R → R → Transform2D R
  unfolding identity
  orientation_transform orientation raw_w raw_h =
      let nought = r.nought in
      let one = r.one in
      let minus = r.neg r.one in
      if orientation == 1
      then identity
      else if orientation == 2
      then record { a = minus; b = nought; c = nought; d = one; e = raw_w; f = nought }
      else if orientation == 3
      then record { a = minus; b = nought; c = nought; d = minus; e = raw_w; f = raw_h }
      else if orientation == 4
      then record { a = one; b = nought; c = nought; d = minus; e = nought; f = raw_h }
      else if orientation == 5
      then record { a = nought; b = one; c = one; d = nought; e = nought; f = nought }
      else if orientation == 6
      then record { a = nought; b = minus; c = one; d = nought; e = nought; f = raw_w }
      else if orientation == 7
      then record { a = nought; b = minus; c = minus; d = nought; e = raw_h; f = raw_w }
      else if orientation == 8
      then record { a = nought; b = one; c = minus; d = nought; e = raw_h; f = nought }
      else identity

  unfoldable pub with_scale : Transform2D R → R → Transform2D R
  with_scale t scale = record {
    a = t.a ⊗ scale;
    b = t.b ⊗ scale;
    c = t.c ⊗ scale;
    d = t.d ⊗ scale;
    e = t.e ⊗ scale;
    f = t.f ⊗ scale;
  }
