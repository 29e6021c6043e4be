-- ===== src/Editor/Transform.antt =====
-- frontend/src/editor/edit-transform.ts: the edit transform and the matrix that it stands for.
use portrait_booth.Base.{Bool, false, not, ◌&&◌, ◌||◌, Option, none, some, if◌then◌else◌, ◌>>=◌}
use portrait_booth.Number.{Number, ◌⊕◌, ◌⊖◌, ◌⊗◌, number_ring}
use portrait_booth.Image.Exif.{Transform2D, Rect, apply_transform}

pub record EditTransform {ℓ} (R : Type ℓ) : Type ℓ where
  pub translate_x : R
  pub translate_y : R
  pub scale : R
  pub rotation_deg : R
  pub flip_x : Bool

module _ {ℓ} {R : Type ℓ} ⦃n : Number R⦄ where
  abbrev pub nought : R
  nought = n.lit 0 0

  abbrev pub one : R
  one = n.lit 1 0

  abbrev pub two : R
  two = n.lit 2 0

  unfoldable pub identity_transform : EditTransform R
  identity_transform = record {
    translate_x = nought;
    translate_y = nought;
    scale = one;
    rotation_deg = nought;
    flip_x = false;
  }

  abbrev pub min_scale_floor : R
  min_scale_floor = one

  abbrev pub max_scale : R
  max_scale = n.lit 8 0

  -- The angle brought to -180 to 180 degrees.
  unfoldable pub normalize_rotation_deg : R → R
  normalize_rotation_deg deg =
      let full = n.lit 360 0 in
      let half = n.lit 180 0 in
      let d = n.rem deg full in
      let e = if n.lt half d then d ⊖ full else d in
      if n.lt e (n.ring.neg half) then e ⊕ full else e

  unfoldable pub cover_scale : Rect R → Rect R → R
  cover_scale src out = n.max (n.div out.width src.width) (n.div out.height src.height)

  -- `a · b`, which applies `b` first.
  unfoldable pub compose : Transform2D R → Transform2D R → Transform2D R
  compose m k = record {
    a = m.a ⊗ k.a ⊕ m.c ⊗ k.b;
    b = m.b ⊗ k.a ⊕ m.d ⊗ k.b;
    c = m.a ⊗ k.c ⊕ m.c ⊗ k.d;
    d = m.b ⊗ k.c ⊕ m.d ⊗ k.d;
    e = m.a ⊗ k.e ⊕ m.c ⊗ k.f ⊕ m.e;
    f = m.b ⊗ k.e ⊕ m.d ⊗ k.f ⊕ m.f;
  }

  -- `none` is the thrown "singular matrix".
  unfoldable pub invert : Transform2D R → Option (Transform2D R)
  invert m =
      let det = m.a ⊗ m.d ⊖ m.b ⊗ m.c in
      let a = n.div m.d det in
      let b = n.div (n.ring.neg m.b) det in
      let c = n.div (n.ring.neg m.c) det in
      let d = n.div m.a det in
      if n.eq det nought
      then none
      else some (record {
        a = a;
        b = b;
        c = c;
        d = d;
        e = n.ring.neg (a ⊗ m.e ⊕ c ⊗ m.f);
        f = n.ring.neg (b ⊗ m.e ⊕ d ⊗ m.f);
      })

  -- A translation, and a map that keeps the origin.
  abbrev pub translation : R → R → Transform2D R
  translation x y = record { a = one; b = nought; c = nought; d = one; e = x; f = y }

  abbrev pub linear : (a b c d : R) → Transform2D R
  linear a b c d = record { a = a; b = b; c = c; d = d; e = nought; f = nought }

  -- Cover, user scale about the center, flip, rotation about the center, translation.
  unfoldable pub render_matrix : EditTransform R → Rect R → Rect R → Transform2D R
  unfolding cover_scale compose
  render_matrix t src out =
      let cs = cover_scale src out in
      let off_x = n.div (out.width ⊖ src.width ⊗ cs) two in
      let off_y = n.div (out.height ⊖ src.height ⊗ cs) two in
      let theta = n.div (t.rotation_deg ⊗ n.pi) (n.lit 180 0) in
      let cos = n.cos theta in
      let sin = n.sin theta in
      let cx = n.div out.width two in
      let cy = n.div out.height two in
      let cover : Transform2D R = record {
        a = cs;
        b = nought;
        c = nought;
        d = cs;
        e = off_x;
        f = off_y;
      } in
      let to_center = translation cx cy in
      let back = translation (n.ring.neg cx) (n.ring.neg cy) in
      let flip : Transform2D R =
        if t.flip_x
        then record {
          a = n.ring.neg one;
          b = nought;
          c = nought;
          d = one;
          e = out.width;
          f = nought;
        }
        else translation nought nought in
      compose (translation (t.translate_x ⊗ out.width) (t.translate_y ⊗ out.height)) (
        compose to_center (
          compose (linear cos (n.ring.neg sin) sin cos) (
            compose back (
              compose flip (
                compose to_center
                  (compose (linear t.scale nought nought t.scale) (compose back cover)))))))

  -- The test of one corner: its place in the source, with a tolerance of 1e-6.
  unfoldable pub corner_inside : Transform2D R → Rect R → R → R → Bool
  unfolding apply_transform
  corner_inside inv src x y =
      let p = apply_transform inv x y in
      let slack = n.lit 1 6 in
      not (
        n.lt p.x (n.ring.neg slack)
        || n.lt (src.width ⊕ slack) p.x
        || n.lt p.y (n.ring.neg slack)
        || n.lt (src.height ⊕ slack) p.y)

  -- The loop over the four corners; `none` is the exception of `invert`.
  unfoldable pub is_valid_transform : EditTransform R → Rect R → Rect R → Option Bool
  unfolding invert render_matrix corner_inside
  is_valid_transform t src out = do
    inv ← invert (render_matrix t src out)
    some (
        corner_inside inv src nought nought
        && corner_inside inv src out.width nought
        && corner_inside inv src nought out.height
        && corner_inside inv src out.width out.height)
