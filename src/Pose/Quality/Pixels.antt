-- ===== src/Pose/Quality/Pixels.antt =====
-- frontend/src/pose/quality.ts: the sums over the lumas of a picture. The lumas of the background and of
-- the sharpness are those that were stored as single floats.
use portrait_booth.Base.{
  ℕ, zero, suc, ◌+◌, ◌-◌, ◌*◌, ◌/◌, Bool, not, ◌&&◌, Option, none, some, List, [], ◌∷◌, ◌++◌, map,
  if◌then◌else◌, length, get_elem?, filter, ltb, leb,
}
use portrait_booth.Number.{Number, ◌⊕◌, ◌⊖◌, ◌⊗◌, number_ring}
use portrait_booth.Editor.OutputSize.{whole}
use portrait_booth.Editor.Transform.{nought}
use portrait_booth.Pose.FaceGeometry.{FaceRoi}

pub record BackgroundMetrics {ℓ} (R : Type ℓ) : Type ℓ where
  pub luma_std : R
  pub block_range : R
  pub left_right_diff : R
  pub top_bottom_diff : R

-- The numbers from `k` on, `count` of them.
unfoldable pub range_from : ℕ → ℕ → List ℕ
range_from zero k = []
range_from (suc count) k = k ∷ range_from count (k + 1)

unfoldable pub row : List ℕ → ℕ → List (ℕ × ℕ)
row xs y = map (λ x. (x, y)) xs

-- The pixels of a part of the picture, in the order of the loops over y and x.
unfoldable pub pixels : List ℕ → List ℕ → List (ℕ × ℕ)
unfolding row
pixels xs [] = []
pixels xs (y ∷ ys) = row xs y ++ pixels xs ys

unfoldable pub all_pixels : ℕ → ℕ → List (ℕ × ℕ)
unfolding range_from pixels
all_pixels width height = pixels (range_from width 0) (range_from height 0)

-- The start and the end of a third of an edge.
unfoldable pub third : ℕ → ℕ → List ℕ
unfolding range_from
third i edge =
    let from = i * edge / 3 in
    let to = (i + 1) * edge / 3 in
    range_from ((if ltb to (from + 1) then from + 1 else to) - from) from

-- The nine blocks of the picture.
unfoldable pub blocks : List (ℕ × ℕ)
unfolding pixels range_from
blocks = pixels (range_from 3 0) (range_from 3 0)

module _ {ℓ} {R : Type ℓ} ⦃n : Number R⦄ where
  -- The lumas, before they are stored as single floats.
  unfoldable pub lumas : List ℕ → List R
  lumas (r ∷ g ∷ b ∷ a ∷ rest) =
      (n.lit 299 3 ⊗ whole r ⊕ n.lit 587 3 ⊗ whole g ⊕ n.lit 114 3 ⊗ whole b) ∷ lumas rest
  lumas _ = []

  unfoldable pub sum_from : R → List R → R
  sum_from acc [] = acc
  sum_from acc (x ∷ xs) = sum_from (acc ⊕ x) xs

  unfoldable pub mean : List R → R
  unfolding sum_from
  mean xs = n.div (sum_from nought xs) (whole (length xs))

  unfoldable pub or_zero : Option R → R
  or_zero none = nought
  or_zero (some x) = x

  -- `luma[y * width + x]`, of a pixel of the picture.
  unfoldable pub luma_at : List R → ℕ → ℕ × ℕ → R
  unfolding or_zero
  luma_at luma width p = or_zero (get_elem? luma (p.1 * width + p.0))

  unfoldable pub laplacian : List R → ℕ → ℕ × ℕ → R
  unfolding luma_at
  laplacian luma width p =
      n.ring.neg (n.lit 4 0) ⊗ luma_at luma width p
      ⊕ luma_at luma width (p.0 - 1, p.1)
      ⊕ luma_at luma width (p.0 + 1, p.1)
      ⊕ luma_at luma width (p.0, p.1 - 1)
      ⊕ luma_at luma width (p.0, p.1 + 1)

  -- The loops over the inner pixels; the mean is over all of them.
  unfoldable pub laplacian_variance : List R → ℕ → ℕ → R
  unfolding laplacian pixels range_from sum_from
  laplacian_variance luma width height =
      let inner = pixels (range_from (width - 2) 1) (range_from (height - 2) 1) in
      let vs = map (laplacian luma width) inner in
      let count = whole (width * height) in
      let m = n.div (sum_from nought vs) count in
      n.div (sum_from nought (map (λ v. v ⊗ v) vs)) count ⊖ m ⊗ m

  unfoldable pub in_roi : FaceRoi R → ℕ → ℕ → ℕ × ℕ → Bool
  in_roi roi width height p =
      let w = whole width in
      let h = whole height in
      n.le (n.max nought (n.floor (roi.x ⊗ w))) (whole p.0)
      && n.lt (whole p.0) (n.min w (n.ceil ((roi.x ⊕ roi.width) ⊗ w)))
      && n.le (n.max nought (n.floor (roi.y ⊗ h))) (whole p.1)
      && n.lt (whole p.1) (n.min h (n.ceil ((roi.y ⊕ roi.height) ⊗ h)))

  -- The mean of a part of the background, where it has a pixel.
  unfoldable pub part_mean : List R → Option R
  unfolding mean
  part_mean [] = none
  part_mean (x ∷ xs) = some (mean (x ∷ xs))

  unfoldable pub present : List (Option R) → List R
  present [] = []
  present (none ∷ xs) = present xs
  present (some x ∷ xs) = x ∷ present xs

  unfoldable pub largest : R → List R → R
  largest acc [] = acc
  largest acc (x ∷ xs) = largest (n.max acc x) xs

  unfoldable pub smallest : R → List R → R
  smallest acc [] = acc
  smallest acc (x ∷ xs) = smallest (n.min acc x) xs

  -- `Math.max(...xs) - Math.min(...xs)`, and 0 of no numbers.
  unfoldable pub spread : List R → R
  unfolding largest smallest
  spread [] = nought
  spread (x ∷ xs) = largest x xs ⊖ smallest x xs

  unfoldable pub difference : Option R → Option R → R
  difference (some a) (some b) = n.abs (a ⊖ b)
  difference _ _ = nought

  unfoldable pub background_metrics : List R → ℕ → ℕ → FaceRoi R → Option (BackgroundMetrics R)
  unfolding in_roi luma_at mean all_pixels third part_mean present spread difference pixels
      range_from blocks
  background_metrics luma width height roi =
      let outside = λ (ps : List (ℕ × ℕ)).
        map (luma_at luma width) (filter (λ p. not (in_roi roi width height p)) ps) in
      let all = all_pixels width height in
      let bg = outside all in
      let m = mean bg in
      let squares = map (λ v. n.pow (v ⊖ m) (n.lit 2 0)) bg in
      let block =
        λ (b : ℕ × ℕ). part_mean (outside (pixels (third b.0 width) (third b.1 height))) in
      let half = λ (q : ℕ × ℕ → Bool). part_mean (outside (filter q all)) in
      if n.lt (n.div (whole (length bg)) (whole (width * height))) (n.lit 1 1)
      then none
      else some (record {
        luma_std = n.sqrt (mean squares);
        block_range = spread (present (map block blocks));
        left_right_diff =
            difference (half (λ p. ltb (2 * p.0) width)) (half (λ p. leb width (2 * p.0)));
        top_bottom_diff =
            difference (half (λ p. ltb (2 * p.1) height)) (half (λ p. leb height (2 * p.1)));
      })
